-- ===== src/Strtol/Overflow.antt =====
-- Which overflows my_strtol does not notice.
use mathlib.Core.Path.{subst}
use mathlib.Core.List.{reverse, reverse_aux, reverse-append, reverse-cons, append_assoc}
use native.Mathlib.Nat.{pow-suc}
use Prim.Native.Nat.add
use unix_network_programming.Base.{
  ℕ, zero, suc, ◌+◌, ◌*◌, ◌^◌, ◌<◌, ◌≡◌, ◌≢◌, refl, inl, ◌∙◌, ap, true, false, none, some, List, [],
  ◌∷◌, ◌++◌, arith, length,
}
use unix_network_programming.Base.Int.{ℤ, pos, negsuc, ◌*ℤ◌}
use unix_network_programming.CString.{Bytes}
use unix_network_programming.Strtol.{
  convert, power_loop, power, round, wrap, digit, returned, deliver, end_at, run_checkstr,
}
use unix_network_programming.Strtol.Scan.{Spells, Stops, valid_count-Spells, digit_lem}
use unix_network_programming.Strtol.Power.{wrap_pos, add_signed, round_exact}
use unix_network_programming.Strtol.Value.{
  value, low_value, convert_prefix, low_value-reverse_aux, Spells-reverse_aux, no_alarm_plus,
  finish_scanned,
}

zero_mul : (z : ℤ) → pos 0 *ℤ z ≡ pos 0
unfolding ◌*ℤ◌
zero_mul (pos n) = ground arith
zero_mul (negsuc n) = ground arith

power_loop_zero : (n : ℤ) (e : ℕ) → power_loop n e (pos 0) ≡ pos 0
unfolding power_loop
power_loop_zero n zero = refl
power_loop_zero n (suc e) = rw (zero_mul, wrap_pos 0 (omega arith)) (power_loop_zero n e)

power_loop_add :
    (n : ℤ) (a k : ℕ) (r : ℤ) → power_loop n (a + k) r ≡ power_loop n k (power_loop n a r)
unfolding power_loop
power_loop_add n zero k r = rw (add.zero k)
power_loop_add n (suc a) k r = rw (add.suc a k) (power_loop_add n a k (wrap (r *ℤ n)))

-- 2^64 and everything above wraps to 0.
power_high : (k : ℕ) → power (pos 2) (64 + k) ≡ pos 0
unfolding power
power_high k = rw (power_loop_add (pos 2) 64 k (pos 1)) (power_loop_zero (pos 2) k)

term_high : (c k : ℕ) → wrap (power (pos 2) (64 + k) *ℤ digit 2 c) ≡ pos 0
term_high c k = rw (power_high k, zero_mul) (wrap_pos 0 (omega arith))

round_high : (c k acc : ℕ) → acc < 2 ^ 63 → round 2 false c (64 + k) (pos acc) ≡ pos acc
unfolding round
round_high c k acc h =
    rw (round, term_high c k, add_signed, wrap_pos (acc + 0) (omega arith)) (ap pos (omega arith))

convert_high :
    (s : Bytes) (k acc : ℕ) → acc < 2 ^ 63 → convert 2 false s (64 + k) (pos acc) ≡ some (pos acc)
unfolding convert
convert_high [] k acc h = refl
convert_high (c ∷ s) k acc h =
    let eq : 64 + k + 1 ≡ 64 + (k + 1) = omega arith in
    rw (
      convert,
      round_high c k acc h,
      no_alarm_plus acc acc (omega arith),
      eq,
      convert_high s (k + 1) acc h,
    )

-- Binary digits are worth less than 2^n.
low_value-lt : (s : Bytes) (ds : List ℕ) → Spells 2 s ds → low_value 2 ds < 2 ^ length s
low_value-lt [] [] h = omega arith
low_value-lt [] (d ∷ ds) h = absurd h
low_value-lt (c ∷ s) [] h = absurd h
low_value-lt (c ∷ s) (d ∷ ds) h = rw pow-suc (omega (arith, low_value-lt s ds h.1))

length-reverse : (s t : Bytes) → length (reverse_aux s t) ≡ length s + length t
length-reverse [] t = omega arith
length-reverse (c ∷ s) t = omega (arith, length-reverse s (c ∷ t))

-- The digits of the lower half first, then '0', then the others.
convert_missed :
    (hi lo : Bytes) (ls : List ℕ)
    → Spells 2 lo ls
    → length lo ≡ 63
    → convert 2 false (lo ++ b'0' ∷ hi) 0 (pos 0) ≡ some (pos (low_value 2 ls))
unfolding convert
convert_missed hi lo ls h n =
    let small : low_value 2 ls < 2 ^ 63 =
      subst (λ k. low_value 2 ls < 2 ^ k) n (low_value-lt lo ls h) in
    let value_eq : 0 + 2 ^ 0 * low_value 2 ls ≡ low_value 2 ls = omega arith in
    let place : 0 + length lo ≡ 63 = omega arith in
    let next : round 2 false b'0' 63 (pos (low_value 2 ls)) ≡ pos (low_value 2 ls) =
      round_exact 2 false b'0' 0 63 (low_value 2 ls) (omega arith) (omega arith)
        (digit_lem 2 b'0' 0 (omega arith) (omega arith, inl (omega arith, refl)))
      ∙ ap pos (omega arith) in
    convert_prefix 2 false lo ls (b'0' ∷ hi) 0 0 (omega arith) (omega arith) h (omega arith)
    ∙ rw (value_eq, place) (zero_digit hi (low_value 2 ls) next small)
  where
    zero_digit :
        (t : Bytes) (v : ℕ)
        → round 2 false b'0' 63 (pos v) ≡ pos v
        → v < 2 ^ 63
        → convert 2 false (b'0' ∷ t) 63 (pos v) ≡ some (pos v)
    zero_digit t v next small =
        rw (convert, next, no_alarm_plus v v (omega arith)) (convert_high t 0 v small)

Spells-append :
    (b : ℕ) (s : Bytes) (ds : List ℕ) (t : Bytes) (es : List ℕ)
    → Spells b s ds
    → Spells b t es
    → Spells b (s ++ t) (ds ++ es)
Spells-append b [] [] t es h g = g
Spells-append b [] (d ∷ ds) t es h g = absurd h
Spells-append b (c ∷ s) [] t es h g = absurd h
Spells-append b (c ∷ s) (d ∷ ds) t es h g = (h.0, Spells-append b s ds t es h.1 g)

reverse_middle : (hi lo : Bytes) (c : ℕ) → reverse (hi ++ c ∷ lo) ≡ reverse lo ++ c ∷ reverse hi
reverse_middle hi lo c =
    reverse-append hi (c ∷ lo)
    ∙ ap (λ t. t ++ reverse hi) (reverse-cons c lo)
    ∙ append_assoc (reverse lo) (c ∷ []) (reverse hi)

middle-ne-nil : (hi lo : Bytes) (c : ℕ) → hi ++ c ∷ lo ≢ []
middle-ne-nil [] lo c = cc
middle-ne-nil (x ∷ hi) lo c = cc

-- In base 2, of a number with a digit 0 at the place of 2^63 the function returns the part below
-- that place and leaves errno alone, whatever binary digits stand in front: an overflow that they
-- make is not noticed.
run_checkstr_missed :
    (hi lo : Bytes) (hs ls : List ℕ) (rest : Bytes)
    → Spells 2 hi hs
    → Spells 2 lo ls
    → length lo ≡ 63
    → Stops 2 rest
    → run_checkstr true false 2 ((hi ++ b'0' ∷ lo) ++ rest)
      ≡ returned (pos (value 2 0 ls)) none (end_at rest)
unfolding run_checkstr deliver
run_checkstr_missed hi lo hs ls rest h g n e =
    let digits : Spells 2 (hi ++ b'0' ∷ lo) (hs ++ 0 ∷ ls) =
      Spells-append 2 hi hs (b'0' ∷ lo) (0 ∷ ls) h ((omega arith, inl (omega arith, refl)), g) in
    let n' : length (reverse lo) ≡ 63 = omega (arith, length-reverse lo []) in
    rw (
      run_checkstr,
      valid_count-Spells 2 (hi ++ b'0' ∷ lo) (hs ++ 0 ∷ ls) rest (omega arith) digits e,
      finish_scanned 2 false (hi ++ b'0' ∷ lo) rest (middle-ne-nil hi lo b'0'),
      reverse_middle,
      convert_missed (reverse hi) (reverse lo) (reverse ls) (Spells-reverse_aux 2 lo ls [] [] g tt)
          n',
      low_value-reverse_aux 2 ls [],
    )
