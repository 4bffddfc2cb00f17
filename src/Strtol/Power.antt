-- ===== src/Strtol/Power.antt =====
-- The arithmetic of one round, where nothing wraps around.
use native.Mathlib.Nat.{pow-zero, pow-suc, pow-succ'}
use unix_network_programming.Base.{
  ℕ, zero, suc, ◌+◌, ◌*◌, ◌^◌, ◌≤◌, ◌<◌, ◌≡◌, ◌∙◌, ap, Bool, true, false, arith,
}
use unix_network_programming.Base.Int.{ℤ, pos, negsuc, sub_ℕ, ◌+ℤ◌, ◌-ℤ◌, ◌*ℤ◌}
use unix_network_programming.Strtol.{wrap, power_loop, power, digit, round}

pub wrap_pos : (n : ℕ) → n < 2 ^ 63 → wrap (pos n) ≡ pos n
unfolding wrap
wrap_pos n h = ground arith

mul_pos : (a b : ℕ) → pos a *ℤ pos b ≡ pos (a * b)
unfolding ◌*ℤ◌
mul_pos a b = ground arith

mul_zero : (z : ℤ) → z *ℤ pos 0 ≡ pos 0
unfolding ◌*ℤ◌
mul_zero (pos n) = ground arith
mul_zero (negsuc n) = ground arith

pow_pos : (b e : ℕ) → 0 < b → 0 < b ^ e
pow_pos b zero h = rw pow-zero (omega arith)
pow_pos b (suc e) h = rw pow-suc (mul_pos_pos (b ^ e) b (pow_pos b e h) h)
  where
    mul_pos_pos : (x y : ℕ) → 0 < x → 0 < y → 0 < x * y
    mul_pos_pos x y p q = grind arith

le_mul : (x y : ℕ) → 0 < y → x ≤ x * y
le_mul x y h = grind arith

power_loop_exact :
    (b e r : ℕ) → 0 < b → r * b ^ e < 2 ^ 63 → power_loop (pos b) e (pos r) ≡ pos (r * b ^ e)
unfolding power_loop
power_loop_exact b zero r h fits = rw pow-zero (ap pos (omega arith))
power_loop_exact b (suc e) r h fits =
    let eq : r * b ^ suc e ≡ r * b * b ^ e = rw pow-succ' (omega arith) in
    let fits' : r * b * b ^ e < 2 ^ 63 = omega arith in
    let small : r * b < 2 ^ 63 = omega (arith, le_mul (r * b) (b ^ e) (pow_pos b e h)) in
    rw (mul_pos, wrap_pos (r * b) small, power_loop_exact b e (r * b) h fits', eq)

power_exact : (b e : ℕ) → 0 < b → b ^ e < 2 ^ 63 → power (pos b) e ≡ pos (b ^ e)
unfolding power
power_exact b e h fits = power_loop_exact b e 1 h (omega arith) ∙ ap pos (omega arith)

-- The integer that the loop holds when the digits so far are worth `n`.
abbrev pub signed : Bool → ℕ → ℤ
signed true n = sub_ℕ 0 n
signed false n = pos n

term_exact :
    (b e c d : ℕ)
    → 0 < b
    → b ^ e * d < 2 ^ 63
    → digit b c ≡ pos d
    → wrap (power (pos b) e *ℤ digit b c) ≡ pos (b ^ e * d)
term_exact b e c zero h fits is_d =
    rw (is_d, mul_zero, wrap_pos 0 (omega arith)) (ap pos (omega arith))
term_exact b e c (suc d) h fits is_d =
    let small : b ^ e < 2 ^ 63 = omega (arith, le_mul (b ^ e) (suc d) (omega arith)) in
    rw (is_d, power_exact b e h small, mul_pos, wrap_pos (b ^ e * suc d) fits)

wrap_minus : (n : ℕ) → n < 2 ^ 63 → wrap (sub_ℕ 0 n) ≡ sub_ℕ 0 n
unfolding wrap
wrap_minus n h = ground arith

pub add_signed : (m n : ℕ) → pos m +ℤ pos n ≡ pos (m + n)
unfolding ◌+ℤ◌
add_signed m n = ground arith

sub_signed : (m n : ℕ) → sub_ℕ 0 m -ℤ pos n ≡ sub_ℕ 0 (m + n)
unfolding ◌-ℤ◌
sub_signed m n = ground arith

-- A round adds the digit's worth, as long as the sum stays below 2^63.
pub round_exact :
    (b : ℕ) (minus : Bool) (c d e acc : ℕ)
    → 0 < b
    → acc + b ^ e * d < 2 ^ 63
    → digit b c ≡ pos d
    → round b minus c e (signed minus acc) ≡ signed minus (acc + b ^ e * d)
unfolding round
round_exact b true c d e acc h fits is_d =
    rw (
      round,
      term_exact b e c d h (omega arith) is_d,
      sub_signed,
      wrap_minus (acc + b ^ e * d) fits,
    )
round_exact b false c d e acc h fits is_d =
    rw (round, term_exact b e c d h (omega arith) is_d, add_signed, wrap_pos (acc + b ^ e * d) fits)
