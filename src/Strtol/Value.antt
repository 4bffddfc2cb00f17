-- ===== src/Strtol/Value.antt =====
-- What my_strtol returns for a number that fits in 63 bits.
use mathlib.Core.Path.{subst, ap₂}
use mathlib.Core.List.{reverse, reverse_aux, append-nil}
use native.Mathlib.Nat.{pow-zero, pow-suc}
use native.Mathlib.Numerals.{add-one}
use unix_network_programming.Base.{
  ℕ, suc, ◌+◌, ◌*◌, ◌^◌, ◌≤◌, ◌<◌, ◌≡◌, ◌≢◌, refl, ◌∙◌, ap, Bool, true, false, none, some, List, [],
  ◌∷◌, ◌++◌, arith, length, ◌==◌,
}
use unix_network_programming.Base.Int.{pos, ltb_ℤ}
use unix_network_programming.CString.{Bytes}
use unix_network_programming.Strtol.{convert, returned, end_at, deliver, finish, run_checkstr}
use unix_network_programming.Strtol.Scan.{
  Spells, Stops, digit_lem, valid_count-Spells, take_scanned, drop_scanned,
}
use unix_network_programming.Strtol.Power.{signed, round_exact}

-- The number that digits stand for behind `n`, read from the first.
abbrev pub value : ℕ → ℕ → List ℕ → ℕ
value base n [] = n
value base n (d ∷ ds) = value base (n * base + d) ds

-- The same from the last digit on, which comes first in the list.
abbrev pub low_value : ℕ → List ℕ → ℕ
low_value base [] = 0
low_value base (d ∷ ds) = d + base * low_value base ds

no_alarm_minus : (m n : ℕ) → m ≤ n → ltb_ℤ (signed true m) (signed true n) ≡ false
no_alarm_minus m n h = ground arith

pub no_alarm_plus : (m n : ℕ) → m ≤ n → ltb_ℤ (signed false n) (signed false m) ≡ false
no_alarm_plus m n h = ground arith

split_value : (b e acc d v : ℕ) → acc + b ^ e * (d + b * v) ≡ acc + b ^ e * d + b ^ (e + 1) * v
split_value b e acc d v = rw (add-one, pow-suc) (omega arith)

-- A loop over digits, in front of any further characters.
pub convert_prefix :
    (b : ℕ) (minus : Bool) (s : Bytes) (ds : List ℕ) (t : Bytes) (e acc : ℕ)
    → 0 < b
    → b ≤ 36
    → Spells b s ds
    → acc + b ^ e * low_value b ds < 2 ^ 63
    → convert b minus (s ++ t) e (signed minus acc)
      ≡ convert b minus t (e + length s) (signed minus (acc + b ^ e * low_value b ds))
unfolding convert
convert_prefix b minus [] [] t e acc pos_b small h fits =
    ap₂ (λ k n. convert b minus t k (signed minus n)) (omega arith) (omega arith)
convert_prefix b minus [] (d ∷ ds) t e acc pos_b small h fits = absurd h
convert_prefix b minus (c ∷ s) [] t e acc pos_b small h fits = absurd h
convert_prefix b true (c ∷ s) (d ∷ ds) t e acc pos_b small h fits =
    let eq = split_value b e acc d (low_value b ds) in
    let eq' : e + suc (length s) ≡ e + 1 + length s = omega arith in
    let fits' : acc + b ^ e * d + b ^ (e + 1) * low_value b ds < 2 ^ 63 = omega arith in
    rw (
      convert,
      round_exact b true c d e acc pos_b (omega arith) (digit_lem b c d small h.0),
      no_alarm_minus acc (acc + b ^ e * d) (omega arith),
      convert_prefix b true s ds t (e + 1) (acc + b ^ e * d) pos_b small h.1 fits',
      eq,
      eq',
    )
convert_prefix b false (c ∷ s) (d ∷ ds) t e acc pos_b small h fits =
    let eq = split_value b e acc d (low_value b ds) in
    let eq' : e + suc (length s) ≡ e + 1 + length s = omega arith in
    let fits' : acc + b ^ e * d + b ^ (e + 1) * low_value b ds < 2 ^ 63 = omega arith in
    rw (
      convert,
      round_exact b false c d e acc pos_b (omega arith) (digit_lem b c d small h.0),
      no_alarm_plus acc (acc + b ^ e * d) (omega arith),
      convert_prefix b false s ds t (e + 1) (acc + b ^ e * d) pos_b small h.1 fits',
      eq,
      eq',
    )

convert_exact :
    (b : ℕ) (minus : Bool) (s : Bytes) (ds : List ℕ) (e acc : ℕ)
    → 0 < b
    → b ≤ 36
    → Spells b s ds
    → acc + b ^ e * low_value b ds < 2 ^ 63
    → convert b minus s e (signed minus acc) ≡ some (signed minus (acc + b ^ e * low_value b ds))
unfolding convert
convert_exact b minus s ds e acc pos_b small h fits =
    subst
      (λ u.
        convert b minus u e (signed minus acc) ≡ some (signed minus (acc + b ^ e * low_value b ds)))
      (append-nil s) (convert_prefix b minus s ds [] e acc pos_b small h fits)

pub low_value-reverse_aux :
    (b : ℕ) (ds acc : List ℕ) → low_value b (reverse_aux ds acc) ≡ value b (low_value b acc) ds
low_value-reverse_aux b [] acc = refl
low_value-reverse_aux b (d ∷ ds) acc =
    low_value-reverse_aux b ds (d ∷ acc) ∙ ap (λ n. value b n ds) (omega arith)

pub Spells-reverse_aux :
    (b : ℕ) (s : Bytes) (ds : List ℕ) (t : Bytes) (es : List ℕ)
    → Spells b s ds
    → Spells b t es
    → Spells b (reverse_aux s t) (reverse_aux ds es)
Spells-reverse_aux b [] [] t es h g = g
Spells-reverse_aux b [] (d ∷ ds) t es h g = absurd h
Spells-reverse_aux b (c ∷ s) [] t es h g = absurd h
Spells-reverse_aux b (c ∷ s) (d ∷ ds) t es h g =
    Spells-reverse_aux b s ds (c ∷ t) (d ∷ es) h.1 (h.0, g)

convert-reverse :
    (b : ℕ) (minus : Bool) (s : Bytes) (ds : List ℕ)
    → 0 < b
    → b ≤ 36
    → Spells b s ds
    → value b 0 ds < 2 ^ 63
    → convert b minus (reverse s) 0 (pos 0) ≡ some (signed minus (value b 0 ds))
convert-reverse b minus s ds pos_b small h fits =
    let eq : 0 + b ^ 0 * low_value b (reverse ds) ≡ value b 0 ds =
      rw (pow-zero) (omega (arith, low_value-reverse_aux b ds [])) in
    subst (λ n. convert b minus (reverse s) 0 (pos 0) ≡ some (signed minus n)) eq
      (rw (signed_zero minus) (
        convert_exact b minus (reverse s) (reverse ds) 0 0 pos_b small
          (Spells-reverse_aux b s ds [] [] h tt) (omega arith)))
  where
    signed_zero : (m : Bool) → pos 0 ≡ signed m 0
    signed_zero true = refl
    signed_zero false = refl

length-ne-zero : (s : Bytes) → s ≢ [] → (length s == 0) ≡ false
length-ne-zero [] ne = absurd (ne refl)
length-ne-zero (c ∷ s) ne = ground arith

-- The code behind a scan that ended behind `s`.
pub finish_scanned :
    (b : ℕ) (minus : Bool) (s rest : Bytes)
    → s ≢ []
    → finish true minus b (s ++ rest) (length s)
      ≡ deliver (end_at rest) (convert b minus (reverse s) 0 (pos 0))
unfolding finish
finish_scanned b minus s rest ne = rw (finish, length-ne-zero s ne, take_scanned, drop_scanned)

-- A nonempty text of digits whose number is below 2^63, before the end of the string, a letter that
-- is no digit of the base, or, up to base 10, any character above the base's last digit, is
-- converted exactly, negated behind a minus; errno is left alone, and the end pointer gets the rest
-- of the string, or its target a NUL if there is no rest.
pub run_checkstr-value :
    (b : ℕ) (minus : Bool) (s : Bytes) (ds : List ℕ) (rest : Bytes)
    → 2 ≤ b
    → b ≤ 36
    → s ≢ []
    → Spells b s ds
    → Stops b rest
    → value b 0 ds < 2 ^ 63
    → run_checkstr true minus b (s ++ rest)
      ≡ returned (signed minus (value b 0 ds)) none (end_at rest)
unfolding run_checkstr deliver
run_checkstr-value b minus s ds rest two small ne h e fits = rw (
  run_checkstr,
  valid_count-Spells b s ds rest small h e,
  finish_scanned b minus s rest ne,
  convert-reverse b minus s ds (omega arith) small h fits,
)
