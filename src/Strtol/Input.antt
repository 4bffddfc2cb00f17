-- ===== src/Strtol/Input.antt =====
-- my_strtol from the first character of its input: spaces, sign, prefix, digits, and the errors.
use unix_network_programming.Base.{
  ℕ, zero, suc, ◌^◌, ◌≤◌, ◌<◌, ◌≡◌, ◌≢◌, refl, ◌∙◌, ap, ◌⊎◌, inl, inr, Bool, true, false, none,
  some, List, [], ◌∷◌, ◌++◌, arith, replicate, ◌==◌, ◌||◌,
}
use unix_network_programming.Base.Int.{ℤ, pos}
use unix_network_programming.Base.Errno.{einval}
use unix_network_programming.CString.{Bytes, first}
use unix_network_programming.Strtol.{
  skip_spaces, read_sign, is_x, select, checkstr, valid_count, conclude, returned, points_at,
  end_at, finish, run_checkstr, my_strtol,
}
use unix_network_programming.Strtol.Scan.{IsDigit, Spells, Stops}
use unix_network_programming.Strtol.Power.{signed}
use unix_network_programming.Strtol.Value.{value, run_checkstr-value}

-- An optional sign.
pub data Sign : Type 0 where
  absent plus minus : Sign

abbrev pub sign_text : Sign → Bytes
sign_text absent = []
sign_text plus = b'+' ∷ []
sign_text minus = b'-' ∷ []

abbrev pub is_minus : Sign → Bool
is_minus minus = true
is_minus g = false

-- The text behind the sign begins with none of the characters that are skipped before it.
abbrev pub IsPlain : Bytes → Type 0
IsPlain s = (first s ≢ b' ') × (first s ≢ b'+') × (first s ≢ b'-')

skip_plain : (s : Bytes) → first s ≢ b' ' → skip_spaces s ≡ s
unfolding skip_spaces
skip_plain [] h = refl
skip_plain (c ∷ s) h = ground arith

skip_spaces-append : (n : ℕ) (s : Bytes) → skip_spaces (replicate n b' ' ++ s) ≡ skip_spaces s
unfolding skip_spaces
skip_spaces-append zero s = refl
skip_spaces-append (suc n) s = skip_spaces-append n s

skip_signed : (g : Sign) (s : Bytes) → IsPlain s → skip_spaces (sign_text g ++ s) ≡ sign_text g ++ s
skip_signed absent s h = skip_plain s h.0
skip_signed plus s h = skip_plain (b'+' ∷ s) (omega arith)
skip_signed minus s h = skip_plain (b'-' ∷ s) (omega arith)

read_sign_lem : (g : Sign) (s : Bytes) → IsPlain s → read_sign (sign_text g ++ s) ≡ (is_minus g, s)
unfolding read_sign
read_sign_lem absent s h = ground arith
read_sign_lem plus s h = refl
read_sign_lem minus s h = refl

my_strtol_from :
    (has_end : Bool) (n : ℕ) (g : Sign) (s : Bytes) (base : ℤ)
    → IsPlain s
    → my_strtol has_end (replicate n b' ' ++ (sign_text g ++ s)) base
      ≡ conclude has_end (is_minus g) (select base s)
unfolding my_strtol
my_strtol_from has_end n g s base h =
    let e : read_sign (skip_spaces (replicate n b' ' ++ (sign_text g ++ s))) ≡ (is_minus g, s) =
      rw (skip_spaces-append, skip_signed g s h) (read_sign_lem g s h) in
    ap (λ p. conclude has_end p.0 (select base p.1)) e

digit-IsPlain : (b c d : ℕ) (s : Bytes) → b ≤ 36 → IsDigit b c d → IsPlain (c ∷ s)
digit-IsPlain b c d s small h = (ground arith, ground arith, ground arith)

Spells-IsPlain :
    (b : ℕ) (s : Bytes) (ds : List ℕ) (rest : Bytes)
    → b ≤ 36
    → s ≢ []
    → Spells b s ds
    → IsPlain (s ++ rest)
Spells-IsPlain b [] ds rest small ne h = absurd (ne refl)
Spells-IsPlain b (c ∷ s) [] rest small ne h = absurd h
Spells-IsPlain b (c ∷ s) (d ∷ ds) rest small ne h = digit-IsPlain b c d (s ++ rest) small h.0

binary_digit : (c d : ℕ) → IsDigit 2 c d → (c == b'1' || c == b'0') ≡ true
binary_digit c d h = ground arith

-- A base with no prefix of its own keeps the string.
select_base :
    (b : ℕ) (s : Bytes) (ds : List ℕ) (rest : Bytes)
    → 2 ≤ b
    → b ≤ 36
    → b ≢ 8
    → b ≢ 16
    → s ≢ []
    → Spells b s ds
    → select (pos b) (s ++ rest) ≡ checkstr b (s ++ rest)
unfolding select
select_base b [] ds rest two small n8 n16 ne h = absurd (ne refl)
select_base b (c ∷ s) [] rest two small n8 n16 ne h = absurd h
select_base b (c ∷ s) (d ∷ ds) rest two small n8 n16 ne h = ground (arith, binary_digit c d)

-- In a base from 2 to 36 other than 8 and 16, any number of spaces, an optional sign and a nonempty
-- text of digits whose number is below 2^63, before the end or a character that is no digit, are
-- converted to that number, negated behind a minus; errno is left alone.
my_strtol-value :
    (n : ℕ) (g : Sign) (b : ℕ) (s : Bytes) (ds : List ℕ) (rest : Bytes)
    → 2 ≤ b
    → b ≤ 36
    → b ≢ 8
    → b ≢ 16
    → s ≢ []
    → Spells b s ds
    → Stops b rest
    → value b 0 ds < 2 ^ 63
    → my_strtol true (replicate n b' ' ++ (sign_text g ++ (s ++ rest))) (pos b)
      ≡ returned (signed (is_minus g) (value b 0 ds)) none (end_at rest)
unfolding conclude
my_strtol-value n g b s ds rest two small n8 n16 ne h e fits =
    my_strtol_from true n g (s ++ rest) (pos b) (Spells-IsPlain b s ds rest small ne h)
    ∙ ap (conclude true (is_minus g)) (select_base b s ds rest two small n8 n16 ne h)
    ∙ run_checkstr-value b (is_minus g) s ds rest two small ne h e fits

-- The character behind the 0 of a hexadecimal prefix.
abbrev pub IsX : ℕ → Type 0
IsX x = (x ≡ b'x') ⊎ (x ≡ b'X')

select_hex :
    (x : ℕ) (s : Bytes)
    → IsX x
    → (select (pos 16) (b'0' ∷ x ∷ s) ≡ checkstr 16 s)
      × (select (pos 0) (b'0' ∷ x ∷ s) ≡ checkstr 16 s)
unfolding select
select_hex x s h = (ground arith, ground arith)

octal_first : (c d : ℕ) → IsDigit 8 c d → is_x c ≡ false
octal_first c d h = ground arith

select_octal :
    (s : Bytes) (ds : List ℕ) (rest : Bytes)
    → s ≢ []
    → Spells 8 s ds
    → (select (pos 8) (b'0' ∷ (s ++ rest)) ≡ checkstr 8 (s ++ rest))
      × (select (pos 0) (b'0' ∷ (s ++ rest)) ≡ checkstr 8 (s ++ rest))
unfolding select
select_octal [] ds rest ne h = absurd (ne refl)
select_octal (c ∷ s) [] rest ne h = absurd h
select_octal (c ∷ s) (d ∷ ds) rest ne h = (refl, ground (arith, octal_first c d h.0))

zero-IsPlain : (s : Bytes) → IsPlain (b'0' ∷ s)
zero-IsPlain s = (omega arith, omega arith, omega arith)

-- Behind the prefix 0x or 0X the digits are read in base 16, if the base is given as 16 or as 0.
my_strtol_hex :
    (n : ℕ) (g : Sign) (x : ℕ) (s : Bytes) (ds : List ℕ) (rest : Bytes) (base : ℕ)
    → (base ≡ 16) ⊎ (base ≡ 0)
    → IsX x
    → s ≢ []
    → Spells 16 s ds
    → Stops 16 rest
    → value 16 0 ds < 2 ^ 63
    → my_strtol true (replicate n b' ' ++ (sign_text g ++ (b'0' ∷ x ∷ (s ++ rest)))) (pos base)
      ≡ returned (signed (is_minus g) (value 16 0 ds)) none (end_at rest)
unfolding conclude
my_strtol_hex n g x s ds rest base which hx ne h e fits =
    my_strtol_from true n g (b'0' ∷ x ∷ (s ++ rest)) (pos base) (zero-IsPlain (x ∷ (s ++ rest)))
    ∙ ap (conclude true (is_minus g)) (chosen which)
    ∙ run_checkstr-value 16 (is_minus g) s ds rest (omega arith) (omega arith) ne h e fits
  where
    chosen :
        (base ≡ 16) ⊎ (base ≡ 0)
        → select (pos base) (b'0' ∷ x ∷ (s ++ rest)) ≡ checkstr 16 (s ++ rest)
    chosen (inl q) = rw q (select_hex x (s ++ rest) hx).0
    chosen (inr q) = rw q (select_hex x (s ++ rest) hx).1

-- Behind the prefix 0 the digits are read in base 8, if the base is given as 8 or as 0; at least
-- one digit must follow the 0.
my_strtol_octal :
    (n : ℕ) (g : Sign) (s : Bytes) (ds : List ℕ) (rest : Bytes) (base : ℕ)
    → (base ≡ 8) ⊎ (base ≡ 0)
    → s ≢ []
    → Spells 8 s ds
    → Stops 8 rest
    → value 8 0 ds < 2 ^ 63
    → my_strtol true (replicate n b' ' ++ (sign_text g ++ (b'0' ∷ (s ++ rest)))) (pos base)
      ≡ returned (signed (is_minus g) (value 8 0 ds)) none (end_at rest)
unfolding conclude
my_strtol_octal n g s ds rest base which ne h e fits =
    my_strtol_from true n g (b'0' ∷ (s ++ rest)) (pos base) (zero-IsPlain (s ++ rest))
    ∙ ap (conclude true (is_minus g)) (chosen which)
    ∙ run_checkstr-value 8 (is_minus g) s ds rest (omega arith) (omega arith) ne h e fits
  where
    chosen :
        (base ≡ 8) ⊎ (base ≡ 0) → select (pos base) (b'0' ∷ (s ++ rest)) ≡ checkstr 8 (s ++ rest)
    chosen (inl q) = rw q (select_octal s ds rest ne h).0
    chosen (inr q) = rw q (select_octal s ds rest ne h).1

select_zero :
    (rest : Bytes)
    → is_x (first rest) ≡ false
    → (select (pos 8) (b'0' ∷ rest) ≡ checkstr 8 rest)
      × (select (pos 0) (b'0' ∷ rest) ≡ checkstr 8 rest)
unfolding select
select_zero rest nx = (refl, ground arith)

run_checkstr_empty :
    (b : ℕ) (neg : Bool) (r : Bytes)
    → Stops b r
    → run_checkstr true neg b r ≡ returned (pos 0) (some einval) (points_at r)
unfolding run_checkstr finish valid_count
run_checkstr_empty b neg [] e = refl
run_checkstr_empty b neg (c ∷ r) e = ground arith

-- A lone 0, before the end or a character that is no octal digit and no x, is refused with EINVAL
-- in base 0 and in base 8; the end pointer gets the text behind the 0.
my_strtol_lone_zero :
    (n : ℕ) (g : Sign) (rest : Bytes) (base : ℕ)
    → (base ≡ 8) ⊎ (base ≡ 0)
    → is_x (first rest) ≡ false
    → Stops 8 rest
    → my_strtol true (replicate n b' ' ++ (sign_text g ++ (b'0' ∷ rest))) (pos base)
      ≡ returned (pos 0) (some einval) (points_at rest)
unfolding conclude
my_strtol_lone_zero n g rest base which nx e =
    my_strtol_from true n g (b'0' ∷ rest) (pos base) (zero-IsPlain rest)
    ∙ ap (conclude true (is_minus g)) (chosen which nx)
    ∙ run_checkstr_empty 8 (is_minus g) rest e
  where
    chosen :
        (base ≡ 8) ⊎ (base ≡ 0)
        → is_x (first rest) ≡ false
        → select (pos base) (b'0' ∷ rest) ≡ checkstr 8 rest
    chosen (inl q) nx = rw q (select_zero rest nx).0
    chosen (inr q) nx = rw q (select_zero rest nx).1
