-- ===== src/Strtol/Scan.antt =====
-- Digits, and where the scan of my_strtol ends.
use unix_network_programming.Base.{
  ℕ, ◌+◌, ◌-◌, ◌≤◌, ◌<◌, ◌≡◌, refl, ap, ◌⊎◌, true, false, List, [], ◌∷◌, ◌++◌, arith, length, take,
  drop,
}
use unix_network_programming.Base.Int.{pos}
use unix_network_programming.CString.{Bytes}
use unix_network_programming.Strtol.{stops, digit, valid_count}

-- The character `c` is the digit `d` of the base: '0' to '9', then the letters, in either case.
abbrev pub IsDigit : ℕ → ℕ → ℕ → Type 0
IsDigit base c d =
    (d < base)
    × (((d < 10) × (c ≡ b'0' + d)) ⊎ ((10 ≤ d) × ((c ≡ b'A' + (d - 10)) ⊎ (c ≡ b'a' + (d - 10)))))

-- The text spells the digits.
abbrev pub Spells : ℕ → Bytes → List ℕ → Type 0
Spells base [] [] = Unit
Spells base (c ∷ s) (d ∷ ds) = IsDigit base c d × Spells base s ds
Spells base [] (d ∷ ds) = ⊥
Spells base (c ∷ s) [] = ⊥

-- What ends the scan: a letter whose place is not below the base, in either case, or, up to base 10,
-- any character above the base's last digit. Other characters that are no digits do not.
abbrev pub IsStop : ℕ → ℕ → Type 0
IsStop base c =
    ((b'A' ≤ c) × (c ≤ b'Z') × (base + 55 ≤ c))
    ⊎ ((b'a' ≤ c) × (c ≤ b'z') × (base + 87 ≤ c))
    ⊎ ((base ≤ 10) × (b'0' + (base - 1) < c))

-- The text ends, or what ends the scan follows.
abbrev pub Stops : ℕ → Bytes → Type 0
Stops base [] = Unit
Stops base (c ∷ s) = IsStop base c

stops_at : (base c : ℕ) → base ≤ 36 → IsStop base c → stops base c ≡ true
unfolding stops
stops_at base c small h = ground arith

stops_digit : (base c d : ℕ) → base ≤ 36 → IsDigit base c d → stops base c ≡ false
unfolding stops
stops_digit base c d small h = ground arith

pub digit_lem : (base c d : ℕ) → base ≤ 36 → IsDigit base c d → digit base c ≡ pos d
unfolding digit
digit_lem base c d small h = ground arith

pub valid_count-Spells :
    (base : ℕ) (s : Bytes) (ds : List ℕ) (rest : Bytes)
    → base ≤ 36
    → Spells base s ds
    → Stops base rest
    → valid_count base (s ++ rest) ≡ length s
unfolding valid_count
valid_count-Spells base [] [] [] small h e = refl
valid_count-Spells base [] [] (c ∷ rest) small h e = ground (arith, stops_at base c small e)
valid_count-Spells base [] (d ∷ ds) rest small h e = absurd h
valid_count-Spells base (c ∷ s) [] rest small h e = absurd h
valid_count-Spells base (c ∷ s) (d ∷ ds) rest small h e =
    ground (arith, stops_digit base c d small h.0, valid_count-Spells base s ds rest small h.1 e)

pub take_scanned : (s rest : Bytes) → take (length s) (s ++ rest) ≡ s
take_scanned [] rest = refl
take_scanned (c ∷ s) rest = ap (λ t. c ∷ t) (take_scanned s rest)

pub drop_scanned : (s rest : Bytes) → drop (length s) (s ++ rest) ≡ rest
drop_scanned [] rest = refl
drop_scanned (c ∷ s) rest = drop_scanned s rest
