-- ===== src/Strtol/Tests.antt =====
-- Tests of my_strtol, and its theorems at inputs.
use Prim.Native.Char.{code}
use Prim.Native.String.{String}
use unix_network_programming.Base.{
  ℕ, zero, suc, ◌≡◌, refl, inl, inr, true, false, none, some, [], ◌∷◌, ◌++◌, arith, replicate,
}
use unix_network_programming.Base.Int.{pos, negsuc}
use unix_network_programming.Base.Errno.{einval, erange}
use unix_network_programming.CString.{Bytes}
use unix_network_programming.Strtol.Scan.{Spells}
use unix_network_programming.Strtol.Value.{run_checkstr-value}
use unix_network_programming.Strtol.{
  my_strtol, run_checkstr, returned, null_read, points_at, clears, end_at,
}

abbrev codes : String → Bytes
codes String.[] = []
codes (String.◌∷◌ c s) = code c ∷ codes s

decimal : my_strtol true (codes "  -123") (pos 10) ≡ returned (negsuc 122) none clears
unfolding my_strtol
decimal = refl

hexadecimal :
    my_strtol true (codes "0xFfz") (pos 0) ≡ returned (pos 255) none (points_at (codes "z"))
unfolding my_strtol
hexadecimal = refl

base_11 :
    my_strtol true (codes "123abcd1") (pos 11) ≡ returned (pos 1616) none (points_at (codes "bcd1"))
unfolding my_strtol
base_11 = refl

lone_zero : my_strtol true (codes "0") (pos 8) ≡ returned (pos 0) (some einval) (points_at [])
unfolding my_strtol
lone_zero = refl

null_end : my_strtol false (codes "7") (pos 10) ≡ null_read
unfolding my_strtol
null_end = refl

too_large :
    my_strtol true (codes "9223372036854775808") (pos 10) ≡ returned (pos 0) (some erange) clears
unfolding my_strtol
too_large = refl

Spells-35 : Spells 10 (codes "35") (3 ∷ 5 ∷ [])
Spells-35 = ((omega arith, inl (omega arith, refl)), ((omega arith, inl (omega arith, refl)), tt))

Spells-1F : Spells 16 (codes "1F") (1 ∷ 15 ∷ [])
Spells-1F =
    ((omega arith, inl (omega arith, refl)), ((omega arith, inr (omega arith, inl refl)), tt))

Spells-17 : Spells 8 (codes "17") (1 ∷ 7 ∷ [])
Spells-17 = ((omega arith, inl (omega arith, refl)), ((omega arith, inl (omega arith, refl)), tt))

run_checkstr-value_example :
    run_checkstr true true 10 (codes "35" ++ codes "z")
    ≡ returned (negsuc 34) none (points_at (codes "z"))
unfolding end_at
run_checkstr-value_example =
    run_checkstr-value 10 true (codes "35") (3 ∷ 5 ∷ []) (codes "z") (omega arith) (omega arith)
      (cc) Spells-35 (inr (inl (omega arith, omega arith, omega arith))) (omega arith)

all_ones : (n : ℕ) → Spells 2 (replicate n b'1') (replicate n 1)
all_ones zero = tt
all_ones (suc n) = ((omega arith, inl (omega arith, refl)), all_ones n)
