-- ===== src/CString.antt =====
-- my_strcmp and my_strlcpy of my_ emulation/library_functions. A C string is the list of the
-- characters before its NUL, each a number below 128, so that the sign of `char` plays no part.
pub mod Compare
pub mod Copy
mod Tests
use unix_network_programming.Base.{
  ℕ, zero, suc, ◌+◌, Bool, Option, none, some, List, [], ◌∷◌, ltb, ◌==◌, if◌then◌else◌, length, set,
}
use unix_network_programming.Base.Int.{ℤ, pos, sub_ℕ}

abbrev pub Bytes : Type 0
Bytes = List ℕ

-- `*s`: past the last character stands the NUL.
abbrev pub first : Bytes → ℕ
first [] = 0
first (c ∷ s) = c

-- The pointers advance together as long as the characters agree.
unfoldable pub my_strcmp : Bytes → Bytes → ℤ
my_strcmp [] [] = pos 0
my_strcmp [] (y ∷ t) = if 0 == y then pos 0 else sub_ℕ 0 y
my_strcmp (x ∷ s) [] = if x == 0 then pos 0 else sub_ℕ x 0
my_strcmp (x ∷ s) (y ∷ t) =
    let rest = my_strcmp s t in if x == y then (if x == 0 then pos 0 else rest) else sub_ℕ x y

-- `*(d + i) = c` in an object that holds `d`; `none` is a write outside of it.
pub store : Bytes → ℕ → ℕ → Option Bytes
store d i c = if ltb i (length d) then some (set d i c) else none

-- The loop over the source; `d_i` counts the characters copied.
copy_loop : (d s : Bytes) (d_len d_i : ℕ) → Option (Bytes × ℕ)
copy_loop d [] d_len d_i = some (d, d_i)
copy_loop d (c ∷ s) d_len d_i =
    let skip = copy_loop d s d_len d_i in
    if ltb d_i d_len
    then elim (store d d_i c) [ none ↦ none | some d' ↦ copy_loop d' s d_len (d_i + 1) ]
    else skip

-- The memory of the destination afterwards, and the result.
unfoldable pub my_strlcpy : (d s : Bytes) (d_len : ℕ) → Option (Bytes × ℕ)
unfolding copy_loop store
my_strlcpy d s d_len = elim (copy_loop d s d_len 0) [
  | none ↦ none
  | some (d', d_i) ↦ elim (store d' d_i 0) [ none ↦ none | some e ↦ some (e, d_i) ]
]
