-- ===== src/CString/Copy.antt =====
-- The memory that my_strlcpy leaves behind.
use mathlib.Core.Path.{subst}
use native.Mathlib.Decide.{dec_lt}
use native.Mathlib.Nat.{zero-add}
use mathlib.Core.List.{append_assoc}
use unix_network_programming.Base.{
  ℕ, zero, suc, ◌+◌, ◌≤◌, ◌<◌, ◌≡◌, refl, ap, [], ◌∷◌, ◌++◌, none, some, arith, ltb, if◌then◌else◌,
  length, set, take, drop, length-append, length-take, length-drop, lt→ltb, ◌∙◌, false,
}
use unix_network_programming.CString.{Bytes, store, copy_loop, my_strlcpy}

set-append : (p : Bytes) (x c : ℕ) (d : Bytes) → set (p ++ x ∷ d) (length p) c ≡ p ++ c ∷ d
set-append [] x c d = refl
set-append (y ∷ p) x c d = ap (λ l. y ∷ l) (set-append p x c d)

store-append :
    (p : Bytes) (x c : ℕ) (d : Bytes) → store (p ++ x ∷ d) (length p) c ≡ some (p ++ c ∷ d)
unfolding store
store-append p x c d =
    rw
      (lt→ltb (length p) (length (p ++ x ∷ d)) (omega (arith, length-append p (x ∷ d))), set-append)

store_end : (d : Bytes) (n c : ℕ) → length d ≤ n → store d n c ≡ none
unfolding store
store_end d n c h = ground arith

not-lt→ltb : (a b : ℕ) → ¬ (a < b) → ltb a b ≡ false
not-lt→ltb a b h = ground arith

snoc-length : (p : Bytes) (c : ℕ) → length (p ++ c ∷ []) ≡ length p + 1
snoc-length p c = omega (arith, length-append p (c ∷ []))

-- One round that copies, with the part of the object that is already written in front.
copy_round :
    (p : Bytes) (x c : ℕ) (d s : Bytes) (d_len : ℕ)
    → length p < d_len
    → copy_loop (p ++ x ∷ d) (c ∷ s) d_len (length p)
      ≡ copy_loop ((p ++ c ∷ []) ++ d) s d_len (length (p ++ c ∷ []))
unfolding copy_loop
copy_round p x c d s d_len h =
    rw (lt→ltb (length p) d_len h, store-append, append_assoc, snoc-length)

copy_loop_full : (d s : Bytes) (d_len i : ℕ) → d_len ≤ i → copy_loop d s d_len i ≡ some (d, i)
unfolding copy_loop
copy_loop_full d [] d_len i h = refl
copy_loop_full d (c ∷ s) d_len i h = ground (arith, copy_loop_full d s d_len i)

copy_loop_fits :
    (s p d : Bytes) (d_len : ℕ)
    → length p + length s ≤ d_len
    → length s ≤ length d
    → copy_loop (p ++ d) s d_len (length p)
      ≡ some (p ++ (s ++ drop (length s) d), length p + length s)
copy_loop_fits [] p d d_len h g = unfold copy_loop in ground arith
copy_loop_fits (c ∷ s) p [] d_len h g = absurd (omega arith)
copy_loop_fits (c ∷ s) p (x ∷ d) d_len h g =
    rw
      (
        copy_round p x c d s d_len (omega arith),
        copy_loop_fits s (p ++ c ∷ []) d d_len (omega (arith, snoc-length p c)) (omega arith),
        append_assoc,
      )
      (ground (arith, snoc-length p c))

copy_loop_truncates :
    (s p d : Bytes) (d_len : ℕ) (n : ℕ)
    → length p + n ≡ d_len
    → n ≤ length d
    → n ≤ length s
    → copy_loop (p ++ d) s d_len (length p) ≡ some (p ++ (take n s ++ drop n d), d_len)
copy_loop_truncates s p d d_len zero h g k =
    let e : length p ≡ d_len = omega arith in
    copy_loop_full (p ++ d) s d_len (length p) (omega arith) ∙ ap (λ n. some (p ++ d, n)) e
copy_loop_truncates [] p d d_len (suc n) h g k = absurd (omega arith)
copy_loop_truncates (c ∷ s) p [] d_len (suc n) h g k = absurd (omega arith)
copy_loop_truncates (c ∷ s) p (x ∷ d) d_len (suc n) h g k = rw (
  copy_round p x c d s d_len (omega arith),
  copy_loop_truncates s (p ++ c ∷ []) d d_len n (omega (arith, snoc-length p c)) (omega arith)
      (omega arith),
  append_assoc,
)

drop_step : (n : ℕ) (d : Bytes) → n < length d → (x : ℕ) × (drop n d ≡ x ∷ drop (suc n) d)
drop_step n [] h = absurd (omega arith)
drop_step zero (y ∷ d) h = (y, refl)
drop_step (suc n) (y ∷ d) h = drop_step n d (omega arith)

-- The NUL behind a copied text.
store_behind :
    (p d : Bytes) (n : ℕ)
    → n < length d
    → store (p ++ drop n d) (length p) 0 ≡ some (p ++ 0 ∷ drop (suc n) d)
store_behind p d n h = let (x, e) = drop_step n d h in rw e (store-append p x 0 (drop (suc n) d))

store_cut :
    (d s : Bytes) (n : ℕ)
    → n ≤ length s
    → n < length d
    → store (take n s ++ drop n d) n 0 ≡ some (take n s ++ 0 ∷ drop (suc n) d)
store_cut d s n h room =
    let e : length (take n s) ≡ n = omega (arith, length-take n s) in
    subst (λ k. store (take n s ++ drop n d) k 0 ≡ some (take n s ++ 0 ∷ drop (suc n) d)) e
      (store_behind (take n s) d n room)

-- With no byte left behind the copied text the NUL is written outside.
store_past :
    (d s : Bytes) (n : ℕ)
    → n ≤ length d
    → n ≤ length s
    → ¬ (n < length d)
    → store (take n s ++ drop n d) n 0 ≡ none
store_past d s n g h tight =
    store_end (take n s ++ drop n d) n 0
      (omega (arith, length-append (take n s) (drop n d), length-take n s, length-drop n d))

-- A source shorter than `d_len` is copied whole with its NUL, the rest of the destination is kept,
-- and the result is the length of the source; `d_len` must not exceed the destination.
my_strlcpy_fits :
    (d s : Bytes) (d_len : ℕ)
    → length s < d_len
    → d_len ≤ length d
    → my_strlcpy d s d_len ≡ some (s ++ 0 ∷ drop (suc (length s)) d, length s)
unfolding my_strlcpy
my_strlcpy_fits d s d_len h g =
    rw
      (
        my_strlcpy,
        copy_loop_fits s [] d d_len (omega arith) (omega arith),
        zero-add,
        store_behind s d (length s) (omega arith),
      )
      (ground arith)

-- A source of `d_len` characters or more is cut to `d_len` characters, and the NUL goes behind
-- them, to the position `d_len`: outside of a destination of exactly `d_len` bytes.
pub my_strlcpy_truncates :
    (d s : Bytes) (d_len : ℕ)
    → d_len ≤ length s
    → d_len ≤ length d
    → my_strlcpy d s d_len ≡ (
        if ltb d_len (length d) then some (take d_len s ++ 0 ∷ drop (suc d_len) d, d_len) else none)
unfolding my_strlcpy
my_strlcpy_truncates d s d_len h g =
    rw (my_strlcpy, copy_loop_truncates s [] d d_len d_len (omega arith) g h)
      (elim (dec_lt d_len (length d)) [
        | yes room ↦ rw (store_cut d s d_len h room, lt→ltb d_len (length d) room)
        | no tight ↦ rw (store_past d s d_len g h tight, not-lt→ltb d_len (length d) tight)
      ])
