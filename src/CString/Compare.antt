-- ===== src/CString/Compare.antt =====
-- What the result of my_strcmp says of its two strings.
use unix_network_programming.Base.{◌≡◌, ◌≢◌, refl, [], ◌∷◌, ◌++◌, arith, ◌↔◌}
use unix_network_programming.Base.Int.{ℤ, pos, sub_ℕ, pos_part, neg_part}
use unix_network_programming.CString.{Bytes, first, my_strcmp}

-- No NUL among the characters.
abbrev pub NoNul : Bytes → Type 0
NoNul [] = Unit
NoNul (c ∷ s) = (c ≢ 0) × NoNul s

eq_of_zero : (s t : Bytes) → NoNul s → NoNul t → my_strcmp s t ≡ pos 0 → s ≡ t
unfolding my_strcmp
eq_of_zero [] [] ns nt h = refl
eq_of_zero [] (y ∷ t) ns nt h = ground arith
eq_of_zero (x ∷ s) [] ns nt h = ground arith
eq_of_zero (x ∷ s) (y ∷ t) ns nt h = ground (arith, eq_of_zero s t ns.1 nt.1)

self_zero : (s : Bytes) → my_strcmp s s ≡ pos 0
unfolding my_strcmp
self_zero [] = refl
self_zero (x ∷ s) = ground (arith, self_zero s)

-- For strings with no NUL among their characters, my_strcmp returns 0 exactly when they are equal.
my_strcmp-zero_iff : (s t : Bytes) → NoNul s → NoNul t → (my_strcmp s t ≡ pos 0) ↔ (s ≡ t)
my_strcmp-zero_iff s t ns nt = (eq_of_zero s t ns nt, λ e. rw (← e) (self_zero s))

-- The opposite number.
abbrev pub negate : ℤ → ℤ
negate z = sub_ℕ (neg_part z) (pos_part z)

-- Exchanging the arguments negates the result.
pub my_strcmp-swap : (s t : Bytes) → my_strcmp t s ≡ negate (my_strcmp s t)
unfolding my_strcmp
my_strcmp-swap [] [] = refl
my_strcmp-swap [] (y ∷ t) = ground arith
my_strcmp-swap (x ∷ s) [] = ground arith
my_strcmp-swap (x ∷ s) (y ∷ t) = ground (arith, my_strcmp-swap s t)

-- Behind a common prefix the first difference decides: the result is the difference of the two
-- characters there, where the end of a string counts as 0.
my_strcmp-append :
    (p s t : Bytes)
    → NoNul p
    → first s ≢ first t
    → my_strcmp (p ++ s) (p ++ t) ≡ sub_ℕ (first s) (first t)
unfolding my_strcmp
my_strcmp-append [] [] [] np d = absurd (d refl)
my_strcmp-append [] [] (y ∷ t) np d = ground arith
my_strcmp-append [] (x ∷ s) [] np d = ground arith
my_strcmp-append [] (x ∷ s) (y ∷ t) np d = ground arith
my_strcmp-append (c ∷ p) s t np d = ground (arith, my_strcmp-append p s t np.1 d)
