-- ===== src/Sequence/Numbers.antt =====
-- No number is given twice, and none is left out.
use mathlib.Core.Path.{subst}
use unix_network_programming.Base.{
  ℕ, ◌+◌, ◌≡◌, ◌≢◌, refl, sym, ap, ◌∙◌, inl, inr, Bool-cases, true, false, List, [], ◌∷◌, ◌==◌,
  length, arith,
}
use unix_network_programming.Sequence.{
  Place, lock, read_it, write_it, unlock, Sys, sys, move, Step, locks, reads, writes, unlocks,
  Reach, here, after, start,
}

-- The numbers down from the last one to the first.
abbrev pub Downto : ℕ → List ℕ → Type 0
Downto n [] = Unit
Downto n (x ∷ xs) = (x ≡ n + length xs) × Downto n xs

abbrev Outside : Place → Type 0
Outside (lock left) = Unit
Outside p = ⊥

-- What the place of the process with the lock says of the file and the numbers printed.
abbrev Holder : ℕ → Place → ℕ → List ℕ → Type 0
Holder n (lock left) file out = ⊥
Holder n (read_it left) file out = file ≡ n + length out
Holder n (write_it left seqno) file out = seqno + 1 ≡ n + length out
Holder n (unlock left) file out = file ≡ n + length out

data Ordered (n : ℕ) : Sys → Type 0 where
  free :
      {ps : ℕ → Place} {file : ℕ} {out : List ℕ}
      → ((pid : ℕ) → Outside (ps pid))
      → file ≡ n + length out
      → Downto n out
      → Ordered n (sys ps false file out)
  held :
      {ps : ℕ → Place} {file : ℕ} {out : List ℕ}
      → (pid : ℕ) → ((m : ℕ) → m ≢ pid → Outside (ps m))
      → Holder n (ps pid) file out
      → Downto n out
      → Ordered n (sys ps true file out)

moved_same : (pid : ℕ) (p : Place) (ps : ℕ → Place) → move pid p ps pid ≡ p
moved_same pid p ps = let e : (pid == pid) ≡ true = ground arith in rw (e) refl

moved_other : (pid m : ℕ) (p : Place) (ps : ℕ → Place) → m ≢ pid → move pid p ps m ≡ ps m
moved_other pid m p ps ne = let e : (m == pid) ≡ false = ground arith in rw (e) refl

-- A process that is not outside has the lock.
has_lock :
    (pid holder : ℕ) (p : Place) (ps : ℕ → Place)
    → ((m : ℕ) → m ≢ holder → Outside (ps m))
    → ps pid ≡ p
    → (Outside p → ⊥)
    → pid ≡ holder
has_lock pid holder p ps others e inside = elim (Bool-cases (pid == holder)) [
  | inl y ↦ ground arith
  | inr y ↦
      let ne : pid ≢ holder = ground arith in absurd (inside (subst Outside e (others pid ne)))
]

-- The holder goes on, and keeps the lock.
goes_on :
    (n pid holder file file' : ℕ) (p q : Place) (ps : ℕ → Place) (out out' : List ℕ)
    → ((m : ℕ) → m ≢ holder → Outside (ps m))
    → ps pid ≡ p
    → (Outside p → ⊥)
    → Holder n (ps holder) file out
    → (Holder n p file out → Holder n q file' out')
    → Downto n out'
    → Ordered n (sys (move pid q ps) true file' out')
goes_on n pid holder file file' p q ps out out' others e inside h next d =
    let same : pid ≡ holder = has_lock pid holder p ps others e inside in
    let now : Holder n p file out = subst (λ x. Holder n x file out) (ap ps (sym same) ∙ e) h in
    held pid
      (λ m ne. subst Outside (sym (moved_other pid m q ps ne)) (others m (λ z. ne (z ∙ sym same))))
      (subst (λ x. Holder n x file' out') (sym (moved_same pid q ps)) (next now)) d

Ordered-Step : (n : ℕ) (s t : Sys) → Step s t → Ordered n s → Ordered n t
Ordered-Step n s t (locks {ps = ps} {left = left} {file = file} {out = out} pid e) (free o f d) =
    held pid (λ m ne. subst Outside (sym (moved_other pid m (read_it left) ps ne)) (o m))
      (subst (λ x. Holder n x file out) (sym (moved_same pid (read_it left) ps)) f) d
Ordered-Step n s t (reads pid e l) (free o f d) = absurd (subst Outside e (o pid))
Ordered-Step n s t (reads {ps = ps} {left = left} {file = file} {out = out} pid e l)
      (held holder others h d) =
    let same = has_lock pid holder (read_it left) ps others e (λ z. z) in
    let now : Holder n (read_it left) file out =
      subst (λ x. Holder n x file out) (ap ps (sym same) ∙ e) h in
    goes_on n pid holder file file (read_it left) (write_it left file) ps out (file ∷ out) others e
      (λ z. z) h (λ x. omega arith) (now, d)
Ordered-Step n s t (writes pid e l) (free o f d) = absurd (subst Outside e (o pid))
Ordered-Step n s t
      (writes {ps = ps} {left = left} {seqno = seqno} {file = file} {out = out} pid e l)
      (held holder others h d) =
    goes_on n pid holder file (seqno + 1) (write_it left seqno) (unlock left) ps out out others e
      (λ z. z) h (λ x. x) d
Ordered-Step n s t (unlocks pid e) (free o f d) = absurd (subst Outside e (o pid))
Ordered-Step n s t (unlocks {ps = ps} {left = left} {file = file} {out = out} pid e)
      (held holder others h d) =
    let same = has_lock pid holder (unlock left) ps others e (λ z. z) in
    let now : Holder n (unlock left) file out =
      subst (λ x. Holder n x file out) (ap ps (sym same) ∙ e) h in
    free
      (λ m. elim (Bool-cases (m == pid)) [
        | inl y ↦ rw (y) tt
        | inr y ↦ let ne : m ≢ holder = ground arith in rw (y) (others m ne)
      ])
      now d

Reach-Ordered : (n : ℕ) (t : Sys) → Reach (start n) t → Ordered n t
Reach-Ordered n _ here = free (λ pid. tt) (omega arith) tt
Reach-Ordered n _ (after {t = s} r e) = Ordered-Step n s _ e (Reach-Ordered n s r)

abbrev pub numbers : Sys → List ℕ
numbers (sys ps locked file out) = out

-- However many processes run and however their steps are mixed, up to the point where one would
-- read a number beyond 2147483647 or count up from it, the numbers that they have printed
-- are, in the order of printing, the number that was in the file at first, the next one, and so on:
-- none is printed twice and none is left out.
pub numbers-Downto : (n : ℕ) (t : Sys) → Reach (start n) t → Downto n (numbers t)
numbers-Downto n t r = go t (Reach-Ordered n t r)
  where
    go : (t : Sys) → Ordered n t → Downto n (numbers t)
    go t (free o f d) = d
    go t (held pid others h d) = d
