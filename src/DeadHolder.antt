-- ===== src/DeadHolder.antt =====
-- my_lock and my_unlock of "Chapter 3 - Interprocess Communication/9_semaphores/pitfalls", without
-- SEM_UNDO (pitfall_1/lock_unlock.c) and with it (pitfall_2/lock_unlock_2.c), as steps of any number
-- of processes with one semaphore, of which each may die at any time. The two operations of op_lock
-- are done at once, or the process sleeps.
pub mod Holders
pub mod Undo
pub mod Lost
mod Tests
use mathlib.Core.Bool.{true≢false}
use unix_network_programming.Base.{
  ℕ, suc, ◌+◌, ◌-◌, ◌≡◌, ◌≢◌, ◌==◌, ◌⊎◌, inl, inr, sym, ap, ◌∙◌, Bool-cases, ==_iff, if◌then◌else◌,
}

pub data Variant : Type 0 where
  pitfall_1 : Variant
  pitfall_2 : Variant

-- What semop() adds to the process's semadj, and takes from it: nothing without SEM_UNDO.
abbrev pub lock_adj : Variant → ℕ
lock_adj pitfall_1 = 0
lock_adj pitfall_2 = 1

abbrev pub unlock_adj : Variant → ℕ
unlock_adj pitfall_1 = 0
unlock_adj pitfall_2 = 1

-- Before my_lock(), or asleep in it; behind it; or dead.
pub data Caller : Type 0 where
  outside : Caller
  holding : Caller
  dead : Caller

abbrev pub set {ℓ} : {A : Type ℓ} → (ℕ → A) → ℕ → A → ℕ → A
set f i v j = if j == i then v else f j

pub set-cases {ℓ} :
    {A : Type ℓ} (f : ℕ → A) (i : ℕ) (v : A) (j : ℕ)
    → ((j ≡ i) × (set f i v j ≡ v)) ⊎ ((j ≢ i) × (set f i v j ≡ f j))
set-cases f i v j = elim (Bool-cases (j == i)) [
  | inl e ↦ inl ((==_iff j i).0 e, ap (λ z. if z then v else f j) e)
  | inr e ↦ inr ((λ h. true≢false (sym ((==_iff j i).1 h) ∙ e)), ap (λ z. if z then v else f j) e)
]

-- The processes, what the system undoes for each when it ends, and the semaphore's value.
pub data Sys : Type 0 where
  sys : (processes : ℕ → Caller) (semadj : ℕ → ℕ) (semval : ℕ) → Sys

-- Behind semget(), which has made the set.
abbrev pub start : Sys
start = sys (λ pid. outside) (λ pid. 0) 0

module _ (v : Variant) where
  pub data Step : Sys → Sys → Type 0 where
    my_lock :
        {f : ℕ → Caller} {a : ℕ → ℕ}
        → (pid : ℕ) → f pid ≡ outside
        → Step (sys f a 0) (sys (set f pid holding) (set a pid (a pid + lock_adj v)) 1)
    my_unlock :
        {f : ℕ → Caller} {a : ℕ → ℕ} {n : ℕ}
        → (pid : ℕ) → f pid ≡ holding
        → Step (sys f a (suc n)) (sys (set f pid outside) (set a pid (a pid - unlock_adj v)) n)
    dies :
        {f : ℕ → Caller} {a : ℕ → ℕ} {n : ℕ}
        → (pid : ℕ) → f pid ≢ dead
        → Step (sys f a n) (sys (set f pid dead) (set a pid 0) (n - a pid))

  pub data Reach (s : Sys) : Sys → Type 0 where
    here : Reach s s
    after : {t t' : Sys} → Reach s t → Step t t' → Reach s t'
