-- ===== src/DeadHolder/Lost.antt =====
-- Without SEM_UNDO: a process that dies with the lock takes it away.
use mathlib.Core.Path.{subst}
use unix_network_programming.Base.{ℕ, ◌-◌, ◌≡◌, sym, inl, inr, arith}
use unix_network_programming.DeadHolder.{
  pitfall_1, Caller, holding, dead, set, Sys, sys, start, Step, my_lock, my_unlock, dies, Reach,
  here, after,
}
use unix_network_programming.DeadHolder.Holders.{
  Nobody, HeldBy, Sound, Sound-Reach, holder_dies, nobody_dies,
}

lost-Step : (t t' : Sys) → Step pitfall_1 t t' → Nobody 1 t → Nobody 1 t'
lost-Step _ _ (my_lock pid h) lost = absurd (omega (arith, lost.2))
lost-Step _ _ (my_unlock pid h) lost = absurd (lost.0 pid h)
lost-Step _ _ (dies {f = f} {a = a} {n = n} pid h) lost = nobody_dies f a pid 1 n lost

lost-Reach : (s t : Sys) → Nobody 1 s → Reach pitfall_1 s t → Nobody 1 t
lost-Reach s _ lost here = lost
lost-Reach s _ lost (after {t = t} {t' = t'} r h) = lost-Step t t' h (lost-Reach s t lost r)

holder :
    (f : ℕ → Caller) (a : ℕ → ℕ) (n pid : ℕ)
    → f pid ≡ holding
    → Sound pitfall_1 (sys f a n)
    → HeldBy 0 pid (sys f a n)
holder f a n pid h (inl free) = absurd (free.0 pid h)
holder f a n pid h (inr (inl (i, held))) =
    subst (λ z. HeldBy 0 z (sys f a n)) (sym (held.1 pid h)) held
holder f a n pid h (inr (inr none)) = absurd (none.0 pid h)

-- Without SEM_UNDO, once a process dies that holds the lock, the semaphore is 1 and no process holds
-- the lock, whatever steps follow: every my_lock() sleeps for ever.
pub dead_holder-Nobody :
    (f : ℕ → Caller) (a : ℕ → ℕ) (n pid : ℕ) (t : Sys)
    → Reach pitfall_1 start (sys f a n)
    → f pid ≡ holding
    → Reach pitfall_1 (sys (set f pid dead) (set a pid 0) (n - a pid)) t
    → Nobody 1 t
dead_holder-Nobody f a n pid t r h later =
    lost-Reach (sys (set f pid dead) (set a pid 0) (n - a pid)) t
      (holder_dies f a pid 0 n (holder f a n pid h (Sound-Reach pitfall_1 (sys f a n) r))) later
