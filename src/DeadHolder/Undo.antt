-- ===== src/DeadHolder/Undo.antt =====
-- With SEM_UNDO: the lock is held by one process at most, and free when none holds it.
use unix_network_programming.Base.{ℕ, ◌⊎◌, inl, inr}
use unix_network_programming.DeadHolder.{pitfall_2, Sys, start, Reach}
use unix_network_programming.DeadHolder.Holders.{Nobody, HeldBy, Sound, Sound-Reach}

free_or_held : (t : Sys) → Sound pitfall_2 t → Nobody 0 t ⊎ ((i : ℕ) × HeldBy 1 i t)
free_or_held t (inl h) = inl h
free_or_held t (inr (inl h)) = inr h
free_or_held t (inr (inr h)) = inl h

-- With SEM_UNDO, whatever processes lock, unlock and die in whatever order: either no process holds
-- the lock and the semaphore is 0, which is what my_lock() waits for, or exactly one process holds
-- it, the semaphore is 1, and 1 is what the system takes off if that process ends.
pub undo-Held : (t : Sys) → Reach pitfall_2 start t → Nobody 0 t ⊎ ((i : ℕ) × HeldBy 1 i t)
undo-Held t r = free_or_held t (Sound-Reach pitfall_2 t r)
