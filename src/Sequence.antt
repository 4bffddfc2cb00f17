-- ===== src/Sequence.antt =====
-- main of "Chapter 3 - Interprocess Communication/1_file_record_locking/file_record.c": processes that
-- take numbers in sequence from a file under the lock of my_open_lock. The steps are those of calls
-- that succeed; the file holds the number, and LOCKFILE is made by one process at a time, which is what
-- Lock shows of my_open_lock. `seqno` is an int, so that there is no step that reads a number beyond
-- 2147483647, or that counts up from it.
pub mod Numbers
mod Tests
use unix_network_programming.Base.{
  ℕ, zero, suc, ◌+◌, ◌<◌, ◌≡◌, Bool, true, false, List, [], ◌∷◌, ◌++◌, ◌==◌, if◌then◌else◌,
}

-- Where a process is, with the rounds that are left of its twenty: ahead of my_open_lock, ahead of
-- the read, ahead of the write with the number read, and ahead of my_open_unlock.
pub data Place : Type 0 where
  lock : (left : ℕ) → Place
  read_it : (left : ℕ) → Place
  write_it : (left seqno : ℕ) → Place
  unlock : (left : ℕ) → Place

-- The processes by number, whether LOCKFILE is there, the number in the file, and the numbers that
-- have been printed, the last one first.
pub data Sys : Type 0 where
  sys : (ℕ → Place) → (locked : Bool) → (file : ℕ) → (printed : List ℕ) → Sys

abbrev pub move : ℕ → Place → (ℕ → Place) → ℕ → Place
move pid p ps n = if n == pid then p else ps n

pub data Step : Sys → Sys → Type 0 where
  locks :
      {ps : ℕ → Place} {left file : ℕ} {out : List ℕ}
      → (pid : ℕ) → ps pid ≡ lock (suc left)
      → Step (sys ps false file out) (sys (move pid (read_it left) ps) true file out)
  reads :
      {ps : ℕ → Place} {left file : ℕ} {locked : Bool} {out : List ℕ}
      → (pid : ℕ) → ps pid ≡ read_it left
      → file < 2147483648
      → Step
          (sys ps locked file out)
          (sys (move pid (write_it left file) ps) locked file (file ∷ out))
  writes :
      {ps : ℕ → Place} {left seqno file : ℕ} {locked : Bool} {out : List ℕ}
      → (pid : ℕ) → ps pid ≡ write_it left seqno
      → seqno + 1 < 2147483648
      → Step (sys ps locked file out) (sys (move pid (unlock left) ps) locked (seqno + 1) out)
  unlocks :
      {ps : ℕ → Place} {left file : ℕ} {locked : Bool} {out : List ℕ}
      → (pid : ℕ) → ps pid ≡ unlock left
      → Step (sys ps locked file out) (sys (move pid (lock left) ps) false file out)

pub data Reach (s : Sys) : Sys → Type 0 where
  here : Reach s s
  after : {t t' : Sys} → Reach s t → Step t t' → Reach s t'

-- Every process is ahead of its first round.
abbrev pub start : ℕ → Sys
start n = sys (λ pid. lock 20) false n []
