-- ===== src/Semaphore/Close.antt =====
-- sem_close, sem_wait and sem_signal.
use unix_network_programming.Base.{
  ℕ, ◌+◌, ◌≤◌, ◌<◌, ◌≡◌, ◌≢◌, refl, ◌∙◌, true, false, none, some, arith, ◌==◌, ltb,
}
use unix_network_programming.Base.Int.{ℤ, pos, negsuc}
use unix_network_programming.Semaphore.Sets.{members, Kernel, IsKernel, Fits}
use unix_network_programming.Semaphore.{
  bigcount, op_close, op_unlock, op_op, ok, fatal, blocked, end_close, sem_rm, sem_close, sem_op,
  sem_wait, sem_signal,
}
use unix_network_programming.Semaphore.Create.{Becomes, Becomes-trans}

module _ (k : Kernel) (laws : IsKernel k) where
  -- On a set with a free lock, values in range, and a user besides the caller, sem_close counts
  -- one user less, keeps the value, frees the lock that it took, and leaves other sets and the
  -- keys as they were.
  pub sem_close_leave :
      (id a b : ℕ) (s : k.State)
      → k.set s id ≡ some (members a b 0)
      → a ≤ 32767
      → b + 1 < bigcount
      → (s' : k.State) × (sem_close k id s ≡ ok tt s')
        × Becomes k laws s id (members a (b + 1) 0) s'
  unfolding sem_close end_close
  sem_close_leave id a b s e fa low =
      let (s1, e1, m1, o1) =
        laws.semop_done id op_close s (members a b 0) (members a (b + 1) 1) e refl (omega arith) in
      let (s2, e2, m2, o2) =
        laws.semop_done id op_unlock s1 (members a (b + 1) 1) (members a (b + 1) 0) m1 refl
          (omega arith) in
      let not_over : ltb bigcount (b + 1) ≡ false = ground arith in
      let not_last : (b + 1 == bigcount) ≡ false = ground arith in
      (
        s2,
        rw (
          sem_close,
          e1,
          laws.getval_done id 1 s1 (members a (b + 1) 1) m1,
          end_close,
          not_over,
          not_last,
          e2,
        ),
        Becomes-trans k laws s s1 s2 id (members a (b + 1) 1) (members a (b + 1) 0) (m1, o1)
            (m2, o2),
      )

  -- On a set with a free lock, a value in range, and the caller as its only user, sem_close
  -- removes the set, so that no key leads to it, and leaves the other sets as they were.
  pub sem_close_last :
      (id a b : ℕ) (s : k.State)
      → k.set s id ≡ some (members a b 0)
      → a ≤ 32767
      → b + 1 ≡ bigcount
      → (s' : k.State) × (sem_close k id s ≡ ok tt s')
        × (k.set s' id ≡ none)
        × ((key : ℤ) → k.bound s' key ≢ some id)
        × ((j : ℕ) → j ≢ id → k.set s' j ≡ k.set s j)
  unfolding sem_close end_close sem_rm
  sem_close_last id a b s e fa last =
      let (s1, e1, m1, o1) =
        laws.semop_done id op_close s (members a b 0) (members a (b + 1) 1) e refl (omega arith) in
      let (s2, e2, m2, k2, o2) = laws.rmid_done id s1 (members a (b + 1) 1) m1 in
      let not_over : ltb bigcount (b + 1) ≡ false = ground arith in
      let is_last : (b + 1 == bigcount) ≡ true = ground arith in
      (
        s2,
        rw (
          sem_close,
          e1,
          laws.getval_done id 1 s1 (members a (b + 1) 1) m1,
          end_close,
          not_over,
          is_last,
          sem_rm,
          e2,
        ),
        m2,
        k2,
        λ j ne. o2 j ne ∙ o1.0 j ne,
      )

  -- On a set with a free lock, values in range and no user, sem_close ends the process by
  -- err_dump, and leaves the count above BIGCOUNT and the lock held.
  sem_close_over :
      (id a b : ℕ) (s : k.State)
      → k.set s id ≡ some (members a b 0)
      → a ≤ 32767
      → b < 32767
      → bigcount ≤ b
      → (s' : k.State) × (sem_close k id s ≡ fatal s')
        × Becomes k laws s id (members a (b + 1) 1) s'
  unfolding sem_close end_close
  sem_close_over id a b s e fa fb over =
      let (s1, e1, m1, o1) =
        laws.semop_done id op_close s (members a b 0) (members a (b + 1) 1) e refl (omega arith) in
      let is_over : ltb bigcount (b + 1) ≡ true = ground arith in
      (
        s1,
        rw (sem_close, e1, laws.getval_done id 1 s1 (members a (b + 1) 1) m1, end_close, is_over),
        (m1, o1),
      )

  -- On a set whose values are in range with one added, sem_signal adds one to the value and the
  -- sem_wait behind it returns without sleeping and leaves the set as it was; the count of
  -- users, the lock, other sets and the keys are untouched.
  sem_wait-sem_signal :
      (id a b c : ℕ) (s : k.State)
      → k.set s id ≡ some (members a b c)
      → Fits (members (a + 1) b c)
      → (s1 : k.State) × (s2 : k.State) × (sem_signal k id s ≡ ok tt s1)
        × Becomes k laws s id (members (a + 1) b c) s1
        × (sem_wait k id s1 ≡ ok tt s2)
        × Becomes k laws s id (members a b c) s2
  unfolding sem_signal sem_wait sem_op
  sem_wait-sem_signal id a b c s e fits =
      let (s1, e1, m1, o1) =
        laws.semop_done id (op_op (pos 1)) s (members a b c) (members (a + 1) b c) e refl fits in
      let (s2, e2, m2, o2) =
        laws.semop_done id (op_op (negsuc 0)) s1 (members (a + 1) b c) (members a b c) m1
          (ground arith) (omega arith) in
      (
        s1,
        s2,
        rw (sem_signal, sem_op, e1),
        (m1, o1),
        rw (sem_wait, sem_op, e2),
        Becomes-trans k laws s s1 s2 id (members (a + 1) b c) (members a b c) (m1, o1) (m2, o2),
      )

  -- At the value 0 sem_wait sleeps.
  sem_wait_sleeps :
      (id b c : ℕ) (s : k.State) → k.set s id ≡ some (members 0 b c) → sem_wait k id s ≡ blocked
  unfolding sem_wait sem_op
  sem_wait_sleeps id b c s e =
      rw (sem_wait, sem_op, laws.semop_sleeps id (op_op (negsuc 0)) s (members 0 b c) e refl)
