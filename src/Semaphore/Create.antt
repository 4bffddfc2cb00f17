-- ===== src/Semaphore/Create.antt =====
-- sem_create and sem_open: the first user makes the set, later ones join it.
use unix_network_programming.Base.{
  ℕ, suc, ◌-◌, ◌≤◌, ◌<◌, ◌≡◌, ◌≢◌, refl, ◌∙◌, true, false, none, some, arith, ◌==◌,
}
use unix_network_programming.Base.Int.{ℤ, pos, negsuc}
use unix_network_programming.Semaphore.Sets.{
  Members, members, reply, Kernel, IsKernel, SameElse, Fits,
}
use unix_network_programming.Semaphore.{
  bigcount, op_lock, op_endcreate, op_open, ok, blocked, bad_key, initialise, end_create,
  create_again, sem_create, sem_open,
}

module _ (k : Kernel) (laws : IsKernel k) where
  -- The set with identifier `id` now has the members `m`; the other sets and the keys are as in `s`.
  abbrev pub Becomes : k.State → ℕ → Members → k.State → Type 0
  Becomes s id m s' = (k.set s' id ≡ some m) × SameElse k id s s'

  pub Becomes-trans :
      (s t u : k.State) (id : ℕ) (m m' : Members)
      → Becomes s id m t
      → Becomes t id m' u
      → Becomes s id m' u
  Becomes-trans s t u id m m' (e, (o, b)) (e', (o', b')) =
      (e', (λ j ne. o' j ne ∙ o j ne, λ key. b' key ∙ b key))

  -- A set that is in use keeps its value, and gets one more user.
  end_create_old :
      (id initval a c : ℕ) (s : k.State)
      → a ≤ 32767
      → c < 32767
      → k.set s id ≡ some (members a (suc c) 1)
      → (s' : k.State) × (end_create k id initval s ≡ ok (pos id) s')
        × Becomes s id (members a c 0) s'
  unfolding end_create initialise
  end_create_old id initval a c s fa fc e =
      let (s1, e1, m1, o1) =
        laws.semop_done id op_endcreate s (members a (suc c) 1) (members a c 0) e (ground arith)
          (omega arith) in
      let in_use : (suc c == 0) ≡ false = ground arith in
      (
        s1,
        rw (end_create, laws.getval_done id 1 s (members a (suc c) 1) e, initialise, in_use, e1),
        (m1, o1),
      )

  -- A new set gets its value and the count of one user.
  end_create_new :
      (id initval : ℕ) (s : k.State)
      → initval ≤ 32767
      → k.set s id ≡ some (members 0 0 1)
      → (s' : k.State) × (end_create k id initval s ≡ ok (pos id) s')
        × Becomes s id (members initval (bigcount - 1) 0) s'
  unfolding end_create initialise
  end_create_new id initval s fits e =
      let (s1, e1, m1, o1) = laws.setval_done id 0 initval s (members 0 0 1) e (omega arith) in
      let (s2, e2, m2, o2) =
        laws.setval_done id 1 bigcount s1 (members initval 0 1) m1 (omega arith) in
      let (s3, e3, m3, o3) =
        laws.semop_done id op_endcreate s2 (members initval bigcount 1)
          (members initval (bigcount - 1) 0) m2 refl (omega arith) in
      let last : members initval (bigcount - 1) 0 ≡ members initval (bigcount - 1) 0 = refl in
      (
        s3,
        rw (end_create, laws.getval_done id 1 s (members 0 0 1) e, initialise, e1, e2, e3),
        Becomes-trans s s2 s3 id (members initval bigcount 1) (members initval (bigcount - 1) 0)
            (Becomes-trans s s1 s2 id (members initval 0 1) (members initval bigcount 1) (m1, o1)
              (m2, o2))
            (m3, o3),
      )

  -- sem_create behind its key check, once semget() has answered and the set's lock is free.
  create_locked :
      (f id : ℕ) (key : ℤ) (initval : ℕ) (s s1 : k.State) (a b : ℕ)
      → bad_key key ≡ false
      → k.semget key true s ≡ reply id s1
      → k.set s1 id ≡ some (members a b 0)
      → a ≤ 32767
      → b ≤ 32767
      → (s2 : k.State) × (sem_create k (suc f) key initval s ≡ end_create k id initval s2)
        × Becomes s1 id (members a b 1) s2
  unfolding sem_create create_again
  create_locked f id key initval s s1 a b good g e fa fb =
      let (s2, e2, m2, o2) =
        laws.semop_done id op_lock s1 (members a b 0) (members a b 1) e refl (omega arith) in
      (s2, rw (sem_create, good, create_again, g, e2), (m2, o2))

  -- For a caller who has the permissions, in a system with room in its tables (which is what the
  -- laws of the kernel say of semget() with IPC_CREAT), and for a key that is not refused and has
  -- no set, with an initial value up to SEMVMX, sem_create returns the identifier of a new set
  -- behind that key, with the initial value, one user counted and the lock free, and leaves every
  -- other set as it was.
  pub sem_create_new :
      (f : ℕ) (key : ℤ) (initval : ℕ) (s : k.State)
      → bad_key key ≡ false
      → initval ≤ 32767
      → k.bound s key ≡ none
      → (id : ℕ) × (s' : k.State) × (sem_create k (suc f) key initval s ≡ ok (pos id) s')
        × (k.set s id ≡ none)
        × (k.set s' id ≡ some (members initval (bigcount - 1) 0))
        × (k.bound s' key ≡ some id)
        × ((j : ℕ) → j ≢ id → k.set s' j ≡ k.set s j)
  sem_create_new f key initval s good fits absent =
      let (id, s1, g, fresh, m1, b1, o1) = laws.semget_new key s absent in
      let (s2, e2, (m2, (o2, k2))) =
        create_locked f id key initval s s1 0 0 good g m1 (omega arith) (omega arith) in
      let (s3, e3, (m3, (o3, k3))) = end_create_new id initval s2 fits m2 in
      (id, s3, e2 ∙ e3, fresh, m3, k3 key ∙ k2 key ∙ b1, λ j ne. o3 j ne ∙ o2 j ne ∙ o1 j ne)

  -- For a key that is not refused, with a set that has users or room left in its count and a
  -- free lock, sem_create returns its identifier, keeps its value whatever the initial value
  -- asked for, counts one user more, frees the lock, and leaves other sets and the keys as they
  -- were.
  pub sem_create_join :
      (f : ℕ) (key : ℤ) (initval id a c : ℕ) (s : k.State)
      → bad_key key ≡ false
      → k.bound s key ≡ some id
      → k.set s id ≡ some (members a (suc c) 0)
      → a ≤ 32767
      → c < 32767
      → (s' : k.State) × (sem_create k (suc f) key initval s ≡ ok (pos id) s')
        × Becomes s id (members a c 0) s'
  sem_create_join f key initval id a c s good b e fa fc =
      let (s1, e1, m1) =
        create_locked f id key initval s s a (suc c) good (laws.semget_found key true id s b) e fa
          (omega arith) in
      let (s2, e2, m2) = end_create_old id initval a c s1 fa fc m1.0 in
      (s2, e1 ∙ e2, Becomes-trans s s1 s2 id (members a (suc c) 1) (members a c 0) m1 m2)

  -- For a key that is not refused, while the lock of the key's set is held, sem_create sleeps
  -- and does not touch the set.
  sem_create_waits :
      (f : ℕ) (key : ℤ) (initval id a b c : ℕ) (s : k.State)
      → bad_key key ≡ false
      → k.bound s key ≡ some id
      → k.set s id ≡ some (members a b (suc c))
      → sem_create k (suc f) key initval s ≡ blocked
  unfolding sem_create create_again
  sem_create_waits f key initval id a b c s good bd e = rw (
    sem_create,
    good,
    create_again,
    laws.semget_found key true id s bd,
    laws.semop_sleeps id op_lock s (members a b (suc c)) e (ground arith),
  )

  -- sem_open joins a set that exists, has a user and room for another, without its lock.
  pub sem_open_join :
      (key : ℤ) (id a c l : ℕ) (s : k.State)
      → bad_key key ≡ false
      → k.bound s key ≡ some id
      → k.set s id ≡ some (members a (suc c) l)
      → Fits (members a c l)
      → (s' : k.State) × (sem_open k key s ≡ ok (pos id) s') × Becomes s id (members a c l) s'
  unfolding sem_open
  sem_open_join key id a c l s good b e fits =
      let (s1, e1, m1, o1) =
        laws.semop_done id op_open s (members a (suc c) l) (members a c l) e (ground arith) fits in
      (s1, rw (sem_open, good, laws.semget_found key false id s b, e1), (m1, o1))

  -- For a refused key (IPC_PRIVATE or -1) sem_create and sem_open return -1 and change nothing.
  create_open_refused :
      (f : ℕ) (key : ℤ) (initval : ℕ) (s : k.State)
      → bad_key key ≡ true
      → (sem_create k f key initval s ≡ ok (negsuc 0) s) × (sem_open k key s ≡ ok (negsuc 0) s)
  unfolding sem_create sem_open
  create_open_refused f key initval s bad = (rw (sem_create, bad), rw (sem_open, bad))

  -- For a key with no set sem_open returns -1 and changes nothing.
  sem_open_absent :
      (key : ℤ) (s : k.State)
      → bad_key key ≡ false
      → k.bound s key ≡ none
      → sem_open k key s ≡ ok (negsuc 0) s
  unfolding sem_open
  sem_open_absent key s good absent =
      let (e, r) = laws.semget_absent key s absent in rw (sem_open, good, r)
