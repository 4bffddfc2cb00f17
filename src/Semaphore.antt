-- ===== src/Semaphore.antt =====
-- semaphore.c of Chapter 3 (9_semaphores, 10_shared_memory and 11_multi_buffer hold the same
-- functions): semaphores with creation, a count of users, and removal by the last one. A semaphore
-- is a System V set of three members: [0] is its value, [1] counts down from BIGCOUNT with each
-- user, [2] is a lock. The kernel is a parameter, with what the code relies on of it as laws.
pub mod Sets
pub mod Create
pub mod Close
pub mod Usage
mod Tests
use unix_network_programming.Base.{
  ℕ, zero, suc, ◌+◌, ◌-◌, ◌≤◌, ◌<◌, ◌≡◌, Bool, true, false, Option, none, some, List, [], ◌∷◌, ltb,
  leb, ◌==◌, if◌then◌else◌,
}
use unix_network_programming.Base.Int.{ℤ, pos, negsuc}
use unix_network_programming.Base.Errno.{Errno, is_einval}
use Sets.{SemBuf, sem_buf, Reply, reply, error, sleeps, Kernel}

abbrev pub bigcount : ℕ
bigcount = 10000

-- The static arrays of operations.
abbrev pub op_lock : List SemBuf
op_lock = sem_buf 2 (pos 0) false ∷ sem_buf 2 (pos 1) true ∷ []

abbrev pub op_endcreate : List SemBuf
op_endcreate = sem_buf 1 (negsuc 0) true ∷ sem_buf 2 (negsuc 0) true ∷ []

abbrev pub op_open : List SemBuf
op_open = sem_buf 1 (negsuc 0) true ∷ []

abbrev pub op_close : List SemBuf
op_close = sem_buf 2 (pos 0) false ∷ sem_buf 2 (pos 1) true ∷ sem_buf 1 (pos 1) true ∷ []

abbrev pub op_unlock : List SemBuf
op_unlock = sem_buf 2 (negsuc 0) true ∷ []

abbrev pub op_op : ℤ → List SemBuf
op_op value = sem_buf 0 value true ∷ []

-- How a call ends: it returns, err_sys or err_dump ends the process, it sleeps in semop() until
-- another process changes the set, or the retries use up the fuel.
pub data Run (S A : Type 0) : Type 0 where
  ok : A → S → Run S A
  fatal : S → Run S A
  blocked : Run S A
  out_of_fuel : Run S A

-- What follows a call that has returned.
abbrev pub and_then : {S A B : Type 0} → Run S A → (A → S → Run S B) → Run S B
and_then (ok a s) f = f a s
and_then (fatal s) f = fatal s
and_then blocked f = blocked
and_then out_of_fuel f = out_of_fuel

module _ {S A B : Type 0} where
  infixl 5 ◌>>=◌ ◌>>◌
  abbrev pub ◌>>=◌ : (S → Run S A) → (A → S → Run S B) → S → Run S B
  ◌>>=◌ m f s = and_then (m s) f

  abbrev pub ◌>>◌ : (S → Run S A) → (S → Run S B) → S → Run S B
  ◌>>◌ m n s = and_then (m s) (λ _. n)

abbrev pub settle : {S A : Type 0} → Reply S A → Run S A
settle (reply a s) = ok a s
settle (error e s) = fatal s
settle sleeps = blocked

-- A call whose failure is handed to err_sys.
abbrev pub demand : {S A : Type 0} → (S → Reply S A) → S → Run S A
demand call s = settle (call s)

-- IPC_PRIVATE is 0.
abbrev pub bad_key : ℤ → Bool
bad_key (pos n) = n == 0
bad_key (negsuc n) = n == 0

module _ (k : Kernel) where
  -- sem_create with the lock held: a member [1] of 0 says that the set is new.
  pub initialise : (id initval semval : ℕ) → k.State → Run k.State (Unit {0})
  initialise id initval semval =
      if semval == 0
      then (demand (k.setval id 0 initval) >> demand (k.setval id 1 bigcount))
      else ok tt

  pub end_create : (id initval : ℕ) → k.State → Run k.State ℤ
  unfolding initialise
  end_create id initval = do
    semval ← demand (k.getval id 1)
    initialise id initval semval
    demand (k.semop id op_endcreate)
    ok (pos id)

  -- From the label `again` on.
  pub create_again : (fuel : ℕ) (key : ℤ) (initval : ℕ) → k.State → Run k.State ℤ
  unfolding end_create
  create_again zero key initval s = out_of_fuel
  create_again (suc f) key initval s = elim (k.semget key true s) [
    | error e s1 ↦ ok (negsuc 0) s1
    | sleeps ↦ blocked
    | reply id s1 ↦ elim (k.semop id op_lock s1) [
      | reply u s2 ↦ end_create id initval s2
      | error e s2 ↦ elim (is_einval e) [ true ↦ create_again f key initval s2 | false ↦ fatal s2 ]
      | sleeps ↦ blocked
    ]
  ]

  pub sem_create : (fuel : ℕ) (key : ℤ) (initval : ℕ) → k.State → Run k.State ℤ
  unfolding create_again
  sem_create f key initval s = if bad_key key then ok (negsuc 0) s else create_again f key initval s

  pub sem_open : ℤ → k.State → Run k.State ℤ
  sem_open key s = if bad_key key then ok (negsuc 0) s else elim (k.semget key false s) [
    | error e s1 ↦ ok (negsuc 0) s1
    | sleeps ↦ blocked
    | reply id s1 ↦ (demand (k.semop id op_open) >> ok (pos id)) s1
  ]

  pub sem_rm : ℕ → k.State → Run k.State (Unit {0})
  sem_rm id = demand (k.rmid id)

  -- sem_close behind its first two calls.
  pub end_close : (id semval : ℕ) → k.State → Run k.State (Unit {0})
  unfolding sem_rm
  end_close id semval =
      if ltb bigcount semval
      then fatal
      else if semval == bigcount
      then sem_rm id
      else demand (k.semop id op_unlock)

  pub sem_close : ℕ → k.State → Run k.State (Unit {0})
  unfolding end_close
  sem_close id = do
    demand (k.semop id op_close)
    semval ← demand (k.getval id 1)
    end_close id semval

  pub sem_op : ℕ → ℤ → k.State → Run k.State (Unit {0})
  sem_op id (pos zero) = fatal
  sem_op id (pos (suc n)) = demand (k.semop id (op_op (pos (suc n))))
  sem_op id (negsuc n) = demand (k.semop id (op_op (negsuc n)))

  pub sem_wait : ℕ → k.State → Run k.State (Unit {0})
  unfolding sem_op
  sem_wait id = sem_op id (negsuc 0)

  pub sem_signal : ℕ → k.State → Run k.State (Unit {0})
  unfolding sem_op
  sem_signal id = sem_op id (pos 1)
