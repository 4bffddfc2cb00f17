-- ===== src/Semaphore/Sets.antt =====
-- The kernel's semaphore sets, as semget(2), semop(2) and semctl(2) describe them.
use unix_network_programming.Base.{
  ℕ, zero, suc, ◌+◌, ◌-◌, ◌≤◌, ◌≡◌, ◌≢◌, Bool, true, false, Option, none, some, List, [], ◌∷◌, leb,
  ◌==◌, if◌then◌else◌,
}
use unix_network_programming.Base.Int.{ℤ, pos, negsuc}
use unix_network_programming.Base.Errno.{Errno, einval}

-- struct sembuf; `undo` is the flag SEM_UNDO.
pub record SemBuf : Type 0 where
  pub sem_num : ℕ
  pub sem_op : ℤ
  pub undo : Bool

abbrev pub sem_buf : ℕ → ℤ → Bool → SemBuf
sem_buf n op u = record { sem_num = n; sem_op = op; undo = u }

-- The values of a set's three members.
pub record Members : Type 0 where
  pub sem0 : ℕ
  pub sem1 : ℕ
  pub sem2 : ℕ

abbrev pub members : ℕ → ℕ → ℕ → Members
members a b c = record { sem0 = a; sem1 = b; sem2 = c }

abbrev pub get : ℕ → Members → ℕ
get n m = if n == 0 then m.sem0 else if n == 1 then m.sem1 else m.sem2

abbrev pub put : ℕ → ℕ → Members → Members
put n v m =
    if n == 0
    then record m { sem0 = v }
    else if n == 1
    then record m { sem1 = v }
    else record m { sem2 = v }

-- One operation on one value; `none` when the caller has to wait.
abbrev pub change : ℤ → ℕ → Option ℕ
change (pos zero) v = if v == 0 then some v else none
change (pos (suc n)) v = some (v + suc n)
change (negsuc n) v = if leb (suc n) v then some (v - suc n) else none

-- All the operations of a call, in order, or none of them.
abbrev pub apply_ops : List SemBuf → Members → Option Members
apply_ops [] m = some m
apply_ops (b ∷ bs) m = elim (change b.sem_op (get b.sem_num m)) [
  | none ↦ none
  | some v ↦ apply_ops bs (put b.sem_num v m)
]

-- An answer of the kernel: a value, an errno, or a sleep.
pub data Reply (S A : Type 0) : Type 0 where
  reply : A → S → Reply S A
  error : Errno → S → Reply S A
  sleeps : Reply S A

-- `semget key create`, and IPC_RMID as `rmid`. `set` and `bound` are what a caller can know of
-- the kernel: the members of the set with an identifier, and the identifier behind a key.
pub record Kernel : Type 1 where
  pub State : Type 0
  pub semget : ℤ → Bool → State → Reply State ℕ
  pub semop : ℕ → List SemBuf → State → Reply State (Unit {0})
  pub getval : ℕ → ℕ → State → Reply State ℕ
  pub setval : ℕ → ℕ → ℕ → State → Reply State (Unit {0})
  pub rmid : ℕ → State → Reply State (Unit {0})
  pub set : State → ℕ → Option Members
  pub bound : State → ℤ → Option ℕ

-- SEMVMX, the largest value of a member.
abbrev pub Fits : Members → Type 0
Fits m = (m.sem0 ≤ 32767) × (m.sem1 ≤ 32767) × (m.sem2 ≤ 32767)

module _ (k : Kernel) where
  -- The other sets and the keys are as before.
  abbrev pub SameElse : ℕ → k.State → k.State → Type 0
  SameElse id s s' =
      ((j : ℕ) → j ≢ id → k.set s' j ≡ k.set s j) × ((key : ℤ) → k.bound s' key ≡ k.bound s key)

  -- The laws are those of a caller who has the permissions for the sets, in a system with room in its
  -- tables for a new one.
  pub record IsKernel : Type 0 where
    pub semget_found :
        (key : ℤ) (create : Bool) (id : ℕ) (s : k.State)
        → k.bound s key ≡ some id
        → k.semget key create s ≡ reply id s
    pub semget_new :
        (key : ℤ) (s : k.State)
        → k.bound s key ≡ none
        → (id : ℕ) × (s' : k.State) × (k.semget key true s ≡ reply id s')
          × (k.set s id ≡ none)
          × (k.set s' id ≡ some (members 0 0 0))
          × (k.bound s' key ≡ some id)
          × ((j : ℕ) → j ≢ id → k.set s' j ≡ k.set s j)
    pub semget_absent :
        (key : ℤ) (s : k.State)
        → k.bound s key ≡ none
        → (e : Errno) × (k.semget key false s ≡ error e s)
    pub semop_done :
        (id : ℕ) (ops : List SemBuf) (s : k.State) (m m' : Members)
        → k.set s id ≡ some m
        → apply_ops ops m ≡ some m'
        → Fits m'
        → (s' : k.State) × (k.semop id ops s ≡ reply tt s')
          × (k.set s' id ≡ some m')
          × SameElse id s s'
    pub semop_sleeps :
        (id : ℕ) (ops : List SemBuf) (s : k.State) (m : Members)
        → k.set s id ≡ some m
        → apply_ops ops m ≡ none
        → k.semop id ops s ≡ sleeps
    pub semop_gone :
        (id : ℕ) (ops : List SemBuf) (s : k.State)
        → k.set s id ≡ none
        → k.semop id ops s ≡ error einval s
    pub getval_done :
        (id n : ℕ) (s : k.State) (m : Members)
        → k.set s id ≡ some m
        → k.getval id n s ≡ reply (get n m) s
    pub setval_done :
        (id n v : ℕ) (s : k.State) (m : Members)
        → k.set s id ≡ some m
        → Fits (put n v m)
        → (s' : k.State) × (k.setval id n v s ≡ reply tt s')
          × (k.set s' id ≡ some (put n v m))
          × SameElse id s s'
    pub rmid_done :
        (id : ℕ) (s : k.State) (m : Members)
        → k.set s id ≡ some m
        → (s' : k.State) × (k.rmid id s ≡ reply tt s')
          × (k.set s' id ≡ none)
          × ((key : ℤ) → k.bound s' key ≢ some id)
          × ((j : ℕ) → j ≢ id → k.set s' j ≡ k.set s j)
