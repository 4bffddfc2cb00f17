-- ===== src/Semaphore/Tests.antt =====
-- A kernel with one key and one set, and the theorems over it.
use unix_network_programming.Base.{
  ℕ, zero, suc, ◌≡◌, ◌≢◌, refl, Bool, true, false, Option, none, some, List, [], ◌∷◌, arith,
}
use unix_network_programming.Base.Int.{ℤ, pos}
use unix_network_programming.Base.Errno.{Errno, einval, other}
use unix_network_programming.Semaphore.Sets.{
  SemBuf, Members, members, get, put, apply_ops, Reply, reply, error, sleeps, Kernel, IsKernel,
  Fits, SameElse,
}
use unix_network_programming.Semaphore.{ok, sem_create}
use unix_network_programming.Semaphore.Create.{sem_create_new}
use unix_network_programming.Semaphore.Usage.{
  create, open_it, close_it, perform, Counts, perform-Counts, users_after,
}

-- Every key leads to the one set, whose identifier is 0.
abbrev One : Type 0
One = Option Members

abbrev at_zero : ℕ → One → One
at_zero zero s = s
at_zero (suc n) s = none

abbrev one_get : Bool → One → Reply One ℕ
one_get c (some m) = reply 0 (some m)
one_get true none = reply 0 (some (members 0 0 0))
one_get false none = error (other 2) none

abbrev one_set : Option Members → Reply One (Unit {0})
one_set (some m) = reply tt (some m)
one_set none = sleeps

abbrev one_op : ℕ → List SemBuf → One → Reply One (Unit {0})
one_op zero ops (some m) = one_set (apply_ops ops m)
one_op zero ops none = error einval none
one_op (suc n) ops s = error einval s

abbrev one_value : ℕ → ℕ → One → Reply One ℕ
one_value zero n (some m) = reply (get n m) (some m)
one_value zero n none = error einval none
one_value (suc i) n s = error einval s

abbrev one_put : ℕ → ℕ → ℕ → One → Reply One (Unit {0})
one_put zero n v (some m) = reply tt (some (put n v m))
one_put zero n v none = error einval none
one_put (suc i) n v s = error einval s

abbrev one_rmid : ℕ → One → Reply One (Unit {0})
one_rmid zero (some m) = reply tt none
one_rmid zero none = error einval none
one_rmid (suc i) s = error einval s

abbrev one_bound : One → ℤ → Option ℕ
one_bound (some m) key = some 0
one_bound none key = none

abbrev kernel : Kernel
kernel = record {
  State = One;
  semget = λ key. one_get;
  semop = one_op;
  getval = one_value;
  setval = one_put;
  rmid = one_rmid;
  set = λ s id. at_zero id s;
  bound = one_bound;
}

at_other : (j : ℕ) (s t : One) → j ≢ 0 → at_zero j s ≡ at_zero j t
at_other zero s t ne = absurd (ne refl)
at_other (suc j) s t ne = refl

found :
    (c : Bool) (id : ℕ) (s : One) (key : ℤ) → one_bound s key ≡ some id → one_get c s ≡ reply id s
found c id (some m) key e = ground arith
found c id none key e = cc

fresh :
    (key : ℤ) (s : One)
    → one_bound s key ≡ none
    → (id : ℕ) × (s' : One) × (one_get true s ≡ reply id s')
      × (at_zero id s ≡ none)
      × (at_zero id s' ≡ some (members 0 0 0))
      × (one_bound s' key ≡ some id)
      × ((j : ℕ) → j ≢ id → at_zero j s' ≡ at_zero j s)
fresh key (some m) e = cc
fresh key none e = (
  0,
  some (members 0 0 0),
  refl,
  refl,
  refl,
  refl,
  λ j ne. at_other j (some (members 0 0 0)) none ne,
)

missing : (key : ℤ) (s : One) → one_bound s key ≡ none → (e : Errno) × (one_get false s ≡ error e s)
missing key (some m) e = cc
missing key none e = (other 2, refl)

op_done :
    (id : ℕ) (ops : List SemBuf) (s : One) (m m' : Members)
    → at_zero id s ≡ some m
    → apply_ops ops m ≡ some m'
    → Fits m'
    → (s' : One) × (one_op id ops s ≡ reply tt s')
      × (at_zero id s' ≡ some m')
      × SameElse kernel id s s'
op_done zero ops none m m' e a f = cc
op_done (suc n) ops s m m' e a f = cc
op_done zero ops (some m0) m m' e a f = (
  some m',
  rw (some_inj m0 m e, a),
  refl,
  ((λ j ne. at_other j (some m') (some m0) ne), (λ key. refl)),
)
  where
    some_inj : (x y : Members) → some x ≡ some y → x ≡ y
    some_inj x y e = cc

op_sleeps :
    (id : ℕ) (ops : List SemBuf) (s : One) (m : Members)
    → at_zero id s ≡ some m
    → apply_ops ops m ≡ none
    → one_op id ops s ≡ sleeps
op_sleeps zero ops none m e a = cc
op_sleeps (suc n) ops s m e a = cc
op_sleeps zero ops (some m0) m e a = rw (some_inj m0 m e, a)
  where
    some_inj : (x y : Members) → some x ≡ some y → x ≡ y
    some_inj x y e = cc

op_gone :
    (id : ℕ) (ops : List SemBuf) (s : One) → at_zero id s ≡ none → one_op id ops s ≡ error einval s
op_gone zero ops none e = refl
op_gone zero ops (some m) e = cc
op_gone (suc n) ops s e = refl

value_done :
    (id n : ℕ) (s : One) (m : Members)
    → at_zero id s ≡ some m
    → one_value id n s ≡ reply (get n m) s
value_done zero n none m e = cc
value_done zero n (some m0) m e = rw (some_inj m0 m e)
  where
    some_inj : (x y : Members) → some x ≡ some y → x ≡ y
    some_inj x y e = cc
value_done (suc i) n s m e = cc

put_done :
    (id n v : ℕ) (s : One) (m : Members)
    → at_zero id s ≡ some m
    → Fits (put n v m)
    → (s' : One) × (one_put id n v s ≡ reply tt s')
      × (at_zero id s' ≡ some (put n v m))
      × SameElse kernel id s s'
put_done zero n v none m e f = cc
put_done (suc i) n v s m e f = cc
put_done zero n v (some m0) m e f = (
  some (put n v m),
  rw (some_inj m0 m e),
  refl,
  ((λ j ne. at_other j (some (put n v m)) (some m0) ne), (λ key. refl)),
)
  where
    some_inj : (x y : Members) → some x ≡ some y → x ≡ y
    some_inj x y e = cc

rmid_done_one :
    (id : ℕ) (s : One) (m : Members)
    → at_zero id s ≡ some m
    → (s' : One) × (one_rmid id s ≡ reply tt s')
      × (at_zero id s' ≡ none)
      × ((key : ℤ) → one_bound s' key ≢ some id)
      × ((j : ℕ) → j ≢ id → at_zero j s' ≡ at_zero j s)
rmid_done_one zero none m e = cc
rmid_done_one (suc i) s m e = cc
rmid_done_one zero (some m0) m e =
    (none, refl, refl, λ key b. cc, λ j ne. at_other j none (some m0) ne)

kernel-IsKernel : IsKernel kernel
kernel-IsKernel = record {
  semget_found = λ key c id s e. found c id s key e;
  semget_new = fresh;
  semget_absent = missing;
  semop_done = op_done;
  semop_sleeps = op_sleeps;
  semop_gone = op_gone;
  getval_done = value_done;
  setval_done = put_done;
  rmid_done = rmid_done_one;
}

-- A set that has two users, the value 5 and a free lock.
abbrev two_users : One
two_users = some (members 5 9998 0)

sem_create_new_example :
    (id : ℕ) × (s' : One) × (sem_create kernel 1 (pos 7) 5 none ≡ ok (pos id) s')
    × (at_zero id none ≡ none)
    × (at_zero id s' ≡ some (members 5 9999 0))
    × (one_bound s' (pos 7) ≡ some id)
    × ((j : ℕ) → j ≢ id → at_zero j s' ≡ at_zero j none)
sem_create_new_example =
    let (id, s', e, fresh, m, b, o) =
      sem_create_new kernel kernel-IsKernel 0 (pos 7) 5 none refl (omega arith) refl in
    (id, s', e, fresh, m, b, o)

perform-Counts_example :
    (s' : One) × (perform kernel kernel-IsKernel
        (pos 7)
        0
        (create 4 ∷ close_it ∷ open_it ∷ close_it ∷ close_it ∷ close_it ∷ [])
        two_users
      ≡ ok tt s')
    × Counts kernel kernel-IsKernel (pos 7) 0 0 s'
unfolding users_after
perform-Counts_example =
    perform-Counts kernel kernel-IsKernel (pos 7) 0 refl
      (create 4 ∷ close_it ∷ open_it ∷ close_it ∷ close_it ∷ close_it ∷ []) 2 0 two_users
      (5, 9998, omega arith, omega arith, refl, refl) refl
