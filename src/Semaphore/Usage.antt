-- ===== src/Semaphore/Usage.antt =====
-- A history of calls by the users of one semaphore, against a plain count of users.
use mathlib.Core.Path.{subst}
use unix_network_programming.Base.{
  ℕ, zero, suc, ◌+◌, ◌-◌, ◌≤◌, ◌<◌, ◌≡◌, ◌≢◌, ◌⊎◌, refl, sym, ◌∙◌, ap, inl, inr, Bool, true, false,
  ◌&&◌, Option, none, some, List, [], ◌∷◌, arith, ◌==◌, ltb, if◌then◌else◌,
}
use unix_network_programming.Base.Int.{ℤ, pos}
use unix_network_programming.Semaphore.Sets.{members, Kernel, IsKernel}
use unix_network_programming.Semaphore.{
  bigcount, Run, ok, and_then, bad_key, sem_create, sem_open, sem_close,
}
use unix_network_programming.Semaphore.Create.{Becomes, sem_create_join, sem_open_join}
use unix_network_programming.Semaphore.Close.{sem_close_leave, sem_close_last}

-- A call on a semaphore that exists.
pub data Call : Type 0 where
  create : (initval : ℕ) → Call
  open_it : Call
  close_it : Call

abbrev pub is_empty : List Call → Bool
is_empty [] = true
is_empty (c ∷ cs) = false

-- The specification: the number of users behind the calls. A call has to find a user, a join finds
-- fewer than BIGCOUNT of them, and nothing follows the last user's close.
unfoldable pub users_after : List Call → ℕ → Option ℕ
users_after [] u = some u
users_after (create v ∷ cs) u =
    let rest = users_after cs (suc u) in if ltb 0 u && ltb u bigcount then rest else none
users_after (open_it ∷ cs) u =
    let rest = users_after cs (suc u) in if ltb 0 u && ltb u bigcount then rest else none
users_after (close_it ∷ cs) u =
    let rest = users_after cs (u - 1) in
    if ltb 1 u && ltb u (bigcount + 1) then rest else if u == 1 && is_empty cs then some 0 else none

joined :
    (cs : List Call) (i n v : ℕ)
    → (users_after (create i ∷ cs) (suc n) ≡ some v) ⊎ (users_after (open_it ∷ cs) (suc n) ≡ some v)
    → (suc n < bigcount) × (users_after cs (suc (suc n)) ≡ some v)
unfolding users_after
joined cs i n v (inl e) = (ground arith, ground arith)
joined cs i n v (inr e) = (ground arith, ground arith)

left_one :
    (cs : List Call) (n v : ℕ)
    → users_after (close_it ∷ cs) (suc (suc n)) ≡ some v
    → users_after cs (suc n) ≡ some v
unfolding users_after
left_one cs n v e = let one_less : suc (suc n) - 1 ≡ suc n = omega arith in ground arith

left_last : (c : Call) (cs : List Call) (v : ℕ) → users_after (close_it ∷ c ∷ cs) 1 ≢ some v
unfolding users_after
left_last c cs v e = ground arith

module _ (k : Kernel) (laws : IsKernel k) (key : ℤ) (id : ℕ) where
  -- The calls one after another; each process's calls stand at their places in the history.
  pub perform : List Call → k.State → Run k.State (Unit {0})
  perform [] s = ok tt s
  perform (create v ∷ cs) s = and_then (sem_create k 1 key v s) (λ _. perform cs)
  perform (open_it ∷ cs) s = and_then (sem_open k key s) (λ _. perform cs)
  perform (close_it ∷ cs) s = and_then (sem_close k id s) (λ _. perform cs)

  -- The set behind the key is there, with the lock free, and counts `u` users; or it is gone.
  abbrev pub Counts : ℕ → k.State → Type 0
  Counts zero s = k.set s id ≡ none
  Counts (suc n) s =
      (a : ℕ) × (c : ℕ) × (a ≤ 32767)
      × (c + suc n ≡ bigcount)
      × (k.set s id ≡ some (members a c 0))
      × (k.bound s key ≡ some id)

  Counts-next :
      (u n a c : ℕ) (s s' : k.State)
      → u ≡ suc n
      → a ≤ 32767
      → c + suc n ≡ bigcount
      → k.bound s key ≡ some id
      → Becomes k laws s id (members a c 0) s'
      → Counts u s'
  Counts-next u n a c s s' e fa fc b (m, o) =
      subst (λ w. Counts w s') (sym e) (a, c, fa, fc, m, o.1 key ∙ b)

  -- One joining call, by either function.
  join_one :
      (good : bad_key key ≡ false) (v n : ℕ) (s : k.State)
      → suc n < bigcount
      → Counts (suc n) s
      → ((s' : k.State) × (sem_create k 1 key v s ≡ ok (pos id) s') × Counts (suc (suc n)) s')
        × ((s' : k.State) × (sem_open k key s ≡ ok (pos id) s') × Counts (suc (suc n)) s')
  join_one good v n s room (a, c, fa, fc, m, b) =
      let e : c ≡ suc (c - 1) = omega arith in
      let m' : k.set s id ≡ some (members a (suc (c - 1)) 0) =
        m ∙ ap (λ x. some (members a x 0)) e in
      let (s1, e1, b1) = sem_create_join k laws 0 key v id a (c - 1) s good b m' fa (omega arith) in
      let (s2, e2, b2) = sem_open_join k laws key id a (c - 1) 0 s good b m' (omega arith) in
      (
        (s1, e1, Counts-next (suc (suc n)) (suc n) a (c - 1) s s1 refl fa (omega arith) b b1),
        (s2, e2, Counts-next (suc (suc n)) (suc n) a (c - 1) s s2 refl fa (omega arith) b b2),
      )

  leave_one :
      (n : ℕ) (s : k.State)
      → Counts (suc n) s
      → (s' : k.State) × (sem_close k id s ≡ ok tt s') × Counts n s'
  leave_one zero s (a, c, fa, fc, m, b) =
      let (s1, e1, gone, _, _) = sem_close_last k laws id a c s m fa (omega arith) in (s1, e1, gone)
  leave_one (suc n) s (a, c, fa, fc, m, b) =
      let (s1, e1, b1) = sem_close_leave k laws id a c s m fa (omega arith) in
      (s1, e1, Counts-next (suc n) n a (c + 1) s s1 refl fa (omega arith) b b1)

  -- For a key that is not refused, any history of sem_create, sem_open and sem_close that the
  -- count of users admits (each call finds a user, a join fewer than BIGCOUNT, nothing follows
  -- the last close), on a set whose lock is free and that counts as many users as the history
  -- starts with, runs to its end without sleeping or failing, and the set counts the users that
  -- the specification says; with none left it is gone.
  pub perform-Counts :
      bad_key key ≡ false
      → (cs : List Call) (u v : ℕ) (s : k.State) → Counts u s
      → users_after cs u ≡ some v
      → (s' : k.State) × (perform cs s ≡ ok tt s') × Counts v s'
  unfolding perform users_after
  perform-Counts good [] u v s h e = (s, refl, subst (λ w. Counts w s) (ground arith) h)
  perform-Counts good (c ∷ cs) zero v s h e = absurd (none_first c cs e)
    where
      none_first : (c : Call) (cs : List Call) → users_after (c ∷ cs) 0 ≡ some v → ⊥
      none_first (create i) cs e = ground arith
      none_first open_it cs e = ground arith
      none_first close_it cs e = ground arith
  perform-Counts good (create i ∷ cs) (suc n) v s h e =
      let (room, e') = joined cs i n v (inl e) in
      let (s1, e1, h1) = (join_one good i n s room h).0 in
      let (s2, e2, h2) = perform-Counts good cs (suc (suc n)) v s1 h1 e' in
      (s2, rw (perform, e1) e2, h2)
  perform-Counts good (open_it ∷ cs) (suc n) v s h e =
      let (room, e') = joined cs 0 n v (inr e) in
      let (s1, e1, h1) = (join_one good 0 n s room h).1 in
      let (s2, e2, h2) = perform-Counts good cs (suc (suc n)) v s1 h1 e' in
      (s2, rw (perform, e1) e2, h2)
  perform-Counts good (close_it ∷ cs) (suc (suc n)) v s h e =
      let (s1, e1, h1) = leave_one (suc n) s h in
      let (s2, e2, h2) = perform-Counts good cs (suc n) v s1 h1 (left_one cs n v e) in
      (s2, rw (perform, e1) e2, h2)
  perform-Counts good (close_it ∷ c ∷ cs) (suc zero) v s h e = absurd (left_last c cs v e)
  perform-Counts good (close_it ∷ []) (suc zero) v s h e =
      let (s1, e1, h1) = leave_one zero s h in
      (s1, rw (perform, e1), subst (λ w. Counts w s1) {x = 0} (ground arith) h1)
