-- ===== src/DeadHolder/Holders.antt =====
-- What holds over every run, with SEM_UNDO or without: who holds the lock, and the semaphore's value.
use mathlib.Core.Bool.{true≢false}
use mathlib.Core.Path.{subst}
use unix_network_programming.Base.{
  ℕ, suc, ◌+◌, ◌-◌, ◌≡◌, ◌≢◌, refl, sym, ◌∙◌, ◌⊎◌, inl, inr, Bool-cases, ==_iff, ◌==◌, arith,
}
use unix_network_programming.DeadHolder.{
  Variant, pitfall_1, pitfall_2, lock_adj, unlock_adj, Caller, outside, holding, dead, set,
  set-cases, Sys, sys, start, Step, my_lock, my_unlock, dies, Reach, here, after,
}

-- No process holds the lock, nothing is to be undone, and the semaphore has the value.
abbrev pub Nobody : ℕ → Sys → Type 0
Nobody m (sys f a n) = ((i : ℕ) → f i ≢ holding) × ((i : ℕ) → a i ≡ 0) × (n ≡ m)

-- One process alone holds the lock, with what the system undoes for it; the semaphore is 1.
abbrev pub HeldBy : (w i : ℕ) → Sys → Type 0
HeldBy w i (sys f a n) =
    (f i ≡ holding)
    × ((j : ℕ) → f j ≡ holding → j ≡ i)
    × (a i ≡ w)
    × ((j : ℕ) → j ≢ i → a j ≡ 0)
    × (n ≡ 1)

set_at {ℓ} : {A : Type ℓ} (f : ℕ → A) (i : ℕ) (v : A) → set f i v i ≡ v
set_at f i v = elim (set-cases f i v i) [ inl h ↦ h.1 | inr h ↦ absurd (h.0 refl) ]

set_off {ℓ} : {A : Type ℓ} (f : ℕ → A) (i : ℕ) (v : A) (j : ℕ) → j ≢ i → set f i v j ≡ f j
set_off f i v j ne = elim (set-cases f i v j) [ inl h ↦ absurd (ne (h.0)) | inr h ↦ h.1 ]

-- A process that holds the lock behind another's change held it before.
held_before :
    (f : ℕ → Caller) (i j : ℕ) (v : Caller)
    → v ≢ holding
    → set f i v j ≡ holding
    → (j ≢ i) × (f j ≡ holding)
held_before f i j v ne h = elim (set-cases f i v j) [
  | inl e ↦ absurd (ne (sym (e.1) ∙ h))
  | inr e ↦ (e.0, sym (e.1) ∙ h)
]

locked :
    (f : ℕ → Caller) (a : ℕ → ℕ) (pid m n w : ℕ)
    → Nobody m (sys f a n)
    → HeldBy w pid (sys (set f pid holding) (set a pid (a pid + w)) 1)
locked f a pid m n w (none, zeros, e) = (
  set_at f pid holding,
  (λ j h. elim (set-cases f pid holding j) [
    | inl c ↦ c.0
    | inr c ↦ absurd (none j (sym (c.1) ∙ h))
  ]),
  set_at a pid (a pid + w) ∙ omega (arith, zeros pid),
  (λ j ne. set_off a pid (a pid + w) j ne ∙ zeros j),
  refl,
)

-- The holder leaves, by my_unlock() or by its death.
left :
    (f : ℕ → Caller) (a : ℕ → ℕ) (i w k m n old : ℕ) (v : Caller)
    → v ≢ holding
    → k ≡ 0
    → n ≡ m
    → HeldBy w i (sys f a old)
    → Nobody m (sys (set f i v) (set a i k) n)
left f a i w k m n old v ne k0 nm (h, only, one, others, e) = (
  (λ j g. let b = held_before f i j v ne g in b.0 (only j (b.1))),
  (λ j. elim (set-cases a i k j) [ inl c ↦ c.1 ∙ k0 | inr c ↦ c.1 ∙ others j (c.0) ]),
  nm,
)

-- A process that does not hold it dies.
stays :
    (f : ℕ → Caller) (a : ℕ → ℕ) (i pid w n : ℕ)
    → pid ≢ i
    → HeldBy w i (sys f a n)
    → HeldBy w i (sys (set f pid dead) (set a pid 0) (n - a pid))
stays f a i pid w n ne (h, only, one, others, e) =
    let zero_adj = others pid ne in
    (
      set_off f pid dead i (λ k. ne (sym k)) ∙ h,
      (λ j k. only j ((held_before f pid j dead (λ c. cc) k).1)),
      set_off a pid 0 i (λ k. ne (sym k)) ∙ one,
      (λ j k. elim (set-cases a pid 0 j) [ inl c ↦ c.1 | inr c ↦ c.1 ∙ others j k ]),
      omega (arith, zero_adj, e),
    )

pub nobody_dies :
    (f : ℕ → Caller) (a : ℕ → ℕ) (pid m n : ℕ)
    → Nobody m (sys f a n)
    → Nobody m (sys (set f pid dead) (set a pid 0) (n - a pid))
nobody_dies f a pid m n (none, zeros, e) = (
  (λ j k. none j ((held_before f pid j dead (λ c. cc) k).1)),
  (λ j. elim (set-cases a pid 0 j) [ inl c ↦ c.1 | inr c ↦ c.1 ∙ zeros j ]),
  omega (arith, zeros pid, e),
)

-- What the holder's death leaves: the semaphore less what is undone.
pub holder_dies :
    (f : ℕ → Caller) (a : ℕ → ℕ) (i w n : ℕ)
    → HeldBy w i (sys f a n)
    → Nobody (1 - w) (sys (set f i dead) (set a i 0) (n - a i))
holder_dies f a i w n held =
    left f a i w 0 (1 - w) (n - a i) n dead (λ c. cc) refl (omega (arith, held.2, held.4)) held

unlocked :
    (v : Variant) (f : ℕ → Caller) (a : ℕ → ℕ) (i n : ℕ)
    → HeldBy (lock_adj v) i (sys f a (suc n))
    → Nobody 0 (sys (set f i outside) (set a i (a i - unlock_adj v)) n)
unlocked v f a i n held =
    left f a i (lock_adj v) (a i - unlock_adj v) 0 n (suc n) outside (λ c. cc)
      (omega (arith, held.2, balanced v)) (omega (arith, held.4)) held
  where
    balanced : (v : Variant) → lock_adj v ≡ unlock_adj v
    balanced pitfall_1 = refl
    balanced pitfall_2 = refl

-- Free, held by one process, or left as a holder's death leaves it.
abbrev pub Sound : Variant → Sys → Type 0
Sound v t = Nobody 0 t ⊎ ((i : ℕ) × HeldBy (lock_adj v) i t) ⊎ Nobody (1 - lock_adj v) t

death :
    (v : Variant) (f : ℕ → Caller) (a : ℕ → ℕ) (i pid n : ℕ)
    → HeldBy (lock_adj v) i (sys f a n)
    → Sound v (sys (set f pid dead) (set a pid 0) (n - a pid))
death v f a i pid n held = elim (Bool-cases (pid == i)) [
  | inl e ↦ inr (
      inr (
        holder_dies f a pid (lock_adj v) n
          (subst (λ z. HeldBy (lock_adj v) z (sys f a n)) (sym ((==_iff pid i).0 e)) held)))
  | inr e ↦ inr (
      inl (i, stays f a i pid (lock_adj v) n (λ k. true≢false (sym ((==_iff pid i).1 k) ∙ e)) held))
]

Sound-Step : (v : Variant) (t t' : Sys) → Step v t t' → Sound v t → Sound v t'
Sound-Step v _ _ (my_lock {f = f} {a = a} pid h) (inl free) =
    inr (inl (pid, locked f a pid 0 0 (lock_adj v) free))
Sound-Step v _ _ (my_lock pid h) (inr (inl (i, held))) = absurd (omega (arith, held.4))
Sound-Step v _ _ (my_lock {f = f} {a = a} pid h) (inr (inr none)) =
    inr (inl (pid, locked f a pid (1 - lock_adj v) 0 (lock_adj v) none))
Sound-Step v _ _ (my_unlock pid h) (inl free) = absurd (free.0 pid h)
Sound-Step v _ _ (my_unlock {f = f} {a = a} {n = n} pid h) (inr (inl (i, held))) = inl (
    unlocked v f a pid n
      (subst (λ z. HeldBy (lock_adj v) z (sys f a (suc n))) (sym (held.1 pid h)) held))
Sound-Step v _ _ (my_unlock pid h) (inr (inr none)) = absurd (none.0 pid h)
Sound-Step v _ _ (dies {f = f} {a = a} {n = n} pid h) (inl free) =
    inl (nobody_dies f a pid 0 n free)
Sound-Step v _ _ (dies {f = f} {a = a} {n = n} pid h) (inr (inl (i, held))) =
    death v f a i pid n held
Sound-Step v _ _ (dies {f = f} {a = a} {n = n} pid h) (inr (inr none)) =
    inr (inr (nobody_dies f a pid (1 - lock_adj v) n none))

pub Sound-Reach : (v : Variant) (t : Sys) → Reach v start t → Sound v t
Sound-Reach v _ here = inl ((λ i. λ c. cc), (λ i. refl), refl)
Sound-Reach v _ (after {t = t} {t' = t'} r h) = Sound-Step v t t' h (Sound-Reach v t r)
