-- ===== src/Lock/Exclusion.antt =====
-- A lock that is held is not given to another process, and its release leaves the files as they were.
use mathlib.Core.Bool.{true≢false}
use mathlib.Core.Path.{subst}
use unix_network_programming.Base.{
  ℕ, zero, suc, ◌≡◌, ◌≢◌, ◌⊎◌, inl, inr, refl, sym, ◌∙◌, true, false, Bool-cases,
}
use unix_network_programming.Base.Errno.{Errno, is_eexist}
use unix_network_programming.Lock.{
  lockfile, tempfile, lck, Files, IsFiles, IsExclusive, OpenLaw, UnlinkLaw, Same, Reply, done,
  error, Run, demand, try_again, returns, fatal, out_of_fuel, SameBut, my_open_lock, my_open_unlock,
  link_loop, my_link_lock, my_link_unlock, my_creat_lock, my_creat_unlock,
}

module _ (k : Files) (laws : IsExclusive k) where
  -- What the release leaves: all names as they were in `s`, or, where unlink() failed, as in `s1`.
  abbrev pub Released : (s s1 : k.State) → Run k.State → Type 0
  Released s s1 (returns s2) = Same k s s2
  Released s s1 (fatal s2) = Same k s1 s2
  Released s s1 out_of_fuel = ⊥

  -- How `f` tries of the lock end.
  abbrev pub Locks : ℕ → k.State → Run k.State → Type 0
  Locks f s (returns s1) =
      (k.exists s lockfile ≡ false)
      × (k.exists s1 lockfile ≡ true)
      × SameBut k lockfile s s1
      × ((g : ℕ) (t : k.State) → my_open_lock k g s1 ≢ returns t)
      × Released s s1 (my_open_unlock k s1)
  Locks f s (fatal s1) =
      Same k s s1
      × ((s0 : k.State) × (e : Errno) × (k.open_excl lockfile s0 ≡ error e s1)
          × (is_eexist e ≡ false))
  Locks f s out_of_fuel = (f ≡ 0) ⊎ (k.exists s lockfile ≡ true)

  open_waits : (g : ℕ) (s t : k.State) → k.exists s lockfile ≡ true → my_open_lock k g s ≢ returns t
  unfolding my_open_lock
  open_waits zero s t h = λ e. cc
  open_waits (suc g) s t h = go (k.open_excl lockfile s) (laws.opens lockfile s) (open_waits g)
    where
      go :
          (r : Reply k.State)
          → OpenLaw k lockfile s r
          → ((s' t' : k.State) → k.exists s' lockfile ≡ true → my_open_lock k g s' ≢ returns t')
          → try_again k is_eexist returns (my_open_lock k g) r ≢ returns t
      go (done s') (free, now, others) ih = λ e. true≢false (sym h ∙ free)
      go (error e s') (same, why) ih = elim (Bool-cases (is_eexist e)) [
        | inl y ↦ rw (try_again, y) (ih s' t (same lockfile ∙ h))
        | inr y ↦ rw (try_again, y) (λ z. cc)
      ]

  released :
      (s s1 : k.State)
      → k.exists s lockfile ≡ false
      → SameBut k lockfile s s1
      → Released s s1 (my_open_unlock k s1)
  unfolding my_open_unlock
  released s s1 free others = go (k.unlink lockfile s1) (laws.unlinks lockfile s1)
    where
      all_same :
          (s2 : k.State) → k.exists s2 lockfile ≡ false → SameBut k lockfile s1 s2 → Same k s s2
      all_same s2 gone o lockfile = gone ∙ sym free
      all_same s2 gone o tempfile = o tempfile (λ e. cc) ∙ others tempfile (λ e. cc)
      all_same s2 gone o (lck p) = o (lck p) (λ e. cc) ∙ others (lck p) (λ e. cc)

      go : (r : Reply k.State) → UnlinkLaw k lockfile s1 r → Released s s1 (demand r)
      go (done s2) (gone, o) = all_same s2 gone o
      go (error e s2) same = same

  -- One more try ahead of the others.
  Locks-again :
      (f : ℕ) (s s' : k.State) (r : Run k.State)
      → Same k s s'
      → k.exists s lockfile ≡ true
      → Locks f s' r
      → Locks (suc f) s r
  Locks-again f s s' (returns s1) same h (free, now, others, never, rel) =
      absurd (true≢false (sym h ∙ sym (same lockfile) ∙ free))
  Locks-again f s s' (fatal s1) same h (same', why) = (λ m. same' m ∙ same m, why)
  Locks-again f s s' out_of_fuel same h l = inr h

  -- Any number of tries of my_open_lock end in one of three ways. It returns: then LOCKFILE was not
  -- there and is there now, the other names are as before, no number of tries of my_open_lock returns
  -- from there on, and my_open_unlock leaves all names as they were before the lock, or unlink()
  -- fails and they stay. Or the process ends: then open() has failed with an errno other than EEXIST,
  -- and all names are as before. Or the tries, if there were any, are used up: then LOCKFILE was
  -- there.
  pub my_open_lock-my_open_unlock : (f : ℕ) (s : k.State) → Locks f s (my_open_lock k f s)
  unfolding my_open_lock
  my_open_lock-my_open_unlock zero s = inl refl
  my_open_lock-my_open_unlock (suc f) s =
      go (k.open_excl lockfile s) refl (laws.opens lockfile s) (my_open_lock-my_open_unlock f)
    where
      go :
          (r : Reply k.State)
          → k.open_excl lockfile s ≡ r
          → OpenLaw k lockfile s r
          → ((s' : k.State) → Locks f s' (my_open_lock k f s'))
          → Locks (suc f) s (try_again k is_eexist returns (my_open_lock k f) r)
      go (done s') e (free, now, others) ih =
          (free, now, others, λ g t. open_waits g s' t now, released s s' free others)
      go (error e s') er (same, why) ih = elim (Bool-cases (is_eexist e)) [
        | inl y ↦
            let h : k.exists s lockfile ≡ true = elim why [
              | inl n ↦ absurd (true≢false (sym y ∙ n))
              | inr t ↦ t
            ] in
            let goes_on : try_again k is_eexist returns (my_open_lock k f) (error e s')
                ≡ my_open_lock k f s' =
              rw (try_again, y) refl in
            subst (Locks (suc f) s) (sym goes_on)
              (Locks-again f s s' (my_open_lock k f s') same h (ih s'))
        | inr y ↦
            let ends : try_again k is_eexist returns (my_open_lock k f) (error e s') ≡ fatal s' =
              rw (try_again, y) refl in
            subst (Locks (suc f) s) (sym ends) (same, (s, e, er, y))
      ]

module _ (k : Files) (laws : IsFiles k) where
  link_waits :
      (pid g : ℕ) (s : k.State)
      → k.exists s (lck pid) ≡ true
      → k.exists s lockfile ≡ true
      → link_loop k pid g s ≡ out_of_fuel
  unfolding link_loop
  link_waits pid zero s t h = refl
  link_waits pid (suc g) s t h =
      rw (laws.link_taken (lck pid) lockfile s t h) (link_waits pid g s t h)

  -- When LOCKFILE and the temporary files of two processes do not exist, my_link_lock of the
  -- first returns at its first try and its temporary file is gone; while LOCKFILE is there no
  -- number of tries of the second process gets the lock; my_link_unlock takes LOCKFILE away.
  my_link_lock-my_link_unlock :
      (pid f other : ℕ) (s : k.State)
      → k.exists s lockfile ≡ false
      → k.exists s (lck pid) ≡ false
      → k.exists s (lck other) ≡ false
      → lck other ≢ lck pid
      → (s1 : k.State) × (s2 : k.State) × (my_link_lock k pid (suc f) s ≡ returns s1)
        × (k.exists s1 (lck pid) ≡ false)
        × ((g : ℕ) → my_link_lock k other g s1 ≡ out_of_fuel)
        × (my_link_unlock k s1 ≡ returns s2)
        × (k.exists s2 lockfile ≡ false)
  unfolding my_link_lock my_link_unlock link_loop
  my_link_lock-my_link_unlock pid f other s free none_yet none_other apart =
      let (sa, ea, ha, wa, oa) = laws.creat_free (lck pid) false s none_yet in
      let (sb, eb, hb, ob) =
        laws.link_free (lck pid) lockfile sa ha (oa lockfile (λ e. cc) ∙ free) in
      let (s1, e1, h1, o1) = laws.unlink_done (lck pid) sb (ob (lck pid) (λ e. cc) ∙ ha) in
      let locked : k.exists s1 lockfile ≡ true = o1 lockfile (λ e. cc) ∙ hb in
      let absent : k.exists s1 (lck other) ≡ false =
        o1 (lck other) apart ∙ ob (lck other) (λ e. cc) ∙ oa (lck other) apart ∙ none_other in
      let (s2, e2, h2, o2) = laws.unlink_done lockfile s1 locked in
      let (sc, ec, hc, wc, oc) = laws.creat_free (lck other) false s1 absent in
      (
        s1,
        s2,
        rw (ea, eb, e1),
        h1,
        λ g. rw (ec) (link_waits other g sc hc (oc lockfile (λ e. cc) ∙ locked)),
        rw (e2),
        h2,
      )

  creat_waits :
      (g : ℕ) (s : k.State)
      → k.exists s tempfile ≡ true
      → k.writable s tempfile ≡ false
      → my_creat_lock k g s ≡ out_of_fuel
  unfolding my_creat_lock
  creat_waits zero s h w = refl
  creat_waits (suc g) s h w = rw (laws.creat_denied tempfile false s h w) (creat_waits g s h w)

  -- When TEMPFILE does not exist, my_creat_lock returns at its first try; while its file is
  -- there without write permission no number of tries of my_creat_lock gets the lock;
  -- my_creat_unlock takes the file away, and all other names exist or not as before the lock.
  -- The laws are those of a user for whom permissions count.
  my_creat_lock-my_creat_unlock :
      (f : ℕ) (s : k.State)
      → k.exists s tempfile ≡ false
      → (s1 : k.State) × (s2 : k.State) × (my_creat_lock k (suc f) s ≡ returns s1)
        × ((g : ℕ) → my_creat_lock k g s1 ≡ out_of_fuel)
        × (my_creat_unlock k s1 ≡ returns s2)
        × (k.exists s2 tempfile ≡ false)
        × SameBut k tempfile s s2
  unfolding my_creat_lock my_creat_unlock
  my_creat_lock-my_creat_unlock f s free =
      let (s1, e1, h1, w1, o1) = laws.creat_free tempfile false s free in
      let (s2, e2, h2, o2) = laws.unlink_done tempfile s1 h1 in
      (s1, s2, rw (e1), λ g. creat_waits g s1 h1 w1, rw (e2), h2, λ m ne. o2 m ne ∙ o1 m ne)
