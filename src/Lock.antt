-- ===== src/Lock.antt =====
-- The locks of "Chapter 3 - Interprocess Communication/1_file_record_locking/lock.c" that are files: by
-- link(), by creat() of a file that nobody may write, and by open() with O_EXCL. The file system is a
-- parameter, with what the code relies on of it as laws. Fuel is the number of tries; sleep(1) between
-- them leaves no trace.
pub mod Exclusion
mod Tests
use unix_network_programming.Base.{ℕ, zero, suc, ◌≡◌, ◌≢◌, ◌⊎◌, Bool, true, false}
use unix_network_programming.Base.Errno.{Errno, eexist, eacces, is_eexist, is_eacces}

-- LOCKFILE, TEMPFILE, and the file "LCK" with a process's number.
pub data Name : Type 0 where
  lockfile : Name
  tempfile : Name
  lck : (pid : ℕ) → Name

pub data Reply (S : Type 0) : Type 0 where
  done : S → Reply S
  error : Errno → S → Reply S

-- `creat name writable` gives the file write permission or none, and `open_excl` is open() with
-- O_CREAT and O_EXCL. `exists` and `writable` are what a caller can know.
pub record Files : Type 1 where
  pub State : Type 0
  pub creat : Name → Bool → State → Reply State
  pub link : Name → Name → State → Reply State
  pub unlink : Name → State → Reply State
  pub open_excl : Name → State → Reply State
  pub exists : State → Name → Bool
  pub writable : State → Name → Bool

-- How a call ends: it returns, err_sys ends the process, or the tries are used up.
pub data Run (S : Type 0) : Type 0 where
  returns : S → Run S
  fatal : S → Run S
  out_of_fuel : Run S

abbrev pub demand : {S : Type 0} → Reply S → Run S
demand (done s) = returns s
demand (error e s) = fatal s

module _ (k : Files) where
  -- One try, and those behind it when errno is the one that means a held lock.
  abbrev pub try_again :
      (Errno → Bool)
      → (k.State → Run k.State)
      → (k.State → Run k.State)
      → Reply k.State
      → Run k.State
  try_again held next again (done s) = next s
  try_again held next again (error e s) = elim (held e) [ true ↦ again s | false ↦ fatal s ]

  unfoldable pub my_open_lock : ℕ → k.State → Run k.State
  my_open_lock zero s = out_of_fuel
  my_open_lock (suc f) s = try_again is_eexist returns (my_open_lock f) (k.open_excl lockfile s)

  pub my_open_unlock : k.State → Run k.State
  my_open_unlock s = demand (k.unlink lockfile s)

  -- The loop around link(), and the unlink() of the temporary file behind it.
  unfoldable pub link_loop : ℕ → ℕ → k.State → Run k.State
  link_loop pid zero s = out_of_fuel
  link_loop pid (suc f) s =
      try_again is_eexist (λ s'. demand (k.unlink (lck pid) s')) (link_loop pid f)
        (k.link (lck pid) lockfile s)

  abbrev pub behind_creat : ℕ → ℕ → Reply k.State → Run k.State
  behind_creat pid f (done s) = link_loop pid f s
  behind_creat pid f (error e s) = fatal s

  pub my_link_lock : ℕ → ℕ → k.State → Run k.State
  my_link_lock pid f s = behind_creat pid f (k.creat (lck pid) false s)

  pub my_link_unlock : k.State → Run k.State
  my_link_unlock s = demand (k.unlink lockfile s)

  unfoldable pub my_creat_lock : ℕ → k.State → Run k.State
  my_creat_lock zero s = out_of_fuel
  my_creat_lock (suc f) s = try_again is_eacces returns (my_creat_lock f) (k.creat tempfile false s)

  pub my_creat_unlock : k.State → Run k.State
  my_creat_unlock s = demand (k.unlink tempfile s)

  -- The other names are as before.
  abbrev pub SameBut : Name → k.State → k.State → Type 0
  SameBut n s s' = (m : Name) → m ≢ n → k.exists s' m ≡ k.exists s m

  abbrev pub Same : k.State → k.State → Type 0
  Same s s' = (m : Name) → k.exists s' m ≡ k.exists s m

  -- open(2) with O_CREAT and O_EXCL makes the file, where the name is not there; its error EEXIST
  -- says that the name is there, and it can fail in other ways too.
  abbrev pub OpenLaw : Name → k.State → Reply k.State → Type 0
  OpenLaw n s (done s') = (k.exists s n ≡ false) × (k.exists s' n ≡ true) × SameBut n s s'
  OpenLaw n s (error e s') = Same s s' × ((is_eexist e ≡ false) ⊎ (k.exists s n ≡ true))

  -- unlink(2) takes the name away, or fails.
  abbrev pub UnlinkLaw : Name → k.State → Reply k.State → Type 0
  UnlinkLaw n s (done s') = (k.exists s' n ≡ false) × SameBut n s s'
  UnlinkLaw n s (error e s') = Same s s'

  pub record IsExclusive : Type 0 where
    pub opens : (n : Name) (s : k.State) → OpenLaw n s (k.open_excl n s)
    pub unlinks : (n : Name) (s : k.State) → UnlinkLaw n s (k.unlink n s)

  -- The laws for link() and creat(), where the calls do not fail in other ways.
  pub record IsFiles : Type 0 where
    pub link_free :
        (m n : Name) (s : k.State)
        → k.exists s m ≡ true
        → k.exists s n ≡ false
        → (s' : k.State) × (k.link m n s ≡ done s') × (k.exists s' n ≡ true) × SameBut n s s'
    pub link_taken :
        (m n : Name) (s : k.State)
        → k.exists s m ≡ true
        → k.exists s n ≡ true
        → k.link m n s ≡ error eexist s
    pub unlink_done :
        (n : Name) (s : k.State)
        → k.exists s n ≡ true
        → (s' : k.State) × (k.unlink n s ≡ done s') × (k.exists s' n ≡ false) × SameBut n s s'
    pub creat_free :
        (n : Name) (w : Bool) (s : k.State)
        → k.exists s n ≡ false
        → (s' : k.State) × (k.creat n w s ≡ done s')
          × (k.exists s' n ≡ true)
          × (k.writable s' n ≡ w)
          × SameBut n s s'
    pub creat_denied :
        (n : Name) (w : Bool) (s : k.State)
        → k.exists s n ≡ true
        → k.writable s n ≡ false
        → k.creat n w s ≡ error eacces s
