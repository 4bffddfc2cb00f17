-- ===== src/Inetd/Daemon.antt =====
-- daemon_start of inetd.c, as it is compiled where SIGTSTP is defined.
use unix_network_programming.Base.{
  ℕ, zero, suc, ◌≡◌, refl, Bool, true, false, Option, none, some, ◌==◌, if◌then◌else◌, Bool-cases,
  inl, inr, ◌⊎◌, ◌≢◌, ◌||◌, arith, ◌≤◌, ◌<◌,
}
use unix_network_programming.Base.Int.{ℤ, pos, negsuc}
use unix_network_programming.Inetd.Child.{Table, dup2, lowest_free, open_at, close_all}
use unix_network_programming.Inetd.Descriptors.{OnlyStd, dup2_lem, first_free, all_closed}

-- The answers of the calls that the function makes once at most; that of open("/dev/null") says
-- whether it succeeds, and the descriptor is the lowest free one.
pub record Calls : Type 0 where
  pub getppid : ℕ
  pub fork : ℤ
  pub setpgid : ℤ
  pub tty : ℤ
  pub null : ℤ

-- What the function sets for a process: its descriptors, whether SIGCHLD has the handler, whether
-- the three terminal signals are ignored, whether it has left its group and its terminal, its
-- directory and its mask, with `none` for those that it has not set.
pub record Process (F : Type 0) : Type 0 where
  pub files : Table F
  pub sigchld : Bool
  pub ignores_tty : Bool
  pub own_group : Bool
  pub no_tty : Bool
  pub at_root : Bool
  pub umask : Option ℕ

-- It returns in a process, or the process exits with a status.
pub data Start (F : Type 0) : Type 0 where
  returns : Process F → Start F
  exited : ℕ → Start F

module _ {F : Type 0} (null : F) where
  abbrev pub onto_null : ℤ → ℕ → Process F → Start F
  onto_null (negsuc e) fd p = exited 1
  onto_null (pos n) zero p =
      returns (record p { files = dup2 0 2 (dup2 0 1 (open_at null 0 p.files)) })
  onto_null (pos n) (suc fd) p = exited 1

  -- From the label `out` on.
  abbrev pub out : Calls → ℕ → Bool → Process F → Start F
  out c nofile ignore_sig_child p =
      let closed = close_all nofile p.files in
      onto_null c.null (lowest_free nofile 0 closed) (record p {
        files = closed;
        at_root = true;
        umask = some 0;
        sigchld = if ignore_sig_child then true else p.sigchld;
      })

  abbrev pub give_up_tty : Calls → ℕ → Bool → ℤ → Process F → Start F
  give_up_tty c nofile ig (pos fd) p = out c nofile ig (record p { no_tty = true })
  give_up_tty c nofile ig (negsuc e) p = out c nofile ig p

  -- The child behind the fork: its group, its terminal, and on.
  abbrev pub in_child : Calls → ℕ → Bool → ℤ → Process F → Start F
  in_child c nofile ig (negsuc zero) p = returns p
  in_child c nofile ig (negsuc (suc e)) p =
      give_up_tty c nofile ig c.tty (record p { own_group = true })
  in_child c nofile ig (pos n) p = give_up_tty c nofile ig c.tty (record p { own_group = true })

  abbrev pub behind_fork : Calls → ℕ → Bool → ℤ → Process F → Start F
  behind_fork c nofile ig (negsuc e) p = returns p
  behind_fork c nofile ig (pos (suc n)) p = exited 0
  behind_fork c nofile ig (pos zero) p = in_child c nofile ig c.setpgid p

  pub daemon_start : Calls → ℕ → Bool → Process F → Start F
  daemon_start c nofile ignore_sig_child p =
      if c.getppid == 1
      then out c nofile ignore_sig_child p
      else behind_fork c nofile ignore_sig_child c.fork (record p { ignores_tty = true })

  -- What the function leaves behind when it gets through.
  abbrev pub Settled : Bool → Process F → Process F → Type 0
  Settled ig p q =
      OnlyStd null q.files
      × (q.at_root ≡ true)
      × (q.umask ≡ some 0)
      × (q.sigchld ≡ (ig || p.sigchld))

  -- The null device on the three standard descriptors of a table with nothing open.
  onto_null-OnlyStd :
      (t : Table F) → ((n : ℕ) → t n ≡ none) → OnlyStd null (dup2 0 2 (dup2 0 1 (open_at null 0 t)))
  onto_null-OnlyStd t empty n =
      let t0 : Table F = open_at null 0 t in
      let t1 : Table F = dup2 0 1 t0 in
      let e1 : t1 0 ≡ some null = dup2_lem 0 1 null t0 0 refl in
      let last : dup2 0 2 t1 n ≡ (if n == 2 then some null else t1 n) = dup2_lem 0 2 null t1 n e1 in
      let mid : t1 n ≡ (if n == 1 then some null else t0 n) = dup2_lem 0 1 null t0 n refl in
      let none_left = empty n in ground arith

  out-Settled :
      (c : Calls) (nofile : ℕ) (ig : Bool) (p : Process F) (fd : ℕ)
      → 0 < nofile
      → c.null ≡ pos fd
      → ((n : ℕ) → nofile ≤ n → p.files n ≡ none)
      → (q : Process F) × (out c nofile ig p ≡ returns q) × Settled ig p q
  out-Settled c nofile ig p fd h e top =
      let closed = close_all nofile p.files in
      let gone = all_closed nofile p.files top in
      (
        record p {
          files = dup2 0 2 (dup2 0 1 (open_at null 0 closed));
          at_root = true;
          umask = some 0;
          sigchld = if ig then true else p.sigchld;
        },
        rw (e, first_free nofile closed h (gone 0)),
        (onto_null-OnlyStd closed gone, refl, refl, ground arith),
      )

  abbrev grouped : Process F → Process F
  grouped p = record p { ignores_tty = true; own_group = true }

  -- With no descriptor open from NOFILE on and /dev/null openable, daemon_start in a process
  -- that init started, or in a forked child that gets its group, returns with exactly the
  -- descriptors 0, 1 and 2 open, all on the null device, at the root directory, with the mask
  -- 0, and with the SIGCHLD handler set if it was asked for.
  daemon_start-Settled :
      (c : Calls) (nofile : ℕ) (ig : Bool) (p : Process F) (fd : ℕ)
      → 0 < nofile
      → c.null ≡ pos fd
      → ((n : ℕ) → nofile ≤ n → p.files n ≡ none)
      → (c.getppid ≡ 1) ⊎ ((c.fork ≡ pos 0) × (c.setpgid ≡ pos 0))
      → (q : Process F) × (daemon_start c nofile ig p ≡ returns q) × Settled ig p q
  unfolding daemon_start
  daemon_start-Settled c nofile ig p fd h e top (inl i) =
      rw (i) (out-Settled c nofile ig p fd h e top)
  daemon_start-Settled c nofile ig p fd h e top (inr (f, g)) = elim (Bool-cases (c.getppid == 1)) [
    | inl i ↦ rw (i) (out-Settled c nofile ig p fd h e top)
    | inr i ↦ rw (i, f, g) (tty c.tty)
  ]
    where
      tty :
          (x : ℤ)
          → (q : Process F) × (give_up_tty c nofile ig x (grouped p) ≡ returns q) × Settled ig p q
      tty (pos k) = out-Settled c nofile ig (record (grouped p) { no_tty = true }) fd h e top
      tty (negsuc k) = out-Settled c nofile ig (grouped p) fd h e top

  -- In a process that init did not start, when fork() fails, or the new process group fails in
  -- the child, daemon_start returns all the same, and has only ignored the terminal signals:
  -- descriptors, directory, mask and handler are as before.
  daemon_start_undone :
      (c : Calls) (nofile : ℕ) (ig : Bool) (p : Process F) (n : ℕ)
      → c.getppid ≢ 1
      → (c.fork ≡ negsuc n) ⊎ ((c.fork ≡ pos 0) × (c.setpgid ≡ negsuc 0))
      → daemon_start c nofile ig p ≡ returns (record p { ignores_tty = true })
  unfolding daemon_start
  daemon_start_undone c nofile ig p n ne (inl f) =
      let t : (c.getppid == 1) ≡ false = ground arith in rw (t, f)
  daemon_start_undone c nofile ig p n ne (inr (f, g)) =
      let t : (c.getppid == 1) ≡ false = ground arith in rw (t, f, g)
