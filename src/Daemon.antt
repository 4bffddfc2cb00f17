-- ===== src/Daemon.antt =====
-- daemon_start of "Chapter 2 - The Unix Model/16_daemon/daemon.c", as it is compiled where SIGTSTP is
-- defined. Its err_sys writes its message and returns.
mod Tests
use unix_network_programming.Base.{
  ℕ, zero, suc, ◌≤◌, ◌≡◌, ◌≢◌, ◌⊎◌, refl, ap, ◌∙◌, Bool, true, false, Option, none, some, List, [],
  ◌∷◌, ◌++◌, ◌==◌, ◌||◌, if◌then◌else◌, arith, Bool-cases, inl, inr,
}
use mathlib.Core.List.{append-nil, append_assoc}
use unix_network_programming.Base.Int.{ℤ, pos, negsuc}
use unix_network_programming.Inetd.Child.{Table, close_all}
use unix_network_programming.Inetd.Descriptors.{all_closed}
use unix_network_programming.Inetd.Daemon.{Process}

-- The answers of the calls, each made once at most.
pub record Calls : Type 0 where
  pub getppid : ℕ
  pub fork : ℤ
  pub setpgid : ℤ
  pub tty : ℤ
  pub chdir : Bool  -- chdir("/") succeeds

pub data Message : Type 0 where
  cant_fork_first_child : Message
  cant_change_process_group : Message

-- It returns in a process, with what it has written to descriptor 2, or the process exits.
pub data Ended (F : Type 0) : Type 0 where
  returned : Process F → List Message → Ended F
  exited : ℕ → Ended F

-- write(2, message, strlen(message)), whatever it answers.
abbrev err_sys : Message → List Message → List Message
err_sys m written = written ++ (m ∷ [])

-- The messages of the calls that failed.
abbrev failures : ℤ → Message → List Message
failures (pos n) m = []
failures (negsuc zero) m = m ∷ []
failures (negsuc (suc e)) m = []

abbrev pub fork_failures : ℤ → List Message
fork_failures (pos n) = []
fork_failures (negsuc e) = cant_fork_first_child ∷ []

abbrev pub messages : Calls → List Message
messages c =
    if c.getppid == 1
    then []
    else fork_failures c.fork ++ failures c.setpgid cant_change_process_group

module _ {F : Type 0} where
  -- From the label `out` on.
  abbrev pub out : Calls → ℕ → Bool → Process F → List Message → Ended F
  out c nofile ignore_sig_child p w =
      returned
        (record p {
          files = close_all nofile p.files;
          at_root = if c.chdir then true else p.at_root;
          umask = some 0;
          sigchld = if ignore_sig_child then true else p.sigchld;
        })
        w

  -- ioctl(TIOCNOTTY) on the terminal, which is closed again.
  abbrev pub give_up_tty : Calls → ℕ → Bool → ℤ → Process F → List Message → Ended F
  give_up_tty c nofile ig (negsuc e) p w = out c nofile ig p w
  give_up_tty c nofile ig (pos fd) p w = out c nofile ig (record p { no_tty = true }) w

  -- setpgid(0, getpid()) == -1.
  abbrev pub change_group : Calls → ℕ → Bool → ℤ → Process F → List Message → Ended F
  change_group c nofile ig (negsuc zero) p w =
      give_up_tty c nofile ig c.tty p (err_sys cant_change_process_group w)
  change_group c nofile ig (negsuc (suc e)) p w =
      give_up_tty c nofile ig c.tty (record p { own_group = true }) w
  change_group c nofile ig (pos n) p w =
      give_up_tty c nofile ig c.tty (record p { own_group = true }) w

  abbrev pub on_fork : Calls → ℕ → Bool → ℤ → Process F → List Message → Ended F
  on_fork c nofile ig (negsuc e) p w =
      change_group c nofile ig c.setpgid p (err_sys cant_fork_first_child w)
  on_fork c nofile ig (pos (suc pid)) p w = exited 0
  on_fork c nofile ig (pos zero) p w = change_group c nofile ig c.setpgid p w

  pub daemon_start : Calls → ℕ → Bool → Process F → Ended F
  daemon_start c nofile ignore_sig_child p =
      if c.getppid == 1
      then out c nofile ignore_sig_child p []
      else on_fork c nofile ignore_sig_child c.fork (record p { ignores_tty = true }) []

  -- No descriptor is open, and the rest is set.
  abbrev pub Settled : Bool → Bool → Process F → Process F → Type 0
  Settled chdir ig p q =
      ((n : ℕ) → q.files n ≡ none)
      × (q.at_root ≡ (chdir || p.at_root))
      × (q.umask ≡ some 0)
      × (q.sigchld ≡ (ig || p.sigchld))

  -- In a run that returns, the settings and the messages.
  abbrev pub SettledWith : Bool → Bool → Process F → List Message → Ended F → Type 0
  SettledWith chdir ig p w (returned q v) = Settled chdir ig p q × (v ≡ w)
  SettledWith chdir ig p w (exited n) = ⊥

  give_up_tty-Settled :
      (c : Calls) (nofile : ℕ) (ig : Bool) (tty : ℤ) (p : Process F) (w : List Message)
      → ((n : ℕ) → nofile ≤ n → p.files n ≡ none)
      → SettledWith c.chdir ig p w (give_up_tty c nofile ig tty p w)
  give_up_tty-Settled c nofile ig (pos n) p w top =
      ((all_closed nofile p.files top, ground arith, refl, ground arith), refl)
  give_up_tty-Settled c nofile ig (negsuc n) p w top =
      ((all_closed nofile p.files top, ground arith, refl, ground arith), refl)

  change_group-Settled :
      (c : Calls) (nofile : ℕ) (ig : Bool) (answer : ℤ) (p : Process F) (w : List Message)
      → ((n : ℕ) → nofile ≤ n → p.files n ≡ none)
      → SettledWith c.chdir ig p
          (w ++ failures answer cant_change_process_group)
          (change_group c nofile ig answer p w)
  change_group-Settled c nofile ig (pos n) p w top =
      rw (append-nil) (give_up_tty-Settled c nofile ig c.tty (record p { own_group = true }) w top)
  change_group-Settled c nofile ig (negsuc zero) p w top =
      give_up_tty-Settled c nofile ig c.tty p (w ++ (cant_change_process_group ∷ [])) top
  change_group-Settled c nofile ig (negsuc (suc n)) p w top =
      rw (append-nil) (give_up_tty-Settled c nofile ig c.tty (record p { own_group = true }) w top)

  -- With no descriptor open from NOFILE on, daemon_start in any process but the parent of a child
  -- that it has forked returns, whichever of its calls failed, with no descriptor open, at the root
  -- directory if chdir() succeeded or it was there before, with the mask 0, and with the SIGCHLD
  -- handler set if it was asked for. Where init did not start the process it has written one
  -- message for a failed fork() and one for a failed setpgid(), and no other.
  pub daemon_start_always :
      (c : Calls) (nofile : ℕ) (ig : Bool) (p : Process F)
      → ((n : ℕ) → nofile ≤ n → p.files n ≡ none)
      → (c.getppid ≡ 1) ⊎ ((pid : ℕ) → c.fork ≢ pos (suc pid))
      → SettledWith c.chdir ig p (messages c) (daemon_start c nofile ig p)
  unfolding daemon_start
  daemon_start_always c nofile ig p top (inl i) =
      rw (i) ((all_closed nofile p.files top, ground arith, refl, ground arith), refl)
  daemon_start_always c nofile ig p top (inr no_pid) = elim (Bool-cases (c.getppid == 1)) [
    | inl i ↦ rw (i) ((all_closed nofile p.files top, ground arith, refl, ground arith), refl)
    | inr i ↦ rw (i) (forked c.fork no_pid)
  ]
    where
      ready : Process F
      ready = record p { ignores_tty = true }

      forked :
          (answer : ℤ)
          → ((pid : ℕ) → answer ≢ pos (suc pid))
          → SettledWith c.chdir ig p
              (fork_failures answer ++ failures c.setpgid cant_change_process_group)
              (on_fork c nofile ig answer ready [])
      forked (pos zero) none_pid = change_group-Settled c nofile ig c.setpgid ready [] top
      forked (pos (suc n)) none_pid = absurd (none_pid n refl)
      forked (negsuc e) none_pid =
          change_group-Settled c nofile ig c.setpgid ready (cant_fork_first_child ∷ []) top
