-- ===== src/TcpDaemon.antt =====
-- daemon_start and sig_child of "Chapter 6 - Berkely Sockets/Sockets/11.tcp_daemon/tcp_daemon.c", as
-- they are compiled where SIGTSTP is defined. Descriptors are those that the system gives: the
-- lowest free ones. The child's work on its client, str_echo() and shutdown(), is left out.
pub mod Start
pub mod Serve
mod Tests
use unix_network_programming.Base.{
  ℕ, zero, suc, ◌≡◌, Bool, true, false, Option, none, some, List, [], ◌∷◌, ◌++◌, ◌==◌,
  if◌then◌else◌, ◌<◌, ◌+◌,
}
use unix_network_programming.Base.Int.{ℤ, pos, negsuc}
use unix_network_programming.Inetd.Child.{Table, close, lowest_free, open_at, close_all}
use unix_network_programming.Inetd.Daemon.{Process}

-- What stands behind a descriptor.
pub data File : Type 0 where
  log_file : File
  listener : File
  client : ℕ → File
  inherited : ℕ → File

-- The answers of the calls that are made once; `log` is that of open(log_path), and `listen` that of
-- listen() on a socket.
pub record Calls : Type 0 where
  pub getppid : ℕ
  pub fork : ℤ
  pub setpgid : ℤ
  pub tty : ℤ
  pub log : ℤ
  pub socket : ℤ
  pub listen : ℤ

pub data Message : Type 0 where
  listen_error : Message
  accept_error : Message
  fork_error : Message

-- How the part ahead of the loop ends: daemon_start returns, the process exits, or it is listening.
-- What stands in the log is kept with the process.
pub data Started : Type 0 where
  returned : List Message → Process File → Started
  exited : ℕ → Started
  listening : (sockfd : ℕ) → Process File → Started

-- listen(sockfd, 5); on the descriptor -1 of a failed socket() it fails.
abbrev pub on_listen : ℤ → ℕ → Process File → Started
on_listen (negsuc e) sockfd p = returned (listen_error ∷ []) p
on_listen (pos n) sockfd p = listening sockfd p

abbrev pub with_file : File → ℕ → Process File → Process File
with_file file fd p = record p { files = open_at file fd p.files }

abbrev pub on_socket : Calls → ℕ → ℤ → Process File → Started
on_socket c nofile (negsuc e) p = returned (listen_error ∷ []) p
on_socket c nofile (pos n) p =
    let sockfd = lowest_free nofile 0 p.files in
    on_listen c.listen sockfd (with_file listener sockfd p)

-- dup(log_fd): every descriptor but one is free.
abbrev pub dup_log : Calls → ℕ → Process File → Started
dup_log c nofile p =
    on_socket c nofile c.socket (with_file log_file (lowest_free nofile 0 p.files) p)

abbrev pub on_log : Calls → ℕ → ℤ → Process File → Started
on_log c nofile (negsuc e) p = returned [] p
on_log c nofile (pos n) p = dup_log c nofile (with_file log_file (lowest_free nofile 0 p.files) p)

-- From the label `out` to the opening of the log.
abbrev pub detach : {F : Type 0} → ℕ → Bool → Process F → Process F
detach nofile ignore_sig_child p = record p {
  files = close_all nofile p.files;
  at_root = true;
  umask = some 0;
  sigchld = if ignore_sig_child then true else p.sigchld;
}

abbrev pub out : Calls → ℕ → Bool → Process File → Started
out c nofile ignore_sig_child p = on_log c nofile c.log (detach nofile ignore_sig_child p)

-- ioctl(TIOCNOTTY) on the terminal, which is closed again.
abbrev pub give_up_tty : {F : Type 0} → ℤ → Process F → Process F
give_up_tty (negsuc e) p = p
give_up_tty (pos fd) p = record p { no_tty = true }

abbrev pub on_setpgid : Calls → ℕ → Bool → ℤ → Process File → Started
on_setpgid c nofile ig (negsuc zero) p = returned [] p
on_setpgid c nofile ig (negsuc (suc e)) p =
    out c nofile ig (give_up_tty c.tty (record p { own_group = true }))
on_setpgid c nofile ig (pos n) p =
    out c nofile ig (give_up_tty c.tty (record p { own_group = true }))

abbrev pub on_fork : Calls → ℕ → Bool → ℤ → Process File → Started
on_fork c nofile ig (negsuc e) p = returned [] p
on_fork c nofile ig (pos (suc pid)) p = exited 0
on_fork c nofile ig (pos zero) p = on_setpgid c nofile ig c.setpgid p

-- daemon_start up to `for (;;)`.
pub daemon_start : Calls → ℕ → Bool → Process File → Started
daemon_start c nofile ignore_sig_child p =
    if c.getppid == 1
    then out c nofile ignore_sig_child p
    else on_fork c nofile ignore_sig_child c.fork (record p { ignores_tty = true })

-- What accept() and fork() answer in a turn of the loop; the client is the file that came in.
pub data Turn : Type 0 where
  accept_failed : Turn
  fork_failed : (client : ℕ) → Turn
  forked : (client : ℕ) → Turn

-- The parent waits in accept(), with the descriptors that its children have served their clients
-- with, the last one first, or has returned.
pub data Serving : Type 0 where
  waiting : Table File → (children : List (Table File)) → Serving
  stopped : Message → Table File → (children : List (Table File)) → Serving

-- `for (;;)`, over the turns that come.
pub serve : (nofile sockfd : ℕ) → List Turn → Table File → List (Table File) → Serving
serve nofile sockfd [] t children = waiting t children
serve nofile sockfd (accept_failed ∷ turns) t children = stopped accept_error t children
serve nofile sockfd (fork_failed c ∷ turns) t children =
    stopped fork_error (open_at (client c) (lowest_free nofile 0 t) t) children
serve nofile sockfd (forked c ∷ turns) t children =
    let fd = lowest_free nofile 0 t in
    let both = open_at (client c) fd t in
    serve nofile sockfd turns (close fd both) (close sockfd both ∷ children)

-- The children of the process: wait3() with WNOHANG, and how many have ended and are not collected.
pub record Kernel : Type 1 where
  pub State : Type 0
  pub wait3 : State → ℤ × State
  pub ended : State → ℕ

module _ (k : Kernel) where
  -- A pid where a child has ended, which is then collected; else 0 or -1.
  abbrev pub Wait3Law : k.State → ℤ × k.State → Type 0
  Wait3Law s (pos (suc pid), s') = k.ended s ≡ suc (k.ended s')
  Wait3Law s (pos zero, s') = (k.ended s ≡ 0) × (k.ended s' ≡ 0)
  Wait3Law s (negsuc e, s') = (k.ended s ≡ 0) × (k.ended s' ≡ 0)

  abbrev pub IsKernel : Type 0
  IsKernel = (s : k.State) → Wait3Law s (k.wait3 s)

  -- `while ((pid = wait3(...)) > 0)` of sig_child; `none` stands for too little fuel.
  abbrev pub on_wait3 : (k.State → Option k.State) → ℤ × k.State → Option k.State
  on_wait3 next (pos (suc pid), s) = next s
  on_wait3 next (pos zero, s) = some s
  on_wait3 next (negsuc e, s) = some s

  pub sig_child : ℕ → k.State → Option k.State
  sig_child zero s = none
  sig_child (suc fuel) s = on_wait3 (sig_child fuel) (k.wait3 s)
