-- ===== src/Inetd/Round.antt =====
-- The loop of main in inetd.c around select().
use unix_network_programming.Base.{
  ℕ, zero, suc, ◌≡◌, Bool, true, false, ◌&&◌, not, List, [], ◌∷◌, ◌==◌, if◌then◌else◌,
}
use unix_network_programming.Base.Int.{ℤ, pos, negsuc, ◌+ℤ◌}
use unix_network_programming.Inetd.{
  Service, Inetd, FdSet, fd_set, fd_clr, str_echo, dg_echo, str_dis, dg_dis, same_pid, sig_child,
}

-- strcmp(a, b) == 0.
unfoldable pub same : List ℕ → List ℕ → Bool
same [] [] = true
same [] (c ∷ cs) = false
same (c ∷ cs) [] = false
same (c ∷ cs) (d ∷ ds) = let rest = same cs ds in if c == d then rest else false

-- What accept() and fork() answer in a turn of the loop; at most one of each is called.
pub record Answers : Type 0 where
  pub accept : ℤ
  pub fork : ℤ

-- Where the scan of the services leads: the parent goes on with a table and a count, a child is to
-- run a service on a socket, or the process exits.
pub data Scan : Type 0 where
  parent : List Service → ℤ → Scan
  child : Service → ℕ → Scan
  failed : Scan

abbrev pub keep : Service → Scan → Scan
keep s (parent ss u) = parent (s ∷ ss) u
keep s (child c fd) = child c fd
keep s failed = failed

module _ (a : Answers) where
  abbrev pub fork_stream : ℤ → Service → List Service → ℤ → ℕ → Scan
  fork_stream (negsuc e) s ss u fd = failed
  fork_stream (pos zero) s ss u fd = child s fd
  fork_stream (pos (suc p)) s ss u fd = parent (s ∷ ss) u

  abbrev pub stream : ℤ → Service → List Service → ℤ → Scan
  stream (negsuc e) s ss u = failed
  stream (pos fd) s ss u = fork_stream a.fork s ss u fd

  abbrev pub datagram : ℤ → Service → List Service → ℤ → Scan
  datagram (negsuc e) s ss u = failed
  datagram (pos zero) s ss u = child s s.sockfd
  datagram (pos (suc p)) s ss u = parent (record s { child_pid = pos (suc p) } ∷ ss) (u +ℤ pos 1)

  -- The body for a service that is ready; `rest` is the scan's further turns.
  unfoldable pub handle : Service → List Service → ℤ → Scan → Scan
  handle s ss u rest =
      if s.sock_type == 0
      then (if same s.service str_echo
          then stream a.accept s ss u
          else if same s.service str_dis
          then stream a.accept s ss u
          else rest)
      else if same s.service dg_echo
      then datagram a.fork s ss u
      else if same s.service dg_dis
      then datagram a.fork s ss u
      else rest

  unfoldable pub scan : FdSet → List Service → ℤ → Scan
  scan ready [] u = parent [] u
  scan ready (s ∷ ss) u =
      let rest = keep s (scan ready ss u) in if ready s.sockfd then handle s ss u rest else rest

abbrev pub is_zero : ℤ → Bool
is_zero u = same_pid u (pos 0)

-- The loop over j behind the scan.
unfoldable pub set_all : List Service → FdSet → FdSet
set_all [] f = f
set_all (s ∷ ss) f = set_all ss (fd_set s.sockfd f)

abbrev pub busy : Service → Bool
busy s = s.sock_type == 1 && not (is_zero s.child_pid)

-- The loop over k.
unfoldable pub clear_busy : List Service → FdSet → FdSet
clear_busy [] f = f
clear_busy (s ∷ ss) f = clear_busy ss (if busy s then fd_clr s.sockfd f else f)

unfoldable pub rearm : List Service → ℤ → FdSet → FdSet
rearm ss u f = if not (is_zero u) then clear_busy ss (set_all ss f) else set_all ss f

pub data Round : Type 0 where
  again : Inetd → Round
  runs : Service → ℕ → Round
  exits : Round

abbrev pub finish : Inetd → FdSet → Scan → Round
finish i ready (parent ss u) =
    again (record i { serv_arr = ss; read_sockfds = rearm ss u ready; udp_select_conn = u })
finish i ready (child s fd) = runs s fd
finish i ready failed = exits

-- A turn of the loop behind a select() that returns with the sockets `ready` in read_sockfds.
unfoldable pub round : Answers → FdSet → Inetd → Round
round a ready i = finish i ready (scan a ready i.serv_arr i.udp_select_conn)

-- What the process can do while it is in select(): return with some of the watched sockets and take
-- a turn of the loop as the parent, or be interrupted by SIGCHLD and go back. A signal between
-- select() and the scan is a signal followed by a return with the socket that it set. In a turn no
-- signal comes between fork() and the store to child_pid, nor between the two loops behind the scan.
pub data Step (i : Inetd) : Inetd → Type 0 where
  ready_step :
      (a : Answers) (r : FdSet) (i' : Inetd)
      → ((n : ℕ) → r n && not (i.read_sockfds n) ≡ false)
      → round a r i ≡ again i'
      → Step i i'
  child_step : (pid : ℕ) (pids : List ℕ) → Step i (sig_child (suc pid ∷ pids) i).0

pub data Steps (i : Inetd) : Inetd → Type 0 where
  here : Steps i i
  after : {j k : Inetd} → Steps i j → Step j k → Steps i k
