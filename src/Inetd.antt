-- ===== src/Inetd.antt =====
-- Chapter 6, Sockets/12.inetd/inetd.c: a small inetd over two stream and two datagram services.
-- This file has its tables and the signal handler; Round the loop around select(), Child what a
-- forked child does, Daemon daemon_start.
pub mod Round
pub mod Child
pub mod Daemon
pub mod Watch
pub mod Reach
pub mod Invariant
pub mod Start
pub mod Serve
pub mod Descriptors
mod Tests
use unix_network_programming.Base.{
  ℕ, zero, suc, ◌+◌, ◌≡◌, Bool, true, false, ◌&&◌, Option, none, some, List, [], ◌∷◌, ltb, ◌==◌,
  if◌then◌else◌,
}
use unix_network_programming.Base.Int.{ℤ, pos, negsuc, ◌+ℤ◌, ◌-ℤ◌}

-- struct services, without the addresses. sock_type is 0 for a stream service and 1 for a datagram
-- one; the service is the name of the program to run.
pub record Service : Type 0 where
  pub sock_type : ℕ
  pub port_number : ℕ
  pub service : List ℕ
  pub sockfd : ℕ
  pub child_pid : ℤ

-- An fd_set as its test FD_ISSET.
abbrev pub FdSet : Type 0
FdSet = ℕ → Bool

abbrev pub fd_zero : FdSet
fd_zero n = false

abbrev pub fd_set : ℕ → FdSet → FdSet
fd_set fd f n = if n == fd then true else f n

abbrev pub fd_clr : ℕ → FdSet → FdSet
fd_clr fd f n = if n == fd then false else f n

-- The globals, and max_sockfd of main.
pub record Inetd : Type 0 where
  pub serv_arr : List Service
  pub read_sockfds : FdSet
  pub udp_select_conn : ℤ
  pub max_sockfd : ℕ

-- The names, as the codes of their characters.
abbrev pub str_echo : List ℕ
str_echo = 115 ∷ 116 ∷ 114 ∷ 95 ∷ 101 ∷ 99 ∷ 104 ∷ 111 ∷ []

abbrev pub dg_echo : List ℕ
dg_echo = 100 ∷ 103 ∷ 95 ∷ 101 ∷ 99 ∷ 104 ∷ 111 ∷ []

abbrev pub str_dis : List ℕ
str_dis = 115 ∷ 116 ∷ 114 ∷ 95 ∷ 100 ∷ 105 ∷ 115 ∷ []

abbrev pub dg_dis : List ℕ
dg_dis = 100 ∷ 103 ∷ 95 ∷ 100 ∷ 105 ∷ 115 ∷ []

abbrev entry : ℕ → ℕ → List ℕ → ℤ → Service
entry t p n c = record { sock_type = t; port_number = p; service = n; sockfd = 0; child_pid = c }

-- serv_arr as main fills it.
abbrev pub services : List Service
services =
    entry 0 6969 str_echo (negsuc 0)
    ∷ entry 1 6969 dg_echo (pos 0)
    ∷ entry 0 6970 str_dis (negsuc 0)
    ∷ entry 1 6970 dg_dis (pos 0)
    ∷ []

-- The answers of socket() and bind() to the call with a number. listen() is called for a stream
-- service, and its failure is logged only.
pub record Sockets : Type 0 where
  pub socket : ℕ → ℤ
  pub bind : ℕ → ℤ

abbrev pub opened : Service → Option Inetd → Option Inetd
opened s none = none
opened s (some i) = some (record i { serv_arr = s ∷ i.serv_arr })

-- Both cases of the switch, by the answers of socket() and bind(): `rest` runs the loop's further
-- turns.
abbrev pub open_one : ℤ → ℤ → Service → ℕ → FdSet → (ℕ → FdSet → Option Inetd) → Option Inetd
open_one (negsuc e) b s max f rest = none
open_one (pos fd) (negsuc e) s max f rest = none
open_one (pos fd) (pos b) s max f rest =
    opened (record s { sockfd = fd }) (rest (if ltb max fd then fd else max) (fd_set fd f))

module _ (a : Sockets) where
  -- The loop that opens the sockets of the services; none when the process exits.
  unfoldable pub open_services : ℕ → List Service → ℕ → FdSet → Option Inetd
  open_services i [] max f =
      some (record { serv_arr = []; read_sockfds = f; udp_select_conn = pos 0; max_sockfd = max })
  open_services i (s ∷ ss) max f =
      if s.sock_type == 0
      then open_one (a.socket i) (a.bind i) s max f (open_services (suc i) ss)
      else if s.sock_type == 1
      then open_one (a.socket i) (a.bind i) s max f (open_services (suc i) ss)
      else none

  -- main up to its loop, without daemon_start.
  abbrev pub start : Option Inetd
  start = open_services 0 services 0 fd_zero

abbrev pub same_pid : ℤ → ℤ → Bool
same_pid (pos m) (pos n) = m == n
same_pid (pos m) (negsuc n) = false
same_pid (negsuc m) (pos n) = false
same_pid (negsuc m) (negsuc n) = m == n

abbrev pub put_back : Service → Option (List Service × ℕ) → Option (List Service × ℕ)
put_back s none = none
put_back s (some (ss, fd)) = some (s ∷ ss, fd)

-- The handler's inner loop: the first service whose child has the pid, with child_pid set to 0, and
-- its socket.
unfoldable pub release : ℤ → List Service → Option (List Service × ℕ)
release pid [] = none
release pid (s ∷ ss) =
    let rest = put_back s (release pid ss) in
    if same_pid pid s.child_pid then some (record s { child_pid = pos 0 } ∷ ss, s.sockfd) else rest

abbrev pub freed : Inetd → Option (List Service × ℕ) → Inetd
freed i none = i
freed i (some (ss, fd)) = record i {
  serv_arr = ss;
  read_sockfds = fd_set fd i.read_sockfds;
  udp_select_conn = i.udp_select_conn -ℤ pos 1;
}

-- sig_child for SIGCHLD, over the children that have ended and are not waited for yet, in the order
-- in which waitpid() answers: its while loop breaks at the end of the first turn.
unfoldable pub sig_child : List ℕ → Inetd → Inetd × List ℕ
sig_child [] i = (i, [])
sig_child (pid ∷ pids) i = (freed i (release (pos pid) i.serv_arr), pids)
