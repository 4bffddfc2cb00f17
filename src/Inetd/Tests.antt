-- ===== src/Inetd/Tests.antt =====
-- The tables of inetd.c on a concrete run, and its theorems there.
use unix_network_programming.Base.{
  ℕ, ◌+◌, ◌≤◌, ◌≡◌, refl, true, false, ◌&&◌, not, none, some, List, [], ◌∷◌, ◌++◌, ◌==◌, arith,
  if◌then◌else◌,
}
use unix_network_programming.Base.Int.{ℤ, pos, negsuc, ◌+ℤ◌}
use unix_network_programming.Inetd.{
  Service, Inetd, FdSet, fd_zero, fd_set, Sockets, start, open_services, str_echo, dg_echo, str_dis,
  dg_dis, sig_child,
}
use unix_network_programming.Inetd.Round.{
  Answers, again, round, scan, handle, same, rearm, here, after, ready_step, child_step,
}
use unix_network_programming.Inetd.Reach.{launch}
use unix_network_programming.Inetd.Invariant.{Watched}
use unix_network_programming.Inetd.Start.{IsSockets, start-Watched}
use unix_network_programming.Inetd.Serve.{round-sig_child, any_ready, recorded}
use unix_network_programming.Inetd.Child.{Table, stream_child, datagram_child}
use unix_network_programming.Inetd.Descriptors.{OnlyStd, child-OnlyStd}

abbrev sockets : Sockets
sockets = record { socket = λ i. pos (i + 3); bind = λ i. pos 0 }

sockets-IsSockets : IsSockets sockets
sockets-IsSockets = record { fresh = λ i j n e f. ground arith }

abbrev service_at : ℕ → ℕ → List ℕ → ℕ → ℤ → Service
service_at t p n fd c = record {
  sock_type = t;
  port_number = p;
  service = n;
  sockfd = fd;
  child_pid = c;
}

abbrev echo : Service
echo = service_at 1 6969 dg_echo 4 (pos 0)

abbrev behind : List Service
behind = service_at 0 6970 str_dis 5 (negsuc 0) ∷ service_at 1 6970 dg_dis 6 (pos 0) ∷ []

abbrev ahead : List Service
ahead = service_at 0 6969 str_echo 3 (negsuc 0) ∷ []

-- The state that the loop starts in.
abbrev started : Inetd
started = record {
  serv_arr = ahead ++ (echo ∷ behind);
  read_sockfds = fd_set 6 (fd_set 5 (fd_set 4 (fd_set 3 fd_zero)));
  udp_select_conn = pos 0;
  max_sockfd = 6;
}

-- A datagram for dg_echo; its child gets the pid 77.
abbrev only_echo : FdSet
only_echo n = n == 4

abbrev answers : Answers
answers = record { accept = negsuc 0; fork = pos 77 }

abbrev serving : Inetd
serving = record started {
  serv_arr = ahead ++ (launch echo 76 ∷ behind);
  read_sockfds = rearm (ahead ++ (launch echo 76 ∷ behind)) (pos 1) only_echo;
  udp_select_conn = pos 1;
}

start_runs : start sockets ≡ some started
unfolding open_services
start_runs = refl

round_runs : round answers only_echo started ≡ again serving
unfolding round scan handle same ◌+ℤ◌
round_runs = refl

watched_only : (n : ℕ) → (only_echo n && not (started.read_sockfds n)) ≡ false
watched_only n = ground arith

start-Watched_example : Watched (sig_child (77 ∷ []) serving).0
start-Watched_example =
    start-Watched sockets sockets-IsSockets started (sig_child (77 ∷ []) serving).0 start_runs (
      after (after here (ready_step answers only_echo serving watched_only round_runs))
        (child_step 76 []))

round-sig_child_example :
    (j : Inetd) × (k : Inetd) × (round answers only_echo started ≡ again j)
    × (j.serv_arr ≡ ahead ++ (launch echo 76 ∷ behind))
    × (j.read_sockfds 4 ≡ false)
    × (sig_child (77 ∷ 90 ∷ []) j ≡ (k, 90 ∷ []))
    × (k.serv_arr ≡ ahead ++ (echo ∷ behind))
    × (k.udp_select_conn ≡ pos 0)
    × (k.read_sockfds 4 ≡ true)
unfolding any_ready recorded same
round-sig_child_example =
    round-sig_child answers only_echo started ahead behind echo 76 (90 ∷ [])
      (start-Watched sockets sockets-IsSockets started started start_runs here) refl watched_only
      refl refl refl refl refl

-- Files are their numbers: the socket at 7 is the file 70.
abbrev table : Table ℕ
table n = if n == 7 then some 70 else if n == 5 then some 50 else none

table_top : (n : ℕ) → 64 ≤ n → table n ≡ none
table_top n h = ground arith

child-OnlyStd_example :
    OnlyStd 70 (stream_child 64 5 7 table) × OnlyStd 70 (datagram_child 64 7 table)
child-OnlyStd_example =
    child-OnlyStd 64 5 7 70 table (omega arith) (λ e. omega arith) table_top refl
