-- ===== src/TcpDaemon/Tests.antt =====
-- The theorems of tcp_daemon.c at concrete inputs.
use unix_network_programming.Base.{
  ℕ, ◌≡◌, refl, false, none, some, [], ◌∷◌, arith, ◌≤◌, if◌then◌else◌, zero, suc, ltb, map,
}
use unix_network_programming.Base.Int.{ℤ, pos, negsuc}
use unix_network_programming.Inetd.Child.{Table}
use unix_network_programming.Inetd.Daemon.{Process}
use unix_network_programming.TcpDaemon.{File, inherited, Calls, forked, serve, Kernel, IsKernel}
use unix_network_programming.TcpDaemon.Start.{at_loop}
use unix_network_programming.TcpDaemon.Serve.{WaitingFor, serve-WaitingFor}

abbrev shell_table : Table File
shell_table n = if ltb n 3 then some (inherited n) else none

shell_table_top : (n : ℕ) → 64 ≤ n → shell_table n ≡ none
shell_table_top n h = ground arith

abbrev calls : Calls
calls = record {
  getppid = 200;
  fork = pos 0;
  setpgid = pos 0;
  tty = negsuc 0;
  log = pos 0;
  socket = pos 2;
  listen = pos 0;
}

abbrev process : Process File
process = record {
  files = shell_table;
  sigchld = false;
  ignores_tty = false;
  own_group = false;
  no_tty = false;
  at_root = false;
  umask = none;
}

serve-WaitingFor_example : WaitingFor (9 ∷ 8 ∷ []) (serve 64 2 (map forked (8 ∷ 9 ∷ [])) at_loop [])
serve-WaitingFor_example =
    serve-WaitingFor 64 (8 ∷ 9 ∷ []) [] at_loop [] (omega arith) (λ n. refl) tt

-- Children that have ended, by their number.
abbrev collect : ℕ → ℤ × ℕ
collect zero = (negsuc 0, 0)
collect (suc n) = (pos 77, n)

abbrev kernel : Kernel
kernel = record { State = ℕ; wait3 = collect; ended = λ n. n }

kernel_laws : IsKernel kernel
kernel_laws zero = (refl, refl)
kernel_laws (suc n) = refl
