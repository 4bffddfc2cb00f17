-- ===== src/Daemon/Tests.antt =====
-- The theorem of daemon.c where fork() fails.
use unix_network_programming.Base.{
  ℕ, ◌≡◌, true, false, none, some, ltb, if◌then◌else◌, arith, ◌≤◌, inr,
}
use unix_network_programming.Base.Int.{pos, negsuc}
use unix_network_programming.Inetd.Child.{Table}
use unix_network_programming.Inetd.Daemon.{Process}
use unix_network_programming.Daemon.{
  Calls, daemon_start, daemon_start_always, SettledWith, messages,
}

abbrev no_fork : Calls
no_fork = record { getppid = 200; fork = negsuc 0; setpgid = pos 0; tty = pos 3; chdir = true }

abbrev shell_table : Table ℕ
shell_table n = if ltb n 3 then some n else none

shell_table_top : (n : ℕ) → 64 ≤ n → shell_table n ≡ none
shell_table_top n h = ground arith

abbrev process : Process ℕ
process = record {
  files = shell_table;
  sigchld = false;
  ignores_tty = false;
  own_group = false;
  no_tty = false;
  at_root = false;
  umask = none;
}

daemon_start_always_example :
    SettledWith true true process (messages no_fork) (daemon_start no_fork 64 true process)
daemon_start_always_example =
    daemon_start_always no_fork 64 true process shell_table_top (inr (λ pid e. cc))
