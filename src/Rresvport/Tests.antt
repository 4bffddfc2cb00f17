-- ===== src/Rresvport/Tests.antt =====
-- my_rresvport on a system where two ports are taken.
use unix_network_programming.Base.{◌≡◌, refl, none, some, arith, ◌==◌, ◌||◌, if◌then◌else◌}
use unix_network_programming.Base.Int.{pos}
use unix_network_programming.Base.Errno.{eacces, eaddrinuse}
use unix_network_programming.Rresvport.{bound, refused, Net, my_rresvport, my_rresvport_udp}
use unix_network_programming.Rresvport.Search.{Ends, my_rresvport-Ends}

abbrev busy_net : Net
busy_net = record {
  socket = λ t. some 3;
  socket_errno = eacces;
  bind = λ fd p. if (p == 1000) || (p == 999) then refused eaddrinuse else bound;
}

skips_busy :
    my_rresvport busy_net (pos 1000) ≡ record { ret = pos 3; errno = none; crport = pos 998 }
unfolding my_rresvport
skips_busy = refl

my_rresvport-Ends_example :
    Ends busy_net 3 1001 (my_rresvport busy_net (pos 1000))
    × Ends busy_net 3 1001 (my_rresvport_udp busy_net (pos 1000))
my_rresvport-Ends_example =
    my_rresvport-Ends busy_net 1000 3 3 (omega arith) (omega arith) refl refl
