-- ===== src/Datagram/Tests.antt =====
-- A socket with lists of datagrams, and the theorems of the servers on it.
use unix_network_programming.Base.{ℕ, refl, [], ◌∷◌}
use unix_network_programming.Datagram.{Datagram, Vars, dg_echo, dg_echo_service, dg_dis_service}
use unix_network_programming.Datagram.Pair.{Lists, socket, socket_laws}
use unix_network_programming.Datagram.Echo.{Echoes, dg_echo-Echoes}
use unix_network_programming.Datagram.OneClient.{SentTo, services-SentTo}

abbrev from_port : ℕ → Datagram
from_port p = record { content = 104 ∷ 105 ∷ []; addr = record { sin_port = p; sin_addr = 1 } }

abbrev two_clients : Lists
two_clients = (from_port 7000 ∷ from_port 8000 ∷ [], [])

dg_echo-Echoes_example :
    Echoes socket socket_laws []
      (from_port 7000 ∷ from_port 8000 ∷ [])
      (dg_echo socket 3 two_clients)
dg_echo-Echoes_example = dg_echo-Echoes socket socket_laws two_clients

abbrev vars : Vars socket
vars = record {
  mesg = [];
  pcli_addr = record { sin_port = 0; sin_addr = 0 };
  first_client = record { sin_port = 0; sin_addr = 0 };
  msgcnt = 0;
}

services-SentTo_example :
    SentTo socket socket_laws 7000 (dg_echo_service socket 5 vars two_clients)
    × SentTo socket socket_laws 7000 (dg_dis_service socket 5 vars two_clients)
services-SentTo_example =
    services-SentTo socket socket_laws 5 vars two_clients (from_port 7000) (from_port 8000 ∷ [])
      refl refl refl
