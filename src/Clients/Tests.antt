-- ===== src/Clients/Tests.antt =====
-- Two lines to a server.
use unix_network_programming.Base.{[], ◌∷◌}
use unix_network_programming.CString.{Bytes}
use unix_network_programming.Datagram.Pair.{Lists, socket, socket_laws}
use unix_network_programming.Datagram.{Addr}
use unix_network_programming.Clients.{dg_cli}
use unix_network_programming.Clients.Answers.{Answered, dg_cli-Answered}

abbrev hi_line : Bytes
hi_line = b'h' ∷ b'i' ∷ b'\n' ∷ []

abbrev server : Addr
server = record { sin_port = 7000; sin_addr = 1 }

-- Two lines, of which one is answered.
abbrev one_answer : Lists
one_answer = (record { content = hi_line; addr = server } ∷ [], [])

dg_cli-Answered_example :
    Answered socket socket_laws server one_answer []
      (hi_line ∷ hi_line ∷ [])
      (dg_cli socket server (hi_line ∷ hi_line ∷ []) [] one_answer)
dg_cli-Answered_example =
    dg_cli-Answered socket socket_laws server (hi_line ∷ hi_line ∷ []) [] one_answer
