-- ===== src/Association/Tests.antt =====
-- A server on descriptor 3 with two clients, and a line to the handler.
use unix_network_programming.Base.{
  ℕ, Bool, true, false, ◌≡◌, refl, Option, none, some, List, [], ◌∷◌, arith, ltb,
}
use unix_network_programming.Association.{
  Answers, Proc, tcp_open, tcp_connect, goes_on, out_of_fuel, server_sigint,
}
use unix_network_programming.Association.Settled.{SettledFrom, tcp_calls-SettledFrom}
use unix_network_programming.Association.Interrupt.{server_sigint-answered}

abbrev three : Answers
three = record { socket = some 3; malloc = true; bind = true; listen = true; connect = false }

abbrev std_fds : ℕ → Bool
std_fds n = ltb n 3

abbrev std : Proc
std = record { fds = std_fds; blocks = 0 }

tcp_calls-SettledFrom_example :
    SettledFrom std (tcp_open 5 three std) × SettledFrom std (tcp_connect three std)
tcp_calls-SettledFrom_example = tcp_calls-SettledFrom 5 three std refl refl

abbrev server_fds : ℕ → Bool
server_fds n = ltb n 4

abbrev server : Proc
server = record { fds = server_fds; blocks = 3 }

abbrev two_turns : List (Option ℕ × Bool)
two_turns = (some 4, true) ∷ (some 4, false) ∷ (none, false) ∷ []

server_sigint-answered_example :
    (server_sigint 3 (b'n' ∷ b'o' ∷ b'\n' ∷ b'x' ∷ []) ≡ goes_on (b'x' ∷ []))
    × (server_sigint 3 (b'n' ∷ b'o' ∷ []) ≡ out_of_fuel)
server_sigint-answered_example =
    server_sigint-answered b'n' (b'o' ∷ []) (b'x' ∷ []) 3 (omega arith) (omega arith)
