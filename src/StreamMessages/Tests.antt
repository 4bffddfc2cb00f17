-- ===== src/StreamMessages/Tests.antt =====
-- The theorems on a FIFO of bytes to come and bytes written.
use unix_network_programming.Base.{ℕ, ◌≡◌, refl, List, [], ◌∷◌, ◌++◌, arith}
use unix_network_programming.Transfer.{Bytes, joined}
use unix_network_programming.StreamMessages.{returned, served, printed}
use unix_network_programming.StreamMessages.Pair.{Ends, fifo, fifo-IsFifo}
use unix_network_programming.StreamMessages.Programs.{Disk, regular, ran, server, on_asked, client}
use unix_network_programming.StreamMessages.Exchange.{server-client}

abbrev parts : List Bytes
parts = (104 ∷ 105 ∷ []) ∷ (33 ∷ []) ∷ []

abbrev disk : Disk
disk = record { disk = λ name. regular parts; text = [] }

abbrev feed : Bytes → Ends → Ends
feed bs s = (s.0 ++ bs, s.1)

server-client_example :
    (s1 : Ends) × (t' : Ends) × (s' : Ends) × ((fuel : ℕ)
      → client fifo (97 ∷ 10 ∷ []) fuel ([], []) ≡ on_asked fifo fuel (returned s1))
    × (server disk fifo (feed (s1.1) ([], [])) ≡ ran (served t'))
    × (on_asked fifo 3 (returned (feed (t'.1) s1)) ≡ printed (joined parts) s')
    × (s'.0 ≡ [])
    × (s'.1 ≡ s1.1)
server-client_example =
    server-client disk fifo fifo-IsFifo feed (λ bs s. (refl, refl)) (97 ∷ 10 ∷ []) ([], []) ([], [])
      (omega arith) (omega arith) refl refl refl refl
