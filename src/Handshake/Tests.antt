-- ===== src/Handshake/Tests.antt =====
-- The theorem on the header of client.c, and on one of another version.
use unix_network_programming.Base.{true, ◌≡◌, [], ◌++◌, refl, arith}
use unix_network_programming.Transfer.{Bytes}
use unix_network_programming.StreamMessages.Pair.{Ends, fifo, fifo-IsFifo}
use unix_network_programming.Handshake.{
  client_header, header_bytes, dummy_message, serve, ask, on_recv_version,
}
use unix_network_programming.Handshake.Answers.{answers, Decided}
use unix_network_programming.Handshake.Agree.{Told, end_of, handshake_agrees}

abbrev feed : Bytes → Ends → Ends
feed bs s = (s.0 ++ bs, s.1)

handshake_agrees_example :
    (t1 : Ends) × (t1.1 ≡ header_bytes client_header ++ dummy_message)
    × (ask fifo client_header [] ([], []) ≡ on_recv_version fifo [] (fifo.read 128 t1))
    × Decided fifo fifo-IsFifo true (answers true true) (serve fifo [] (feed (t1.1) ([], [])))
    × Told fifo fifo-IsFifo true (t1.1) (
        on_recv_version fifo [] (
          fifo.read 128
            (feed ((end_of fifo fifo-IsFifo (serve fifo [] (feed (t1.1) ([], [])))).1) t1)))
handshake_agrees_example =
    handshake_agrees fifo fifo-IsFifo feed (λ bs s. (refl, refl)) client_header [] [] ([], [])
      ([], []) (omega arith) refl refl refl refl refl
