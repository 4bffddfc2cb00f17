-- ===== src/Datagram/Pair.antt =====
-- A socket as the datagrams to come and those sent.
use unix_network_programming.Base.{ℕ, refl, List, [], ◌∷◌, ◌++◌}
use unix_network_programming.Datagram.{
  Datagram, Came, came, sleeps, went, Socket, cut, RecvLaw, IsSocket,
}

-- What is to come, and what has been sent.
abbrev pub Lists : Type 0
Lists = List Datagram × List Datagram

abbrev next_one : ℕ → Lists → Came Lists
next_one n ([], out) = sleeps
next_one n (d ∷ ds, out) = came (cut n d) (ds, out)

abbrev pub socket : Socket
socket = record {
  State = Lists;
  incoming = λ s. s.0;
  sent = λ s. s.1;
  recvfrom = next_one;
  sendto = λ d s. went (s.0, s.1 ++ (d ∷ []));
}

next_law : (n : ℕ) (s : Lists) → RecvLaw socket n s (next_one n s)
next_law n ([], out) = refl
next_law n (d ∷ ds, out) = (d, refl, refl, refl)

pub socket_laws : IsSocket socket
socket_laws = record { receives = next_law; sends = λ d s. (refl, refl) }
