-- ===== src/StreamMessages/Pair.antt =====
-- A FIFO as the bytes to come and the bytes written.
use unix_network_programming.Base.{refl, ◌++◌, length, take, drop}
use unix_network_programming.Transfer.{Bytes}
use unix_network_programming.Stream.{got, wrote, Socket}
use unix_network_programming.StreamMessages.{IsFifo}

abbrev pub Ends : Type 0
Ends = Bytes × Bytes

abbrev pub fifo : Socket
fifo = record {
  State = Ends;
  read = λ n s. got (take n (s.0)) (drop n (s.0), s.1);
  write = λ bs s. wrote (length bs) (s.0, s.1 ++ bs);
  pending = λ s. s.0;
  written = λ s. s.1;
}

pub fifo-IsFifo : IsFifo fifo
fifo-IsFifo = record {
  reads = λ n s. ((drop n (s.0), s.1), refl, refl, refl);
  writes = λ bs s. ((s.0, s.1 ++ bs), refl, refl, refl);
}
