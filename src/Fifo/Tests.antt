-- ===== src/Fifo/Tests.antt =====
-- A file of two bytes through pipes, and a line without a name.
use unix_network_programming.Base.{◌≡◌, ◌≢◌, ◌⊎◌, refl, some, none, [], ◌∷◌, ◌++◌, arith}
use unix_network_programming.Transfer.{Bytes, Input}
use unix_network_programming.Fifo.{
  read_data, read_name, Sys, sys, pipes, start, Step, by_server, shut_write1, shuts_write1,
  shuts_read2, reads_name, c_reads, c_reads_end, c_shuts_read1, c_shuts_write2, c_names, Reach,
  here, after,
}
use unix_network_programming.Fifo.Copy.{wanted, output, Over, CanStep, fifo-wanted}

abbrev world : Input
world = record { line = b'a' ∷ 10 ∷ []; disk = λ name. some (b'h' ∷ b'i' ∷ []); text = [] }

abbrev asking : Sys
asking = sys read_data shut_write1 (b'a' ∷ []) [] []

to_asking : Reach world 4096 (start pipes) asking
to_asking = after (after (after here c_shuts_read1) c_shuts_write2) (c_names {p = []} (omega arith))

has_name : ◌≢◌ {A = Bytes} (b'a' ∷ []) []
has_name e = cc

fifo-wanted_example :
    ((r : Bytes) × (wanted world ≡ output world 4096 asking ++ r))
    × (Over world 4096 asking (wanted world) ⊎ CanStep world 4096 asking)
fifo-wanted_example = fifo-wanted world 4096 pipes asking (omega arith) has_name refl to_asking

abbrev empty_line : Input
empty_line = record { line = 10 ∷ []; disk = λ name. none; text = [] }

-- With an empty name, each of the two waits in read() for the other.
to_waiting : Reach empty_line 4096 (start pipes) (sys read_data read_name [] [] [])
to_waiting =
    after
      (after
        (after (after (after here c_shuts_read1) c_shuts_write2) (c_names {p = []} (omega arith)))
        (by_server shuts_write1))
      (by_server shuts_read2)

stuck : (t : Sys) → ¬ Step empty_line 4096 (sys read_data read_name [] [] []) t
stuck _ (by_server (reads_name ne)) = ne refl
stuck _ (c_reads ne) = ne refl
stuck _ (c_reads_end h) = cc
