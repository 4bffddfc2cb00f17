-- ===== src/StreamMessages.antt =====
-- mesg_send, mesg_recv and the loops over them of "Chapter 3 - Interprocess Communication/
-- 6_stream_messages", where a message goes through a FIFO as the bytes of a Mesg. A FIFO is a
-- parameter. An int has 4 bytes and a long 8, the low one first.
pub mod Framing
pub mod Transport
pub mod Programs
pub mod Exchange
pub mod Pair
mod Tests
use unix_network_programming.Base.{
  ℕ, zero, suc, ◌+◌, ◌*◌, ◌/◌, ◌%◌, ◌^◌, ◌≡◌, [], ◌∷◌, ◌++◌, List, Bool, true, false, ltb, ◌==◌,
  if◌then◌else◌, length, take, drop,
}
use unix_network_programming.Transfer.{Bytes}
use unix_network_programming.Stream.{Got, got, read_failed, Wrote, wrote, write_failed, Socket}

-- mesg_type and the first mesg_len bytes of mesg_data; mesg_len is their number.
pub record Mesg : Type 0 where
  pub mesg_type : ℕ
  pub mesg_data : Bytes

-- The bytes of a number in memory.
abbrev pub to_bytes : ℕ → ℕ → Bytes
to_bytes zero v = []
to_bytes (suc n) v = v % 256 ∷ to_bytes n (v / 256)

abbrev pub from_bytes : Bytes → ℕ
from_bytes [] = 0
from_bytes (b ∷ bs) = b + 256 * from_bytes bs

-- MESGHDRSIZE: the int, four bytes of padding, 0 in the global mesg, and the long.
abbrev pub mesg_hdr_size : ℕ
mesg_hdr_size = 16

abbrev pub header : ℕ → ℕ → Bytes
header mesg_len mesg_type = to_bytes 4 mesg_len ++ (0 ∷ 0 ∷ 0 ∷ 0 ∷ [] ++ to_bytes 8 mesg_type)

-- The MESGHDRSIZE + mesg_len bytes that mesg_ptr points to.
abbrev pub in_memory : Mesg → Bytes
in_memory m = header (length m.mesg_data) m.mesg_type ++ m.mesg_data

module _ (k : Socket) where
  -- A FIFO that takes what is written, and delivers what has been asked for where it is there.
  pub record IsFifo : Type 0 where
    pub reads :
        (n : ℕ) (s : k.State)
        → (s' : k.State) × (k.read n s ≡ got (take n (k.pending s)) s')
          × (k.pending s' ≡ drop n (k.pending s))
          × (k.written s' ≡ k.written s)
    pub writes :
        (bs : Bytes) (s : k.State)
        → (s' : k.State) × (k.write bs s ≡ wrote (length bs) s')
          × (k.pending s' ≡ k.pending s)
          × (k.written s' ≡ k.written s ++ bs)

  -- mesg_send returns, or err_sys ends the process.
  pub data Run : Type 0 where
    returned : k.State → Run
    fatal : k.State → Run

  abbrev pub on_write : ℕ → Wrote k.State → Run
  on_write n (write_failed s) = fatal s
  on_write n (wrote m s) = if m == n then returned s else fatal s

  pub mesg_send : Mesg → k.State → Run
  mesg_send m s = on_write (mesg_hdr_size + length m.mesg_data) (k.write (in_memory m) s)

  -- mesg_recv returns a message, 0 at the end of the FIFO, or a negative length; or it
  -- writes behind the array, or the process ends.
  pub data Received : Type 0 where
    mesg : Mesg → k.State → Received
    end_of_fifo : k.State → Received
    negative : k.State → Received
    too_long : k.State → Received  -- read() runs over mesg_data[4080]
    bad : k.State → Received

  abbrev pub on_data : (mesg_len mesg_type : ℕ) → Got k.State → Received
  on_data n t (read_failed s) = bad s
  on_data n t (got bs s) =
      if length bs == n then mesg (record { mesg_type = t; mesg_data = bs }) s else bad s

  abbrev pub with_length : (mesg_len mesg_type : ℕ) → k.State → Received
  with_length n t s =
      if n == 0
      then mesg (record { mesg_type = t; mesg_data = [] }) s
      else if ltb n (2 ^ 31)
      then (if ltb 4080 n then too_long s else on_data n t (k.read n s))
      else negative s

  abbrev pub on_header : Got k.State → Received
  on_header (read_failed s) = bad s
  on_header (got [] s) = end_of_fifo s
  on_header (got (b ∷ bs) s) =
      if length (b ∷ bs) == mesg_hdr_size
      then with_length (from_bytes (take 4 (b ∷ bs))) (from_bytes (drop 8 (b ∷ bs))) s
      else bad s

  pub mesg_recv : k.State → Received
  mesg_recv s = on_header (k.read mesg_hdr_size s)

  -- `while ((n = read(filefd, ...)) > 0)` of server(), over what read() gives, and the empty message
  -- behind it.
  pub data Served : Type 0 where
    served : k.State → Served
    died : k.State → Served

  abbrev pub and_then : (k.State → Served) → Run → Served
  and_then next (returned s) = next s
  and_then next (fatal s) = died s

  pub send_file : List Bytes → k.State → Served
  send_file [] s = and_then served (mesg_send (record { mesg_type = 1; mesg_data = [] }) s)
  send_file (c ∷ cs) s =
      and_then (send_file cs) (mesg_send (record { mesg_type = 1; mesg_data = c }) s)

  -- `while ((n = mesg_recv(ipcreadfd, &mesg)) > 0)` of client(), with what it has written.
  pub data Printed : Type 0 where
    printed : Bytes → k.State → Printed
    failed : Bytes → Printed
    overran : Bytes → Printed
    out_of_fuel : Printed

  abbrev pub on_mesg : (Bytes → k.State → Printed) → Bytes → Received → Printed
  on_mesg next out (mesg m s) =
      let rest = next (out ++ m.mesg_data) s in
      if length m.mesg_data == 0 then printed out s else rest
  on_mesg next out (end_of_fifo s) = printed out s
  on_mesg next out (negative s) = failed out
  on_mesg next out (too_long s) = overran out
  on_mesg next out (bad s) = failed out

  pub print_all : ℕ → Bytes → k.State → Printed
  print_all zero out s = out_of_fuel
  print_all (suc fuel) out s = on_mesg (print_all fuel) out (mesg_recv s)
