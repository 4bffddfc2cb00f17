-- ===== src/StreamMessages/Programs.antt =====
-- server() and client() of ipc_server.c and ipc_client.c as a whole, over the FIFOs as one descriptor
-- to read from and one to write to.
use unix_network_programming.Base.{ℕ, List, [], ◌∷◌, ◌++◌, ltb, ◌==◌, if◌then◌else◌, length}
use unix_network_programming.Transfer.{Bytes, first_line, fits}
use unix_network_programming.MultiBuffer.{cant_open}
use unix_network_programming.Stream.{Socket}
use unix_network_programming.StreamMessages.{
  Received, mesg, end_of_fifo, negative, too_long, bad, mesg_recv, mesg_send, Run, returned, fatal,
  Served, died, send_file, Printed, failed, print_all,
}

-- What open() and fstat() find behind a name: nothing, a directory, or a file, as the parts of it that
-- read() gives.
pub data Found : Type 0 where
  absent : Found
  directory : Found
  regular : (parts : List Bytes) → Found

pub record Disk : Type 0 where
  pub disk : Bytes → Found
  pub text : Bytes

abbrev pub max_mesg_data : ℕ
max_mesg_data = 4080

-- errmesg[] of server().
abbrev pub errmesg : Disk → Bytes
errmesg w = cant_open ++ (w.text ++ (10 ∷ []))

abbrev pub error_answer : Disk → (name : Bytes) → Bytes
error_answer w name = name ++ errmesg w

module _ (w : Disk) (k : Socket) where
  -- How server() goes, or something has been written behind mesg_data or errmesg: by read(), by
  -- `mesg_data[n] = 0`, or with the error message.
  pub data Course : Type 0 where
    ran : Served k → Course
    overrun : k.State → Course

  abbrev pub have_opened : (name : Bytes) → Found → k.State → Course
  have_opened name absent s =
      if fits max_mesg_data name (errmesg w)
      then ran (send_file k (error_answer w name ∷ []) s)
      else overrun s
  have_opened name directory s = ran (died s)
  have_opened name (regular parts) s = ran (send_file k parts s)

  abbrev pub on_request : Received k → Course
  on_request (mesg m s) =
      if length m.mesg_data == 0
      then ran (died s)
      else if ltb (length m.mesg_data) max_mesg_data
      then have_opened m.mesg_data (w.disk m.mesg_data) s
      else overrun s
  on_request (end_of_fifo s) = ran (died s)
  on_request (too_long s) = overrun s
  on_request (negative s) = ran (died s)
  on_request (bad s) = ran (died s)

  unfoldable pub server : k.State → Course
  server s = on_request (mesg_recv k s)

module _ (k : Socket) where
  abbrev pub on_asked : (fuel : ℕ) → Run k → Printed k
  on_asked fuel (returned s) = print_all k fuel [] s
  on_asked fuel (fatal s) = failed []

  -- On fuel for the rounds of its loop; `line` is what is there for fgets().
  unfoldable pub client : (line : Bytes) (fuel : ℕ) → k.State → Printed k
  client line fuel s =
      on_asked fuel
        (mesg_send k (record { mesg_type = 1; mesg_data = first_line max_mesg_data line }) s)
