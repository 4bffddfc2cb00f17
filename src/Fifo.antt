-- ===== src/Fifo.antt =====
-- client(), server() and the mains of "Chapter 3 - Interprocess Communication/5_fifo" and
-- 3_pipes_client_server, which copy a file through two FIFOs or pipes, as steps of the two
-- processes. The steps are those of calls that succeed, but open() of the file. A pipe holds `cap`
-- bytes; a write() sleeps until all of it fits, and a read() gets what is there. Left out are the
-- lines that client() prints about itself, fifo.c:15 and fifo.c:48: `output` is what it has written
-- by write().
pub mod Sides
pub mod Copy
mod Tests
use unix_network_programming.Base.{
  ℕ, ◌+◌, ◌≤◌, ◌<◌, ◌≡◌, ◌≢◌, Bool, true, false, ◌||◌, Option, none, some, List, [], ◌∷◌, ◌++◌,
  length, take, drop,
}
use unix_network_programming.Transfer.{Bytes, Input, first_line, fits}
use unix_network_programming.MultiBuffer.{cant_open}

abbrev pub maxbuff : ℕ
maxbuff = 1024

-- The parent, from main()'s first open() or close() to exit().
pub data Client : Type 0 where
  open_write1 : Client
  open_read2 : Client
  shut_read1 : Client
  shut_write2 : Client
  send_name : Client
  read_data : Client
  print_data : Bytes → Client
  wait_child : Client
  exited : Client

-- The child. In server(): the file's name is read, it is to be opened, `buff` has been read of the
-- file and `rest` is left of it, or the error message is to be sent, or has run over errmesg[]
-- or buff[].
pub data Server : Type 0 where
  open_read1 : Server
  open_write2 : Server
  shut_write1 : Server
  shut_read2 : Server
  read_name : Server
  open_file : (name : Bytes) → Server
  read_file : (rest : Bytes) → Server
  send_data : (buff rest : Bytes) → Server
  send_error : (buff : Bytes) → Server
  overrun : (name : Bytes) → Server
  close_read : Server
  close_write : Server
  ended : Server

-- The two processes, what is in the first and in the second pipe, and what the client has written.
pub data Sys : Type 0 where
  sys : Client → Server → (pipe1 pipe2 output : Bytes) → Sys

pub data Kind : Type 0 where
  fifos : Kind
  pipes : Kind

-- Behind fork().
abbrev pub start : Kind → Sys
start fifos = sys open_write1 open_read1 [] [] []
start pipes = sys shut_read1 shut_write1 [] [] []

-- Who has the second pipe open for writing.
abbrev pub client_writes2 : Client → Bool
client_writes2 shut_read1 = true
client_writes2 shut_write2 = true
client_writes2 _ = false

abbrev pub server_writes2 : Server → Bool
server_writes2 open_read1 = false
server_writes2 open_write2 = false
server_writes2 ended = false
server_writes2 _ = true

-- errmesg[] of server().
abbrev pub errmesg : Input → Bytes
errmesg w = cant_open ++ (w.text ++ (10 ∷ []))

-- What the server has in buff[] when open() fails.
abbrev pub error_report : Input → (name : Bytes) → Bytes
error_report w name = name ++ errmesg w

module _ (w : Input) (cap : ℕ) where
  -- The child, over the two pipes.
  pub data ServerStep
      : Server → (pipe1 pipe2 : Bytes) → Server → (pipe1 pipe2 : Bytes) → Type 0 where
    shuts_write1 : {p q : Bytes} → ServerStep shut_write1 p q shut_read2 p q
    shuts_read2 : {p q : Bytes} → ServerStep shut_read2 p q read_name p q
    reads_name :
        {p q : Bytes}
        → p ≢ []
        → ServerStep read_name p q (open_file (take maxbuff p)) (drop maxbuff p) q
    opens :
        {p q name file : Bytes}
        → w.disk name ≡ some file
        → ServerStep (open_file name) p q (read_file file) p q
    refuses :
        {p q name : Bytes}
        → w.disk name ≡ none
        → fits maxbuff name (errmesg w) ≡ true
        → ServerStep (open_file name) p q (send_error (error_report w name)) p q
    overruns :
        {p q name : Bytes}
        → w.disk name ≡ none
        → fits maxbuff name (errmesg w) ≡ false
        → ServerStep (open_file name) p q (overrun name) p q
    reads :
        {p q rest : Bytes}
        → rest ≢ []
        → ServerStep (read_file rest) p q (send_data (take maxbuff rest) (drop maxbuff rest)) p q
    reads_end : {p q : Bytes} → ServerStep (read_file []) p q close_read p q
    sends :
        {p q buff rest : Bytes}
        → length q + length buff ≤ cap
        → ServerStep (send_data buff rest) p q (read_file rest) p (q ++ buff)
    sends_error :
        {p q buff : Bytes}
        → length q + length buff ≤ cap
        → ServerStep (send_error buff) p q close_read p (q ++ buff)
    closes_read : {p q : Bytes} → ServerStep close_read p q close_write p q
    closes_write : {p q : Bytes} → ServerStep close_write p q ended p q

  pub data Step : Sys → Sys → Type 0 where
    by_server :
        {c : Client} {s s' : Server} {p p' q q' o : Bytes}
        → ServerStep s p q s' p' q'
        → Step (sys c s p q o) (sys c s' p' q' o)
    -- open() of a FIFO sleeps until the other process opens its other end.
    opens1 :
        {p q o : Bytes} → Step (sys open_write1 open_read1 p q o) (sys open_read2 open_write2 p q o)
    opens2 :
        {p q o : Bytes} → Step (sys open_read2 open_write2 p q o) (sys send_name read_name p q o)
    c_shuts_read1 :
        {s : Server} {p q o : Bytes} → Step (sys shut_read1 s p q o) (sys shut_write2 s p q o)
    c_shuts_write2 :
        {s : Server} {p q o : Bytes} → Step (sys shut_write2 s p q o) (sys send_name s p q o)
    c_names :
        {s : Server} {p q o : Bytes}
        → length p + length (first_line maxbuff w.line) ≤ cap
        → Step (sys send_name s p q o) (sys read_data s (p ++ first_line maxbuff w.line) q o)
    c_reads :
        {s : Server} {p q o : Bytes}
        → q ≢ []
        → Step (sys read_data s p q o) (sys (print_data (take maxbuff q)) s p (drop maxbuff q) o)
    -- The end of a pipe: nothing is in it, and nobody has it open for writing.
    c_reads_end :
        {s : Server} {p o : Bytes}
        → client_writes2 read_data || server_writes2 s ≡ false
        → Step (sys read_data s p [] o) (sys wait_child s p [] o)
    c_prints :
        {s : Server} {p q o bs : Bytes}
        → Step (sys (print_data bs) s p q o) (sys read_data s p q (o ++ bs))
    c_waits : {p q o : Bytes} → Step (sys wait_child ended p q o) (sys exited ended p q o)

  pub data Reach (s : Sys) : Sys → Type 0 where
    here : Reach s s
    after : {t t' : Sys} → Reach s t → Step t t' → Reach s t'
