-- ===== src/MultiBuffer/Tokens.antt =====
-- The invariant of the copy: what the semaphores, the buffers and the places of the processes have
-- to do with each other.
use unix_network_programming.Transfer.{Bytes, World, first_line, joined, Tail}
use unix_network_programming.Base.{
  ℕ, ◌+◌, ◌%◌, ◌<◌, ◌≡◌, ◌≢◌, Bool, true, false, Option, none, some, List, [], ◌++◌, length, ◌⊎◌,
}
use unix_network_programming.MultiBuffer.{
  Buffers, cant_open, next, Server, Client, Sys, sys, s_start, s_open, s_init, s_wait, s_read,
  s_signal, s_report, s_again, s_last, s_end, s_done, c_start, c_name, c_named, c_wait, c_take,
  c_wake, c_done,
}
use unix_network_programming.MultiBuffer.Ring.{Holds}

-- What the client is to write: the file, or the name with an error message.
abbrev pub wanted_of : World → Option Bytes → Bytes
wanted_of w (some f) = f
wanted_of w none = first_line 4080 w.line ++ (cant_open ++ w.text)

abbrev pub wanted : World → Bytes
wanted w = wanted_of w w.file

-- The client holds a message that it has waited for, or a buffer that it has not given back.
abbrev pub taken : Client → ℕ
taken (c_take i) = 1
taken _ = 0

abbrev pub kept : Client → ℕ
kept (c_wake i) = 1
kept c_done = 1
kept _ = 0

-- With `k` messages behind it.
abbrev pub ClientAt : Client → ℕ → Type 0
ClientAt (c_wait i) k = i ≡ k % 4
ClientAt (c_take i) k = i ≡ k % 4
ClientAt (c_wake i) k = next i ≡ k % 4
ClientAt c_done k = Unit {0}
ClientAt _ k = ⊥

-- With `n` buffers in use of which the server holds or still owes `owed`, `p` messages sent, and
-- `coming` to be sent.
abbrev pub ServerAt : Server → (n owed p : ℕ) → Buffers → (coming unread : Bytes) → Type 0
ServerAt (s_init l) n owed p b coming u = (n ≡ 4) × (owed ≡ l) × (p ≡ 0) × (coming ≡ u)
ServerAt (s_wait i) n owed p b coming u = (n ≡ 4) × (owed ≡ 0) × (i ≡ p % 4) × (coming ≡ u)
ServerAt (s_read i) n owed p b coming u = (n ≡ 4) × (owed ≡ 1) × (i ≡ p % 4) × (coming ≡ u)
ServerAt (s_signal i m) n owed p b coming u =
    (n ≡ 4) × (owed ≡ 1) × (b (p % 4) ≡ m) × (i ≡ p % 4) × (coming ≡ m ++ u) × ((m ≢ []) ⊎ (u ≡ []))
ServerAt s_report n owed p b coming u =
    (n ≡ 1) × (owed ≡ 1) × (p ≡ 0) × (b 0 ≡ coming) × (coming ≢ [])
ServerAt s_again n owed p b coming u = (n ≡ 1) × (owed ≡ 0) × (p ≡ 1) × (coming ≡ [])
ServerAt s_last n owed p b coming u = (n ≡ 1) × (owed ≡ 1) × (p ≡ 1) × (coming ≡ [])
ServerAt s_end n owed p b coming u = (n ≡ 1) × (owed ≡ 1) × (p ≡ 1) × (coming ≡ []) × (b 1 ≡ [])
ServerAt s_done n owed p b coming u = (0 < n) × (owed ≡ 0) × (coming ≡ [])
ServerAt _ n owed p b coming u = ⊥

abbrev pub server_ended : Server → Bool
server_ended s_done = true
server_ended _ = false

abbrev pub client_ended : Client → Bool
client_ended c_done = true
client_ended _ = false

pub data Copying (w : World) : Sys → Type 0 where
  starting : {b : Buffers} {u : Bytes} → Copying w (sys s_start c_start 0 1 b u [])
  naming : {b : Buffers} {u : Bytes} → Copying w (sys s_start c_name 0 0 b u [])
  named :
      {b : Buffers} {u : Bytes}
      → b 0 ≡ first_line 4080 w.line
      → Copying w (sys s_start c_named 0 0 b u [])
  told :
      {b : Buffers} {u : Bytes}
      → b 0 ≡ first_line 4080 w.line
      → Copying w (sys s_start (c_wait 0) 1 0 b u [])
  opening :
      {b : Buffers} {u : Bytes}
      → b 0 ≡ first_line 4080 w.line
      → Copying w (sys s_open (c_wait 0) 0 0 b u [])
  copying :
      {s : Server} {c : Client} {sv cm : ℕ} {b : Buffers} {u o : Bytes}
      → (k n owed : ℕ) (q : List Bytes) (coming : Bytes) → ClientAt c k
      → ServerAt s n owed (k + length q) b coming u
      → Holds b k q
      → Tail (server_ended s) (client_ended c) q
      → sv + length q + kept c + owed ≡ n
      → cm + taken c ≡ length q
      → wanted w ≡ o ++ (joined q ++ coming)
      → Copying w (sys s c sv cm b u o)
