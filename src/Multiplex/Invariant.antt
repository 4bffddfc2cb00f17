-- ===== src/Multiplex/Invariant.antt =====
-- What the queue holds has to do with where the two processes are.
use unix_network_programming.Base.{
  ℕ, ◌≤◌, ◌≡◌, ◌≢◌, Bool, true, false, ◌&&◌, Option, none, some, List, [], ◌∷◌, ◌++◌, length,
}
use unix_network_programming.Transfer.{Bytes, Input, first_line, joined, Tail}
use unix_network_programming.Multiplex.{
  max_data, MessageQueue, report, Server, s_recv, s_open, s_read, s_send, s_report, s_last, s_done,
  s_overrun, s_failed, Client, c_start, c_recv, c_take, c_done, Sys, sys,
}

-- What comes back for a name: the file, or the message.
abbrev pub reply : Input → Bytes → Option Bytes → Bytes
reply w name none = report w name
reply w name (some f) = f

abbrev pub wanted : Input → Bytes
wanted w = reply w (first_line max_data w.line) (w.disk (first_line max_data w.line))

-- The message that the client has taken off the queue.
abbrev pub held : Client → List Bytes
held (c_take m) = m ∷ []
held _ = []

abbrev pub server_ended : Server → Bool
server_ended s_done = true
server_ended _ = false

abbrev pub client_ended : Client → Bool
client_ended c_done = true
client_ended _ = false

abbrev pub Started : Client → Type 0
Started c_start = ⊥
Started _ = Unit

-- With `coming` to be sent, of which `unread` is left in the file.
abbrev pub ServerAt : Input → Server → (coming unread : Bytes) → Type 0
ServerAt w s_recv coming u = ⊥
ServerAt w (s_open name) coming u = (name ≡ first_line max_data w.line) × (coming ≡ wanted w)
ServerAt w s_read coming u = coming ≡ u
ServerAt w (s_send m) coming u = (coming ≡ m ++ u) × (m ≢ []) × (length m ≤ max_data)
ServerAt w (s_report m) coming u = (coming ≡ m) × (m ≢ []) × (length m ≤ max_data)
ServerAt w s_last coming u = coming ≡ []
ServerAt w s_done coming u = coming ≡ []
ServerAt w s_overrun coming u = ⊥
ServerAt w s_failed coming u = ⊥

module _ (k : MessageQueue) (w : Input) where
  abbrev pub output : Sys k w → Bytes
  output (sys s c q u o) = o

  abbrev pub ended : Sys k w → Bool
  ended (sys s c q u o) = server_ended s && client_ended c

  -- The messages under way: the one that the client holds, and those on the queue for it.
  abbrev pub under_way : Client → k.State → List Bytes
  under_way c q = held c ++ k.messages q 2

  abbrev pub Empty : k.State → Type 0
  Empty q = (n : ℕ) → k.messages q n ≡ []

  abbrev pub OnlyFor : ℕ → k.State → Type 0
  OnlyFor t q = (n : ℕ) → n ≢ t → k.messages q n ≡ []

  pub data Copying : Sys k w → Type 0 where
    starting : {q : k.State} {u : Bytes} → Empty q → Copying (sys s_recv c_start q u [])
    told :
        {q : k.State} {u : Bytes}
        → k.messages q 1 ≡ first_line max_data w.line ∷ []
        → OnlyFor 1 q
        → Copying (sys s_recv c_recv q u [])
    failing :
        {q : k.State} {u : Bytes}
        → first_line max_data w.line ≡ []
        → Empty q
        → Copying (sys s_failed c_recv q u [])
    copying :
        {s : Server} {c : Client} {q : k.State} {u o : Bytes}
        → (coming : Bytes) → Started c
        → ServerAt w s coming u
        → OnlyFor 2 q
        → Tail (server_ended s) (client_ended c) (under_way c q)
        → wanted w ≡ o ++ (joined (under_way c q) ++ coming)
        → Copying (sys s c q u o)
