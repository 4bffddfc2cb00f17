-- ===== src/Multiplex.antt =====
-- mesg_send and mesg_recv, server() and client() of "Chapter 3 - Interprocess Communication/
-- 8_multiplexing_messages", which copy a file through one message queue: messages of type 1 go to the
-- server, those of type 2 to the client. The queue, with msgsnd() and msgrcv(), is a parameter. The
-- steps are those of calls that succeed, but open(), and of a name that is empty. The error message
-- fits errmesg[256] and, behind the name, mesg_data[4080], or the server has overrun one.
pub mod Invariant
pub mod Copy
pub mod Progress
mod Tests
use unix_network_programming.Transfer.{Bytes, first_line, fits, Input}
use unix_network_programming.Base.{
  ℕ, ◌≤◌, ◌≡◌, ◌≢◌, ◌⊎◌, true, false, Option, none, some, List, [], ◌∷◌, ◌++◌, length,
}

-- MAXMESGDATA.
abbrev pub max_data : ℕ
max_data = 4080

-- A queue of the system. `none` stands for a call that sleeps; `messages` are those of a type that
-- are on the queue, the oldest first.
pub record MessageQueue : Type 1 where
  pub State : Type 0
  pub msgsnd : State → ℕ → Bytes → Option State
  pub msgrcv : State → ℕ → Option (Bytes × State)
  pub messages : State → ℕ → List Bytes

module _ (k : MessageQueue) where
  abbrev pub Others : ℕ → k.State → k.State → Type 0
  Others t s s' = (n : ℕ) → n ≢ t → k.messages s' n ≡ k.messages s n

  -- msgsnd(2): a message that fits waits only for room on a queue that is not empty.
  abbrev pub SendLaw : k.State → ℕ → Bytes → Option k.State → Type 0
  SendLaw s t m none = length m ≤ max_data → (n : ℕ) × (k.messages s n ≢ [])
  SendLaw s t m (some s') = (k.messages s' t ≡ k.messages s t ++ (m ∷ [])) × Others t s s'

  -- msgrcv(2) with a positive type: the first message of the type.
  abbrev pub ReceiveLaw : k.State → ℕ → Option (Bytes × k.State) → Type 0
  ReceiveLaw s t none = k.messages s t ≡ []
  ReceiveLaw s t (some (m, s')) = (k.messages s t ≡ m ∷ k.messages s' t) × Others t s s'

  pub record IsQueue : Type 0 where
    pub sends : (s : k.State) (t : ℕ) (m : Bytes) → SendLaw s t m (k.msgsnd s t m)
    pub receives : (s : k.State) (t : ℕ) → ReceiveLaw s t (k.msgrcv s t)

  pub mesg_send : (mesg_type : ℕ) (mesg_data : Bytes) → k.State → Option k.State
  mesg_send mesg_type mesg_data s = k.msgsnd s mesg_type mesg_data

  pub mesg_recv : (mesg_type : ℕ) → k.State → Option (Bytes × k.State)
  mesg_recv mesg_type s = k.msgrcv s mesg_type

-- ": can't open ".
abbrev pub cant_open : Bytes
cant_open = 58 ∷ 32 ∷ 99 ∷ 97 ∷ 110 ∷ 39 ∷ 116 ∷ 32 ∷ 111 ∷ 112 ∷ 101 ∷ 110 ∷ 32 ∷ []

-- errmesg[] of server(), with a newline.
abbrev pub errmesg : Input → Bytes
errmesg w = cant_open ++ (w.text ++ (10 ∷ []))

-- The name with the message behind it.
abbrev pub report : Input → Bytes → Bytes
report w name = name ++ errmesg w

pub data Server : Type 0 where
  s_recv : Server
  s_open : (name : Bytes) → Server
  s_read : Server
  s_send : Bytes → Server
  s_report : Bytes → Server
  s_last : Server
  s_done : Server
  s_overrun : Server  -- behind an array's end
  s_failed : Server  -- err_sys: the name is empty

pub data Client : Type 0 where
  c_start : Client
  c_recv : Client
  c_take : Bytes → Client
  c_done : Client

-- Behind mesg_recv: `n <= 0` ends the process.
abbrev pub named : Bytes → Server
named [] = s_failed
named (c ∷ cs) = s_open (c ∷ cs)

-- Behind read().
abbrev pub have_read : Bytes → Server
have_read [] = s_last
have_read (c ∷ cs) = s_send (c ∷ cs)

module _ (k : MessageQueue) (w : Input) where
  -- The processes, the queue, what is left of the file, and what the client has written.
  pub data Sys : Type 0 where
    sys : Server → Client → k.State → (unread output : Bytes) → Sys

  -- client().
  pub data ClientStep : Sys → Sys → Type 0 where
    c_sends :
        {s : Server} {q q' : k.State} {u o : Bytes}
        → mesg_send k 1 (first_line max_data w.line) q ≡ some q'
        → ClientStep (sys s c_start q u o) (sys s c_recv q' u o)
    c_receives :
        {s : Server} {q q' : k.State} {m u o : Bytes}
        → mesg_recv k 2 q ≡ some (m, q')
        → ClientStep (sys s c_recv q u o) (sys s (c_take m) q' u o)
    c_writes :
        {s : Server} {q : k.State} {c : ℕ} {cs u o : Bytes}
        → ClientStep (sys s (c_take (c ∷ cs)) q u o) (sys s c_recv q u (o ++ (c ∷ cs)))
    c_ends :
        {s : Server} {q : k.State} {u o : Bytes}
        → ClientStep (sys s (c_take []) q u o) (sys s c_done q u o)

  -- server().
  pub data ServerStep : Sys → Sys → Type 0 where
    s_receives :
        {c : Client} {q q' : k.State} {m u o : Bytes}
        → mesg_recv k 1 q ≡ some (m, q')
        → ServerStep (sys s_recv c q u o) (sys (named m) c q' u o)
    s_opens :
        {c : Client} {q : k.State} {name f u o : Bytes}
        → w.disk name ≡ some f
        → ServerStep (sys (s_open name) c q u o) (sys s_read c q f o)
    s_refuses :
        {c : Client} {q : k.State} {name u o : Bytes}
        → w.disk name ≡ none
        → fits max_data name (errmesg w) ≡ true
        → ServerStep (sys (s_open name) c q u o) (sys (s_report (report w name)) c q u o)
    s_overruns :
        {c : Client} {q : k.State} {name u o : Bytes}
        → w.disk name ≡ none
        → fits max_data name (errmesg w) ≡ false
        → ServerStep (sys (s_open name) c q u o) (sys s_overrun c q u o)
    s_reports :
        {c : Client} {q q' : k.State} {m u o : Bytes}
        → mesg_send k 2 m q ≡ some q'
        → ServerStep (sys (s_report m) c q u o) (sys s_last c q' u o)
    s_reads :
        {c : Client} {q : k.State} {u xs ys o : Bytes}
        → u ≡ xs ++ ys
        → length xs ≤ max_data
        → (xs ≢ []) ⊎ (ys ≡ [])
        → ServerStep (sys s_read c q u o) (sys (have_read xs) c q ys o)
    s_sends :
        {c : Client} {q q' : k.State} {m u o : Bytes}
        → mesg_send k 2 m q ≡ some q'
        → ServerStep (sys (s_send m) c q u o) (sys s_read c q' u o)
    s_ends :
        {c : Client} {q q' : k.State} {u o : Bytes}
        → mesg_send k 2 [] q ≡ some q'
        → ServerStep (sys s_last c q u o) (sys s_done c q' u o)

  pub data Step (s t : Sys) : Type 0 where
    by_client : ClientStep s t → Step s t
    by_server : ServerStep s t → Step s t

  pub data Reach (s : Sys) : Sys → Type 0 where
    here : Reach s s
    after : {t t' : Sys} → Reach s t → Step t t' → Reach s t'

  abbrev pub start : k.State → Sys
  start q = sys s_recv c_start q [] []
