-- ===== src/MultiBuffer.antt =====
-- server() and client() of "Chapter 3 - Interprocess Communication/11_multi_buffer", which copy a file
-- through four buffers in shared memory under two semaphores, as steps of the two processes. A
-- semaphore call is a step, and so is what a process does between two of them. The steps are those of
-- calls that succeed, but open(): where read(), write() or fgets() fails, the process ends. The error
-- message fits errmesg[256] and, behind the name, mesg_data[4080], or the server has overrun one.
pub mod Ring
pub mod Tokens
pub mod Receiver
pub mod Sender
pub mod Copy
pub mod Progress
mod Tests
use unix_network_programming.Transfer.{
  Bytes, World, first_line, fits, has_bytes, all_full, closed, joined, Tail, joined-snoc,
  append_full, regroup, Tail-full, Tail-empty, Tail-more, Tail-last,
}
use unix_network_programming.Base.{
  ℕ, zero, suc, ◌+◌, ◌≤◌, ◌≡◌, ◌≢◌, ◌⊎◌, Bool, true, false, Option, none, some, List, [], ◌∷◌, ◌++◌,
  ◌==◌, if◌then◌else◌, length,
}

-- The buffers of the shared memory: mesg_data up to mesg_len.
abbrev pub Buffers : Type 0
Buffers = ℕ → Bytes

abbrev pub write_to : ℕ → Bytes → Buffers → Buffers
write_to i m b j = if j == i then m else b j

abbrev pub nbuff : ℕ
nbuff = 4

-- i++ of the inner loops, and their start again from 0.
abbrev pub next : ℕ → ℕ
next i = if i + 1 == nbuff then 0 else i + 1

-- MAXMESGDATA - 1, the most that server() reads into a buffer.
abbrev pub max_read : ℕ
max_read = 4079

-- ": can't open, ".
abbrev pub cant_open : Bytes
cant_open = 58 ∷ 32 ∷ 99 ∷ 97 ∷ 110 ∷ 39 ∷ 116 ∷ 32 ∷ 111 ∷ 112 ∷ 101 ∷ 110 ∷ 44 ∷ 32 ∷ []

-- Where the processes are. `s_signal i m` stands behind the read of `m` into buffer `i`.
pub data Server : Type 0 where
  s_start : Server
  s_open : Server
  s_init : (left : ℕ) → Server
  s_wait : (i : ℕ) → Server
  s_read : (i : ℕ) → Server
  s_signal : (i : ℕ) → Bytes → Server
  s_report : Server  -- the error message is in buffer 0
  s_again : Server
  s_last : Server
  s_end : Server  -- the length of buffer 1 is 0
  s_done : Server
  s_overrun : Server  -- behind an array's end

pub data Client : Type 0 where
  c_start : Client
  c_name : Client
  c_named : Client
  c_wait : (i : ℕ) → Client
  c_take : (i : ℕ) → Client
  c_wake : (i : ℕ) → Client
  c_done : Client

-- The processes, the values of servsem and clisem, the buffers, what is left of the file, and what
-- the client has written.
pub data Sys : Type 0 where
  sys : Server → Client → (servsem clisem : ℕ) → Buffers → (unread output : Bytes) → Sys

-- The semaphores as main of server.c creates them.
abbrev pub start : Buffers → Sys
start b = sys s_start c_start 0 1 b [] []

-- Behind a read: an empty one ends the loop.
abbrev pub behind : ℕ → Bytes → Server
behind i [] = s_done
behind i (c ∷ cs) = s_wait (next i)

module _ (w : World) where
  -- client().
  pub data ClientStep : Sys → Sys → Type 0 where
    c_started :
        {s : Server} {sv cm : ℕ} {b : Buffers} {u o : Bytes}
        → ClientStep (sys s c_start sv (suc cm) b u o) (sys s c_name sv cm b u o)
    c_names :
        {s : Server} {sv cm : ℕ} {b : Buffers} {u o : Bytes}
        → ClientStep
            (sys s c_name sv cm b u o)
            (sys s c_named sv cm (write_to 0 (first_line 4080 w.line) b) u o)
    c_signals :
        {s : Server} {sv cm : ℕ} {b : Buffers} {u o : Bytes}
        → ClientStep (sys s c_named sv cm b u o) (sys s (c_wait 0) (suc sv) cm b u o)
    c_waited :
        {s : Server} {i sv cm : ℕ} {b : Buffers} {u o : Bytes}
        → ClientStep (sys s (c_wait i) sv (suc cm) b u o) (sys s (c_take i) sv cm b u o)
    c_writes :
        {s : Server} {i sv cm c : ℕ} {cs : Bytes} {b : Buffers} {u o : Bytes}
        → b i ≡ c ∷ cs
        → ClientStep (sys s (c_take i) sv cm b u o) (sys s (c_wake i) sv cm b u (o ++ (c ∷ cs)))
    c_ends :
        {s : Server} {i sv cm : ℕ} {b : Buffers} {u o : Bytes}
        → b i ≡ []
        → ClientStep (sys s (c_take i) sv cm b u o) (sys s c_done sv cm b u o)
    c_returns :
        {s : Server} {i sv cm : ℕ} {b : Buffers} {u o : Bytes}
        → ClientStep (sys s (c_wake i) sv cm b u o) (sys s (c_wait (next i)) (suc sv) cm b u o)

  -- server().
  pub data ServerStep : Sys → Sys → Type 0 where
    s_started :
        {c : Client} {sv cm : ℕ} {b : Buffers} {u o : Bytes}
        → ServerStep (sys s_start c (suc sv) cm b u o) (sys s_open c sv cm b u o)
    s_opens :
        {c : Client} {sv cm : ℕ} {b : Buffers} {f u o : Bytes}
        → w.file ≡ some f
        → ServerStep (sys s_open c sv cm b u o) (sys (s_init nbuff) c sv cm b f o)
    s_refuses :
        {c : Client} {sv cm : ℕ} {b : Buffers} {u o : Bytes}
        → w.file ≡ none
        → fits 4080 (b 0) (cant_open ++ w.text) ≡ true
        → ServerStep
            (sys s_open c sv cm b u o)
            (sys s_report c sv cm (write_to 0 (b 0 ++ (cant_open ++ w.text)) b) u o)
    s_overruns :
        {c : Client} {sv cm : ℕ} {b : Buffers} {u o : Bytes}
        → w.file ≡ none
        → fits 4080 (b 0) (cant_open ++ w.text) ≡ false
        → ServerStep (sys s_open c sv cm b u o) (sys s_overrun c sv cm b u o)
    s_signals :
        {c : Client} {l sv cm : ℕ} {b : Buffers} {u o : Bytes}
        → ServerStep (sys (s_init (suc l)) c sv cm b u o) (sys (s_init l) c (suc sv) cm b u o)
    s_loops :
        {c : Client} {sv cm : ℕ} {b : Buffers} {u o : Bytes}
        → ServerStep (sys (s_init 0) c sv cm b u o) (sys (s_wait 0) c sv cm b u o)
    s_waited :
        {c : Client} {i sv cm : ℕ} {b : Buffers} {u o : Bytes}
        → ServerStep (sys (s_wait i) c (suc sv) cm b u o) (sys (s_read i) c sv cm b u o)
    s_reads :
        {c : Client} {i sv cm : ℕ} {b : Buffers} {u xs ys o : Bytes}
        → u ≡ xs ++ ys
        → length xs ≤ max_read
        → (xs ≢ []) ⊎ (ys ≡ [])
        → ServerStep
            (sys (s_read i) c sv cm b u o)
            (sys (s_signal i xs) c sv cm (write_to i xs b) ys o)
    s_sends :
        {c : Client} {i sv cm : ℕ} {m : Bytes} {b : Buffers} {u o : Bytes}
        → ServerStep (sys (s_signal i m) c sv cm b u o) (sys (behind i m) c sv (suc cm) b u o)
    s_reports :
        {c : Client} {sv cm : ℕ} {b : Buffers} {u o : Bytes}
        → ServerStep (sys s_report c sv cm b u o) (sys s_again c sv (suc cm) b u o)
    s_resumes :
        {c : Client} {sv cm : ℕ} {b : Buffers} {u o : Bytes}
        → ServerStep (sys s_again c (suc sv) cm b u o) (sys s_last c sv cm b u o)
    s_clears :
        {c : Client} {sv cm : ℕ} {b : Buffers} {u o : Bytes}
        → ServerStep (sys s_last c sv cm b u o) (sys s_end c sv cm (write_to 1 [] b) u o)
    s_ends :
        {c : Client} {sv cm : ℕ} {b : Buffers} {u o : Bytes}
        → ServerStep (sys s_end c sv cm b u o) (sys s_done c sv (suc cm) b u o)

  pub data Step (s t : Sys) : Type 0 where
    by_client : ClientStep s t → Step s t
    by_server : ServerStep s t → Step s t

  pub data Reach (s : Sys) : Sys → Type 0 where
    here : Reach s s
    after : {t t' : Sys} → Reach s t → Step t t' → Reach s t'
