-- ===== src/SharedMemory.antt =====
-- server() and client() of "Chapter 3 - Interprocess Communication/10_shared_memory", which copy a file
-- through one buffer in shared memory under two semaphores, as steps of the two processes. The steps
-- are those of calls that succeed, but open(). The error message fits errmesg[256] and, behind the
-- name, mesg_data[4080], or the server has overrun one.
pub mod Turns
pub mod Copy
mod Tests
use unix_network_programming.Base.{
  ℕ, zero, suc, ◌≤◌, ◌≡◌, ◌≢◌, ◌⊎◌, Bool, true, false, Option, none, some, [], ◌∷◌, ◌++◌, length,
}
use unix_network_programming.Transfer.{Bytes, Input, first_line, fits}
use unix_network_programming.MultiBuffer.{cant_open, max_read}

pub data Server : Type 0 where
  s_start : Server
  s_open : Server
  s_read : Server
  s_signal : Server
  s_wait : Server
  s_report : Server  -- the error message is in the buffer
  s_again : Server
  s_last : Server
  s_end : Server  -- the length is 0
  s_done : Server
  s_overrun : Server  -- behind an array's end

pub data Client : Type 0 where
  c_start : Client
  c_name : Client
  c_named : Client
  c_wait : Client
  c_take : Client
  c_wake : Client
  c_done : Client

-- The processes, the values of servsem and clisem, the buffer up to its length, what is left of the
-- file, and what the client has written.
pub data Sys : Type 0 where
  sys : Server → Client → (servsem clisem : ℕ) → (buffer unread output : Bytes) → Sys

-- The semaphores as main of server.c creates them.
abbrev pub start : Bytes → Sys
start b = sys s_start c_start 0 1 b [] []

-- Behind read(): an empty one ends the loop and leaves the buffer alone.
abbrev pub have_read : Bytes → Server
have_read [] = s_last
have_read (c ∷ cs) = s_signal

abbrev pub left_in_buffer : Bytes → Bytes → Bytes
left_in_buffer b [] = b
left_in_buffer b (c ∷ cs) = c ∷ cs

module _ (w : Input) where
  -- client().
  pub data ClientStep : Sys → Sys → Type 0 where
    c_started :
        {s : Server} {sv cm : ℕ} {b u o : Bytes}
        → ClientStep (sys s c_start sv (suc cm) b u o) (sys s c_name sv cm b u o)
    c_names :
        {s : Server} {sv cm : ℕ} {b u o : Bytes}
        → ClientStep (sys s c_name sv cm b u o) (sys s c_named sv cm (first_line 4080 w.line) u o)
    c_signals :
        {s : Server} {sv cm : ℕ} {b u o : Bytes}
        → ClientStep (sys s c_named sv cm b u o) (sys s c_wait (suc sv) cm b u o)
    c_waited :
        {s : Server} {sv cm : ℕ} {b u o : Bytes}
        → ClientStep (sys s c_wait sv (suc cm) b u o) (sys s c_take sv cm b u o)
    c_writes :
        {s : Server} {sv cm c : ℕ} {cs u o : Bytes}
        → ClientStep
            (sys s c_take sv cm (c ∷ cs) u o)
            (sys s c_wake sv cm (c ∷ cs) u (o ++ (c ∷ cs)))
    c_ends :
        {s : Server} {sv cm : ℕ} {u o : Bytes}
        → ClientStep (sys s c_take sv cm [] u o) (sys s c_done sv cm [] u o)
    c_returns :
        {s : Server} {sv cm : ℕ} {b u o : Bytes}
        → ClientStep (sys s c_wake sv cm b u o) (sys s c_wait (suc sv) cm b u o)

  -- server().
  pub data ServerStep : Sys → Sys → Type 0 where
    s_started :
        {c : Client} {sv cm : ℕ} {b u o : Bytes}
        → ServerStep (sys s_start c (suc sv) cm b u o) (sys s_open c sv cm b u o)
    s_opens :
        {c : Client} {sv cm : ℕ} {b f u o : Bytes}
        → w.disk b ≡ some f
        → ServerStep (sys s_open c sv cm b u o) (sys s_read c sv cm b f o)
    s_refuses :
        {c : Client} {sv cm : ℕ} {b u o : Bytes}
        → w.disk b ≡ none
        → fits 4080 b (cant_open ++ w.text) ≡ true
        → ServerStep
            (sys s_open c sv cm b u o)
            (sys s_report c sv cm (b ++ (cant_open ++ w.text)) u o)
    s_overruns :
        {c : Client} {sv cm : ℕ} {b u o : Bytes}
        → w.disk b ≡ none
        → fits 4080 b (cant_open ++ w.text) ≡ false
        → ServerStep (sys s_open c sv cm b u o) (sys s_overrun c sv cm b u o)
    s_reads :
        {c : Client} {sv cm : ℕ} {b u xs ys o : Bytes}
        → u ≡ xs ++ ys
        → length xs ≤ max_read
        → (xs ≢ []) ⊎ (ys ≡ [])
        → ServerStep
            (sys s_read c sv cm b u o)
            (sys (have_read xs) c sv cm (left_in_buffer b xs) ys o)
    s_sends :
        {c : Client} {sv cm : ℕ} {b u o : Bytes}
        → ServerStep (sys s_signal c sv cm b u o) (sys s_wait c sv (suc cm) b u o)
    s_waited :
        {c : Client} {sv cm : ℕ} {b u o : Bytes}
        → ServerStep (sys s_wait c (suc sv) cm b u o) (sys s_read c sv cm b u o)
    s_reports :
        {c : Client} {sv cm : ℕ} {b u o : Bytes}
        → ServerStep (sys s_report c sv cm b u o) (sys s_again c sv (suc cm) b u o)
    s_resumes :
        {c : Client} {sv cm : ℕ} {b u o : Bytes}
        → ServerStep (sys s_again c (suc sv) cm b u o) (sys s_last c sv cm b u o)
    s_clears :
        {c : Client} {sv cm : ℕ} {b u o : Bytes}
        → ServerStep (sys s_last c sv cm b u o) (sys s_end c sv cm [] u o)
    s_ends :
        {c : Client} {sv cm : ℕ} {b u o : Bytes}
        → ServerStep (sys s_end c sv cm b u o) (sys s_done c sv (suc cm) b u o)

  pub data Step (s t : Sys) : Type 0 where
    by_client : ClientStep s t → Step s t
    by_server : ServerStep s t → Step s t

  pub data Reach (s : Sys) : Sys → Type 0 where
    here : Reach s s
    after : {t t' : Sys} → Reach s t → Step t t' → Reach s t'
