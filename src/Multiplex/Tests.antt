-- ===== src/Multiplex/Tests.antt =====
-- A queue with two kinds of messages, and the theorems on it.
use unix_network_programming.Base.{
  ℕ, ◌≡◌, ◌⊎◌, refl, true, false, Option, none, some, List, [], ◌∷◌, ◌++◌, arith, ◌==◌,
  if◌then◌else◌,
}
use unix_network_programming.Transfer.{Bytes, Input}
use unix_network_programming.Multiplex.{
  MessageQueue, IsQueue, ReceiveLaw, mesg_send, mesg_recv, Sys, sys, by_client, by_server, c_sends,
  s_receives, s_open, c_recv, Reach, here, after, start,
}
use unix_network_programming.Multiplex.Invariant.{wanted, output, ended}
use unix_network_programming.Multiplex.Copy.{multiplex-wanted}
use unix_network_programming.Multiplex.Progress.{CanStep, multiplex-CanStep}

abbrev put : (ℕ → List Bytes) → ℕ → List Bytes → ℕ → List Bytes
put q t ms n = if n == t then ms else q n

abbrev take_first : (ℕ → List Bytes) → ℕ → List Bytes → Option (Bytes × (ℕ → List Bytes))
take_first q t [] = none
take_first q t (m ∷ ms) = some (m, put q t ms)

-- There is always room.
abbrev queue : MessageQueue
queue = record {
  State = ℕ → List Bytes;
  msgsnd = λ q t m. some (put q t (q t ++ (m ∷ [])));
  msgrcv = λ q t. take_first q t (q t);
  messages = λ q. q;
}

first_law :
    (q : ℕ → List Bytes) (t : ℕ) (ms : List Bytes)
    → q t ≡ ms
    → ReceiveLaw queue q t (take_first q t ms)
first_law q t [] e = e
first_law q t (m ∷ ms) e = (
  (let h : put q t ms t ≡ ms = ground arith in cc),
  λ n ne. (let h : (n == t) ≡ false = ground arith in rw (h) refl),
)

queue_laws : IsQueue queue
queue_laws = record {
  sends = λ q t m. (
    (let h : (t == t) ≡ true = ground arith in rw (h) refl),
    λ n ne. (let h : (n == t) ≡ false = ground arith in rw (h) refl),
  );
  receives = λ q t. first_law q t (q t) refl;
}

-- The line "n\n", and no file.
abbrev input : Input
input = record { line = 110 ∷ 10 ∷ []; disk = λ name. none; text = 63 ∷ [] }

abbrev no_message : ℕ → List Bytes
no_message n = []

abbrev name_read : Sys queue input
name_read = sys (s_open (110 ∷ [])) c_recv (put (put no_message 1 ((110 ∷ []) ∷ [])) 1 []) [] []

to_name_read : Reach queue input (start queue input no_message) name_read
unfolding mesg_send mesg_recv
to_name_read = after (after here (by_client (c_sends refl))) (by_server (s_receives refl))

multiplex-wanted_example :
    ((r : Bytes) × (wanted input ≡ output queue input name_read ++ r))
    × ((ended queue input name_read ≡ false) ⊎ (output queue input name_read ≡ wanted input))
multiplex-wanted_example =
    multiplex-wanted queue queue_laws input no_message name_read (λ n. refl) (λ e. refl)
      to_name_read

multiplex-CanStep_example :
    (ended queue input name_read ≡ true) ⊎ CanStep queue queue_laws input name_read
multiplex-CanStep_example =
    multiplex-CanStep queue queue_laws input no_message name_read (λ e. cc) (λ e. refl) (λ n. refl)
      to_name_read
