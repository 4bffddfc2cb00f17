-- ===== src/SelectCopy.antt =====
-- main of "Chapter 6 - Berkely Sockets/Sockets/10.select/stdin_stdout_select.c", which copies its
-- input to its output as select() lets it. What the calls answer in a turn of its loop is given.
mod Tests
use mathlib.Core.List.{append-nil, append_assoc}
use unix_network_programming.Base.{
  ℕ, zero, suc, ◌≡◌, refl, sym, ap, ◌∙◌, Bool, Bool-cases, inl, inr, true, false, ◌&&◌, Option,
  none, some, List, [], ◌∷◌, ◌++◌, ◌==◌, if◌then◌else◌, length, take, drop, take-append-drop, arith,
}
use unix_network_programming.Base.Int.{ℤ, pos, negsuc}
use unix_network_programming.CString.{Bytes}

-- In a turn: which of the two descriptors select() leaves in its set, what read() gets, and how much
-- write() takes; `none` for a failure.
pub record Answers : Type 0 where
  pub select : Option (Bool × Bool)
  pub read : Option Bytes
  pub write : Option ℕ

-- Whether 0 is in read_set and 1 in write_set, stop_reading, the read_bytes bytes of the buffer, what
-- has been read in all, and what has been written.
pub data State : Type 0 where
  state : (read_set write_set stop_reading : Bool) (buffer input output : Bytes) → State

abbrev pub input : State → Bytes
input (state r w p b i o) = i

abbrev pub output : State → Bytes
output (state r w p b i o) = o

pub data Running : Type 0 where
  running : State → Running
  returned : ℤ → State → Running

-- FD_CLR and FD_SET at the end of a turn.
abbrev pub set_fds : State → Running
set_fds (state r w true b i o) = running (state false true true b i o)
set_fds (state r w false b i o) = running (state true false false b i o)

abbrev pub on_write : Option ℕ → State → Running
on_write none s = returned (negsuc 0) s
on_write (some n) (state r w p b i o) =
    if n == length b
    then set_fds (state r w false b i (o ++ take n b))
    else returned (negsuc 0) (state r w p b i (o ++ take n b))

-- FD_ISSET(1, &write_set).
abbrev pub may_write : Answers → State → Running
may_write a (state r true p b i o) = on_write a.write (state r true p b i o)
may_write a (state r false p b i o) = set_fds (state r false p b i o)

abbrev pub on_read : Answers → Option Bytes → State → Running
on_read a none s = returned (negsuc 0) s
on_read a (some []) s = returned (pos 0) s
on_read a (some (c ∷ cs)) (state r w p b i o) =
    may_write a (state r w true (c ∷ cs) (i ++ (c ∷ cs)) o)

-- FD_ISSET(0, &read_set).
abbrev pub may_read : Answers → State → Running
may_read a (state true w p b i o) = on_read a a.read (state true w p b i o)
may_read a (state false w p b i o) = may_write a (state false w p b i o)

-- select() leaves a descriptor in a set or takes it out.
abbrev pub on_select : Answers → Option (Bool × Bool) → State → Running
on_select a none s = returned (negsuc 0) s
on_select a (some (x, y)) (state r w p b i o) = may_read a (state (r && x) (w && y) p b i o)

abbrev pub and_then : (State → Running) → Running → Running
and_then next (running s) = next s
and_then next (returned n s) = returned n s

-- `for (;;)`, over the turns.
pub copy : List Answers → State → Running
copy [] s = running s
copy (a ∷ more) s = and_then (copy more) (on_select a a.select s)

abbrev pub start : State
start = state true true false [] [] []

-- At the beginning nothing is in the buffer; then either all that was read has been written and
-- only 0 is watched, or the buffer is still to be written and only 1 is watched.
abbrev Balanced : State → Type 0
Balanced (state true true false b i o) = (b ≡ []) × (i ≡ o)
Balanced (state true false false b i o) = i ≡ o
Balanced (state false true true b i o) = i ≡ o ++ b
Balanced (state false false p b i o) = ⊥
Balanced (state true w true b i o) = ⊥
Balanced (state false true false b i o) = ⊥

-- What has been written is a beginning of what has been read, and all of it behind a return of 0.
abbrev pub Copied : Running → Type 0
Copied (running s) = (rest : Bytes) × (input s ≡ output s ++ rest)
Copied (returned (pos n) s) = input s ≡ output s
Copied (returned (negsuc n) s) = (rest : Bytes) × (input s ≡ output s ++ rest)

abbrev Kept : Running → Type 0
Kept (running s) = Balanced s
Kept (returned n s) = Copied (returned n s)

take-length : (b : Bytes) → take (length b) b ≡ b
take-length [] = refl
take-length (c ∷ cs) = ap (λ z. c ∷ z) (take-length cs)

all_read : (i o : Bytes) → i ≡ o → (rest : Bytes) × (i ≡ o ++ rest)
all_read i o e = ([], e ∙ sym (append-nil o))

on_write-Kept :
    (a : Option ℕ) (r w p : Bool) (b i o : Bytes)
    → i ≡ o ++ b
    → Kept (on_write a (state r w p b i o))
on_write-Kept none r w p b i o e = (b, e)
on_write-Kept (some n) r w p b i o e = elim (Bool-cases (n == length b)) [
  | inl y ↦
      let h : n ≡ length b = ground arith in
      rw (y) (e ∙ ap (λ z. o ++ z) (sym (ap (λ m. take m b) h ∙ take-length b)))
  | inr y ↦ rw (y) (
    drop n b,
    e ∙ ap (λ z. o ++ z) (sym (take-append-drop n b)) ∙ sym (append_assoc o (take n b) (drop n b)),
  )
]

on_read-Kept :
    (a : Answers) (x : Option Bytes) (w p : Bool) (b i o : Bytes)
    → i ≡ o
    → Kept (on_read a x (state true w p b i o))
on_read-Kept a none w p b i o e = all_read i o e
on_read-Kept a (some []) w p b i o e = e
on_read-Kept a (some (c ∷ cs)) true p b i o e =
    on_write-Kept a.write true true true (c ∷ cs) (i ++ (c ∷ cs)) o (ap (λ z. z ++ (c ∷ cs)) e)
on_read-Kept a (some (c ∷ cs)) false p b i o e = ap (λ z. z ++ (c ∷ cs)) e

on_select-Kept :
    (a : Answers) (x : Option (Bool × Bool)) (s : State) → Balanced s → Kept (on_select a x s)
on_select-Kept a none (state true true false b i o) (z, e) = all_read i o e
on_select-Kept a none (state true false false b i o) e = all_read i o e
on_select-Kept a none (state false true true b i o) e = (b, e)
on_select-Kept a (some (true, y)) (state true true false b i o) (z, e) =
    on_read-Kept a a.read y false b i o e
on_select-Kept a (some (false, true)) (state true true false b i o) (z, e) =
    on_write-Kept a.write false true false b i o (e ∙ sym (append-nil o) ∙ ap (λ q. o ++ q) (sym z))
on_select-Kept a (some (false, false)) (state true true false b i o) (z, e) = e
on_select-Kept a (some (true, y)) (state true false false b i o) e =
    on_read-Kept a a.read false false b i o e
on_select-Kept a (some (false, y)) (state true false false b i o) e = e
on_select-Kept a (some (x, true)) (state false true true b i o) e =
    on_write-Kept a.write false true true b i o e
on_select-Kept a (some (x, false)) (state false true true b i o) e = e
on_select-Kept a x (state false false p b i o) h = absurd h
on_select-Kept a x (state true w true b i o) h = absurd h
on_select-Kept a x (state false true false b i o) h = absurd h

Balanced-Copied : (s : State) → Balanced s → Copied (running s)
Balanced-Copied (state true true false b i o) (z, e) = all_read i o e
Balanced-Copied (state true false false b i o) e = all_read i o e
Balanced-Copied (state false true true b i o) e = (b, e)
Balanced-Copied (state false false p b i o) h = absurd h
Balanced-Copied (state true w true b i o) h = absurd h
Balanced-Copied (state false true false b i o) h = absurd h

and_then-Copied :
    (next : State → Running) (r : Running)
    → Kept r
    → ((s : State) → Balanced s → Copied (next s))
    → Copied (and_then next r)
and_then-Copied next (running s) h all = all s h
and_then-Copied next (returned n s) h all = h

copy-Balanced : (turns : List Answers) (s : State) → Balanced s → Copied (copy turns s)
unfolding copy
copy-Balanced [] s h = Balanced-Copied s h
copy-Balanced (a ∷ more) s h =
    and_then-Copied (copy more) (on_select a a.select s) (on_select-Kept a a.select s h)
      (copy-Balanced more)

-- Whatever select(), read() and write() answer, in every turn what has been written is a beginning of
-- what has been read: nothing is lost, written twice or out of order. When main returns 0 all that
-- has been read is written.
pub select_copy-Copied : (turns : List Answers) → Copied (copy turns start)
select_copy-Copied turns = copy-Balanced turns start (refl, refl)
