-- ===== src/Fifo/Sides.antt =====
-- The child by itself: what it has still to send, and what each of its steps leaves of that.
use mathlib.Core.List.{append_assoc, append-nil}
use unix_network_programming.Base.{
  ℕ, ◌≤◌, ◌≡◌, ◌≢◌, refl, sym, ap, Option, none, some, false, [], ◌++◌, length, take, drop,
  take-append-drop, length-take, arith,
}
use unix_network_programming.Transfer.{Bytes, Input, first_line, fits, fits-length}
use unix_network_programming.Fifo.{
  maxbuff, Server, open_read1, open_write2, shut_write1, shut_read2, read_name, open_file,
  read_file, send_data, send_error, overrun, ended, errmesg, error_report, ServerStep, shuts_write1,
  shuts_read2, reads_name, opens, refuses, overruns, reads, reads_end, sends, sends_error,
  closes_read, closes_write,
}

-- Ahead of read() of the name, with the descriptors there.
abbrev pub Early : Server → Type 0
Early shut_write1 = Unit
Early shut_read2 = Unit
Early read_name = Unit
Early _ = ⊥

abbrev pub name_of : Input → Bytes
name_of w = first_line maxbuff w.line

-- Behind it, with the name that the client has sent, and no more in buff[] than it holds.
abbrev pub Late : Input → Server → Type 0
Late w open_read1 = ⊥
Late w open_write2 = ⊥
Late w shut_write1 = ⊥
Late w shut_read2 = ⊥
Late w read_name = ⊥
Late w (open_file name) = name ≡ name_of w
Late w (send_data buff rest) = length buff ≤ maxbuff
Late w (send_error buff) = length buff ≤ maxbuff
Late w (overrun name) = (name ≡ name_of w) × (fits maxbuff name (errmesg w) ≡ false)
Late w _ = Unit

-- Where the child can go on by itself.
abbrev pub Runs : Server → Type 0
Runs open_read1 = ⊥
Runs open_write2 = ⊥
Runs (overrun name) = ⊥
Runs ended = ⊥
Runs _ = Unit

abbrev pub opened : Input → Bytes → Option Bytes → Bytes
opened w name none = error_report w name
opened w name (some file) = file

-- What is answered to a name: the file, or the error message.
abbrev pub reply : Input → Bytes → Bytes
reply w name = opened w name (w.disk name)

abbrev pub to_come : Input → Server → Bytes
to_come w (open_file name) = reply w name
to_come w (overrun name) = reply w name
to_come w (read_file rest) = rest
to_come w (send_data buff rest) = buff ++ rest
to_come w (send_error buff) = buff
to_come w _ = []

module _ (w : Input) (cap : ℕ) where
  -- A step ahead of the name.
  pub data Asked (p q : Bytes) : Server → Bytes → Bytes → Type 0 where
    still : {s' : Server} → Early s' → Asked p q s' p q
    named : p ≢ [] → Asked p q (open_file (take maxbuff p)) (drop maxbuff p) q

  -- A step behind it.
  pub data Onward (p q : Bytes) (s : Server) : Server → Bytes → Bytes → Type 0 where
    onward :
        {s' : Server} {q' : Bytes}
        → Late w s'
        → q ++ to_come w s ≡ q' ++ to_come w s'
        → Onward p q s s' p q'

  pub step-Runs : {s s' : Server} {p p' q q' : Bytes} → ServerStep w cap s p q s' p' q' → Runs s
  step-Runs shuts_write1 = tt
  step-Runs shuts_read2 = tt
  step-Runs (reads_name ne) = tt
  step-Runs (opens e) = tt
  step-Runs (refuses e l) = tt
  step-Runs (overruns e l) = tt
  step-Runs (reads ne) = tt
  step-Runs reads_end = tt
  step-Runs (sends l) = tt
  step-Runs (sends_error l) = tt
  step-Runs closes_read = tt
  step-Runs closes_write = tt

  pub step-Asked :
      {s s' : Server} {p p' q q' : Bytes}
      → ServerStep w cap s p q s' p' q'
      → Early s
      → Asked p q s' p' q'
  step-Asked shuts_write1 h = still tt
  step-Asked shuts_read2 h = still tt
  step-Asked (reads_name ne) h = named ne
  step-Asked (opens e) h = absurd h
  step-Asked (refuses e l) h = absurd h
  step-Asked (overruns e l) h = absurd h
  step-Asked (reads ne) h = absurd h
  step-Asked reads_end h = absurd h
  step-Asked (sends l) h = absurd h
  step-Asked (sends_error l) h = absurd h
  step-Asked closes_read h = absurd h
  step-Asked closes_write h = absurd h

  pub step-Onward :
      {s s' : Server} {p p' q q' : Bytes}
      → ServerStep w cap s p q s' p' q'
      → Late w s
      → Onward p q s s' p' q'
  step-Onward shuts_write1 h = absurd h
  step-Onward shuts_read2 h = absurd h
  step-Onward (reads_name ne) h = absurd h
  step-Onward (opens {q = q} {name = name} e) h = onward tt (ap (λ z. q ++ opened w name z) e)
  step-Onward (refuses {q = q} {name = name} e l) h =
      onward (fits-length maxbuff name (errmesg w) l) (ap (λ z. q ++ opened w name z) e)
  step-Onward (overruns e l) h = onward (h, l) refl
  step-Onward (reads {q = q} {rest = rest} ne) h =
      onward (omega (arith, length-take maxbuff rest))
        (ap (λ z. q ++ z) (sym (take-append-drop maxbuff rest)))
  step-Onward reads_end h = onward tt refl
  step-Onward (sends {q = q} {buff = buff} {rest = rest} l) h =
      onward tt (sym (append_assoc q buff rest))
  step-Onward (sends_error {q = q} {buff = buff} l) h = onward tt (sym (append-nil (q ++ buff)))
  step-Onward closes_read h = onward tt refl
  step-Onward closes_write h = onward tt refl
