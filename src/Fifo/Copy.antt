-- ===== src/Fifo/Copy.antt =====
-- The two processes together: what the client prints, and that they come to their end.
use mathlib.Core.Bool.{true≢false}
use mathlib.Core.List.{append_assoc, append-nil}
use mathlib.Core.Path.{subst}
use unix_network_programming.Base.{
  ℕ, ◌≤◌, ◌≡◌, ◌≢◌, refl, sym, ap, ◌∙◌, ◌⊎◌, inl, inr, true, false, Option-cases, [], ◌∷◌, ◌++◌,
  length, take, drop, take_all, drop_all, take-append-drop, arith,
}
use unix_network_programming.Transfer.{Bytes, Input, fits, length-first_line}
use unix_network_programming.Fifo.{
  maxbuff, Client, open_write1, open_read2, shut_read1, shut_write2, send_name, read_data,
  print_data, wait_child, exited, Server, open_read1, open_write2, shut_write1, shut_read2,
  read_name, open_file, read_file, send_data, send_error, overrun, close_read, close_write, ended,
  Sys, sys, Kind, fifos, pipes, start, server_writes2, errmesg, ServerStep, shuts_write1,
  shuts_read2, reads_name, opens, refuses, reads, reads_end, sends, sends_error, closes_read,
  closes_write, Step, by_server, opens1, opens2, c_shuts_read1, c_shuts_write2, c_names, c_reads,
  c_reads_end, c_prints, c_waits, Reach, here, after,
}
use unix_network_programming.Fifo.Sides.{
  Early, Late, name_of, reply, to_come, Asked, still, named, Onward, onward, step-Runs, step-Asked,
  step-Onward,
}

abbrev pub wanted : Input → Bytes
wanted w = reply w (name_of w)

-- The client ahead of the name, with the descriptors there.
abbrev pub Ready : Client → Type 0
Ready shut_read1 = Unit
Ready shut_write2 = Unit
Ready send_name = Unit
Ready _ = ⊥

module _ (w : Input) where
  pub data Sound : Sys → Type 0 where
    meeting1 : Sound (sys open_write1 open_read1 [] [] [])
    meeting2 : Sound (sys open_read2 open_write2 [] [] [])
    before : {c : Client} {s : Server} → Ready c → Early s → Sound (sys c s [] [] [])
    asked : {s : Server} → Early s → Sound (sys read_data s (name_of w) [] [])
    reading :
        {s : Server} {q o : Bytes}
        → Late w s
        → wanted w ≡ o ++ (q ++ to_come w s)
        → Sound (sys read_data s [] q o)
    printing :
        {s : Server} {q o bs : Bytes}
        → Late w s
        → wanted w ≡ o ++ (bs ++ (q ++ to_come w s))
        → Sound (sys (print_data bs) s [] q o)
    waiting : {o : Bytes} → wanted w ≡ o → Sound (sys wait_child ended [] [] o)
    over : {o : Bytes} → wanted w ≡ o → Sound (sys exited ended [] [] o)

  start-Sound : (k : Kind) → Sound (start k)
  start-Sound fifos = meeting1
  start-Sound pipes = before tt tt

module _ (w : Input) (cap : ℕ) where
  before-Asked :
      {c : Client} {s' : Server} {p' q' : Bytes}
      → Ready c
      → Asked w cap [] [] s' p' q'
      → Sound w (sys c s' p' q' [])
  before-Asked r (still e) = before r e
  before-Asked r (named ne) = absurd (ne refl)

  asked-Asked :
      {s' : Server} {p' q' : Bytes}
      → length (name_of w) ≤ maxbuff
      → Asked w cap (name_of w) [] s' p' q'
      → Sound w (sys read_data s' p' q' [])
  asked-Asked l (still e) = asked e
  asked-Asked l (named ne) =
      subst (λ z. Sound w (sys read_data (open_file z) (drop maxbuff (name_of w)) [] []))
        (sym (take_all maxbuff (name_of w) l))
        (subst (λ z. Sound w (sys read_data (open_file (name_of w)) z [] []))
          (sym (drop_all maxbuff (name_of w) l)) (reading refl refl))

  reading-Onward :
      {s s' : Server} {p' q q' o : Bytes}
      → wanted w ≡ o ++ (q ++ to_come w s)
      → Onward w cap [] q s s' p' q'
      → Sound w (sys read_data s' p' q' o)
  reading-Onward {o = o} eq (onward l e) = reading l (eq ∙ ap (λ z. o ++ z) e)

  printing-Onward :
      {s s' : Server} {p' q q' o bs : Bytes}
      → wanted w ≡ o ++ (bs ++ (q ++ to_come w s))
      → Onward w cap [] q s s' p' q'
      → Sound w (sys (print_data bs) s' p' q' o)
  printing-Onward {o = o} {bs = bs} eq (onward l e) = printing l (eq ∙ ap (λ z. o ++ (bs ++ z)) e)

  split_read : (q r : Bytes) → q ++ r ≡ take maxbuff q ++ (drop maxbuff q ++ r)
  split_read q r =
      ap (λ z. z ++ r) (sym (take-append-drop maxbuff q))
      ∙ append_assoc (take maxbuff q) (drop maxbuff q) r

  Sound-server :
      {c : Client} {s s' : Server} {p p' q q' o : Bytes}
      → length (name_of w) ≤ maxbuff
      → ServerStep w cap s p q s' p' q'
      → Sound w (sys c s p q o)
      → Sound w (sys c s' p' q' o)
  Sound-server l h meeting1 = absurd (step-Runs w cap h)
  Sound-server l h meeting2 = absurd (step-Runs w cap h)
  Sound-server l h (before r e) = before-Asked r (step-Asked w cap h e)
  Sound-server l h (asked e) = asked-Asked l (step-Asked w cap h e)
  Sound-server l h (reading t eq) = reading-Onward eq (step-Onward w cap h t)
  Sound-server l h (printing t eq) = printing-Onward eq (step-Onward w cap h t)
  Sound-server l h (waiting eq) = absurd (step-Runs w cap h)
  Sound-server l h (over eq) = absurd (step-Runs w cap h)

  -- Nobody but the child writes to the second pipe, so that its end is the child's end.
  end_of_data :
      (s : Server) (o : Bytes)
      → server_writes2 s ≡ false
      → Late w s
      → wanted w ≡ o ++ ([] ++ to_come w s)
      → Sound w (sys wait_child s [] [] o)
  end_of_data open_read1 o h t eq = absurd t
  end_of_data open_write2 o h t eq = absurd t
  end_of_data shut_write1 o h t eq = absurd t
  end_of_data shut_read2 o h t eq = absurd t
  end_of_data read_name o h t eq = absurd t
  end_of_data (open_file name) o h t eq = absurd (true≢false h)
  end_of_data (read_file rest) o h t eq = absurd (true≢false h)
  end_of_data (send_data buff rest) o h t eq = absurd (true≢false h)
  end_of_data (send_error buff) o h t eq = absurd (true≢false h)
  end_of_data (overrun name) o h t eq = absurd (true≢false h)
  end_of_data close_read o h t eq = absurd (true≢false h)
  end_of_data close_write o h t eq = absurd (true≢false h)
  end_of_data ended o h t eq = waiting (eq ∙ append-nil o)

  holds_write2 : (s : Server) → Early s → server_writes2 s ≢ false
  holds_write2 shut_write1 e h = true≢false h
  holds_write2 shut_read2 e h = true≢false h
  holds_write2 read_name e h = true≢false h
  holds_write2 open_read1 e h = e
  holds_write2 open_write2 e h = e
  holds_write2 (open_file name) e h = e
  holds_write2 (read_file rest) e h = e
  holds_write2 (send_data buff rest) e h = e
  holds_write2 (send_error buff) e h = e
  holds_write2 (overrun name) e h = e
  holds_write2 close_read e h = e
  holds_write2 close_write e h = e
  holds_write2 ended e h = e

  Sound-Step :
      (t t' : Sys) → length (name_of w) ≤ maxbuff → Step w cap t t' → Sound w t → Sound w t'
  Sound-Step _ _ l (by_server h) i = Sound-server l h i
  Sound-Step _ _ l opens1 meeting1 = meeting2
  Sound-Step _ _ l opens1 (before r e) = absurd r
  Sound-Step _ _ l opens2 (before r e) = absurd r
  Sound-Step _ _ l (c_reads ne) (before r e) = absurd r
  Sound-Step _ _ l (c_reads_end h) (before r e) = absurd r
  Sound-Step _ _ l c_prints (before r e) = absurd r
  Sound-Step _ _ l c_waits (before r e) = absurd r
  Sound-Step _ _ l opens2 meeting2 = before tt tt
  Sound-Step _ _ l c_shuts_read1 (before r e) = before tt e
  Sound-Step _ _ l c_shuts_write2 (before r e) = before tt e
  Sound-Step _ _ l (c_names k) (before r e) = asked e
  Sound-Step _ _ l (c_reads ne) (asked e) = absurd (ne refl)
  Sound-Step _ _ l (c_reads ne) (reading {s = s} {q = q} {o = o} t eq) =
      printing t (eq ∙ ap (λ z. o ++ z) (split_read q (to_come w s)))
  Sound-Step _ _ l (c_reads_end h) (reading {s = s} {o = o} t eq) = end_of_data s o h t eq
  Sound-Step _ _ l (c_reads_end h) (asked {s = s} e) = absurd (holds_write2 s e h)
  Sound-Step _ _ l c_prints (printing {s = s} {q = q} {o = o} {bs = bs} t eq) =
      reading t (eq ∙ sym (append_assoc o bs (q ++ to_come w s)))
  Sound-Step _ _ l c_waits (waiting eq) = over eq

  Sound-Reach :
      (k : Kind) (t : Sys) → length (name_of w) ≤ maxbuff → Reach w cap (start k) t → Sound w t
  Sound-Reach k _ l here = start-Sound w k
  Sound-Reach k _ l (after {t = t} {t' = t'} r h) = Sound-Step t t' l h (Sound-Reach k t l r)

  abbrev pub CanStep : Sys → Type 0
  CanStep t = (t' : Sys) × Step w cap t t'

  abbrev pub Over : Sys → Bytes → Type 0
  Over (sys c s p q o) r = (c ≡ exited) × (s ≡ ended) × (o ≡ r)

  -- The child's next step, where the second pipe is empty.
  server_can :
      (c : Client) (s : Server) (p o : Bytes)
      → maxbuff ≤ cap
      → fits maxbuff (name_of w) (errmesg w) ≡ true
      → Late w s
      → (s ≡ ended) ⊎ CanStep (sys c s p [] o)
  server_can c open_read1 p o k room t = absurd t
  server_can c open_write2 p o k room t = absurd t
  server_can c shut_write1 p o k room t = absurd t
  server_can c shut_read2 p o k room t = absurd t
  server_can c read_name p o k room t = absurd t
  server_can c (open_file name) p o k room t = elim (Option-cases (w.disk name)) [
    | inl e ↦
        inr (_, by_server (refuses e (subst (λ z. fits maxbuff z (errmesg w) ≡ true) (sym t) room)))
    | inr f ↦ inr (_, by_server (opens f.1))
  ]
  server_can c (read_file []) p o k room t = inr (_, by_server reads_end)
  server_can c (read_file (x ∷ xs)) p o k room t = inr (_, by_server (reads (λ e. cc)))
  server_can c (send_data buff rest) p o k room t = inr (_, by_server (sends (omega arith)))
  server_can c (send_error buff) p o k room t = inr (_, by_server (sends_error (omega arith)))
  server_can c (overrun name) p o k room t =
      absurd (true≢false (sym room ∙ subst (λ z. fits maxbuff z (errmesg w) ≡ false) (t.0) (t.1)))
  server_can c close_read p o k room t = inr (_, by_server closes_read)
  server_can c close_write p o k room t = inr (_, by_server closes_write)
  server_can c ended p o k room t = inl refl

  server_first :
      (c : Client) (s : Server) (p q o : Bytes) → p ≢ [] → Early s → CanStep (sys c s p q o)
  server_first c open_read1 p q o ne e = absurd e
  server_first c open_write2 p q o ne e = absurd e
  server_first c shut_write1 p q o ne e = (_, by_server shuts_write1)
  server_first c shut_read2 p q o ne e = (_, by_server shuts_read2)
  server_first c read_name p q o ne e = (_, by_server (reads_name ne))
  server_first c (open_file name) p q o ne e = absurd e
  server_first c (read_file rest) p q o ne e = absurd e
  server_first c (send_data buff rest) p q o ne e = absurd e
  server_first c (send_error buff) p q o ne e = absurd e
  server_first c (overrun name) p q o ne e = absurd e
  server_first c close_read p q o ne e = absurd e
  server_first c close_write p q o ne e = absurd e
  server_first c ended p q o ne e = absurd e

  client_first :
      (c : Client) (s : Server) (q o : Bytes)
      → length (name_of w) ≤ cap
      → Ready c
      → CanStep (sys c s [] q o)
  client_first shut_read1 s q o l r = (_, c_shuts_read1)
  client_first shut_write2 s q o l r = (_, c_shuts_write2)
  client_first send_name s q o l r = (_, c_names {p = []} (omega arith))
  client_first open_write1 s q o l r = absurd r
  client_first open_read2 s q o l r = absurd r
  client_first read_data s q o l r = absurd r
  client_first (print_data bs) s q o l r = absurd r
  client_first wait_child s q o l r = absurd r
  client_first exited s q o l r = absurd r

  reading_can :
      (s : Server) (q o : Bytes)
      → maxbuff ≤ cap
      → fits maxbuff (name_of w) (errmesg w) ≡ true
      → Late w s
      → CanStep (sys read_data s [] q o)
  reading_can s (x ∷ q) o k room t = (_, c_reads (λ e. cc))
  reading_can s [] o k room t = elim (server_can read_data s [] o k room t) [
    | inl e ↦ (_, c_reads_end (ap server_writes2 e))
    | inr h ↦ h
  ]

  can_step :
      (t : Sys)
      → maxbuff ≤ cap
      → length (name_of w) ≤ maxbuff
      → name_of w ≢ []
      → fits maxbuff (name_of w) (errmesg w) ≡ true
      → Sound w t
      → Over t (wanted w) ⊎ CanStep t
  can_step t k l ne room meeting1 = inr (_, opens1)
  can_step t k l ne room meeting2 = inr (_, opens2)
  can_step t k l ne room (before {c = c} {s = s} r e) = inr (client_first c s [] [] (omega arith) r)
  can_step t k l ne room (asked {s = s} e) = inr (server_first read_data s (name_of w) [] [] ne e)
  can_step t k l ne room (reading {s = s} {q = q} {o = o} h eq) = inr (reading_can s q o k room h)
  can_step t k l ne room (printing h eq) = inr (_, c_prints)
  can_step t k l ne room (waiting eq) = inr (_, c_waits)
  can_step t k l ne room (over eq) = inl (refl, refl, sym eq)

  abbrev pub output : Sys → Bytes
  output (sys c s p q o) = o

  output_prefix : (t : Sys) → Sound w t → (r : Bytes) × (wanted w ≡ output t ++ r)
  output_prefix t meeting1 = (wanted w, refl)
  output_prefix t meeting2 = (wanted w, refl)
  output_prefix t (before r e) = (wanted w, refl)
  output_prefix t (asked e) = (wanted w, refl)
  output_prefix t (reading h eq) = (_, eq)
  output_prefix t (printing h eq) = (_, eq)
  output_prefix t (waiting {o = o} eq) = ([], eq ∙ sym (append-nil o))
  output_prefix t (over {o = o} eq) = ([], eq ∙ sym (append-nil o))

  -- With FIFOs or with pipes that hold a buffer, a name on the line that is not empty, of at most
  -- 1023 bytes with its newline, and an error message for it that fits errmesg[256] and, behind the
  -- name, the buffer of 1024 bytes: whatever the order of the two processes' steps, what the client
  -- has written by write() (the lines that it prints about itself left out) is a beginning of what is
  -- wanted for the name (the file, or the error message); and either one of the two can take a step,
  -- or both have ended and all that is wanted has been written.
  pub fifo-wanted :
      (k : Kind) (t : Sys)
      → maxbuff ≤ cap
      → name_of w ≢ []
      → fits maxbuff (name_of w) (errmesg w) ≡ true
      → Reach w cap (start k) t
      → ((r : Bytes) × (wanted w ≡ output t ++ r)) × (Over t (wanted w) ⊎ CanStep t)
  fifo-wanted k t big ne room r =
      let short : length (name_of w) ≤ maxbuff = omega (arith, length-first_line maxbuff w.line) in
      let h = Sound-Reach k t short r in (output_prefix t h, can_step t big short ne room h)
