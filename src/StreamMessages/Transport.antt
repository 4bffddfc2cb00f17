-- ===== src/StreamMessages/Transport.antt =====
-- A file goes through a FIFO: the messages that server() sends are what client() prints.
use mathlib.Core.List.{append_assoc, append-nil}
use unix_network_programming.Base.{
  suc, ◌<◌, ◌≤◌, ◌≡◌, sym, ap, ◌∙◌, [], ◌∷◌, ◌++◌, List, false, ◌==◌, length, arith,
}
use unix_network_programming.Transfer.{Bytes, joined}
use unix_network_programming.Stream.{Socket}
use unix_network_programming.StreamMessages.{
  Mesg, in_memory, IsFifo, served, and_then, send_file, printed, on_mesg, print_all,
}
use unix_network_programming.StreamMessages.Framing.{mesg_send_lem, mesg_recv-in_memory}

abbrev pub message : Bytes → Mesg
message c = record { mesg_type = 1; mesg_data = c }

-- The bytes of the messages for the parts of a file, and of the empty one.
abbrev pub sent_bytes : List Bytes → Bytes
sent_bytes [] = in_memory (message [])
sent_bytes (c ∷ cs) = in_memory (message c) ++ sent_bytes cs

-- What read() gives before the end of the file: some bytes, at most MAXMESGDATA.
abbrev pub Parts : List Bytes → Type 0
Parts [] = Unit
Parts (c ∷ cs) = ((0 < length c) × (length c ≤ 4080)) × Parts cs

module _ (k : Socket) (fifo : IsFifo k) where
  pub send_file_lem :
      (cs : List Bytes) (s : k.State)
      → (s' : k.State) × (send_file k cs s ≡ served s')
        × (k.written s' ≡ k.written s ++ sent_bytes cs)
  unfolding send_file
  send_file_lem [] s =
      let r = mesg_send_lem k fifo (message []) s in (r.0, ap (and_then k served) r.1, r.3)
  send_file_lem (c ∷ cs) s =
      let r = mesg_send_lem k fifo (message c) s in
      let rest = send_file_lem cs (r.0) in
      (
        rest.0,
        ap (and_then k (send_file k cs)) r.1 ∙ rest.1,
        rest.2
            ∙ ap (λ z. z ++ sent_bytes cs) r.3
            ∙ append_assoc (k.written s) (in_memory (message c)) (sent_bytes cs),
      )

  pub print_all_lem :
      (cs : List Bytes) (out rest : Bytes) (s : k.State)
      → Parts cs
      → k.pending s ≡ sent_bytes cs ++ rest
      → (s' : k.State) × (print_all k (suc (length cs)) out s ≡ printed (out ++ joined cs) s')
        × (k.pending s' ≡ rest)
        × (k.written s' ≡ k.written s)
  unfolding print_all
  print_all_lem [] out rest s h p =
      let r = mesg_recv-in_memory k fifo (message []) rest s (omega arith) (omega arith) p in
      (
        r.0,
        ap (on_mesg k (print_all k 0) out) r.1 ∙ ap (λ z. printed z (r.0)) (sym (append-nil out)),
        r.2,
        r.3,
      )
  print_all_lem (c ∷ cs) out rest s ((some_bytes, fits), h) p =
      let r =
        mesg_recv-in_memory k fifo (message c) (sent_bytes cs ++ rest) s (omega arith) (omega arith)
          (p ∙ append_assoc (in_memory (message c)) (sent_bytes cs) rest) in
      let more = print_all_lem cs (out ++ c) rest (r.0) h r.2 in
      let full : (length c == 0) ≡ false = ground arith in
      (
        more.0,
        ap (on_mesg k (print_all k (suc (length cs))) out) r.1
            ∙ rw (full) more.1
            ∙ ap (λ z. printed z (more.0)) (append_assoc out c (joined cs)),
        more.2,
        more.3 ∙ r.3,
      )
