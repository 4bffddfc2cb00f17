-- ===== src/StreamMessages/Exchange.antt =====
-- A request and its answer, through server() and client().
use mathlib.Core.List.{append-nil}
use unix_network_programming.Base.{
  ℕ, suc, ◌<◌, ◌≡◌, sym, ap, ◌∙◌, false, List, [], ◌∷◌, ◌++◌, true, ltb, ◌==◌, length,
  length-append, arith,
}
use unix_network_programming.Transfer.{
  Bytes, first_line, length-first_line, fits, fits-length, joined,
}
use unix_network_programming.Stream.{Socket}
use unix_network_programming.StreamMessages.{in_memory, IsFifo, returned, served, printed}
use unix_network_programming.StreamMessages.Framing.{mesg_send_lem, mesg_recv-in_memory}
use unix_network_programming.StreamMessages.Transport.{
  message, sent_bytes, Parts, send_file_lem, print_all_lem,
}
use unix_network_programming.StreamMessages.Programs.{
  Found, absent, directory, regular, Disk, max_mesg_data, errmesg, error_answer, ran, have_opened,
  on_request, server, on_asked, client,
}

-- The messages of the answer to a name, without the empty one.
abbrev pub answer : Disk → Bytes → Found → List Bytes
answer w name absent = error_answer w name ∷ []
answer w name directory = []
answer w name (regular parts) = parts

-- What can be answered: a file in parts, or an error message that fits.
abbrev pub CanAnswer : Disk → Bytes → Found → Type 0
CanAnswer w name absent = fits max_mesg_data name (errmesg w) ≡ true
CanAnswer w name directory = ⊥
CanAnswer w name (regular parts) = Parts parts

module _ (w : Disk) (k : Socket) (fifo : IsFifo k) where
  open_answers :
      (name : Bytes) (f : Found) (s : k.State)
      → CanAnswer w name f
      → (s' : k.State) × (have_opened w k name f s ≡ ran (served s'))
        × (k.written s' ≡ k.written s ++ sent_bytes (answer w name f))
  open_answers name absent s h =
      let r = send_file_lem k fifo (error_answer w name ∷ []) s in (r.0, rw (h) (ap ran r.1), r.2)
  open_answers name directory s h = absurd h
  open_answers name (regular parts) s h =
      let r = send_file_lem k fifo parts s in (r.0, ap ran r.1, r.2)

  server_answers :
      (name : Bytes) (t : k.State)
      → 0 < length name
      → length name < max_mesg_data
      → CanAnswer w name (w.disk name)
      → k.pending t ≡ in_memory (message name)
      → (t' : k.State) × (server w k t ≡ ran (served t'))
        × (k.written t' ≡ k.written t ++ sent_bytes (answer w name (w.disk name)))
  unfolding server
  server_answers name t some_bytes short can p =
      let r =
        mesg_recv-in_memory k fifo (message name) [] t (omega arith) (omega arith)
          (p ∙ sym (append-nil (in_memory (message name)))) in
      let full : (length name == 0) ≡ false = ground arith in
      let room : ltb (length name) max_mesg_data ≡ true = ground arith in
      let a = open_answers name (w.disk name) (r.0) can in
      (
        a.0,
        ap (on_request w k) r.1 ∙ rw (full, room) a.1,
        a.2 ∙ ap (λ z. z ++ sent_bytes (answer w name (w.disk name))) r.3,
      )

  answer-Parts :
      (name : Bytes) (f : Found) → 0 < length name → CanAnswer w name f → Parts (answer w name f)
  answer-Parts name absent some_bytes h = (
    (
      omega (arith, length-append name (errmesg w)),
      omega (arith, fits-length max_mesg_data name (errmesg w) h),
    ),
    tt,
  )
  answer-Parts name directory some_bytes h = tt
  answer-Parts name (regular parts) some_bytes h = h

  client_prints :
      (cs : List Bytes) (s : k.State)
      → Parts cs
      → k.pending s ≡ sent_bytes cs
      → (s' : k.State) × (on_asked k (suc (length cs)) (returned s) ≡ printed (joined cs) s')
        × (k.pending s' ≡ [])
        × (k.written s' ≡ k.written s)
  client_prints cs s h p = print_all_lem k fifo cs [] [] s h (p ∙ sym (append-nil (sent_bytes cs)))

-- What is written at one end is there to be read at the other.
abbrev pub Feeds : (k : Socket) → (Bytes → k.State → k.State) → Type 0
Feeds k feed =
    (bs : Bytes) (s : k.State)
    → (k.pending (feed bs s) ≡ k.pending s ++ bs) × (k.written (feed bs s) ≡ k.written s)

-- Over empty FIFOs that take what is written and deliver it at the other end, for a name on the line
-- that is not empty, of at most 4079 bytes with its newline, of a file that read() gives in parts of 1
-- to 4080 bytes, or of nothing, with an error message that fits errmesg[256] and, behind the name,
-- mesg_data[4080]: client() sends the name and goes on to its loop; server(), on what the client has
-- written, ends; and the client's loop, on what the server has written, ends in one round more than
-- there are messages with bytes in the answer, has printed the file or the error message, has sent
-- nothing more, and leaves no byte in its FIFO.
pub server-client :
    (w : Disk) (k : Socket)
    → IsFifo k
    → (feed : Bytes → k.State → k.State) → Feeds k feed
    → (line : Bytes) (s t : k.State) → 0 < length (first_line max_mesg_data line)
    → CanAnswer w (first_line max_mesg_data line) (w.disk (first_line max_mesg_data line))
    → k.pending s ≡ []
    → k.written s ≡ []
    → k.pending t ≡ []
    → k.written t ≡ []
    → (s1 : k.State) × (t' : k.State) × (s' : k.State) × ((fuel : ℕ)
        → client k line fuel s ≡ on_asked k fuel (returned s1))
      × (server w k (feed (k.written s1) t) ≡ ran (served t'))
      × (on_asked k
            (suc (
              length (
                answer w (first_line max_mesg_data line) (w.disk (first_line max_mesg_data line)))))
            (returned (feed (k.written t') s1))
          ≡ printed
              (joined
                (answer w (first_line max_mesg_data line) (w.disk (first_line max_mesg_data line))))
              s')
      × (k.pending s' ≡ [])
      × (k.written s' ≡ k.written s1)
unfolding client
server-client w k fifo feed feeds line s t some_bytes can ps ws pt wt =
    let name = first_line max_mesg_data line in
    let cs = answer w name (w.disk name) in
    let short : length name < max_mesg_data = omega (arith, length-first_line max_mesg_data line) in
    let (s1, e1, p1, w1) = mesg_send_lem k fifo (message name) s in
    let request : k.written s1 ≡ in_memory (message name) =
      w1 ∙ ap (λ z. z ++ in_memory (message name)) ws in
    let there = feeds (k.written s1) t in
    let (t', e2, w2) =
      server_answers w k fifo name (feed (k.written s1) t) some_bytes short can
        (there.0 ∙ ap (λ z. z ++ k.written s1) pt ∙ request) in
    let replied : k.written t' ≡ sent_bytes cs = w2 ∙ ap (λ z. z ++ sent_bytes cs) (there.1 ∙ wt) in
    let back = feeds (k.written t') s1 in
    let (s', e3, p3, w3) =
      client_prints w k fifo cs (feed (k.written t') s1)
        (answer-Parts w k fifo name (w.disk name) some_bytes can)
        (back.0 ∙ ap (λ z. z ++ k.written t') (p1 ∙ ps) ∙ replied) in
    (s1, t', s', λ fuel. ap (on_asked k fuel) e1, e2, e3, p3, w3 ∙ back.1)
