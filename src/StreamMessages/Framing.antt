-- ===== src/StreamMessages/Framing.antt =====
-- mesg_recv reads what mesg_send has written.
use unix_network_programming.Base.{
  ℕ, ◌+◌, ◌^◌, ◌<◌, ◌≤◌, ◌≡◌, refl, ap, ◌∙◌, [], ◌∷◌, ◌++◌, true, false, ltb, ◌==◌, length, take,
  drop, arith,
}
use unix_network_programming.Transfer.{Bytes}
use unix_network_programming.Stream.{got, Socket}
use unix_network_programming.StreamMessages.{
  Mesg, to_bytes, from_bytes, header, in_memory, IsFifo, returned, mesg_send, mesg, with_length,
  on_header, mesg_recv, mesg_hdr_size,
}

pub take-length-append : (xs ys : Bytes) → take (length xs) (xs ++ ys) ≡ xs
take-length-append [] ys = take_none ys
  where
    take_none : (ys : Bytes) → take 0 ys ≡ []
    take_none ys = refl
take-length-append (x ∷ xs) ys = ap (λ z. x ∷ z) (take-length-append xs ys)

drop-length-append : (xs ys : Bytes) → drop (length xs) (xs ++ ys) ≡ ys
drop-length-append [] ys = refl
drop-length-append (x ∷ xs) ys = drop-length-append xs ys

int_back : (v : ℕ) → v < 2 ^ 31 → from_bytes (to_bytes 4 v) ≡ v
int_back v h = omega arith

long_back : (v : ℕ) → v < 2 ^ 63 → from_bytes (to_bytes 8 v) ≡ v
long_back v h = omega arith

module _ (k : Socket) (fifo : IsFifo k) where
  -- A message goes through: mesg_send appends its bytes to what has been written.
  pub mesg_send_lem :
      (m : Mesg) (s : k.State)
      → (s' : k.State) × (mesg_send k m s ≡ returned s')
        × (k.pending s' ≡ k.pending s)
        × (k.written s' ≡ k.written s ++ in_memory m)
  unfolding mesg_send
  mesg_send_lem m s =
      let w = fifo.writes (in_memory m) s in
      let same : (length (in_memory m) == mesg_hdr_size + length m.mesg_data) ≡ true =
        ground arith in
      (w.0, rw (w.1, same) refl, w.2, w.3)

  read_data :
      (t : ℕ) (text rest : Bytes) (s : k.State)
      → length text ≤ 4080
      → k.pending s ≡ text ++ rest
      → (s' : k.State) × (with_length k (length text) t s
          ≡ mesg (record { mesg_type = t; mesg_data = text }) s')
        × (k.pending s' ≡ rest)
        × (k.written s' ≡ k.written s)
  read_data t [] rest s h p = (s, refl, p, refl)
  read_data t (c ∷ cs) rest s h p =
      let r = fifo.reads (length (c ∷ cs)) s in
      let all : take (length (c ∷ cs)) (k.pending s) ≡ c ∷ cs =
        ap (take (length (c ∷ cs))) p ∙ take-length-append (c ∷ cs) rest in
      let some_bytes : (length (c ∷ cs) == 0) ≡ false = ground arith in
      let small : ltb (length (c ∷ cs)) (2 ^ 31) ≡ true = ground arith in
      let room : ltb 4080 (length (c ∷ cs)) ≡ false = ground arith in
      let same : (length (c ∷ cs) == length (c ∷ cs)) ≡ true = ground arith in
      (
        r.0,
        rw (with_length, some_bytes, small, room, r.1, all, same) refl,
        r.2 ∙ ap (drop (length (c ∷ cs))) p ∙ drop-length-append (c ∷ cs) rest,
        r.3,
      )

  -- Where the next bytes of a FIFO are those of a message with at most 4080 bytes and a type
  -- below 2 ^ 63, as mesg_send writes them, mesg_recv gives that message and leaves the bytes behind
  -- it.
  pub mesg_recv-in_memory :
      (m : Mesg) (rest : Bytes) (s : k.State)
      → length m.mesg_data ≤ 4080
      → m.mesg_type < 2 ^ 63
      → k.pending s ≡ in_memory m ++ rest
      → (s' : k.State) × (mesg_recv k s ≡ mesg m s')
        × (k.pending s' ≡ rest)
        × (k.written s' ≡ k.written s)
  unfolding mesg_recv
  mesg_recv-in_memory m rest s hl ht p =
      let r = fifo.reads 16 s in
      let len = length m.mesg_data in
      let hd : take 16 (k.pending s) ≡ header len m.mesg_type = ap (take 16) p in
      let tl : k.pending (r.0) ≡ m.mesg_data ++ rest = r.2 ∙ ap (drop 16) p in
      let body = read_data m.mesg_type m.mesg_data rest (r.0) hl tl in
      (
        body.0,
        ap (on_header k) (r.1 ∙ ap (λ b. got b (r.0)) hd)
            ∙ ap (λ v. with_length k v (from_bytes (to_bytes 8 m.mesg_type)) (r.0))
                (int_back len (omega arith))
            ∙ ap (λ v. with_length k len v (r.0)) (long_back m.mesg_type ht)
            ∙ body.1,
        body.2,
        body.3 ∙ r.3,
      )
