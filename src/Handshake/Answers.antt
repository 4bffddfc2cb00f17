-- ===== src/Handshake/Answers.antt =====
-- What the server makes of a header.
use unix_network_programming.Base.{
  ℕ, ◌^◌, ◌<◌, ◌≤◌, ◌≡◌, zero, suc, length-take, refl, sym, ap, ◌∙◌, Bool, true, false, ◌&&◌, [],
  ◌∷◌, ◌++◌, ◌==◌, if◌then◌else◌, length, take, arith, length-append,
}
use mathlib.Core.List.{append_assoc}
use mathlib.Core.Path.{subst}
use unix_network_programming.Transfer.{Bytes}
use unix_network_programming.Stream.{got, Socket}
use unix_network_programming.StreamMessages.{IsFifo, to_bytes, from_bytes}
use unix_network_programming.StreamMessages.Framing.{take-length-append}
use unix_network_programming.Handshake.{
  HeaderFormat, header_bytes, version_of, name_of, overlay, strncmp_eq, padded, protocol,
  version_error, no_version_error, proto_name_err, no_proto_name_err, dummy_message, Serving,
  echoing, shut_down, serve_failed, on_send, decide, answer_protocol, answer_version, on_readv,
  serve,
}

-- The header's two properties that count.
abbrev pub same_version : HeaderFormat → Bool
same_version h = h.version == 1

abbrev pub same_protocol : HeaderFormat → Bool
same_protocol h = strncmp_eq 4 h.protocol_name protocol

-- The two answers, 128 bytes each.
abbrev pub answers : (v p : Bool) → Bytes
answers v p =
    padded (if v then no_version_error else version_error)
    ++ padded (if p then no_proto_name_err else proto_name_err)

int_back : (v : ℕ) → v < 2 ^ 32 → from_bytes (to_bytes 4 v) ≡ v
int_back v h = omega arith

take-take : (n m : ℕ) (xs : Bytes) → n ≤ m → take n (take m xs) ≡ take n xs
take-take zero m xs h = refl
take-take (suc n) zero xs h = absurd (omega arith)
take-take (suc n) (suc m) [] h = refl
take-take (suc n) (suc m) (x ∷ xs) h = ap (λ z. x ∷ z) (take-take n m xs (omega arith))

take-append : (n : ℕ) (xs ys : Bytes) → n ≤ length xs → take n (xs ++ ys) ≡ take n xs
take-append zero xs ys h = refl
take-append (suc n) [] ys h = absurd (omega arith)
take-append (suc n) (x ∷ xs) ys h = ap (λ z. x ∷ z) (take-append n xs ys (omega arith))

-- The header that readv() leaves, whatever was in the array.
abbrev read_header : HeaderFormat → Bytes → Bytes
read_header h old = overlay (take 20 (take 148 (header_bytes h ++ dummy_message))) old

read_version :
    (h : HeaderFormat) (old : Bytes)
    → h.version < 2 ^ 32
    → version_of (read_header h old) ≡ h.version
read_version h old l = int_back h.version l

read_name :
    (h : HeaderFormat) (old : Bytes)
    → length h.protocol_name ≡ 10
    → name_of (read_header h old) ≡ h.protocol_name
read_name h old l =
    let name = h.protocol_name in
    let rest : Bytes = 0 ∷ 0 ∷ [] in
    let all : Bytes = (name ++ rest) ++ dummy_message in
    let long : length all ≡ 32 = omega (
      arith,
      length-append {A = ℕ} (name ++ rest) dummy_message,
      length-append {A = ℕ} name rest,
    ) in
    let kept : length (take 12 (take 140 all)) ≡ 12 =
      omega (arith, length-take 12 (take 140 all), length-take 140 all) in
    take-append 10 (take 12 (take 140 all)) _ (omega arith)
    ∙ take-take 10 12 (take 140 all) (omega arith)
    ∙ take-take 10 140 all (omega arith)
    ∙ ap (take 10) (append_assoc name rest dummy_message)
    ∙ ap (λ m. take m (name ++ (rest ++ dummy_message))) (sym l)
    ∙ take-length-append name (rest ++ dummy_message)

module _ (k : Socket) (fifo : IsFifo k) where
  sent_answer :
      (b : Bytes) (next : k.State → Serving k) (s : k.State)
      → (s' : k.State) × (on_send k next (k.write b s) ≡ next s')
        × (k.pending s' ≡ k.pending s)
        × (k.written s' ≡ k.written s ++ b)
  sent_answer b next s = let w = fifo.writes b s in (w.0, rw (w.1) refl, w.2, w.3)

  -- The server behind a header: on to str_echo or not, with both answers sent.
  abbrev pub Decided : Bool → Bytes → Serving k → Type 0
  Decided b w (echoing s) = (b ≡ true) × (k.written s ≡ w)
  Decided b w (shut_down s) = (b ≡ false) × (k.written s ≡ w)
  Decided b w (serve_failed s) = ⊥

  decide-Decided :
      (v p : Bool) (w : Bytes) (s : k.State) → k.written s ≡ w → Decided (v && p) w (decide k v p s)
  decide-Decided true true w s e = (refl, e)
  decide-Decided true false w s e = (refl, e)
  decide-Decided false p w s e = (refl, e)

  checked-Decided :
      (v p : Bool) (s : k.State)
      → Decided (v && p) (k.written s ++ answers v p) (answer_version k v p s)
  checked-Decided v p s =
      let one = padded (if v then no_version_error else version_error) in
      let two = padded (if p then no_proto_name_err else proto_name_err) in
      let a = sent_answer one (answer_protocol k v p) s in
      let b = sent_answer two (decide k v p) (a.0) in
      subst (Decided (v && p) (k.written s ++ answers v p)) (sym (a.1 ∙ b.1)) (
        decide-Decided v p (k.written s ++ answers v p) (b.0)
          (b.3 ∙ ap (λ z. z ++ two) a.3 ∙ append_assoc (k.written s) one two))

  -- Where the socket delivers a header with a name of ten bytes, and the text behind it, the child
  -- of the server comes to str_echo if the version is 1 and the name begins with "UNP" and a NUL, and
  -- shuts the socket down otherwise; either way it has sent the two answers, of 128 bytes each.
  pub serve-Decided :
      (h : HeaderFormat) (old : Bytes) (s : k.State)
      → h.version < 2 ^ 32
      → length h.protocol_name ≡ 10
      → k.pending s ≡ header_bytes h ++ dummy_message
      → Decided
          (same_version h && same_protocol h)
          (k.written s ++ answers (same_version h) (same_protocol h))
          (serve k old s)
  unfolding serve
  serve-Decided h old s lv ln p =
      let r = fifo.reads 148 s in
      let there : k.read 148 s ≡ got (take 148 (header_bytes h ++ dummy_message)) (r.0) =
        r.1 ∙ ap (λ z. got (take 148 z) (r.0)) p in
      let ver : (version_of (read_header h old) == 1) ≡ same_version h =
        ap (λ z. z == 1) (read_version h old lv) in
      let pro : strncmp_eq 4 (name_of (read_header h old)) protocol ≡ same_protocol h =
        ap (λ z. strncmp_eq 4 z protocol) (read_name h old ln) in
      let runs : serve k old s ≡ answer_version k (same_version h) (same_protocol h) (r.0) =
        ap (on_readv k old) there
        ∙ ap (λ v. answer_version k v (strncmp_eq 4 (name_of (read_header h old)) protocol) (r.0))
            ver
        ∙ ap (λ z. answer_version k (same_version h) z (r.0)) pro in
      subst (Decided (same_version h && same_protocol h) _) (sym runs) (
        subst
          (λ z.
            Decided (same_version h && same_protocol h)
              (z ++ answers (same_version h) (same_protocol h))
              (answer_version k (same_version h) (same_protocol h) (r.0)))
          r.3 (checked-Decided (same_version h) (same_protocol h) (r.0)))
