-- ===== src/Handshake/Agree.antt =====
-- The client and the server come to the same decision.
use mathlib.Core.Path.{subst}
use unix_network_programming.Base.{
  ◌^◌, ◌<◌, ◌≡◌, refl, sym, ap, ◌∙◌, Bool, true, false, ◌&&◌, [], ◌++◌, length, take, drop,
}
use unix_network_programming.Transfer.{Bytes}
use unix_network_programming.Stream.{got, Socket}
use unix_network_programming.StreamMessages.{IsFifo}
use unix_network_programming.StreamMessages.Exchange.{Feeds}
use unix_network_programming.Handshake.{
  HeaderFormat, header_bytes, dummy_message, Serving, echoing, shut_down, serve_failed, Asking,
  talking, turned_away, ask_failed, on_writev, on_recv_version, ask, serve,
}
use unix_network_programming.Handshake.Answers.{
  same_version, same_protocol, answers, Decided, serve-Decided,
}

module _ (k : Socket) (fifo : IsFifo k) where
  -- The client behind the answers, with what it has written.
  abbrev pub Told : Bool → Bytes → Asking k → Type 0
  Told b w (talking s) = (b ≡ true) × (k.written s ≡ w)
  Told b w (turned_away s) = (b ≡ false) × (k.written s ≡ w)
  Told b w (ask_failed s) = ⊥

  -- The two recv() calls, on the two answers.
  recv_both :
      (v p : Bool) (response w : Bytes) (s : k.State)
      → k.pending s ≡ answers v p
      → k.written s ≡ w
      → Told (v && p) w (on_recv_version k response (k.read 128 s))
  recv_both v p response w s e f =
      let a = fifo.reads 128 s in
      let one : k.read 128 s ≡ got (take 128 (answers v p)) (a.0) =
        a.1 ∙ ap (λ z. got (take 128 z) (a.0)) e in
      let b = fifo.reads 128 (a.0) in
      let two : k.read 128 (a.0) ≡ got (take 128 (drop 128 (answers v p))) (b.0) =
        b.1 ∙ ap (λ z. got (take 128 z) (b.0)) (a.2 ∙ ap (drop 128) e) in
      subst (λ z. Told (v && p) w (on_recv_version k response z)) (sym one)
        (heard v p two (a.3 ∙ f) (b.3 ∙ a.3 ∙ f))
    where
      heard :
          (v p : Bool) {s' s'' : k.State}
          → k.read 128 s' ≡ got (take 128 (drop 128 (answers v p))) s''
          → k.written s' ≡ w
          → k.written s'' ≡ w
          → Told (v && p) w (on_recv_version k response (got (take 128 (answers v p)) s'))
      heard true true two f g = rw (two) (refl, g)
      heard true false two f g = rw (two) (refl, g)
      heard false p two f g = (refl, f)

  -- The server's end of the connection where it decides.
  abbrev pub end_of : Serving k → k.State
  end_of (echoing s) = s
  end_of (shut_down s) = s
  end_of (serve_failed s) = s

  sent_by : (b : Bool) (w : Bytes) (r : Serving k) → Decided k fifo b w r → k.written (end_of r) ≡ w
  sent_by b w (echoing s) d = d.1
  sent_by b w (shut_down s) d = d.1
  sent_by b w (serve_failed s) d = absurd d

  -- On a connection where nothing is under way, where each write takes all that it is given, what one
  -- end has written is delivered at the other, and each read gets all that is there of what it asks
  -- for: for any header with a version below 2^32 and a name of ten bytes, the client sends the header
  -- and its text and goes on to its two recv(); the server, on what the client has sent, sends its two
  -- answers; and, with what the server has sent, both come to the same decision: on to str_cli and
  -- str_echo if the version is 1 and the name begins with "UNP" and a NUL, and to the end of the
  -- connection otherwise.
  pub handshake_agrees :
      (feed : Bytes → k.State → k.State)
      → Feeds k feed
      → (h : HeaderFormat) (old response : Bytes) (s t : k.State) → h.version < 2 ^ 32
      → length h.protocol_name ≡ 10
      → k.pending s ≡ []
      → k.written s ≡ []
      → k.pending t ≡ []
      → k.written t ≡ []
      → (t1 : k.State) × (k.written t1 ≡ header_bytes h ++ dummy_message)
        × (ask k h response t ≡ on_recv_version k response (k.read 128 t1))
        × Decided k fifo
            (same_version h && same_protocol h)
            (answers (same_version h) (same_protocol h))
            (serve k old (feed (k.written t1) s))
        × Told (same_version h && same_protocol h) (k.written t1) (
            on_recv_version k response
              (k.read 128 (feed (k.written (end_of (serve k old (feed (k.written t1) s)))) t1)))
  unfolding ask
  handshake_agrees feed feeds h old response s t lv ln ps ws pt wt =
      let v = same_version h in
      let p = same_protocol h in
      let message = header_bytes h ++ dummy_message in
      let (t1, e1, p1, w1) = fifo.writes message t in
      let sent : k.written t1 ≡ message = w1 ∙ ap (λ z. z ++ message) wt in
      let there = feeds (k.written t1) s in
      let decided : Decided k fifo (v && p) (answers v p) (serve k old (feed (k.written t1) s)) =
        subst (λ z. Decided k fifo (v && p) z (serve k old (feed (k.written t1) s)))
          (ap (λ z. z ++ answers v p) (there.1 ∙ ws))
          (serve-Decided k fifo h old (feed (k.written t1) s) lv ln
            (there.0 ∙ ap (λ z. z ++ k.written t1) ps ∙ sent)) in
      let replies = k.written (end_of (serve k old (feed (k.written t1) s))) in
      let replied : replies ≡ answers v p =
        sent_by (v && p) (answers v p) (serve k old (feed (k.written t1) s)) decided in
      let back = feeds replies t1 in
      (
        t1,
        sent,
        ap (on_writev k response) e1,
        decided,
        recv_both v p response (k.written t1) (feed replies t1)
            (back.0 ∙ ap (λ z. z ++ replies) (p1 ∙ pt) ∙ replied) back.1,
      )
