-- ===== src/Multiplex/Copy.antt =====
-- The two processes copy the file through the queue.
use mathlib.Core.Bool.{true≢false}
use mathlib.Core.Path.{subst}
use mathlib.Core.List.{append-nil, append_assoc}
use unix_network_programming.Base.{
  ℕ, ◌≤◌, ◌≡◌, ◌≢◌, ◌==◌, refl, sym, ap, ◌∙◌, ◌⊎◌, inl, inr, Bool-cases, true, false, none, some,
  [], ◌∷◌, ◌++◌, length, arith,
}
use unix_network_programming.Transfer.{
  Bytes, Input, first_line, fits, fits-length, joined, Tail, joined-snoc, append_full, regroup,
  Tail-full, Tail-empty, Tail-more, Tail-last, all_full,
}
use unix_network_programming.Multiplex.{
  max_data, MessageQueue, Others, SendLaw, ReceiveLaw, IsQueue, mesg_send, mesg_recv, errmesg,
  report, s_overrun, Server, s_recv, s_open, s_read, s_send, s_report, s_last, s_done, Client,
  c_start, c_recv, c_take, c_done, named, have_read, Sys, sys, Step, by_client, by_server, c_sends,
  c_receives, c_writes, c_ends, s_receives, s_opens, s_refuses, s_overruns, s_reports, s_reads,
  s_sends, s_ends, Reach, here, after, start,
}
use unix_network_programming.Multiplex.Invariant.{
  reply, wanted, held, server_ended, client_ended, Started, ServerAt, output, ended, under_way,
  Empty, OnlyFor, Copying, starting, told, failing, copying,
}

module _ (k : MessageQueue) (laws : IsQueue k) where
  sent_law :
      (t : ℕ) (m : Bytes) (q q' : k.State) → mesg_send k t m q ≡ some q' → SendLaw k q t m (some q')
  unfolding mesg_send
  sent_law t m q q' e = subst (SendLaw k q t m) e (laws.sends q t m)

  received_law :
      (t : ℕ) (m : Bytes) (q q' : k.State)
      → mesg_recv k t q ≡ some (m, q')
      → ReceiveLaw k q t (some (m, q'))
  unfolding mesg_recv
  received_law t m q q' e = subst (ReceiveLaw k q t) e (laws.receives q t)

  module _ (w : Input) where
    OnlyFor-Others : (t : ℕ) (q q' : k.State) → OnlyFor k w t q → Others k t q q' → OnlyFor k w t q'
    OnlyFor-Others t q q' only others n ne = others n ne ∙ only n ne

    client_sends :
        (s : Server) (q q' : k.State) (u o : Bytes)
        → mesg_send k 1 (first_line max_data w.line) q ≡ some q'
        → Copying k w (sys s c_start q u o)
        → Copying k w (sys s c_recv q' u o)
    client_sends s q q' u o e (starting empty) =
        let l = sent_law 1 (first_line max_data w.line) q q' e in
        told (l.0 ∙ ap (λ z. z ++ (first_line max_data w.line ∷ [])) (empty 1))
          (λ n ne. l.1 n ne ∙ empty n)
    client_sends s q q' u o e (copying coming b sa only t eq) = absurd b

    client_receives :
        (s : Server) (q q' : k.State) (m u o : Bytes)
        → mesg_recv k 2 q ≡ some (m, q')
        → Copying k w (sys s c_recv q u o)
        → Copying k w (sys s (c_take m) q' u o)
    client_receives s q q' m u o e (told _ only) =
        let l = received_law 2 m q q' e in let z = only 2 (omega arith) in cc
    client_receives s q q' m u o e (failing _ empty) =
        let l = received_law 2 m q q' e in let z = empty 2 in cc
    client_receives s q q' m u o e (copying coming b sa only t eq) =
        let l = received_law 2 m q q' e in
        copying coming tt sa (OnlyFor-Others 2 q q' only l.1)
          (subst (Tail (server_ended s) false) l.0 t) (eq ∙ ap (λ z. o ++ (joined z ++ coming)) l.0)

    client_writes :
        (s : Server) (q : k.State) (c : ℕ) (cs u o : Bytes)
        → Copying k w (sys s (c_take (c ∷ cs)) q u o)
        → Copying k w (sys s c_recv q u (o ++ (c ∷ cs)))
    client_writes s q c cs u o (copying coming b sa only t eq) =
        copying coming tt sa only (Tail-full (server_ended s) (c ∷ cs) (k.messages q 2) c cs refl t)
          (eq ∙ regroup o (c ∷ cs) (joined (k.messages q 2)) coming)

    client_ends :
        (s : Server) (q : k.State) (u o : Bytes)
        → Copying k w (sys s (c_take []) q u o)
        → Copying k w (sys s c_done q u o)
    client_ends s q u o (copying coming b sa only t eq) =
        copying coming tt sa only (Tail-empty (server_ended s) [] (k.messages q 2) refl t) eq

    opened :
        (q : k.State) (m u : Bytes)
        → m ≡ first_line max_data w.line
        → Empty k w q
        → Copying k w (sys (named m) c_recv q u [])
    unfolding all_full
    opened q [] u e empty = failing (sym e) empty
    opened q (x ∷ m) u e empty =
        copying (wanted w) tt (e, refl) (λ n ne. empty n) (rw (empty 2) refl)
          (ap (λ z. joined z ++ wanted w) (sym (empty 2)))

    nothing_left :
        (q q' : k.State) → OnlyFor k w 1 q → Others k 1 q q' → k.messages q' 1 ≡ [] → Empty k w q'
    nothing_left q q' only others e n = elim (Bool-cases (n == 1)) [
      | inl y ↦ (let h : n ≡ 1 = ground arith in ap (k.messages q') h ∙ e)
      | inr y ↦ (let h : n ≢ 1 = ground arith in others n h ∙ only n h)
    ]

    server_receives :
        (c : Client) (q q' : k.State) (m u o : Bytes)
        → mesg_recv k 1 q ≡ some (m, q')
        → Copying k w (sys s_recv c q u o)
        → Copying k w (sys (named m) c q' u o)
    server_receives c q q' m u o e (starting empty) =
        let l = received_law 1 m q q' e in let z = empty 1 in cc
    server_receives c q q' m u o e (told line only) =
        let l = received_law 1 m q q' e in
        let first : m ∷ k.messages q' 1 ≡ first_line max_data w.line ∷ [] = sym l.0 ∙ line in
        opened q' m u (let h : m ≡ first_line max_data w.line = cc in h)
          (nothing_left q q' only l.1 cc)
    server_receives c q q' m u o e (copying coming b sa only t eq) = absurd sa

    server_opens :
        (c : Client) (q : k.State) (name f u o : Bytes)
        → w.disk name ≡ some f
        → Copying k w (sys (s_open name) c q u o)
        → Copying k w (sys s_read c q f o)
    server_opens c q name f u o e (copying coming b (en, ec) only t eq) =
        copying coming b (ec ∙ ap (reply w (first_line max_data w.line)) (ap w.disk (sym en) ∙ e))
          only t eq

    server_refuses :
        (c : Client) (q : k.State) (name u o : Bytes)
        → w.disk name ≡ none
        → fits max_data name (errmesg w) ≡ true
        → Copying k w (sys (s_open name) c q u o)
        → Copying k w (sys (s_report (report w name)) c q u o)
    server_refuses c q name u o e g (copying coming b (en, ec) only t eq) =
        copying coming b
          (
            ec
                ∙ ap (reply w (first_line max_data w.line)) (ap w.disk (sym en) ∙ e)
                ∙ ap (report w) (sym en),
            append_full name 58 _,
            fits-length max_data name (errmesg w) g,
          )
          only t eq

    server_does_not_overrun :
        (c : Client) (q : k.State) (name u o : Bytes)
        → (w.disk (first_line max_data w.line) ≡ none
            → fits max_data (first_line max_data w.line) (errmesg w) ≡ true)
        → w.disk name ≡ none
        → fits max_data name (errmesg w) ≡ false
        → Copying k w (sys (s_open name) c q u o)
        → Copying k w (sys s_overrun c q u o)
    server_does_not_overrun c q name u o fit e g (copying coming b (en, ec) only t eq) = absurd (
        true≢false
          (sym (fit (ap w.disk (sym en) ∙ e)) ∙ ap (λ z. fits max_data z (errmesg w)) (sym en) ∙ g))

    -- A message of the server behind those that are under way.
    sends :
        (s' : Server) (c : Client) (q q' : k.State) (m coming u o : Bytes)
        → mesg_send k 2 m q ≡ some q'
        → Started c
        → ServerAt w s' coming u
        → OnlyFor k w 2 q
        → Tail (server_ended s') (client_ended c) (under_way k w c q ++ (m ∷ []))
        → wanted w ≡ o ++ (joined (under_way k w c q) ++ (m ++ coming))
        → Copying k w (sys s' c q' u o)
    sends s' c q q' m coming u o e b sa only t eq =
        let l = sent_law 2 m q q' e in
        let now : under_way k w c q ++ (m ∷ []) ≡ under_way k w c q' =
          append_assoc (held c) (k.messages q 2) (m ∷ []) ∙ ap (λ z. held c ++ z) (sym l.0) in
        copying coming b sa (OnlyFor-Others 2 q q' only l.1)
          (subst (Tail (server_ended s') (client_ended c)) now t)
          (eq
            ∙ ap (λ z. o ++ z) (sym (joined-snoc (under_way k w c q) m coming))
            ∙ ap (λ z. o ++ (joined z ++ coming)) now)

    server_reads :
        (c : Client) (q : k.State) (u xs ys o : Bytes)
        → u ≡ xs ++ ys
        → length xs ≤ max_data
        → (xs ≢ []) ⊎ (ys ≡ [])
        → Copying k w (sys s_read c q u o)
        → Copying k w (sys (have_read xs) c q ys o)
    server_reads c q u [] ys o e l (inl ne) (copying coming b sa only t eq) = absurd (ne refl)
    server_reads c q u [] ys o e l (inr z) (copying coming b sa only t eq) =
        copying coming b (sa ∙ e ∙ z) only t eq
    server_reads c q u (x ∷ xs) ys o e l d (copying coming b sa only t eq) =
        copying coming b (sa ∙ e, λ h. cc, l) only t eq

    server_sends :
        (c : Client) (q q' : k.State) (m u o : Bytes)
        → mesg_send k 2 m q ≡ some q'
        → Copying k w (sys (s_send m) c q u o)
        → Copying k w (sys s_read c q' u o)
    server_sends c q q' m u o e (copying coming b (a1, a2, a3) only t eq) =
        sends s_read c q q' m u u o e b refl only
          (Tail-more (client_ended c) (under_way k w c q) m a2 t)
          (eq ∙ ap (λ z. o ++ (joined (under_way k w c q) ++ z)) a1)

    server_reports :
        (c : Client) (q q' : k.State) (m u o : Bytes)
        → mesg_send k 2 m q ≡ some q'
        → Copying k w (sys (s_report m) c q u o)
        → Copying k w (sys s_last c q' u o)
    server_reports c q q' m u o e (copying coming b (a1, a2, a3) only t eq) =
        sends s_last c q q' m [] u o e b refl only
          (Tail-more (client_ended c) (under_way k w c q) m a2 t)
          (eq ∙ ap (λ z. o ++ (joined (under_way k w c q) ++ z)) (a1 ∙ sym (append-nil m)))

    server_ends :
        (c : Client) (q q' : k.State) (u o : Bytes)
        → mesg_send k 2 [] q ≡ some q'
        → Copying k w (sys s_last c q u o)
        → Copying k w (sys s_done c q' u o)
    server_ends c q q' u o e (copying coming b sa only t eq) =
        sends s_done c q q' [] coming u o e b sa only
          (Tail-last (client_ended c) (under_way k w c q) t) eq

    Copying-Step :
        (s t : Sys k w)
        → (w.disk (first_line max_data w.line) ≡ none
            → fits max_data (first_line max_data w.line) (errmesg w) ≡ true)
        → Copying k w s
        → Step k w s t
        → Copying k w t
    Copying-Step s t fit h (by_client (c_sends e)) = client_sends _ _ _ _ _ e h
    Copying-Step s t fit h (by_client (c_receives e)) = client_receives _ _ _ _ _ _ e h
    Copying-Step s t fit h (by_client c_writes) = client_writes _ _ _ _ _ _ h
    Copying-Step s t fit h (by_client c_ends) = client_ends _ _ _ _ h
    Copying-Step s t fit h (by_server (s_receives e)) = server_receives _ _ _ _ _ _ e h
    Copying-Step s t fit h (by_server (s_opens e)) = server_opens _ _ _ _ _ _ e h
    Copying-Step s t fit h (by_server (s_refuses e g)) = server_refuses _ _ _ _ _ e g h
    Copying-Step s t fit h (by_server (s_overruns e g)) =
        server_does_not_overrun _ _ _ _ _ fit e g h
    Copying-Step s t fit h (by_server (s_reports e)) = server_reports _ _ _ _ _ _ e h
    Copying-Step s t fit h (by_server (s_reads e l d)) = server_reads _ _ _ _ _ _ e l d h
    Copying-Step s t fit h (by_server (s_sends e)) = server_sends _ _ _ _ _ _ e h
    Copying-Step s t fit h (by_server (s_ends e)) = server_ends _ _ _ _ _ e h

    pub Reach-Copying :
        (q : k.State) (t : Sys k w)
        → Empty k w q
        → (w.disk (first_line max_data w.line) ≡ none
            → fits max_data (first_line max_data w.line) (errmesg w) ≡ true)
        → Reach k w (start k w q) t
        → Copying k w t
    Reach-Copying q _ empty fit here = starting empty
    Reach-Copying q _ empty fit (after {t = s} r e) =
        Copying-Step s _ fit (Reach-Copying q s empty fit r) e

    output_prefix : (t : Sys k w) → Copying k w t → (r : Bytes) × (wanted w ≡ output k w t ++ r)
    output_prefix t (starting _) = (wanted w, refl)
    output_prefix t (told _ _) = (wanted w, refl)
    output_prefix t (failing _ _) = (wanted w, refl)
    output_prefix t (copying {c = c} {q = q} coming b sa only tl eq) =
        (joined (under_way k w c q) ++ coming, eq)

    output_whole : (t : Sys k w) → Copying k w t → ended k w t ≡ true → output k w t ≡ wanted w
    output_whole t (starting _) e = cc
    output_whole t (told _ _) e = cc
    output_whole t (failing _ _) e = cc
    output_whole t (copying {s = s_done} {c = c_done} {q = q} {o = o} coming b sa only tl eq) e =
        sym (eq ∙ ap (λ z. o ++ (joined z ++ coming)) tl ∙ ap (λ z. o ++ z) sa ∙ append-nil o)
    output_whole t (copying coming b sa only tl eq) e = cc

    -- From a queue with no message on it, where the name on the line, of at most 4079 bytes with its
    -- newline, is that of a file, or the error message fits errmesg[256] and, behind the name,
    -- mesg_data[4080]: whatever the order of the two processes' steps and however
    -- large the reads, what the client has written is a beginning of what is wanted for the name on
    -- the line (the content of the file with that name, or the name with the error message), and it
    -- is all of it if both processes have ended.
    pub multiplex-wanted :
        (q : k.State) (t : Sys k w)
        → Empty k w q
        → (w.disk (first_line max_data w.line) ≡ none
            → fits max_data (first_line max_data w.line) (errmesg w) ≡ true)
        → Reach k w (start k w q) t
        → ((r : Bytes) × (wanted w ≡ output k w t ++ r))
          × ((ended k w t ≡ false) ⊎ (output k w t ≡ wanted w))
    multiplex-wanted q t empty fit r =
        let h = Reach-Copying q t empty fit r in
        (
          output_prefix t h,
          elim (Bool-cases (ended k w t)) [ inl e ↦ inr (output_whole t h e) | inr e ↦ inl e ],
        )
