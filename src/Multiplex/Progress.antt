-- ===== src/Multiplex/Progress.antt =====
-- Neither of the two processes waits for the other for ever.
use unix_network_programming.Base.{
  ℕ, ◌≤◌, ◌≡◌, ◌≢◌, ◌==◌, refl, sym, ap, ◌∙◌, ◌⊎◌, inl, inr, Bool, Bool-cases, Option-cases, true,
  false, none, some, List, [], ◌∷◌, length, arith,
}
use mathlib.Core.Path.{subst}
use unix_network_programming.Transfer.{
  Bytes, Input, first_line, length-first_line, fits, Tail, closed,
}
use unix_network_programming.Multiplex.{
  max_data, MessageQueue, SendLaw, ReceiveLaw, IsQueue, mesg_send, mesg_recv, errmesg, s_overrun,
  Server, s_recv, s_open, s_read, s_send, s_report, s_last, s_done, s_failed, Client, c_start,
  c_recv, c_take, c_done, Sys, sys, Step, by_client, by_server, c_sends, c_receives, c_writes,
  c_ends, s_receives, s_opens, s_refuses, s_reports, s_reads, s_sends, s_ends, Reach, start,
}
use unix_network_programming.Multiplex.Invariant.{
  server_ended, ServerAt, ended, Empty, OnlyFor, Copying, starting, told, failing, copying,
}
use unix_network_programming.Multiplex.Copy.{Reach-Copying}

module _ (k : MessageQueue) (laws : IsQueue k) (w : Input) where
  abbrev pub CanStep : Sys k w → Type 0
  CanStep s = (t : Sys k w) × Step k w s t

  -- On an empty queue there is room.
  can_send :
      (t : ℕ) (m : Bytes) (q : k.State)
      → length m ≤ max_data
      → Empty k w q
      → (q' : k.State) × (mesg_send k t m q ≡ some q')
  unfolding mesg_send
  can_send t m q l empty = elim (Option-cases (k.msgsnd q t m)) [
    | inr r ↦ r
    | inl e ↦
        let full = subst (SendLaw k q t m) e (laws.sends q t m) l in absurd (full.1 (empty full.0))
  ]

  can_receive :
      (t : ℕ) (q : k.State)
      → (k.messages q t ≡ []) ⊎ ((m : Bytes) × (q' : k.State) × (mesg_recv k t q ≡ some (m, q')))
  unfolding mesg_recv
  can_receive t q = elim (Option-cases (k.msgrcv q t)) [
    | inl e ↦ inl (subst (ReceiveLaw k q t) e (laws.receives q t))
    | inr r ↦ inr (r.0.0, r.0.1, r.1)
  ]

  server_can :
      (s : Server) (c : Client) (q : k.State) (u o coming : Bytes)
      → (w.disk (first_line max_data w.line) ≡ none
          → fits max_data (first_line max_data w.line) (errmesg w) ≡ true)
      → ServerAt w s coming u
      → Empty k w q
      → (s ≡ s_done) ⊎ CanStep (sys s c q u o)
  server_can s_recv c q u o coming l sa empty = absurd sa
  server_can (s_open name) c q u o coming l sa empty = elim (Option-cases (w.disk name)) [
    | inl e ↦ inr (
      _,
      by_server (
          s_refuses e
            (subst (λ z. w.disk z ≡ none → fits max_data z (errmesg w) ≡ true) (sym sa.0) l e)),
    )
    | inr f ↦ inr (_, by_server (s_opens f.1))
  ]
  server_can s_read c q [] o coming l sa empty =
      inr (_, by_server (s_reads {xs = []} {ys = []} refl (omega arith) (inr refl)))
  server_can s_read c q (x ∷ u) o coming l sa empty =
      inr (_, by_server (s_reads {xs = x ∷ []} {ys = u} refl (omega arith) (inl (λ e. cc))))
  server_can (s_send m) c q u o coming l (a1, a2, a3) empty =
      let r = can_send 2 m q a3 empty in inr (_, by_server (s_sends r.1))
  server_can (s_report m) c q u o coming l (a1, a2, a3) empty =
      let r = can_send 2 m q a3 empty in inr (_, by_server (s_reports r.1))
  server_can s_last c q u o coming l sa empty =
      let r = can_send 2 [] q (omega arith) empty in inr (_, by_server (s_ends r.1))
  server_can s_done c q u o coming l sa empty = inl refl
  server_can s_overrun c q u o coming l sa empty = absurd sa
  server_can s_failed c q u o coming l sa empty = absurd sa

  nothing_there : (q : k.State) → OnlyFor k w 2 q → k.messages q 2 ≡ [] → Empty k w q
  nothing_there q only e n = elim (Bool-cases (n == 2)) [
    | inl y ↦ (let h : n ≡ 2 = ground arith in ap (k.messages q) h ∙ e)
    | inr y ↦ (let h : n ≢ 2 = ground arith in only n h)
  ]

  -- The last message ends the client, and the client only ends behind the server.
  still_open :
      (s : Server) (q : List Bytes) → s ≡ s_done → q ≡ [] → Tail (server_ended s) false q → ⊥
  unfolding closed
  still_open s q e e' t =
      let z : Tail true false [] =
        subst (λ x. Tail true false x) e' (subst (λ x. Tail (server_ended x) false q) e t) in
      cc

  ends_last : (s : Server) (q : List Bytes) → Tail (server_ended s) true q → server_ended s ≡ true
  ends_last s q t = go (server_ended s) t
    where
      go : (b : Bool) → Tail b true q → b ≡ true
      go true t = refl
      go false t = absurd t

  can_step :
      (t : Sys k w)
      → first_line max_data w.line ≢ []
      → length (first_line max_data w.line) ≤ max_data
      → (w.disk (first_line max_data w.line) ≡ none
          → fits max_data (first_line max_data w.line) (errmesg w) ≡ true)
      → Copying k w t
      → (ended k w t ≡ true) ⊎ CanStep t
  can_step t ne l l' (starting {q = q} empty) =
      let r = can_send 1 (first_line max_data w.line) q l empty in inr (_, by_client (c_sends r.1))
  can_step t ne l l' (told {q = q} e only) = elim (can_receive 1 q) [
    | inl none_left ↦ cc
    | inr r ↦ inr (_, by_server (s_receives r.2))
  ]
  can_step t ne l l' (failing e empty) = absurd (ne e)
  can_step t ne l l' (copying {s = s} {c = c_start} coming b sa only tl eq) = absurd b
  can_step t ne l l' (copying {s = s} {c = c_take []} coming b sa only tl eq) =
      inr (_, by_client c_ends)
  can_step t ne l l' (copying {s = s} {c = c_take (x ∷ xs)} coming b sa only tl eq) =
      inr (_, by_client c_writes)
  can_step t ne l l' (copying {s = s} {c = c_done} {q = q} coming b sa only tl eq) =
      inl (rw (ends_last s (k.messages q 2) tl) refl)
  can_step t ne l l' (copying {s = s} {c = c_recv} {q = q} {u = u} {o = o} coming b sa only tl eq) =
      elim (can_receive 2 q) [
        | inr r ↦ inr (_, by_client (c_receives r.2))
        | inl e ↦ elim (server_can s c_recv q u o coming l' sa (nothing_there q only e)) [
          | inr y ↦ inr y
          | inl d ↦ absurd (still_open s (k.messages q 2) d e tl)
        ]
      ]

  -- Where the line has a name, of at most 4079 bytes with its newline, and that is the name of a
  -- file, or the error message fits errmesg[256] and, behind the name, mesg_data[4080], in every
  -- state that the two processes can come to from a queue with no message on it both have ended or
  -- one of them can take a step.
  pub multiplex-CanStep :
      (q : k.State) (t : Sys k w)
      → first_line max_data w.line ≢ []
      → (w.disk (first_line max_data w.line) ≡ none
          → fits max_data (first_line max_data w.line) (errmesg w) ≡ true)
      → Empty k w q
      → Reach k w (start k w q) t
      → (ended k w t ≡ true) ⊎ CanStep t
  multiplex-CanStep q t ne l empty r =
      can_step t ne (omega (arith, length-first_line max_data w.line)) l
        (Reach-Copying k laws w q t empty l r)
