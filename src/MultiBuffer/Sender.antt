-- ===== src/MultiBuffer/Sender.antt =====
-- The steps of server() keep the invariant of the copy.
use mathlib.Core.Path.{subst}
use mathlib.Core.List.{append-nil}
use unix_network_programming.Transfer.{
  Bytes, World, all_full, joined, Tail, joined-snoc, append_full, Tail-more, Tail-last,
}
use unix_network_programming.Base.{
  ℕ, suc, ◌+◌, ◌%◌, ◌≤◌, ◌≡◌, ◌≢◌, refl, sym, ap, ◌∙◌, inl, inr, none, some, List, [], ◌∷◌, ◌++◌,
  length, arith, ◌⊎◌, length-append,
}
use unix_network_programming.MultiBuffer.{
  Buffers, cant_open, next, Server, Client, sys, write_to, behind, s_open, s_init, s_wait, s_read,
  s_signal, s_report, s_again, s_last, s_end, s_done,
}
use unix_network_programming.MultiBuffer.Ring.{Holds, Holds-keep, Holds-snoc, next-mod}
use unix_network_programming.MultiBuffer.Tokens.{
  wanted_of, wanted, taken, kept, ClientAt, ServerAt, server_ended, client_ended, Copying, opening,
  copying,
}
use unix_network_programming.MultiBuffer.Receiver.{at_number}

module _ (w : World) where
  -- The server puts a message behind those that are sent, and gives it to the client.
  sends :
      (s' : Server) (c : Client) (sv cm : ℕ) (b : Buffers) (u o : Bytes) (k n : ℕ) (q : List Bytes)
      (m coming : Bytes)
      → ClientAt c k
      → ServerAt s' n 0 (k + length q + 1) b coming u
      → Holds b k q
      → b ((k + length q) % 4) ≡ m
      → Tail (server_ended s') (client_ended c) (q ++ (m ∷ []))
      → sv + length q + kept c + 1 ≡ n
      → cm + taken c ≡ length q
      → wanted w ≡ o ++ (joined q ++ (m ++ coming))
      → Copying w (sys s' c sv (suc cm) b u o)
  sends s' c sv cm b u o k n q m coming ca sa h hm t e1 e2 e3 =
      let l = length-append q (m ∷ []) in
      copying k n 0 (q ++ (m ∷ [])) coming ca
        (at_number w s' n 0 (k + length q + 1) (k + length (q ++ (m ∷ []))) b coming u (omega arith)
          sa)
        (Holds-snoc b k q m h hm) t (omega arith) (omega arith)
        (e3 ∙ ap (λ z. o ++ z) (sym (joined-snoc q m coming)))

  pub server_opens :
      (c : Client) (sv cm : ℕ) (b : Buffers) (f u o : Bytes)
      → w.file ≡ some f
      → Copying w (sys s_open c sv cm b u o)
      → Copying w (sys (s_init 4) c sv cm b f o)
  unfolding all_full
  server_opens c sv cm b f u o e (opening h) =
      copying 0 4 4 [] f refl (refl, refl, refl, refl) tt refl refl refl (ap (wanted_of w) e)
  server_opens c sv cm b f u o e (copying k n owed q coming ca sa h t e1 e2 e3) = absurd sa

  pub server_refuses :
      (c : Client) (sv cm : ℕ) (b : Buffers) (u o : Bytes)
      → w.file ≡ none
      → Copying w (sys s_open c sv cm b u o)
      → Copying w (sys s_report c sv cm (write_to 0 (b 0 ++ (cant_open ++ w.text)) b) u o)
  unfolding all_full
  server_refuses c sv cm b u o e (opening h) =
      copying 0 1 1 [] (b 0 ++ (cant_open ++ w.text)) refl
        (refl, refl, refl, refl, λ z. append_full (b 0) 58 _ z) tt refl refl refl
        (ap (wanted_of w) e ∙ ap (λ z. z ++ (cant_open ++ w.text)) (sym h))
  server_refuses c sv cm b u o e (copying k n owed q coming ca sa h t e1 e2 e3) = absurd sa

  pub server_signals :
      (c : Client) (l sv cm : ℕ) (b : Buffers) (u o : Bytes)
      → Copying w (sys (s_init (suc l)) c sv cm b u o)
      → Copying w (sys (s_init l) c (suc sv) cm b u o)
  server_signals c l sv cm b u o (copying k n owed q coming ca (a1, a2, a3, a4) h t e1 e2 e3) =
      copying k n l q coming ca (a1, refl, a3, a4) h t (omega arith) e2 e3

  pub server_loops :
      (c : Client) (sv cm : ℕ) (b : Buffers) (u o : Bytes)
      → Copying w (sys (s_init 0) c sv cm b u o)
      → Copying w (sys (s_wait 0) c sv cm b u o)
  server_loops c sv cm b u o (copying k n owed q coming ca (a1, a2, a3, a4) h t e1 e2 e3) =
      copying k n owed q coming ca (a1, a2, omega arith, a4) h t e1 e2 e3

  pub server_waits :
      (c : Client) (i sv cm : ℕ) (b : Buffers) (u o : Bytes)
      → Copying w (sys (s_wait i) c (suc sv) cm b u o)
      → Copying w (sys (s_read i) c sv cm b u o)
  server_waits c i sv cm b u o (copying k n owed q coming ca (a1, a2, a3, a4) h t e1 e2 e3) =
      copying k n 1 q coming ca (a1, refl, a3, a4) h t (omega arith) e2 e3

  -- A write into the buffer behind the messages that are sent.
  Holds-ahead :
      (b : Buffers) (k n sv y i : ℕ) (q : List Bytes) (m : Bytes)
      → i ≡ (k + length q) % 4
      → sv + length q + y + 1 ≡ n
      → n ≤ 4
      → Holds b k q
      → Holds (write_to i m b) k q × (write_to i m b ((k + length q) % 4) ≡ m)
  Holds-ahead b k n sv y i q m e e1 l h = (
    subst (λ j. Holds (write_to j m b) k q) (sym e)
        (Holds-keep b k (k + length q) q m (omega arith) (omega arith) h),
    ground arith,
  )

  pub server_reads :
      (c : Client) (i sv cm : ℕ) (b : Buffers) (u xs ys o : Bytes)
      → u ≡ xs ++ ys
      → (xs ≢ []) ⊎ (ys ≡ [])
      → Copying w (sys (s_read i) c sv cm b u o)
      → Copying w (sys (s_signal i xs) c sv cm (write_to i xs b) ys o)
  server_reads c i sv cm b u xs ys o e d
        (copying k n owed q coming ca (a1, a2, a3, a4) h t e1 e2 e3) =
      let (h', hm) = Holds-ahead b k n sv (kept c) i q xs a3 (omega arith) (omega arith) h in
      copying k n owed q coming ca (a1, a2, hm, a3, a4 ∙ e, d) h' t e1 e2 e3

  pub server_resumes :
      (c : Client) (sv cm : ℕ) (b : Buffers) (u o : Bytes)
      → Copying w (sys s_again c (suc sv) cm b u o)
      → Copying w (sys s_last c sv cm b u o)
  server_resumes c sv cm b u o (copying k n owed q coming ca (a1, a2, a3, a4) h t e1 e2 e3) =
      copying k n 1 q coming ca (a1, refl, a3, a4) h t (omega arith) e2 e3

  pub server_clears :
      (c : Client) (sv cm : ℕ) (b : Buffers) (u o : Bytes)
      → Copying w (sys s_last c sv cm b u o)
      → Copying w (sys s_end c sv cm (write_to 1 [] b) u o)
  server_clears c sv cm b u o (copying k n owed q coming ca (a1, a2, a3, a4) h t e1 e2 e3) =
      let (h', hm) =
        Holds-ahead b k n sv (kept c) 1 q [] (omega arith) (omega arith) (omega arith) h in
      copying k n owed q coming ca (a1, a2, a3, a4, refl) h' t e1 e2 e3

  -- The messages stay full behind a full one, and end with an empty one.
  pub server_sends :
      (c : Client) (i sv cm : ℕ) (m : Bytes) (b : Buffers) (u o : Bytes)
      → Copying w (sys (s_signal i m) c sv cm b u o)
      → Copying w (sys (behind i m) c sv (suc cm) b u o)
  server_sends c i sv cm [] b u o
        (copying k n owed q coming ca (a1, a2, a3, a4, a5, a6) h t e1 e2 e3) =
      let u_nil : u ≡ [] = elim a6 [ inl ne ↦ absurd (ne refl) | inr e ↦ e ] in
      sends s_done c sv cm b u o k n q [] [] ca (omega arith, refl, refl) h a3
        (Tail-last (client_ended c) q t) (omega arith) e2
        (e3 ∙ ap (λ z. o ++ (joined q ++ z)) (a5 ∙ u_nil))
  server_sends c i sv cm (x ∷ xs) b u o
        (copying k n owed q coming ca (a1, a2, a3, a4, a5, a6) h t e1 e2 e3) =
      sends (s_wait (next i)) c sv cm b u o k n q (x ∷ xs) u ca
        (a1, refl, ap next a4 ∙ next-mod (k + length q), refl) h a3
        (Tail-more (client_ended c) q (x ∷ xs) (λ e. cc) t) (omega arith) e2
        (e3 ∙ ap (λ z. o ++ (joined q ++ z)) a5)

  pub server_reports :
      (c : Client) (sv cm : ℕ) (b : Buffers) (u o : Bytes)
      → Copying w (sys s_report c sv cm b u o)
      → Copying w (sys s_again c sv (suc cm) b u o)
  server_reports c sv cm b u o (copying k n owed q coming ca (a1, a2, a3, a4, a5) h t e1 e2 e3) =
      let slot : (k + length q) % 4 ≡ 0 = omega arith in
      sends s_again c sv cm b u o k n q coming [] ca (a1, refl, omega arith, refl) h
        (ap b slot ∙ a4) (Tail-more (client_ended c) q coming a5 t) (omega arith) e2
        (e3 ∙ ap (λ z. o ++ (joined q ++ z)) (sym (append-nil coming)))

  pub server_ends :
      (c : Client) (sv cm : ℕ) (b : Buffers) (u o : Bytes)
      → Copying w (sys s_end c sv cm b u o)
      → Copying w (sys s_done c sv (suc cm) b u o)
  server_ends c sv cm b u o (copying k n owed q coming ca (a1, a2, a3, a4, a5) h t e1 e2 e3) =
      let slot : (k + length q) % 4 ≡ 1 = omega arith in
      sends s_done c sv cm b u o k n q [] [] ca (omega arith, refl, refl) h (ap b slot ∙ a5)
        (Tail-last (client_ended c) q t) (omega arith) e2 (e3 ∙ ap (λ z. o ++ (joined q ++ z)) a4)
