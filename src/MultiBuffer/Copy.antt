-- ===== src/MultiBuffer/Copy.antt =====
-- The two processes copy the file, and neither is left waiting for the other.
use mathlib.Core.Bool.{true≢false}
use mathlib.Core.List.{append-nil}
use unix_network_programming.Transfer.{Bytes, World, first_line, fits, joined}
use unix_network_programming.Base.{
  ℕ, suc, ◌≡◌, refl, sym, ap, ◌∙◌, inl, inr, none, Bool-cases, Bool, true, false, ◌&&◌, List, [],
  ◌++◌, ◌⊎◌,
}
use unix_network_programming.MultiBuffer.{
  Buffers, Server, Client, Sys, sys, write_to, start, s_start, s_open, s_done, c_start, c_name,
  c_named, c_wait, c_done, Step, by_client, by_server, c_started, c_names, c_signals, c_waited,
  c_writes, c_ends, c_returns, s_started, s_opens, s_refuses, s_overruns, cant_open, s_overrun,
  s_signals, s_loops, s_waited, s_reads, s_sends, s_reports, s_resumes, s_clears, s_ends, Reach,
  here, after,
}
use unix_network_programming.MultiBuffer.Tokens.{
  wanted, server_ended, client_ended, Copying, starting, naming, named, told, opening, copying,
}
use unix_network_programming.MultiBuffer.Receiver.{
  client_waits, client_returns, client_writes, client_ends,
}
use unix_network_programming.MultiBuffer.Sender.{
  server_opens, server_refuses, server_signals, server_loops, server_waits, server_reads,
  server_resumes, server_clears, server_sends, server_reports, server_ends,
}

abbrev pub output : Sys → Bytes
output (sys s c sv cm b u o) = o

abbrev pub ended : Sys → Bool
ended (sys s c sv cm b u o) = server_ended s && client_ended c

module _ (w : World) where
  -- The steps before the copy.
  c_begins :
      (s : Server) (sv cm : ℕ) (b : Buffers) (u o : Bytes)
      → Copying w (sys s c_start sv (suc cm) b u o)
      → Copying w (sys s c_name sv cm b u o)
  c_begins s sv cm b u o starting = naming
  c_begins s sv cm b u o (copying k n owed q coming ca sa h t e1 e2 e3) = absurd ca

  c_names_it :
      (s : Server) (sv cm : ℕ) (b : Buffers) (u o : Bytes)
      → Copying w (sys s c_name sv cm b u o)
      → Copying w (sys s c_named sv cm (write_to 0 (first_line 4080 w.line) b) u o)
  c_names_it s sv cm b u o naming = named refl
  c_names_it s sv cm b u o (copying k n owed q coming ca sa h t e1 e2 e3) = absurd ca

  c_tells :
      (s : Server) (sv cm : ℕ) (b : Buffers) (u o : Bytes)
      → Copying w (sys s c_named sv cm b u o)
      → Copying w (sys s (c_wait 0) (suc sv) cm b u o)
  c_tells s sv cm b u o (named e) = told e
  c_tells s sv cm b u o (copying k n owed q coming ca sa h t e1 e2 e3) = absurd ca

  s_begins :
      (c : Client) (sv cm : ℕ) (b : Buffers) (u o : Bytes)
      → Copying w (sys s_start c (suc sv) cm b u o)
      → Copying w (sys s_open c sv cm b u o)
  s_begins c sv cm b u o (told e) = opening e
  s_begins c sv cm b u o (copying k n owed q coming ca sa h t e1 e2 e3) = absurd sa

  s_does_not_overrun :
      (c : Client) (sv cm : ℕ) (b : Buffers) (u o : Bytes)
      → (w.file ≡ none → fits 4080 (first_line 4080 w.line) (cant_open ++ w.text) ≡ true)
      → w.file ≡ none
      → fits 4080 (b 0) (cant_open ++ w.text) ≡ false
      → Copying w (sys s_open c sv cm b u o)
      → Copying w (sys s_overrun c sv cm b u o)
  s_does_not_overrun c sv cm b u o fit f g (opening e) =
      absurd (true≢false (sym (fit f) ∙ ap (λ z. fits 4080 z (cant_open ++ w.text)) (sym e) ∙ g))
  s_does_not_overrun c sv cm b u o fit f g (copying k n owed q coming ca sa h t e1 e2 e3) =
      absurd sa

  Copying-Step :
      (s t : Sys)
      → (w.file ≡ none → fits 4080 (first_line 4080 w.line) (cant_open ++ w.text) ≡ true)
      → Copying w s
      → Step w s t
      → Copying w t
  Copying-Step s t fit h (by_client c_started) = c_begins _ _ _ _ _ _ h
  Copying-Step s t fit h (by_client c_names) = c_names_it _ _ _ _ _ _ h
  Copying-Step s t fit h (by_client c_signals) = c_tells _ _ _ _ _ _ h
  Copying-Step s t fit h (by_client c_waited) = client_waits w _ _ _ _ _ _ _ h
  Copying-Step s t fit h (by_client (c_writes e)) = client_writes w _ _ _ _ _ _ _ _ _ e h
  Copying-Step s t fit h (by_client (c_ends e)) = client_ends w _ _ _ _ _ _ _ e h
  Copying-Step s t fit h (by_client c_returns) = client_returns w _ _ _ _ _ _ _ h
  Copying-Step s t fit h (by_server s_started) = s_begins _ _ _ _ _ _ h
  Copying-Step s t fit h (by_server (s_opens e)) = server_opens w _ _ _ _ _ _ _ e h
  Copying-Step s t fit h (by_server (s_refuses e g)) = server_refuses w _ _ _ _ _ _ e h
  Copying-Step s t fit h (by_server (s_overruns f g)) = s_does_not_overrun _ _ _ _ _ _ fit f g h
  Copying-Step s t fit h (by_server s_signals) = server_signals w _ _ _ _ _ _ _ h
  Copying-Step s t fit h (by_server s_loops) = server_loops w _ _ _ _ _ _ h
  Copying-Step s t fit h (by_server s_waited) = server_waits w _ _ _ _ _ _ _ h
  Copying-Step s t fit h (by_server (s_reads e l d)) = server_reads w _ _ _ _ _ _ _ _ _ e d h
  Copying-Step s t fit h (by_server s_sends) = server_sends w _ _ _ _ _ _ _ _ h
  Copying-Step s t fit h (by_server s_reports) = server_reports w _ _ _ _ _ _ h
  Copying-Step s t fit h (by_server s_resumes) = server_resumes w _ _ _ _ _ _ h
  Copying-Step s t fit h (by_server s_clears) = server_clears w _ _ _ _ _ _ h
  Copying-Step s t fit h (by_server s_ends) = server_ends w _ _ _ _ _ _ h

  pub Reach-Copying :
      (b : Buffers) (t : Sys)
      → (w.file ≡ none → fits 4080 (first_line 4080 w.line) (cant_open ++ w.text) ≡ true)
      → Reach w (start b) t
      → Copying w t
  Reach-Copying b _ fit here = starting
  Reach-Copying b _ fit (after {t = s} r e) = Copying-Step s _ fit (Reach-Copying b s fit r) e

  output_prefix : (t : Sys) → Copying w t → (r : Bytes) × (wanted w ≡ output t ++ r)
  output_prefix t starting = (wanted w, refl)
  output_prefix t naming = (wanted w, refl)
  output_prefix t (named e) = (wanted w, refl)
  output_prefix t (told e) = (wanted w, refl)
  output_prefix t (opening e) = (wanted w, refl)
  output_prefix t (copying k n owed q coming ca sa h tl e1 e2 e3) = (joined q ++ coming, e3)

  whole :
      (o : Bytes) (q : List Bytes) (coming : Bytes)
      → q ≡ []
      → coming ≡ []
      → wanted w ≡ o ++ (joined q ++ coming)
      → o ≡ wanted w
  whole o q coming eq ec e =
      sym (e ∙ ap (λ z. o ++ (joined z ++ coming)) eq ∙ ap (λ z. o ++ z) ec ∙ append-nil o)

  output_whole : (t : Sys) → Copying w t → ended t ≡ true → output t ≡ wanted w
  output_whole t starting e = cc
  output_whole t naming e = cc
  output_whole t (named _) e = cc
  output_whole t (told _) e = cc
  output_whole t (opening _) e = cc
  output_whole t
        (copying {s = s_done} {c = c_done} {o = o} k n owed q coming ca (_, _, a3) h tl e1 e2 e3)
        e =
      whole o q coming tl a3 e3
  output_whole t (copying k n owed q coming ca sa h tl e1 e2 e3) e = cc

  -- Where the line of at most 4079 bytes that fgets() takes leads to a file, or the error message
  -- fits errmesg[256] and, behind the name, the buffer of 4080 bytes: from the start, whatever the
  -- order of the two processes' steps and however large the reads,
  -- what the client has written is a beginning of the file's content (of the name with the
  -- error message when the file cannot be opened), and it is all of it if both processes have
  -- ended.
  pub copy-wanted :
      (b : Buffers) (t : Sys)
      → (w.file ≡ none → fits 4080 (first_line 4080 w.line) (cant_open ++ w.text) ≡ true)
      → Reach w (start b) t
      → ((r : Bytes) × (wanted w ≡ output t ++ r)) × ((ended t ≡ false) ⊎ (output t ≡ wanted w))
  copy-wanted b t fit r =
      let h = Reach-Copying b t fit r in
      (
        output_prefix t h,
        elim (Bool-cases (ended t)) [ inl e ↦ inr (output_whole t h e) | inr e ↦ inl e ],
      )
