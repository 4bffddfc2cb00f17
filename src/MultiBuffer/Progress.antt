-- ===== src/MultiBuffer/Progress.antt =====
-- Neither of the two processes is left waiting for the other.
use unix_network_programming.Transfer.{Bytes, World, closed, Tail, first_line, fits}
use unix_network_programming.Base.{
  ℕ, zero, suc, ◌+◌, ◌<◌, ◌≡◌, refl, ap, ◌++◌, ◌∙◌, inl, inr, Bool-cases, Bool, true, false, Option,
  none, some, List, [], ◌∷◌, length, arith, ◌⊎◌,
}
use unix_network_programming.MultiBuffer.{
  Buffers, Server, Client, Sys, sys, start, s_start, s_open, s_init, s_wait, s_read, s_signal,
  s_report, s_again, s_last, s_end, s_done, c_start, c_name, c_named, c_wait, c_take, c_wake,
  c_done, s_overrun, cant_open, Step, by_client, by_server, c_started, c_names, c_signals, c_waited,
  c_writes, c_ends, c_returns, s_started, s_opens, s_refuses, s_signals, s_loops, s_waited, s_reads,
  s_sends, s_reports, s_resumes, s_clears, s_ends, Reach,
}
use unix_network_programming.MultiBuffer.Tokens.{
  taken, kept, ClientAt, ServerAt, server_ended, client_ended, Copying, starting, naming, named,
  told, opening, copying,
}
use unix_network_programming.MultiBuffer.Copy.{ended, Reach-Copying}

-- The client does not end before the server has, and the server's last message is there.
client_first : (e c : Bool) (q : List Bytes) → e ≡ false → c ≡ true → Tail e c q → ⊥
client_first true c q e f t = cc
client_first false true q e f t = t
client_first false false q e f t = cc

last_sent : (e c : Bool) (q : List Bytes) → e ≡ true → c ≡ false → length q ≡ 0 → Tail e c q → ⊥
unfolding closed
last_sent false c q e f l t = cc
last_sent true true q e f l t = cc
last_sent true false [] e f l t = cc
last_sent true false (x ∷ q) e f l t = omega arith

module _ (w : World) where
  abbrev pub CanStep : Sys → Type 0
  CanStep s = (t : Sys) × Step w s t

  client_can :
      (s : Server) (c : Client) (sv cm : ℕ) (b : Buffers) (u o : Bytes) (k : ℕ)
      → ClientAt c k
      → ((i : ℕ) × (c ≡ c_wait i) × (cm ≡ 0)) ⊎ (c ≡ c_done) ⊎ CanStep (sys s c sv cm b u o)
  client_can s c_start sv cm b u o k ca = absurd ca
  client_can s c_name sv cm b u o k ca = absurd ca
  client_can s c_named sv cm b u o k ca = absurd ca
  client_can s (c_wait i) sv zero b u o k ca = inl (i, refl, refl)
  client_can s (c_wait i) sv (suc cm) b u o k ca = inr (inr (_, by_client c_waited))
  client_can s (c_take i) sv cm b u o k ca = inr (inr (go (b i) refl))
    where
      go : (m : Bytes) → b i ≡ m → CanStep (sys s (c_take i) sv cm b u o)
      go [] e = (_, by_client (c_ends e))
      go (x ∷ xs) e = (_, by_client (c_writes e))
  client_can s (c_wake i) sv cm b u o k ca = inr (inr (_, by_client c_returns))
  client_can s c_done sv cm b u o k ca = inr (inl refl)

  server_can :
      (s : Server) (c : Client) (sv cm : ℕ) (b : Buffers) (u o : Bytes) (n owed p : ℕ)
      (coming : Bytes)
      → ServerAt s n owed p b coming u
      → ((sv ≡ 0) × (owed ≡ 0) × (0 < n) × (server_ended s ≡ false))
        ⊎ (s ≡ s_done)
        ⊎ CanStep (sys s c sv cm b u o)
  server_can s_start c sv cm b u o n owed p coming sa = absurd sa
  server_can s_open c sv cm b u o n owed p coming sa = absurd sa
  server_can (s_init zero) c sv cm b u o n owed p coming sa = inr (inr (_, by_server s_loops))
  server_can (s_init (suc l)) c sv cm b u o n owed p coming sa = inr (inr (_, by_server s_signals))
  server_can (s_wait i) c zero cm b u o n owed p coming (a1, a2, _, _) =
      inl (refl, a2, omega arith, refl)
  server_can (s_wait i) c (suc sv) cm b u o n owed p coming sa = inr (inr (_, by_server s_waited))
  server_can (s_read i) c sv cm b [] o n owed p coming sa =
      inr (inr (_, by_server (s_reads {xs = []} {ys = []} refl (omega arith) (inr refl))))
  server_can (s_read i) c sv cm b (x ∷ u) o n owed p coming sa =
      inr (inr (_, by_server (s_reads {xs = x ∷ []} {ys = u} refl (omega arith) (inl (λ e. cc)))))
  server_can (s_signal i m) c sv cm b u o n owed p coming sa = inr (inr (_, by_server s_sends))
  server_can s_report c sv cm b u o n owed p coming sa = inr (inr (_, by_server s_reports))
  server_can s_again c zero cm b u o n owed p coming (a1, a2, _, _) =
      inl (refl, a2, omega arith, refl)
  server_can s_again c (suc sv) cm b u o n owed p coming sa = inr (inr (_, by_server s_resumes))
  server_can s_last c sv cm b u o n owed p coming sa = inr (inr (_, by_server s_clears))
  server_can s_end c sv cm b u o n owed p coming sa = inr (inr (_, by_server s_ends))
  server_can s_overrun c sv cm b u o n owed p coming sa = absurd sa
  server_can s_done c sv cm b u o n owed p coming sa = inr (inl refl)

  can_step :
      (t : Sys)
      → (w.file ≡ none → fits 4080 (first_line 4080 w.line) (cant_open ++ w.text) ≡ true)
      → Copying w t
      → (ended t ≡ true) ⊎ CanStep t
  can_step t fit starting = inr (_, by_client c_started)
  can_step t fit naming = inr (_, by_client c_names)
  can_step t fit (named e) = inr (_, by_client c_signals)
  can_step t fit (told e) = inr (_, by_server s_started)
  can_step t fit (opening {b = b} {u = u} e) = inr (go w.file refl)
    where
      go : (x : Option Bytes) → w.file ≡ x → CanStep (sys s_open (c_wait 0) 0 0 b u [])
      go none f =
          (_, by_server (s_refuses f (ap (λ z. fits 4080 z (cant_open ++ w.text)) e ∙ fit f)))
      go (some g) f = (_, by_server (s_opens f))
  can_step t fit
        (copying {s = s} {c = c} {sv = sv} {cm = cm} {b = b} {u = u} {o = o} k n owed q coming ca sa
          h tl e1 e2 e3) =
      elim (client_can s c sv cm b u o k ca) [
        | inr (inr y) ↦ inr y
        | inr (inl d) ↦
            let ce : client_ended c ≡ true = ap client_ended d in
            elim (Bool-cases (server_ended s)) [
              | inl f ↦ inl (ground arith)
              | inr f ↦ absurd (client_first (server_ended s) (client_ended c) q f ce tl)
            ]
        | inl (i, d, z) ↦ elim (server_can s c sv cm b u o n owed (k + length q) coming sa) [
          | inr (inr y) ↦ inr y
          | inr (inl f) ↦
              let ce : client_ended c ≡ false = ap client_ended d in
              let ct : taken c ≡ 0 = ap taken d in
              absurd (
                last_sent (server_ended s) (client_ended c) q (ap server_ended f) ce (omega arith)
                  tl)
          | inl (z1, z2, l, f) ↦
              let ct : taken c ≡ 0 = ap taken d in
              let ck : kept c ≡ 0 = ap kept d in absurd (omega arith)
        ]
      ]

  -- Where the line of at most 4079 bytes that fgets() takes leads to a file, or the error message
  -- fits errmesg[256] and, behind the name, the buffer of 4080 bytes: in every state that the two
  -- processes can come to from the start, both have ended or one of them can take a step: they never
  -- wait for each other.
  pub copy-CanStep :
      (b : Buffers) (t : Sys)
      → (w.file ≡ none → fits 4080 (first_line 4080 w.line) (cant_open ++ w.text) ≡ true)
      → Reach w (start b) t
      → (ended t ≡ true) ⊎ CanStep t
  copy-CanStep b t fit r = can_step t fit (Reach-Copying w b t fit r)
