-- ===== src/MultiBuffer/Receiver.antt =====
-- The steps of client() behind its start keep the invariant of the copy.
use mathlib.Core.Path.{subst}
use unix_network_programming.Transfer.{Bytes, World, joined, regroup, Tail-full, Tail-empty}
use unix_network_programming.Base.{ℕ, suc, ◌+◌, ◌≡◌, sym, ap, ◌∙◌, [], ◌∷◌, ◌++◌, length, arith}
use unix_network_programming.MultiBuffer.{
  Buffers, next, Server, sys, c_wait, c_take, c_wake, c_done,
}
use unix_network_programming.MultiBuffer.Ring.{next-mod}
use unix_network_programming.MultiBuffer.Tokens.{ServerAt, server_ended, Copying, copying}

module _ (w : World) where
  -- The client's steps behind its start.
  pub client_waits :
      (s : Server) (i sv cm : ℕ) (b : Buffers) (u o : Bytes)
      → Copying w (sys s (c_wait i) sv (suc cm) b u o)
      → Copying w (sys s (c_take i) sv cm b u o)
  client_waits s i sv cm b u o (copying k n owed q coming ca sa h t e1 e2 e3) =
      copying k n owed q coming ca sa h t e1 (omega arith) e3

  pub client_returns :
      (s : Server) (i sv cm : ℕ) (b : Buffers) (u o : Bytes)
      → Copying w (sys s (c_wake i) sv cm b u o)
      → Copying w (sys s (c_wait (next i)) (suc sv) cm b u o)
  client_returns s i sv cm b u o (copying k n owed q coming ca sa h t e1 e2 e3) =
      copying k n owed q coming ca sa h t (omega arith) e2 e3

  pub at_number :
      (s : Server) (n owed p p' : ℕ) (b : Buffers) (coming u : Bytes)
      → p ≡ p'
      → ServerAt s n owed p b coming u
      → ServerAt s n owed p' b coming u
  at_number s n owed p p' b coming u e x = subst (λ z. ServerAt s n owed z b coming u) e x

  pub client_writes :
      (s : Server) (i sv cm c : ℕ) (cs : Bytes) (b : Buffers) (u o : Bytes)
      → b i ≡ c ∷ cs
      → Copying w (sys s (c_take i) sv cm b u o)
      → Copying w (sys s (c_wake i) sv cm b u (o ++ (c ∷ cs)))
  client_writes s i sv cm c cs b u o m (copying k n owed [] coming ca sa h t e1 e2 e3) =
      absurd (omega arith)
  client_writes s i sv cm c cs b u o m (copying k n owed (x ∷ q) coming ca sa (hx, h) t e1 e2 e3) =
      let ex : x ≡ c ∷ cs = sym hx ∙ ap b (sym ca) ∙ m in
      copying (k + 1) n owed q coming (ap next ca ∙ next-mod k)
        (at_number s n owed (k + suc (length q)) (k + 1 + length q) b coming u (omega arith) sa) h
        (Tail-full (server_ended s) x q c cs ex t) (omega arith) (omega arith)
        (e3 ∙ ap (λ z. o ++ ((z ++ joined q) ++ coming)) ex ∙ regroup o (c ∷ cs) (joined q) coming)

  pub client_ends :
      (s : Server) (i sv cm : ℕ) (b : Buffers) (u o : Bytes)
      → b i ≡ []
      → Copying w (sys s (c_take i) sv cm b u o)
      → Copying w (sys s c_done sv cm b u o)
  client_ends s i sv cm b u o m (copying k n owed [] coming ca sa h t e1 e2 e3) =
      absurd (omega arith)
  client_ends s i sv cm b u o m (copying k n owed (x ∷ q) coming ca sa (hx, h) t e1 e2 e3) =
      let ex : x ≡ [] = sym hx ∙ ap b (sym ca) ∙ m in
      copying (k + 1) n owed q coming tt
        (at_number s n owed (k + suc (length q)) (k + 1 + length q) b coming u (omega arith) sa) h
        (Tail-empty (server_ended s) x q ex t) (omega arith) (omega arith)
        (e3 ∙ ap (λ z. o ++ ((z ++ joined q) ++ coming)) ex)
