-- ===== src/TcpDaemon/Serve.antt =====
-- The loop of tcp_daemon.c and its children: whose descriptors are open, and who is collected.
use unix_network_programming.Base.{
  ℕ, zero, suc, ◌<◌, ◌≡◌, refl, ◌∙◌, Option, none, some, List, [], ◌∷◌, arith, map,
}
use unix_network_programming.Base.Int.{ℤ, pos, negsuc}
use unix_network_programming.Inetd.Child.{Table, close, lowest_free, open_at}
use unix_network_programming.TcpDaemon.{
  File, log_file, listener, client, forked, Serving, waiting, stopped, serve, Kernel, IsKernel,
  sig_child, on_wait3, Wait3Law,
}
use unix_network_programming.TcpDaemon.Start.{AtLoop, lowest_free-some, lowest_free-none}

-- A child has the log on 0 and 1, its client on 3, and no other.
abbrev pub child_table : ℕ → Table File
child_table c zero = some log_file
child_table c (suc zero) = some log_file
child_table c (suc (suc zero)) = none
child_table c (suc (suc (suc zero))) = some (client c)
child_table c (suc (suc (suc (suc n)))) = none

-- One child for each client, the last one first.
abbrev pub ChildrenOf : List ℕ → List (Table File) → Type 0
ChildrenOf [] [] = Unit
ChildrenOf [] (t ∷ ts) = ⊥
ChildrenOf (c ∷ cs) [] = ⊥
ChildrenOf (c ∷ cs) (t ∷ ts) = ((n : ℕ) → t n ≡ child_table c n) × ChildrenOf cs ts

-- Waiting, with the descriptors it had at first, and its children with their clients only.
abbrev pub WaitingFor : List ℕ → Serving → Type 0
WaitingFor cs (waiting t children) = AtLoop t × ChildrenOf cs children
WaitingFor cs (stopped m t children) = ⊥

abbrev pub reverse_onto : List ℕ → List ℕ → List ℕ
reverse_onto [] cs = cs
reverse_onto (x ∷ xs) cs = reverse_onto xs (x ∷ cs)

accepted_fd : (nofile : ℕ) (t : Table File) → 3 < nofile → AtLoop t → lowest_free nofile 0 t ≡ 3
accepted_fd zero t h a = absurd (omega arith)
accepted_fd (suc zero) t h a = absurd (omega arith)
accepted_fd (suc (suc zero)) t h a = absurd (omega arith)
accepted_fd (suc (suc (suc zero))) t h a = absurd (omega arith)
accepted_fd (suc (suc (suc (suc n)))) t h a =
    lowest_free-some (suc (suc (suc n))) 0 log_file t (a 0)
    ∙ lowest_free-some (suc (suc n)) 1 log_file t (a 1)
    ∙ lowest_free-some (suc n) 2 listener t (a 2)
    ∙ lowest_free-none n 3 t (a 3)

parent-AtLoop : (c : ℕ) (t : Table File) → AtLoop t → AtLoop (close 3 (open_at (client c) 3 t))
parent-AtLoop c t a zero = a zero
parent-AtLoop c t a (suc zero) = a 1
parent-AtLoop c t a (suc (suc zero)) = a 2
parent-AtLoop c t a (suc (suc (suc zero))) = refl
parent-AtLoop c t a (suc (suc (suc (suc n)))) = let g = a (suc (suc (suc (suc n)))) in ground arith

child-child_table :
    (c : ℕ) (t : Table File)
    → AtLoop t
    → (n : ℕ) → close 2 (open_at (client c) 3 t) n ≡ child_table c n
child-child_table c t a zero = a zero
child-child_table c t a (suc zero) = a 1
child-child_table c t a (suc (suc zero)) = refl
child-child_table c t a (suc (suc (suc zero))) = refl
child-child_table c t a (suc (suc (suc (suc n)))) =
    let g = a (suc (suc (suc (suc n)))) in ground arith

-- With the log on 0 and 1 and the listening socket on 2 as the only descriptors, and NOFILE above
-- 3, after any clients for whom accept() and fork() succeed the parent has those descriptors again,
-- and the child of each client has just the log on 0 and 1 and its own client on 3.
pub serve-WaitingFor :
    (nofile : ℕ) (clients served : List ℕ) (t : Table File) (children : List (Table File))
    → 3 < nofile
    → AtLoop t
    → ChildrenOf served children
    → WaitingFor (reverse_onto clients served) (serve nofile 2 (map forked clients) t children)
unfolding serve
serve-WaitingFor nofile [] served t children h a k = (a, k)
serve-WaitingFor nofile (c ∷ cs) served t children h a k =
    rw (map, serve, accepted_fd nofile t h a)
      (serve-WaitingFor nofile cs (c ∷ served) (close 3 (open_at (client c) 3 t))
        (close 2 (open_at (client c) 3 t) ∷ children) h (parent-AtLoop c t a)
        (child-child_table c t a, k))

module _ (k : Kernel) (laws : IsKernel k) where
  -- The loop has come out, and no child that has ended is left.
  abbrev pub Collected : Option k.State → Type 0
  Collected o = (s' : k.State) × (o ≡ some s') × (k.ended s' ≡ 0)

  on_wait3-Collected :
      (next : k.State → Option k.State) (n : ℕ) (s : k.State) (r : ℤ × k.State)
      → k.ended s ≡ n
      → Wait3Law k s r
      → ((s' : k.State) → suc (k.ended s') ≡ n → Collected (next s'))
      → Collected (on_wait3 k next r)
  on_wait3-Collected next n s (pos zero, s') e law rest = (s', refl, law.1)
  on_wait3-Collected next n s (negsuc x, s') e law rest = (s', refl, law.1)
  on_wait3-Collected next n s (pos (suc pid), s') e law rest = rest s' (omega arith)

  sig_child_loop : (n : ℕ) (s : k.State) → k.ended s ≡ n → Collected (sig_child k (suc n) s)
  unfolding sig_child
  sig_child_loop zero s e =
      on_wait3-Collected (sig_child k 0) 0 s (k.wait3 s) e (laws s) (λ s' h. absurd (omega arith))
  sig_child_loop (suc n) s e =
      on_wait3-Collected (sig_child k (suc n)) (suc n) s (k.wait3 s) e (laws s)
        (λ s' h. sig_child_loop n s' (omega arith))

  -- sig_child ends, after one call of wait3() more than there are children that have ended, and
  -- leaves none of them behind.
  sig_child-Collected : (s : k.State) → Collected (sig_child k (suc (k.ended s)) s)
  sig_child-Collected s = sig_child_loop (k.ended s) s refl
