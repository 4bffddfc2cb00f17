-- ===== src/Association/Settled.antt =====
-- The descriptors and the memory behind the calls.
use unix_network_programming.Base.{
  ℕ, suc, ◌≡◌, refl, sym, ap, ◌∙◌, inl, inr, Bool, true, false, Bool-cases, Option, none, some,
  List, [], ◌∷◌, ◌==◌, ltb, ◌||◌, not, ==_iff, if◌then◌else◌, arith,
}
use unix_network_programming.Association.{
  Answers, Proc, gets, closes, with_block, Returned, give_up, have_listened, on_bind, tcp_open,
  connecting, have_socket, tcp_connect, Loop, accepting, stopped, serve_clients,
}

-- Of what the process had, without the descriptor's number.
abbrev pub Fresh : Option ℕ → Proc → Type 0
Fresh none p = Unit
Fresh (some fd) p = p.fds fd ≡ false

-- The descriptor and one block more, or all as it was.
abbrev pub Kept : Proc → Option ℕ → Proc → Type 0
Kept p none q = ((n : ℕ) → q.fds n ≡ p.fds n) × (q.blocks ≡ p.blocks)
Kept p (some fd) q =
    ((n : ℕ) → q.fds n ≡ (if n == fd then true else p.fds n)) × (q.blocks ≡ suc p.blocks)

abbrev pub SettledFrom : Proc → Returned → Type 0
SettledFrom p r = Kept p r.descriptor r.process

-- To close what was got leaves what there was.
closed_again :
    (f : ℕ → Bool) (fd n : ℕ)
    → f fd ≡ false
    → (if n == fd then false else if n == fd then true else f n) ≡ f n
closed_again f fd n h = elim (Bool-cases (n == fd)) [
  | inl e ↦ rw (e) (sym (ap f ((==_iff n fd).0 e) ∙ h))
  | inr e ↦ rw (e) refl
]

give_up-SettledFrom :
    (o : Option ℕ) (p : Proc) → Fresh o p → SettledFrom p (give_up o (with_block (gets o p)))
give_up-SettledFrom none p h = ((λ n. refl), omega arith)
give_up-SettledFrom (some fd) p h = ((λ n. closed_again p.fds fd n h), omega arith)

have_listened-SettledFrom :
    (refused : Bool) (fd : ℕ) (p : Proc)
    → p.fds fd ≡ false
    → SettledFrom p (have_listened (some fd) refused (gets (some fd) p))
have_listened-SettledFrom true fd p h = give_up-SettledFrom (some fd) p h
have_listened-SettledFrom false fd p h = ((λ n. refl), refl)

on_bind-SettledFrom :
    (m : ℕ) (b l : Bool) (o : Option ℕ) (p : Proc)
    → Fresh o p
    → SettledFrom p (on_bind m b l o (gets o p))
on_bind-SettledFrom m b l none p h = give_up-SettledFrom none p h
on_bind-SettledFrom m false l (some fd) p h = give_up-SettledFrom (some fd) p h
on_bind-SettledFrom m true l (some fd) p h = have_listened-SettledFrom (ltb 5 m || not l) fd p h

connecting-SettledFrom :
    (c : Bool) (fd : ℕ) (p : Proc)
    → p.fds fd ≡ false
    → SettledFrom p (connecting c fd (gets (some fd) p))
connecting-SettledFrom false fd p h = give_up-SettledFrom (some fd) p h
connecting-SettledFrom true fd p h = ((λ n. refl), refl)

have_socket-SettledFrom :
    (a : Answers) (o : Option ℕ) (p : Proc)
    → a.malloc ≡ true
    → Fresh o p
    → SettledFrom p (have_socket a o p)
have_socket-SettledFrom a none p m h = ((λ n. refl), refl)
have_socket-SettledFrom a (some fd) p m h = rw (m) (connecting-SettledFrom a.connect fd p h)

-- Where there is memory, and socket() answers with a new descriptor or fails: however the other calls
-- answer and whatever max_client is, tcp_open and tcp_connect each return either that descriptor, with
-- it open and one block allocated beside what the process had, or -1, with no descriptor and no block
-- more than before.
pub tcp_calls-SettledFrom :
    (max_client : ℕ) (a : Answers) (p : Proc)
    → a.malloc ≡ true
    → Fresh a.socket p
    → SettledFrom p (tcp_open max_client a p) × SettledFrom p (tcp_connect a p)
unfolding tcp_open tcp_connect
tcp_calls-SettledFrom max_client a p m h = (
  rw (tcp_open, m) (on_bind-SettledFrom max_client a.bind a.listen a.socket p h),
  have_socket-SettledFrom a a.socket p m h,
)

-- The descriptors of a child as it exits: the parent's with its client's in place of the server's.
abbrev pub child_fds : (fds : ℕ → Bool) → (sockfd fd n : ℕ) → Bool
child_fds fds sockfd fd n = if n == sockfd then false else if n == fd then true else fds n

abbrev pub ChildrenOf : (fds : ℕ → Bool) → (sockfd : ℕ) → List Proc → Type 0
ChildrenOf fds sockfd [] = Unit
ChildrenOf fds sockfd (c ∷ cs) =
    ((fd : ℕ) × ((n : ℕ) → c.fds n ≡ child_fds fds sockfd fd n)) × ChildrenOf fds sockfd cs

abbrev pub Serves : (fds : ℕ → Bool) → (sockfd : ℕ) → Loop → Type 0
Serves fds sockfd (accepting p children) =
    ((n : ℕ) → p.fds n ≡ fds n) × ChildrenOf fds sockfd children
Serves fds sockfd (stopped p children) =
    ((n : ℕ) → p.fds n ≡ fds n) × ChildrenOf fds sockfd children

-- The descriptors that accept() answers with are new ones.
abbrev pub AllFresh : (fds : ℕ → Bool) → List (Option ℕ × Bool) → Type 0
AllFresh fds [] = Unit
AllFresh fds ((none, forks) ∷ turns) = AllFresh fds turns
AllFresh fds ((some fd, forks) ∷ turns) = (fds fd ≡ false) × AllFresh fds turns

-- In each turn accept() answers with a descriptor that the server does not have, or fails; fork() may
-- fail. However many turns are made, the parent has exactly the descriptors that it had ahead of the
-- loop, and each child, as it exits, has those with its client's in place of the listening socket.
serve_clients-Serves :
    (sockfd : ℕ) (turns : List (Option ℕ × Bool)) (fds : ℕ → Bool) (p : Proc) (children : List Proc)
    → AllFresh fds turns
    → ((n : ℕ) → p.fds n ≡ fds n)
    → ChildrenOf fds sockfd children
    → Serves fds sockfd (serve_clients sockfd turns p children)
unfolding serve_clients
serve_clients-Serves sockfd [] fds p children fresh same cs = (same, cs)
serve_clients-Serves sockfd ((none, forks) ∷ turns) fds p children fresh same cs = (same, cs)
serve_clients-Serves sockfd ((some fd, false) ∷ turns) fds p children fresh same cs =
    serve_clients-Serves sockfd turns fds (closes (some fd) (gets (some fd) p)) children fresh.1
      (λ n. closed_again p.fds fd n (same fd ∙ fresh.0) ∙ same n) cs
serve_clients-Serves sockfd ((some fd, true) ∷ turns) fds p children fresh same cs =
    serve_clients-Serves sockfd turns fds (closes (some fd) (gets (some fd) p))
      (closes (some sockfd) (gets (some fd) p) ∷ children) fresh.1
      (λ n. closed_again p.fds fd n (same fd ∙ fresh.0) ∙ same n)
      ((fd, λ n. ap (λ z. if n == sockfd then false else if n == fd then true else z) (same n)), cs)
