-- ===== src/Inetd/Start.antt =====
-- The start of inetd.c: the sockets are opened, and the loop finds a sound table.
use mathlib.Core.Path.{subst}
use unix_network_programming.Base.{
  ℕ, suc, ◌≤◌, ◌≡◌, Bool-cases, inl, inr, refl, sym, ◌∙◌, ap, true, false, ◌&&◌, ◌||◌, Option, none,
  some, List, [], ◌∷◌, ◌==◌, if◌then◌else◌, arith, ltb,
}
use unix_network_programming.Base.Int.{ℤ, pos, negsuc}
use unix_network_programming.Inetd.{
  Service, Inetd, FdSet, fd_set, fd_zero, Sockets, opened, open_one, open_services, services, start,
}
use unix_network_programming.Inetd.Round.{Steps}
use unix_network_programming.Inetd.Watch.{has, busy_count, distinct, all_sound, none_busy}
use unix_network_programming.Inetd.Reach.{if_cases}
use unix_network_programming.Inetd.Invariant.{Watched, Steps-Watched}

-- socket() does not answer with a descriptor that is open.
pub record IsSockets (a : Sockets) : Type 0 where
  pub fresh : (i j n : ℕ) → a.socket i ≡ pos n → a.socket j ≡ pos n → i ≡ j

abbrev grown : ℕ → ℕ → ℕ
grown max fd = if ltb max fd then fd else max

abbrev at_socket : Service → ℕ → Service
at_socket s fd = record s { sockfd = fd }

abbrev before : Service → ℕ → Inetd → Inetd
before s fd k = record k { serv_arr = at_socket s fd ∷ k.serv_arr }

some_inj : (x y : Inetd) → some x ≡ some y → x ≡ y
some_inj x y e = cc

opened_step :
    (s : Service) (o : Option Inetd) (r : Inetd)
    → opened s o ≡ some r
    → (k : Inetd) × (o ≡ some k) × (record k { serv_arr = s ∷ k.serv_arr } ≡ r)
opened_step s none r e = cc
opened_step s (some k) r e = (k, refl, some_inj _ r e)

-- What a turn of the loop that does not exit has done.
open_one_step :
    (x y : ℤ) (s : Service) (max : ℕ) (f : FdSet) (rest : ℕ → FdSet → Option Inetd) (r : Inetd)
    → open_one x y s max f rest ≡ some r
    → (fd : ℕ) × (k : Inetd) × (x ≡ pos fd)
      × (rest (grown max fd) (fd_set fd f) ≡ some k)
      × (before s fd k ≡ r)
open_one_step (negsuc n) y s max f rest r e = cc
open_one_step (pos fd) (negsuc n) s max f rest r e = cc
open_one_step (pos fd) (pos n) s max f rest r e =
    let (k, h, q) = opened_step (at_socket s fd) (rest (grown max fd) (fd_set fd f)) r e in
    (fd, k, refl, h, q)

-- What the loop has done: the table is the old one with sockets.
abbrev Opened : List Service → ℕ → FdSet → Inetd → Type 0
Opened ss max f r =
    (all_sound r.serv_arr ≡ all_sound ss)
    × (busy_count r.serv_arr ≡ busy_count ss)
    × (r.udp_select_conn ≡ pos 0)
    × (max ≤ r.max_sockfd)
    × ((n : ℕ) → r.read_sockfds n ≡ (has n r.serv_arr || f n))
    × ((n : ℕ) → (has n r.serv_arr && ltb r.max_sockfd n) ≡ false)

Opened-before :
    (s : Service) (ss : List Service) (fd max : ℕ) (f : FdSet) (k : Inetd)
    → Opened ss (grown max fd) (fd_set fd f) k
    → Opened (s ∷ ss) max f (before s fd k)
unfolding all_sound busy_count has
Opened-before s ss fd max f k (so, bu, un, le, rd, mx) = (
  ground arith,
  ground arith,
  un,
  ground arith,
  λ n. (let h = rd n in ground arith),
  λ n. (let h = mx n in ground arith),
)

abbrev empty_table : ℕ → FdSet → Inetd
empty_table max f = record {
  serv_arr = [];
  read_sockfds = f;
  udp_select_conn = pos 0;
  max_sockfd = max;
}

module _ (a : Sockets) where
  nothing_left :
      (i max : ℕ) (f : FdSet) (r : Inetd)
      → open_services a i [] max f ≡ some r
      → empty_table max f ≡ r
  unfolding open_services
  nothing_left i max f r e = some_inj (empty_table max f) r e

  -- The turn for the first service, of either type.
  first_turn :
      (i : ℕ) (s : Service) (ss : List Service) (max : ℕ) (f : FdSet) (r : Inetd)
      → open_services a i (s ∷ ss) max f ≡ some r
      → (fd : ℕ) × (k : Inetd) × (a.socket i ≡ pos fd)
        × (open_services a (suc i) ss (grown max fd) (fd_set fd f) ≡ some k)
        × (before s fd k ≡ r)
  unfolding open_services
  first_turn i s ss max f r e =
      let step = open_one_step (a.socket i) (a.bind i) s max f (open_services a (suc i) ss) r in
      elim (if_cases (s.sock_type == 0) _ _ _ e) [
        | inl (_, h) ↦ step h
        | inr (_, h) ↦ elim (if_cases (s.sock_type == 1) _ _ _ h) [
          | inl (_, q) ↦ step q
          | inr (_, q) ↦ cc
        ]
      ]

  open_services-Opened :
      (i : ℕ) (ss : List Service) (max : ℕ) (f : FdSet) (r : Inetd)
      → open_services a i ss max f ≡ some r
      → Opened ss max f r
  unfolding all_sound busy_count has
  open_services-Opened i [] max f r e =
      subst (Opened [] max f) (nothing_left i max f r e)
        (refl, refl, refl, omega arith, λ n. refl, λ n. refl)
  open_services-Opened i (s ∷ ss) max f r e =
      let (fd, k, g, h, q) = first_turn i s ss max f r e in
      subst (Opened (s ∷ ss) max f) q (
        Opened-before s ss fd max f k
          (open_services-Opened (suc i) ss (grown max fd) (fd_set fd f) k h))

  -- A socket of the table came from one of the loop's calls.
  has_socket :
      (i : ℕ) (ss : List Service) (max : ℕ) (f : FdSet) (r : Inetd) (n : ℕ)
      → open_services a i ss max f ≡ some r
      → has n r.serv_arr ≡ true
      → (j : ℕ) × (i ≤ j) × (a.socket j ≡ pos n)
  unfolding has
  has_socket i [] max f r n e h =
      let q = nothing_left i max f r e in
      let l : r.serv_arr ≡ [] = sym (ap (λ z. z.serv_arr) q) in
      let h' : has n [] ≡ true = subst (λ z. has n z ≡ true) l h in cc
  has_socket i (s ∷ ss) max f r n e h =
      let (fd, k, g, o, q) = first_turn i s ss max f r e in
      let h' : has n (at_socket s fd ∷ k.serv_arr) ≡ true =
        subst (λ z. has n z.serv_arr ≡ true) (sym q) h in
      elim (Bool-cases (n == fd)) [
        | inl t ↦ (let same : fd ≡ n = ground arith in (i, omega arith, g ∙ ap pos same))
        | inr t ↦
            let (j, le, w) =
              has_socket (suc i) ss (grown max fd) (fd_set fd f) k n o (ground arith) in
            (j, omega arith, w)
      ]

  open_services-distinct :
      IsSockets a
      → (i : ℕ) (ss : List Service) (max : ℕ) (f : FdSet) (r : Inetd)
      → open_services a i ss max f ≡ some r
      → distinct r.serv_arr ≡ true
  unfolding distinct
  open_services-distinct laws i [] max f r e =
      subst (λ z. distinct z.serv_arr ≡ true) (nothing_left i max f r e) refl
  open_services-distinct laws i (s ∷ ss) max f r e =
      let (fd, k, g, o, q) = first_turn i s ss max f r e in
      let ih = open_services-distinct laws (suc i) ss (grown max fd) (fd_set fd f) k o in
      let new : has fd k.serv_arr ≡ false = elim (Bool-cases (has fd k.serv_arr)) [
        | inl t ↦
            let (j, le, w) = has_socket (suc i) ss (grown max fd) (fd_set fd f) k fd o t in
            let clash : i ≡ j = laws.fresh i j fd g w in absurd (omega arith)
        | inr t ↦ t
      ] in
      subst (λ z. distinct z.serv_arr ≡ true) q (ground arith)

  start-Watched_first : IsSockets a → (i : Inetd) → start a ≡ some i → Watched i
  unfolding all_sound busy_count
  start-Watched_first laws i e =
      let (so, bu, un, le, rd, mx) = open_services-Opened 0 services 0 fd_zero i e in
      let idle : busy_count i.serv_arr ≡ 0 = bu ∙ refl in
      (
        so ∙ refl,
        open_services-distinct laws 0 services 0 fd_zero i e,
        un ∙ ap pos (sym idle),
        λ n. (let k = none_busy i.serv_arr n idle in let h = rd n in ground arith),
        mx,
      )

  -- If socket() gives each open call its own descriptor and main gets through its start, then
  -- after any turns of the loop (with any sockets of the watched ones ready, any answers of
  -- accept() and fork()) and any SIGCHLDs taken in select(): no two services share a socket,
  -- udp_select_conn is the number of datagram services with a child recorded, the watched
  -- sockets are exactly those of the other services, no stream service has a child recorded,
  -- and no socket is above max_sockfd.
  pub start-Watched : IsSockets a → (i j : Inetd) → start a ≡ some i → Steps i j → Watched j
  start-Watched laws i j e h = Steps-Watched i j (start-Watched_first laws i e) h
