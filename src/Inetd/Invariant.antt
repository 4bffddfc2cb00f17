-- ===== src/Inetd/Invariant.antt =====
-- The table of inetd.c over its whole run.
use mathlib.Core.Path.{subst}
use unix_network_programming.Base.{
  ℕ, suc, ◌+◌, ◌≡◌, inl, inr, refl, sym, ◌∙◌, ap, true, false, ◌&&◌, not, Option, none, some, List,
  [], ◌∷◌, ◌==◌, arith, ltb,
}
use unix_network_programming.Base.Int.{ℤ, pos, ◌+ℤ◌, ◌-ℤ◌}
use unix_network_programming.Inetd.{
  Service, Inetd, FdSet, same_pid, release, put_back, freed, sig_child,
}
use unix_network_programming.Inetd.Round.{
  Answers, Scan, parent, child, failed, scan, busy, rearm, again, finish, round, ready_step,
  child_step, Steps, here, after,
}
use unix_network_programming.Inetd.Watch.{has, has_busy, busy_count, distinct, all_sound, rearm_lem}
use unix_network_programming.Inetd.Reach.{if_cases, sound_parts, scan-Launched}

-- The invariant: no two services share a socket, stream services have no child recorded,
-- udp_select_conn counts the datagram services with a running child, the watched sockets are those of
-- the services but these, and max_sockfd is not below any socket.
abbrev pub Watched : Inetd → Type 0
Watched i =
    (all_sound i.serv_arr ≡ true)
    × (distinct i.serv_arr ≡ true)
    × (i.udp_select_conn ≡ pos (busy_count i.serv_arr))
    × ((n : ℕ) → i.read_sockfds n ≡ (has n i.serv_arr && not (has_busy n i.serv_arr)))
    × ((n : ℕ) → (has n i.serv_arr && ltb i.max_sockfd n) ≡ false)

busy-has : (ss : List Service) (n : ℕ) → (has_busy n ss && not (has n ss)) ≡ false
unfolding has has_busy
busy-has [] n = refl
busy-has (s ∷ ss) n = ground (arith, busy-has ss n)

sum_of_pos : (u v : ℤ) (b c d : ℕ) → u ≡ pos c → v ≡ u +ℤ pos d → b ≡ c + d → v ≡ pos b
unfolding ◌+ℤ◌
sum_of_pos u v b c d eu ev eb = ground arith

again_inj : (i j : Inetd) → again i ≡ again j → i ≡ j
again_inj i j e = cc

-- A turn of the loop as the parent.
pub round-Watched :
    (a : Answers) (r : FdSet) (i j : Inetd)
    → ((n : ℕ) → (r n && not (i.read_sockfds n)) ≡ false)
    → Watched i
    → round a r i ≡ again j
    → Watched j
unfolding round
round-Watched a r i j sub w e = go (scan a r i.serv_arr i.udp_select_conn) refl e
  where
    go : (z : Scan) → scan a r i.serv_arr i.udp_select_conn ≡ z → finish i r z ≡ again j → Watched j
    go (child s fd) h q = cc
    go failed h q = cc
    go (parent ts v) h q =
        let (so, di, un, rd, mx) = w in
        let free : (n : ℕ) → (r n && has_busy n i.serv_arr) ≡ false =
          λ n. (let k = sub n in let l = rd n in ground arith) in
        let (d, eu, eb, es, ed, eh) =
          scan-Launched a r i.serv_arr ts i.udp_select_conn v so free h in
        let ev : v ≡ pos (busy_count ts) =
          sum_of_pos i.udp_select_conn v (busy_count ts) (busy_count i.serv_arr) d un eu eb in
        subst Watched (again_inj _ j q) (
          es,
          ed ∙ di,
          ev,
          λ n.
              (let k = sub n in
                let l = rd n in
                let m = eh n in ap (λ x. rearm ts x r n) ev ∙ rearm_lem ts r n (ground arith)),
          λ n. (let k = mx n in let m = eh n in ground arith),
        )

-- What `release` has done when it has found the child.
abbrev Released : List Service → List Service → ℕ → Type 0
Released ss ts fd =
    (busy_count ss ≡ suc (busy_count ts))
    × (all_sound ts ≡ true)
    × (distinct ts ≡ true)
    × (has fd ss ≡ true)
    × ((n : ℕ) → has n ts ≡ has n ss)
    × ((n : ℕ) → has_busy n ts ≡ (has_busy n ss && not (n == fd)))

found_inj :
    (xs ts : List Service) (k fd : ℕ)
    → ◌≡◌ {A = Option (List Service × ℕ)} (some (xs, k)) (some (ts, fd))
    → (xs ≡ ts) × (k ≡ fd)
found_inj xs ts k fd e = (cc, cc)

put_back_step :
    (s : Service) (o : Option (List Service × ℕ)) (ts : List Service) (fd : ℕ)
    → put_back s o ≡ some (ts, fd)
    → (xs : List Service) × (o ≡ some (xs, fd)) × (ts ≡ s ∷ xs)
put_back_step s none ts fd e = cc
put_back_step s (some (xs, k)) ts fd e =
    let (a, b) = found_inj (s ∷ xs) ts k fd e in (xs, ap (λ n. some (xs, n)) b, sym a)

distinct_parts :
    (s : Service) (ss : List Service)
    → distinct (s ∷ ss) ≡ true
    → (has s.sockfd ss ≡ false) × (distinct ss ≡ true)
unfolding distinct
distinct_parts s ss h = (ground arith, ground arith)

Released-head :
    (p : ℕ) (s : Service) (ss : List Service)
    → all_sound (s ∷ ss) ≡ true
    → distinct (s ∷ ss) ≡ true
    → same_pid (pos (suc p)) s.child_pid ≡ true
    → Released (s ∷ ss) (record s { child_pid = pos 0 } ∷ ss) s.sockfd
unfolding all_sound distinct has has_busy busy_count
Released-head p s ss so di e =
    let (new, _) = distinct_parts s ss di in
    let (so1, so2) = sound_parts s ss so in
    let t : s.sock_type ≡ 1 = ground arith in
    let b : busy s ≡ true = ground arith in
    (
      ground arith,
      ground arith,
      di,
      ground arith,
      λ n. refl,
      λ n. (let k = busy-has ss s.sockfd in ground arith),
    )

Released-tail :
    (s : Service) (ss ts : List Service) (fd : ℕ)
    → all_sound (s ∷ ss) ≡ true
    → distinct (s ∷ ss) ≡ true
    → Released ss ts fd
    → Released (s ∷ ss) (s ∷ ts) fd
unfolding all_sound distinct has has_busy busy_count
Released-tail s ss ts fd so di (c, as1, ds, hf, hn, hb) =
    let (new, _) = distinct_parts s ss di in
    let (so1, so2) = sound_parts s ss so in
    (
      ground arith,
      ground arith,
      (let k = hn s.sockfd in ground arith),
      ground arith,
      λ n. ground (arith, hn n),
      λ n. (let k = hb n in ground arith),
    )

release-Released :
    (p : ℕ) (ss ts : List Service) (fd : ℕ)
    → all_sound ss ≡ true
    → distinct ss ≡ true
    → release (pos (suc p)) ss ≡ some (ts, fd)
    → Released ss ts fd
unfolding release
release-Released p [] ts fd so di e = cc
release-Released p (s ∷ ss) ts fd so di e =
    elim (if_cases (same_pid (pos (suc p)) s.child_pid) _ _ _ e) [
      | inl (m, h) ↦
          let (a, b) = found_inj (record s { child_pid = pos 0 } ∷ ss) ts s.sockfd fd h in
          subst (λ z. Released (s ∷ ss) z fd) a
            (subst (λ z. Released (s ∷ ss) (record s { child_pid = pos 0 } ∷ ss) z) b
              (Released-head p s ss so di m))
      | inr (_, h) ↦
          let (xs, g, q) = put_back_step s (release (pos (suc p)) ss) ts fd h in
          subst (λ z. Released (s ∷ ss) z fd) (sym q)
            (Released-tail s ss xs fd so di
              (release-Released p ss xs fd (sound_parts s ss so).1 (distinct_parts s ss di).1 g))
    ]

pred_of_pos : (u : ℤ) (b c : ℕ) → u ≡ pos b → b ≡ suc c → u -ℤ pos 1 ≡ pos c
unfolding ◌-ℤ◌
pred_of_pos u b c e f = ground arith

-- The signal handler, for one child that has ended.
sig_child-Watched :
    (p : ℕ) (ps : List ℕ) (i : Inetd) → Watched i → Watched (sig_child (suc p ∷ ps) i).0
unfolding sig_child
sig_child-Watched p ps i w = go (release (pos (suc p)) i.serv_arr) refl
  where
    go :
        (o : Option (List Service × ℕ))
        → release (pos (suc p)) i.serv_arr ≡ o
        → Watched (freed i (release (pos (suc p)) i.serv_arr))
    go none e = rw (e) w
    go (some (ts, fd)) e =
        let (so, di, un, rd, mx) = w in
        let (c, so', di', hf, hn, hb) = release-Released p i.serv_arr ts fd so di e in
        rw (e) (
          so',
          di',
          pred_of_pos i.udp_select_conn (busy_count i.serv_arr) (busy_count ts) un c,
          λ n. (let k = hn n in let l = hb n in let m = rd n in ground arith),
          λ n. (let k = mx n in let m = hn n in ground arith),
        )

-- Whatever turns and signals follow each other, the table stays sound.
pub Steps-Watched : (i j : Inetd) → Watched i → Steps i j → Watched j
Steps-Watched i j w here = w
Steps-Watched i _ w (after {j = m} h (ready_step a r k sub e)) =
    round-Watched a r m k sub (Steps-Watched i m w h) e
Steps-Watched i _ w (after {j = m} h (child_step p ps)) =
    sig_child-Watched p ps m (Steps-Watched i m w h)
