-- ===== src/Inetd/Serve.antt =====
-- A datagram request in inetd.c, from the turn that forks its child to the signal at the child's end.
use unix_network_programming.Base.{
  ℕ, suc, ◌≡◌, ◌⊎◌, Bool-cases, inl, inr, refl, sym, ◌∙◌, ap, Bool, true, false, ◌&&◌, ◌||◌, not,
  some, List, [], ◌∷◌, ◌++◌, ◌==◌, arith,
}
use unix_network_programming.Base.Int.{ℤ, pos, ◌+ℤ◌, +ℤ_cancel}
use unix_network_programming.Inetd.{
  Service, Inetd, FdSet, same_pid, release, freed, sig_child, dg_echo, dg_dis,
}
use unix_network_programming.Inetd.Round.{
  Answers, parent, handle, scan, busy, rearm, again, finish, round, same,
}
use unix_network_programming.Inetd.Watch.{has_busy}
use unix_network_programming.Inetd.Reach.{launch}
use unix_network_programming.Inetd.Invariant.{Watched, round-Watched}

-- A datagram service under one of the two names.
abbrev pub is_datagram : Service → Bool
is_datagram s = s.sock_type == 1 && (same s.service dg_echo || same s.service dg_dis)

-- Whether a service has recorded the child.
unfoldable pub recorded : ℤ → List Service → Bool
recorded pid [] = false
recorded pid (s ∷ ss) = same_pid pid s.child_pid || recorded pid ss

-- Whether a service has a socket that is ready.
unfoldable pub any_ready : FdSet → List Service → Bool
any_ready r [] = false
any_ready r (s ∷ ss) = r s.sockfd || any_ready r ss

module _ (a : Answers) (r : FdSet) (s : Service) (ys : List Service) (u : ℤ) (p : ℕ) where
  scan_first :
      is_datagram s ≡ true
      → r s.sockfd ≡ true
      → a.fork ≡ pos (suc p)
      → scan a r (s ∷ ys) u ≡ parent (launch s p ∷ ys) (u +ℤ pos 1)
  unfolding scan handle
  scan_first d on f =
      let not_stream : (s.sock_type == 0) ≡ false = ground arith in
      elim (Bool-cases (same s.service dg_echo)) [
        | inl e ↦ rw (on, handle, not_stream, e, f)
        | inr e ↦
            let dis : same s.service dg_dis ≡ true = ground arith in
            rw (on, handle, not_stream, e, dis, f)
      ]

  scan-append :
      (xs zs ts : List Service) (v : ℤ)
      → any_ready r xs ≡ false
      → scan a r zs u ≡ parent ts v
      → scan a r (xs ++ zs) u ≡ parent (xs ++ ts) v
  unfolding scan any_ready
  scan-append [] zs ts v h e = e
  scan-append (x ∷ xs) zs ts v h e =
      let off : r x.sockfd ≡ false = ground arith in
      let ih = scan-append xs zs ts v (ground arith) e in rw (off, ih)

release-append :
    (pid : ℤ) (xs zs ts : List Service) (fd : ℕ)
    → recorded pid xs ≡ false
    → release pid zs ≡ some (ts, fd)
    → release pid (xs ++ zs) ≡ some (xs ++ ts, fd)
unfolding release recorded
release-append pid [] zs ts fd h e = e
release-append pid (x ∷ xs) zs ts fd h e =
    let off : same_pid pid x.child_pid ≡ false = ground arith in
    let ih = release-append pid xs zs ts fd (ground arith) e in rw (off, ih)

release_first :
    (p : ℕ) (s : Service) (ys : List Service)
    → s.child_pid ≡ pos 0
    → release (pos (suc p)) (launch s p ∷ ys) ≡ some (s ∷ ys, s.sockfd)
unfolding release
release_first p s ys e =
    let me : same_pid (pos (suc p)) (pos (suc p)) ≡ true = ground arith in
    rw (me) (ap (λ c. some (record s { child_pid = c } ∷ ys, s.sockfd)) (sym e))

has_busy-append :
    (n : ℕ) (xs : List Service) (s : Service) (ys : List Service)
    → n ≡ s.sockfd
    → has_busy n (xs ++ (s ∷ ys)) ≡ true ⊎ busy s ≡ false
unfolding has_busy
has_busy-append n [] s ys e = elim (Bool-cases (busy s)) [
  | inl b ↦ inl (ground arith)
  | inr b ↦ inr b
]
has_busy-append n (x ∷ xs) s ys e = elim (has_busy-append n xs s ys e) [
  | inl h ↦ inl (ground (arith, h))
  | inr h ↦ inr h
]

idle_pid : (s : Service) → is_datagram s ≡ true → busy s ≡ false → s.child_pid ≡ pos 0
idle_pid s d b = ground arith

-- A service whose socket is watched is idle.
Watched-idle :
    (i : Inetd) (xs ys : List Service) (s : Service)
    → Watched i
    → i.serv_arr ≡ xs ++ (s ∷ ys)
    → i.read_sockfds s.sockfd ≡ true
    → busy s ≡ false
Watched-idle i xs ys s (so, di, un, rd, mx) tab on = elim (has_busy-append s.sockfd xs s ys refl) [
  | inl t ↦
      let h = rd s.sockfd in
      let t' : has_busy s.sockfd i.serv_arr ≡ true = ap (has_busy s.sockfd) tab ∙ t in ground arith
  | inr b ↦ b
]

-- In a state with the properties of the invariant (sockets not shared, the count right, exactly
-- the idle services watched), with only watched sockets ready, if the first ready service is a
-- datagram service under one of its names and its child gets a pid that no service before it
-- has recorded, the parent's turn records the child and stops watching the socket, and
-- sig_child at the child's end, which takes that one child off the waiting list, restores the
-- table and the count and watches the socket again.
pub round-sig_child :
    (a : Answers) (r : FdSet) (i : Inetd) (xs ys : List Service) (s : Service) (p : ℕ) (ps : List ℕ)
    → Watched i
    → i.serv_arr ≡ xs ++ (s ∷ ys)
    → ((n : ℕ) → (r n && not (i.read_sockfds n)) ≡ false)
    → any_ready r xs ≡ false
    → r s.sockfd ≡ true
    → is_datagram s ≡ true
    → a.fork ≡ pos (suc p)
    → recorded (pos (suc p)) xs ≡ false
    → (j : Inetd) × (k : Inetd) × (round a r i ≡ again j)
      × (j.serv_arr ≡ xs ++ (launch s p ∷ ys))
      × (j.read_sockfds s.sockfd ≡ false)
      × (sig_child (suc p ∷ ps) j ≡ (k, ps))
      × (k.serv_arr ≡ i.serv_arr)
      × (k.udp_select_conn ≡ i.udp_select_conn)
      × (k.read_sockfds s.sockfd ≡ true)
unfolding round sig_child
round-sig_child a r i xs ys s p ps w tab sub quiet on dg f new =
    let u = i.udp_select_conn in
    let done : scan a r i.serv_arr u ≡ parent (xs ++ (launch s p ∷ ys)) (u +ℤ pos 1) =
      ap (λ z. scan a r z u) tab
      ∙ scan-append a r s ys u p xs (s ∷ ys) (launch s p ∷ ys) (u +ℤ pos 1) quiet
          (scan_first a r s ys u p dg on f) in
    let j : Inetd = record i {
      serv_arr = xs ++ (launch s p ∷ ys);
      read_sockfds = rearm (xs ++ (launch s p ∷ ys)) (u +ℤ pos 1) r;
      udp_select_conn = u +ℤ pos 1;
    } in
    let e : round a r i ≡ again j = ap (finish i r) done in
    let (so, di, un, rd, mx) = round-Watched a r i j sub w e in
    let (so0, di0, un0, rd0, mx0) = w in
    let idle : s.child_pid ≡ pos 0 =
      idle_pid s dg (Watched-idle i xs ys s w tab (let h = sub s.sockfd in ground arith)) in
    let unwatched : j.read_sockfds s.sockfd ≡ false =
      elim (has_busy-append s.sockfd xs (launch s p) ys refl) [
        | inl t ↦ (let h = rd s.sockfd in ground arith)
        | inr b ↦ (let t : s.sock_type ≡ 1 = ground arith in ground arith)
      ] in
    let back =
      release-append (pos (suc p)) xs (launch s p ∷ ys) (s ∷ ys) s.sockfd new
        (release_first p s ys idle) in
    (
      j,
      freed j (some (xs ++ (s ∷ ys), s.sockfd)),
      e,
      refl,
      unwatched,
      ap (λ o. (freed j o, ps)) back,
      sym tab,
      +ℤ_cancel u (pos 1),
      ground arith,
    )
