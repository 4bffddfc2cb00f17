-- ===== src/Datagram/OneClient.antt =====
-- The programs dg_echo and dg_dis talk to one port only.
use mathlib.Core.Path.{subst}
use unix_network_programming.Base.{
  ℕ, zero, suc, ◌<◌, ◌≡◌, refl, sym, ap, ◌∙◌, ◌⊎◌, inl, inr, Bool-cases, true, false, List, [], ◌∷◌,
  ◌++◌, ◌==◌, if◌then◌else◌, length, take, arith,
}
use unix_network_programming.Datagram.{
  Datagram, Came, came, recv_failed, sleeps, Went, went, send_failed, Socket, RecvLaw, SendLaw,
  IsSocket, Serving, waiting, closed, failed, out_of_fuel, on_sendto, Vars, take_in, remember,
  skipped, is_command, udp_cmd, udp_dis, closing, counted, answer_echo, service_turn,
  dg_echo_service, whichever, to_client, answer_dis, say_closing, dis_turn, dg_dis_service,
}

-- The addresses have the port.
abbrev pub AllTo : ℕ → List Datagram → Type 0
AllTo p [] = Unit
AllTo p (d ∷ ds) = (d.addr.sin_port ≡ p) × AllTo p ds

AllTo-snoc :
    (p : ℕ) (ds : List Datagram) (d : Datagram)
    → AllTo p ds
    → d.addr.sin_port ≡ p
    → AllTo p (ds ++ (d ∷ []))
AllTo-snoc p [] d h e = (e, tt)
AllTo-snoc p (x ∷ ds) d (h, hs) e = (h, AllTo-snoc p ds d hs e)

module _ (k : Socket) (laws : IsSocket k) where
  abbrev pub SentTo : ℕ → Serving k → Type 0
  SentTo p (waiting s) = AllTo p (k.sent s)
  SentTo p (closed s) = AllTo p (k.sent s)
  SentTo p (failed s) = AllTo p (k.sent s)
  SentTo p (out_of_fuel s) = AllTo p (k.sent s)

  -- Ahead of the first answer the first datagram is still to come; then its port is remembered.
  abbrev First : ℕ → Vars k → k.State → Type 0
  First p v s =
      ((v.msgcnt ≡ 0)
        × ((d : Datagram) (ds : List Datagram) → k.incoming s ≡ d ∷ ds → d.addr.sin_port ≡ p))
      ⊎ ((0 < v.msgcnt) × (v.first_client.sin_port ≡ p))

  abbrev Keeps : ℕ → (Vars k → k.State → Serving k) → Type 0
  Keeps p next = (v : Vars k) (s : k.State) → AllTo p (k.sent s) → First p v s → SentTo p (next v s)

  -- A datagram is passed over, or comes from the port.
  abbrev Sorted : ℕ → Vars k → k.State → Type 0
  Sorted p w s =
      ((skipped k w ≡ true) × First p w s)
      ⊎ ((skipped k w ≡ false) × (w.pcli_addr.sin_port ≡ p) × (w.first_client.sin_port ≡ p))

  by_port :
      (p : ℕ) (w : Vars k) (s : k.State) → 0 < w.msgcnt → w.first_client.sin_port ≡ p → Sorted p w s
  by_port p w s h e =
      let c : (w.msgcnt == 0) ≡ false = ground arith in
      elim (Bool-cases (w.first_client.sin_port == w.pcli_addr.sin_port)) [
        | inl y ↦ inr (rw (c, y) refl, (let z : w.pcli_addr.sin_port ≡ p = ground arith in z), e)
        | inr y ↦ inl (rw (c, y) refl, inr (h, e))
      ]

  sort :
      (p : ℕ) (v : Vars k) (d : Datagram) (s s' : k.State)
      → First p v s
      → RecvLaw k 2048 s (came d s')
      → Sorted p (remember k (take_in k d v)) s'
  sort p v d s s' (inl (z, first)) (full, l, c, m) =
      let port : d.addr.sin_port ≡ p = ap (λ x. x.addr.sin_port) c ∙ first full (k.incoming s') l in
      rw (z) (inr (refl, port, port))
  sort p v d s s' (inr (h, e)) l =
      let c : (v.msgcnt == 0) ≡ false = ground arith in rw (c) (by_port p (take_in k d v) s' h e)

  on_sendto-SentTo :
      (p : ℕ) (next : k.State → Serving k) (d : Datagram) (s : k.State) (r : Went k.State)
      → d.addr.sin_port ≡ p
      → AllTo p (k.sent s)
      → ((s' : k.State) → AllTo p (k.sent s') → SentTo p (next s'))
      → SendLaw k d s r
      → SentTo p (on_sendto k next r)
  on_sendto-SentTo p next d s (went s') e a ih (l, m) =
      ih s' (subst (AllTo p) (sym l) (AllTo-snoc p (k.sent s) d a e))
  on_sendto-SentTo p next d s (send_failed s') e a ih (l, m) = subst (AllTo p) (sym l) a

  answer_echo-SentTo :
      (p n : ℕ) (next : Vars k → k.State → Serving k) (w : Vars k) (s : k.State)
      → Keeps p next
      → AllTo p (k.sent s)
      → w.pcli_addr.sin_port ≡ p
      → w.first_client.sin_port ≡ p
      → SentTo p (answer_echo k next n w s)
  answer_echo-SentTo p n next w s ih a e f = elim (Bool-cases (is_command udp_cmd w.mesg)) [
    | inl y ↦ rw (y) a
    | inr y ↦
        let d : Datagram = record { content = take n w.mesg; addr = w.pcli_addr } in
        rw (y) (
          on_sendto-SentTo p (next (counted k w)) d s (k.sendto d s) e a
            (λ s' a'. ih (counted k w) s' a' (inr (omega arith, f))) (laws.sends d s))
  ]

  -- Behind a failed recvfrom() the address is the last one.
  failing-SentTo :
      (p : ℕ) (next : Vars k → k.State → Serving k) (v : Vars k) (s s' : k.State)
      → Keeps p next
      → First p v s
      → AllTo p (k.sent s')
      → k.incoming s' ≡ k.incoming s
      → SentTo p (if skipped k (remember k v) then next (remember k v) s' else failed s')
  failing-SentTo p next v s s' ih (inl (z, first)) a same = rw (z) a
  failing-SentTo p next v s s' ih (inr (h, e)) a same =
      let c : (v.msgcnt == 0) ≡ false = ground arith in
      rw (c) (elim (Bool-cases (v.first_client.sin_port == v.pcli_addr.sin_port)) [
        | inl y ↦ rw (c, y) a
        | inr y ↦ rw (c, y) (ih v s' a (inr (h, e)))
      ])

  service_turn-SentTo :
      (p : ℕ) (next : Vars k → k.State → Serving k) (v : Vars k) (s : k.State) (r : Came k.State)
      → Keeps p next
      → AllTo p (k.sent s)
      → First p v s
      → RecvLaw k 2048 s r
      → SentTo p (service_turn k next v s r)
  service_turn-SentTo p next v s sleeps ih a f l = a
  service_turn-SentTo p next v s (recv_failed s') ih a f (l, m) =
      failing-SentTo p next v s s' ih f (subst (AllTo p) (sym m) a) l
  service_turn-SentTo p next v s (came d s') ih a f l =
      let w = remember k (take_in k d v) in
      let a' : AllTo p (k.sent s') = subst (AllTo p) (sym l.3) a in
      elim (sort p v d s s' f l) [
        | inl (passed, g) ↦ rw (passed) (ih w s' a' g)
        | inr (taken, e, g) ↦
            rw (taken) (answer_echo-SentTo p (length d.content) next w s' ih a' e g)
      ]

  whichever-AllTo :
      (p : ℕ) (d : Datagram) (s : k.State) (r : Went k.State)
      → d.addr.sin_port ≡ p
      → AllTo p (k.sent s)
      → SendLaw k d s r
      → AllTo p (k.sent (whichever k r))
  whichever-AllTo p d s (went s') e a (l, m) =
      subst (AllTo p) (sym l) (AllTo-snoc p (k.sent s) d a e)
  whichever-AllTo p d s (send_failed s') e a (l, m) = subst (AllTo p) (sym l) a

  say_closing-AllTo :
      (p n : ℕ) (w : Vars k) (s : k.State)
      → w.pcli_addr.sin_port ≡ p
      → AllTo p (k.sent s)
      → AllTo p (k.sent (say_closing k n w s))
  say_closing-AllTo p zero w s e a =
      let d = to_client k closing w in whichever-AllTo p d s (k.sendto d s) e a (laws.sends d s)
  say_closing-AllTo p (suc n) w s e a = a

  answer_dis-SentTo :
      (p : ℕ) (next : Vars k → k.State → Serving k) (w : Vars k) (s : k.State)
      → Keeps p next
      → AllTo p (k.sent s)
      → w.pcli_addr.sin_port ≡ p
      → w.first_client.sin_port ≡ p
      → SentTo p (answer_dis k next w s)
  answer_dis-SentTo p next w s ih a e f = elim (Bool-cases (is_command udp_dis w.mesg)) [
    | inl y ↦
        let d = to_client k closing w in
        rw (y) (on_sendto-SentTo p closed d s (k.sendto d s) e a (λ s' a'. a') (laws.sends d s))
    | inr y ↦
        let d = to_client k [] w in
        rw (y) (
          on_sendto-SentTo p (next (counted k w)) d s (k.sendto d s) e a
            (λ s' a'. ih (counted k w) s' a' (inr (omega arith, f))) (laws.sends d s))
  ]

  dis_turn-SentTo :
      (p : ℕ) (next : Vars k → k.State → Serving k) (v : Vars k) (s : k.State) (r : Came k.State)
      → Keeps p next
      → AllTo p (k.sent s)
      → First p v s
      → RecvLaw k 2048 s r
      → SentTo p (dis_turn k next v s r)
  dis_turn-SentTo p next v s sleeps ih a f l = a
  dis_turn-SentTo p next v s (recv_failed s') ih a f (l, m) =
      failing-SentTo p next v s s' ih f (subst (AllTo p) (sym m) a) l
  dis_turn-SentTo p next v s (came d s') ih a f l =
      let w = remember k (take_in k d v) in
      let a' : AllTo p (k.sent s') = subst (AllTo p) (sym l.3) a in
      elim (sort p v d s s' f l) [
        | inl (passed, g) ↦ rw (passed) (ih w s' a' g)
        | inr (taken, e, g) ↦ rw (taken) (
            answer_dis-SentTo p next w (say_closing k (length d.content) w s') ih
              (say_closing-AllTo p (length d.content) w s' e a') e g)
      ]

  dg_echo_service-Keeps : (p fuel : ℕ) → Keeps p (dg_echo_service k fuel)
  unfolding dg_echo_service
  dg_echo_service-Keeps p zero v s a f = a
  dg_echo_service-Keeps p (suc n) v s a f =
      service_turn-SentTo p (dg_echo_service k n) v s (k.recvfrom 2048 s)
        (dg_echo_service-Keeps p n) a f (laws.receives 2048 s)

  dg_dis_service-Keeps : (p fuel : ℕ) → Keeps p (dg_dis_service k fuel)
  unfolding dg_dis_service
  dg_dis_service-Keeps p zero v s a f = a
  dg_dis_service-Keeps p (suc n) v s a f =
      dis_turn-SentTo p (dg_dis_service k n) v s (k.recvfrom 2048 s) (dg_dis_service-Keeps p n) a f
        (laws.receives 2048 s)

  -- Started with a count of 0 and nothing sent, however many turns they make and wherever they end,
  -- dg_echo and dg_dis have sent datagrams only to addresses with the port of the first datagram.
  pub services-SentTo :
      (fuel : ℕ) (v : Vars k) (s : k.State) (d : Datagram) (ds : List Datagram)
      → v.msgcnt ≡ 0
      → k.sent s ≡ []
      → k.incoming s ≡ d ∷ ds
      → SentTo d.addr.sin_port (dg_echo_service k fuel v s)
        × SentTo d.addr.sin_port (dg_dis_service k fuel v s)
  services-SentTo fuel v s d ds z e i =
      let none_sent : AllTo d.addr.sin_port (k.sent s) = subst (AllTo d.addr.sin_port) (sym e) tt in
      let first : First d.addr.sin_port v s =
        inl (z, λ d' ds' i'. (let h : d' ≡ d = cc in ap (λ x. x.addr.sin_port) h)) in
      (
        dg_echo_service-Keeps d.addr.sin_port fuel v s none_sent first,
        dg_dis_service-Keeps d.addr.sin_port fuel v s none_sent first,
      )
