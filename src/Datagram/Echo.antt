-- ===== src/Datagram/Echo.antt =====
-- dg_echo of the utility routines sends every datagram back.
use mathlib.Core.List.{append-nil, append_assoc}
use mathlib.Core.Path.{subst}
use unix_network_programming.Base.{
  ℕ, zero, suc, ◌<◌, ◌≡◌, refl, sym, ap, ◌∙◌, List, [], ◌∷◌, ◌++◌, map, length, arith,
}
use unix_network_programming.Datagram.{
  Datagram, Came, came, recv_failed, sleeps, Went, went, send_failed, Socket, cut, RecvLaw, SendLaw,
  IsSocket, Serving, waiting, closed, failed, out_of_fuel, on_sendto, echo_turn, dg_echo,
}

module _ (k : Socket) (laws : IsSocket k) where
  -- The answers to the datagrams: all of them where the server waits for more, else those to the
  -- first ones.
  abbrev pub Echoes : List Datagram → List Datagram → Serving k → Type 0
  Echoes before ds (waiting s) = (k.sent s ≡ before ++ map (cut 2048) ds) × (k.incoming s ≡ [])
  Echoes before ds (closed s) = ⊥
  Echoes before ds (failed s) =
      (done : List Datagram) × (rest : List Datagram) × (ds ≡ done ++ rest)
      × (k.sent s ≡ before ++ map (cut 2048) done)
  Echoes before ds (out_of_fuel s) = ⊥

  Echoes-cons :
      (before ds : List Datagram) (d : Datagram) (r : Serving k)
      → Echoes (before ++ (cut 2048 d ∷ [])) ds r
      → Echoes before (d ∷ ds) r
  Echoes-cons before ds d (waiting s) (e, i) =
      (e ∙ append_assoc before (cut 2048 d ∷ []) (map (cut 2048) ds), i)
  Echoes-cons before ds d (closed s) h = h
  Echoes-cons before ds d (failed s) (done, rest, e, h) = (
    d ∷ done,
    rest,
    ap (λ z. d ∷ z) e,
    h ∙ append_assoc before (cut 2048 d ∷ []) (map (cut 2048) done),
  )
  Echoes-cons before ds d (out_of_fuel s) h = h

  -- What a run from a state with these datagrams and these answers comes to.
  abbrev Runs : (k.State → Serving k) → List Datagram → Type 0
  Runs next ds =
      (before : List Datagram) (s : k.State)
      → k.incoming s ≡ ds
      → k.sent s ≡ before
      → Echoes before ds (next s)

  on_sendto-Echoes :
      (next : k.State → Serving k) (ds before : List Datagram) (d : Datagram) (s : k.State)
      (r : Went k.State)
      → Runs next ds
      → k.incoming s ≡ ds
      → k.sent s ≡ before
      → SendLaw k (cut 2048 d) s r
      → Echoes before (d ∷ ds) (on_sendto k next r)
  on_sendto-Echoes next ds before d s (went s') ih i e (l, m) =
      Echoes-cons before ds d (next s')
        (ih (before ++ (cut 2048 d ∷ [])) s' (m ∙ i) (l ∙ ap (λ z. z ++ (cut 2048 d ∷ [])) e))
  on_sendto-Echoes next ds before d s (send_failed s') ih i e (l, m) =
      ([], d ∷ ds, refl, l ∙ e ∙ sym (append-nil before))

  echo_turn-Echoes :
      (next : k.State → Serving k) (ds before : List Datagram) (s : k.State) (r : Came k.State)
      → ((rest : List Datagram) → suc (length rest) ≡ length ds → Runs next rest)
      → k.incoming s ≡ ds
      → k.sent s ≡ before
      → RecvLaw k 2048 s r
      → Echoes before ds (echo_turn k next s r)
  echo_turn-Echoes next ds before s sleeps ih i e l =
      let none_left : ds ≡ [] = sym i ∙ l in
      (e ∙ sym (append-nil before) ∙ ap (λ z. before ++ map (cut 2048) z) (sym none_left), l)
  echo_turn-Echoes next ds before s (recv_failed s') ih i e (l, m) =
      ([], ds, refl, m ∙ e ∙ sym (append-nil before))
  echo_turn-Echoes next ds before s (came d s') ih i e (full, l, c, m) =
      let split : full ∷ k.incoming s' ≡ ds = sym l ∙ i in
      subst (λ z. Echoes before z (on_sendto k next (k.sendto d s'))) split
        (on_sendto-Echoes next (k.incoming s') before full s' (k.sendto d s')
          (ih (k.incoming s') (ap length split)) refl (m ∙ e)
          (subst (λ z. SendLaw k z s' (k.sendto d s')) c (laws.sends d s')))

  echo_loop : (fuel : ℕ) (ds : List Datagram) → length ds < fuel → Runs (dg_echo k fuel) ds
  unfolding dg_echo
  echo_loop zero ds h before s i e = absurd (omega arith)
  echo_loop (suc f) ds h before s i e =
      echo_turn-Echoes (dg_echo k f) ds before s (k.recvfrom 2048 s)
        (λ rest l. echo_loop f rest (omega arith)) i e (laws.receives 2048 s)

  -- With fuel for one turn more than there are datagrams, dg_echo ends up waiting with every
  -- datagram answered by its first 2048 bytes, to the address that it came from and in order, or has
  -- failed with the first ones answered so.
  pub dg_echo-Echoes :
      (s : k.State) → Echoes (k.sent s) (k.incoming s) (dg_echo k (suc (length (k.incoming s))) s)
  dg_echo-Echoes s =
      echo_loop (suc (length (k.incoming s))) (k.incoming s) (omega arith) (k.sent s) s refl refl
