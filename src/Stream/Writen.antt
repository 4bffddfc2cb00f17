-- ===== src/Stream/Writen.antt =====
-- writen writes everything, or reports that it did not.
use mathlib.Core.List.{append-nil, append_assoc}
use unix_network_programming.Base.{
  ℕ, zero, suc, ◌+◌, ◌<◌, ◌≡◌, ◌≢◌, refl, sym, ◌∙◌, ap, ◌⊎◌, inl, inr, [], ◌∷◌, ◌++◌, arith, length,
  take, drop, length-drop, take-append-drop,
}
use unix_network_programming.CString.{Bytes}
use unix_network_programming.Stream.{
  Wrote, wrote, write_failed, Socket, WriteLaw, IsSocket, Sent, sent, send_failed, send_out_of_fuel,
  writen_loop, writen,
}
use unix_network_programming.Stream.Readn.{positive}

module _ (k : Socket) (laws : IsSocket k) where
  -- A write() of some bytes took none of them, or failed.
  abbrev pub TookNothing : k.State → Type 0
  TookNothing s' = (t : k.State) × (c : ℕ) × (x : Bytes) × (k.write (c ∷ x) t ≡ wrote 0 s')

  abbrev pub Fails : k.State → Type 0
  Fails s' = (t : k.State) × (c : ℕ) × (x : Bytes) × (k.write (c ∷ x) t ≡ write_failed s')

  -- What writing `bs` leaves: a first part of it is written, all of it with the result `n`.
  abbrev pub Writes : ℕ → Bytes → k.State → Sent k → Type 0
  Writes n bs s (sent ret s') =
      (p : Bytes) × (q : Bytes) × (bs ≡ p ++ q)
      × (k.written s' ≡ k.written s ++ p)
      × (k.pending s' ≡ k.pending s)
      × (((ret ≡ n) × (q ≡ [])) ⊎ ((ret ≡ 0) × TookNothing s'))
  Writes n bs s (send_failed s') =
      (p : Bytes) × (q : Bytes) × (bs ≡ p ++ q)
      × (k.written s' ≡ k.written s ++ p)
      × (k.pending s' ≡ k.pending s)
      × Fails s'
  Writes n bs s send_out_of_fuel = ⊥

  Writes-cons :
      (n : ℕ) (bs p q : Bytes) (s s' : k.State) (r : Sent k)
      → bs ≡ p ++ q
      → k.written s' ≡ k.written s ++ p
      → k.pending s' ≡ k.pending s
      → Writes n q s' r
      → Writes n bs s r
  Writes-cons n bs p q s s' (sent ret t) e w pe (p', q', e', w', pe', r') = (
    p ++ p',
    q',
    e ∙ ap (λ x. p ++ x) e' ∙ sym (append_assoc p p' q'),
    w' ∙ ap (λ x. x ++ p') w ∙ append_assoc (k.written s) p p',
    pe' ∙ pe,
    r',
  )
  Writes-cons n bs p q s s' (send_failed t) e w pe (p', q', e', w', pe', r') = (
    p ++ p',
    q',
    e ∙ ap (λ x. p ++ x) e' ∙ sym (append_assoc p p' q'),
    w' ∙ ap (λ x. x ++ p') w ∙ append_assoc (k.written s) p p',
    pe' ∙ pe,
    r',
  )
  Writes-cons n bs p q s s' send_out_of_fuel e w pe h = absurd h

  writen_loop-Writes :
      (f nbytes : ℕ) (bs : Bytes) (s : k.State)
      → length bs < f
      → Writes nbytes bs s (writen_loop k f nbytes bs s)
  unfolding writen_loop
  writen_loop-Writes zero nbytes bs s h = absurd (omega arith)
  writen_loop-Writes (suc f) nbytes [] s h =
      ([], [], refl, sym (append-nil (k.written s)), refl, inl (omega arith, refl))
  writen_loop-Writes (suc f) nbytes (b ∷ bs) s h =
      go (k.write (b ∷ bs) s) refl (laws.writes (b ∷ bs) s) (writen_loop-Writes f nbytes)
    where
      go :
          (r : Wrote k.State)
          → k.write (b ∷ bs) s ≡ r
          → WriteLaw k (b ∷ bs) s r
          → ((rest : Bytes) (t : k.State)
              → length rest < f
              → Writes nbytes rest t (writen_loop k f nbytes rest t))
          → Writes nbytes (b ∷ bs) s (writen_loop k (suc f) nbytes (b ∷ bs) s)
      go (write_failed s') r (pe, w) ih =
          rw (writen_loop, positive (length bs), r)
            ([], b ∷ bs, refl, w ∙ sym (append-nil (k.written s)), pe, (s, b, bs, r))
      go (wrote zero s') r (fits, w, pe) ih =
          rw (writen_loop, positive (length bs), r)
            ([], b ∷ bs, refl, w, pe, inr (refl, (s, b, bs, r)))
      go (wrote (suc m) s') r (fits, w, pe) ih =
          rw (writen_loop, positive (length bs), r)
            (Writes-cons nbytes (b ∷ bs) (take (suc m) (b ∷ bs)) (drop (suc m) (b ∷ bs)) s s' _
              (sym (take-append-drop (suc m) (b ∷ bs))) w pe
              (ih (drop (suc m) (b ∷ bs)) s' (omega (arith, length-drop m bs))))

  -- writen reads nothing, and what it has written at the end is a first part of the bytes, however
  -- write() splits them: all of them if it returns their count; otherwise it returns 0 because a
  -- write() of some bytes took none, or fails because a write() failed.
  writen-Writes : (bs : Bytes) (s : k.State) → Writes (length bs) bs s (writen k bs s)
  unfolding writen
  writen-Writes bs s = writen_loop-Writes (length bs + 1) (length bs) bs s (omega arith)

  -- Every write() of some bytes takes at least one of them.
  abbrev pub AlwaysWrites : Type 0
  AlwaysWrites =
      (c : ℕ) (x : Bytes) (t t' : k.State)
      → (k.write (c ∷ x) t ≢ write_failed t') × (k.write (c ∷ x) t ≢ wrote 0 t')

  -- Such a descriptor gets all the bytes.
  pub writen_all :
      AlwaysWrites
      → (bs : Bytes) (s : k.State)
      → (s' : k.State) × (writen k bs s ≡ sent (length bs) s')
        × (k.written s' ≡ k.written s ++ bs)
        × (k.pending s' ≡ k.pending s)
  writen_all always bs s = go (writen k bs s) (writen-Writes bs s)
    where
      go :
          (r : Sent k)
          → Writes (length bs) bs s r
          → (s' : k.State) × (r ≡ sent (length bs) s')
            × (k.written s' ≡ k.written s ++ bs)
            × (k.pending s' ≡ k.pending s)
      go (sent ret s') (p, q, e, w, pe, inl (is_ret, is_q)) =
          let all : p ≡ bs = sym (e ∙ ap (λ x. p ++ x) is_q ∙ append-nil p) in
          (s', ap (λ n. sent n s') is_ret, w ∙ ap (λ x. k.written s ++ x) all, pe)
      go (sent ret s') (p, q, e, w, pe, inr (is_ret, (t, c, x, bad))) =
          absurd ((always c x t s').1 bad)
      go (send_failed s') (p, q, e, w, pe, (t, c, x, bad)) = absurd ((always c x t s').0 bad)
      go send_out_of_fuel h = absurd h
