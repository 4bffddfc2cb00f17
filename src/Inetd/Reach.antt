-- ===== src/Inetd/Reach.antt =====
-- The scan of inetd.c, the steps of its main loop, and what stays true of its table.
use mathlib.Core.Path.{subst}
use unix_network_programming.Base.{
  ℕ, zero, suc, ◌+◌, ◌≡◌, ◌⊎◌, inl, inr, refl, sym, ap, Bool, true, false, ◌&&◌, List, [], ◌∷◌,
  ◌==◌, if◌then◌else◌, arith,
}
use unix_network_programming.Base.Int.{ℤ, pos, negsuc, ◌+ℤ◌}
use unix_network_programming.Inetd.{Service, FdSet, str_echo, str_dis, dg_echo, dg_dis}
use unix_network_programming.Inetd.Round.{
  Answers, Scan, parent, child, failed, keep, handle, scan, busy, stream, fork_stream, datagram,
  same,
}
use unix_network_programming.Inetd.Watch.{has, has_busy, busy_count, distinct, sound, all_sound}

-- What a scan that ends in the parent has done to the table and the count: one service more is
-- busy, or none.
abbrev pub Launched : List Service → ℤ → List Service → ℤ → Type 0
Launched ss u ss' u' =
    (d : ℕ) × (u' ≡ u +ℤ pos d)
    × (busy_count ss' ≡ busy_count ss + d)
    × (all_sound ss' ≡ true)
    × (distinct ss' ≡ distinct ss)
    × ((n : ℕ) → has n ss' ≡ has n ss)

abbrev pub launch : Service → ℕ → Service
launch s p = record s { child_pid = pos (suc p) }

pub if_cases :
    {A : Type 0} (b : Bool) (x y z : A)
    → (if b then x else y) ≡ z
    → ((b ≡ true) × (x ≡ z)) ⊎ ((b ≡ false) × (y ≡ z))
if_cases true x y z e = inl (refl, e)
if_cases false x y z e = inr (refl, e)

parent_inj : (ss ts : List Service) (u v : ℤ) → parent ss u ≡ parent ts v → (ss ≡ ts) × (u ≡ v)
parent_inj ss ts u v e = (cc, cc)

module _ (ss : List Service) (u : ℤ) (ss' : List Service) (u' : ℤ) where
  keep_step :
      (s : Service) (r : Scan)
      → keep s r ≡ parent ss' u'
      → (ts : List Service) × (r ≡ parent ts u') × (ss' ≡ s ∷ ts)
  keep_step s (parent ts v) e =
      let (a, b) = parent_inj (s ∷ ts) ss' v u' e in (ts, ap (parent ts) b, sym a)
  keep_step s (child c fd) e = cc
  keep_step s failed e = cc

  module _ (a : Answers) (s : Service) where
    fork_step :
        (y : ℤ) (fd : ℕ)
        → fork_stream a y s ss u fd ≡ parent ss' u'
        → parent (s ∷ ss) u ≡ parent ss' u'
    fork_step (negsuc e) fd h = cc
    fork_step (pos zero) fd h = cc
    fork_step (pos (suc p)) fd h = h

    stream_step : (x : ℤ) → stream a x s ss u ≡ parent ss' u' → parent (s ∷ ss) u ≡ parent ss' u'
    stream_step (negsuc e) h = cc
    stream_step (pos fd) h = fork_step a.fork fd h

    datagram_step :
        (y : ℤ)
        → datagram a y s ss u ≡ parent ss' u'
        → (p : ℕ) × (parent (launch s p ∷ ss) (u +ℤ pos 1) ≡ parent ss' u')
    datagram_step (negsuc e) h = cc
    datagram_step (pos zero) h = cc
    datagram_step (pos (suc p)) h = (p, h)

    handle_step :
        (rest : Scan)
        → handle a s ss u rest ≡ parent ss' u'
        → (rest ≡ parent ss' u')
          ⊎ (parent (s ∷ ss) u ≡ parent ss' u')
          ⊎ ((p : ℕ) × ((s.sock_type == 0) ≡ false)
              × (parent (launch s p ∷ ss) (u +ℤ pos 1) ≡ parent ss' u'))
    unfolding handle
    handle_step rest e = elim (if_cases (s.sock_type == 0) _ _ _ e) [
      | inl (t, e1) ↦ elim (if_cases (same s.service str_echo) _ _ _ e1) [
        | inl (_, e2) ↦ inr (inl (stream_step a.accept e2))
        | inr (_, e2) ↦ elim (if_cases (same s.service str_dis) _ _ _ e2) [
          | inl (_, e3) ↦ inr (inl (stream_step a.accept e3))
          | inr (_, e3) ↦ inl e3
        ]
      ]
      | inr (t, e1) ↦ elim (if_cases (same s.service dg_echo) _ _ _ e1) [
        | inl (_, e2) ↦ let (p, h) = datagram_step a.fork e2 in inr (inr (p, t, h))
        | inr (_, e2) ↦ elim (if_cases (same s.service dg_dis) _ _ _ e2) [
          | inl (_, e3) ↦ let (p, h) = datagram_step a.fork e3 in inr (inr (p, t, h))
          | inr (_, e3) ↦ inl e3
        ]
      ]
    ]

Launched-same : (ss : List Service) (u : ℤ) → all_sound ss ≡ true → Launched ss u ss u
unfolding ◌+ℤ◌
Launched-same ss u so = (0, ground arith, omega arith, so, refl, λ n. refl)

Launched-cons :
    (s : Service) (ss ts : List Service) (u v : ℤ)
    → sound s ≡ true
    → Launched ss u ts v
    → Launched (s ∷ ss) u (s ∷ ts) v
unfolding busy_count all_sound distinct has
Launched-cons s ss ts u v so (d, eu, eb, es, ed, eh) =
    (d, eu, ground arith, ground arith, ground (arith, eh s.sockfd), λ n. ground (arith, eh n))

Launched-new :
    (s : Service) (ss : List Service) (u : ℤ) (p : ℕ)
    → (s.sock_type == 0) ≡ false
    → sound s ≡ true
    → busy s ≡ false
    → all_sound ss ≡ true
    → Launched (s ∷ ss) u (launch s p ∷ ss) (u +ℤ pos 1)
unfolding busy_count all_sound distinct has
Launched-new s ss u p t so idle sos = (1, refl, ground arith, ground arith, refl, λ n. refl)

Launched-parent :
    (ss ts xs : List Service) (u v w : ℤ)
    → Launched ss u ts v
    → parent ts v ≡ parent xs w
    → Launched ss u xs w
Launched-parent ss ts xs u v w h e =
    let (e1, e2) = parent_inj ts xs v w e in
    subst (λ z. Launched ss u z w) e1 (subst (λ z. Launched ss u ts z) e2 h)

-- The facts about a table behind its first service.
pub sound_parts :
    (s : Service) (ss : List Service)
    → all_sound (s ∷ ss) ≡ true
    → (sound s ≡ true) × (all_sound ss ≡ true)
unfolding all_sound
sound_parts s ss h = (ground arith, ground arith)

-- A scan that ends in the parent has put at most one datagram service to work, provided that no
-- socket that is ready belongs to a busy one.
pub scan-Launched :
    (a : Answers) (r : FdSet) (ss ts : List Service) (u v : ℤ)
    → all_sound ss ≡ true
    → ((n : ℕ) → (r n && has_busy n ss) ≡ false)
    → scan a r ss u ≡ parent ts v
    → Launched ss u ts v
unfolding scan has_busy
scan-Launched a r [] ts u v so free e = Launched-parent [] [] ts u u v (Launched-same [] u so) e
scan-Launched a r (s ∷ ss) ts u v so free e =
    let (so1, so2) = sound_parts s ss so in
    let later : (n : ℕ) → (r n && has_busy n ss) ≡ false =
      λ n. (let k = free n in ground (arith, k)) in
    let past : keep s (scan a r ss u) ≡ parent ts v → Launched (s ∷ ss) u ts v = λ h.
      (let (xs, g, q) = keep_step ss u ts v s (scan a r ss u) h in
        subst (λ zs. Launched (s ∷ ss) u zs v) (sym q)
          (Launched-cons s ss xs u v so1 (scan-Launched a r ss xs u v so2 later g))) in
    elim (if_cases (r s.sockfd) _ _ _ e) [
      | inr (_, h) ↦ past h
      | inl (on, h) ↦ elim (handle_step ss u ts v a s (keep s (scan a r ss u)) h) [
        | inl h1 ↦ past h1
        | inr (inl h1) ↦ Launched-parent (s ∷ ss) (s ∷ ss) ts u u v (Launched-same (s ∷ ss) u so) h1
        | inr (inr (p, t, h1)) ↦
            let k = free s.sockfd in
            let idle : busy s ≡ false = ground arith in
            Launched-parent (s ∷ ss) (launch s p ∷ ss) ts u (u +ℤ pos 1) v
              (Launched-new s ss u p t so1 idle so2) h1
      ]
    ]
