-- ===== src/Stream/Readn.antt =====
-- readn gets everything that was asked for, or all that there is.
use mathlib.Core.List.{append-nil, append_assoc}
use unix_network_programming.Base.{
  ℕ, zero, suc, ◌+◌, ◌-◌, ◌≤◌, ◌<◌, ◌≡◌, refl, sym, ◌∙◌, ap, true, [], ◌∷◌, ◌++◌, arith, ltb,
  length, take, drop, length-append,
}
use unix_network_programming.CString.{Bytes}
use unix_network_programming.Stream.{
  Got, got, read_failed, Socket, ReadLaw, IsSocket, Filled, filled, failed, out_of_fuel, readn_loop,
  readn,
}

take-append :
    (n : ℕ) (xs ys : Bytes) → length xs ≤ n → take n (xs ++ ys) ≡ xs ++ take (n - length xs) ys
take-append n [] ys h = ap (λ m. take m ys) (omega arith)
take-append zero (x ∷ xs) ys h = absurd (omega arith)
take-append (suc n) (x ∷ xs) ys h =
    ap (λ t. x ∷ t) (take-append n xs ys (omega arith) ∙ ap (λ m. xs ++ take m ys) (omega arith))

drop-append : (n : ℕ) (xs ys : Bytes) → length xs ≤ n → drop n (xs ++ ys) ≡ drop (n - length xs) ys
drop-append n [] ys h = ap (λ m. drop m ys) (omega arith)
drop-append zero (x ∷ xs) ys h = absurd (omega arith)
drop-append (suc n) (x ∷ xs) ys h =
    drop-append n xs ys (omega arith) ∙ ap (λ m. drop m ys) (omega arith)

pub positive : (n : ℕ) → ltb 0 (suc n) ≡ true
positive n = ground arith

module _ (k : Socket) (laws : IsSocket k) where
  -- What a call that got `n` of the next bytes leaves: the buffer is behind `buffer`.
  abbrev pub Reads : ℕ → Bytes → k.State → Filled k → Type 0
  Reads n buffer s (filled ret b s') =
      (ret ≡ length b)
      × (b ≡ buffer ++ take n (k.pending s))
      × (k.pending s' ≡ drop n (k.pending s))
      × (k.written s' ≡ k.written s)
  Reads n buffer s (failed b s') =
      ((p : Bytes) × (b ≡ buffer ++ p)
        × (k.pending s ≡ p ++ k.pending s')
        × (k.written s' ≡ k.written s))
  Reads n buffer s out_of_fuel = ⊥

  Reads-none :
      (n ret : ℕ) (buffer : Bytes) (s s' : k.State)
      → ret ≡ length buffer
      → take n (k.pending s) ≡ []
      → drop n (k.pending s) ≡ k.pending s'
      → k.written s' ≡ k.written s
      → Reads n buffer s (filled ret buffer s')
  Reads-none n ret buffer s s' e t d w = (e, rw (t, append-nil), sym d, w)

  -- One answer of read() in front of a further run.
  Reads-cons :
      (n : ℕ) (buffer bs : Bytes) (s s' : k.State) (r : Filled k)
      → length bs ≤ n
      → k.pending s ≡ bs ++ k.pending s'
      → k.written s' ≡ k.written s
      → Reads (n - length bs) (buffer ++ bs) s' r
      → Reads n buffer s r
  Reads-cons n buffer bs s s' (filled ret b t) fits e w (is_ret, is_b, is_p, is_w) = (
    is_ret,
    is_b
        ∙ append_assoc buffer bs (take (n - length bs) (k.pending s'))
        ∙ ap (λ x. buffer ++ x) (sym (ap (take n) e ∙ take-append n bs (k.pending s') fits)),
    is_p ∙ sym (ap (drop n) e ∙ drop-append n bs (k.pending s') fits),
    is_w ∙ w,
  )
  Reads-cons n buffer bs s s' (failed b t) fits e w (p, is_b, is_p, is_w) = (
    bs ++ p,
    is_b ∙ append_assoc buffer bs p,
    e ∙ ap (λ x. bs ++ x) is_p ∙ sym (append_assoc bs p (k.pending t)),
    is_w ∙ w,
  )
  Reads-cons n buffer bs s s' out_of_fuel fits e w h = absurd h

  readn_loop-Reads :
      (f nbytes nleft : ℕ) (buffer : Bytes) (s : k.State)
      → nleft < f
      → length buffer + nleft ≡ nbytes
      → Reads nleft buffer s (readn_loop k f nbytes nleft buffer s)
  unfolding readn_loop
  readn_loop-Reads zero nbytes nleft buffer s h e = absurd (omega arith)
  readn_loop-Reads (suc f) nbytes zero buffer s h e =
      Reads-none 0 (nbytes - 0) buffer s s (omega arith) refl refl refl
  readn_loop-Reads (suc f) nbytes (suc nleft) buffer s h e =
      go (k.read (suc nleft) s) refl (laws.reads (suc nleft) s) (readn_loop-Reads f nbytes)
    where
      go :
          (r : Got k.State)
          → k.read (suc nleft) s ≡ r
          → ReadLaw k (suc nleft) s r
          → ((m : ℕ) (b : Bytes) (t : k.State)
              → m < f
              → length b + m ≡ nbytes
              → Reads m b t (readn_loop k f nbytes m b t))
          → Reads (suc nleft) buffer s (readn_loop k (suc f) nbytes (suc nleft) buffer s)
      go (read_failed s') r (p, w) ih =
          rw (readn_loop, positive nleft, r) ([], sym (append-nil buffer), sym p, w)
      go (got [] s') r (done, p, w) ih =
          let at_end : k.pending s ≡ [] = done (omega arith) in
          rw (readn_loop, positive nleft, r)
            (Reads-none (suc nleft) (nbytes - suc nleft) buffer s s' (omega arith)
              (ap (take (suc nleft)) at_end) (ap (drop (suc nleft)) at_end ∙ sym (p ∙ at_end)) w)
      go (got (b ∷ bs) s') r (fits, p, w) ih =
          rw (readn_loop, positive nleft, r)
            (Reads-cons (suc nleft) buffer (b ∷ bs) s s' _ fits p w (
              ih (suc nleft - length (b ∷ bs)) (buffer ++ (b ∷ bs)) s' (omega arith)
                (omega (arith, length-append buffer (b ∷ bs)))))

  -- readn comes back with the next `nbytes` bytes of the input, or with all that is left before its
  -- end, returns their count and leaves the bytes behind them; if read() fails it fails, with some
  -- first bytes of the input consumed, which are in the buffer. It never writes.
  readn-Reads : (nbytes : ℕ) (s : k.State) → Reads nbytes [] s (readn k nbytes s)
  unfolding readn
  readn-Reads nbytes s =
      readn_loop-Reads (nbytes + 1) nbytes nbytes [] s (omega arith) (omega arith)
