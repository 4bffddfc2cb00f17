-- ===== src/AsyncIo/Wakeup.antt =====
-- No input is lost, and no signal for it.
use mathlib.Core.Bool.{true≢false}
use mathlib.Core.List.{append_assoc}
use unix_network_programming.Base.{
  ◌≡◌, ◌≢◌, ◌⊎◌, inl, inr, refl, sym, ap, ◌∙◌, Bool, true, false, [], ◌∷◌, ◌++◌,
}
use unix_network_programming.Transfer.{Bytes}
use unix_network_programming.AsyncIo.{
  Place, block, test, suspended, read_in, writing, clear, unblock, returned, Sys, sys, Step,
  arrives, ends, sigio_func, wakes, blocks, sleeps, goes_on, reads, reads_end, writes, clears,
  unblocks, Reach, here, after, start,
}

-- The bytes between read() and write().
abbrev in_hand : Place → Bytes
in_hand (writing bs) = bs
in_hand _ = []

-- SIGIO is blocked from the test on to SIG_SETMASK.
abbrev Masked : Place → Bool → Type 0
Masked block b = b ≡ false
Masked p b = b ≡ true

-- Asleep, sigflag is 0; behind the loop it is 1 up to `sigflag = 0`.
abbrev FlagAt : Place → Bool → Type 0
FlagAt suspended f = f ≡ false
FlagAt _ f = Unit

-- There is a signal for what is not read: pending, or noted in sigflag ahead of the read. Behind the
-- read only a signal that is pending counts, since sigflag is cleared.
abbrev Noted : Place → (pending sigflag : Bool) → Type 0
Noted (writing bs) s f = s ≡ true
Noted clear s f = s ≡ true
Noted unblock s f = s ≡ true
Noted p s f = (s ≡ true) ⊎ (f ≡ true)

-- Nothing is left to read, a signal is there for it, or the last read() left something behind.
abbrev Covered : Place → (pending sigflag : Bool) → (left unread : Bytes) → Type 0
Covered p s f n u = (u ≡ []) ⊎ Noted p s f ⊎ (n ≢ [])

data Sound : Sys → Type 0 where
  sound :
      {p : Place} {b s f e : Bool} {n : Bytes} {i u o : Bytes}
      → Masked p b
      → FlagAt p f
      → Covered p s f n u
      → i ≡ o ++ (in_hand p ++ u)
      → Sound (sys p b s f n i u o e)

signalled : (p : Place) (f : Bool) → Noted p true f
signalled block f = inl refl
signalled test f = inl refl
signalled suspended f = inl refl
signalled read_in f = inl refl
signalled (writing bs) f = refl
signalled clear f = refl
signalled unblock f = refl
signalled returned f = inl refl

read_leaves : (xs : Bytes) (s : Bool) (ys : Bytes) → Covered (writing xs) s true ys ys
read_leaves xs s [] = inl refl
read_leaves xs s (y ∷ ys) = inr (inr (λ e. cc))

-- The handler runs where SIGIO is let in, ahead of the test.
handled :
    (p : Place) (n : Bytes) (u : Bytes) → Masked p false → FlagAt p true × Covered p false true n u
handled block n u m = (tt, inr (inl (inr refl)))
handled test n u m = absurd (true≢false (sym m))
handled suspended n u m = absurd (true≢false (sym m))
handled read_in n u m = absurd (true≢false (sym m))
handled (writing bs) n u m = absurd (true≢false (sym m))
handled clear n u m = absurd (true≢false (sym m))
handled unblock n u m = absurd (true≢false (sym m))
handled returned n u m = absurd (true≢false (sym m))

later : {s f : Bool} {n : Bytes} {u : Bytes} → Covered unblock s f n u → Covered block s f n u
later (inl h) = inl h
later (inr (inl h)) = inr (inl (inl h))
later (inr (inr h)) = inr (inr h)

Sound-Step : (s t : Sys) → Step s t → Sound s → Sound t
Sound-Step _ _ (arrives {p = p} {f = f} {u = u} {o = o} {bs = bs} ne) (sound m g c e) =
    sound m g (inr (inl (signalled p f))) (
      ap (λ z. z ++ bs) e
      ∙ append_assoc o (in_hand p ++ u) bs
      ∙ ap (λ z. o ++ z) (append_assoc (in_hand p) u bs))
Sound-Step _ _ (ends {p = p} {f = f}) (sound m g c e) = sound m g (inr (inl (signalled p f))) e
Sound-Step _ _ (sigio_func {p = p} {n = n} {u = u}) (sound m g c e) =
    sound m (handled p n u m).0 (handled p n u m).1 e
Sound-Step _ _ wakes (sound m g c e) = sound m tt (inr (inl (inr refl))) e
Sound-Step _ _ blocks (sound m g c e) = sound refl tt c e
Sound-Step _ _ sleeps (sound m g c e) = sound m refl c e
Sound-Step _ _ goes_on (sound m g c e) = sound m tt c e
Sound-Step _ _ (reads {s = s} {xs = xs} {ys = ys} {o = o} split ne l) (sound m g c e) =
    sound m tt (read_leaves xs s ys) (e ∙ ap (λ z. o ++ z) split)
Sound-Step _ _ reads_end (sound m g c e) = sound m tt (inl refl) e
Sound-Step _ _ (writes {u = u} {o = o} {bs = bs}) (sound m g c e) =
    sound m tt c (e ∙ sym (append_assoc o bs u))
Sound-Step _ _ clears (sound m g c e) = sound m tt c e
Sound-Step _ _ unblocks (sound m g c e) = sound refl tt (later c) e

Sound-Reach : (t : Sys) → Reach start t → Sound t
Sound-Reach _ here = sound {e = false} {o = []} refl tt (inl refl) refl
Sound-Reach _ (after {t = t} {t' = t'} r h) = Sound-Step t t' h (Sound-Reach t r)

-- The signal that gets the process out of sigsuspend(), or the read() that left something.
woken_by :
    (s f : Bool) (n : Bytes) (u : Bytes)
    → f ≡ false
    → Covered suspended s f n u
    → (u ≡ []) ⊎ (s ≡ true) ⊎ (n ≢ [])
woken_by s f n u g (inl h) = inl h
woken_by s f n u g (inr (inl (inl h))) = inr (inl h)
woken_by s f n u g (inr (inl (inr h))) = absurd (true≢false (sym h ∙ g))
woken_by s f n u g (inr (inr h)) = inr (inr h)

-- What holds of the process asleep in sigsuspend().
abbrev pub Asleep : Sys → Type 0
Asleep (sys p b s f n i u o e) = (b ≡ true) × (i ≡ o ++ u) × ((u ≡ []) ⊎ (s ≡ true) ⊎ (n ≢ []))

Sound-Asleep :
    {b s f e : Bool} {n : Bytes} {i u o : Bytes}
    → Sound (sys suspended b s f n i u o e)
    → Asleep (sys suspended b s f n i u o e)
Sound-Asleep (sound {s = s} {f = f} {n = n} {u = u} m g c e) = (m, e, woken_by s f n u g c)

-- Whatever steps the process and the system have taken, when the process sleeps in sigsuspend() all
-- that came in and is not written is still to be read, and either that is nothing, or a SIGIO is
-- pending and ends the sleep, or the last read() left some of it behind.
pub Reach-Asleep :
    (b s f e : Bool) (n : Bytes) (i u o : Bytes)
    → Reach start (sys suspended b s f n i u o e)
    → Asleep (sys suspended b s f n i u o e)
Reach-Asleep b s f e n i u o r = Sound-Asleep (Sound-Reach (sys suspended b s f n i u o e) r)
