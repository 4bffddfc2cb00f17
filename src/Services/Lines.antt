-- ===== src/Services/Lines.antt =====
-- str_echo under inetd is the str_echo of the utility routines, and str_dis only reads.
use mathlib.Core.Path.{subst}
use unix_network_programming.Base.{
  ℕ, zero, suc, ◌+◌, ◌<◌, ◌≡◌, ◌≢◌, false, refl, sym, ap, ◌∙◌, ◌⊎◌, inl, inr, Bool-cases, [], ◌∷◌,
  ◌++◌, ◌==◌, length, length-append, take, arith,
}
use unix_network_programming.CString.{Bytes}
use unix_network_programming.Stream.{
  Socket, IsSocket, Filled, filled, failed, out_of_fuel, sent, readline, writen, Served, finished,
  read_error, write_error, served_out_of_fuel,
}
use unix_network_programming.Stream.Readline.{Line, newline, at_end, full, error, readline-Line}
use unix_network_programming.Services.{
  quit_cmd, is_quit, is_discard, Outcome, ended, quit, discard_line, discard_service,
}

module _ (k : Socket) where
  -- From `s`, some lines have been read that are not the command, and have been sent back.
  pub data Echoed : k.State → k.State → Type 0 where
    here : (s : k.State) → Echoed s s
    line :
        (n : ℕ) (buffer : Bytes) (s s1 s2 t : k.State)
        → readline k 512 s ≡ filled n buffer s1
        → is_quit buffer ≡ false
        → writen k (take n (buffer ++ (0 ∷ []))) s1 ≡ sent n s2
        → Echoed s2 t
        → Echoed s t

  abbrev pub QuitOr : k.State → Served k → Outcome k → Type 0
  QuitOr s r (quit s') =
      (t : k.State) × (n : ℕ) × (buffer : Bytes) × Echoed s t
      × (readline k 512 t ≡ filled n buffer s')
      × (n ≢ 0)
      × (take 8 (buffer ++ (0 ∷ [])) ≡ quit_cmd)
  QuitOr s r (ended r') = r' ≡ r

module _ (k : Socket) (laws : IsSocket k) where
  -- A readline that stores something consumes something, and none writes.
  abbrev Reads : k.State → Filled k → Type 0
  Reads s (filled n buffer s') =
      (k.written s' ≡ k.written s) × ((n ≡ 0) ⊎ (length (k.pending s') < length (k.pending s)))
  Reads s (failed b s') = k.written s' ≡ k.written s
  Reads s out_of_fuel = ⊥

  Line-Reads : (s : k.State) (r : Filled k) → Line k laws 511 1 [] s r → Reads s r
  Line-Reads s r (newline text s' o nn lt p w e) =
      let l : length (k.pending s) ≡ length text + suc (length (k.pending s')) =
        ap length p ∙ length-append text _ in
      subst (Reads s) (sym e) (w, inr (omega arith))
  Line-Reads s r (at_end [] s' o nn lt p pe w e) = subst (Reads s) (sym e) (w, inl refl)
  Line-Reads s r (at_end (c ∷ cs) s' o nn lt p pe w e) =
      let l : length (k.pending s) ≡ suc (length cs) = ap length p in
      let l' : length (k.pending s') ≡ 0 = ap length pe in
      subst (Reads s) (sym e) (w, inr (omega arith))
  Line-Reads s r (full text s' o nn lt p w e) =
      let l : length (k.pending s) ≡ length text + length (k.pending s') =
        ap length p ∙ length-append text _ in
      subst (Reads s) (sym e) (w, inr (omega arith))
  Line-Reads s r (error text s' o t u p w e) = subst (Reads s) (sym e) w

  -- Nothing has been written, and the fuel was enough.
  abbrev pub Silent : k.State → Outcome k → Type 0
  Silent s (quit s') = k.written s' ≡ k.written s
  Silent s (ended (finished s')) = k.written s' ≡ k.written s
  Silent s (ended (read_error s')) = k.written s' ≡ k.written s
  Silent s (ended (write_error s')) = ⊥
  Silent s (ended served_out_of_fuel) = ⊥

  Silent-later :
      (s s' : k.State) (r : Outcome k) → k.written s' ≡ k.written s → Silent s' r → Silent s r
  Silent-later s s' (quit t) e h = h ∙ e
  Silent-later s s' (ended (finished t)) e h = h ∙ e
  Silent-later s s' (ended (read_error t)) e h = h ∙ e
  Silent-later s s' (ended (write_error t)) e h = h
  Silent-later s s' (ended served_out_of_fuel) e h = h

  discard_line-Silent :
      (next : k.State → Outcome k) (s : k.State) (r : Filled k)
      → ((t : k.State) → length (k.pending t) < length (k.pending s) → Silent t (next t))
      → Reads s r
      → Silent s (discard_line k next r)
  discard_line-Silent next s (failed b t) ih h = h
  discard_line-Silent next s out_of_fuel ih h = h
  discard_line-Silent next s (filled n buffer t) ih (w, l) = elim (Bool-cases (n == 0)) [
    | inl y ↦ rw (Silent, discard_line, y) w
    | inr y ↦ elim (Bool-cases (is_discard buffer)) [
      | inl q ↦ rw (Silent, discard_line, y, q) w
      | inr q ↦
          let shorter : length (k.pending t) < length (k.pending s) = ground arith in
          rw (Silent, discard_line, y, q) (Silent-later s t (next t) w (ih t shorter))
    ]
  ]

  discard_loop :
      (fuel : ℕ) (s : k.State) → length (k.pending s) < fuel → Silent s (discard_service k fuel s)
  unfolding discard_service
  discard_loop zero s h = absurd (omega arith)
  discard_loop (suc f) s h =
      discard_line-Silent (discard_service k f) s (readline k 512 s)
        (λ t l. discard_loop f t (omega arith))
        (Line-Reads s (readline k 512 s) (readline-Line k laws 512 s))

  -- With fuel for one round more than there are bytes to come, str_dis ends, by the end of the input,
  -- by the client's command or by a failed read, and has written nothing.
  pub discard_service-Silent :
      (s : k.State) → Silent s (discard_service k (suc (length (k.pending s))) s)
  discard_service-Silent s = discard_loop (suc (length (k.pending s))) s (omega arith)
