-- ===== src/Stream/Echo.antt =====
-- What an echo server sends back.
use mathlib.Core.List.{append-nil, append_assoc}
use unix_network_programming.Base.{
  ℕ, zero, suc, ◌+◌, ◌≤◌, ◌<◌, ◌≡◌, ◌≢◌, refl, sym, ◌∙◌, ap, true, false, List, [], ◌∷◌, ◌++◌,
  arith, ◌==◌, length, take, length-append,
}
use unix_network_programming.CString.{Bytes}
use unix_network_programming.Stream.{
  Socket, read_failed, IsSocket, Filled, filled, readline, Served, finished, echo_line, str_echo,
}
use unix_network_programming.Stream.Readline.{
  NoNewline, Line, newline, at_end, full, error, readline-Line, end_ret,
}
use unix_network_programming.Stream.Writen.{AlwaysWrites, writen_all}

-- Lines that end in a newline and fit into the array of 512 bytes.
abbrev pub Lines : List Bytes → Type 0
Lines [] = Unit
Lines (l ∷ ls) = (NoNewline l × (length l < 511)) × Lines ls

-- The bytes of the lines, each with its newline.
abbrev pub join_lines : List Bytes → Bytes
join_lines [] = []
join_lines (l ∷ ls) = l ++ b'\n' ∷ join_lines ls

cons-tail : (x y : ℕ) (s t : Bytes) → x ∷ s ≡ y ∷ t → s ≡ t
cons-tail x y s t e = cc

-- The first newline splits a text in one way.
split_unique :
    (u t v w : Bytes)
    → NoNewline u
    → NoNewline t
    → u ++ b'\n' ∷ v ≡ t ++ b'\n' ∷ w
    → (u ≡ t) × (v ≡ w)
split_unique [] [] v w hu ht e = (refl, cc)
split_unique [] (c ∷ t) v w hu ht e = absurd (ht.0 (cc))
split_unique (c ∷ u) [] v w hu ht e = absurd (hu.0 (cc))
split_unique (c ∷ u) (d ∷ t) v w hu ht e =
    let (same, rest) = split_unique u t v w hu.1 ht.1 (cc) in (cc, rest)

-- A text with no newline is no longer than the line that it begins.
prefix_short : (u t v w : Bytes) → NoNewline u → u ++ v ≡ t ++ b'\n' ∷ w → length u ≤ length t
prefix_short [] t v w hu e = omega arith
prefix_short (c ∷ u) [] v w hu e = absurd (hu.0 (cc))
prefix_short (c ∷ u) (d ∷ t) v w hu e = omega (arith, prefix_short u t v w hu.1 (cc))

whole_line-ne : (u t w : Bytes) → NoNewline u → u ≢ t ++ b'\n' ∷ w
whole_line-ne [] [] w hu e = cc
whole_line-ne [] (d ∷ t) w hu e = cc
whole_line-ne (c ∷ u) [] w hu e = hu.0 (cc)
whole_line-ne (c ∷ u) (d ∷ t) w hu e = whole_line-ne u t w hu.1 (cc)

pub take_stored : (b : Bytes) → take (length b) (b ++ 0 ∷ []) ≡ b
take_stored [] = refl
take_stored (c ∷ b) = ap (λ x. c ∷ x) (take_stored b)

pub ==_refl : (n : ℕ) → (n == n) ≡ true
==_refl n = ground arith

succ_ne : (n : ℕ) → (1 + n == 0) ≡ false
succ_ne n = ground arith

two_ne : (n : ℕ) → (2 + n == 0) ≡ false
two_ne n = ground arith

take_whole : (b : Bytes) (n : ℕ) → length b ≡ n → take n b ≡ b
take_whole [] zero h = refl
take_whole [] (suc n) h = refl
take_whole (c ∷ b) zero h = absurd (omega arith)
take_whole (c ∷ b) (suc n) h = ap (λ x. c ∷ x) (take_whole b n (omega arith))

module _ (k : Socket) (laws : IsSocket k) where
  -- No read() fails.
  abbrev pub AlwaysReads : Type 0
  AlwaysReads = (n : ℕ) (t t' : k.State) → k.read n t ≢ read_failed t'

  -- readline gets the first of the lines, counted with its newline.
  pub readline_first :
      AlwaysReads
      → (l rest : Bytes) (s : k.State) → NoNewline l
      → length l < 511
      → k.pending s ≡ l ++ b'\n' ∷ rest
      → (s' : k.State) × (readline k 512 s ≡ filled (1 + length l) (l ++ b'\n' ∷ []) s')
        × (k.pending s' ≡ rest)
        × (k.written s' ≡ k.written s)
  readline_first always l rest s nl short p = go (readline k 512 s) (readline-Line k laws 512 s)
    where
      go :
          (r : Filled k)
          → Line k laws 511 1 [] s r
          → (s' : k.State) × (r ≡ filled (1 + length l) (l ++ b'\n' ∷ []) s')
            × (k.pending s' ≡ rest)
            × (k.written s' ≡ k.written s)
      go r (newline text s' o nn lt p' w e) =
          let (same, others) = split_unique text l (k.pending s') rest nn nl (sym p' ∙ p) in
          (s', e ∙ ap (λ t. filled (1 + length t) (t ++ b'\n' ∷ []) s') same, others, w)
      go r (at_end text s' o nn lt p' pe w e) = absurd (whole_line-ne text l rest nn (sym p' ∙ p))
      go r (full text s' o nn len p' w e) =
          absurd (omega (arith, prefix_short text l (k.pending s') rest nn (sym p' ∙ p)))
      go r (error text s' o t bad p' w e) = absurd (always 1 t s' bad)

  empty_of_append : (u v : Bytes) → [] ≡ u ++ v → u ≡ []
  empty_of_append [] v e = refl
  empty_of_append (c ∷ u) v e = cc

  -- At the end of the input readline returns 0.
  readline_none :
      AlwaysReads
      → (s : k.State) → k.pending s ≡ []
      → (s' : k.State) × (readline k 512 s ≡ filled 0 [] s')
        × (k.pending s' ≡ [])
        × (k.written s' ≡ k.written s)
  readline_none always s p = go (readline k 512 s) (readline-Line k laws 512 s)
    where
      go :
          (r : Filled k)
          → Line k laws 511 1 [] s r
          → (s' : k.State) × (r ≡ filled 0 [] s')
            × (k.pending s' ≡ [])
            × (k.written s' ≡ k.written s)
      go r (newline text s' o nn lt p' w e) =
          absurd (whole_line-ne [] text (k.pending s') tt (sym p ∙ p'))
      go r (at_end text s' o nn lt p' pe w e) =
          let none_left : text ≡ [] = sym p' ∙ p in
          (s', e ∙ ap (λ t. filled (end_ret (1 + length t)) t s') none_left, pe, w)
      go r (full text s' o nn len p' w e) =
          let none_left : text ≡ [] = empty_of_append text (k.pending s') (sym p ∙ p') in
          absurd (omega (arith, ap (λ (t : Bytes). length t) none_left))
      go r (error text s' o t bad p' w e) = absurd (always 1 t s' bad)

  -- One line that is read is written back, and the loop goes on.
  echo_line_next :
      AlwaysWrites k laws
      → (next : k.State → Served k) (b : Bytes) (s : k.State)
      → (s' : k.State) × (echo_line k next (length b) b s ≡ next s')
        × (k.written s' ≡ k.written s ++ b)
        × (k.pending s' ≡ k.pending s)
  unfolding echo_line
  echo_line_next always next b s =
      let (s', e, w, p) = writen_all k laws always b s in
      (s', rw (echo_line, take_stored b, e, ==_refl (length b)), w, p)

  -- On a descriptor whose calls do not fail, str_echo sends back exactly its input, if that is any
  -- number of lines with at most 511 bytes each, its newline counted; it returns at the end of the
  -- input, within one round more than there are lines.
  pub str_echo-Lines :
      AlwaysReads
      → AlwaysWrites k laws
      → (f : ℕ) (ls : List Bytes) (s : k.State) → Lines ls
      → length ls < f
      → k.pending s ≡ join_lines ls
      → (s' : k.State) × (str_echo k f s ≡ finished s')
        × (k.written s' ≡ k.written s ++ join_lines ls)
        × (k.pending s' ≡ [])
  unfolding str_echo
  str_echo-Lines reads writes zero ls s fit h p = absurd (omega arith)
  str_echo-Lines reads writes (suc f) [] s fit h p =
      let (s', e, pe, w) = readline_none reads s p in
      (s', rw (str_echo, e), w ∙ sym (append-nil (k.written s)), pe)
  str_echo-Lines reads writes (suc f) (l ∷ ls) s fit h p =
      let (s1, e1, p1, w1) = readline_first reads l (join_lines ls) s fit.0.0 fit.0.1 p in
      let line : Bytes = l ++ b'\n' ∷ [] in
      let count : 1 + length l ≡ length line = omega (arith, length-append l (b'\n' ∷ [])) in
      let (s2, e2, w2, p2) = echo_line_next writes (str_echo k f) line s1 in
      let (s3, e3, w3, p3) = str_echo-Lines reads writes f ls s2 fit.1 (omega arith) (p2 ∙ p1) in
      (
        s3,
        rw (str_echo, e1, succ_ne (length l))
            (ap (λ n. echo_line k (str_echo k f) n line s1) count ∙ e2 ∙ e3),
        w3
            ∙ ap (λ x. x ++ join_lines ls) (w2 ∙ ap (λ x. x ++ line) w1)
            ∙ append_assoc (k.written s) line (join_lines ls)
            ∙ ap (λ x. k.written s ++ x) (append_assoc l (b'\n' ∷ []) (join_lines ls)),
        p3,
      )

  -- The last text of an input, with no newline behind it.
  readline_last :
      AlwaysReads
      → (c : ℕ) (t : Bytes) (s : k.State) → NoNewline (c ∷ t)
      → length (c ∷ t) < 511
      → k.pending s ≡ c ∷ t
      → (s' : k.State) × (readline k 512 s ≡ filled (2 + length t) (c ∷ t) s')
        × (k.pending s' ≡ [])
        × (k.written s' ≡ k.written s)
  readline_last always c t s nl short p = go (readline k 512 s) (readline-Line k laws 512 s)
    where
      go :
          (r : Filled k)
          → Line k laws 511 1 [] s r
          → (s' : k.State) × (r ≡ filled (2 + length t) (c ∷ t) s')
            × (k.pending s' ≡ [])
            × (k.written s' ≡ k.written s)
      go r (newline text s' o nn lt p' w e) =
          absurd (whole_line-ne (c ∷ t) text (k.pending s') nl (sym p ∙ p'))
      go r (at_end text s' o nn lt p' pe w e) =
          let whole : text ≡ c ∷ t = sym p' ∙ p in
          let count : end_ret (1 + suc (length t)) ≡ 2 + length t = ground arith in
          (
            s',
            e
                ∙ ap (λ u. filled (end_ret (1 + length u)) u s') whole
                ∙ ap (λ n. filled n (c ∷ t) s') count,
            pe,
            w,
          )
      go r (full text s' o nn len p' w e) =
          let whole = ap (λ (u : Bytes). length u) (sym p ∙ p') in
          absurd (omega (arith, whole, length-append text (k.pending s')))
      go r (error text s' o u bad p' w e) = absurd (always 1 u s' bad)

  -- Of an input that is one nonempty text of fewer than 511 bytes with no newline, str_echo sends
  -- back the text and a NUL byte behind it.
  str_echo_unterminated :
      AlwaysReads
      → AlwaysWrites k laws
      → (f c : ℕ) (t : Bytes) (s : k.State) → NoNewline (c ∷ t)
      → length (c ∷ t) < 511
      → 1 < f
      → k.pending s ≡ c ∷ t
      → (s' : k.State) × (str_echo k f s ≡ finished s')
        × (k.written s' ≡ k.written s ++ (c ∷ t ++ 0 ∷ []))
  unfolding str_echo echo_line
  str_echo_unterminated reads writes zero c t s nl short h p = absurd (omega arith)
  str_echo_unterminated reads writes (suc f) c t s nl short h p =
      let (s1, e1, p1, w1) = readline_last reads c t s nl short p in
      let (s2, e2, w2, p2) = writen_all k laws writes (c ∷ t ++ 0 ∷ []) s1 in
      let (s3, e3, w3, p3) = str_echo-Lines reads writes f [] s2 tt (omega arith) (p2 ∙ p1) in
      let count : length (c ∷ t ++ 0 ∷ []) ≡ 2 + length t =
        omega (arith, length-append t (0 ∷ [])) in
      let stored : take (2 + length t) (c ∷ t ++ 0 ∷ []) ≡ c ∷ t ++ 0 ∷ [] =
        take_whole (c ∷ t ++ 0 ∷ []) (2 + length t) count in
      (
        s3,
        rw (str_echo, e1, two_ne (length t), echo_line, stored, e2, count, ==_refl (2 + length t))
            e3,
        w3 ∙ append-nil (k.written s2) ∙ w2 ∙ ap (λ x. x ++ (c ∷ t ++ 0 ∷ [])) w1,
      )
