-- ===== src/Stream/Readline.antt =====
-- What readline gets, and the number that it returns for it.
use mathlib.Core.Path.{ap₂}
use mathlib.Core.List.{append-nil, append_assoc}
use unix_network_programming.Base.{
  ℕ, zero, suc, ◌+◌, ◌-◌, ◌<◌, ◌≡◌, ◌≢◌, refl, sym, ◌∙◌, ap, inl, inr, [], ◌∷◌, ◌++◌, arith, ◌==◌,
  length, if◌then◌else◌, Bool-cases,
}
use unix_network_programming.CString.{Bytes}
use unix_network_programming.Stream.{
  Got, got, read_failed, Socket, ReadLaw, IsSocket, Filled, filled, failed, readline_loop, readline,
}

-- No newline among the bytes.
abbrev pub NoNewline : Bytes → Type 0
NoNewline [] = Unit
NoNewline (c ∷ s) = (c ≢ b'\n') × NoNewline s

-- The result at the end of the input.
abbrev pub end_ret : ℕ → ℕ
end_ret n = if n == 1 then 0 else n

module _ (k : Socket) (laws : IsSocket k) where
  -- How a loop ends that has `rounds` rounds left and has returned nothing yet: by the newline of a
  -- line, by the end of the input behind a text with no newline, by its last round, or by an error.
  pub data Line (rounds n : ℕ) (buffer : Bytes) (s : k.State) : Filled k → Type 0 where
    newline :
        (text : Bytes) (s' : k.State) (o : Filled k)
        → NoNewline text
        → length text < rounds
        → k.pending s ≡ text ++ b'\n' ∷ k.pending s'
        → k.written s' ≡ k.written s
        → o ≡ filled (n + length text) (buffer ++ (text ++ b'\n' ∷ [])) s'
        → Line rounds n buffer s o
    at_end :
        (text : Bytes) (s' : k.State) (o : Filled k)
        → NoNewline text
        → length text < rounds
        → k.pending s ≡ text
        → k.pending s' ≡ []
        → k.written s' ≡ k.written s
        → o ≡ filled (end_ret (n + length text)) (buffer ++ text) s'
        → Line rounds n buffer s o
    full :
        (text : Bytes) (s' : k.State) (o : Filled k)
        → NoNewline text
        → length text ≡ rounds
        → k.pending s ≡ text ++ k.pending s'
        → k.written s' ≡ k.written s
        → o ≡ filled (n + rounds) (buffer ++ text) s'
        → Line rounds n buffer s o
    error :
        (text : Bytes) (s' : k.State) (o : Filled k) (t : k.State)
        → k.read 1 t ≡ read_failed s'
        → k.pending s ≡ text ++ k.pending s'
        → k.written s' ≡ k.written s
        → o ≡ failed (buffer ++ text) s'
        → Line rounds n buffer s o

  -- A first byte that is no newline, in front of a further run.
  Line-cons :
      (m n : ℕ) (buffer : Bytes) (c : ℕ) (s s' : k.State) (r : Filled k)
      → c ≢ b'\n'
      → k.pending s ≡ c ∷ k.pending s'
      → k.written s' ≡ k.written s
      → Line m (n + 1) (buffer ++ c ∷ []) s' r
      → Line (suc m) n buffer s r
  Line-cons m n buffer c s s' r ne p w (newline text t o nn lt p' w' e) =
      let count : n + 1 + length text ≡ n + length (c ∷ text) = omega arith in
      newline (c ∷ text) t o (ne, nn) (omega arith) (p ∙ ap (λ x. c ∷ x) p') (w' ∙ w)
        (e ∙ ap₂ (λ i x. filled i x t) count (append_assoc buffer (c ∷ []) (text ++ b'\n' ∷ [])))
  Line-cons m n buffer c s s' r ne p w (at_end text t o nn lt p' pe w' e) =
      let count : n + 1 + length text ≡ n + length (c ∷ text) = omega arith in
      at_end (c ∷ text) t o (ne, nn) (omega arith) (p ∙ ap (λ x. c ∷ x) p') pe (w' ∙ w)
        (e ∙ ap₂ (λ i x. filled (end_ret i) x t) count (append_assoc buffer (c ∷ []) text))
  Line-cons m n buffer c s s' r ne p w (full text t o nn lt p' w' e) =
      let count : n + 1 + m ≡ n + suc m = omega arith in
      full (c ∷ text) t o (ne, nn) (omega arith) (p ∙ ap (λ x. c ∷ x) p') (w' ∙ w)
        (e ∙ ap₂ (λ i x. filled i x t) count (append_assoc buffer (c ∷ []) text))
  Line-cons m n buffer c s s' r ne p w (error text t o u bad p' w' e) =
      error (c ∷ text) t o u bad (p ∙ ap (λ x. c ∷ x) p') (w' ∙ w)
        (e ∙ ap (λ x. failed x t) (append_assoc buffer (c ∷ []) text))

  readline_loop-Line :
      (m n : ℕ) (buffer : Bytes) (s : k.State) → Line m n buffer s (readline_loop k m n buffer s)
  unfolding readline_loop
  readline_loop-Line zero n buffer s =
      full [] s _ tt refl refl refl
        (ap₂ (λ i x. filled i x s) (omega arith) (sym (append-nil buffer)))
  readline_loop-Line (suc m) n buffer s =
      go (k.read 1 s) refl (laws.reads 1 s) (readline_loop-Line m (n + 1))
    where
      go :
          (r : Got k.State)
          → k.read 1 s ≡ r
          → ReadLaw k 1 s r
          → ((b : Bytes) (t : k.State) → Line m (n + 1) b t (readline_loop k m (n + 1) b t))
          → Line (suc m) n buffer s (readline_loop k (suc m) n buffer s)
      go (read_failed s') r (p, w) ih =
          error [] s' _ s r (sym p) w
            (rw (readline_loop, r) (ap (λ x. failed x s') (sym (append-nil buffer))))
      go (got [] s') r (done, p, w) ih =
          let ended : k.pending s ≡ [] = done (omega arith) in
          let count : n ≡ n + length {A = ℕ} [] = omega arith in
          at_end [] s' _ tt (omega arith) ended (p ∙ ended) w (
            rw (readline_loop, r)
              (ap₂ (λ i x. filled (end_ret i) x s') count (sym (append-nil buffer))))
      go (got (c ∷ d ∷ bs) s') r (fits, p, w) ih = absurd (omega arith)
      go (got (c ∷ []) s') r (fits, p, w) ih = elim (Bool-cases (c == b'\n')) [
        | inl nl ↦
            let is_nl : c ≡ b'\n' = ground arith in
            let count : n ≡ n + length {A = ℕ} [] = omega arith in
            newline [] s' _ tt (omega arith) (p ∙ ap (λ x. x ∷ k.pending s') is_nl) w (
              rw (readline_loop, r, nl)
                (ap₂ (λ i x. filled i x s') count (ap (λ x. buffer ++ x ∷ []) is_nl)))
        | inr other ↦
            rw (readline_loop, r, other)
              (Line-cons m n buffer c s s' _ (ground arith) p w (ih (buffer ++ c ∷ []) s'))
      ]

  -- readline(maxlen) ends in one of four ways. A line shorter than maxlen - 1 is stored with its
  -- newline and counted exactly. At the end of the input it stores the rest, and returns 0 for
  -- nothing and one more than the bytes stored otherwise. After maxlen - 1 bytes with no newline it
  -- stores them and returns maxlen, one more than it stored. If read() fails it fails, with what it
  -- read before in the buffer, but no count of it. In no case is a byte taken from the input that is
  -- not in the buffer, or anything written.
  pub readline-Line : (maxlen : ℕ) (s : k.State) → Line (maxlen - 1) 1 [] s (readline k maxlen s)
  unfolding readline
  readline-Line maxlen s = readline_loop-Line (maxlen - 1) 1 [] s
