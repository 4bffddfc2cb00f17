-- ===== src/Clients/Session.antt =====
-- str_cli on a socket that delivers the lines that it sends.
use mathlib.Core.List.{append-nil, append_assoc}
use unix_network_programming.Base.{
  ◌+◌, ◌<◌, ◌≡◌, ◌≢◌, refl, sym, ◌∙◌, ap, false, List, [], ◌∷◌, ◌++◌, map, arith, ◌==◌, length,
  length-append,
}
use unix_network_programming.CString.{Bytes}
use unix_network_programming.Stream.{Socket, IsSocket, writen}
use unix_network_programming.Stream.Readline.{NoNewline}
use unix_network_programming.Stream.Writen.{AlwaysWrites, writen_all}
use unix_network_programming.Stream.Echo.{
  Lines, join_lines, AlwaysReads, readline_first, ==_refl, take_stored,
}
use unix_network_programming.Clients.{printed, ended_at, have_sent, Ran, returned, str_cli}

abbrev pub NoNul : Bytes → Type 0
NoNul [] = Unit
NoNul (c ∷ cs) = (c ≢ 0) × NoNul cs

abbrev pub AllNoNul : List Bytes → Type 0
AllNoNul [] = Unit
AllNoNul (l ∷ ls) = NoNul l × AllNoNul ls

-- The lines as fgets() gives them.
abbrev pub texts : List Bytes → List Bytes
texts ls = map (λ l. l ++ b'\n' ∷ []) ls

pub printed-ended : (b : Bytes) → NoNul b → printed (b ++ (0 ∷ [])) ≡ b
printed-ended [] h = refl
printed-ended (c ∷ cs) h =
    let nz : (c == 0) ≡ false = ground (arith, h.0) in
    rw (nz) (ap (λ z. c ∷ z) (printed-ended cs h.1))

-- Bytes without a NUL, as many as were counted, are printed.
printed_all : (b : Bytes) → NoNul b → printed (ended_at (length b) b) ≡ b
printed_all b h = ap (λ z. printed (z ++ (0 ∷ []))) (take_stored b) ∙ printed-ended b h

pub with_newline : (l : Bytes) → NoNul l → NoNul (l ++ b'\n' ∷ [])
with_newline [] h = (λ e. grind arith, tt)
with_newline (c ∷ cs) h = (h.0, with_newline cs h.1)

module _ (k : Socket) (laws : IsSocket k) where
  -- One line is sent, read back and printed.
  str_cli_turn :
      AlwaysReads k laws
      → AlwaysWrites k laws
      → (next : Bytes → k.State → Ran k) (l rest out : Bytes) (s : k.State) → NoNewline l
      → length l < 511
      → NoNul l
      → k.pending s ≡ l ++ b'\n' ∷ rest
      → (s' : k.State) × (have_sent k next out
            (length (l ++ b'\n' ∷ []))
            (writen k (l ++ b'\n' ∷ []) s)
          ≡ next (out ++ (l ++ b'\n' ∷ [])) s')
        × (k.written s' ≡ k.written s ++ (l ++ b'\n' ∷ []))
        × (k.pending s' ≡ rest)
  str_cli_turn reads writes next l rest out s nl short nz p =
      let line : Bytes = l ++ b'\n' ∷ [] in
      let (s1, e1, w1, p1) = writen_all k laws writes line s in
      let (s2, e2, p2, w2) = readline_first k laws reads l rest s1 nl short (p1 ∙ p) in
      let count : 1 + length l ≡ length line = omega (arith, length-append l (b'\n' ∷ [])) in
      let shown : printed (ended_at (1 + length l) line) ≡ line =
        ap (λ n. printed (ended_at n line)) count ∙ printed_all line (with_newline l nz) in
      (s2, rw (e1, ==_refl (length line), e2) (ap (λ z. next (out ++ z) s2) shown), w2 ∙ w1, p2)

  pub str_cli-Lines :
      AlwaysReads k laws
      → AlwaysWrites k laws
      → (ls : List Bytes) (out : Bytes) (s : k.State) → Lines ls
      → AllNoNul ls
      → k.pending s ≡ join_lines ls
      → (s' : k.State) × (str_cli k (texts ls) out s ≡ returned (out ++ join_lines ls) s')
        × (k.written s' ≡ k.written s ++ join_lines ls)
        × (k.pending s' ≡ [])
  unfolding str_cli
  str_cli-Lines reads writes [] out s fit nz p =
      (s, ap (λ z. returned z s) (sym (append-nil out)), sym (append-nil (k.written s)), p)
  str_cli-Lines reads writes (l ∷ ls) out s fit nz p =
      let line : Bytes = l ++ b'\n' ∷ [] in
      let (s1, e1, w1, p1) =
        str_cli_turn reads writes (str_cli k (texts ls)) l (join_lines ls) out s fit.0.0 fit.0.1
          nz.0 p in
      let (s2, e2, w2, p2) = str_cli-Lines reads writes ls (out ++ line) s1 fit.1 nz.1 p1 in
      let joined : line ++ join_lines ls ≡ join_lines (l ∷ ls) =
        append_assoc l (b'\n' ∷ []) (join_lines ls) in
      let onto : (a : Bytes) → (a ++ line) ++ join_lines ls ≡ a ++ join_lines (l ∷ ls) =
        λ a. append_assoc a line (join_lines ls) ∙ ap (λ z. a ++ z) joined in
      (
        s2,
        e1 ∙ e2 ∙ ap (λ z. returned z s2) (onto out),
        w2 ∙ ap (λ z. z ++ join_lines ls) w1 ∙ onto (k.written s),
        p2,
      )
