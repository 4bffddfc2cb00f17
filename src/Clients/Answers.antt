-- ===== src/Clients/Answers.antt =====
-- What dg_cli has sent and printed, however it ends.
use mathlib.Core.List.{append-nil, append_assoc}
use mathlib.Core.Path.{subst}
use unix_network_programming.Base.{suc, ◌≡◌, refl, sym, ap, ◌∙◌, List, [], ◌∷◌, ◌++◌, map, length}
use unix_network_programming.CString.{Bytes}
use unix_network_programming.Transfer.{joined}
use unix_network_programming.Datagram.{
  Addr, Datagram, Came, came, recv_failed, sleeps, Went, went, send_failed, Socket, cut, RecvLaw,
  SendLaw, IsSocket,
}
use unix_network_programming.Clients.{
  printed, ended_at, Asked, all_asked, waiting, send_error, recv_error, have_answer, have_asked,
  dg_cli,
}

-- A line as a datagram to the server, and what is printed of a datagram.
abbrev pub to_server : Addr → Bytes → Datagram
to_server a l = record { content = l; addr = a }

abbrev pub shown : Datagram → Bytes
shown d = let c = (cut 512 d).content in printed (ended_at (length c) c)

module _ (k : Socket) (laws : IsSocket k) (a : Addr) where
  -- Between the states s and t the lines have been sent, and the datagrams `ins` taken and printed.
  abbrev pub Did :
      (s : k.State) (out : Bytes) (lines : List Bytes) (ins : List Datagram)
      → (t : k.State) → Bytes
      → Type 0
  Did s out ls ins t out' =
      (k.sent t ≡ k.sent s ++ map (to_server a) ls)
      × (k.incoming s ≡ ins ++ k.incoming t)
      × (out' ≡ out ++ joined (map shown ins))

  -- The lines of which the first ones are answered and the next is only sent, or not even that.
  abbrev pub Part :
      (s : k.State) (out : Bytes) (lines : List Bytes) (t : k.State) (out' : Bytes) → Type 0
  Part s out ls t out' =
      (done : List Bytes) × (l : Bytes) × (rest : List Bytes) × (ins : List Datagram) × (ls
        ≡ done ++ (l ∷ rest))
      × (length ins ≡ length done)
      × Did s out (done ++ (l ∷ [])) ins t out'

  abbrev pub Unsent :
      (s : k.State) (out : Bytes) (lines : List Bytes) (t : k.State) (out' : Bytes) → Type 0
  Unsent s out ls t out' =
      (done : List Bytes) × (l : Bytes) × (rest : List Bytes) × (ins : List Datagram) × (ls
        ≡ done ++ (l ∷ rest))
      × (length ins ≡ length done)
      × Did s out done ins t out'

  abbrev pub Answered : (s : k.State) (out : Bytes) (lines : List Bytes) → Asked k a → Type 0
  Answered s out ls (all_asked out' t) =
      (ins : List Datagram) × (length ins ≡ length ls) × Did s out ls ins t out'
  Answered s out ls (waiting out' t) = Part s out ls t out' × (k.incoming t ≡ [])
  Answered s out ls (send_error out' t) = Unsent s out ls t out'
  Answered s out ls (recv_error out' t) = Part s out ls t out'

  -- A line that is sent and answered, ahead of others.
  Did-cons :
      (s : k.State) (out : Bytes) (l : Bytes) (ls : List Bytes) (d : Datagram) (ins : List Datagram)
      (s1 t : k.State) (out' : Bytes)
      → k.sent s1 ≡ k.sent s ++ (to_server a l ∷ [])
      → k.incoming s ≡ d ∷ k.incoming s1
      → Did s1 (out ++ shown d) ls ins t out'
      → Did s out (l ∷ ls) (d ∷ ins) t out'
  Did-cons s out l ls d ins s1 t out' es ei (x, i, o) = (
    x
        ∙ ap (λ z. z ++ map (to_server a) ls) es
        ∙ append_assoc (k.sent s) (to_server a l ∷ []) (map (to_server a) ls),
    ei ∙ ap (λ z. d ∷ z) i,
    o ∙ append_assoc out (shown d) (joined (map shown ins)),
  )

  Answered-cons :
      (s : k.State) (out : Bytes) (l : Bytes) (ls : List Bytes) (d : Datagram) (s1 : k.State)
      (r : Asked k a)
      → k.sent s1 ≡ k.sent s ++ (to_server a l ∷ [])
      → k.incoming s ≡ d ∷ k.incoming s1
      → Answered s1 (out ++ shown d) ls r
      → Answered s out (l ∷ ls) r
  Answered-cons s out l ls d s1 (all_asked out' t) es ei (ins, n, h) =
      (d ∷ ins, ap suc n, Did-cons s out l ls d ins s1 t out' es ei h)
  Answered-cons s out l ls d s1 (waiting out' t) es ei ((done, m, rest, ins, e, n, h), none) = (
    (
      l ∷ done,
      m,
      rest,
      d ∷ ins,
      ap (λ z. l ∷ z) e,
      ap suc n,
      Did-cons s out l (done ++ (m ∷ [])) d ins s1 t out' es ei h,
    ),
    none,
  )
  Answered-cons s out l ls d s1 (send_error out' t) es ei (done, m, rest, ins, e, n, h) = (
    l ∷ done,
    m,
    rest,
    d ∷ ins,
    ap (λ z. l ∷ z) e,
    ap suc n,
    Did-cons s out l done d ins s1 t out' es ei h,
  )
  Answered-cons s out l ls d s1 (recv_error out' t) es ei (done, m, rest, ins, e, n, h) = (
    l ∷ done,
    m,
    rest,
    d ∷ ins,
    ap (λ z. l ∷ z) e,
    ap suc n,
    Did-cons s out l (done ++ (m ∷ [])) d ins s1 t out' es ei h,
  )

  -- Only the first line has been sent.
  one_sent :
      (s t : k.State) (out : Bytes) (l : Bytes) (ls : List Bytes)
      → k.sent t ≡ k.sent s ++ (to_server a l ∷ [])
      → k.incoming t ≡ k.incoming s
      → Part s out (l ∷ ls) t out
  one_sent s t out l ls es ei = ([], l, ls, [], refl, refl, (es, sym ei, sym (append-nil out)))

  have_answer-Answered :
      (next : Bytes → k.State → Asked k a) (s s1 : k.State) (out : Bytes) (l : Bytes)
      (ls : List Bytes) (r : Came k.State)
      → ((out : Bytes) (t : k.State) → Answered t out ls (next out t))
      → k.sent s1 ≡ k.sent s ++ (to_server a l ∷ [])
      → k.incoming s1 ≡ k.incoming s
      → RecvLaw k 512 s1 r
      → Answered s out (l ∷ ls) (have_answer k a next out s1 r)
  have_answer-Answered next s s1 out l ls sleeps ih es ei h = (one_sent s s1 out l ls es ei, h)
  have_answer-Answered next s s1 out l ls (recv_failed t) ih es ei (i, x) =
      one_sent s t out l ls (x ∙ es) (i ∙ ei)
  have_answer-Answered next s s1 out l ls (came d t) ih es ei (full, i, c, x) =
      subst
        (λ z.
          Answered s out (l ∷ ls) (next (out ++ printed (ended_at (length z.content) z.content)) t))
        (sym c)
        (Answered-cons s out l ls full t (next (out ++ shown full) t) (x ∙ es) (sym ei ∙ i)
          (ih (out ++ shown full) t))

  have_asked-Answered :
      (next : Bytes → k.State → Asked k a) (s : k.State) (out : Bytes) (l : Bytes) (ls : List Bytes)
      (r : Went k.State)
      → ((out : Bytes) (t : k.State) → Answered t out ls (next out t))
      → SendLaw k (to_server a l) s r
      → Answered s out (l ∷ ls) (have_asked k a next out r)
  have_asked-Answered next s out l ls (went t) ih (x, i) =
      have_answer-Answered next s t out l ls (k.recvfrom 512 t) ih x i (laws.receives 512 t)
  have_asked-Answered next s out l ls (send_failed t) ih (x, i) =
      ([], l, ls, [], refl, refl, (x ∙ sym (append-nil (k.sent s)), sym i, sym (append-nil out)))

  -- However dg_cli ends, it has sent the first of its lines, each as one datagram to the server, and
  -- has printed the datagrams that came in, one for each line that is done, in order of their
  -- arrival, up to their 512th byte or first NUL. If it returns, that is so of all lines; if it sleeps
  -- in recvfrom(), the last line that it sent has no answer and nothing is there; if a call fails, the
  -- process ends with the line of that call unanswered.
  pub dg_cli-Answered :
      (ls : List Bytes) (out : Bytes) (s : k.State) → Answered s out ls (dg_cli k a ls out s)
  unfolding dg_cli
  dg_cli-Answered [] out s = ([], refl, (sym (append-nil (k.sent s)), refl, sym (append-nil out)))
  dg_cli-Answered (l ∷ ls) out s =
      have_asked-Answered (dg_cli k a ls) s out l ls (k.sendto (to_server a l) s)
        (dg_cli-Answered ls) (laws.sends (to_server a l) s)
