-- ===== src/Inetd/Descriptors.antt =====
-- The descriptors and the path that a service of inetd.c starts with.
use unix_network_programming.Base.{
  take_all, ℕ, zero, suc, ◌+◌, ◌≤◌, ◌<◌, ◌≡◌, ◌≢◌, refl, ap, Bool-cases, inl, inr, ◌∙◌, none, some,
  List, [], ◌∷◌, ◌++◌, ◌==◌, ltb, if◌then◌else◌, length, take, arith, length-append,
}
use unix_network_programming.Inetd.Child.{
  Table, close, dup2, lowest_free, close_all, close_others, onto_std, stream_child, datagram_child,
  exec_path, path_len,
}

module _ {F : Type 0} where
  close_others_lem :
      (n fd m : ℕ) (t : Table F)
      → close_others n fd t m ≡ (if ltb m n then (if m == fd then t m else none) else t m)
  unfolding close_others
  close_others_lem zero fd m t = ground arith
  close_others_lem (suc n) fd m t =
      let ih = close_others_lem n fd m t in
      elim (Bool-cases (fd == n)) [ inl e ↦ ground arith | inr e ↦ ground arith ]

  -- Standard input, output and error are the file, and nothing else is open.
  abbrev pub OnlyStd : F → Table F → Type 0
  OnlyStd file t = (n : ℕ) → t n ≡ (if ltb n 3 then some file else none)

  pub dup2_lem :
      (fd new : ℕ) (file : F) (t : Table F) (n : ℕ)
      → t fd ≡ some file
      → dup2 fd new t n ≡ (if n == new then some file else t n)
  dup2_lem fd new file t n e = rw (e)

  -- A descriptor behind the standard ones, as the only one that is open.
  onto_std-OnlyStd :
      (fd : ℕ) (file : F) (t : Table F)
      → 2 < fd
      → ((n : ℕ) → t n ≡ (if n == fd then some file else none))
      → OnlyStd file (onto_std fd t)
  onto_std-OnlyStd fd file t h only n =
      let e0 : t fd ≡ some file = only fd ∙ ground arith in
      let t1 : Table F = dup2 fd 0 t in
      let e1 : t1 fd ≡ some file = dup2_lem fd 0 file t fd e0 ∙ ground arith in
      let t2 : Table F = dup2 fd 1 t1 in
      let e2 : t2 fd ≡ some file = dup2_lem fd 1 file t1 fd e1 ∙ ground arith in
      let last : dup2 fd 2 t2 n ≡ (if n == 2 then some file else t2 n) =
        dup2_lem fd 2 file t2 n e2 in
      let mid : t2 n ≡ (if n == 1 then some file else t1 n) = dup2_lem fd 1 file t1 n e1 in
      let low : t1 n ≡ (if n == 0 then some file else t n) = dup2_lem fd 0 file t n e0 in
      let here = only n in ground arith

  close_all_lem : (n m : ℕ) (t : Table F) → close_all n t m ≡ (if ltb m n then none else t m)
  unfolding close_all
  close_all_lem zero m t = ground arith
  close_all_lem (suc n) m t = let ih = close_all_lem n m t in ground arith

  pub first_free : (n : ℕ) (t : Table F) → 0 < n → t 0 ≡ none → lowest_free n 0 t ≡ 0
  first_free zero t h e = absurd (omega arith)
  first_free (suc n) t h e = rw (lowest_free, e)

  pub all_closed :
      (nofile : ℕ) (t : Table F)
      → ((n : ℕ) → nofile ≤ n → t n ≡ none)
      → (n : ℕ) → close_all nofile t n ≡ none
  all_closed nofile t top n =
      let k = close_all_lem nofile n t in
      elim (Bool-cases (ltb n nofile)) [
        | inl a ↦ ground arith
        | inr a ↦ (let z = top n (ground arith) in ground arith)
      ]

  close_others-kept :
      (nofile fd : ℕ) (file : F) (t : Table F)
      → ((n : ℕ) → nofile ≤ n → t n ≡ none)
      → t fd ≡ some file
      → (n : ℕ) → close_others nofile fd t n ≡ (if n == fd then some file else none)
  close_others-kept nofile fd file t top e n =
      let k = close_others_lem nofile fd n t in
      elim (Bool-cases (n == fd)) [
        | inl y ↦
            let same : n ≡ fd = ground arith in
            let e' : t n ≡ some file = ap t same ∙ e in ground arith
        | inr y ↦ elim (Bool-cases (ltb n nofile)) [
          | inl a ↦ ground arith
          | inr a ↦ (let z = top n (ground arith) in ground arith)
        ]
      ]

  -- For a client's socket above 2 that differs from the listening socket and is open, with no
  -- descriptor open from NOFILE on, the child of a stream service and that of a datagram
  -- service on the socket end with exactly the descriptors 0, 1 and 2 open, all on the client's
  -- socket.
  pub child-OnlyStd :
      (nofile sockfd fd : ℕ) (file : F) (t : Table F)
      → 2 < fd
      → sockfd ≢ fd
      → ((n : ℕ) → nofile ≤ n → t n ≡ none)
      → t fd ≡ some file
      → OnlyStd file (stream_child nofile sockfd fd t) × OnlyStd file (datagram_child nofile fd t)
  child-OnlyStd nofile sockfd fd file t h ne top e =
      let e' : close sockfd t fd ≡ some file = ground arith in
      let top' : (n : ℕ) → nofile ≤ n → close sockfd t n ≡ none =
        λ n le. (let z = top n le in ground arith) in
      (
        onto_std-OnlyStd fd file (close_others nofile fd (close sockfd t)) h
            (close_others-kept nofile fd file (close sockfd t) top' e'),
        onto_std-OnlyStd fd file (close_others nofile fd t) h
            (close_others-kept nofile fd file t top e),
      )

snoc_append : (xs : List ℕ) (y : ℕ) (ys : List ℕ) → (xs ++ (y ∷ [])) ++ ys ≡ xs ++ (y ∷ ys)
snoc_append [] y ys = refl
snoc_append (x ∷ xs) y ys = ap (λ z. x ∷ z) (snoc_append xs y ys)

-- A starting directory and a service's name that together are shorter than PATH_LEN make the
-- path of the program, directory, slash and name.
exec_path_fits :
    (cwd service : List ℕ)
    → length cwd + length service < path_len
    → exec_path cwd service ≡ cwd ++ (47 ∷ service)
exec_path_fits cwd service h =
    let l1 = length-append cwd (47 ∷ []) in
    let l2 = length-append (cwd ++ (47 ∷ [])) service in
    let short : take path_len (cwd ++ (47 ∷ [])) ≡ (cwd ++ (47 ∷ [])) =
      take_all path_len (cwd ++ (47 ∷ [])) (omega arith) in
    ap (λ z. take path_len (z ++ service)) short
    ∙ take_all path_len ((cwd ++ (47 ∷ [])) ++ service) (omega arith)
    ∙ snoc_append cwd 47 service
