-- ===== src/Inetd/Child.antt =====
-- What a forked child of inetd.c does up to execl(), and the path that it runs.
use unix_network_programming.Base.{
  ℕ, zero, suc, ◌+◌, Option, none, some, List, [], ◌∷◌, ◌++◌, ◌==◌, if◌then◌else◌,
}
use unix_network_programming.Base.{take}

-- A process's descriptors, each with the open file behind it.
abbrev pub Table : Type 0 → Type 0
Table F = ℕ → Option F

module _ {F : Type 0} where
  abbrev pub close : ℕ → Table F → Table F
  close fd t n = if n == fd then none else t n

  -- dup2(old, new), for an old descriptor that is open; else it fails and changes nothing.
  abbrev dup_file : Option F → ℕ → Table F → Table F
  dup_file none new t = t
  dup_file (some file) new t = λ n. if n == new then some file else t n

  abbrev pub dup2 : ℕ → ℕ → Table F → Table F
  dup2 old new t = dup_file (t old) new t

  -- The loop that closes the first descriptors but one.
  unfoldable pub close_others : ℕ → ℕ → Table F → Table F
  close_others zero fd t = t
  close_others (suc n) fd t =
      let rest = close_others n fd t in if fd == n then rest else close n rest

  abbrev pub onto_std : ℕ → Table F → Table F
  onto_std fd t = close fd (dup2 fd 2 (dup2 fd 1 (dup2 fd 0 t)))

  -- open() takes the lowest free descriptor; the search stops at a bound.
  abbrev pub lowest_free : ℕ → ℕ → Table F → ℕ
  lowest_free zero fd t = fd
  lowest_free (suc n) fd t = elim (t fd) [ none ↦ fd | some f ↦ lowest_free n (suc fd) t ]

  abbrev pub open_at : F → ℕ → Table F → Table F
  open_at file fd t n = if n == fd then some file else t n

  -- The loop that closes every descriptor.
  unfoldable pub close_all : ℕ → Table F → Table F
  close_all zero t = t
  close_all (suc n) t = close n (close_all n t)

  -- The child of a stream service: it closes the listening socket first.
  abbrev pub stream_child : (nofile sockfd accept_sockfd : ℕ) → Table F → Table F
  stream_child nofile sockfd accept_sockfd t =
      onto_std accept_sockfd (close_others nofile accept_sockfd (close sockfd t))

  abbrev pub datagram_child : (nofile sockfd : ℕ) → Table F → Table F
  datagram_child nofile sockfd t = onto_std sockfd (close_others nofile sockfd t)

abbrev pub path_len : ℕ
path_len = 512

-- strlcpy and strlcat into a buffer of `size` bytes.
abbrev pub strlcpy : List ℕ → ℕ → List ℕ
strlcpy src zero = []
strlcpy src (suc size) = take size src

abbrev pub strlcat : List ℕ → List ℕ → ℕ → List ℕ
strlcat dst src zero = dst
strlcat dst src (suc size) = take size (dst ++ src)

-- exec_path: the starting directory and a slash, copied in each turn, with the service's name.
abbrev pub exec_path : List ℕ → List ℕ → List ℕ
exec_path cwd service = strlcat (strlcpy (cwd ++ (47 ∷ [])) (path_len + 1)) service (path_len + 1)
