-- ===== src/Rresvport/Search.antt =====
-- Which port the search of my_rresvport and my_rresvport_udp ends with.
use mathlib.Core.Path.{subst}
use native.Mathlib.Decide.{dec_lt}
use unix_network_programming.Base.{
  ℕ, zero, suc, ◌+◌, ◌-◌, ◌≤◌, ◌<◌, ◌≡◌, refl, ◌⊎◌, inl, inr, true, false, none, some, arith, ltb,
  Bool-cases,
}
use unix_network_programming.Base.Int.{ℤ, pos, negsuc}
use unix_network_programming.Base.Errno.{Errno, eagain, is_eaddrinuse}
use unix_network_programming.Rresvport.{
  SockType, sock_stream, sock_dgram, BindAnswer, bound, refused, Net, Outcome, failed, try_ports,
  bind_below, my_rresvport, my_rresvport_udp,
}

-- The kernel answered EADDRINUSE.
abbrev pub InUse : BindAnswer → Type 0
InUse bound = ⊥
InUse (refused e) = is_eaddrinuse e ≡ true

-- How a search for the ports from 512 below `top` ends.
pub data Ends (net : Net) (fd top : ℕ) (o : Outcome) : Type 0 where
  -- It took port `p`, and every port above it was in use.
  took :
      (p : ℕ)
      → 512 ≤ p
      → p < top
      → ((q : ℕ) → p < q → q < top → InUse (net.bind fd q))
      → net.bind fd p ≡ bound
      → o ≡ record { ret = pos fd; errno = none; crport = pos p }
      → Ends net fd top o
  -- At port `p` it met another error, and every port above it was in use.
  met :
      (p : ℕ) (e : Errno)
      → 512 ≤ p
      → p < top
      → ((q : ℕ) → p < q → q < top → InUse (net.bind fd q))
      → net.bind fd p ≡ refused e
      → is_eaddrinuse e ≡ false
      → o ≡ failed (some e) (pos p)
      → Ends net fd top o
  -- Every port was in use.
  exhausted :
      ((q : ℕ) → 512 ≤ q → q < top → InUse (net.bind fd q))
      → o ≡ failed (some eagain) (pos 511)
      → Ends net fd top o

module _ (net : Net) (fd : ℕ) where
  above :
      (k : ℕ) (P : ℕ → Type 0)
      → P (512 + k)
      → ((q : ℕ) → 512 ≤ q → q < 512 + k → P q)
      → (q : ℕ) → 512 ≤ q
      → q < 512 + suc k
      → P q
  above k P here rest q lo hi = elim (dec_lt q (512 + k)) [
    | yes lt ↦ rest q lo lt
    | no ge ↦ let e : 512 + k ≡ q = omega arith in subst P e here
  ]

  in_use : (a : BindAnswer) {e : Errno} → a ≡ refused e → is_eaddrinuse e ≡ true → InUse a
  in_use bound h u = cc
  in_use (refused e) h u = ground arith

  -- The search ends in one of the three ways.
  try_ports-Ends : (k : ℕ) → Ends net fd (512 + k) (try_ports net fd k)
  unfolding try_ports
  try_ports-Ends zero = exhausted (λ q lo hi. absurd (omega arith)) refl
  try_ports-Ends (suc k) = go (net.bind fd (512 + k)) refl (try_ports-Ends k)
    where
      skipped :
          {e : Errno}
          → net.bind fd (512 + k) ≡ refused e
          → is_eaddrinuse e ≡ true
          → (o : Outcome) → Ends net fd (512 + k) o
          → Ends net fd (512 + suc k) o
      skipped h u o (took p lo hi up ok eq) =
          took p lo (omega arith)
            (λ q a b.
              above k (λ q. p < q → InUse (net.bind fd q)) (λ _. in_use _ h u)
                (λ q' _ b' a'. up q' a' b') q (omega arith) b a)
            ok eq
      skipped h u o (met p e lo hi up no_port new eq) =
          met p e lo (omega arith)
            (λ q a b.
              above k (λ q. p < q → InUse (net.bind fd q)) (λ _. in_use _ h u)
                (λ q' _ b' a'. up q' a' b') q (omega arith) b a)
            no_port new eq
      skipped h u o (exhausted up eq) =
          exhausted (above k (λ q. InUse (net.bind fd q)) (in_use _ h u) up) eq

      go :
          (a : BindAnswer)
          → net.bind fd (512 + k) ≡ a
          → Ends net fd (512 + k) (try_ports net fd k)
          → Ends net fd (512 + suc k) (try_ports net fd (suc k))
      go bound h rest =
          rw (h, try_ports)
            (took (512 + k) (omega arith) (omega arith) (λ q a b. absurd (omega arith)) h refl)
      go (refused e) h rest = elim (Bool-cases (is_eaddrinuse e)) [
        | inl u ↦ rw (h, try_ports, u) (skipped h u _ rest)
        | inr u ↦
            rw (h, try_ports, u)
              (met (512 + k) e (omega arith) (omega arith) (λ q a b. absurd (omega arith)) h u refl)
      ]

-- The port is out of range: the call fails, and neither errno nor the port is touched.
abbrev pub OutOfRange : ℤ → Type 0
OutOfRange (negsuc n) = Unit
OutOfRange (pos p) = (p < 512) ⊎ (1024 < p)

module _ (net : Net) where
  -- A port below 512 or above 1024 makes both functions fail with errno and the port unchanged.
  my_rresvport-OutOfRange :
      (port : ℤ)
      → OutOfRange port
      → (my_rresvport net port ≡ failed none port) × (my_rresvport_udp net port ≡ failed none port)
  unfolding my_rresvport my_rresvport_udp
  my_rresvport-OutOfRange (negsuc n) h = (refl, refl)
  my_rresvport-OutOfRange (pos p) h = (ground arith, ground arith)

  bind_below-Ends :
      (t : SockType) (port fd : ℕ)
      → 512 ≤ port
      → net.socket t ≡ some fd
      → Ends net fd (port + 1) (bind_below net t port)
  unfolding bind_below
  bind_below-Ends t port fd lo s =
      let e : 512 + (port - 511) ≡ port + 1 = omega arith in
      rw (s, bind_below)
        (subst (λ n. Ends net fd n (try_ports net fd (port - 511))) e
          (try_ports-Ends net fd (port - 511)))

  -- For a port in range, with a socket from the kernel: each function ends with the highest port
  -- not above the one asked for at which bind() does not answer EADDRINUSE, and returns the
  -- socket if that port was free, else -1 with the errno of bind(); if all ports down to 512 are
  -- in use it returns -1 with EAGAIN and leaves 511 behind the pointer.
  pub my_rresvport-Ends :
      (port fd fd' : ℕ)
      → 512 ≤ port
      → port ≤ 1024
      → net.socket sock_stream ≡ some fd
      → net.socket sock_dgram ≡ some fd'
      → Ends net fd (port + 1) (my_rresvport net (pos port))
        × Ends net fd' (port + 1) (my_rresvport_udp net (pos port))
  unfolding my_rresvport my_rresvport_udp
  my_rresvport-Ends port fd fd' lo hi s s' =
      let a : ltb 1024 port ≡ false = ground arith in
      let b : ltb port 512 ≡ false = ground arith in
      (
        rw (my_rresvport, a, b) (bind_below-Ends sock_stream port fd lo s),
        rw (my_rresvport_udp, a, b) (bind_below-Ends sock_dgram port fd' lo s'),
      )
