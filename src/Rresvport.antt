-- ===== src/Rresvport.antt =====
-- my_ emulation/library_functions/rresvport_tcp_udp/rresvport.c: a socket bound to a reserved port.
-- The kernel's socket() and bind() are a parameter. `crport` is the caller's int behind the
-- pointer; the 16 bits that htons() makes of a port stand for that port.
pub mod Search
mod Tests
use unix_network_programming.Base.{
  ℕ, zero, suc, ◌+◌, ◌-◌, ◌||◌, true, false, Option, none, some, ltb, if◌then◌else◌,
}
use unix_network_programming.Base.Int.{ℤ, pos, negsuc}
use unix_network_programming.Base.Errno.{Errno, eagain, is_eaddrinuse}

pub data SockType : Type 0 where
  sock_stream sock_dgram : SockType

pub data BindAnswer : Type 0 where
  bound : BindAnswer
  refused : Errno → BindAnswer

-- `socket` gives a descriptor or fails with an errno; `bind fd p` asks for port `p`.
pub record Net : Type 0 where
  pub socket : SockType → Option ℕ
  pub socket_errno : Errno
  pub bind : ℕ → ℕ → BindAnswer

-- What a call leaves: its result, the errno that it or the kernel set, and `*crport`.
pub record Outcome : Type 0 where
  pub ret : ℤ
  pub errno : Option Errno
  pub crport : ℤ

abbrev pub failed : Option Errno → ℤ → Outcome
failed e p = record { ret = negsuc 0; errno = e; crport = p }

module _ (net : Net) where
  -- `for (; *crport >= 512; (*crport)--)`; the argument is the number of ports left to try.
  pub try_ports : ℕ → ℕ → Outcome
  try_ports fd zero = failed (some eagain) (pos 511)
  try_ports fd (suc k) = elim (net.bind fd (512 + k)) [
    | bound ↦ record { ret = pos fd; errno = none; crport = pos (512 + k) }
    | refused e ↦ elim (is_eaddrinuse e) [
      | true ↦ try_ports fd k
      | false ↦ failed (some e) (pos (512 + k))
    ]
  ]

  -- The function behind its range check.
  pub bind_below : SockType → ℕ → Outcome
  unfolding try_ports
  bind_below t port = elim (net.socket t) [
    | none ↦ failed (some net.socket_errno) (pos port)
    | some fd ↦ try_ports fd (port - 511)
  ]

  pub my_rresvport : ℤ → Outcome
  unfolding bind_below
  my_rresvport (negsuc n) = failed none (negsuc n)
  my_rresvport (pos port) =
      if ltb 1024 port
      then failed none (pos port)
      else if ltb port 512
      then failed none (pos port)
      else bind_below sock_stream port

  pub my_rresvport_udp : ℤ → Outcome
  unfolding bind_below
  my_rresvport_udp (negsuc n) = failed none (negsuc n)
  my_rresvport_udp (pos port) =
      if ltb 1024 port
      then failed none (pos port)
      else if ltb port 512
      then failed none (pos port)
      else bind_below sock_dgram port
