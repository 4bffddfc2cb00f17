-- ===== src/UdpLog.antt =====
-- The loop of "Chapter 6 - Berkely Sockets/Sockets/send_recv/connectionless/server.c", which prints the
-- datagrams that come in, over what recvfrom() answers.
pub mod Bounds
mod Tests
use unix_network_programming.Base.{
  ℕ, suc, ◌+◌, ◌-◌, ◌^◌, Bool, true, false, Option, none, some, List, [], ◌∷◌, ◌++◌, ltb, length,
  take, if◌then◌else◌,
}
use unix_network_programming.Transfer.{Bytes}
use unix_network_programming.Clients.{printed}

-- The size of message_buffer.
abbrev pub message_size : ℕ
message_size = 256

-- What recvfrom() answers, a datagram or -1, and whether client_details.sa_family is AF_INET then.
pub record Turn : Type 0 where
  pub answer : Option Bytes
  pub inet : Bool

-- message_len is a size_t, so that -1 is the largest one.
abbrev pub message_len : Option Bytes → ℕ
message_len none = 2 ^ 64 - 1
message_len (some d) = length (take message_size d)

-- What message_buffer holds of the datagram.
abbrev pub message_buffer : Option Bytes → Bytes
message_buffer none = []
message_buffer (some d) = take message_size d

-- The loop waits for more, with what it has written and message_id; or it has written outside
-- message_buffer.
pub data Log : Type 0 where
  logged : (out : Bytes) (message_id : ℕ) → Log
  overrun : (out : Bytes) → Log

-- The newline and the NUL are stored at message_len and behind it.
abbrev pub print_message : (Bytes → ℕ → Log) → Option Bytes → Bytes → ℕ → Log
print_message next a out id =
    let rest = next (out ++ printed (message_buffer a ++ (b'\n' ∷ 0 ∷ []))) (suc id) in
    if ltb (message_len a + 1) message_size then rest else overrun out

-- `message_len < 0` is false for every answer.
abbrev pub log_turn : (Bytes → ℕ → Log) → Turn → Bytes → ℕ → Log
log_turn next t out id =
    let skipped = next out id in
    let message = print_message next t.answer out id in
    if t.inet then (if ltb 0 (message_len t.answer) then message else skipped) else skipped

pub log_all : List Turn → Bytes → ℕ → Log
log_all [] out id = logged out id
log_all (t ∷ ts) out id = log_turn (log_all ts) t out id
