-- ===== src/Handshake.antt =====
-- The client and the server of "Chapter 6 - Berkely Sockets/Sockets/6.syscalls" up to str_cli and
-- str_echo: the client sends a header, and the server answers whether it takes the version and the
-- protocol. The connected socket is a parameter; readv() and writev() move the bytes of their buffers
-- one behind the other.
pub mod Answers
pub mod Agree
mod Tests
use unix_network_programming.Base.{
  ℕ, zero, suc, ◌-◌, Bool, true, false, ◌&&◌, List, [], ◌∷◌, ◌++◌, ◌==◌, if◌then◌else◌, length,
  take, drop, replicate, ◌+◌,
}
use unix_network_programming.Transfer.{Bytes}
use unix_network_programming.Stream.{Got, got, read_failed, Wrote, wrote, write_failed, Socket}
use unix_network_programming.StreamMessages.{to_bytes, from_bytes}

-- The ints as their bit patterns, and the ten bytes of the name.
pub record HeaderFormat : Type 0 where
  pub header_type : ℕ
  pub version : ℕ
  pub protocol_name : Bytes

-- The 20 bytes of a header, the last two of them padding.
abbrev pub header_bytes : HeaderFormat → Bytes
header_bytes h =
    to_bytes 4 h.header_type ++ (to_bytes 4 h.version ++ (h.protocol_name ++ (0 ∷ 0 ∷ [])))

abbrev pub version_of : Bytes → ℕ
version_of b = from_bytes (take 4 (drop 4 b))

abbrev pub name_of : Bytes → Bytes
name_of b = take 10 (drop 8 b)

-- What comes in overwrites the beginning of an array.
abbrev pub overlay : Bytes → Bytes → Bytes
overlay new old = new ++ drop (length new) old

-- strncmp(a, b, n) == 0; both arrays reach far enough, or end behind a NUL.
abbrev pub strncmp_eq : ℕ → Bytes → Bytes → Bool
strncmp_eq zero a b = true
strncmp_eq (suc n) [] b = false
strncmp_eq (suc n) (x ∷ xs) [] = false
strncmp_eq (suc n) (x ∷ xs) (y ∷ ys) =
    let rest = strncmp_eq n xs ys in if x == y then (if x == 0 then true else rest) else false

-- A text in an array of 128 bytes.
abbrev pub padded : Bytes → Bytes
padded text = text ++ replicate (128 - length text) 0

-- "UNP".
abbrev pub protocol : Bytes
protocol = b'U' ∷ b'N' ∷ b'P' ∷ 0 ∷ []

-- "[ERROR] Different Version".
abbrev pub version_error : Bytes
version_error =
    b'[' ∷ b'E' ∷ b'R' ∷ b'R' ∷ b'O' ∷ b'R' ∷ b']' ∷ b' ' ∷ b'D' ∷ b'i' ∷ b'f' ∷ b'f' ∷ b'e' ∷ b'r'
    ∷ b'e' ∷ b'n' ∷ b't' ∷ b' ' ∷ b'V' ∷ b'e' ∷ b'r' ∷ b's' ∷ b'i' ∷ b'o' ∷ b'n' ∷ []

-- "[SUCCESS] Same Version".
abbrev pub no_version_error : Bytes
no_version_error =
    b'[' ∷ b'S' ∷ b'U' ∷ b'C' ∷ b'C' ∷ b'E' ∷ b'S' ∷ b'S' ∷ b']' ∷ b' ' ∷ b'S' ∷ b'a' ∷ b'm' ∷ b'e'
    ∷ b' ' ∷ b'V' ∷ b'e' ∷ b'r' ∷ b's' ∷ b'i' ∷ b'o' ∷ b'n' ∷ []

-- "[ERROR] Invalid Protocol".
abbrev pub proto_name_err : Bytes
proto_name_err =
    b'[' ∷ b'E' ∷ b'R' ∷ b'R' ∷ b'O' ∷ b'R' ∷ b']' ∷ b' ' ∷ b'I' ∷ b'n' ∷ b'v' ∷ b'a' ∷ b'l' ∷ b'i'
    ∷ b'd' ∷ b' ' ∷ b'P' ∷ b'r' ∷ b'o' ∷ b't' ∷ b'o' ∷ b'c' ∷ b'o' ∷ b'l' ∷ []

-- "[SUCCESS] Valid Protocol".
abbrev pub no_proto_name_err : Bytes
no_proto_name_err =
    b'[' ∷ b'S' ∷ b'U' ∷ b'C' ∷ b'C' ∷ b'E' ∷ b'S' ∷ b'S' ∷ b']' ∷ b' ' ∷ b'V' ∷ b'a' ∷ b'l' ∷ b'i'
    ∷ b'd' ∷ b' ' ∷ b'P' ∷ b'r' ∷ b'o' ∷ b't' ∷ b'o' ∷ b'c' ∷ b'o' ∷ b'l' ∷ []

-- "Header, I/O vectors!", of which strlen() bytes are sent.
abbrev pub dummy_message : Bytes
dummy_message =
    b'H' ∷ b'e' ∷ b'a' ∷ b'd' ∷ b'e' ∷ b'r' ∷ b',' ∷ b' ' ∷ b'I' ∷ b'/' ∷ b'O' ∷ b' ' ∷ b'v' ∷ b'e'
    ∷ b'c' ∷ b't' ∷ b'o' ∷ b'r' ∷ b's' ∷ b'!' ∷ []

-- "UNP" in the array of ten bytes, and the header of client.c.
abbrev pub client_header : HeaderFormat
client_header = record {
  header_type = 0;
  version = 1;
  protocol_name = b'U' ∷ b'N' ∷ b'P' ∷ 0 ∷ 0 ∷ 0 ∷ 0 ∷ 0 ∷ 0 ∷ 0 ∷ [];
}

module _ (k : Socket) where
  -- The child comes to str_echo, shuts the socket down, or exits behind a failed call.
  pub data Serving : Type 0 where
    echoing : k.State → Serving
    shut_down : k.State → Serving
    serve_failed : k.State → Serving

  -- A send() is looked at for its failure only.
  abbrev pub on_send : (k.State → Serving) → Wrote k.State → Serving
  on_send next (write_failed s) = serve_failed s
  on_send next (wrote n s) = next s

  abbrev pub decide : (same_version same_protocol : Bool) → k.State → Serving
  decide v p s = if v && p then echoing s else shut_down s

  abbrev pub answer_protocol : (same_version same_protocol : Bool) → k.State → Serving
  answer_protocol v p s =
      on_send (decide v p) (k.write (padded (if p then no_proto_name_err else proto_name_err)) s)

  abbrev pub answer_version : (same_version same_protocol : Bool) → k.State → Serving
  answer_version v p s =
      on_send (answer_protocol v p)
        (k.write (padded (if v then no_version_error else version_error)) s)

  abbrev pub check_header : Bytes → k.State → Serving
  check_header header s =
      answer_version (version_of header == 1) (strncmp_eq 4 (name_of header) protocol) s

  -- The buffers of readv() are the header and 128 bytes.
  abbrev pub on_readv : Bytes → Got k.State → Serving
  on_readv header (read_failed s) = serve_failed s
  on_readv header (got bs s) = check_header (overlay (take 20 bs) header) s

  -- The child of server.c from its readv() on; `header` is what the array holds before.
  pub serve : (header : Bytes) → k.State → Serving
  serve header s = on_readv header (k.read (20 + 128) s)

  -- The client comes to str_cli, leaves behind an error answer, or exits behind a failed call.
  pub data Asking : Type 0 where
    talking : k.State → Asking
    turned_away : k.State → Asking
    ask_failed : k.State → Asking

  abbrev pub hear_protocol : Bytes → k.State → Asking
  hear_protocol response s =
      if strncmp_eq (suc (length proto_name_err)) response (proto_name_err ++ (0 ∷ []))
      then turned_away s
      else talking s

  -- recv() of the second answer.
  abbrev pub on_recv_protocol : Bytes → Got k.State → Asking
  on_recv_protocol response (read_failed s) = ask_failed s
  on_recv_protocol response (got bs s) = hear_protocol (overlay bs response) s

  abbrev pub hear_version : Bytes → k.State → Asking
  hear_version response s =
      if strncmp_eq (suc (length version_error)) response (version_error ++ (0 ∷ []))
      then turned_away s
      else on_recv_protocol response (k.read 128 s)

  abbrev pub on_recv_version : Bytes → Got k.State → Asking
  on_recv_version response (read_failed s) = ask_failed s
  on_recv_version response (got bs s) = hear_version (overlay bs response) s

  abbrev pub on_writev : Bytes → Wrote k.State → Asking
  on_writev response (write_failed s) = ask_failed s
  on_writev response (wrote n s) = on_recv_version response (k.read 128 s)

  -- client.c from its writev() on, for any header; `response` is what the array holds before.
  pub ask : HeaderFormat → (response : Bytes) → k.State → Asking
  ask h response s = on_writev response (k.write (header_bytes h ++ dummy_message) s)
