-- ===== src/UdpLog/Bounds.antt =====
-- Which datagrams the buffer has room for.
use Prim.Native.Nat.{min}
use mathlib.Core.List.{append-nil, append_assoc}
use unix_network_programming.Base.{
  ℕ, suc, ◌+◌, ◌<◌, ◌≤◌, ◌≡◌, refl, sym, ap, ◌∙◌, true, Option, none, some, List, [], ◌∷◌, ◌++◌,
  ltb, length, take, take_all, length-take, lt→ltb, le→ltb_false, arith,
}
use unix_network_programming.Transfer.{Bytes}
use unix_network_programming.Clients.{printed}
use unix_network_programming.Clients.Session.{NoNul, printed-ended, with_newline}
use unix_network_programming.UdpLog.{message_size, Turn, Log, logged, overrun, log_turn, log_all}

-- A datagram over the Internet that is not empty, has no NUL, and leaves two bytes of the buffer free.
abbrev pub Message : Bytes → Type 0
Message d = (0 < length d) × (length d + 1 < message_size) × NoNul d

abbrev pub messages : List Bytes → List Turn
messages [] = []
messages (d ∷ ds) = record { answer = some d; inet = true } ∷ messages ds

abbrev pub AllMessages : List Bytes → Type 0
AllMessages [] = Unit
AllMessages (d ∷ ds) = Message d × AllMessages ds

abbrev pub on_lines : List Bytes → Bytes
on_lines [] = []
on_lines (d ∷ ds) = (d ++ b'\n' ∷ []) ++ on_lines ds

-- An answer that leaves less than two bytes free, or a failure.
abbrev pub TooLong : Option Bytes → Type 0
TooLong none = Unit
TooLong (some d) = message_size ≤ length d + 1

print_line :
    (next : Bytes → ℕ → Log) (d out : Bytes) (id : ℕ)
    → Message d
    → log_turn next (record { answer = some d; inet = true }) out id
      ≡ next (out ++ (d ++ b'\n' ∷ [])) (suc id)
print_line next d out id (full, room, nz) =
    let whole : take message_size d ≡ d = take_all message_size d (omega arith) in
    let some_bytes : ltb 0 (length d) ≡ true = ground arith in
    let fits : ltb (length d + 1) message_size ≡ true = ground arith in
    let shown : printed (d ++ (b'\n' ∷ 0 ∷ [])) ≡ d ++ b'\n' ∷ [] =
      ap printed (sym (append_assoc d (b'\n' ∷ []) (0 ∷ [])))
      ∙ printed-ended (d ++ b'\n' ∷ []) (with_newline d nz) in
    rw (whole, some_bytes, fits, shown) refl

filled : (len m : ℕ) → message_size ≤ len + 1 → m ≡ min message_size len → message_size ≤ m + 1
filled len m h e = omega arith

too_long :
    (next : Bytes → ℕ → Log) (a : Option Bytes) (out : Bytes) (id : ℕ)
    → TooLong a
    → log_turn next (record { answer = a; inet = true }) out id ≡ overrun out
too_long next none out id h = refl
too_long next (some d) out id h =
    let long = filled (length d) (length (take message_size d)) h (length-take message_size d) in
    rw
      (
        lt→ltb 0 (length (take message_size d)) (omega (arith, long)),
        le→ltb_false (length (take message_size d) + 1) message_size (omega (arith, long)),
      )
      refl

-- For any messages that each leave two bytes of the buffer free, are not empty and have no NUL, the
-- loop writes each of them with a newline, in order, and counts them. When behind them a datagram
-- leaves less room, or recvfrom() fails where the address is one of the Internet, the loop has written
-- the messages and then writes outside the buffer.
pub log_all-bounds :
    (ds : List Bytes) (a : Option Bytes) (after : List Turn) (out : Bytes) (id : ℕ)
    → AllMessages ds
    → TooLong a
    → (log_all (messages ds) out id ≡ logged (out ++ on_lines ds) (id + length ds))
      × (log_all (messages ds ++ (record { answer = a; inet = true } ∷ after)) out id
          ≡ overrun (out ++ on_lines ds))
unfolding log_all
log_all-bounds [] a after out id fit long = (
  ap (λ z. logged z id) (sym (append-nil out)) ∙ ap (logged (out ++ [])) (omega arith),
  too_long (log_all after) a out id long ∙ ap overrun (sym (append-nil out)),
)
log_all-bounds (d ∷ ds) a after out id fit long =
    let onto = append_assoc out (d ++ b'\n' ∷ []) (on_lines ds) in
    let line : Bytes = d ++ b'\n' ∷ [] in
    let (all, bad) = log_all-bounds ds a after (out ++ line) (suc id) fit.1 long in
    (
      print_line (log_all (messages ds)) d out id fit.0
          ∙ all
          ∙ ap (λ z. logged z (suc id + length ds)) onto
          ∙ ap (logged (out ++ on_lines (d ∷ ds))) (omega arith),
      print_line (log_all (messages ds ++ (record { answer = a; inet = true } ∷ after))) d out id
            fit.0
          ∙ bad
          ∙ ap overrun onto,
    )
