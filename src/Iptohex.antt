-- ===== src/Iptohex.antt =====
-- htobe32, int_to_int and the conversion in main of "Chapter 5 - Communication Protocols/Exercises/
-- tools/iptohex.c". An unsigned int has 32 bits, and an int too; what sscanf() reads is given.
pub mod Bytes
pub mod Binary
mod Tests
use unix_network_programming.Base.{
  ℕ, zero, suc, ◌+◌, ◌*◌, ◌/◌, ◌%◌, ◌^◌, ◌≡◌, Bool, true, false, Option, none, some, List, [], ◌∷◌,
  ◌==◌, ◌||◌, ltb, if◌then◌else◌,
}

-- The shifts and masks, with `&` of a byte's mask as a division and a remainder; the four parts have
-- no bit in common, so that `|` is their sum.
pub htobe32 : ℕ → ℕ
htobe32 host_32_bits =
    host_32_bits / 2 ^ 24 % 2 ^ 8
    + host_32_bits * 2 ^ 8 % 2 ^ 32 / 2 ^ 16 % 2 ^ 8 * 2 ^ 16
    + host_32_bits / 2 ^ 8 / 2 ^ 8 % 2 ^ 8 * 2 ^ 8
    + host_32_bits * 2 ^ 24 % 2 ^ 32 / 2 ^ 24 * 2 ^ 24

-- The recursion on k / 2; the first argument is the rounds left, 32 being enough for 32 bits.
pub int_to_int_loop : ℕ → ℕ → ℕ
int_to_int_loop zero k = 0
int_to_int_loop (suc rounds) k =
    let rest = int_to_int_loop rounds (k / 2) in
    if (k == 0) || (k == 1) then k else (k % 2 + 10 * rest) % 2 ^ 32

pub int_to_int : ℕ → ℕ
int_to_int k = int_to_int_loop 32 k

-- What main prints: the bytes in hexadecimal, the same as bits, and the bytes in reverse order.
pub record Printed : Type 0 where
  pub hex : List ℕ
  pub bits : List ℕ
  pub inet : List ℕ

pub data Ended : Type 0 where
  printed : Printed → Ended
  failed : Ended  -- exit(EXIT_FAILURE)
  too_few : Ended

-- Behind sscanf(), with the numbers it got.
pub main : List ℕ → Ended
main (byte1 ∷ byte2 ∷ byte3 ∷ byte4 ∷ []) =
    if (ltb 255 byte1 || ltb 255 byte2) || (ltb 255 byte3 || ltb 255 byte4)
    then failed
    else printed (record {
      hex = byte1 ∷ byte2 ∷ byte3 ∷ byte4 ∷ [];
      bits = int_to_int byte1 ∷ int_to_int byte2 ∷ int_to_int byte3 ∷ int_to_int byte4 ∷ [];
      inet = byte4 ∷ byte3 ∷ byte2 ∷ byte1 ∷ [];
    })
main bytes = too_few
