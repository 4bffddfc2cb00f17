-- ===== src/Iptohex/Binary.antt =====
-- What int_to_int makes of a byte: its bits, written as the digits of a decimal number.
use unix_network_programming.Base.{
  ℕ, zero, suc, ◌+◌, ◌*◌, ◌/◌, ◌%◌, ◌^◌, ◌<◌, ◌≡◌, refl, sym, ap, ◌∙◌, ◌⊎◌, Bool, Bool-cases, inl,
  inr, true, ◌&&◌, List, [], ◌∷◌, map, ◌==◌, ◌||◌, ltb, ltb→lt, arith,
}
use unix_network_programming.Iptohex.{
  int_to_int, int_to_int_loop, htobe32, Ended, printed, failed, too_few, main,
}
use unix_network_programming.Iptohex.Bytes.{htobe32-htobe32}

-- The number whose bits are the decimal digits.
abbrev pub read_bits : ℕ → ℕ → ℕ
read_bits zero n = 0
read_bits (suc digits) n = n % 10 + 2 * read_bits digits (n / 10)

abbrev only_bits : ℕ → ℕ → Bool
only_bits zero n = n == 0
only_bits (suc digits) n = ltb (n % 10) 2 && only_bits digits (n / 10)

abbrev shows : ℕ → Bool
shows k = (read_bits 8 (int_to_int k) == k) && only_bits 8 (int_to_int k)

abbrev all_below : ℕ → (ℕ → Bool) → Bool
all_below zero f = true
all_below (suc n) f = f n && all_below n f

all_below_lem : (n k : ℕ) (f : ℕ → Bool) → all_below n f ≡ true → k < n → f k ≡ true
all_below_lem zero k f h l = absurd (omega arith)
all_below_lem (suc n) k f h l = elim (Bool-cases (k == n)) [
  | inl y ↦ (let e : k ≡ n = ground arith in ap f e ∙ ground arith)
  | inr y ↦ (let m : k < n = ground arith in all_below_lem n k f (ground arith) m)
]

every_byte : all_below 256 shows ≡ true
unfolding int_to_int int_to_int_loop
every_byte = refl

byte-shows : (k : ℕ) → k < 256 → shows k ≡ true
byte-shows k h = all_below_lem 256 k shows every_byte h

byte_read_back : (k : ℕ) → k < 256 → read_bits 8 (int_to_int k) ≡ k
byte_read_back k h = let s = byte-shows k h in ground arith

-- The word that four bytes show in hexadecimal.
abbrev pub word : List ℕ → ℕ
word (a ∷ b ∷ c ∷ d ∷ []) = a * 2 ^ 24 + b * 2 ^ 16 + c * 2 ^ 8 + d
word bytes = 0

-- The bytes as they are, as bits that read back as them, and turned round by htobe32.
abbrev pub Shown : List ℕ → Ended → Type 0
Shown bytes (printed p) =
    (p.hex ≡ bytes) × (map (read_bits 8) p.bits ≡ bytes) × (word p.inet ≡ htobe32 (word p.hex))
Shown bytes failed = ⊥
Shown bytes too_few = ⊥

above :
    (a b c d : ℕ)
    → (ltb 255 a || ltb 255 b) || (ltb 255 c || ltb 255 d) ≡ true
    → (255 < a) ⊎ (255 < b) ⊎ (255 < c) ⊎ (255 < d)
above a b c d h = elim (Bool-cases (ltb 255 a)) [
  | inl x ↦ inl (ltb→lt 255 a x)
  | inr x ↦ elim (Bool-cases (ltb 255 b)) [
    | inl y ↦ inr (inl (ltb→lt 255 b y))
    | inr y ↦ elim (Bool-cases (ltb 255 c)) [
      | inl z ↦ inr (inr (inl (ltb→lt 255 c z)))
      | inr z ↦ inr (inr (inr (ground arith)))
    ]
  ]
]

-- Four numbers are either all below 256, and then they are printed in hexadecimal as they are, what
-- is printed as their bits reads back as them, and the word that is printed for inet_aton() is the
-- one that htobe32 makes of the word of the bytes; or one of them is above 255, and the program
-- fails.
pub main-Shown :
    (a b c d : ℕ)
    → ((a < 256)
        × (b < 256)
        × (c < 256)
        × (d < 256)
        × Shown (a ∷ b ∷ c ∷ d ∷ []) (main (a ∷ b ∷ c ∷ d ∷ [])))
      ⊎ ((main (a ∷ b ∷ c ∷ d ∷ []) ≡ failed) × ((255 < a) ⊎ (255 < b) ⊎ (255 < c) ⊎ (255 < d)))
unfolding main
main-Shown a b c d = elim (Bool-cases ((ltb 255 a || ltb 255 b) || (ltb 255 c || ltb 255 d))) [
  | inl y ↦ inr (rw (y) refl, above a b c d y)
  | inr y ↦
      let ha : a < 256 = ground arith in
      let hb : b < 256 = ground arith in
      let hc : c < 256 = ground arith in
      let hd : d < 256 = ground arith in
      let swap = htobe32-htobe32 a b c d ha hb hc hd in
      inl (
        ha,
        hb,
        hc,
        hd,
        rw (y) (
          refl,
          rw (byte_read_back a ha, byte_read_back b hb, byte_read_back c hc, byte_read_back d hd)
              refl,
          sym swap.0,
        ),
      )
]
