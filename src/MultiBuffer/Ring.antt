-- ===== src/MultiBuffer/Ring.antt =====
-- Messages in a ring of four buffers, by their numbers.
use unix_network_programming.Transfer.{Bytes}
use unix_network_programming.Base.{
  ℕ, suc, ◌+◌, ◌%◌, ◌≤◌, ◌<◌, ◌≡◌, ◌≢◌, ap, ◌∙◌, List, [], ◌∷◌, ◌++◌, length, arith,
}
use unix_network_programming.MultiBuffer.{Buffers, write_to, next}

-- The messages from number `k` on stand in their buffers.
abbrev pub Holds : Buffers → ℕ → List Bytes → Type 0
Holds b k [] = Unit {0}
Holds b k (m ∷ ms) = (b (k % 4) ≡ m) × Holds b (k + 1) ms

pub next-mod : (k : ℕ) → next (k % 4) ≡ (k + 1) % 4
next-mod k = ground arith

other_slot : (k e : ℕ) → k < e → e < k + 4 → k % 4 ≢ e % 4
other_slot k e h l q = omega arith

pub Holds-keep :
    (b : Buffers) (k e : ℕ) (q : List Bytes) (m : Bytes)
    → k + length q ≤ e
    → e < k + 4
    → Holds b k q
    → Holds (write_to (e % 4) m b) k q
Holds-keep b k e [] m h l x = tt
Holds-keep b k e (n ∷ q) m h l (x, y) =
    let apart = other_slot k e (omega arith) l in
    (ground arith, Holds-keep b (k + 1) e q m (omega arith) (omega arith) y)

k_plus : (k : ℕ) → k ≡ k + 0
k_plus k = omega arith

k_next : (k n : ℕ) → k + 1 + n ≡ k + suc n
k_next k n = omega arith

-- A message that stands in the buffer behind them is one more.
pub Holds-snoc :
    (b : Buffers) (k : ℕ) (q : List Bytes) (m : Bytes)
    → Holds b k q
    → b ((k + length q) % 4) ≡ m
    → Holds b k (q ++ (m ∷ []))
Holds-snoc b k [] m x e = (ap (λ j. b (j % 4)) (k_plus k) ∙ e, tt)
Holds-snoc b k (n ∷ q) m (x, y) e =
    (x, Holds-snoc b (k + 1) q m y (ap (λ j. b (j % 4)) (k_next k (length q)) ∙ e))
