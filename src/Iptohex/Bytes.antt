-- ===== src/Iptohex/Bytes.antt =====
-- htobe32 turns the four bytes round.
use unix_network_programming.Base.{ℕ, ◌+◌, ◌*◌, ◌/◌, ◌%◌, ◌^◌, ◌<◌, ◌≡◌, ap, ◌∙◌, arith}
use unix_network_programming.Iptohex.{htobe32}

swapped :
    (a b c d : ℕ)
    → a < 256
    → b < 256
    → c < 256
    → d < 256
    → htobe32 (a * 2 ^ 24 + b * 2 ^ 16 + c * 2 ^ 8 + d) ≡ d * 2 ^ 24 + c * 2 ^ 16 + b * 2 ^ 8 + a
unfolding htobe32
swapped a b c d ha hb hc hd =
    let w = a * 2 ^ 24 + b * 2 ^ 16 + c * 2 ^ 8 + d in
    let p1 : w / 2 ^ 24 % 2 ^ 8 ≡ a = omega arith in
    let p2 : w * 2 ^ 8 % 2 ^ 32 / 2 ^ 16 % 2 ^ 8 ≡ c = omega arith in
    let p3 : w / 2 ^ 8 / 2 ^ 8 % 2 ^ 8 ≡ b = omega arith in
    let p4 : w * 2 ^ 24 % 2 ^ 32 / 2 ^ 24 ≡ d = omega arith in omega arith

-- htobe32 puts the four bytes of a word in reverse order, so that a second htobe32 gives the word
-- again.
pub htobe32-htobe32 :
    (a b c d : ℕ)
    → a < 256
    → b < 256
    → c < 256
    → d < 256
    → (htobe32 (a * 2 ^ 24 + b * 2 ^ 16 + c * 2 ^ 8 + d) ≡ d * 2 ^ 24 + c * 2 ^ 16 + b * 2 ^ 8 + a)
      × (htobe32 (htobe32 (a * 2 ^ 24 + b * 2 ^ 16 + c * 2 ^ 8 + d))
          ≡ a * 2 ^ 24 + b * 2 ^ 16 + c * 2 ^ 8 + d)
htobe32-htobe32 a b c d ha hb hc hd =
    let once = swapped a b c d ha hb hc hd in (once, ap htobe32 once ∙ swapped d c b a hd hc hb ha)
