-- ===== src/Iovec/Gather.antt =====
-- my_writev writes its buffers one behind the other.
use mathlib.Core.Path.{subst}
use mathlib.Core.List.{append_assoc, append-nil}
use unix_network_programming.Base.{
  ℕ, ◌+◌, ◌≤◌, ◌<◌, ◌≡◌, sym, ap, ◌∙◌, Bool, true, false, ◌&&◌, Bool-cases, inl, inr, none, some,
  List, [], ◌∷◌, ◌++◌, ltb, leb, ◌==◌, if◌then◌else◌, length, take, arith, length-append,
  length-take,
}
use unix_network_programming.Iovec.{
  Bytes, Iovec, wrap, total_from, total_buffer_size, returns, exits, overrun, Calls, gather,
  my_writev,
}

-- Every buffer has its length.
unfoldable pub all_fit : List Iovec → Bool
all_fit [] = true
all_fit (v ∷ vs) = leb v.buff_length (length v.address) && all_fit vs

unfoldable pub sum : List Iovec → ℕ
sum [] = 0
sum (v ∷ vs) = v.buff_length + sum vs

unfoldable pub contents : List Iovec → Bytes
contents [] = []
contents (v ∷ vs) = take v.buff_length v.address ++ contents vs

-- With `t` bytes before them, each of the buffers begins below 2^31.
unfoldable pub begins_low : ℕ → List Iovec → Bool
begins_low t [] = true
begins_low t (v ∷ vs) = ltb t 2147483648 && begins_low (t + v.buff_length) vs

total_from-sum : (t : ℕ) (vs : List Iovec) → total_from (wrap t) vs ≡ wrap (t + sum vs)
unfolding total_from sum
total_from-sum t [] = omega arith
total_from-sum t (v ∷ vs) =
    let e : wrap (wrap t + v.buff_length) ≡ wrap (t + v.buff_length) = omega arith in
    let e2 : wrap (t + v.buff_length + sum vs) ≡ wrap (t + (v.buff_length + sum vs)) =
      omega arith in
    ap (λ z. total_from z vs) e ∙ total_from-sum (t + v.buff_length) vs ∙ e2

pub total_size : (vs : List Iovec) → total_buffer_size vs ≡ wrap (sum vs)
total_size vs = let e : wrap (0 + sum vs) ≡ wrap (sum vs) = omega arith in total_from-sum 0 vs ∙ e

moved :
    (filled : Bytes) (v : Iovec)
    → leb v.buff_length (length v.address) ≡ true
    → length filled + v.buff_length ≡ length (filled ++ take v.buff_length v.address)
moved filled v fits =
    let l1 = length-append filled (take v.buff_length v.address) in
    let l2 = length-take v.buff_length v.address in ground arith

gather-contents :
    (size : ℕ) (filled : Bytes) (vs : List Iovec)
    → all_fit vs ≡ true
    → begins_low (length filled) vs ≡ true
    → length filled + sum vs ≤ size
    → gather size filled vs ≡ some (filled ++ contents vs)
unfolding all_fit begins_low sum contents gather
gather-contents size filled [] h low l = ap some (sym (append-nil filled))
gather-contents size filled (v ∷ vs) h low l =
    let fits : leb v.buff_length (length v.address) ≡ true = ground arith in
    let later : all_fit vs ≡ true = ground arith in
    let room : leb (length filled + v.buff_length) size ≡ true = ground arith in
    let l1 = length-append filled (take v.buff_length v.address) in
    let l2 = length-take v.buff_length v.address in
    let n : length filled + v.buff_length ≡ length (filled ++ take v.buff_length v.address) =
      moved filled v fits in
    let ih =
      gather-contents size (filled ++ take v.buff_length v.address) vs later
        (subst (λ z. begins_low z vs ≡ true) n (ground arith)) (ground arith) in
    let here : ltb (length filled) 2147483648 ≡ true = ground arith in
    rw (here, room, fits, ih, append_assoc)

gather_too_long :
    (size : ℕ) (filled : Bytes) (vs : List Iovec)
    → all_fit vs ≡ true
    → length filled ≤ size
    → size < length filled + sum vs
    → gather size filled vs ≡ none
unfolding all_fit sum gather
gather_too_long size filled [] h k l = absurd (omega arith)
gather_too_long size filled (v ∷ vs) h k l =
    let fits : leb v.buff_length (length v.address) ≡ true = ground arith in
    let later : all_fit vs ≡ true = ground arith in
    let l1 = length-append filled (take v.buff_length v.address) in
    let l2 = length-take v.buff_length v.address in
    elim (Bool-cases (leb (length filled + v.buff_length) size)) [
      | inl room ↦
          let ih =
            gather_too_long size (filled ++ take v.buff_length v.address) vs later (ground arith)
              (ground arith) in
          elim (Bool-cases (ltb (length filled) 2147483648)) [
            | inl low ↦ rw (low, room, fits, ih)
            | inr high ↦ rw (high)
          ]
      | inr full ↦ elim (Bool-cases (ltb (length filled) 2147483648)) [
        | inl low ↦ rw (low, full)
        | inr high ↦ rw (high)
      ]
    ]

gather_too_high :
    (size : ℕ) (filled : Bytes) (vs : List Iovec)
    → all_fit vs ≡ true
    → begins_low (length filled) vs ≡ false
    → gather size filled vs ≡ none
unfolding all_fit begins_low gather
gather_too_high size filled [] h high = cc
gather_too_high size filled (v ∷ vs) h high =
    let fits : leb v.buff_length (length v.address) ≡ true = ground arith in
    let later : all_fit vs ≡ true = ground arith in
    elim (Bool-cases (ltb (length filled) 2147483648)) [
      | inr here ↦ rw (here)
      | inl here ↦
          let ih =
            gather_too_high size (filled ++ take v.buff_length v.address) vs later
              (subst (λ z. begins_low z vs ≡ false) (moved filled v fits) (ground arith)) in
          elim (Bool-cases (leb (length filled + v.buff_length) size)) [
            | inl room ↦ rw (here, room, fits, ih)
            | inr full ↦ rw (here, full)
          ]
    ]

-- With memory, and buffers that have their lengths: when the lengths add up to less than 2^32 and
-- each buffer begins below 2^31 in their sequence, my_writev hands write() the buffers' bytes in
-- order, and returns their number, or exits when write() answers otherwise; else it writes outside
-- the buffer that it has allocated: behind it, or ahead of it, where its int `seek` is negative.
pub my_writev-contents :
    (c : Calls) (vs : List Iovec)
    → ((n : ℕ) → c.malloc n ≡ true)
    → all_fit vs ≡ true
    → my_writev c vs ≡ (
        if ltb (sum vs) 4294967296 && begins_low 0 vs
        then (if c.write (contents vs) == sum vs then returns (sum vs, contents vs) else exits)
        else overrun)
unfolding my_writev
my_writev-contents c vs m h =
    let e : total_buffer_size vs ≡ wrap (sum vs) = total_size vs in
    elim (Bool-cases (ltb (sum vs) 4294967296)) [
      | inl small ↦ elim (Bool-cases (begins_low 0 vs)) [
        | inr high ↦
            rw (small, high, e, m (wrap (sum vs)), gather_too_high (wrap (sum vs)) [] vs h high)
        | inl low ↦
            let e' : total_buffer_size vs ≡ sum vs =
              e ∙ (let z : wrap (sum vs) ≡ sum vs = ground arith in z) in
            rw (small, low, e', m (sum vs), gather-contents (sum vs) [] vs h low (omega arith))
      ]
      | inr large ↦
          let less : wrap (sum vs) < sum vs = ground arith in
          rw (
            large,
            e,
            m (wrap (sum vs)),
            gather_too_long (wrap (sum vs)) [] vs h (omega arith) (omega arith),
          )
    ]
