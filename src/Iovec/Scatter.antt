-- ===== src/Iovec/Scatter.antt =====
-- my_readv fills its buffers one behind the other, as long as they hold four bytes in all.
use unix_network_programming.Base.{
  ℕ, zero, suc, ◌+◌, ◌-◌, ◌≤◌, ◌<◌, ◌≡◌, refl, sym, ap, ◌∙◌, true, false, not, Bool-cases, inl, inr,
  some, List, [], ◌∷◌, ◌++◌, ltb, leb, ◌==◌, if◌then◌else◌, length, take, drop, arith, length-take,
  length-drop, take-append-drop,
}
use unix_network_programming.Iovec.{
  Bytes, Iovec, wrap, total_buffer_size, returns, overrun, scatter, ReadAnswer, got, read_all,
  my_readv,
}
use unix_network_programming.Iovec.Gather.{all_fit, sum, total_size}

-- What stands in the objects, up to the lengths.
heads : List Iovec → List Bytes → Bytes
heads [] os = []
heads (v ∷ vs) [] = []
heads (v ∷ vs) (o ∷ os) = take v.buff_length o ++ heads vs os

take-append : (n : ℕ) (xs ys : Bytes) → length xs ≡ n → take n (xs ++ ys) ≡ xs
take-append zero [] ys e = refl
take-append zero (x ∷ xs) ys e = absurd (omega arith)
take-append (suc n) [] ys e = absurd (omega arith)
take-append (suc n) (x ∷ xs) ys e = ap (λ z. x ∷ z) (take-append n xs ys (omega arith))

drop_nil : (n : ℕ) → drop {A = ℕ} n [] ≡ []
drop_nil zero = refl
drop_nil (suc n) = refl

drop-drop : (m n : ℕ) (xs : Bytes) → drop n (drop m xs) ≡ drop (m + n) xs
drop-drop zero n xs = ap (λ z. drop z xs) (let e : n ≡ 0 + n = omega arith in e)
drop-drop (suc m) n [] = drop_nil n ∙ sym (drop_nil (suc m + n))
drop-drop (suc m) n (x ∷ xs) =
    drop-drop m n xs
    ∙ ap (λ z. drop z (x ∷ xs)) (let e : suc (m + n) ≡ suc m + n = omega arith in e)

drop_all : (n : ℕ) (xs : Bytes) → length xs ≤ n → drop n xs ≡ []
drop_all zero [] h = refl
drop_all zero (x ∷ xs) h = absurd (omega arith)
drop_all (suc n) [] h = refl
drop_all (suc n) (x ∷ xs) h = drop_all n xs (omega arith)

scatter-heads :
    (buff : Bytes) (seek : ℕ) (vs : List Iovec)
    → all_fit vs ≡ true
    → length buff ≡ seek + sum vs
    → (os : List Bytes) × (scatter buff seek vs ≡ some os) × (heads vs os ≡ drop seek buff)
unfolding all_fit sum scatter heads
scatter-heads buff seek [] h l = ([], refl, sym (drop_all seek buff (omega arith)))
scatter-heads buff seek (v ∷ vs) h l =
    let fits : leb v.buff_length (length v.address) ≡ true = ground arith in
    let later : all_fit vs ≡ true = ground arith in
    let room : leb (seek + v.buff_length) (length buff) ≡ true = ground arith in
    let (os, e, q) = scatter-heads buff (seek + v.buff_length) vs later (omega arith) in
    let part = drop seek buff in
    let n = v.buff_length in
    let l1 = length-drop seek buff in
    let l2 = length-take n part in
    (
      (take n part ++ drop n v.address) ∷ os,
      rw (room, fits, e),
      ap (λ z. z ++ heads vs os) (take-append n (take n part) (drop n v.address) (omega arith))
          ∙ ap (λ z. take n part ++ z) (q ∙ sym (drop-drop seek n buff))
          ∙ take-append-drop n part,
    )

module _ {S : Type 0} (read : ℕ → S → ReadAnswer S) where
  -- With memory, buffers that have their lengths, and a first read that delivers as many bytes as
  -- the lengths add up to, at least one and less than 2^32: up to four bytes, my_readv returns their
  -- number with the bytes in the buffers, in order; more than four run over its own buffer.
  my_readv-heads :
      (f : ℕ) (vs : List Iovec) (s s' : S) (bs : Bytes)
      → all_fit vs ≡ true
      → read (sum vs) s ≡ got bs s'
      → length bs ≡ sum vs
      → 0 < sum vs
      → sum vs < 4294967296
      → (os : List Bytes) × (my_readv read true (suc f) vs s
          ≡ (if leb (sum vs) 4 then returns (os, sum vs, s') else overrun))
        × (heads vs os ≡ bs)
  unfolding my_readv read_all
  my_readv-heads f vs s s' bs h r l pos small =
      let e : total_buffer_size vs ≡ sum vs =
        total_size vs ∙ (let z : wrap (sum vs) ≡ sum vs = omega arith in z) in
      let (os, o, q) = scatter-heads bs 0 vs h (omega arith) in
      let r' : read (total_buffer_size vs) s ≡ got bs s' = ap (λ n. read n s) e ∙ r in
      let wide : ltb 4 (0 + length bs) ≡ not (leb (sum vs) 4) = ground arith in
      let full : (length bs == 0) ≡ false = ground arith in
      let left : wrap (total_buffer_size vs + 4294967296 - length bs) ≡ 0 = omega arith in
      let seek : wrap (0 + length bs) ≡ sum vs = omega arith in
      (
        os,
        elim (Bool-cases (leb (sum vs) 4)) [
          | inl a ↦ rw (r', wide, a, full, left, seek, o, read_all)
          | inr a ↦ rw (r', wide, a, read_all)
        ],
        q,
      )
