-- ===== src/Stream.antt =====
-- readn, writen and readline of Sockets/utility_routines/utils and Sockets/1.tcp, and the loops
-- over them. A descriptor is a parameter: its read() and write(), and what the program relies on of
-- them. A buffer is the list of the bytes stored in it; counts are natural numbers.
pub mod Readn
pub mod Writen
pub mod Readline
pub mod Echo
pub mod Paced
mod Tests
use unix_network_programming.Base.{
  ℕ, zero, suc, ◌+◌, ◌-◌, ◌≤◌, ◌<◌, ◌≡◌, Bool, true, false, List, [], ◌∷◌, ◌++◌, ltb, ◌==◌,
  if◌then◌else◌, length, take, drop,
}
use unix_network_programming.CString.{Bytes}

-- The answers of read() and write(), with the descriptor's state behind the call.
pub data Got (S : Type 0) : Type 0 where
  got : Bytes → S → Got S
  read_failed : S → Got S

pub data Wrote (S : Type 0) : Type 0 where
  wrote : ℕ → S → Wrote S
  write_failed : S → Wrote S

-- A connected descriptor: `pending` is what it still delivers, `written` what it has taken.
pub record Socket : Type 1 where
  pub State : Type 0
  pub read : ℕ → State → Got State
  pub write : Bytes → State → Wrote State
  pub pending : State → Bytes
  pub written : State → Bytes

module _ (k : Socket) where
  -- read(2): at most `n` bytes, the next ones; none only at the end of the input.
  abbrev pub ReadLaw : ℕ → k.State → Got k.State → Type 0
  ReadLaw n s (got [] s') =
      (0 < n → k.pending s ≡ []) × (k.pending s' ≡ k.pending s) × (k.written s' ≡ k.written s)
  ReadLaw n s (got (b ∷ bs) s') =
      (length (b ∷ bs) ≤ n)
      × (k.pending s ≡ (b ∷ bs) ++ k.pending s')
      × (k.written s' ≡ k.written s)
  ReadLaw n s (read_failed s') = (k.pending s' ≡ k.pending s) × (k.written s' ≡ k.written s)

  -- write(2): the first `n` of the bytes are taken.
  abbrev pub WriteLaw : Bytes → k.State → Wrote k.State → Type 0
  WriteLaw bs s (wrote n s') =
      (n ≤ length bs) × (k.written s' ≡ k.written s ++ take n bs) × (k.pending s' ≡ k.pending s)
  WriteLaw bs s (write_failed s') = (k.pending s' ≡ k.pending s) × (k.written s' ≡ k.written s)

  pub record IsSocket : Type 0 where
    pub reads : (n : ℕ) (s : k.State) → ReadLaw n s (k.read n s)
    pub writes : (bs : Bytes) (s : k.State) → WriteLaw bs s (k.write bs s)

  -- A call's outcome: a count with the bytes in the buffer, an error with the bytes that were
  -- stored before it, or too little fuel.
  pub data Filled : Type 0 where
    filled : (ret : ℕ) (buffer : Bytes) → k.State → Filled
    failed : (buffer : Bytes) → k.State → Filled
    out_of_fuel : Filled

  -- `while (nleft > 0)` of readn; `buffer` holds what has been read.
  pub readn_loop : (fuel nbytes nleft : ℕ) → Bytes → k.State → Filled
  readn_loop zero nbytes nleft buffer s = out_of_fuel
  readn_loop (suc f) nbytes nleft buffer s = elim (ltb 0 nleft) [
    | false ↦ filled (nbytes - nleft) buffer s
    | true ↦ elim (k.read nleft s) [
      | read_failed s' ↦ failed buffer s'
      | got bs s' ↦ elim bs [
        | [] ↦ filled (nbytes - nleft) buffer s'
        | b ∷ r ↦ readn_loop f nbytes (nleft - length (b ∷ r)) (buffer ++ (b ∷ r)) s'
      ]
    ]
  ]

  pub readn : ℕ → k.State → Filled
  readn nbytes s = readn_loop (nbytes + 1) nbytes nbytes [] s

  pub data Sent : Type 0 where
    sent : (ret : ℕ) → k.State → Sent
    send_failed : k.State → Sent
    send_out_of_fuel : Sent

  -- `while (nleft > 0)` of writen; `rest` is what `ptr` points to, `nleft` bytes of it.
  pub writen_loop : (fuel nbytes : ℕ) (rest : Bytes) → k.State → Sent
  writen_loop zero nbytes rest s = send_out_of_fuel
  writen_loop (suc f) nbytes rest s = elim (ltb 0 (length rest)) [
    | false ↦ sent (nbytes - length rest) s
    | true ↦ elim (k.write rest s) [
      | write_failed s' ↦ send_failed s'
      | wrote n s' ↦ elim n [
        | zero ↦ sent 0 s'
        | suc m ↦ writen_loop f nbytes (drop (suc m) rest) s'
      ]
    ]
  ]

  -- The bytes are the `nbytes` bytes that `ptr` points to.
  pub writen : Bytes → k.State → Sent
  writen bytes s = writen_loop (length bytes + 1) (length bytes) bytes s

  -- `for (n = 1; n < maxlen; n++)` of readline; the first argument is the rounds left.
  pub readline_loop : (rounds n : ℕ) → Bytes → k.State → Filled
  readline_loop zero n buffer s = filled n buffer s
  readline_loop (suc m) n buffer s = elim (k.read 1 s) [
    | read_failed s' ↦ failed buffer s'
    | got bs s' ↦ elim bs [
      | [] ↦ filled (if n == 1 then 0 else n) buffer s'
      | c ∷ r ↦ elim (c == b'\n') [
        | true ↦ filled n (buffer ++ c ∷ []) s'
        | false ↦ readline_loop m (n + 1) (buffer ++ c ∷ []) s'
      ]
    ]
  ]

  pub readline : ℕ → k.State → Filled
  readline maxlen s = readline_loop (maxlen - 1) 1 [] s

  -- How str_echo ends: by its return, or by exit() behind a failed read or write.
  pub data Served : Type 0 where
    finished : k.State → Served
    read_error : k.State → Served
    write_error : k.State → Served
    served_out_of_fuel : Served

  -- `writen(sockfd, line, n) != n`, and the next round behind it. The array `line` holds the
  -- buffer and the NUL behind it.
  pub echo_line : (k.State → Served) → (n : ℕ) (buffer : Bytes) → k.State → Served
  echo_line next n buffer s = elim (writen (take n (buffer ++ 0 ∷ [])) s) [
    | send_failed s' ↦ write_error s'
    | send_out_of_fuel ↦ served_out_of_fuel
    | sent m s' ↦ elim (m == n) [ true ↦ next s' | false ↦ write_error s' ]
  ]

  -- `for (;;)` of str_echo, with MAXLINE 512.
  unfoldable pub str_echo : ℕ → k.State → Served
  unfolding echo_line
  str_echo zero s = served_out_of_fuel
  str_echo (suc f) s = elim (readline 512 s) [
    | failed b s' ↦ read_error s'
    | out_of_fuel ↦ served_out_of_fuel
    | filled n buffer s' ↦ elim (n == 0) [
      | true ↦ finished s'
      | false ↦ echo_line (str_echo f) n buffer s'
    ]
  ]
