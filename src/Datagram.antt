-- ===== src/Datagram.antt =====
-- The datagram servers: dg_echo of "Chapter 6 - Berkely Sockets/Sockets/utility_routines/
-- connectionless_server", and the programs dg_echo and dg_dis of "Sockets/12.inetd". The socket, with
-- recvfrom() and sendto(), is a parameter; a loop runs on fuel.
pub mod Echo
pub mod OneClient
pub mod Pair
mod Tests
use unix_network_programming.Base.{
  ℕ, zero, suc, ◌≡◌, Bool, true, false, Option, none, some, List, [], ◌∷◌, ◌++◌, ◌==◌, ◌&&◌, not,
  if◌then◌else◌, length, take, drop,
}
use unix_network_programming.CString.{Bytes}

pub record Addr : Type 0 where
  pub sin_port : ℕ
  pub sin_addr : ℕ

pub record Datagram : Type 0 where
  pub content : Bytes
  pub addr : Addr

-- recvfrom(): a datagram, a failure, or none is there and the call sleeps.
pub data Came (S : Type 0) : Type 0 where
  came : Datagram → S → Came S
  recv_failed : S → Came S
  sleeps : Came S

-- sendto(): whether it answers with the datagram's length.
pub data Went (S : Type 0) : Type 0 where
  went : S → Went S
  send_failed : S → Went S

pub record Socket : Type 1 where
  pub State : Type 0
  pub incoming : State → List Datagram
  pub sent : State → List Datagram
  pub recvfrom : ℕ → State → Came State
  pub sendto : Datagram → State → Went State

-- What arrives in a buffer of `n` bytes.
abbrev pub cut : ℕ → Datagram → Datagram
cut n d = record d { content = take n d.content }

abbrev same : Bytes → Bytes → Bool
same [] [] = true
same [] (d ∷ ds) = false
same (c ∷ cs) [] = false
same (c ∷ cs) (d ∷ ds) = (c == d) && same cs ds

-- strncmp(mesg, cmd, n) == 0, for a command of n characters.
abbrev pub is_command : Bytes → Bytes → Bool
is_command cmd mesg = same (take (length cmd) mesg) cmd

-- "udpquit\n".
abbrev pub udp_cmd : Bytes
udp_cmd = b'u' ∷ b'd' ∷ b'p' ∷ b'q' ∷ b'u' ∷ b'i' ∷ b't' ∷ b'\n' ∷ []

-- "udpdiscard\n", and "closing\n" with the NUL behind it.
abbrev pub udp_dis : Bytes
udp_dis = b'u' ∷ b'd' ∷ b'p' ∷ b'd' ∷ b'i' ∷ b's' ∷ b'c' ∷ b'a' ∷ b'r' ∷ b'd' ∷ b'\n' ∷ []

abbrev pub closing : Bytes
closing = b'c' ∷ b'l' ∷ b'o' ∷ b's' ∷ b'i' ∷ b'n' ∷ b'g' ∷ b'\n' ∷ 0 ∷ []

module _ (k : Socket) where
  -- recvfrom(2): the next datagram, what is behind the buffer's end is lost.
  abbrev pub RecvLaw : ℕ → k.State → Came k.State → Type 0
  RecvLaw n s (came d s') =
      (full : Datagram) × (k.incoming s ≡ full ∷ k.incoming s')
      × (d ≡ cut n full)
      × (k.sent s' ≡ k.sent s)
  RecvLaw n s (recv_failed s') = (k.incoming s' ≡ k.incoming s) × (k.sent s' ≡ k.sent s)
  RecvLaw n s sleeps = k.incoming s ≡ []

  -- sendto(2): the whole datagram or nothing.
  abbrev pub SendLaw : Datagram → k.State → Went k.State → Type 0
  SendLaw d s (went s') = (k.sent s' ≡ k.sent s ++ (d ∷ [])) × (k.incoming s' ≡ k.incoming s)
  SendLaw d s (send_failed s') = (k.sent s' ≡ k.sent s) × (k.incoming s' ≡ k.incoming s)

  pub record IsSocket : Type 0 where
    pub receives : (n : ℕ) (s : k.State) → RecvLaw n s (k.recvfrom n s)
    pub sends : (d : Datagram) (s : k.State) → SendLaw d s (k.sendto d s)

  -- The server sleeps in recvfrom(), has left its loop, or has failed; or the fuel is used up.
  pub data Serving : Type 0 where
    waiting : k.State → Serving
    closed : k.State → Serving
    failed : k.State → Serving
    out_of_fuel : k.State → Serving

  abbrev pub on_sendto : (k.State → Serving) → Went k.State → Serving
  on_sendto next (went s) = next s
  on_sendto next (send_failed s) = failed s

  -- dg_echo of the utility routines, with MAXMESG 2048.
  abbrev pub echo_turn : (k.State → Serving) → k.State → Came k.State → Serving
  echo_turn next s (came d s') = on_sendto next (k.sendto d s')
  echo_turn next s (recv_failed s') = failed s'
  echo_turn next s sleeps = waiting s

  pub dg_echo : ℕ → k.State → Serving
  dg_echo zero s = out_of_fuel s
  dg_echo (suc fuel) s = echo_turn (dg_echo fuel) s (k.recvfrom 2048 s)

  -- The variables of the programs: mesg with what is left in it, the address of the last datagram,
  -- that of the first client, and the count.
  pub record Vars : Type 0 where
    pub mesg : Bytes
    pub pcli_addr : Addr
    pub first_client : Addr
    pub msgcnt : ℕ

  -- A datagram overwrites the beginning of mesg.
  abbrev pub take_in : Datagram → Vars → Vars
  take_in d v = record v { mesg = d.content ++ drop (length d.content) v.mesg; pcli_addr = d.addr }

  -- `memcpy(&first_client, ...)` where no message has been answered.
  abbrev pub remember : Vars → Vars
  remember v = if v.msgcnt == 0 then record v { first_client = v.pcli_addr } else v

  -- The datagram is passed over: `first_client.sin_port != pcli_addr.sin_port`.
  abbrev pub skipped : Vars → Bool
  skipped v = if v.msgcnt == 0 then false else not (v.first_client.sin_port == v.pcli_addr.sin_port)

  abbrev pub counted : Vars → Vars
  counted v = record v { msgcnt = suc v.msgcnt }

  -- A message of `n` bytes from the first client.
  abbrev pub answer_echo : (Vars → k.State → Serving) → ℕ → Vars → k.State → Serving
  answer_echo next n v s =
      if is_command udp_cmd v.mesg
      then closed s
      else on_sendto (next (counted v))
          (k.sendto (record { content = take n v.mesg; addr = v.pcli_addr }) s)

  abbrev pub service_turn : (Vars → k.State → Serving) → Vars → k.State → Came k.State → Serving
  service_turn next v s (came d s') =
      let w = remember (take_in d v) in
      let passed = next w s' in
      if skipped w then passed else answer_echo next (length d.content) w s'
  service_turn next v s (recv_failed s') =
      let w = remember v in let passed = next w s' in if skipped w then passed else failed s'
  service_turn next v s sleeps = waiting s

  -- main of dg_echo.c.
  pub dg_echo_service : ℕ → Vars → k.State → Serving
  dg_echo_service zero v s = out_of_fuel s
  dg_echo_service (suc fuel) v s = service_turn (dg_echo_service fuel) v s (k.recvfrom 2048 s)

  -- The state behind a sendto() whose answer is not looked at.
  abbrev pub whichever : Went k.State → k.State
  whichever (went s) = s
  whichever (send_failed s) = s

  abbrev pub to_client : Bytes → Vars → Datagram
  to_client b v = record { content = b; addr = v.pcli_addr }

  -- Behind the test of `n == 0`.
  abbrev pub answer_dis : (Vars → k.State → Serving) → Vars → k.State → Serving
  answer_dis next v s =
      if is_command udp_dis v.mesg
      then on_sendto closed (k.sendto (to_client closing v) s)
      else on_sendto (next (counted v)) (k.sendto (to_client [] v) s)

  abbrev pub say_closing : ℕ → Vars → k.State → k.State
  say_closing zero v s = whichever (k.sendto (to_client closing v) s)
  say_closing (suc n) v s = s

  abbrev pub dis_turn : (Vars → k.State → Serving) → Vars → k.State → Came k.State → Serving
  dis_turn next v s (came d s') =
      let w = remember (take_in d v) in
      let passed = next w s' in
      if skipped w then passed else answer_dis next w (say_closing (length d.content) w s')
  dis_turn next v s (recv_failed s') =
      let w = remember v in let passed = next w s' in if skipped w then passed else failed s'
  dis_turn next v s sleeps = waiting s

  -- main of dg_dis.c.
  pub dg_dis_service : ℕ → Vars → k.State → Serving
  dg_dis_service zero v s = out_of_fuel s
  dg_dis_service (suc fuel) v s = dis_turn (dg_dis_service fuel) v s (k.recvfrom 2048 s)
