-- ===== src/Clients.antt =====
-- str_cli and dg_cli of "Chapter 6 - Berkely Sockets/Sockets/utility_routines", the client's sides of
-- str_echo and dg_echo. The socket is a parameter, that of Stream for str_cli and that of Datagram for
-- dg_cli; the input is the list of the texts that fgets() gives, none of them with a NUL.
pub mod Session
pub mod Answers
mod Tests
use unix_network_programming.Base.{
  ℕ, Bool, true, false, List, [], ◌∷◌, ◌++◌, ◌+◌, ◌==◌, if◌then◌else◌, length, take,
}
use unix_network_programming.CString.{Bytes}
use unix_network_programming.Stream.{
  Socket, Filled, filled, failed, out_of_fuel, Sent, sent, send_failed, send_out_of_fuel, readline,
  writen,
}
use unix_network_programming.Datagram.{Addr, Datagram, Came, came, recv_failed, sleeps, Went, went}

-- What fputs() prints of an array: the bytes ahead of the first NUL.
abbrev pub printed : Bytes → Bytes
printed [] = []
printed (c ∷ cs) = let rest = printed cs in if c == 0 then [] else c ∷ rest

-- `recvline[n] = 0` for an array that begins with `buffer` and, behind it, a NUL.
abbrev pub ended_at : ℕ → Bytes → Bytes
ended_at n buffer = take n (buffer ++ (0 ∷ [])) ++ (0 ∷ [])

module _ (k : Socket) where
  -- str_cli returns, or the process ends behind a failed call, with what it has printed.
  pub data Ran : Type 0 where
    returned : (out : Bytes) → k.State → Ran
    died : (out : Bytes) → k.State → Ran
    ran_out_of_fuel : Ran

  abbrev pub have_line : (Bytes → k.State → Ran) → Bytes → Filled k → Ran
  have_line next out (failed b s) = died out s
  have_line next out out_of_fuel = ran_out_of_fuel
  have_line next out (filled n buffer s) = next (out ++ printed (ended_at n buffer)) s

  abbrev pub have_sent : (Bytes → k.State → Ran) → Bytes → ℕ → Sent k → Ran
  have_sent next out n (send_failed s) = died out s
  have_sent next out n send_out_of_fuel = ran_out_of_fuel
  have_sent next out n (sent m s) =
      let heard = have_line next out (readline k 512 s) in if m == n then heard else died out s

  -- `while (fgets(...) != NULL)`, with MAXLINE 512.
  pub str_cli : List Bytes → Bytes → k.State → Ran
  str_cli [] out s = returned out s
  str_cli (sendline ∷ ls) out s = have_sent (str_cli ls) out (length sendline) (writen k sendline s)

module _ (k : unix_network_programming.Datagram.Socket) (pserv_addr : Addr) where
  -- dg_cli returns, sleeps in recvfrom(), or has ended the process behind a failed call.
  pub data Asked : Type 0 where
    all_asked : (out : Bytes) → k.State → Asked
    waiting : (out : Bytes) → k.State → Asked
    send_error : (out : Bytes) → k.State → Asked
    recv_error : (out : Bytes) → k.State → Asked

  abbrev pub have_answer : (Bytes → k.State → Asked) → Bytes → k.State → Came k.State → Asked
  have_answer next out s (came d s') =
      next (out ++ printed (ended_at (length d.content) d.content)) s'
  have_answer next out s (recv_failed s') = recv_error out s'
  have_answer next out s sleeps = waiting out s

  abbrev pub have_asked : (Bytes → k.State → Asked) → Bytes → Went k.State → Asked
  have_asked next out (went s) = have_answer next out s (k.recvfrom 512 s)
  have_asked next out (unix_network_programming.Datagram.send_failed s) = send_error out s

  pub dg_cli : List Bytes → Bytes → k.State → Asked
  dg_cli [] out s = all_asked out s
  dg_cli (sendline ∷ ls) out s =
      have_asked (dg_cli ls) out (k.sendto (record { content = sendline; addr = pserv_addr }) s)
