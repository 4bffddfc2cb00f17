-- ===== src/Services.antt =====
-- The programs str_echo and str_dis of "Chapter 6 - Berkely Sockets/Sockets/12.inetd", which inetd
-- starts on a client's stream. Their descriptors 0 and 1 are one socket, a parameter.
pub mod Lines
mod Tests
use unix_network_programming.Base.{ℕ, zero, suc, Bool, true, false, [], ◌∷◌, ◌++◌, ◌==◌, ◌&&◌, take}
use unix_network_programming.CString.{Bytes}
use unix_network_programming.Stream.{
  Socket, Filled, filled, failed, out_of_fuel, Sent, sent, send_failed, send_out_of_fuel, readline,
  writen, Served, finished, read_error, write_error, served_out_of_fuel,
}

abbrev pub same : Bytes → Bytes → Bool
same [] [] = true
same [] (d ∷ ds) = false
same (c ∷ cs) [] = false
same (c ∷ cs) (d ∷ ds) = (c == d) && same cs ds

-- "tcpquit" with its NUL, which strncmp(line, QUIT_CMD, 8) compares too; the NUL behind the line is
-- the one that readline stores.
abbrev pub quit_cmd : Bytes
quit_cmd = b't' ∷ b'c' ∷ b'p' ∷ b'q' ∷ b'u' ∷ b'i' ∷ b't' ∷ 0 ∷ []

abbrev pub is_quit : Bytes → Bool
is_quit buffer = same (take 8 (buffer ++ (0 ∷ []))) quit_cmd

-- "tcpdiscard", of which strncmp(line, DIS_CMD, 10) compares the ten letters.
abbrev pub dis_cmd : Bytes
dis_cmd = b't' ∷ b'c' ∷ b'p' ∷ b'd' ∷ b'i' ∷ b's' ∷ b'c' ∷ b'a' ∷ b'r' ∷ b'd' ∷ []

abbrev pub is_discard : Bytes → Bool
is_discard buffer = same (take 10 (buffer ++ (0 ∷ []))) dis_cmd

module _ (k : Socket) where
  -- A run ends as a str_echo does, or by the client's command.
  pub data Outcome : Type 0 where
    ended : Served k → Outcome
    quit : k.State → Outcome

  -- `writen(1, line, n) != n`, and the next round behind it.
  abbrev pub on_writen : (k.State → Outcome) → ℕ → Sent k → Outcome
  on_writen next n (send_failed s) = ended (write_error s)
  on_writen next n send_out_of_fuel = ended served_out_of_fuel
  on_writen next n (sent m s) = elim (m == n) [ true ↦ next s | false ↦ ended (write_error s) ]

  abbrev pub on_line : (k.State → Outcome) → ℕ → Bytes → k.State → Outcome
  on_line next n buffer s = elim (is_quit buffer) [
    | true ↦ quit s
    | false ↦ on_writen next n (writen k (take n (buffer ++ (0 ∷ []))) s)
  ]

  abbrev pub on_readline : (k.State → Outcome) → Filled k → Outcome
  on_readline next (failed b s) = ended (read_error s)
  on_readline next out_of_fuel = ended served_out_of_fuel
  on_readline next (filled n buffer s) = elim (n == 0) [
    | true ↦ ended (finished s)
    | false ↦ on_line next n buffer s
  ]

  -- `for (;;)` of str_echo.c, with MAXLINE 512.
  pub echo_service : ℕ → k.State → Outcome
  echo_service zero s = ended served_out_of_fuel
  echo_service (suc f) s = on_readline (echo_service f) (readline k 512 s)

  abbrev pub discard_line : (k.State → Outcome) → Filled k → Outcome
  discard_line next (failed b s) = ended (read_error s)
  discard_line next out_of_fuel = ended served_out_of_fuel
  discard_line next (filled n buffer s) = elim (n == 0) [
    | true ↦ ended (finished s)
    | false ↦ elim (is_discard buffer) [ true ↦ quit s | false ↦ next s ]
  ]

  -- `for (;;)` of str_dis.c.
  pub discard_service : ℕ → k.State → Outcome
  discard_service zero s = ended served_out_of_fuel
  discard_service (suc f) s = discard_line (discard_service f) (readline k 512 s)
