-- ===== src/ErrRoutine.antt =====
-- The error routines of "Chapter 6 - Berkely
-- Sockets/Sockets/7.passing_file_descriptor/err_routine.c", for a client and for a server, and
-- those of "Chapter 3 - Interprocess Communication/9_semaphores/ err_routine.c", all as compiled
-- without SYS5 and BSD. The text that the format gives, the system's table of errors and the digits
-- of a number are parameters.
pub mod Client
pub mod Server
pub mod Plain
pub mod Bounds
mod Tests
use unix_network_programming.Base.{
  ℕ, ◌+◌, Bool, true, false, Option, none, some, List, [], ◌∷◌, ◌++◌, ltb, ◌==◌, length,
  if◌then◌else◌,
}
use unix_network_programming.Base.Int.{ℤ, pos, negsuc}
use unix_network_programming.Transfer.{Bytes}

-- pname, sys_nerr, sys_errlist, and what "%d" prints.
pub record System : Type 0 where
  pub pname : Option Bytes
  pub sys_nerr : ℕ
  pub sys_errlist : ℕ → Bytes
  pub digits : ℤ → Bytes

-- emesgstr up to its NUL, and what is on the standard error, or in the log of a server.
pub record Messages : Type 0 where
  pub emesgstr : Bytes
  pub output : Bytes

-- The size of emesgstr.
abbrev pub emesg_size : ℕ
emesg_size = 255

abbrev pub msgstr_size : ℕ
msgstr_size = 200

-- How a call ends: it returns, or ends the process by exit() or by abort(); or it has written behind
-- the end of emesgstr or of msgstr.
pub data Ended : Type 0 where
  returned : Messages → Ended
  exited : Messages → Ended
  aborted : Messages → Ended
  overflowed : Ended

abbrev pub emesg_store : (Messages → Ended) → Bytes → Messages → Ended
emesg_store next text m =
    let rest = next (record m { emesgstr = text }) in
    if ltb (length text) emesg_size then rest else overflowed

-- "(errno = ".
abbrev pub errno_is : Bytes
errno_is = b'(' ∷ b'e' ∷ b'r' ∷ b'r' ∷ b'n' ∷ b'o' ∷ b' ' ∷ b'=' ∷ b' ' ∷ []

abbrev pub put : Bytes → Messages → Messages
put text m = record m { output = m.output ++ text }

module _ (k : System) where
  abbrev pub sys_err_str : ℤ → Bytes
  sys_err_str (pos n) =
      if n == 0
      then []
      else if ltb n k.sys_nerr
      then b'(' ∷ k.sys_errlist n ++ b')' ∷ []
      else errno_is ++ (k.digits (pos n) ++ b')' ∷ [])
  sys_err_str (negsuc n) = errno_is ++ (k.digits (negsuc n) ++ b')' ∷ [])

  -- What is made of the error's text, which sys_err_str puts into msgstr[200].
  abbrev pub with_err_str : (Bytes → Ended) → ℤ → Ended
  with_err_str next errno =
      let rest = next (sys_err_str errno) in
      if ltb (length (sys_err_str errno)) msgstr_size then rest else overflowed

  -- "%s: " with pname, where it is set.
  abbrev pub put_pname : Option Bytes → Messages → Messages
  put_pname none m = m
  put_pname (some p) m = put (p ++ (b':' ∷ b' ' ∷ [])) m

  -- What the three variants of err_ret, err_sys and err_dump print first: the name and the text.
  abbrev pub put_text : Bytes → Messages → Messages
  put_text text m = put text (put_pname k.pname m)
