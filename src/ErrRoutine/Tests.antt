-- ===== src/ErrRoutine/Tests.antt =====
-- Two failed calls with the errno 2.
use unix_network_programming.Base.{◌≡◌, none, List, [], ◌∷◌, arith}
use unix_network_programming.Base.Int.{pos}
use unix_network_programming.ErrRoutine.{System, Messages, returned}
use unix_network_programming.ErrRoutine.Server
use unix_network_programming.ErrRoutine.Plain
use unix_network_programming.ErrRoutine.Bounds.{Call, ret_all, lines, ret_all-bounds}

abbrev system : System
system = record {
  pname = none;
  sys_nerr = 3;
  sys_errlist = λ n. b'n' ∷ b'o' ∷ [];
  digits = λ n. [];
}

abbrev quiet : Messages
quiet = record { emesgstr = []; output = [] }

abbrev calls : List Call
calls = (b'a' ∷ [], pos 2) ∷ (b'b' ∷ [], pos 2) ∷ []

ret_all-bounds_example :
    (ret_all (Server.err_ret system) calls quiet
      ≡ returned (record {
        emesgstr = b'b' ∷ b' ' ∷ b'(' ∷ b'n' ∷ b'o' ∷ b')' ∷ [];
        output = lines system calls;
      }))
    × (ret_all (Plain.err_ret system) calls quiet
        ≡ returned (record {
          emesgstr = b' ' ∷ b'(' ∷ b'n' ∷ b'o' ∷ b')' ∷ b' ' ∷ b'(' ∷ b'n' ∷ b'o' ∷ b')' ∷ [];
          output = b'a' ∷ b'b' ∷ [];
        }))
ret_all-bounds_example = ret_all-bounds system calls quiet (omega arith)
