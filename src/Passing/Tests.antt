-- ===== src/Passing/Tests.antt =====
-- A system with files for descriptors, and the theorems of my_open on it.
use unix_network_programming.Base.{
  ℕ, ◌≡◌, refl, true, Option, none, some, List, [], ◌∷◌, ◌++◌, if◌then◌else◌, arith, ltb,
}
use unix_network_programming.Base.Int.{pos}
use unix_network_programming.Inetd.Child.{Table, close, open_at}
use unix_network_programming.Passing.{
  Cmsghdr, scm_rights, sol_socket, Answer, ok, errno, System, Calls, refused, my_open,
}
use unix_network_programming.Passing.Descriptor.{with_pipe, my_open-errno}

abbrev header : ℕ → Cmsghdr
header n = record { cmsg_len = 20; cmsg_level = sol_socket; cmsg_type = scm_rights; fd = n }

-- The file that a descriptor gives to the message.
abbrev carry : List ℕ → Option ℕ → Answer (List ℕ)
carry q none = errno 9
carry q (some f) = ok (q ++ (f ∷ []))

-- A file comes in under the descriptor 9, if that is free.
abbrev come : Table ℕ → List ℕ → Option ℕ → Answer (Option Cmsghdr × Table ℕ × List ℕ)
come t [] at = ok (none, t, [])
come t (f ∷ q) none = ok (some (header 9), open_at f 9 t, q)
come t (f ∷ q) (some g) = errno 24

-- Opening finds the file 500, unless there is a name; then errno is 2.
abbrev find_file : List ℕ → ℕ → Table ℕ → Answer (ℕ × Table ℕ)
find_file [] mode t = ok (8, open_at 500 8 t)
find_file (c ∷ cs) mode t = errno 2

abbrev system : System ℕ
system = record {
  State = List ℕ;
  cmsg_len = 20;
  cmsg_space = 24;
  sendmsg = λ m t s. carry s (t m.msg_control.fd);
  recvmsg = λ len t s. come t s (t 9);
  open_file = find_file;
}

abbrev calls : Calls system
calls = record {
  s_pipe = some (3, 4);
  near = 30;
  far = 40;
  fork = pos 77;
  execs = true;
  signal = 0;
}

abbrev shell_table : Table ℕ
shell_table n = if ltb n 3 then some n else none

my_open-errno_example :
    my_open system calls (110 ∷ []) 0 shell_table []
    ≡ refused (some 2) (close 3 (close 4 (with_pipe system calls 3 4 shell_table))) []
my_open-errno_example =
    my_open-errno system calls (110 ∷ []) 0 3 4 77 2 shell_table [] (omega arith) (omega arith) refl
      refl refl refl refl
