-- ===== src/Passing.antt =====
-- my_open of "Chapter 6 - Berkely Sockets/Sockets/7.passing_file_descriptor": a child opens a file in
-- the program of openfile.c and sends the descriptor with my_sendfile, and the parent takes it with
-- my_recvfile. sendmsg(), recvmsg() and open() are a parameter.
pub mod Descriptor
mod Tests
use unix_network_programming.Base.{
  ℕ, zero, suc, ◌+◌, ◌*◌, ◌/◌, ◌%◌, ◌<◌, ◌≡◌, ◌≢◌, Bool, true, false, Option, none, some, List, [],
  ◌∷◌, ◌++◌, ◌==◌, ltb, if◌then◌else◌,
}
use unix_network_programming.Base.Int.{ℤ, pos, negsuc}
use unix_network_programming.Inetd.Child.{Table, close, open_at}

-- The header of the control buffer and the descriptor behind it.
pub record Cmsghdr : Type 0 where
  pub cmsg_len : ℕ
  pub cmsg_level : ℕ
  pub cmsg_type : ℕ
  pub fd : ℕ

-- An iovec is its length here; the base of each is null.
pub record Msghdr : Type 0 where
  pub msg_iov : List ℕ
  pub msg_iovlen : ℕ
  pub msg_control : Cmsghdr
  pub msg_controllen : ℕ

abbrev pub sol_socket : ℕ
sol_socket = 1

abbrev pub scm_rights : ℕ
scm_rights = 1

-- A call's answer, or errno.
pub data Answer (A : Type 0) : Type 0 where
  ok : A → Answer A
  errno : ℕ → Answer A

-- The system: a pair of sockets; what each of the calls
-- does with a process's descriptors; and the sizes of a control buffer for an int.
pub record System (F : Type 0) : Type 1 where
  pub State : Type 0
  pub cmsg_len : ℕ
  pub cmsg_space : ℕ
  pub sendmsg : Msghdr → Table F → State → Answer State
  pub recvmsg : (controllen : ℕ) → Table F → State → Answer (Option Cmsghdr × Table F × State)
  pub open_file : (filename : List ℕ) → (mode : ℕ) → Table F → Answer (ℕ × Table F)

module _ {F : Type 0} (k : System F) where
  -- `(errno > 0) ? errno : 255`.
  abbrev pub error_code : ℕ → ℕ
  error_code e = if ltb 0 e then e else 255

  -- The message of my_sendfile: one iovec of no bytes, and the descriptor.
  abbrev pub rights_message : ℕ → Msghdr
  rights_message fd = record {
    msg_iov = 0 ∷ [];
    msg_iovlen = 1;
    msg_control = record {
      cmsg_len = k.cmsg_len;
      cmsg_level = sol_socket;
      cmsg_type = scm_rights;
      fd = fd;
    };
    msg_controllen = k.cmsg_space;
  }

  abbrev pub on_sendmsg : k.State → Answer k.State → ℕ × k.State
  on_sendmsg s (ok s') = (0, s')
  on_sendmsg s (errno e) = (error_code e, s)

  -- What it returns, and the sockets behind it.
  pub my_sendfile : (fd : ℕ) → Table F → k.State → ℕ × k.State
  my_sendfile fd t s = on_sendmsg s (k.sendmsg (rights_message fd) t s)

  abbrev pub on_open : k.State → Answer (ℕ × Table F) → ℕ × k.State
  on_open s (ok (fd, t)) = my_sendfile fd t s
  on_open s (errno e) = (error_code e, s)

  -- main of openfile.c with its four arguments: its exit status.
  pub openfile : (filename : List ℕ) → (mode : ℕ) → Table F → k.State → ℕ × k.State
  openfile filename mode t s = on_open s (k.open_file filename mode t)

  -- my_recvfile returns, or the process exits.
  pub data Received : Type 0 where
    received : (fd : ℕ) → Table F → k.State → Received
    no_rights : Received

  abbrev pub on_recvmsg : Table F → k.State → Answer (Option Cmsghdr × Table F × k.State) → Received
  on_recvmsg t s (errno e) = received (error_code e) t s
  on_recvmsg t s (ok (none, t', s')) = no_rights
  on_recvmsg t s (ok (some c, t', s')) =
      if c.cmsg_type == scm_rights then received c.fd t' s' else no_rights

  pub my_recvfile : Table F → k.State → Received
  my_recvfile t s = on_recvmsg t s (k.recvmsg k.cmsg_space t s)

  -- What my_open asks of the system around it: the descriptors of s_pipe with the files of its two
  -- ends, the answer of fork(), whether execl() succeeds, and the number of a signal that ends the
  -- child, or 0.
  pub record Calls : Type 0 where
    pub s_pipe : Option (ℕ × ℕ)
    pub near : F
    pub far : F
    pub fork : ℤ
    pub execs : Bool
    pub signal : ℕ

  -- It returns a descriptor; or -1, with errno where it sets it; or the process ends.
  pub data Opened : Type 0 where
    opened : (fd : ℕ) → Table F → k.State → Opened
    refused : (errno : Option ℕ) → Table F → k.State → Opened
    died : Opened

  -- Behind `my_recvfile(sfd[0])`.
  abbrev pub then_close : ℕ → Received → Opened
  then_close near (received fd t s) = opened fd (close near t) s
  then_close near no_rights = died

  -- wait()'s status word: a program's exit status in the second byte, a signal in the first.
  abbrev pub wait_status : (signal code : ℕ) → ℕ
  wait_status signal code = if signal == 0 then code % 256 * 256 else signal

  abbrev pub on_status : ℕ → ℕ → Table F → k.State → Opened
  on_status near status t s =
      if status % 256 == 0
      then if status / 256 % 256 == 0
        then then_close near (my_recvfile t s)
        else refused (some (status / 256 % 256)) (close near t) s
      else died

  -- The child: where execl() fails, err_sys ends it with status 1.
  abbrev pub child : Calls → List ℕ → ℕ → ℕ → Table F → k.State → ℕ × k.State
  child c filename mode near t s =
      if c.execs then openfile filename mode (close near t) s else (1, s)

  abbrev pub behind_fork : Calls → List ℕ → ℕ → (near far : ℕ) → ℤ → Table F → k.State → Opened
  behind_fork c filename mode near far (negsuc e) t s = died
  behind_fork c filename mode near far (pos pid) t s =
      let ran = child c filename mode near t s in
      on_status near (wait_status c.signal (ran.0)) (close far t) (ran.1)

  abbrev pub behind_pipe : Calls → List ℕ → ℕ → Option (ℕ × ℕ) → Table F → k.State → Opened
  behind_pipe c filename mode none t s = refused none t s
  behind_pipe c filename mode (some (near, far)) t s =
      behind_fork c filename mode near far c.fork (open_at c.far far (open_at c.near near t)) s

  -- The descriptors are the parent's.
  pub my_open : Calls → (filename : List ℕ) → (mode : ℕ) → Table F → k.State → Opened
  my_open c filename mode t s = behind_pipe c filename mode c.s_pipe t s
