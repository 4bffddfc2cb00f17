-- ===== src/Association.antt =====
-- "Chapter 6 - Berkely Sockets/Sockets/accept.c": tcp_open, tcp_accept, the server's loop and its
-- handler of SIGINT, and the client's tcp_connect. What the system answers is a parameter; a process
-- is its open descriptors and the number of its blocks of memory.
pub mod Settled
pub mod Interrupt
mod Tests
use unix_network_programming.Base.{
  ℕ, zero, suc, ◌-◌, Bool, true, false, ◌||◌, not, Option, none, some, List, [], ◌∷◌, ltb, ◌==◌,
  if◌then◌else◌,
}
use unix_network_programming.Transfer.{Bytes}

-- What the calls answer: a descriptor, a block, and success.
pub record Answers : Type 0 where
  pub socket : Option ℕ
  pub malloc : Bool
  pub bind : Bool
  pub listen : Bool
  pub connect : Bool

pub record Proc : Type 0 where
  pub fds : ℕ → Bool
  pub blocks : ℕ

-- A failed call's -1 is `none`; to close it does nothing.
abbrev pub gets : Option ℕ → Proc → Proc
gets none p = p
gets (some fd) p = record p { fds = λ n. if n == fd then true else p.fds n }

abbrev pub closes : Option ℕ → Proc → Proc
closes none p = p
closes (some fd) p = record p { fds = λ n. if n == fd then false else p.fds n }

abbrev pub with_block : Proc → Proc
with_block p = record p { blocks = suc p.blocks }

abbrev pub free_and_null : Proc → Proc
free_and_null p = record p { blocks = p.blocks - 1 }

pub record Returned : Type 0 where
  pub descriptor : Option ℕ
  pub process : Proc

-- The end of a call that failed behind malloc().
abbrev pub give_up : Option ℕ → Proc → Returned
give_up fd p = record { descriptor = none; process = closes fd (free_and_null p) }

-- bind() and connect() fail for a descriptor that is -1.
abbrev pub on_descriptor : Option ℕ → Bool → Bool
on_descriptor none ok = false
on_descriptor (some fd) ok = ok

-- Behind bind(), and behind the test of max_client and listen().
abbrev pub have_listened : Option ℕ → (refused : Bool) → Proc → Returned
have_listened fd refused q =
    if refused
    then give_up fd (with_block q)
    else record { descriptor = fd; process = with_block q }

abbrev pub on_bind : (max_client : ℕ) (bind listen : Bool) → Option ℕ → Proc → Returned
on_bind max_client bind listen fd q =
    if on_descriptor fd bind
    then have_listened fd (ltb 5 max_client || not listen) q
    else give_up fd (with_block q)

pub tcp_open : (max_client : ℕ) → Answers → Proc → Returned
tcp_open max_client a p =
    let q = gets a.socket p in
    if a.malloc
    then on_bind max_client a.bind a.listen a.socket q
    else record { descriptor = none; process = q }

-- Behind socket() and malloc().
abbrev pub connecting : (connect : Bool) → (fd : ℕ) → Proc → Returned
connecting connect fd q =
    if connect
    then record { descriptor = some fd; process = with_block q }
    else give_up (some fd) (with_block q)

abbrev pub have_socket : Answers → Option ℕ → Proc → Returned
have_socket a none p = record { descriptor = none; process = p }
have_socket a (some fd) p =
    let q = gets (some fd) p in
    if a.malloc then connecting a.connect fd q else record { descriptor = none; process = q }

pub tcp_connect : Answers → Proc → Returned
tcp_connect a p = have_socket a a.socket p

-- How the parent's loop stands behind its turns: at accept(), or ended by its failure. With the
-- parent, the children as they exit.
pub data Loop : Type 0 where
  accepting : Proc → List Proc → Loop
  stopped : Proc → List Proc → Loop

-- The loop over what tcp_accept() and fork() answer; a fork() that fails is taken for the parent's.
pub serve_clients : (server_sockfd : ℕ) → List (Option ℕ × Bool) → Proc → List Proc → Loop
serve_clients sockfd [] p children = accepting p children
serve_clients sockfd ((none, forks) ∷ turns) p children = stopped p children
serve_clients sockfd ((some fd, true) ∷ turns) p children =
    let both = gets (some fd) p in
    serve_clients sockfd turns (closes (some fd) both) (closes (some sockfd) both ∷ children)
serve_clients sockfd ((some fd, false) ∷ turns) p children =
    serve_clients sockfd turns (closes (some fd) (gets (some fd) p)) children

-- `while (getchar() != '\n')`, on fuel; at its end the input stays so.
pub clear_standard_output : ℕ → Bytes → Option Bytes
clear_standard_output zero input = none
clear_standard_output (suc f) [] = clear_standard_output f []
clear_standard_output (suc f) (c ∷ cs) =
    let rest = clear_standard_output f cs in if c == b'\n' then some cs else rest

pub data Handled : Type 0 where
  exits : Handled
  goes_on : (input : Bytes) → Handled
  out_of_fuel : Handled

abbrev pub is_yes : ℕ → Bool
is_yes option = (option == b'y') || (option == b'Y')

abbrev pub on_cleared : (close_it : Bool) → Option Bytes → Handled
on_cleared b none = out_of_fuel
on_cleared true (some rest) = exits
on_cleared false (some rest) = goes_on rest

pub server_sigint : ℕ → Bytes → Handled
server_sigint fuel [] = on_cleared false (clear_standard_output fuel [])
server_sigint fuel (option ∷ input) = on_cleared (is_yes option) (clear_standard_output fuel input)
