-- ===== src/Inetd/Watch.antt =====
-- Which sockets inetd.c watches, as tests on its table, and what its loops do to them.
use unix_network_programming.Base.{
  ℕ, suc, ◌≡◌, Bool-cases, inl, inr, refl, ◌∙◌, Bool, true, false, ◌&&◌, ◌||◌, not, List, [], ◌∷◌,
  ◌==◌, if◌then◌else◌, arith,
}
use unix_network_programming.Base.Int.{pos, negsuc}
use unix_network_programming.Inetd.{Service, FdSet, fd_set, fd_clr, same_pid}
use unix_network_programming.Inetd.Round.{is_zero, busy, set_all, clear_busy, rearm}

-- Whether a service has the socket.
unfoldable pub has : ℕ → List Service → Bool
has n [] = false
has n (s ∷ ss) = n == s.sockfd || has n ss

-- Whether a datagram service with a running child has it.
unfoldable pub has_busy : ℕ → List Service → Bool
has_busy n [] = false
has_busy n (s ∷ ss) = n == s.sockfd && busy s || has_busy n ss

unfoldable pub busy_count : List Service → ℕ
busy_count [] = 0
busy_count (s ∷ ss) = if busy s then suc (busy_count ss) else busy_count ss

unfoldable pub distinct : List Service → Bool
distinct [] = true
distinct (s ∷ ss) = not (has s.sockfd ss) && distinct ss

-- A stream service has the child_pid -1, and there are no types but the two.
abbrev pub sound : Service → Bool
sound s = s.sock_type == 0 && same_pid s.child_pid (negsuc 0) || s.sock_type == 1

unfoldable pub all_sound : List Service → Bool
all_sound [] = true
all_sound (s ∷ ss) = sound s && all_sound ss

set_all_lem : (ss : List Service) (f : FdSet) (n : ℕ) → set_all ss f n ≡ (has n ss || f n)
unfolding set_all has
set_all_lem [] f n = refl
set_all_lem (s ∷ ss) f n = set_all_lem ss (fd_set s.sockfd f) n ∙ ground arith

clear_busy_lem :
    (ss : List Service) (f : FdSet) (n : ℕ) → clear_busy ss f n ≡ (f n && not (has_busy n ss))
unfolding clear_busy has_busy
clear_busy_lem [] f n = ground arith
clear_busy_lem (s ∷ ss) f n =
    clear_busy_lem ss (if busy s then fd_clr s.sockfd f else f) n ∙ ground arith

count_zero :
    (s : Service) (ss : List Service)
    → busy_count (s ∷ ss) ≡ 0
    → (busy s ≡ false) × (busy_count ss ≡ 0)
unfolding busy_count
count_zero s ss e = (ground arith, ground arith)

pub none_busy : (ss : List Service) (n : ℕ) → busy_count ss ≡ 0 → has_busy n ss ≡ false
unfolding has_busy
none_busy [] n e = refl
none_busy (s ∷ ss) n e = let (idle, z) = count_zero s ss e in ground (arith, none_busy ss n z)

-- The loops behind the scan watch the sockets of the services but those of running datagram
-- children, provided that the count says how many of these there are.
pub rearm_lem :
    (ss : List Service) (f : FdSet) (n : ℕ)
    → (f n && not (has n ss) ≡ false)
    → rearm ss (pos (busy_count ss)) f n ≡ (has n ss && not (has_busy n ss))
unfolding rearm
rearm_lem ss f n sub = elim (Bool-cases (is_zero (pos (busy_count ss)))) [
  | inl z ↦ ground (arith, set_all_lem ss f n, none_busy ss n (ground arith))
  | inr z ↦ ground (arith, set_all_lem ss f n, clear_busy_lem ss (set_all ss f) n)
]
