-- ===== src/Sequence/Tests.antt =====
-- Two processes, of which the second has taken a number.
use unix_network_programming.Base.{true, refl, [], ◌∷◌, arith}
use unix_network_programming.Sequence.{
  Sys, sys, lock, read_it, write_it, move, locks, reads, Reach, here, after, start,
}
use unix_network_programming.Sequence.Numbers.{Downto, numbers, numbers-Downto}

abbrev one_taken : Sys
one_taken = sys (move 2 (write_it 19 7) (move 2 (read_it 19) (λ pid. lock 20))) true 7 (7 ∷ [])

to_one_taken : Reach (start 7) one_taken
to_one_taken = after (after here (locks 2 refl)) (reads 2 refl (omega arith))

numbers-Downto_example : Downto 7 (numbers one_taken)
numbers-Downto_example = numbers-Downto 7 one_taken to_one_taken
