-- ===== src/SharedMemory/Tests.antt =====
-- A beginning of a run through the one buffer, and the theorem on it.
use unix_network_programming.Base.{none, [], ◌∷◌}
use unix_network_programming.Transfer.{Input}
use unix_network_programming.SharedMemory.{Sys, sys, s_open, c_wait}

-- The line "n\n", and no file.
abbrev input : Input
input = record { line = 110 ∷ 10 ∷ []; disk = λ name. none; text = 63 ∷ [] }

abbrev name_given : Sys
name_given = sys s_open c_wait 0 0 (110 ∷ []) [] []
