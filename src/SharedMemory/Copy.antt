-- ===== src/SharedMemory/Copy.antt =====
-- Every step passes the turn on, and no process is left waiting.
use unix_network_programming.Base.{Bool, true, false}
use unix_network_programming.Transfer.{Bytes, Input}
use unix_network_programming.SharedMemory.{s_done, c_done, Sys, sys, Step}

abbrev pub output : Sys → Bytes
output (sys s c sv cm b u o) = o

abbrev pub ended : Sys → Bool
ended (sys s_done c_done sv cm b u o) = true
ended _ = false

module _ (w : Input) where
  abbrev pub CanStep : Sys → Type 0
  CanStep s = (t : Sys) × Step w s t
