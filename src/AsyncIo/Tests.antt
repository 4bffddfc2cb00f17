-- ===== src/AsyncIo/Tests.antt =====
-- Input that comes between the test of sigflag and sigsuspend().
use unix_network_programming.Base.{◌≢◌, true, false, [], ◌∷◌}
use unix_network_programming.Transfer.{Bytes}
use unix_network_programming.AsyncIo.{
  Sys, sys, suspended, arrives, blocks, sleeps, Reach, here, after, start,
}
use unix_network_programming.AsyncIo.Wakeup.{Asleep, Reach-Asleep}

abbrev late_input : Sys
late_input = sys suspended true true false [] (104 ∷ 105 ∷ []) (104 ∷ 105 ∷ []) [] false

not_empty : ◌≢◌ {A = Bytes} (104 ∷ 105 ∷ []) []
not_empty h = cc

to_late_input : Reach start late_input
to_late_input = after (after (after here blocks) (arrives {bs = 104 ∷ 105 ∷ []} not_empty)) sleeps

Reach-Asleep_example : Asleep late_input
Reach-Asleep_example =
    Reach-Asleep true true false false [] (104 ∷ 105 ∷ []) (104 ∷ 105 ∷ []) [] to_late_input
