-- ===== src/MultiBuffer/Tests.antt =====
-- A whole run over a file of one byte, and the theorems on it.
use unix_network_programming.Transfer.{Bytes, World}
use unix_network_programming.Base.{◌≡◌, ◌⊎◌, inr, refl, true, false, some, [], ◌∷◌, ◌++◌, arith}
use unix_network_programming.MultiBuffer.{
  Buffers, Sys, sys, write_to, start, s_done, c_done, s_wait, c_wait, by_client, by_server,
  c_started, c_names, c_signals, c_waited, c_writes, c_ends, c_returns, s_started, s_opens,
  s_signals, s_loops, s_waited, s_reads, s_sends, Reach, here, after,
}
use unix_network_programming.MultiBuffer.Tokens.{wanted}
use unix_network_programming.MultiBuffer.Copy.{output, ended, copy-wanted}
use unix_network_programming.MultiBuffer.Progress.{CanStep, copy-CanStep}

-- The line "n\n" names a file that holds "A".
abbrev world : World
world = record { line = 110 ∷ 10 ∷ []; file = some (65 ∷ []); text = 63 ∷ [] }

abbrev blank : Buffers
blank i = []

abbrev end_of_run : Sys
end_of_run =
    sys s_done c_done 3 0 (write_to 1 [] (write_to 0 (65 ∷ []) (write_to 0 (110 ∷ []) blank))) []
      (65 ∷ [])

abbrev middle : Sys
middle = sys (s_wait 0) (c_wait 0) 4 0 (write_to 0 (110 ∷ []) blank) (65 ∷ []) []

prepared : Reach world (start blank) middle
prepared =
    after
      (after
        (after
          (after
            (after
              (after
                (after
                  (after (after (after here (by_client c_started)) (by_client c_names))
                    (by_client c_signals))
                  (by_server s_started))
                (by_server (s_opens refl)))
              (by_server s_signals))
            (by_server s_signals))
          (by_server s_signals))
        (by_server s_signals))
      (by_server s_loops)

copied : Reach world (start blank) end_of_run
copied =
    after
      (after
        (after
          (after
            (after
              (after
                (after
                  (after
                    (after
                      (after (after prepared (by_server s_waited)) (
                        by_server (s_reads {xs = 65 ∷ []} {ys = []} refl (omega arith) (inr refl))))
                      (by_server s_sends))
                    (by_client c_waited))
                  (by_client (c_writes refl)))
                (by_client c_returns))
              (by_server s_waited))
            (by_server (s_reads {xs = []} {ys = []} refl (omega arith) (inr refl))))
          (by_server s_sends))
        (by_client c_waited))
      (by_client (c_ends refl))

copy-wanted_example :
    ((r : Bytes) × (wanted world ≡ output end_of_run ++ r))
    × ((ended end_of_run ≡ false) ⊎ (output end_of_run ≡ wanted world))
copy-wanted_example = copy-wanted world blank end_of_run (λ e. refl) copied

copy-CanStep_example : (ended middle ≡ true) ⊎ CanStep world middle
copy-CanStep_example = copy-CanStep world blank middle (λ e. refl) prepared
