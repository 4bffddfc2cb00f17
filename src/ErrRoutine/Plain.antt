-- ===== src/ErrRoutine/Plain.antt =====
-- The routines of "Chapter 3 - Interprocess Communication/9_semaphores/err_routine.c".
use unix_network_programming.Base.{◌∷◌, ◌++◌}
use unix_network_programming.Base.Int.{ℤ}
use unix_network_programming.Transfer.{Bytes}
use unix_network_programming.ErrRoutine.{
  System, Messages, Ended, returned, exited, aborted, emesg_store, put_text, with_err_str,
}

module _ (k : System) where
  abbrev pub my_perror : (Messages → Ended) → ℤ → Messages → Ended
  my_perror next errno m =
      with_err_str k (λ err_str. emesg_store next (m.emesgstr ++ (b' ' ∷ err_str)) m) errno

  pub err_sys : Bytes → Messages → Ended
  err_sys text m = exited (put_text k text m)

  unfoldable pub err_ret : Bytes → ℤ → Messages → Ended
  err_ret text errno m = my_perror returned errno (put_text k text m)

  pub err_dump : Bytes → ℤ → Messages → Ended
  err_dump text errno m = my_perror aborted errno (put_text k text m)
