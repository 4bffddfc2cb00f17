-- ===== src/ErrRoutine/Client.antt =====
-- The routines of a client in err_routine.c of 7.passing_file_descriptor, which print on the standard
-- error.
use unix_network_programming.Base.{◌∷◌, ◌++◌, []}
use unix_network_programming.Base.Int.{ℤ}
use unix_network_programming.Transfer.{Bytes}
use unix_network_programming.ErrRoutine.{
  System, Messages, Ended, returned, exited, aborted, put, put_text, with_err_str,
}

module _ (k : System) where
  abbrev pub my_perror : (Messages → Ended) → ℤ → Messages → Ended
  my_perror next errno m =
      with_err_str k (λ err_str. next (put (b' ' ∷ (err_str ++ b'\n' ∷ [])) m)) errno

  pub err_quit : Bytes → Messages → Ended
  err_quit text m = exited (put (b'\n' ∷ []) (put_text k text m))

  pub err_sys : Bytes → ℤ → Messages → Ended
  err_sys text errno m = my_perror exited errno (put_text k text m)

  pub err_ret : Bytes → ℤ → Messages → Ended
  err_ret text errno m = my_perror returned errno (put_text k text m)

  pub err_dump : Bytes → ℤ → Messages → Ended
  err_dump text errno m = my_perror aborted errno (put_text k text m)
