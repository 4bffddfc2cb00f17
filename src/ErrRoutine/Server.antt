-- ===== src/ErrRoutine/Server.antt =====
-- The routines of a server in err_routine.c of 7.passing_file_descriptor, which put a line together in
-- emesgstr.
use unix_network_programming.Base.{◌∷◌, ◌++◌, []}
use unix_network_programming.Base.Int.{ℤ}
use unix_network_programming.Transfer.{Bytes}
use unix_network_programming.ErrRoutine.{
  System, Messages, Ended, returned, exited, aborted, emesg_store, put, with_err_str,
}

module _ (k : System) where
  -- Behind the end of emesgstr.
  abbrev pub my_perror : (Messages → Ended) → ℤ → Messages → Ended
  my_perror next errno m =
      with_err_str k (λ err_str. emesg_store next (m.emesgstr ++ (b' ' ∷ err_str)) m) errno

  -- syslog(LOG_ERR, emesgstr).
  abbrev pub syslog : Messages → Messages
  syslog m = put (m.emesgstr ++ b'\n' ∷ []) m

  -- vsprintf() and my_perror().
  abbrev pub compose : (Messages → Ended) → Bytes → ℤ → Messages → Ended
  compose next text errno m = emesg_store (my_perror next errno) text m

  pub err_quit : Bytes → Messages → Ended
  err_quit text m = emesg_store (λ z. exited (syslog z)) text m

  pub err_sys : Bytes → ℤ → Messages → Ended
  err_sys text errno m = compose (λ z. exited (syslog z)) text errno m

  unfoldable pub err_ret : Bytes → ℤ → Messages → Ended
  err_ret text errno m = compose (λ z. returned (syslog z)) text errno m

  pub err_dump : Bytes → ℤ → Messages → Ended
  err_dump text errno m = compose (λ z. aborted (syslog z)) text errno m
