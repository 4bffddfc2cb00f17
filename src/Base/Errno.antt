-- ===== src/Base/Errno.antt =====
-- The values of errno that the program tests or sets; `other` is any further one.
use unix_network_programming.Base.{ℕ, Bool, true, false}

pub data Errno : Type 0 where
  einval erange eagain eaddrinuse eexist eacces eintr : Errno
  other : ℕ → Errno

abbrev pub is_eaddrinuse : Errno → Bool
is_eaddrinuse eaddrinuse = true
is_eaddrinuse e = false

abbrev pub is_eexist : Errno → Bool
is_eexist eexist = true
is_eexist e = false

abbrev pub is_eacces : Errno → Bool
is_eacces eacces = true
is_eacces e = false

abbrev pub is_eintr : Errno → Bool
is_eintr eintr = true
is_eintr e = false

abbrev pub is_einval : Errno → Bool
is_einval einval = true
is_einval e = false
