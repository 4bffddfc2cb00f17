-- ===== src/AsyncIo.antt =====
-- The loop of "Chapter 6 - Berkely Sockets/Sockets/9.async_io/async_io.c" and its handler, as steps of
-- the process and of the system that delivers SIGIO. Of SIGIO at most one is pending; it is delivered
-- where it is not blocked, and raised whenever input comes. A read() gets some of the input, as of a
-- terminal one line at most. The steps are those of calls that
-- succeed.
pub mod Wakeup
mod Tests
use unix_network_programming.Base.{ℕ, ◌≡◌, ◌≢◌, Bool, true, false, List, [], ◌∷◌, ◌++◌, ◌≤◌, length}
use unix_network_programming.Transfer.{Bytes}

abbrev pub buffsize : ℕ
buffsize = 4096

-- Where the process is: ahead of SIG_BLOCK, at the test of sigflag, asleep in sigsuspend(), ahead of
-- read(), ahead of the write() of what it got, of `sigflag = 0`, and of SIG_SETMASK; or returned.
pub data Place : Type 0 where
  block : Place
  test : Place
  suspended : Place
  read_in : Place
  writing : Bytes → Place
  clear : Place
  unblock : Place
  returned : Place

-- The place, whether SIGIO is blocked and pending, sigflag, what the last read() left behind, what
-- has come in all, what of it is not read, and what has been written; and whether the input is at
-- its end.
pub data Sys : Type 0 where
  sys :
      Place
      → (blocked pending sigflag : Bool) → (left : Bytes) → (input unread output : Bytes)
      → (at_end : Bool) → Sys

pub data Step : Sys → Sys → Type 0 where
  -- The system: input comes, or its end, and the handler runs.
  arrives :
      {p : Place} {b s f e : Bool} {n : Bytes} {i u o bs : Bytes}
      → bs ≢ []
      → Step (sys p b s f n i u o e) (sys p b true f n (i ++ bs) (u ++ bs) o e)
  ends :
      {p : Place} {b s f e : Bool} {n : Bytes} {i u o : Bytes}
      → Step (sys p b s f n i u o e) (sys p b true f n i u o true)
  sigio_func :
      {p : Place} {f e : Bool} {n : Bytes} {i u o : Bytes}
      → Step (sys p false true f n i u o e) (sys p false false true n i u o e)
  -- sigsuspend() lets SIGIO in, and comes back behind the handler with the mask as before.
  wakes :
      {b f e : Bool} {n : Bytes} {i u o : Bytes}
      → Step (sys suspended b true f n i u o e) (sys test b false true n i u o e)
  -- The process.
  blocks :
      {b s f e : Bool} {n : Bytes} {i u o : Bytes}
      → Step (sys block b s f n i u o e) (sys test true s f n i u o e)
  sleeps :
      {b s e : Bool} {n : Bytes} {i u o : Bytes}
      → Step (sys test b s false n i u o e) (sys suspended b s false n i u o e)
  goes_on :
      {b s e : Bool} {n : Bytes} {i u o : Bytes}
      → Step (sys test b s true n i u o e) (sys read_in b s true n i u o e)
  reads :
      {b s f e : Bool} {n i u xs ys o : Bytes}
      → u ≡ xs ++ ys
      → xs ≢ []
      → length xs ≤ buffsize
      → Step (sys read_in b s f n i u o e) (sys (writing xs) b s f ys i ys o e)
  reads_end :
      {b s f : Bool} {n : Bytes} {i o : Bytes}
      → Step (sys read_in b s f n i [] o true) (sys returned b s f [] i [] o true)
  writes :
      {b s f e : Bool} {n : Bytes} {i u o bs : Bytes}
      → Step (sys (writing bs) b s f n i u o e) (sys clear b s f n i u (o ++ bs) e)
  clears :
      {b s f e : Bool} {n : Bytes} {i u o : Bytes}
      → Step (sys clear b s f n i u o e) (sys unblock b s false n i u o e)
  unblocks :
      {b s f e : Bool} {n : Bytes} {i u o : Bytes}
      → Step (sys unblock b s f n i u o e) (sys block false s f n i u o e)

pub data Reach (s : Sys) : Sys → Type 0 where
  here : Reach s s
  after : {t t' : Sys} → Reach s t → Step t t' → Reach s t'

-- The loop begins with SIGIO let in and nothing read.
abbrev pub start : Sys
start = sys block false false false [] [] [] [] false
