-- ===== src/Lock/Tests.antt =====
-- A directory of three names, and the locks in it.
use unix_network_programming.Base.{
  ℕ, ◌+◌, ◌≡◌, ◌≢◌, refl, Bool, true, false, ◌==◌, if◌then◌else◌, Bool-cases, inl, inr, arith, ap,
}
use unix_network_programming.Base.Errno.{eexist, eacces, other}
use unix_network_programming.Lock.{
  Name, lockfile, tempfile, lck, Reply, done, error, Files, IsExclusive, OpenLaw, UnlinkLaw,
  my_open_lock,
}
use unix_network_programming.Lock.Exclusion.{Locks, my_open_lock-my_open_unlock}

abbrev number : Name → ℕ
number lockfile = 0
number tempfile = 1
number (lck p) = p + 2

-- Whether a name exists, and whether it may be written.
pub record Dir : Type 0 where
  pub there : ℕ → Bool
  pub may : ℕ → Bool

abbrev write : ℕ → Bool → (ℕ → Bool) → ℕ → Bool
write n v f m = if m == n then v else f m

abbrev made : Name → Bool → Dir → Dir
made n w d = record { there = write (number n) true d.there; may = write (number n) w d.may }

abbrev creat_in : Name → Bool → Dir → Reply Dir
creat_in n w d =
    if d.there (number n)
    then (if d.may (number n) then done d else error eacces d)
    else done (made n w d)

abbrev link_in : Name → Name → Dir → Reply Dir
link_in m n d =
    if d.there (number m)
    then (if d.there (number n) then error eexist d else done (made n true d))
    else error (other 2) d

abbrev unlink_in : Name → Dir → Reply Dir
unlink_in n d =
    if d.there (number n)
    then done (record d { there = write (number n) false d.there })
    else error (other 2) d

abbrev open_in : Name → Dir → Reply Dir
open_in n d = if d.there (number n) then error eexist d else done (made n true d)

abbrev files : Files
files = record {
  State = Dir;
  creat = creat_in;
  link = link_in;
  unlink = unlink_in;
  open_excl = open_in;
  exists = λ d n. d.there (number n);
  writable = λ d n. d.may (number n);
}

number_inj : (m n : Name) → number m ≡ number n → m ≡ n
number_inj lockfile lockfile e = refl
number_inj lockfile tempfile e = absurd (omega arith)
number_inj lockfile (lck p) e = absurd (omega arith)
number_inj tempfile lockfile e = absurd (omega arith)
number_inj tempfile tempfile e = refl
number_inj tempfile (lck p) e = absurd (omega arith)
number_inj (lck p) lockfile e = absurd (omega arith)
number_inj (lck p) tempfile e = absurd (omega arith)
number_inj (lck p) (lck q) e = ap lck (let h : p ≡ q = omega arith in h)

apart : (m n : Name) → m ≢ n → (number m == number n) ≡ false
apart m n ne = elim (Bool-cases (number m == number n)) [
  | inl t ↦ absurd (ne (number_inj m n (let h : number m ≡ number n = ground arith in h)))
  | inr f ↦ f
]

written_else :
    (n : Name) (v : Bool) (f : ℕ → Bool) (m : Name)
    → m ≢ n
    → write (number n) v f (number m) ≡ f (number m)
written_else n v f m ne = rw (apart m n ne)

written : (n : ℕ) (v : Bool) (f : ℕ → Bool) → write n v f n ≡ v
written n v f = ground arith

opened :
    (n : Name) (d : Dir) (b : Bool)
    → d.there (number n) ≡ b
    → OpenLaw files n d (if b then error eexist d else done (made n true d))
opened n d true e = (λ m. refl, inr e)
opened n d false e = (e, written (number n) true d.there, λ m ne. written_else n true d.there m ne)

unlinked :
    (n : Name) (d : Dir) (b : Bool)
    → UnlinkLaw files n d (
        if b then done (record d { there = write (number n) false d.there }) else error (other 2) d)
unlinked n d true = (written (number n) false d.there, λ m ne. written_else n false d.there m ne)
unlinked n d false = λ m. refl

files-IsExclusive : IsExclusive files
files-IsExclusive = record {
  opens = λ n d. opened n d (d.there (number n)) refl;
  unlinks = λ n d. unlinked n d (d.there (number n));
}

abbrev empty : Dir
empty = record { there = λ n. false; may = λ n. false }

my_open_lock-my_open_unlock_example :
    Locks files files-IsExclusive 1 empty (my_open_lock files 1 empty)
my_open_lock-my_open_unlock_example = my_open_lock-my_open_unlock files files-IsExclusive 1 empty
