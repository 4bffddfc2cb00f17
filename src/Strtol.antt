-- ===== src/Strtol.antt =====
-- my_strtol of my_ emulation/library_functions/strtol/strtol.c. A string is the list of its
-- characters before the NUL, ASCII codes below 128; a pointer into it is the rest of the list.
-- `long` is 64 bits, and its arithmetic wraps around, as the function's comments rely on.
pub mod Scan
pub mod Power
pub mod Value
pub mod Overflow
pub mod Input
mod Tests
use mathlib.Core.List.{reverse}
use unix_network_programming.Base.{
  ℕ, zero, suc, ◌+◌, ◌-◌, ◌*◌, ◌%◌, ◌^◌, Bool, true, false, ◌&&◌, ◌||◌, Option, none, some, List,
  [], ◌∷◌, ltb, leb, ◌==◌, if◌then◌else◌, take, drop,
}
use unix_network_programming.Base.Int.{
  ℤ, pos, negsuc, sub_ℕ, ltb_ℤ, ◌+ℤ◌, ◌-ℤ◌, ◌*ℤ◌, pos_part, neg_part,
}
use unix_network_programming.Base.Errno.{Errno, einval, erange}
use unix_network_programming.CString.{Bytes, first}

-- The value of a 64-bit two's complement word that holds `z` modulo 2^64.
abbrev pub wrap_word : ℕ → ℤ
wrap_word n = if ltb n (2 ^ 63) then pos n else negsuc (2 ^ 64 - 1 - n)

unfoldable pub wrap : ℤ → ℤ
wrap (pos n) = wrap_word (n % 2 ^ 64)
wrap (negsuc n) = wrap_word (2 ^ 64 - 1 - n % 2 ^ 64)

abbrev pub is_upper : ℕ → Bool
is_upper c = leb b'A' c && leb c b'Z'

abbrev pub is_lower : ℕ → Bool
is_lower c = leb b'a' c && leb c b'z'

-- isalpha() and tolower() of the C locale.
isalpha : ℕ → Bool
isalpha c = is_upper c || is_lower c

tolower : ℕ → ℕ
tolower c = if is_upper c then c + 32 else c

pub skip_spaces : Bytes → Bytes
skip_spaces [] = []
skip_spaces (c ∷ s) = let rest = skip_spaces s in if c == b' ' then rest else c ∷ s

-- The optional sign: whether it is a minus, and the string behind it.
pub read_sign : Bytes → Bool × Bytes
read_sign s =
    if first s == b'+'
    then (false, drop 1 s)
    else if first s == b'-'
    then (true, drop 1 s)
    else (false, s)

abbrev pub is_x : ℕ → Bool
is_x c = c == b'x' || c == b'X'

-- The prefix 0 of an explicit base 8, and 0x or 0X of an explicit base 16.
strip_prefix : ℕ → Bytes → Bytes
strip_prefix base s =
    if base == 8
    then (if first s == b'0' then drop 1 s else s)
    else if base == 16
    then (if first s == b'0' && is_x (first (drop 1 s)) then drop 2 s else s)
    else s

-- What the code above the label `checkstr` decides.
pub data Selected : Type 0 where
  checkstr : (base : ℕ) (s : Bytes) → Selected
  bad_digit : (s : Bytes) → Selected  -- EINVAL, and *endptr is set to the string
  bad_base : Selected  -- EINVAL, and *endptr is left alone

-- Base 0: the string's own prefix decides.
select_auto : Bytes → Selected
select_auto s =
    if first s == b'0'
    then (if is_x (first (drop 1 s)) then checkstr 16 (drop 2 s) else checkstr 8 (drop 1 s))
    else if leb b'1' (first s) && leb (first s) b'9'
    then checkstr 10 s
    else bad_digit s

pub select : ℤ → Bytes → Selected
unfolding select_auto strip_prefix
select (negsuc n) s = bad_base
select (pos base) s =
    if base == 0
    then select_auto s
    else if base == 2
    then (if first s == b'1' || first s == b'0' then checkstr 2 s else bad_digit s)
    else if leb base 1 || ltb 36 base
    then bad_base
    else checkstr base (strip_prefix base s)

-- The loop that looks for the first character at which it breaks, as a test of one character.
pub stops : ℕ → ℕ → Bool
unfolding isalpha tolower
stops base c =
    if ltb 10 base
    then isalpha c && leb (base - 10) (tolower c - b'a')
    else isalpha c || ltb (b'0' + (base - 1)) c

-- The index at which the loop ends.
pub valid_count : ℕ → Bytes → ℕ
unfolding stops
valid_count base [] = 0
valid_count base (c ∷ s) = let rest = valid_count base s in if stops base c then 0 else suc rest

-- `power`: `while (exponent-- != 0) res = res * number;`
pub power_loop : ℤ → ℕ → ℤ → ℤ
unfolding wrap ◌*ℤ◌
power_loop number zero res = res
power_loop number (suc e) res = power_loop number e (wrap (res *ℤ number))

pub power : ℤ → ℕ → ℤ
unfolding power_loop
power number exponent = power_loop number exponent (pos 1)

-- The number that a character stands for; below '0' it is negative.
pub digit : ℕ → ℕ → ℤ
unfolding isalpha tolower
digit base c = if ltb 10 base && isalpha c then sub_ℕ (tolower c + 10) b'a' else sub_ℕ c b'0'

-- The new result of a round.
pub round : ℕ → Bool → ℕ → ℕ → ℤ → ℤ
unfolding power digit wrap ◌*ℤ◌ ◌+ℤ◌ ◌-ℤ◌
round base minus c exponent result =
    let term = wrap (power (pos base) exponent *ℤ digit base c) in
    if minus then wrap (result -ℤ term) else wrap (result +ℤ term)

-- The calculation from the last digit to the first: the characters come in that order, and
-- `result` is `prev_res` too. `none` is the return of 0 with ERANGE.
pub convert : ℕ → Bool → Bytes → ℕ → ℤ → Option ℤ
unfolding round
convert base minus [] exponent result = some result
convert base minus (c ∷ cs) exponent result =
    let result' = round base minus c exponent result in
    let rest = convert base minus cs (exponent + 1) result' in
    if minus
    then (if ltb_ℤ result result' then none else rest)
    else (if ltb_ℤ result' result then none else rest)

-- What is written through `endptr`.
pub data EndWrite : Type 0 where
  nothing : EndWrite
  points_at : Bytes → EndWrite  -- *endptr = the rest of the string
  clears : EndWrite  -- **endptr = '\0'

-- The way out: a return, or the read of *endptr for the log when `endptr` is NULL.
pub data Outcome : Type 0 where
  returned : (value : ℤ) (errno : Option Errno) (end : EndWrite) → Outcome
  null_read : Outcome

abbrev pub set_end : Bool → EndWrite → EndWrite
set_end true w = w
set_end false w = nothing

pub end_at : Bytes → EndWrite
end_at [] = clears
end_at (c ∷ s) = points_at (c ∷ s)

-- The return behind the calculation.
pub deliver : EndWrite → Option ℤ → Outcome
deliver end none = returned (pos 0) (some erange) end
deliver end (some value) = returned value none end

-- The code behind the scan, with the index at which it ended.
pub finish : Bool → Bool → ℕ → Bytes → ℕ → Outcome
finish has_end minus base s i =
    if i == 0
    then returned (pos 0) (some einval) (set_end has_end (points_at s))
    else if has_end
    then deliver (end_at (drop i s)) (convert base minus (reverse (take i s)) 0 (pos 0))
    else null_read

-- The code behind the label `checkstr`; `has_end` says that `endptr` is not NULL.
pub run_checkstr : Bool → Bool → ℕ → Bytes → Outcome
run_checkstr has_end minus base s = finish has_end minus base s (valid_count base s)

-- The way on from the choice of the base.
pub conclude : Bool → Bool → Selected → Outcome
conclude has_end minus (checkstr b r) = run_checkstr has_end minus b r
conclude has_end minus (bad_digit r) =
    returned (pos 0) (some einval) (set_end has_end (points_at r))
conclude has_end minus bad_base = returned (pos 0) (some einval) nothing

pub my_strtol : Bool → Bytes → ℤ → Outcome
unfolding skip_spaces read_sign select conclude run_checkstr valid_count finish deliver end_at
    convert
my_strtol has_end str base =
    let p = read_sign (skip_spaces str) in conclude has_end p.0 (select base p.1)
