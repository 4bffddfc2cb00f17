-- ===== src/Iovec.antt =====
-- my_writev and my_readv of "Chapter 6 - Berkely Sockets/my_ emulation/syscalls/writev_readv". An
-- access outside an object ends as `overrun`; my_size_t is 32 bits and wraps around. my_readv is the
-- one for descriptors other than 0, where it reads on to the end of the line.
pub mod Gather
pub mod Scatter
mod Tests
use unix_network_programming.Base.{
  ℕ, zero, suc, ◌+◌, ◌-◌, ◌%◌, ◌^◌, ◌≡◌, Bool, true, false, ◌&&◌, Option, none, some, List, [], ◌∷◌,
  ◌++◌, ltb, leb, ◌==◌, if◌then◌else◌, length, take, drop,
}

abbrev pub Bytes : Type 0
Bytes = List ℕ

-- struct my_iovec; the address is the object from there on.
pub record Iovec : Type 0 where
  pub address : Bytes
  pub buff_length : ℕ

abbrev pub wrap : ℕ → ℕ
wrap n = n % 4294967296

-- The first loop of both functions.
unfoldable pub total_from : ℕ → List Iovec → ℕ
total_from total [] = total
total_from total (v ∷ vs) = total_from (wrap (total + v.buff_length)) vs

abbrev pub total_buffer_size : List Iovec → ℕ
total_buffer_size vs = total_from 0 vs

-- How a call ends: it returns, exits, or touches memory that it must not.
pub data Ended (A : Type 0) : Type 0 where
  returns : A → Ended A
  exits : Ended A
  overrun : Ended A
  out_of_fuel : Ended A

-- What write() answers for the bytes, as the unsigned number that the function keeps: -1 is the
-- largest. malloc() says whether it has memory.
pub record Calls : Type 0 where
  pub malloc : ℕ → Bool
  pub write : Bytes → ℕ

-- The second loop of my_writev: `filled` is what stands in the buffer before `seek`, an int that is
-- negative from 2^31 on.
unfoldable pub gather : ℕ → Bytes → List Iovec → Option Bytes
gather size filled [] = some filled
gather size filled (v ∷ vs) =
    let rest = gather size (filled ++ take v.buff_length v.address) vs in
    if ltb (length filled) 2147483648
      && (leb (length filled + v.buff_length) size && leb v.buff_length (length v.address))
    then rest
    else none

module _ (c : Calls) where
  -- From the write on; the value is the result and the bytes written.
  abbrev pub write_out : ℕ → Option Bytes → Ended (ℕ × Bytes)
  write_out total none = overrun
  write_out total (some buff) = if c.write buff == total then returns (total, buff) else exits

  pub my_writev : List Iovec → Ended (ℕ × Bytes)
  my_writev vs =
      let total = total_buffer_size vs in
      if c.malloc total then write_out total (gather total [] vs) else exits

-- malloc(sizeof(total_buffer_size)).
abbrev pub allocated : ℕ
allocated = 4

pub data ReadAnswer (S : Type 0) : Type 0 where
  got : Bytes → S → ReadAnswer S
  read_failed : S → ReadAnswer S

module _ {S : Type 0} (read : ℕ → S → ReadAnswer S) where
  -- The loop of my_readv. A failure is the largest unsigned number, which is not below 0: the loop
  -- adds it to read_seek and goes on. Bytes are stored within the allocated ones only.
  unfoldable pub read_all : (fuel read_seek read_left : ℕ) → Bytes → S → Ended (Bytes × ℕ × S)
  read_all zero seek left buff s = out_of_fuel
  read_all (suc f) seek left buff s = elim (read left s) [
    | read_failed s' ↦
        let seek' = wrap (seek + 4294967295) in
        let left' = wrap (left + 4294967296 - 4294967295) in
        let more = read_all f seek' left' buff s' in
        if left' == 0 then returns (buff, seek', s') else more
    | got bs s' ↦
        let left' = wrap (left + 4294967296 - length bs) in
        let more = read_all f (wrap (seek + length bs)) left' (take seek buff ++ bs) s' in
        if ltb allocated (seek + length bs)
        then overrun
        else if length bs == 0 && ltb 0 left
        then exits
        else if left' == 0
        then returns (take seek buff ++ bs, wrap (seek + length bs), s')
        else more
  ]

-- The last loop of my_readv: the objects with the bytes copied over their beginnings.
unfoldable pub scatter : Bytes → ℕ → List Iovec → Option (List Bytes)
scatter buff seek [] = some []
scatter buff seek (v ∷ vs) =
    let rest = scatter buff (seek + v.buff_length) vs in
    if leb (seek + v.buff_length) (length buff) && leb v.buff_length (length v.address)
    then elim rest [
      | none ↦ none
      | some os ↦ some ((take v.buff_length (drop seek buff) ++ drop v.buff_length v.address) ∷ os)
    ]
    else none

module _ {S : Type 0} (read : ℕ → S → ReadAnswer S) where
  abbrev pub hand_out : ℕ → S → Option (List Bytes) → Ended (List Bytes × ℕ × S)
  hand_out seek s none = overrun
  hand_out seek s (some os) = returns (os, seek, s)

  abbrev pub after_read : List Iovec → Ended (Bytes × ℕ × S) → Ended (List Bytes × ℕ × S)
  after_read vs (returns (buff, seek, s)) = hand_out seek s (scatter buff 0 vs)
  after_read vs exits = exits
  after_read vs overrun = overrun
  after_read vs out_of_fuel = out_of_fuel

  -- The value is the objects, the result, and what is left to read; `has_memory` is malloc's.
  pub my_readv : (has_memory : Bool) (fuel : ℕ) → List Iovec → S → Ended (List Bytes × ℕ × S)
  my_readv has_memory fuel vs s =
      if has_memory then after_read vs (read_all read fuel 0 (total_buffer_size vs) [] s) else exits
