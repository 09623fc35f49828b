-- ===== src/Itch/Reader.antt =====
-- include/pricetime/itch_reader.hpp: the two walks over a buffer of messages. The handler is the list
-- of the messages that it is called with. The bytes from the offset on are a list, and the fuel is
-- enough once it exceeds their number.
use pricetime.Common.{
  ℕ, zero, suc, ◌+◌, ◌-◌, List, [], ◌∷◌, not, ◌&&◌, Option, none, some, ltb, ◌==◌, if◌then◌else◌,
  length, take, drop, get_or,
}
use pricetime.Itch.{be16, message_length}

pub data ReadStatus : Type 0 where
  ok truncated_prefix truncated_message unknown_type length_mismatch zero_length : ReadStatus

pub record ReadResult : Type 0 where
  pub status : ReadStatus
  pub messages : ℕ
  pub offset : ℕ
  pub bad_type : ℕ
  pub declared_length : ℕ
  pub expected_length : ℕ

-- A result at an offset, before its details.
abbrev pub at : ReadStatus → ℕ → ℕ → ReadResult
at status messages offset = record {
  status = status;
  messages = messages;
  offset = offset;
  bad_type = b' ';
  declared_length = 0;
  expected_length = 0;
}

abbrev pub Walk : Type 0
Walk = ReadResult × List (List ℕ)

abbrev pub called : List ℕ → Option Walk → Option Walk
called msg none = none
called msg (some (r, msgs)) = some (r, msg ∷ msgs)

-- One round of `for_each_framed_message`: it returns, or it calls the handler and goes on behind it.
pub data Visit : Type 0 where
  stopped : ReadResult → Visit  -- but for the messages and the offset
  handled : List ℕ → ℕ → Visit

unfoldable pub visit : List ℕ → Visit
visit bytes =
    let size = length bytes in
    let len = be16 bytes 0 in
    let body = drop 2 bytes in
    let expected = message_length (get_or body 0 0) in
    if size == 0
    then stopped (at ok 0 0)
    else if ltb size 2
    then stopped (at truncated_prefix 0 0)
    else if len == 0
    then stopped (at zero_length 0 0)
    else if ltb (size - 2) len
    then stopped (record (at truncated_message 0 0) { declared_length = len })
    else if not (expected == 0) && not (expected == len)
    then stopped (record (at length_mismatch 0 0) {
      bad_type = get_or body 0 0;
      declared_length = len;
      expected_length = expected;
    })
    else handled (take len body) (2 + len)

-- The end of a round, given the rounds behind the bytes that it used.
abbrev pub resume : ℕ → ℕ → (ℕ → Option Walk) → Visit → Option Walk
resume n off next (stopped r) = some (record r { messages = n; offset = off }, [])
resume n off next (handled msg used) = called msg (next used)

-- `for_each_framed_message`, with `n` messages read and `off` bytes consumed.
unfoldable pub walk_framed : ℕ → ℕ → ℕ → List ℕ → Option Walk
walk_framed zero n off bytes = none
walk_framed (suc fuel) n off bytes =
    resume n off (λ used. walk_framed fuel (n + 1) (off + used) (drop used bytes)) (visit bytes)

unfoldable pub for_each_framed_message : List ℕ → Option Walk
for_each_framed_message bytes = walk_framed (length bytes + 1) 0 0 bytes

-- `for_each_raw_message`: the type table gives the lengths.
unfoldable pub walk_raw : ℕ → ℕ → ℕ → List ℕ → Option Walk
walk_raw zero n off bytes = none
walk_raw (suc fuel) n off bytes =
    let size = length bytes in
    let type = get_or bytes 0 0 in
    let len = message_length type in
    let next = called (take len bytes) (walk_raw fuel (n + 1) (off + len) (drop len bytes)) in
    if size == 0
    then some (at ok n off, [])
    else if len == 0
    then some (record (at unknown_type n off) { bad_type = type }, [])
    else if ltb size len
    then some (record (at truncated_message n off) { declared_length = len }, [])
    else next

unfoldable pub for_each_raw_message : List ℕ → Option Walk
for_each_raw_message bytes = walk_raw (length bytes + 1) 0 0 bytes
