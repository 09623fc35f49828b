-- ===== src/Itch/Chunks.antt =====
-- include/pricetime/itch_stream.hpp: a file read through a buffer of `chunk + 64` bytes. The handler is
-- the list of the messages that it is called with; a file that does not open is `none`. The fuel is
-- enough once it exceeds the file's length.
pub mod Cut
pub mod Outcome
pub mod Stitch
pub mod Whole
use pricetime.Common.{
  ℕ, zero, suc, ◌+◌, ◌-◌, List, [], ◌++◌, Bool, true, false, Option, none, some, ltb, ◌==◌,
  if◌then◌else◌, length, take, drop,
}
use pricetime.Itch.Reader.{
  ReadStatus, ok, truncated_prefix, truncated_message, unknown_type, length_mismatch, zero_length,
  ReadResult, Walk, at, for_each_framed_message,
}

pub data Streamed : Type 0 where
  finished : Walk → Streamed
  overrun : Streamed  -- `in.read` writes behind the end of the buffer

abbrev pub calling : List (List ℕ) → Option Streamed → Option Streamed
calling msgs none = none
calling msgs (some overrun) = some overrun
calling msgs (some (finished (r, later))) = some (finished (r, msgs ++ later))

-- The rounds that follow: of `total.messages`, `total.offset`, `consumed` and the bytes in the buffer.
abbrev pub Rounds : Type 0
Rounds = ℕ → ℕ → ℕ → List ℕ → Option Streamed

abbrev pub fatal : ℕ → ℕ → ReadResult → Option Streamed
fatal n consumed r =
    some (finished (record r { messages = n + r.messages; offset = consumed + r.offset }, []))

-- A fragment: truncation at the end of the file, or carried to the front of the buffer.
abbrev pub stitch : Bool → ℕ → ℕ → ℕ → List ℕ → Rounds → ReadResult → Option Streamed
stitch true n last consumed buf next r = some (
    finished (
      record (at r.status (n + r.messages) (consumed + r.offset)) {
        declared_length = r.declared_length;
      },
      [],
    ))
stitch false n last consumed buf next r =
    next (n + r.messages) last (consumed + r.offset) (drop r.offset buf)

abbrev pub clean : Bool → ℕ → ℕ → List ℕ → Rounds → ReadResult → Option Streamed
clean true n consumed buf next r =
    some (finished (at ok (n + r.messages) (consumed + length buf), []))
clean false n consumed buf next r =
    next (n + r.messages) (consumed + length buf) (consumed + length buf) []

-- What follows a walk over the buffer, by its status.
abbrev pub by_status :
    ReadStatus → Bool → ℕ → ℕ → ℕ → List ℕ → Rounds → ReadResult → Option Streamed
by_status ok at_eof n last consumed buf next r = clean at_eof n consumed buf next r
by_status truncated_prefix at_eof n last consumed buf next r =
    stitch at_eof n last consumed buf next r
by_status truncated_message at_eof n last consumed buf next r =
    stitch at_eof n last consumed buf next r
by_status unknown_type at_eof n last consumed buf next r = fatal n consumed r
by_status length_mismatch at_eof n last consumed buf next r = fatal n consumed r
by_status zero_length at_eof n last consumed buf next r = fatal n consumed r

abbrev pub walked : Bool → ℕ → ℕ → ℕ → List ℕ → Rounds → Option Walk → Option Streamed
walked at_eof n last consumed buf next none = none
walked at_eof n last consumed buf next (some (r, msgs)) =
    calling msgs (by_status r.status at_eof n last consumed buf next r)

-- The loop, with the bytes `kept` in the buffer and those of the file that are not read.
unfoldable pub stream_rounds : ℕ → ℕ → ℕ → ℕ → ℕ → List ℕ → List ℕ → Option Streamed
stream_rounds zero chunk n last consumed kept rest = none
stream_rounds (suc fuel) chunk n last consumed kept rest =
    let got = take chunk rest in
    let buf = kept ++ got in
    let next : Rounds = λ n' last' consumed' kept'.
      stream_rounds fuel chunk n' last' consumed' kept' (drop chunk rest) in
    if ltb (chunk + 64) (length buf)
    then some overrun
    else if length buf == 0
    then some (finished (at ok n last, []))
    else walked (ltb (length got) chunk) n last consumed buf next (for_each_framed_message buf)

unfoldable pub for_each_framed_stream : Option (List ℕ) → ℕ → Option Streamed
for_each_framed_stream none chunk = some (finished (at truncated_prefix 0 0, []))
for_each_framed_stream (some bytes) chunk = stream_rounds (length bytes + 1) chunk 0 0 0 [] bytes
