-- ===== src/Itch/RawStream.antt =====
-- Buffers of messages without frames, and `for_each_raw_message` of include/pricetime/itch_reader.hpp.
use pricetime.Common.{
  ℕ, zero, suc, ◌+◌, ◌<◌, ◌≡◌, ◌∙◌, List, [], ◌∷◌, ◌++◌, some, length, get_or, arith, All,
  drop-append, take-append, length-append,
}
use pricetime.Itch.{message_length}
use pricetime.Itch.Reader.{walk_raw, for_each_raw_message, at, ok}
use pricetime.Itch.Visits.{get_or-append}

abbrev pub joined : List (List ℕ) → List ℕ
joined [] = []
joined (m ∷ ms) = m ++ joined ms

-- A message is as long as the table says for its type.
abbrev pub IsTyped : List ℕ → Type 0
IsTyped m = (0 < length m) × (message_length (get_or m 0 0) ≡ length m)

walk_raw-joined :
    (ms : List (List ℕ)) (fuel n off : ℕ)
    → All IsTyped ms
    → length (joined ms) < fuel
    → walk_raw fuel n off (joined ms) ≡ some (at ok (n + length ms) (off + length (joined ms)), ms)
unfolding walk_raw
walk_raw-joined ms zero n off v h = absurd (omega arith)
walk_raw-joined [] (suc fuel) n off v h = ground arith
walk_raw-joined (m ∷ ms) (suc fuel) n off v h =
    let rest = joined ms in
    let total = length-append m rest in
    let ih = walk_raw-joined ms fuel (n + 1) (off + length m) v.1 (omega (arith, total, v.0.0)) in
    rw (get_or-append m rest v.0.0, v.0.1, take-append m rest, drop-append m rest, ih)
      (ground (arith, v.0.0, total))

-- A buffer that joins messages without frames, each not empty and of the length of its type, is
-- read to its end with success, and the handler sees exactly those messages in their order.
pub for_each_raw_message-joined :
    (ms : List (List ℕ))
    → All IsTyped ms
    → for_each_raw_message (joined ms) ≡ some (at ok (length ms) (length (joined ms)), ms)
unfolding for_each_raw_message
for_each_raw_message-joined ms v =
    walk_raw-joined ms (length (joined ms) + 1) 0 0 v (omega arith) ∙ ground arith
