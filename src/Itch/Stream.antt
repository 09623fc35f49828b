-- ===== src/Itch/Stream.antt =====
-- Framed buffers and `for_each_framed_message` of include/pricetime/itch_reader.hpp.
use pricetime.Common.{
  ℕ, suc, ◌+◌, ◌/◌, ◌%◌, ◌<◌, ◌≡◌, ◌⊎◌, refl, ap, ◌∙◌, List, [], ◌∷◌, ◌++◌, some, length, get_or,
  subst, sym, arith, u16, All, drop-append, take-append, length-append,
}
use pricetime.Itch.{message_length, be16}
use pricetime.Itch.Visits.{Read, here, further, get_or-append, walk_framed-Read}
use pricetime.Itch.Reader.{visit, handled, for_each_framed_message, at, ok}

abbrev pub frame : List ℕ → List ℕ
frame m = (length m / 0x100 % 256) ∷ (length m % 256) ∷ m

abbrev pub stream : List (List ℕ) → List ℕ
stream [] = []
stream (m ∷ ms) = frame m ++ stream ms

-- A message fits a two-byte length, and if its type is known it has that type's length.
pub record IsMessage (m : List ℕ) : Type 0 where
  pub filled : 0 < length m
  pub fits : length m < u16
  pub typed : (message_length (get_or m 0 0) ≡ 0) ⊎ (message_length (get_or m 0 0) ≡ length m)

pub visit-stream :
    (m : List ℕ) (ms : List (List ℕ))
    → IsMessage m
    → visit (stream (m ∷ ms)) ≡ handled m (2 + length m)
unfolding visit
visit-stream m ms v =
    let rest = stream ms in
    let len : be16 (frame m ++ rest) 0 ≡ length m = omega (arith, v.fits) in
    let total = length-append m rest in
    rw (len, take-append m rest, get_or-append m rest v.filled)
      (ground (arith, v.typed, v.filled, total))

Read-stream : (ms : List (List ℕ)) → All IsMessage ms → Read (stream ms) ms []
Read-stream [] v = here
Read-stream (m ∷ ms) v =
    let used : 2 + length m ≡ suc (suc (length m)) = omega arith in
    further (visit-stream m ms v.0 ∙ ap (handled m) used)
      (subst (λ b. Read b ms []) (sym (drop-append m (stream ms))) (Read-stream ms v.1))

-- A buffer that frames a list of messages, each not empty, shorter than 2 ^ 16 bytes and of the
-- length of its type where the type is known, is read to its end with success, and the handler
-- sees exactly those messages in their order.
pub for_each_framed_message-stream :
    (ms : List (List ℕ))
    → All IsMessage ms
    → for_each_framed_message (stream ms) ≡ some (at ok (length ms) (length (stream ms)), ms)
unfolding for_each_framed_message visit
for_each_framed_message-stream ms v =
    walk_framed-Read (length (stream ms) + 1) 0 0 (stream ms) ms [] (at ok 0 0) (omega arith)
      (Read-stream ms v) refl
    ∙ ground arith
