-- ===== src/Itch/Chunks/Whole.antt =====
-- `for_each_framed_stream` of include/pricetime/itch_stream.hpp on a whole file.
use pricetime.Common.{
  ℕ, suc, ◌+◌, ◌-◌, ◌≤◌, ◌<◌, ◌≡◌, ◌⊎◌, inl, inr, refl, ap, sym, ◌∙◌, subst, List, [], ◌∷◌, some,
  length, drop, arith, All, drop-append, eq_of_some,
}
use pricetime.Itch.{be16}
use pricetime.Itch.Reader.{Walk, at, ok, handled, visit, for_each_framed_message}
use pricetime.Itch.Visits.{Read, here, further, Read-length, stop}
use pricetime.Itch.Stream.{stream, IsMessage, visit-stream, for_each_framed_message-stream}
use pricetime.Itch.Chunks.{finished, overrun, for_each_framed_stream}
use pricetime.Itch.Chunks.Outcome.{Finishes, Long}
use pricetime.Itch.Chunks.Stitch.{for_each-answers, stream_rounds-Outcome}

finished_as :
    (bytes : List ℕ) (chunk : ℕ)
    (f : Finishes (for_each_framed_stream (some bytes) chunk) 0 0 bytes)
    → for_each_framed_stream (some bytes) chunk
      ≡ some (finished (stop 0 0 (length bytes) f.msgs f.final f.last))
finished_as bytes chunk f =
    let e : f.messages ≡ 0 + length f.msgs = omega (arith, f.counted) in
    let d : f.offset ≡ 0 + (length bytes - length f.final) =
      omega (arith, f.placed, Read-length bytes f.msgs f.final f.read) in
    f.result
    ∙ ap (λ m. some (finished (record f.last { messages = m; offset = f.offset }, f.msgs))) e
    ∙ ap (λ p. some (finished (record f.last { messages = 0 + length f.msgs; offset = p }, f.msgs)))
        d

rounds-whole :
    (bytes : List ℕ) (chunk : ℕ)
    → 0 < chunk
    → Finishes (for_each_framed_stream (some bytes) chunk) 0 0 bytes
      ⊎ ((for_each_framed_stream (some bytes) chunk ≡ some overrun) × Long bytes)
unfolding for_each_framed_stream
rounds-whole bytes chunk c =
    stream_rounds-Outcome (length bytes + 1) chunk 0 0 0 [] bytes c (omega arith)
      (inl (omega arith)) (λ _. refl)

-- For a buffer with room for a chunk that is not empty, the streamed walk over any file either
-- ends as the walk over the whole file does, with the same result and the same calls of the
-- handler, or writes behind the end of its buffer, and then the walk reaches a length prefix of
-- more than 62.
pub for_each_framed_stream-whole :
    (bytes : List ℕ) (chunk : ℕ)
    → 0 < chunk
    → ((w : Walk) × (for_each_framed_stream (some bytes) chunk ≡ some (finished w))
        × (for_each_framed_message bytes ≡ some w))
      ⊎ ((for_each_framed_stream (some bytes) chunk ≡ some overrun) × Long bytes)
for_each_framed_stream-whole bytes chunk c = elim (rounds-whole bytes chunk c) [
  | inl f ↦
      inl (_, finished_as bytes chunk f, for_each-answers bytes f.msgs f.final f.last f.read f.end)
  | inr long ↦ inr long
]

used_of_handled : (m m' : List ℕ) (u u' : ℕ) → handled m u ≡ handled m' u' → u ≡ u'
used_of_handled m m' u u' e = cc

Read-stream_short :
    (ms : List (List ℕ)) (msgs : List (List ℕ)) (final : List ℕ)
    → All IsMessage ms
    → All (λ m. length m ≤ 62) ms
    → Read (stream ms) msgs final
    → be16 final 0 ≤ 62
unfolding visit
Read-stream_short [] _ _ v short here = omega arith
Read-stream_short [] _ _ v short (further e read) = absurd (cc)
Read-stream_short (m ∷ ms) _ _ v short here = omega (arith, v.0.fits, short.0)
Read-stream_short (m ∷ ms) _ final v short (further {msg = m'} {used = u} {msgs = msgs} e read) =
    let d : u ≡ suc (suc (length m)) =
      used_of_handled m' m u _ (sym e ∙ visit-stream m ms v.0) ∙ omega arith in
    Read-stream_short ms msgs final v.1 short.1 (
      subst (λ b. Read b msgs final)
        (ap (λ k. drop k (stream (m ∷ ms))) d ∙ drop-append m (stream ms)) read)

-- A file that frames a list of messages, each not empty, of at most 62 bytes and of the length
-- of its type where the type is known, is streamed to its end with success for chunks of any
-- size but 0, the buffer does not overrun, and the handler sees exactly those messages in their
-- order.
pub for_each_framed_stream-stream :
    (ms : List (List ℕ)) (chunk : ℕ)
    → All IsMessage ms
    → All (λ m. length m ≤ 62) ms
    → 0 < chunk
    → for_each_framed_stream (some (stream ms)) chunk
      ≡ some (finished (at ok (length ms) (length (stream ms)), ms))
for_each_framed_stream-stream ms chunk v short c =
    elim (for_each_framed_stream-whole (stream ms) chunk c) [
      | inl (w, e, f) ↦
          e
          ∙ ap (λ w'. some (finished w')) (eq_of_some (sym f ∙ for_each_framed_message-stream ms v))
      | inr (e, (msgs, final, read, long)) ↦
          absurd (omega (arith, long, Read-stream_short ms msgs final v short read))
    ]
