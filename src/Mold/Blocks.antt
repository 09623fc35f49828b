-- ===== src/Mold/Blocks.antt =====
-- The packer and `unpack` of include/pricetime/moldudp64.hpp.
use pricetime.Common.{
  ℕ, ◌+◌, ◌%◌, ◌<◌, ◌≤◌, ◌≡◌, refl, sym, ◌∙◌, List, [], ◌∷◌, ◌++◌, true, false, length, arith, u16,
  All, drop-append, take-append, length-append, append_assoc, append-nil, ltb, add_u64,
}
use pricetime.Itch.{be16}
use pricetime.Itch.Stream.{frame, stream}
use pricetime.Mold.{Packer, begin, add, unpack_blocks}

-- The messages with their sequence numbers.
abbrev pub numbered : ℕ → List (List ℕ) → List (ℕ × List ℕ)
numbered seq [] = []
numbered seq (m ∷ ms) = (seq, m) ∷ numbered (add_u64 seq 1) ms

-- One `add` after the other.
unfoldable pub add_all : Packer → List (List ℕ) → Packer
add_all p [] = p
add_all p (m ∷ ms) = add_all (add p m).0 ms

pub unpack_blocks-stream :
    (ms : List (List ℕ)) (seq : ℕ)
    → All (λ m. (0 < length m) × (length m < u16)) ms
    → unpack_blocks (length ms) seq (stream ms) ≡ (numbered seq ms, true)
unfolding unpack_blocks
unpack_blocks-stream [] seq v = refl
unpack_blocks-stream (m ∷ ms) seq v =
    let rest = stream ms in
    let len : be16 (frame m ++ rest) 0 ≡ length m = omega (arith, v.0) in
    let total = length-append m rest in
    let ih = unpack_blocks-stream ms (add_u64 seq 1) v.1 in
    rw (len, drop-append m rest, take-append m rest, ih) (ground (arith, v.0, total))

record Packed (p : Packer) (ms : List (List ℕ)) (q : Packer) : Type 0 where
  blocks : q.blocks ≡ p.blocks ++ stream ms
  count : q.count ≡ p.count + length ms

add_all-Packed :
    (ms : List (List ℕ)) (p : Packer)
    → 20 + length p.blocks + length (stream ms) ≤ 1400
    → p.count + length ms < u16
    → Packed p ms (add_all p ms)
unfolding add_all add
add_all-Packed [] p h k = record { blocks = sym (append-nil p.blocks); count = omega arith }
add_all-Packed (m ∷ ms) p h k =
    let total = length-append (frame m) (stream ms) in
    let fits : ltb 1400 (20 + length p.blocks + 2 + length m) ≡ false = ground (arith, total) in
    let p' : Packer = record p { blocks = p.blocks ++ frame m; count = (p.count + 1) % u16 } in
    let added : (add p m).0 ≡ p' = rw fits refl in
    let longer = length-append p.blocks (frame m) in
    let ih = add_all-Packed ms p' (omega (arith, h, total, longer)) (omega arith) in
    rw added (record {
      blocks = ih.blocks ∙ append_assoc p.blocks (frame m) (stream ms);
      count = ih.count ∙ omega arith;
    })

stream_bound :
    (ms : List (List ℕ))
    → length (stream ms) < u16
    → All (λ m. 0 < length m) ms
    → (length ms ≤ length (stream ms)) × All (λ m. (0 < length m) × (length m < u16)) ms
stream_bound [] h v = (omega arith, tt)
stream_bound (m ∷ ms) h v =
    let total = length-append (frame m) (stream ms) in
    let rest = stream_bound ms (omega (arith, total)) v.1 in
    (omega (arith, total, rest.0), ((v.0, omega (arith, total)), rest.1))

-- The messages that were added one by one after `begin`, none of them empty and all of them
-- within one packet of 1,400 bytes, are the blocks that `unpack` finds: in their order, each
-- under its sequence number, with nothing left over.
unpack_blocks-add_all :
    (p : Packer) (seq : ℕ) (ms : List (List ℕ))
    → 20 + length (stream ms) ≤ 1400
    → All (λ m. 0 < length m) ms
    → let q = add_all (begin p seq) ms in
      unpack_blocks q.count seq q.blocks ≡ (numbered seq ms, true)
unfolding begin
unpack_blocks-add_all p seq ms h v =
    let bound = stream_bound ms (omega arith) v in
    let q = add_all-Packed ms (begin p seq) (omega arith) (omega (arith, bound.0)) in
    let counted : (add_all (begin p seq) ms).count ≡ length ms = q.count ∙ omega arith in
    rw (counted, q.blocks) (unpack_blocks-stream ms seq bound.1)
