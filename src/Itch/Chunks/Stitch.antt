-- ===== src/Itch/Chunks/Stitch.antt =====
-- The rounds of include/pricetime/itch_stream.hpp against one walk over the whole file.
use pricetime.Common.{
  ℕ, zero, suc, ◌+◌, ◌≤◌, ◌<◌, ◌≡◌, inl, inr, refl, ap, sym, ◌∙◌, subst, List, [], ◌∷◌, ◌++◌,
  append_assoc, Bool, true, false, Bool-cases, some, ltb, ◌==◌, length, drop, take, arith,
  length-append, length-drop,
}
use pricetime.Itch.Reader.{ReadResult, at, ok, stopped, visit, for_each_framed_message}
use pricetime.Itch.Visits.{Read, here, Read-length, Read-append, Read-all, walk_framed-Read, stop}
use pricetime.Itch.Chunks.{finished, Rounds, walked, stream_rounds}
use pricetime.Itch.Chunks.Cut.{visit-Stop, be16-append}
use pricetime.Itch.Chunks.Outcome.{
  calling-Outcome, Partial, Later, by_status-Outcome, Long, Outcome,
}

drop_all : (n : ℕ) (xs : List ℕ) → length (take n xs) < n → drop n xs ≡ []
drop_all zero xs h = absurd (omega arith)
drop_all (suc n) [] h = refl
drop_all (suc n) (x ∷ xs) h = drop_all n xs (omega arith)

take-drop : (n : ℕ) (xs : List ℕ) → take n xs ++ drop n xs ≡ xs
take-drop zero xs = refl
take-drop (suc n) [] = refl
take-drop (suc n) (x ∷ xs) = ap (λ ys. x ∷ ys) (take-drop n xs)

length-take_le : (n : ℕ) (xs : List ℕ) → (length (take n xs) ≤ n) × (length (take n xs) ≤ length xs)
length-take_le zero xs = (omega arith, omega arith)
length-take_le (suc n) [] = (omega arith, omega arith)
length-take_le (suc n) (x ∷ xs) =
    let (a, b) = length-take_le n xs in (omega (arith, a), omega (arith, b))

-- More than a fragment of a frame of at most 64 bytes is carried.
Long-kept : (kept rest : List ℕ) → Partial kept → 64 < length kept → Long (kept ++ rest)
Long-kept kept rest (inl short) h = absurd (omega (arith, short, h))
Long-kept kept rest (inr short) h =
    ([], kept ++ rest, here, omega (arith, short, h, be16-append kept rest (omega (arith, h))))

pub for_each-answers :
    (buf : List ℕ) (msgs : List (List ℕ)) (final : List ℕ) (r : ReadResult)
    → Read buf msgs final
    → visit final ≡ stopped r
    → for_each_framed_message buf ≡ some (stop 0 0 (length buf) msgs final r)
unfolding for_each_framed_message
for_each-answers buf msgs final r read end =
    walk_framed-Read (length buf + 1) 0 0 buf msgs final r (omega arith) read end

walked-Outcome :
    (n last off : ℕ) (buf rest : List ℕ) (next : Rounds) (at_eof : Bool)
    → (at_eof ≡ true → rest ≡ [])
    → (at_eof ≡ false → Later rest next)
    → Outcome (walked at_eof n last off buf next (for_each_framed_message buf)) n off (buf ++ rest)
walked-Outcome n last off buf rest next at_eof whole more =
    let (msgs, final, r, read, end) = Read-all (length buf + 1) buf (omega arith) in
    let short = Read-length buf msgs final read in
    let outcome =
      by_status-Outcome n last off buf rest next msgs final read at_eof r whole more end
        (visit-Stop final r end) in
    subst (λ w. Outcome (walked at_eof n last off buf next w) n off (buf ++ rest))
      (sym (for_each-answers buf msgs final r read end))
      (calling-Outcome _ n off _ _ (buf ++ rest) (final ++ rest) msgs
        (Read-append buf rest msgs final read) (omega arith)
        (omega (arith, short, length-append buf rest, length-append final rest)) outcome)

visit-empty : (bytes : List ℕ) → length bytes ≡ 0 → visit bytes ≡ stopped (at ok 0 0)
unfolding visit
visit-empty bytes e = rw e refl

empty_round :
    (chunk n last off : ℕ) (kept rest : List ℕ)
    → 0 < chunk
    → length (kept ++ take chunk rest) ≡ 0
    → (length kept ≡ 0 → last ≡ off)
    → Outcome (some (finished (at ok n last, []))) n off (kept ++ rest)
empty_round chunk n last off kept rest c e same =
    let apart = length-append kept (take chunk rest) in
    let no_rest = ap length (drop_all chunk rest (omega (arith, apart, e, c))) in
    let no_more = ap length (take-drop chunk rest) in
    let both = length-append (take chunk rest) (drop chunk rest) in
    let nothing : length (kept ++ rest) ≡ 0 =
      omega (arith, apart, e, no_rest, no_more, both, length-append kept rest) in
    inl record {
      msgs = [];
      final = kept ++ rest;
      last = at ok 0 0;
      read = here;
      end = visit-empty (kept ++ rest) nothing;
      messages = n;
      offset = last;
      result = refl;
      counted = omega arith;
      placed = omega (arith, same (omega (arith, apart, e)));
    }

pub stream_rounds-Outcome :
    (fuel chunk n last off : ℕ) (kept rest : List ℕ)
    → 0 < chunk
    → length rest < fuel
    → Partial kept
    → (length kept ≡ 0 → last ≡ off)
    → Outcome (stream_rounds fuel chunk n last off kept rest) n off (kept ++ rest)
unfolding stream_rounds
stream_rounds-Outcome zero chunk n last off kept rest c h part same = absurd (omega arith)
stream_rounds-Outcome (suc fuel) chunk n last off kept rest c h part same =
    let got = take chunk rest in
    let buf = kept ++ got in
    let total = length-append kept got in
    let next : Rounds = λ n' last' consumed' kept'.
      stream_rounds fuel chunk n' last' consumed' kept' (drop chunk rest) in
    let (at_most, within) = length-take_le chunk rest in
    elim (Bool-cases (ltb (chunk + 64) (length buf))) [
      | inl over ↦
          inr (rw over refl, Long-kept kept rest part (ground (arith, over, total, at_most)))
      | inr fits ↦ elim (Bool-cases (length buf == 0)) [
        | inl empty ↦
            rw (fits, empty) (empty_round chunk n last off kept rest c (ground (arith, empty)) same)
        | inr filled ↦
            rw (fits, filled)
              (subst
                (λ b.
                  Outcome
                    (walked (ltb (length got) chunk) n last off buf next
                      (for_each_framed_message buf))
                    n off b)
                (append_assoc kept got (drop chunk rest)
                  ∙ ap (λ b. kept ++ b) (take-drop chunk rest))
                (walked-Outcome n last off buf (drop chunk rest) next (ltb (length got) chunk)
                  (λ e. drop_all chunk rest (ground (arith, e)))
                  (λ e n' last' off' kept' part' same'.
                    stream_rounds-Outcome fuel chunk n' last' off' kept' (drop chunk rest) c
                      (ground (arith, h, c, e, within, length-drop chunk rest)) part' same')))
      ]
    ]
