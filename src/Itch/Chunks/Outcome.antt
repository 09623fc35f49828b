-- ===== src/Itch/Chunks/Outcome.antt =====
-- What one round of include/pricetime/itch_stream.hpp does, given what the rounds behind it do.
use pricetime.Common.{
  ℕ, ◌+◌, ◌-◌, ◌<◌, ◌≡◌, ◌⊎◌, inl, inr, refl, ap, sym, ◌∙◌, subst, List, [], ◌++◌, append-nil, Bool,
  true, false, Option, some, length, drop, arith, length-append,
}
use pricetime.Itch.{be16}
use pricetime.Itch.Reader.{ReadResult, at, ok, truncated_prefix, truncated_message, stopped, visit}
use pricetime.Itch.Visits.{Read, here, Read-trans, Read-drop}
use pricetime.Itch.Chunks.{Streamed, finished, overrun, calling, Rounds, by_status}
use pricetime.Itch.Chunks.Cut.{Stop, at_end, cut_prefix, cut_message, fatal}

-- The end of a walk over `bytes`, with `n` messages and `off` bytes before it.
pub record Finishes (o : Option Streamed) (n off : ℕ) (bytes : List ℕ) : Type 0 where
  pub msgs : List (List ℕ)
  pub final : List ℕ
  pub last : ReadResult
  pub read : Read bytes msgs final
  pub end : visit final ≡ stopped last
  pub messages : ℕ
  pub offset : ℕ
  pub result : o ≡ some (finished (record last { messages = messages; offset = offset }, msgs))
  pub counted : messages ≡ n + length msgs
  pub placed : offset + length final ≡ off + length bytes

-- A length prefix of more than 62 is reached.
abbrev pub Long : List ℕ → Type 0
Long bytes = (msgs : List (List ℕ)) × (final : List ℕ) × Read bytes msgs final × (62 < be16 final 0)

abbrev pub Outcome : Option Streamed → ℕ → ℕ → List ℕ → Type 0
Outcome o n off bytes = Finishes o n off bytes ⊎ ((o ≡ some overrun) × Long bytes)

pub calling-Outcome :
    (o : Option Streamed) (n off m p : ℕ) (bytes rest : List ℕ) (msgs : List (List ℕ))
    → Read bytes msgs rest
    → m ≡ n + length msgs
    → p + length rest ≡ off + length bytes
    → Outcome o m p rest
    → Outcome (calling msgs o) n off bytes
calling-Outcome o n off m p bytes rest msgs read count place (inl f) = inl record {
  msgs = msgs ++ f.msgs;
  final = f.final;
  last = f.last;
  read = Read-trans bytes rest f.final msgs f.msgs read f.read;
  end = f.end;
  messages = f.messages;
  offset = f.offset;
  result = ap (calling msgs) f.result;
  counted = omega (arith, f.counted, count, length-append msgs f.msgs);
  placed = omega (arith, f.placed, place);
}
calling-Outcome o n off m p bytes rest msgs read count place (inr (e, (ms, final, later, long))) =
    inr (
      ap (calling msgs) e,
      (msgs ++ ms, final, Read-trans bytes rest final msgs ms read later, long),
    )

-- What is carried is less than a frame.
abbrev pub Partial : List ℕ → Type 0
Partial kept = (length kept < 2) ⊎ (length kept < 2 + be16 kept 0)

-- What the rounds that follow do.
abbrev pub Later : List ℕ → Rounds → Type 0
Later rest next =
    (n last off : ℕ) (kept : List ℕ)
    → Partial kept
    → (length kept ≡ 0 → last ≡ off)
    → Outcome (next n last off kept) n off (kept ++ rest)

-- The buffer is walked to `final`.
module _ (n last off : ℕ) (buf rest : List ℕ) (next : Rounds) (msgs : List (List ℕ))
    (final : List ℕ) (read : Read buf msgs final) where
  abbrev walk_end : ReadResult → ReadResult
  walk_end r = record r { messages = 0 + length msgs; offset = 0 + (length buf - length final) }

  abbrev After : Option Streamed → Type 0
  After o =
      Outcome o (n + (0 + length msgs)) (off + (0 + (length buf - length final))) (final ++ rest)

  carried :
      Later rest next
      → 0 < length final
      → Partial final
      → After (
          next
            (n + (0 + length msgs))
            last
            (off + (0 + (length buf - length final)))
            (drop (0 + (length buf - length final)) buf))
  carried later some_left part =
      let k : 0 + (length buf - length final) ≡ length buf - length final = omega arith in
      let e = ap (λ i. drop i buf) k ∙ Read-drop buf msgs final read in
      subst
        (λ kept.
          After (next (n + (0 + length msgs)) last (off + (0 + (length buf - length final))) kept))
        (sym e)
        (later _ last _ final part (λ none_left. absurd (omega (arith, none_left, some_left))))

  -- The walk that ends where the round ends.
  done :
      (o : Option Streamed) (r : ReadResult) (m p : ℕ)
      → o ≡ some (finished (record r { messages = m; offset = p }, []))
      → visit (final ++ rest) ≡ stopped r
      → m ≡ n + (0 + length msgs)
      → p ≡ off + (0 + (length buf - length final))
      → After o
  done o r m p e end count place = inl record {
    msgs = [];
    final = final ++ rest;
    last = r;
    read = here;
    end = end;
    messages = m;
    offset = p;
    result = e;
    counted = omega (arith, count);
    placed = omega (arith, place);
  }

  clean_case :
      (at_eof : Bool)
      → (at_eof ≡ true → rest ≡ [])
      → (at_eof ≡ false → Later rest next)
      → final ≡ []
      → After (by_status ok at_eof n last off buf next (walk_end (at ok 0 0)))
  unfolding visit
  clean_case true whole more e =
      done _ (at ok 0 0) _ _ refl
        (subst (λ b. visit b ≡ stopped (at ok 0 0)) (sym (ap (λ f. f ++ rest) e ∙ whole refl)) refl)
        refl (ground (arith, ap length e))
  clean_case false whole more e =
      let k : off + (0 + (length buf - length final)) ≡ off + length buf =
        ground (arith, ap length e) in
      subst
        (λ p.
          Outcome (next (n + (0 + length msgs)) (off + length buf) (off + length buf) [])
            (n + (0 + length msgs)) p (final ++ rest))
        (sym k)
        (subst
          (λ f.
            Outcome (next (n + (0 + length msgs)) (off + length buf) (off + length buf) [])
              (n + (0 + length msgs)) (off + length buf) (f ++ rest))
          (sym e) (more refl _ _ _ [] (inl (omega arith)) (λ _. refl)))

  whole_end :
      (r : ReadResult) → rest ≡ [] → visit final ≡ stopped r → visit (final ++ rest) ≡ stopped r
  whole_end r e end =
      subst (λ b. visit b ≡ stopped r) (sym (ap (λ c. final ++ c) e ∙ append-nil final)) end

  pub by_status-Outcome :
      (at_eof : Bool) (r : ReadResult)
      → (at_eof ≡ true → rest ≡ [])
      → (at_eof ≡ false → Later rest next)
      → visit final ≡ stopped r
      → Stop final r
      → After (by_status r.status at_eof n last off buf next (walk_end r))
  by_status-Outcome at_eof r whole more end (at_end e f) =
      subst (λ s. After (by_status s.status at_eof n last off buf next (walk_end s))) (sym f)
        (clean_case at_eof whole more e)
  by_status-Outcome true r whole more end (cut_prefix some_left short f) =
      subst (λ s. After (by_status s.status true n last off buf next (walk_end s))) (sym f)
        (done _ (at truncated_prefix 0 0) _ _ refl (whole_end _ (whole refl) (end ∙ ap stopped f))
          refl refl)
  by_status-Outcome false r whole more end (cut_prefix some_left short f) =
      subst (λ s. After (by_status s.status false n last off buf next (walk_end s))) (sym f)
        (carried (more refl) some_left (inl short))
  by_status-Outcome true r whole more end (cut_message prefix short f) =
      subst (λ s. After (by_status s.status true n last off buf next (walk_end s))) (sym f)
        (done _ (record (at truncated_message 0 0) { declared_length = be16 final 0 }) _ _ refl
          (whole_end _ (whole refl) (end ∙ ap stopped f)) refl refl)
  by_status-Outcome false r whole more end (cut_message prefix short f) =
      subst (λ s. After (by_status s.status false n last off buf next (walk_end s))) (sym f)
        (carried (more refl) (omega (arith, prefix)) (inr short))
  by_status-Outcome at_eof r whole more end (fatal stays (inl zero_status)) =
      subst (λ s. After (by_status s at_eof n last off buf next (walk_end r))) (sym zero_status)
        (done _ r _ _ refl (stays rest) refl refl)
  by_status-Outcome at_eof r whole more end (fatal stays (inr other_status)) =
      subst (λ s. After (by_status s at_eof n last off buf next (walk_end r))) (sym other_status)
        (done _ r _ _ refl (stays rest) refl refl)
