-- ===== src/StatsObserver/Replaces.antt =====
-- What a replace counts in the observer of src/tools/book_stats.cpp.
use pricetime.Common.{
  ℕ, ◌≡◌, ◌≢◌, refl, ap, ◌∙◌, inl, inr, Bool-cases, ◌==◌, if◌then◌else◌, arith, eq_of_==,
}
use pricetime.IdMap.{StdIdMap, find}
use pricetime.Replay.Books.{find-put}
use pricetime.StatsObserver.{
  StatsObserver, SymbolCounters, no_counters, assign, value_or, count_add, at_symbol, count_new,
  replace_seen,
}

-- The counters of a symbol.
abbrev pub counters_at : StatsObserver → ℕ → SymbolCounters
counters_at o s = value_or (find o.symbols s) no_counters

counters-assign :
    (m : StdIdMap SymbolCounters) (k s : ℕ) (c : SymbolCounters)
    → value_or (find (assign m k c) s) no_counters
      ≡ (if k == s then c else value_or (find m s) no_counters)
unfolding assign
counters-assign m k s c = elim (Bool-cases (k == s)) [
  | inl here ↦ ap (λ x. value_or x no_counters) (find-put m k s c) ∙ rw here refl
  | inr other ↦ ap (λ x. value_or x no_counters) (find-put m k s c) ∙ rw other refl
]

counters-count_new :
    (o : StatsObserver) (id qty ts s : ℕ) → counters_at (count_new o id qty ts) s ≡ counters_at o s
unfolding count_new
counters-count_new o id qty ts s = refl

-- A replace counts one add more for the symbol that owns the old reference, if one is known, and
-- leaves every other counter of every symbol as it was, the removals included.
pub replace_seen-counters :
    (o : StatsObserver) (old_id new_id qty ts s : ℕ)
    → let owner = value_or (find o.owner old_id) 0 in
      counters_at (replace_seen o old_id new_id qty ts) s ≡ (
        if owner == 0
        then counters_at o s
        else if owner == s
        then count_add (counters_at o s)
        else counters_at o s)
unfolding replace_seen at_symbol count_new
replace_seen-counters o old_id new_id qty ts s =
    let owner : ℕ = value_or (find o.owner old_id) 0 in
    elim (Bool-cases (owner == 0)) [
      | inl unknown ↦ rw unknown refl
      | inr known ↦ rw known (
          counters-assign o.symbols owner s (count_add (counters_at o owner))
          ∙ elim (Bool-cases (owner == s)) [
            | inl here ↦ rw here (ap (λ k. count_add (counters_at o k)) (eq_of_== owner s here))
            | inr other ↦ rw other refl
          ])
    ]

-- The old reference keeps its owner unless the new one has the same number.
pub replace_seen-owner :
    (o : StatsObserver) (old_id new_id qty ts : ℕ)
    → new_id ≢ old_id
    → find (replace_seen o old_id new_id qty ts).owner old_id ≡ find o.owner old_id
unfolding replace_seen at_symbol count_new assign
replace_seen-owner o old_id new_id qty ts other =
    let owner : ℕ = value_or (find o.owner old_id) 0 in
    elim (Bool-cases (owner == 0)) [
      | inl unknown ↦ rw unknown refl
      | inr known ↦ rw known (find-put o.owner new_id old_id owner ∙ ground (arith, other))
    ]
