-- ===== src/IdMap.antt =====
-- include/pricetime/id_map.hpp: the index from order ids, with the `std::unordered_map` as an
-- association list.
pub mod OpenAddress
pub mod Agree
use pricetime.Common.{
  ℕ, List, [], ◌∷◌, Option, none, some, ◌≡◌, arith, Bool, true, false, ◌==◌, if◌then◌else◌,
}

abbrev pub StdIdMap : Type 0 → Type 0
StdIdMap V = List (ℕ × V)

module _ {V : Type 0} where
  unfoldable pub find : StdIdMap V → ℕ → Option V
  find [] i = none
  find (e ∷ m) i = if e.0 == i then some e.1 else find m i

  -- The keys of the map are distinct, so at most one entry goes.
  unfoldable pub erase : StdIdMap V → ℕ → StdIdMap V
  erase [] i = []
  erase (e ∷ m) i = if e.0 == i then erase m i else e ∷ erase m i

  -- `emplace` keeps the old value under a key that is there.
  unfoldable pub insert : StdIdMap V → ℕ → V → StdIdMap V × Bool
  insert m i v = elim (find m i) [ none ↦ ((i, v) ∷ m, true) | some _ ↦ (m, false) ]

  -- After an erase, a lookup finds nothing under the erased id, and what it found before under
  -- every other.
  pub find-erase :
      (m : StdIdMap V) (i j : ℕ) → find (erase m i) j ≡ (if i == j then none else find m j)
  unfolding find erase
  find-erase [] i j = ground arith
  find-erase (e ∷ m) i j = ground (arith, find-erase m i j)

  -- After the insertion of an id that was absent, a lookup finds the new value under it, and
  -- what it found before under every other.
  pub find-insert :
      (m : StdIdMap V) (i j : ℕ) (v : V)
      → find m i ≡ none
      → find (insert m i v).0 j ≡ (if i == j then some v else find m j)
  unfolding find insert
  find-insert m i j v absent = ground arith
