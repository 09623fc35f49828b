-- ===== src/Matching/Entries.antt =====
-- The entries that the id map of include/pricetime/book.hpp should have for one side of the book.
use pricetime.Common.{
  ℕ, suc, ◌≤◌, ◌≡◌, refl, ap, sym, ℤ, List, [], ◌∷◌, ◌++◌, some, Bool-cases, inl, inr, ◌==◌,
  eq_of_some, arith,
}
use pricetime.Types.{Side, Order}
use pricetime.IdMap.{StdIdMap, find, erase}
use pricetime.IdMap.Agree.{count, erase-absent}
use pricetime.Level.{Level, find_in, unlink, shrink}
use pricetime.Matching.{Handle}

abbrev pub handle_at : Side → ℤ → Handle
handle_at s p = record { side = s; price = p }

abbrev pub queue_entries : Side → ℤ → List Order → StdIdMap Handle
queue_entries s p [] = []
queue_entries s p (o ∷ os) = (o.id, handle_at s p) ∷ queue_entries s p os

abbrev pub entries : Side → List Level → StdIdMap Handle
entries s [] = []
entries s (l ∷ ls) = queue_entries s l.price l.queue ++ entries s ls

module _ (s : Side) (p : ℤ) where
  pub queue_entries-append :
      (os : List Order) (o : Order)
      → queue_entries s p (os ++ o ∷ []) ≡ queue_entries s p os ++ (o.id, handle_at s p) ∷ []
  queue_entries-append [] o = refl
  queue_entries-append (x ∷ os) o = ap (◌∷◌ (x.id, handle_at s p)) (queue_entries-append os o)

  -- A reduced order keeps its id.
  pub queue_entries-shrink :
      (i d : ℕ) (os : List Order) → queue_entries s p (shrink i d os) ≡ queue_entries s p os
  unfolding shrink
  queue_entries-shrink i d [] = refl
  queue_entries-shrink i d (o ∷ os) = ground (arith, queue_entries-shrink i d os)

  -- Where no id is twice, the order that is unlinked takes its only entry with it.
  pub queue_entries-unlink :
      (i : ℕ) (os : List Order)
      → count (queue_entries s p os) i ≤ 1
      → queue_entries s p (unlink i os) ≡ erase (queue_entries s p os) i
  unfolding unlink erase
  queue_entries-unlink i [] h = refl
  queue_entries-unlink i (o ∷ os) h = elim (Bool-cases (o.id == i)) [
    | inl here ↦
        let once : suc (count (queue_entries s p os) i) ≤ 1 = rw here at h in
        rw here (sym (erase-absent (queue_entries s p os) i (omega arith)))
    | inr other ↦
        rw other (ap (◌∷◌ (o.id, handle_at s p)) (queue_entries-unlink i os (rw other at h)))
  ]

  -- An entry leads to its order.
  pub find-queue_entries :
      (i : ℕ) (h : Handle) (os : List Order)
      → find (queue_entries s p os) i ≡ some h
      → (h ≡ handle_at s p) × ((o : Order) × (find_in i os ≡ some o))
  unfolding find find_in
  find-queue_entries i h [] e = cc
  find-queue_entries i h (o ∷ os) e = elim (Bool-cases (o.id == i)) [
    | inl here ↦ (sym (eq_of_some (rw here at e)), (o, rw here refl))
    | inr other ↦
        let (a, (o', b)) = find-queue_entries i h os (rw other at e) in (a, (o', rw other b))
  ]
