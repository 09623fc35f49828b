-- ===== src/Book/Entries.antt =====
-- What the operations of include/pricetime/ladder_map.hpp do to the entries of a side.
use pricetime.Common.{
  nil_of_length, ℕ, ◌≤◌, ◌<◌, ◌≡◌, refl, ap, sym, ◌∙◌, subst, ℤ, List, [], ◌∷◌, ◌++◌, append_assoc,
  some, Option-cases, true, false, Bool-cases, inl, inr, ◌==◌, eq_of_some, arith, length, eqb_ℤ,
  eq_of_eqb_ℤ, eqb_ℤ_refl,
}
use pricetime.Types.{Side, bid, ask, Order}
use pricetime.IdMap.{StdIdMap, find, erase}
use pricetime.IdMap.Agree.{
  count, count-append, find-append_some, find-append_none, erase-append, erase-absent,
}
use pricetime.Level.{Level, push_back, find_in, unlink, reduce}
use pricetime.LadderMap.{better, level_at, put_level, rest_in, settle}
use pricetime.LadderMap.Sides.{
  IsSorted, Beats, place, rest_in-place, swap_in, settle-swap_in, level_at-All,
}
use pricetime.Matching.{Handle}
use pricetime.Matching.Entries.{
  handle_at, queue_entries, entries, queue_entries-append, queue_entries-shrink,
  queue_entries-unlink, find-queue_entries,
}

-- A new entry somewhere among the old ones.
pub record Inserted {V : Type 0} (e : ℕ × V) (m m' : StdIdMap V) : Type 0 where
  pub before : StdIdMap V
  pub after : StdIdMap V
  pub old : m ≡ before ++ after
  pub new : m' ≡ before ++ e ∷ after

apart_of_better : (s : Side) (p q : ℤ) → better s p q ≡ true → eqb_ℤ p q ≡ false
apart_of_better bid p q h = ground arith
apart_of_better ask p q h = ground arith

module _ (s : Side) where
  place-Inserted :
      (p : ℤ) (o : Order) (ls : List Level)
      → Inserted (o.id, handle_at s p) (entries s ls) (entries s (place s p o ls))
  unfolding place push_back
  place-Inserted p o [] = record { before = []; after = []; old = refl; new = refl }
  place-Inserted p o (l ∷ ls) = elim (Bool-cases (eqb_ℤ l.price p)) [
    | inl here ↦
        let same = eq_of_eqb_ℤ l.price p here in
        rw here (record {
          before = queue_entries s l.price l.queue;
          after = entries s ls;
          old = refl;
          new =
              ap (λ m. m ++ entries s ls) (queue_entries-append s l.price l.queue o)
              ∙ append_assoc (queue_entries s l.price l.queue) ((o.id, handle_at s l.price) ∷ [])
                  (entries s ls)
              ∙ ap (λ q. queue_entries s l.price l.queue ++ (o.id, handle_at s q) ∷ entries s ls)
                  same;
        })
    | inr other ↦ elim (Bool-cases (better s p l.price)) [
      | inl above ↦
          rw (other, above)
            (record { before = []; after = entries s (l ∷ ls); old = refl; new = refl })
      | inr below ↦
          let ih = place-Inserted p o ls in
          let here = queue_entries s l.price l.queue in
          rw (other, below)
            (record {
              before = here ++ ih.before;
              after = ih.after;
              old = ap (λ m. here ++ m) ih.old ∙ sym (append_assoc here ih.before ih.after);
              new =
                  ap (λ m. here ++ m) ih.new
                  ∙ sym (append_assoc here ih.before ((o.id, handle_at s p) ∷ ih.after));
            })
    ]
  ]

  pub rest_in-Inserted :
      (p : ℤ) (o : Order) (ls : List Level)
      → Inserted (o.id, handle_at s p) (entries s ls) (entries s (rest_in s p o ls))
  rest_in-Inserted p o ls = rw (rest_in-place s p o ls) (place-Inserted p o ls)

  -- An order that a level holds has an entry.
  count-queue_entries :
      (p : ℤ) (i : ℕ) (os : List Order) (o : Order)
      → find_in i os ≡ some o
      → 0 < count (queue_entries s p os) i
  unfolding find_in
  count-queue_entries p i [] o e = cc
  count-queue_entries p i (x ∷ os) o e = elim (Bool-cases (x.id == i)) [
    | inl here ↦ rw here (omega arith)
    | inr other ↦ rw other (count-queue_entries p i os o (rw other at e))
  ]

  pub count-entries :
      (p : ℤ) (i : ℕ) (ls : List Level) (l : Level) (o : Order)
      → level_at p ls ≡ some l
      → find_in i l.queue ≡ some o
      → 0 < count (entries s ls) i
  unfolding level_at
  count-entries p i [] l o e k = cc
  count-entries p i (x ∷ ls) l o e k =
      let sum = count-append (queue_entries s x.price x.queue) (entries s ls) i in
      elim (Bool-cases (eqb_ℤ x.price p)) [
        | inl here ↦
            let same : x ≡ l = eq_of_some (rw here at e) in
            let held : find_in i x.queue ≡ some o = rw same k in
            omega (arith, sum, count-queue_entries x.price i x.queue o held)
        | inr other ↦ omega (arith, sum, count-entries p i ls l o (rw other at e) k)
      ]

  -- A level that has lost an order is written back, or erased when it is empty: one entry goes.
  module _ (l l' : Level) (o : Order) (i : ℕ) (held : find_in i l.queue ≡ some o)
      (lost : l'.queue ≡ unlink i l.queue) (counted : l'.order_count ≡ length l'.queue) where
    swap_in-entries :
        (ls : List Level)
        → level_at l'.price ls ≡ some l
        → count (entries s ls) i ≤ 1
        → entries s (swap_in l'.price l' ls) ≡ erase (entries s ls) i
    unfolding level_at swap_in
    swap_in-entries [] e h = cc
    swap_in-entries (x ∷ ls) e h =
        let here = queue_entries s x.price x.queue in
        let sum = count-append here (entries s ls) i in
        let apart = erase-append here (entries s ls) i in
        elim (Bool-cases (eqb_ℤ x.price l'.price)) [
          | inr other ↦
              let below = count-entries l'.price i ls l o (rw other at e) held in
              let kept : erase here i ≡ here = erase-absent here i (omega (arith, sum, h, below)) in
              let ih = swap_in-entries ls (rw other at e) (omega (arith, sum, h)) in
              rw (other, apart, kept, ih) refl
          | inl same_price ↦
              let same : x ≡ l = eq_of_some (rw same_price at e) in
              let priced : x.price ≡ l'.price = eq_of_eqb_ℤ x.price l'.price same_price in
              let queue : l'.queue ≡ unlink i x.queue =
                lost ∙ ap (λ (r : Level). unlink i r.queue) (sym same) in
              let mine = count-queue_entries x.price i x.queue o (rw same held) in
              let kept : erase (entries s ls) i ≡ entries s ls =
                erase-absent (entries s ls) i (omega (arith, sum, h, mine)) in
              let gone : erase here i ≡ queue_entries s l'.price l'.queue =
                sym (queue_entries-unlink s x.price i x.queue (omega (arith, sum, h)))
                ∙ ap (queue_entries s x.price) (sym queue)
                ∙ ap (λ q. queue_entries s q l'.queue) priced in
              elim (Bool-cases (l'.order_count == 0)) [
                | inr stays ↦ rw (same_price, stays, apart, gone, kept) refl
                | inl empty ↦
                    let nil : l'.queue ≡ [] = nil_of_length l'.queue (ground (arith, counted)) in
                    rw (same_price, empty, apart, gone, kept, nil) refl
              ]
        ]

  pub settle-entries :
      (l l' : Level) (o : Order) (i : ℕ) (ls : List Level)
      → level_at l'.price ls ≡ some l
      → find_in i l.queue ≡ some o
      → l'.queue ≡ unlink i l.queue
      → l'.order_count ≡ length l'.queue
      → count (entries s ls) i ≤ 1
      → entries s (settle l' ls) ≡ erase (entries s ls) i
  settle-entries l l' o i ls e held lost counted h =
      rw (settle-swap_in l' ls) (swap_in-entries l l' o i held lost counted ls e h)

  -- A level whose order is reduced keeps its entries.
  pub reduce-entries :
      (l : Level) (o : Order) (d : ℕ) (ls : List Level)
      → level_at l.price ls ≡ some l
      → entries s (put_level l.price (reduce l o d) ls) ≡ entries s ls
  unfolding level_at put_level reduce
  reduce-entries l o d [] e = cc
  reduce-entries l o d (x ∷ ls) e = elim (Bool-cases (eqb_ℤ x.price l.price)) [
    | inl here ↦
        let same : x ≡ l = eq_of_some (rw here at e) in
        rw (here, queue_entries-shrink s l.price o.id d l.queue)
          (ap (λ (r : Level). queue_entries s r.price r.queue ++ entries s ls) (sym same))
    | inr other ↦
        rw other
          (ap (λ m. queue_entries s x.price x.queue ++ m) (reduce-entries l o d ls (rw other at e)))
  ]

  -- An entry leads to a level of the side, and to an order in its queue.
  pub find-entries :
      (i : ℕ) (h : Handle) (ls : List Level)
      → find (entries s ls) i ≡ some h
      → IsSorted s ls
      → (h.side ≡ s)
        × ((l : Level) × (level_at h.price ls ≡ some l)
            × ((o : Order) × (find_in i l.queue ≡ some o)))
  unfolding find level_at
  find-entries i h [] e v = cc
  find-entries i h (x ∷ ls) e v =
      let here = queue_entries s x.price x.queue in
      elim (Option-cases (find here i)) [
        | inr (h', there) ↦
            let (same, held) = find-queue_entries s x.price i h' x.queue there in
            let first : h' ≡ h =
              eq_of_some (sym (find-append_some here (entries s ls) i h' there) ∙ e) in
            let mine : h ≡ handle_at s x.price = sym first ∙ same in
            let at_x : level_at h.price (x ∷ ls) ≡ some x =
              rw (mine, eqb_ℤ_refl x.price, level_at) refl in
            (ap (λ (r : Handle). r.side) mine, (x, at_x, held))
        | inl absent ↦
            let (sided, (l, found, held)) =
              find-entries i h ls (sym (find-append_none here (entries s ls) i absent) ∙ e) v.1 in
            let (beaten, priced) = level_at-All (Beats s x.price) h.price l ls found v.0 in
            let other : eqb_ℤ x.price h.price ≡ false =
              apart_of_better s x.price h.price
                (subst (λ q. better s x.price q ≡ true) priced beaten) in
            (sided, (l, rw other found, held))
      ]
