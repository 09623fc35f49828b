-- ===== src/Book/Orders.antt =====
-- What the removals of include/pricetime/book.hpp do to the index, and what `find_order` says of it.
use pricetime.Common.{
  ℕ, ◌≡◌, ◌≢◌, refl, ap, sym, ◌∙◌, Option-cases, none, some, Bool, inl, inr, Bool-cases, ltb, ◌==◌,
  if◌then◌else◌, arith, eq_of_some,
}
use pricetime.Types.{Order, Result}
use pricetime.IdMap.{find, erase, find-erase}
use pricetime.IdMap.Agree.{count-none, erase-absent}
use pricetime.Level.{Level, reduce}
use pricetime.LadderMap.{put_level}
use pricetime.Matching.{Handle}
use pricetime.Book.{
  Book, Outcome, levels, consume, consume_open, count_taken, unrest, cancel, cancel_open,
  find_order, lookup, deref, follow,
}
use pricetime.Book.Invariant.{IsBook}
use pricetime.Book.Removal.{lookup_pointed}
use pricetime.Book.Front.{orders-with_levels, orders_counted}

unrest-orders : (b : Book) (l : Level) (o : Order) → (unrest b (l, o)).orders ≡ erase b.orders o.id
unfolding unrest
unrest-orders b l o = refl

module _ (b : Book) (v : IsBook 0 b) where
  -- A cancel takes the id out of the index.
  pub cancel-orders : (id : ℕ) (r : Outcome) → cancel b id ≡ some r → r.0.orders ≡ erase b.orders id
  unfolding cancel cancel_open unrest
  cancel-orders id r run =
      lookup_pointed (λ (x : Outcome). x.0.orders ≡ erase b.orders id) b id _ _ r run v
        (λ absent. sym (erase-absent b.orders id (count-none b.orders id absent)))
        (λ (l, o) p. ap (erase b.orders) p.named)

  consume_open-others :
      (qty : ℕ) (x : Bool) (l : Level) (o : Order) (j : ℕ)
      → j ≢ o.id
      → find (consume_open b qty x (l, o)).0.orders j ≡ find b.orders j
  unfolding consume_open
  consume_open-others qty x l o j other =
      let take = if ltb qty o.qty then qty else o.qty in
      let counted = orders_counted x take b in
      elim (Bool-cases (qty == 0)) [
        | inl nothing ↦ rw nothing refl
        | inr some_qty ↦ elim (Bool-cases (take == o.qty)) [
          | inl whole ↦
              rw (some_qty, whole)
                (ap (λ m. find m j)
                    (unrest-orders (count_taken x take b) l o ∙ ap (λ m. erase m o.id) counted)
                  ∙ ground (arith, other, find-erase b.orders o.id j))
          | inr part ↦
              rw (some_qty, part)
                (ap (λ m. find m j)
                  (orders-with_levels (count_taken x take b) o.side
                      (put_level l.price (reduce l o take) (levels b o.side))
                    ∙ counted))
        ]
      ]

  -- A removal leaves every other id as it was.
  pub consume-others :
      (id qty : ℕ) (x : Bool) (r : Book × Result × ℕ)
      → consume b id qty x ≡ some r
      → (j : ℕ) → j ≢ id
      → find r.0.orders j ≡ find b.orders j
  unfolding consume
  consume-others id qty x r run j other =
      lookup_pointed (λ (y : Book × Result × ℕ). find y.0.orders j ≡ find b.orders j) b id _ _ r run
        v (λ _. refl) (λ (l, o) p. consume_open-others qty x l o j (λ e. other (e ∙ p.named)))

-- `find_order` says whether the id is in the index.
module _ (b : Book) (id : ℕ) where
  lookup-present :
      {A : Type 0} (unknown : A) (found : Level × Order → A) (h : Handle) (r : A)
      → find b.orders id ≡ some h
      → lookup b id unknown found ≡ some r
      → (e : Level × Order) × (found e ≡ r)
  unfolding lookup
  lookup-present unknown found h r present run = elim (Option-cases (deref b id h)) [
    | inl lost ↦ absurd (let z : none ≡ some r = rw (present, lost, lookup, follow) at run in cc)
    | inr (e, leads) ↦ (e, eq_of_some (rw (present, leads, lookup, follow) at run))
  ]

  pub find_order-none : find_order b id ≡ some none → find b.orders id ≡ none
  unfolding find_order
  find_order-none run = elim (Option-cases (find b.orders id)) [
    | inl absent ↦ absent
    | inr (h, present) ↦
        absurd (let (e, z) = lookup-present none (λ x. some x.1) h none present run in cc)
  ]

  pub find_order-some :
      (o : Order) → find_order b id ≡ some (some o) → (h : Handle) × (find b.orders id ≡ some h)
  unfolding find_order lookup
  find_order-some o run = elim (Option-cases (find b.orders id)) [
    | inl absent ↦ absurd (let z : none ≡ some o = eq_of_some (rw (absent, lookup) at run) in cc)
    | inr (h, present) ↦ (h, present)
  ]
