-- ===== src/Book/Replacing.antt =====
-- A replace of include/pricetime/book.hpp, and the messages that tell a second book of it: the
-- executions come while the old order still rests there.
use pricetime.Common.{
  ℕ, ◌≡◌, refl, ap, sym, ◌∙◌, subst, List, [], ◌∷◌, ◌++◌, inl, inr, Bool-cases, ltb, if◌then◌else◌,
  Option, none, some, arith, ℤ,
}
use pricetime.Types.{Side, bid, ask, opposite, Order, Execution, ok}
use pricetime.IdMap.{find, erase}
use pricetime.Level.{Level, remove}
use pricetime.LadderMap.{settle}
use pricetime.Matching.{Handle, crosses}
use pricetime.Book.{
  Book, Outcome, levels, with_levels, match_book, count_added, enter_limit, insert_passive, cancel,
  cancel_open, cancel_count, unrest, find_order, deref, validate,
}
use pricetime.Book.Invariant.{IsBook, count_added-IsBook}
use pricetime.Book.Index.{IsIndexed, match_book-IsIndexed}
use pricetime.Book.Entry.{validate-ok}
use pricetime.Book.Front.{levels-with_same, levels-with_other, levels-with_orders}
use pricetime.Book.Same.{SameOrders, SameOrders-of, levels-Same, lookup-found}
use pricetime.Book.Mirror.{after_one, hides_one}
use pricetime.Book.Feed.{Mirrored, match_book-Mirrored, match_book-far}
use pricetime.Book.Messages.{
  FeedMessage, replaced, deleted, replace_at, take, take_all, take_all-executions,
  execution_messages, levels_added, display-Same,
}

levels_canceled : (q : ℕ) (b : Book) (s : Side) → levels (cancel_count q b) s ≡ levels b s
levels_canceled q b bid = refl
levels_canceled q b ask = refl

-- What a cancellation changes: the level of the order, and its entry.
module _ (b : Book) (l : Level) (o : Order) where
  abbrev side_levels : List Level
  side_levels = settle (remove l o) (levels (cancel_count o.qty b) o.side)

  cancel_open-near : levels (cancel_open b (l, o)) o.side ≡ settle (remove l o) (levels b o.side)
  unfolding cancel_open unrest
  cancel_open-near =
      levels-with_orders (with_levels (cancel_count o.qty b) o.side side_levels) o.side
        (erase b.orders o.id)
      ∙ levels-with_same (cancel_count o.qty b) o.side side_levels
      ∙ ap (settle (remove l o)) (levels_canceled o.qty b o.side)

  cancel_open-far : levels (cancel_open b (l, o)) (opposite o.side) ≡ levels b (opposite o.side)
  unfolding cancel_open unrest
  cancel_open-far =
      levels-with_orders (with_levels (cancel_count o.qty b) o.side side_levels) (opposite o.side)
        (erase b.orders o.id)
      ∙ levels-with_other (cancel_count o.qty b) o.side side_levels
      ∙ levels_canceled o.qty b (opposite o.side)

  pub cancel_open-orders : (cancel_open b (l, o)).orders ≡ erase b.orders o.id
  unfolding cancel_open unrest
  cancel_open-orders = refl

-- What a pointer leads to depends on one side only.
deref-levels :
    (m b : Book) (id : ℕ) (h : Handle)
    → levels m h.side ≡ levels b h.side
    → deref m id h ≡ deref b id h
unfolding deref
deref-levels m b id h e = rw (e, deref) refl

abbrev pub replaced_message : ℕ → ℕ → ℤ → ℕ → FeedMessage
replaced_message old_id new_id price left =
    if ltb 0 left then replaced old_id new_id left price else deleted old_id

module _ (m b : Book) (old_id new_id : ℕ) (price : ℤ) (qty : ℕ) (h : Handle) (l : Level)
    (o : Order) where
  -- The order is found in the first book, on the side of its pointer, and its removal leaves a
  -- sound book that accepts the new one.
  pub record Replaces : Type 0 where
    pub same : SameOrders m b
    pub found : find b.orders old_id ≡ some h
    pub leads : deref b old_id h ≡ some (l, o)
    pub sided : o.side ≡ h.side
    pub named : o.id ≡ old_id
    pub book : IsBook 0 (cancel_open b (l, o))
    pub index : IsIndexed (cancel_open b (l, o))
    pub valid : validate (cancel_open b (l, o)) new_id qty ≡ ok

  abbrev matched : Book × ℕ × List Execution
  matched =
      match_book (count_added (cancel_open b (l, o)) qty) new_id 0 o.side (crosses o.side price) qty

  module _ (v : Replaces) where
    matched_far : levels matched.0 o.side ≡ settle (remove l o) (levels b o.side)
    matched_far =
        match_book-far (count_added (cancel_open b (l, o)) qty) new_id 0 o.side
          (crosses o.side price) qty
        ∙ levels_added (cancel_open b (l, o)) qty o.side
        ∙ cancel_open-near b l o

    executed_first : Mirrored (λ x. erase x old_id) (λ x. find x old_id ≡ some h) m o.side matched
    executed_first =
        match_book-Mirrored _ _ (hides_one old_id h) m (count_added (cancel_open b (l, o)) qty)
          new_id o.side (crosses o.side price) qty qty
          (count_added-IsBook (cancel_open b (l, o)) qty v.book) v.index
          (levels-Same m b (opposite o.side) v.same
            ∙ sym
                (levels_added (cancel_open b (l, o)) qty (opposite o.side) ∙ cancel_open-far b l o))
          (ap (λ x. erase x old_id) v.same.orders
            ∙ ap (erase b.orders) (sym v.named)
            ∙ sym (cancel_open-orders b l o))
          (ap (λ x. find x old_id) v.same.orders ∙ v.found)

    near_side : levels executed_first.book o.side ≡ levels b o.side
    near_side = executed_first.far ∙ levels-Same m b o.side v.same

    still_leads : deref executed_first.book old_id h ≡ some (l, o)
    still_leads =
        deref-levels executed_first.book b old_id h
          (subst (λ s. levels executed_first.book s ≡ levels b s) v.sided near_side)
        ∙ v.leads

    then_canceled :
        cancel executed_first.book old_id ≡ some (cancel_open executed_first.book (l, o), ok, [])
    unfolding cancel
    then_canceled =
        lookup-found executed_first.book old_id _ _ h (l, o) executed_first.kept still_leads

    canceled-Same : SameOrders (cancel_open executed_first.book (l, o)) matched.0
    canceled-Same =
        SameOrders-of _ _ o.side
          (cancel_open-near executed_first.book l o
            ∙ ap (settle (remove l o)) near_side
            ∙ sym matched_far)
          (cancel_open-far executed_first.book l o ∙ executed_first.near)
          (cancel_open-orders executed_first.book l o
            ∙ ap (erase executed_first.book.orders) v.named
            ∙ executed_first.orders)

    finds_order : find_order executed_first.book old_id ≡ some (some o)
    unfolding find_order
    finds_order =
        lookup-found executed_first.book old_id none (λ e. some e.1) h (l, o) executed_first.kept
          still_leads

    takes_deleted :
        take executed_first.book (deleted old_id) ≡ some (cancel_open executed_first.book (l, o))
    unfolding take
    takes_deleted = ap (λ (c : Option Outcome). after_one c some) then_canceled

    takes_replaced :
        (left : ℕ)
        → take executed_first.book (replaced old_id new_id left price)
          ≡ some
              (insert_passive (cancel_open executed_first.book (l, o)) new_id o.side price left).0
    unfolding take
    takes_replaced left =
        ap (replace_at executed_first.book old_id new_id left price) finds_order
        ∙ ap
            (λ (c : Option Outcome).
              after_one c (λ x. some (insert_passive x new_id o.side price left).0))
            then_canceled

    one_message :
        (x : FeedMessage) (m' : Book)
        → take executed_first.book x ≡ some m'
        → take_all (x ∷ []) executed_first.book ≡ some m'
    unfolding take_all
    one_message x m' e = rw e refl

    -- The executions, and then the replacement or, if nothing is left of it, the removal of the
    -- old order, make the second book follow.
    pub replace-Same :
        (m' : Book) × (take_all
            (execution_messages matched.2 ++ replaced_message old_id new_id price matched.1 ∷ [])
            m
          ≡ some m')
        × SameOrders m' (enter_limit (cancel_open b (l, o)) 0 new_id o.side price qty).0
    unfolding enter_limit
    replace-Same =
        let fresh = validate-ok (cancel_open b (l, o)) new_id qty v.valid in
        let unused =
          (match_book-IsIndexed (count_added (cancel_open b (l, o)) qty) new_id 0 o.side
            (crosses o.side price) qty qty fresh.2
            (count_added-IsBook (cancel_open b (l, o)) qty v.book) v.index).1 in
        let runs =
          take_all-executions matched.2 (replaced_message old_id new_id price matched.1 ∷ []) m
            executed_first.book executed_first.runs in
        elim (Bool-cases (ltb 0 matched.1)) [
          | inl more ↦ (
            (insert_passive (cancel_open executed_first.book (l, o)) new_id o.side price
                matched.1).0,
            runs ∙ rw more (one_message _ _ (takes_replaced matched.1)),
            rw more (
                display-Same (cancel_open executed_first.book (l, o)) matched.0 new_id o.side price
                  matched.1 canceled-Same fresh.0 (ground (arith, more)) unused),
          )
          | inr done ↦ (
            cancel_open executed_first.book (l, o),
            runs ∙ rw done (one_message _ _ takes_deleted),
            rw done canceled-Same,
          )
        ]
