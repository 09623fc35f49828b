-- ===== src/Book/Messages.antt =====
-- The order messages of a feed, and what the handlers of include/pricetime/itch_replay.hpp make of them
-- on one book: the operations of include/pricetime/book.hpp and the messages that tell of them.
use pricetime.Common.{
  ℕ, ◌<◌, ◌≡◌, ◌≢◌, refl, ap, sym, ◌∙◌, List, [], ◌∷◌, ◌++◌, inl, inr, Bool-cases, ltb,
  if◌then◌else◌, Option, none, some, Option-cases, arith, ℤ, eq_of_some,
}
use pricetime.Types.{Side, bid, ask, opposite, Order, Execution, ok}
use pricetime.IdMap.{find}
use pricetime.Matching.{crosses}
use pricetime.Book.{
  Book, levels, match_book, count_added, enter_limit, rest, insert_passive, execute_resting,
  reduce_resting, cancel, find_order, validate,
}
use pricetime.Book.Invariant.{IsBook, count_added-IsBook}
use pricetime.Book.Index.{IsIndexed, match_book-IsIndexed}
use pricetime.Book.Entry.{validate-ok}
use pricetime.Book.Same.{SameOrders, SameOrders-of, levels-Same, rest-Same}
use pricetime.Book.Mirror.{execute_all, after_one, shows_all}
use pricetime.Book.Feed.{match_book-Mirrored, match_book-far}

-- Executed, added, reduced, deleted, and replaced by a new order.
pub data FeedMessage : Type 0 where
  executed : ℕ → ℕ → FeedMessage
  added : ℕ → Side → ℕ → ℤ → FeedMessage
  canceled : ℕ → ℕ → FeedMessage
  deleted : ℕ → FeedMessage
  replaced : ℕ → ℕ → ℕ → ℤ → FeedMessage

-- The replacement rests at the side of the original, which is read before it is canceled.
abbrev pub replace_at : Book → ℕ → ℕ → ℕ → ℤ → Option (Option Order) → Option Book
replace_at m old_id new_id qty price none = none
replace_at m old_id new_id qty price (some none) = some m
replace_at m old_id new_id qty price (some (some o)) =
    after_one (cancel m old_id) (λ m'. some (insert_passive m' new_id o.side price qty).0)

unfoldable pub take : Book → FeedMessage → Option Book
take m (executed id qty) = after_one (execute_resting m id qty) some
take m (added id side qty price) = some (insert_passive m id side price qty).0
take m (canceled id qty) = after_one (reduce_resting m id qty) some
take m (deleted id) = after_one (cancel m id) some
take m (replaced old_id new_id qty price) =
    replace_at m old_id new_id qty price (find_order m old_id)

abbrev pub then_take : Option Book → (Book → Option Book) → Option Book
then_take none next = none
then_take (some m) next = next m

unfoldable pub take_all : List FeedMessage → Book → Option Book
unfolding take
take_all [] m = some m
take_all (x ∷ xs) m = then_take (take m x) (take_all xs)

-- The messages of the executions of a match.
abbrev pub execution_messages : List Execution → List FeedMessage
execution_messages [] = []
execution_messages (x ∷ xs) = executed x.resting_id x.qty ∷ execution_messages xs

pub take_all-executions :
    (xs : List Execution) (more : List FeedMessage) (m m' : Book)
    → execute_all xs m ≡ some m'
    → take_all (execution_messages xs ++ more) m ≡ take_all more m'
unfolding take_all take execute_all
take_all-executions [] more m m' e = ap (take_all more) (eq_of_some e)
take_all-executions (x ∷ xs) more m m' e =
    elim (Option-cases (execute_resting m x.resting_id x.qty)) [
      | inl stuck ↦ absurd (let z : none ≡ some m' = rw stuck at e in cc)
      | inr (r, answers) ↦ rw answers (take_all-executions xs more r.0 m' (rw answers at e))
    ]

-- What is displayed of a quantity that has been matched.
abbrev pub added_message : ℕ → Side → ℤ → ℕ → List FeedMessage
added_message id side price left = if ltb 0 left then added id side left price ∷ [] else []

pub levels_added : (b : Book) (qty : ℕ) (s : Side) → levels (count_added b qty) s ≡ levels b s
levels_added b qty bid = refl
levels_added b qty ask = refl

validate_of :
    (b : Book) (id qty : ℕ) → id ≢ 0 → 0 < qty → find b.orders id ≡ none → validate b id qty ≡ ok
unfolding validate
validate_of b id qty h k e = ground (arith, h, k, e)

-- The message of a displayed order rests it in the second book as it rests in the first.
pub display-Same :
    (m b : Book) (id : ℕ) (side : Side) (price : ℤ) (left : ℕ)
    → SameOrders m b
    → id ≢ 0
    → 0 < left
    → find b.orders id ≡ none
    → SameOrders (insert_passive m id side price left).0 (rest b id side price left 0)
unfolding insert_passive
display-Same m b id side price left same some_id more unused =
    rw (validate_of m id left some_id more (rw same.orders unused)) (
      rest-Same (count_added m left) b id side price left 0
        (record { bids = same.bids; asks = same.asks; orders = same.orders }))

-- Let two books have the same levels and index of orders, the first satisfy the invariant with
-- its index right, and validation pass. When the order enters the first book without a
-- participant, the second takes the executions as removals and what is displayed as a passive
-- order, and the two books have the same levels and index of orders again.
pub enter_limit-Same :
    (m b : Book) (id : ℕ) (side : Side) (price : ℤ) (qty : ℕ)
    → IsBook 0 b
    → IsIndexed b
    → validate b id qty ≡ ok
    → SameOrders m b
    → let r = match_book (count_added b qty) id 0 side (crosses side price) qty in
      (m' : Book) × (take_all (execution_messages r.2 ++ added_message id side price r.1) m
        ≡ some m')
      × SameOrders m' (enter_limit b 0 id side price qty).0
unfolding enter_limit take_all take
enter_limit-Same m b id side price qty v w valid same =
    let r = match_book (count_added b qty) id 0 side (crosses side price) qty in
    let fresh = validate-ok b id qty valid in
    let added = count_added-IsBook b qty v in
    let unused =
      (match_book-IsIndexed (count_added b qty) id 0 side (crosses side price) qty qty fresh.2 added
        w).1 in
    let k =
      match_book-Mirrored _ _ shows_all m (count_added b qty) id side (crosses side price) qty qty
        added w (levels-Same m b (opposite side) same ∙ sym (levels_added b qty (opposite side)))
        same.orders tt in
    let after : SameOrders k.book r.0 =
      SameOrders-of k.book r.0 side
        (k.far
          ∙ levels-Same m b side same
          ∙ sym (levels_added b qty side)
          ∙ sym (match_book-far (count_added b qty) id 0 side (crosses side price) qty))
        k.near k.orders in
    let runs = take_all-executions r.2 (added_message id side price r.1) m k.book k.runs in
    elim (Bool-cases (ltb 0 r.1)) [
      | inl more ↦ (
        (insert_passive k.book id side price r.1).0,
        runs ∙ rw more refl,
        rw more
            (display-Same k.book r.0 id side price r.1 after fresh.0 (ground (arith, more)) unused),
      )
      | inr done ↦ (k.book, runs ∙ rw done refl, rw done after)
    ]
