-- ===== src/Book/Invariant.antt =====
-- The invariant of the book of include/pricetime/book.hpp, and the steps that its operations share.
use pricetime.Common.{ℕ, ◌+◌, ◌*◌, ◌%◌, ◌≤◌, ◌<◌, ◌≡◌, refl, List, [], Bool, arith, u32, u64, ℤ}
use pricetime.Types.{Side, bid, ask, Execution}
use pricetime.LadderMap.Sides.{IsSide, open_levels, resting_orders, rest_in-IsSide}
use pricetime.Matching.Frame.{match_levels-Walked}
use pricetime.Book.{Book, empty_book, count_added, cancel_count, rest, match_book}

-- `due` is the quantity of an aggressor that is not yet matched, rested or canceled. The counters
-- are uint64, so the accounts hold modulo 2 ^ 64.
pub record IsBook (due : ℕ) (b : Book) : Type 0 where
  pub bids : IsSide bid b.bids
  pub asks : IsSide ask b.asks
  pub balanced :
      b.counters.added_qty
      ≡ (due
          + 2 * b.counters.traded_qty
          + b.counters.canceled_qty
          + b.counters.executed_qty
          + open_levels b.bids
          + open_levels b.asks)
        % u64

abbrev pub resting : Book → ℕ
resting b = resting_orders b.bids + resting_orders b.asks

-- There is room for one more order: a level counts its orders in a uint32.
abbrev pub HasRoom : Book → Type 0
HasRoom b = resting b + 1 < u32

pub empty_book-IsBook : IsBook 0 empty_book
empty_book-IsBook = record {
  bids = record { active = tt; sorted = tt };
  asks = record { active = tt; sorted = tt };
  balanced = refl;
}

pub count_added-IsBook : (b : Book) (qty : ℕ) → IsBook 0 b → IsBook qty (count_added b qty)
count_added-IsBook b qty v = record {
  bids = v.bids;
  asks = v.asks;
  balanced = omega (arith, v.balanced);
}

pub cancel_count-IsBook : (due : ℕ) (b : Book) → IsBook due b → IsBook 0 (cancel_count due b)
cancel_count-IsBook due b v = record {
  bids = v.bids;
  asks = v.asks;
  balanced = omega (arith, v.balanced);
}

-- A match keeps the invariant, with what it leaves still due, and adds no resting order.
pub record Matched (qty : ℕ) (b : Book) (r : Book × ℕ × List Execution) : Type 0 where
  pub book : IsBook r.1 r.0
  pub left : r.1 ≤ qty
  pub room : resting r.0 ≤ resting b

pub match_book-Matched :
    (b : Book) (id actor : ℕ) (side : Side) (cross : ℤ → Bool) (qty : ℕ)
    → IsBook qty b
    → Matched qty b (match_book b id actor side cross qty)
unfolding match_book
match_book-Matched b id actor bid cross qty v =
    let w =
      match_levels-Walked ask (record { id = id; actor = actor; policy = b.stp }) cross b.asks
        (record { left = qty; orders = b.orders; counters = b.counters; execs = [] }) v.asks in
    record {
      book = record {
        bids = v.bids;
        asks = w.side;
        balanced = omega (arith, v.balanced, w.weighs, w.entry.added, w.entry.executed);
      };
      left = w.left;
      room = omega (arith, w.room);
    }
match_book-Matched b id actor ask cross qty v =
    let w =
      match_levels-Walked bid (record { id = id; actor = actor; policy = b.stp }) cross b.bids
        (record { left = qty; orders = b.orders; counters = b.counters; execs = [] }) v.bids in
    record {
      book = record {
        bids = w.side;
        asks = v.asks;
        balanced = omega (arith, v.balanced, w.weighs, w.entry.added, w.entry.executed);
      };
      left = w.left;
      room = omega (arith, w.room);
    }

pub rest-IsBook :
    (b : Book) (id : ℕ) (side : Side) (price : ℤ) (qty actor : ℕ)
    → 0 < qty
    → qty < u32
    → HasRoom b
    → IsBook qty b
    → IsBook 0 (rest b id side price qty actor)
unfolding rest
rest-IsBook b id bid price qty actor h k room v =
    let (side, sum) =
      rest_in-IsSide bid
        (record { id = id; price = price; qty = qty; side = bid; participant = actor }) price b.bids
        (record { positive = h; small = k; priced = refl; sided = refl }) (omega arith) v.bids in
    record { bids = side; asks = v.asks; balanced = omega (arith, v.balanced, sum) }
rest-IsBook b id ask price qty actor h k room v =
    let (side, sum) =
      rest_in-IsSide ask
        (record { id = id; price = price; qty = qty; side = ask; participant = actor }) price b.asks
        (record { positive = h; small = k; priced = refl; sided = refl }) (omega arith) v.asks in
    record { bids = v.bids; asks = side; balanced = omega (arith, v.balanced, sum) }
