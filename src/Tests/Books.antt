-- ===== src/Tests/Books.antt =====
-- The book's properties at a small book: a bid of participant 7, and an ask level that holds an
-- order of participant 7 in front of one of participant 8.
use pricetime.Common.{◌≡◌, refl, pos, [], ◌∷◌, true, All, arith}
use pricetime.Types.{bid, ask, Order, cancel_resting}
use pricetime.Level.{Level}
use pricetime.Level.Tally.{IsLevel}
use pricetime.Matching.{
  Aggressor, Flow, Handle, crosses, match_levels, available, scan_level, scan_queue,
}
use pricetime.Matching.Fills.{filled}
use pricetime.Matching.Reach.{available-match_levels}
use pricetime.Matching.Prices.{IsFill, Blocked, match_levels-Blocked}
use pricetime.Book.{Book, match_book, count_added, add_limit_as, add_fok_as, zero_counters}
use pricetime.Book.Invariant.{IsBook}
use pricetime.Book.Entry.{add_limit_as-IsBook}
use pricetime.Book.Guarantees.{
  IsAllOrNothing, IsForeign, aggressor, add_fok_as-IsAllOrNothing, match_book-IsFill,
  add_limit_as-IsFill,
}

abbrev order_1 : Order
order_1 = record { id = 1; price = pos 10; qty = 100; side = bid; participant = 7 }

abbrev order_2 : Order
order_2 = record { id = 2; price = pos 12; qty = 50; side = ask; participant = 7 }

abbrev order_3 : Order
order_3 = record { id = 3; price = pos 12; qty = 60; side = ask; participant = 8 }

abbrev bid_level : Level
bid_level = record { price = pos 10; total_qty = 100; order_count = 1; queue = order_1 ∷ [] }

abbrev ask_level : Level
ask_level = record {
  price = pos 12;
  total_qty = 110;
  order_count = 2;
  queue = order_2 ∷ order_3 ∷ [];
}

abbrev at_bid : Handle
at_bid = record { side = bid; price = pos 10 }

abbrev at_ask : Handle
at_ask = record { side = ask; price = pos 12 }

abbrev market : Book
market = record {
  stp = cancel_resting;
  bids = bid_level ∷ [];
  asks = ask_level ∷ [];
  orders = (1, at_bid) ∷ (2, at_ask) ∷ (3, at_ask) ∷ [];
  counters = record zero_counters { added_qty = 210 };
}

ask_level-IsLevel : IsLevel ask ask_level
ask_level-IsLevel = record {
  counted = refl;
  totalled = refl;
  short = omega arith;
  orders = (
    record { positive = omega arith; small = omega arith; priced = refl; sided = refl },
    (record { positive = omega arith; small = omega arith; priced = refl; sided = refl }, tt),
  );
}

bid_level-IsLevel : IsLevel bid bid_level
bid_level-IsLevel = record {
  counted = refl;
  totalled = refl;
  short = omega arith;
  orders =
      (record { positive = omega arith; small = omega arith; priced = refl; sided = refl }, tt);
}

market-IsBook : IsBook 0 market
market-IsBook = record {
  bids = record { active = ((bid_level-IsLevel, omega arith), tt); sorted = (tt, tt) };
  asks = record { active = ((ask_level-IsLevel, omega arith), tt); sorted = (tt, tt) };
  balanced = refl;
}

-- Participant 7 reaches only the order of participant 8.
add_fok_as-IsAllOrNothing_example : IsAllOrNothing market 60 (add_fok_as market 7 4 bid (pos 12) 60)
add_fok_as-IsAllOrNothing_example =
    add_fok_as-IsAllOrNothing market 7 4 (pos 12) 60 bid market-IsBook (omega arith)

abbrev seven : Aggressor
seven = record { id = 4; actor = 7; policy = cancel_resting }

abbrev start : Flow
start = record { left = 60; orders = market.orders; counters = market.counters; execs = [] }

available-match_levels_example :
    ((match_levels seven (crosses bid (pos 12)) (ask_level ∷ []) start).1.left ≡ 0)
    × (filled (match_levels seven (crosses bid (pos 12)) (ask_level ∷ []) start).1.execs ≡ 60)
unfolding available scan_level scan_queue
available-match_levels_example =
    available-match_levels ask seven (crosses bid (pos 12)) 60 60 (omega arith) (ask_level ∷ [])
      start 0 ((ask_level-IsLevel, omega arith), tt) refl refl (omega arith) (omega arith)

match_book-IsFill_example :
    All
      (IsFill (aggressor market 4 7) (λ _. true) (IsForeign (aggressor market 4 7) market.asks))
      (match_book (count_added market 80) 4 7 bid (λ _. true) 80).2
match_book-IsFill_example = match_book-IsFill market 7 4 80 (λ _. true) bid market-IsBook

add_limit_as-IsFill_example :
    All
      (IsFill
        (aggressor market 4 7)
        (crosses bid (pos 12))
        (IsForeign (aggressor market 4 7) market.asks))
      (add_limit_as market 7 4 bid (pos 12) 80).2
add_limit_as-IsFill_example = add_limit_as-IsFill market 7 4 bid (pos 12) 80 market-IsBook

match_levels-Blocked_example :
    Blocked
      (crosses bid (pos 11))
      (match_levels seven (crosses bid (pos 11)) (ask_level ∷ []) start).0
unfolding match_levels
match_levels-Blocked_example =
    match_levels-Blocked ask seven (crosses bid (pos 11)) (ask_level ∷ []) start
      ((ask_level-IsLevel, omega arith), tt) (omega arith)

add_limit_as-IsBook_example : IsBook 0 (add_limit_as market 7 4 bid (pos 12) 80).0
add_limit_as-IsBook_example =
    add_limit_as-IsBook market 7 4 bid 80 market-IsBook (pos 12) (omega arith) (omega arith)
