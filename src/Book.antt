-- ===== src/Book.antt =====
-- include/pricetime/book.hpp: the operations of `OrderBook<MapLadder, StdIdMap>`, and `Op` and
-- `apply` of op.hpp. An operation returns the book, its result code and the executions that it
-- reported to `on_exec`, oldest first. `none` is a dangling pointer: the id map leads to an order
-- that its level does not hold.
pub mod Invariant
pub mod Entry
pub mod Removal
pub mod Guarantees
pub mod Views
pub mod Entries
pub mod Index
pub mod Room
pub mod Sound
pub mod Uncrossed
pub mod History
pub mod Each
pub mod Orders
pub mod Front
pub mod Mirror
pub mod Same
pub mod Feed
pub mod Messages
pub mod Replacing
use pricetime.Common.{
  ℕ, ℤ, List, [], Bool, true, false, Option, none, some, ltb, ◌==◌, if◌then◌else◌, add_u64,
}
use pricetime.Types.{
  Side, bid, ask, opposite, Order, Execution, SelfTradePolicy, off, Result, ok, rejected_bad_id,
  rejected_bad_qty, rejected_duplicate_id, rejected_unknown_id, rejected_no_liquidity,
}
use pricetime.IdMap.{StdIdMap, find, insert, erase}
use pricetime.Level.{Level, find_in, remove, reduce}
use pricetime.LadderMap.{level_at, put_level, rest_in, settle}
use pricetime.Matching.{
  Counters, Handle, Aggressor, Flow, crosses, match_levels, available, count_canceled,
}

pub record Book : Type 0 where
  pub stp : SelfTradePolicy
  pub bids : List Level
  pub asks : List Level
  pub orders : StdIdMap Handle
  pub counters : Counters

abbrev pub zero_counters : Counters
zero_counters = record {
  added_qty = 0;
  traded_qty = 0;
  canceled_qty = 0;
  executed_qty = 0;
  self_trades_prevented = 0;
}

abbrev pub empty_book : Book
empty_book = record { stp = off; bids = []; asks = []; orders = []; counters = zero_counters }

abbrev pub set_self_trade_policy : Book → SelfTradePolicy → Book
set_self_trade_policy b p = record b { stp = p }

abbrev pub levels : Book → Side → List Level
levels b bid = b.bids
levels b ask = b.asks

abbrev pub with_levels : Book → Side → List Level → Book
with_levels b bid ls = record b { bids = ls }
with_levels b ask ls = record b { asks = ls }

abbrev pub Outcome : Type 0
Outcome = Book × Result × List Execution

abbrev pub rejected : Book → Result → Outcome
rejected b r = (b, r, [])

-- `if (const Result r = ...; r != Result::Ok) return r;` before the rest of an operation.
abbrev pub on_ok : {A : Type 0} → Result → A → (Result → A) → A
on_ok ok next reject = next
on_ok r next reject = reject r

-- `MapLadder::valid_price` is always true, so the price is never the reason.
unfoldable pub validate : Book → ℕ → ℕ → Result
validate b id qty =
    if id == 0
    then rejected_bad_id
    else if qty == 0
    then rejected_bad_qty
    else elim (find b.orders id) [ none ↦ ok | some _ ↦ rejected_duplicate_id ]

abbrev pub count_added : Book → ℕ → Book
count_added b q = record b {
  counters = record (b.counters) { added_qty = add_u64 b.counters.added_qty q };
}

abbrev pub cancel_count : ℕ → Book → Book
cancel_count q b = record b { counters = count_canceled q b.counters }

-- `rest`: the level is created if it is missing, the order joins its queue, and the id map.
unfoldable pub rest : Book → ℕ → Side → ℤ → ℕ → ℕ → Book
rest b id side price qty actor =
    let o : Order = record {
      id = id;
      price = price;
      qty = qty;
      side = side;
      participant = actor;
    } in
    let b' = with_levels b side (rest_in side price o (levels b side)) in
    record b' { orders = (insert b.orders id (record { side = side; price = price })).0 }

-- `match`: the book after it, what is left, and the executions.
unfoldable pub match_book : Book → ℕ → ℕ → Side → (ℤ → Bool) → ℕ → Book × ℕ × List Execution
match_book b id actor side cross qty =
    let a : Aggressor = record { id = id; actor = actor; policy = b.stp } in
    let start : Flow = record {
      left = qty;
      orders = b.orders;
      counters = b.counters;
      execs = [];
    } in
    let (ls, f) = match_levels a cross (levels b (opposite side)) start in
    let b' = with_levels b (opposite side) ls in
    (record b' { orders = f.orders; counters = f.counters }, f.left, f.execs)

-- The entry points once `validate` has passed.
unfoldable pub enter_limit : Book → ℕ → ℕ → Side → ℤ → ℕ → Outcome
enter_limit b actor id side price qty =
    let (b', left, execs) = match_book (count_added b qty) id actor side (crosses side price) qty in
    (if ltb 0 left then rest b' id side price left actor else b', ok, execs)

-- Good till canceled: `add_limit_as`, and with actor 0 `add_limit`.
unfoldable pub add_limit_as : Book → ℕ → ℕ → Side → ℤ → ℕ → Outcome
add_limit_as b actor id side price qty =
    let entered = enter_limit b actor id side price qty in
    on_ok (validate b id qty) entered (rejected b)

-- The rest of `add_ioc_as` and `add_market_as`: what is left after the match counts as canceled.
unfoldable pub sweep : Book → ℕ → ℕ → Side → (ℤ → Bool) → ℕ → Outcome
sweep b actor id side cross qty =
    let (b', left, execs) = match_book (count_added b qty) id actor side cross qty in
    (cancel_count left b', ok, execs)

unfoldable pub add_ioc_as : Book → ℕ → ℕ → Side → ℤ → ℕ → Outcome
add_ioc_as b actor id side price qty =
    let swept = sweep b actor id side (crosses side price) qty in
    on_ok (validate b id qty) swept (rejected b)

unfoldable pub add_market_as : Book → ℕ → ℕ → Side → ℕ → Outcome
add_market_as b actor id side qty =
    let swept = sweep b actor id side (λ _. true) qty in
    on_ok (validate b id qty) swept (rejected b)

-- Fill or kill: the pre-scan comes before any change.
unfoldable pub add_fok_as : Book → ℕ → ℕ → Side → ℤ → ℕ → Outcome
add_fok_as b actor id side price qty =
    let a : Aggressor = record { id = id; actor = actor; policy = b.stp } in
    let reach = available a (crosses side price) qty (levels b (opposite side)) 0 in
    let swept = sweep b actor id side (crosses side price) qty in
    on_ok (validate b id qty) (if ltb reach qty then rejected b rejected_no_liquidity else swept)
      (rejected b)

-- What the pointer from the id map leads to: the level and the order.
unfoldable pub deref : Book → ℕ → Handle → Option (Level × Order)
deref b id h = elim (level_at h.price (levels b h.side)) [
  | none ↦ none
  | some l ↦ elim (find_in id l.queue) [ none ↦ none | some o ↦ some (l, o) ]
]

-- `lvl->remove(o)`, `orders_.erase`, `pool_.release`, and `on_level_empty` if it was the last.
unfoldable pub unrest : Book → Level × Order → Book
unrest b (l, o) =
    let b' = with_levels b o.side (settle (remove l o) (levels b o.side)) in
    record b' { orders = erase b.orders o.id }

unfoldable pub cancel_open : Book → Level × Order → Book
unfolding unrest
cancel_open b (l, o) = unrest (cancel_count o.qty b) (l, o)

-- What is done with the order that a pointer leads to.
abbrev pub follow : {E A : Type 0} → Option E → (E → A) → Option A
follow none found = none
follow (some e) found = some (found e)

-- Dereferences the id map's pointer; an unknown id is an answer, a dangling pointer is not.
unfoldable pub lookup : {A : Type 0} → Book → ℕ → A → (Level × Order → A) → Option A
unfolding deref
lookup b id unknown found = elim (find b.orders id) [
  | none ↦ some unknown
  | some h ↦ follow (deref b id h) found
]

unfoldable pub cancel : Book → ℕ → Option Outcome
cancel b id = lookup b id (rejected b rejected_unknown_id) (λ e. (cancel_open b e, ok, []))

-- Validation of the replacement, its id apart, once the old order is found.
unfoldable pub validate_new : Book → ℕ → ℕ → ℕ → Result
validate_new b old_id new_id qty =
    if new_id == 0
    then rejected_bad_id
    else if qty == 0
    then rejected_bad_qty
    else if new_id == old_id
    then ok
    else elim (find b.orders new_id) [ none ↦ ok | some _ ↦ rejected_duplicate_id ]

unfoldable pub replace_open : Book → ℕ → ℕ → ℤ → ℕ → Level × Order → Outcome
replace_open b old_id new_id price qty (l, o) =
    let added = add_limit_as (cancel_open b (l, o)) o.participant new_id o.side price qty in
    on_ok (validate_new b old_id new_id qty) added (rejected b)

unfoldable pub replace : Book → ℕ → ℕ → ℤ → ℕ → Option Outcome
unfolding replace_open
replace b old_id new_id price qty =
    lookup b old_id (rejected b rejected_unknown_id) (replace_open b old_id new_id price qty)

-- Rests an order without matching, whatever its price.
unfoldable pub insert_passive : Book → ℕ → Side → ℤ → ℕ → Book × Result
insert_passive b id side price qty =
    let rested = rest (count_added b qty) id side price qty 0 in
    on_ok (validate b id qty) (rested, ok) (λ r. (b, r))

abbrev count_taken : Bool → ℕ → Book → Book
count_taken true q b = record b {
  counters = record (b.counters) { executed_qty = add_u64 b.counters.executed_qty q };
}
count_taken false q b = cancel_count q b

-- The shared body of `execute_resting` and `reduce_resting`, with the quantity taken.
unfoldable pub consume_open : Book → ℕ → Bool → Level × Order → Book × Result × ℕ
consume_open b qty is_execution (l, o) =
    let take = if ltb qty o.qty then qty else o.qty in
    let b' = count_taken is_execution take b in
    if qty == 0
    then (b, rejected_bad_qty, 0)
    else if take == o.qty
    then (unrest b' (l, o), ok, take)
    else (with_levels b' o.side (put_level l.price (reduce l o take) (levels b o.side)), ok, take)

unfoldable pub consume : Book → ℕ → ℕ → Bool → Option (Book × Result × ℕ)
unfolding consume_open
consume b id qty is_execution =
    lookup b id (b, rejected_unknown_id, 0) (consume_open b qty is_execution)

abbrev pub execute_resting : Book → ℕ → ℕ → Option (Book × Result × ℕ)
execute_resting b id qty = consume b id qty true

abbrev pub reduce_resting : Book → ℕ → ℕ → Option (Book × Result × ℕ)
reduce_resting b id qty = consume b id qty false

abbrev pub add_limit : Book → ℕ → Side → ℤ → ℕ → Outcome
add_limit b id side price qty = add_limit_as b 0 id side price qty

abbrev pub add_ioc : Book → ℕ → Side → ℤ → ℕ → Outcome
add_ioc b id side price qty = add_ioc_as b 0 id side price qty

abbrev pub add_fok : Book → ℕ → Side → ℤ → ℕ → Outcome
add_fok b id side price qty = add_fok_as b 0 id side price qty

abbrev pub add_market : Book → ℕ → Side → ℕ → Outcome
add_market b id side qty = add_market_as b 0 id side qty

-- `find_order`: the order that the id map leads to.
unfoldable pub find_order : Book → ℕ → Option (Option Order)
find_order b id = lookup b id none (λ e. some e.1)

-- `Op` of op.hpp, with the fields that each kind uses.
pub data Op : Type 0 where
  add_limit_op add_ioc_op add_fok_op : ℕ → Side → ℤ → ℕ → Op
  add_market_op : ℕ → Side → ℕ → Op
  cancel_op : ℕ → Op
  replace_op : ℕ → ℕ → ℤ → ℕ → Op

unfoldable pub apply : Book → Op → Option Outcome
apply b (add_limit_op id side price qty) = some (add_limit b id side price qty)
apply b (add_ioc_op id side price qty) = some (add_ioc b id side price qty)
apply b (add_fok_op id side price qty) = some (add_fok b id side price qty)
apply b (add_market_op id side qty) = some (add_market b id side qty)
apply b (cancel_op id) = cancel b id
apply b (replace_op id new_id price qty) = replace b id new_id price qty
