-- ===== src/Matching.antt =====
-- The matching loop of include/pricetime/book.hpp: `match`, `available` and the counters.
-- An aggressor walks the levels of the opposite side, best first.
pub mod Each
pub mod Rule
pub mod Fills
pub mod Scan
pub mod Reach
pub mod Prices
pub mod Frame
pub mod Entries
pub mod Index
use pricetime.Common.{
  ℕ, ◌+◌, ◌-◌, min, ℤ, List, [], ◌∷◌, ◌++◌, Bool, true, false, not, ◌&&◌, ◌||◌, ltb, ◌==◌,
  if◌then◌else◌, leb_ℤ, add_u64,
}
use pricetime.Types.{
  Side, bid, ask, Order, Execution, SelfTradePolicy, off, cancel_resting, cancel_aggressor,
  cancel_both,
}
use pricetime.IdMap.{StdIdMap, erase}
use pricetime.Level.{Level, without, reduced}

pub record Counters : Type 0 where
  pub added_qty : ℕ
  pub traded_qty : ℕ
  pub canceled_qty : ℕ
  pub executed_qty : ℕ
  pub self_trades_prevented : ℕ

-- What an `Order*` in the id map leads to: the order's level.
pub record Handle : Type 0 where
  pub side : Side
  pub price : ℤ

pub record Aggressor : Type 0 where
  pub id : ℕ
  pub actor : ℕ
  pub policy : SelfTradePolicy

-- What the loop carries besides the levels.
pub record Flow : Type 0 where
  pub left : ℕ
  pub orders : StdIdMap Handle
  pub counters : Counters
  pub execs : List Execution

abbrev pub is_off : SelfTradePolicy → Bool
is_off off = true
is_off _ = false

-- `stp_ != CancelAggressor`
abbrev pub kills_resting : SelfTradePolicy → Bool
kills_resting cancel_aggressor = false
kills_resting _ = true

-- `stp_ != CancelResting`
abbrev pub kills_aggressor : SelfTradePolicy → Bool
kills_aggressor cancel_resting = false
kills_aggressor _ = true

-- `stop_at_own` of the pre-scan.
abbrev pub stops_at_own : SelfTradePolicy → Bool
stops_at_own cancel_aggressor = true
stops_at_own cancel_both = true
stops_at_own _ = false

abbrev pub stp_on : Aggressor → Bool
stp_on a = not (a.actor == 0) && not (is_off a.policy)

-- The test for a self trade.
unfoldable pub own : Aggressor → Order → Bool
own a o = stp_on a && o.participant == a.actor

abbrev count_prevented : Flow → Flow
count_prevented f = record f {
  counters = record (f.counters) {
    self_trades_prevented = add_u64 f.counters.self_trades_prevented 1;
  };
}

abbrev pub count_canceled : ℕ → Counters → Counters
count_canceled q c = record c { canceled_qty = add_u64 c.canceled_qty q }

-- The resting order leaves the level and the id map, and counts as canceled.
abbrev drop_resting : Order → List Order → Level × Flow → Level × Flow
drop_resting o rest (l, f) = (
  without l o.qty rest,
  record f { orders = erase f.orders o.id; counters = count_canceled o.qty f.counters },
)

abbrev kill_aggressor : Flow → Flow
kill_aggressor f = record f { left = 0; counters = count_canceled f.left f.counters }

-- A resting order of the same participant. The flag says whether the loop goes on.
unfoldable pub prevent : Aggressor → Order → List Order → Level → Flow → (Level × Flow) × Bool
prevent a o rest l f =
    let (l', f') =
      if kills_resting a.policy
      then drop_resting o rest (l, count_prevented f)
      else (l, count_prevented f) in
    if kills_aggressor a.policy then ((l', kill_aggressor f'), false) else ((l', f'), true)

-- A fill at the level's price. An order that is not exhausted has exhausted the aggressor.
unfoldable pub trade : Aggressor → Order → List Order → Level → Flow → (Level × Flow) × Bool
trade a o rest l f =
    let fill = if ltb f.left o.qty then f.left else o.qty in
    let f' : Flow = record f {
      left = f.left - fill;
      counters = record (f.counters) { traded_qty = add_u64 f.counters.traded_qty fill };
      execs =
          f.execs
          ++ record { resting_id = o.id; aggressor_id = a.id; price = l.price; qty = fill } ∷ [];
    } in
    if o.qty - fill == 0
    then ((without (reduced l fill rest) 0 rest, record f' { orders = erase f.orders o.id }), true)
    else ((reduced l fill (record o { qty = o.qty - fill } ∷ rest), f'), false)

-- The inner loop: the orders of one level, oldest first.
unfoldable pub match_level : Aggressor → List Order → Level → Flow → Level × Flow
match_level a [] l f = (l, f)
match_level a (o ∷ rest) l f =
    let ((l', f'), go) = if own a o then prevent a o rest l f else trade a o rest l f in
    if f.left == 0 then (l, f) else if go then match_level a rest l' f' else (l', f')

-- The outer loop. The best level is the head of the list, and when it has emptied
-- `on_level_empty` erases its key.
unfoldable pub match_levels : Aggressor → (ℤ → Bool) → List Level → Flow → List Level × Flow
match_levels a crosses [] f = ([], f)
match_levels a crosses (l ∷ ls) f =
    let (l', f') = match_level a l.queue l f in
    let deeper = match_levels a crosses ls f' in
    if f.left == 0 || not (crosses l.price)
    then (l ∷ ls, f)
    else if l'.order_count == 0
    then deeper
    else (l' ∷ ls, f')

-- The limit of an aggressor on a side against the price of a level.
abbrev pub crosses : Side → ℤ → ℤ → Bool
crosses bid limit p = leb_ℤ p limit
crosses ask limit p = leb_ℤ limit p

-- The pre-scan of one level with prevention on: the total, and whether the walk goes on.
unfoldable pub scan_queue : Aggressor → ℕ → List Order → ℕ → ℕ × Bool
scan_queue a need [] total = (total, true)
scan_queue a need (o ∷ os) total =
    let here = add_u64 total o.qty in
    let skipped = scan_queue a need os total in
    let further = scan_queue a need os here in
    if o.participant == a.actor
    then if stops_at_own a.policy then (total, false) else skipped
    else if ltb here need
    then further
    else (here, false)

unfoldable pub scan_level : Aggressor → ℕ → Level → ℕ → ℕ × Bool
scan_level a need l total =
    if stp_on a
    then scan_queue a need l.queue total
    else (add_u64 total l.total_qty, ltb (add_u64 total l.total_qty) need)

-- `available`: what the order could reach, counted until `need` is met.
unfoldable pub available : Aggressor → (ℤ → Bool) → ℕ → List Level → ℕ → ℕ
available a crosses need [] total = total
available a crosses need (l ∷ ls) total =
    let (total', go) = scan_level a need l total in
    let further = available a crosses need ls total' in
    if not (crosses l.price) then total else if go then further else total'
