-- ===== src/Engine.antt =====
-- include/pricetime/engine.hpp: the intake of the receive thread and the whole handler of the match
-- thread. The queues to the send and market-data threads are lists, oldest first; the clock is an
-- argument. `none` is a dangling pointer, as in the book.
pub mod Answers
pub mod Service
pub mod Messages
pub mod Published
pub mod Feed
pub mod Removals
pub mod Replaces
pub mod Integrity
pub mod Rebuild
pub mod Batches
pub mod Drain
pub mod Datagrams
use pricetime.Common.{
  ℕ, zero, suc, ℤ, pos, List, [], ◌∷◌, ◌++◌, Bool, true, false, ◌&&◌, Option, none, some, ltb, ◌==◌,
  if◌then◌else◌, add_u64, add_u32, sub_u32, length, drop,
}
use pricetime.Types.{
  Side, bid, ask, Execution, Result, ok, rejected_bad_id, rejected_bad_qty, rejected_bad_price,
  rejected_duplicate_id, rejected_unknown_id, rejected_no_liquidity,
}
use pricetime.Symbol.{Symbol}
use pricetime.Book.{Book, Outcome, add_limit, cancel, reduce_resting, replace}
use pricetime.Wire.{Request, Response, Kind, decode_request}
use pricetime.Wire
use pricetime.Itch.Writer.{
  Writer, cleared, add_order, order_executed, order_cancel, order_delete, order_replace,
}

pub record Engine : Type 0 where
  pub book : Book
  pub match_number : ℕ
  pub responses : ℕ
  pub executions : ℕ
  pub q_out : List Response
  pub q_md : List (List ℕ)
  pub md_enabled : Bool
  pub symbol : Symbol

-- The result codes in the order of the enumeration.
abbrev pub code_of : Result → ℕ
code_of ok = 0
code_of rejected_bad_id = 1
code_of rejected_bad_qty = 2
code_of rejected_bad_price = 3
code_of rejected_duplicate_id = 4
code_of rejected_unknown_id = 5
code_of rejected_no_liquidity = 6

abbrev pub is_ok : Result → Bool
is_ok ok = true
is_ok _ = false

-- Every test of a side in the book is `== Side::Bid`.
abbrev pub side_of_byte : ℕ → Side
side_of_byte s = if s == 0 then bid else ask

abbrev pub accepted : Kind
accepted = b'A'

abbrev pub refused : Kind
refused = b'J'

abbrev pub executed : Kind
executed = b'F'

abbrev pub canceled : Kind
canceled = b'C'

abbrev pub reduced : Kind
reduced = b'R'

abbrev pub push_response : Engine → Response → Engine
push_response e r = record e { responses = add_u64 e.responses 1; q_out = e.q_out ++ r ∷ [] }

unfoldable pub respond : Engine → Kind → Result → Request → ℕ → ℕ → ℤ → Engine
respond e kind code req id qty price = push_response e (record {
  kind = kind;
  code = code_of code;
  qty = qty;
  price = price;
  id = id;
  peer = 0;
  client_ts = req.client_ts;
})

-- A message of at most 64 bytes goes to the market-data thread, if there is one.
unfoldable pub md_push : Engine → Writer → Engine
md_push e w =
    if e.md_enabled && not_longer w.buf then record e { q_md = e.q_md ++ w.buf ∷ [] } else e
  where
    not_longer : List ℕ → Bool
    not_longer b = ltb (length b) 65

-- The answers to one fill, one for each side, and its execution message.
unfoldable pub report_fill : Engine → ℕ → Request → Execution → Engine
report_fill e0 ts req x =
    let e = record e0 { executions = add_u64 e0.executions 1 } in
    let fill : Response = record {
      kind = executed;
      code = 0;
      qty = x.qty;
      price = x.price;
      id = x.aggressor_id;
      peer = x.resting_id;
      client_ts = req.client_ts;
    } in
    let e1 = push_response e fill in
    let e2 = push_response e1 (record fill { id = x.resting_id; peer = x.aggressor_id }) in
    let n = add_u64 e2.match_number 1 in
    md_push (record e2 { match_number = n }) (order_executed cleared ts x.resting_id x.qty n)

unfoldable pub report_fills : Engine → ℕ → Request → List Execution → Engine
unfolding report_fill
report_fills e ts req [] = e
report_fills e ts req (x ∷ xs) = report_fills (report_fill e ts req x) ts req xs

abbrev pub filled_qty : ℕ → List Execution → ℕ
filled_qty acc [] = acc
filled_qty acc (x ∷ xs) = filled_qty (add_u32 acc x.qty) xs

abbrev pub answer_kind : Kind → Result → Kind
answer_kind kind r = if is_ok r then kind else refused

-- Enter: the answer, the fills, and the displayed remainder.
unfoldable pub handle_enter : Engine → ℕ → Request → Outcome → Engine
unfolding respond report_fills
handle_enter e0 ts req (b, r, execs) =
    let e1 =
      respond (record e0 { book = b }) (answer_kind accepted r) r req req.id req.qty req.price in
    let e2 = report_fills e1 ts req execs in
    let remainder = sub_u32 req.qty (filled_qty 0 execs) in
    if is_ok r && ltb 0 remainder
    then md_push e2
        (add_order cleared ts req.id (side_of_byte req.side) remainder e2.symbol req.price)
    else e2

unfoldable pub handle_cancel : Engine → ℕ → Request → Outcome → Engine
unfolding respond
handle_cancel e0 ts req (b, r, execs) =
    let e1 = respond (record e0 { book = b }) (answer_kind canceled r) r req req.id 0 (pos 0) in
    if is_ok r then md_push e1 (order_delete cleared ts req.id) else e1

unfoldable pub handle_reduce : Engine → ℕ → Request → Book × Result × ℕ → Engine
unfolding respond
handle_reduce e0 ts req (b, r, removed) =
    let e1 =
      respond (record e0 { book = b }) (answer_kind reduced r) r req req.id removed (pos 0) in
    if is_ok r && ltb 0 removed then md_push e1 (order_cancel cleared ts req.id removed) else e1

-- Replace: a replacement that is filled on arrival leaves only the removal of the old order.
unfoldable pub handle_replace : Engine → ℕ → Request → Outcome → Engine
unfolding respond report_fills
handle_replace e0 ts req (b, r, execs) =
    let e1 =
      respond (record e0 { book = b }) (answer_kind accepted r) r req req.new_id req.qty
        req.price in
    let e2 = report_fills e1 ts req execs in
    let remainder = sub_u32 req.qty (filled_qty 0 execs) in
    if is_ok r
    then (if ltb 0 remainder
        then md_push e2 (order_replace cleared ts req.id req.new_id remainder req.price)
        else md_push e2 (order_delete cleared ts req.id))
    else e2

abbrev pub map_some : {A : Type 0} → Option A → (A → Engine) → Option Engine
map_some none f = none
map_some (some a) f = some (f a)

-- `handle`: a request of no known kind passes through the switch and is not answered.
unfoldable pub handle : Engine → ℕ → Request → Option Engine
handle e ts req =
    let b = e.book in
    if req.kind == Wire.enter
    then some (handle_enter e ts req (add_limit b req.id (side_of_byte req.side) req.price req.qty))
    else if req.kind == Wire.cancel
    then map_some (cancel b req.id) (handle_cancel e ts req)
    else if req.kind == Wire.reduce
    then map_some (reduce_resting b req.id req.qty) (handle_reduce e ts req)
    else if req.kind == Wire.replace
    then map_some (replace b req.id req.new_id req.price req.qty) (handle_replace e ts req)
    else some e

-- The inner loop of the receive thread: the requests of the complete messages in its buffer, the
-- bytes that stay, and whether the stream is still aligned. The fuel is the number of bytes.
unfoldable pub take_requests : ℕ → List ℕ → List Request × List ℕ × Bool
take_requests zero buf = ([], buf, true)
take_requests (suc fuel) buf =
    let (reqs, rest, alive) = take_requests fuel (drop 40 buf) in
    if ltb (length buf) 40
    then ([], buf, true)
    else elim (decode_request buf) [ none ↦ ([], buf, false) | some r ↦ (r ∷ reqs, rest, alive) ]
