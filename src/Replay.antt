-- ===== src/Replay.antt =====
-- include/pricetime/itch_replay.hpp: a MultiBook driven by decoded messages. The observer's calls are
-- a list of events. `none` is a dangling pointer, as in the book.
pub mod Books
pub mod Total
pub mod Follow
pub mod Removals
pub mod Mirror
use pricetime.Common.{
  ℕ, ℤ, List, [], ◌∷◌, ◌++◌, Bool, true, false, ◌||◌, Option, none, some, ltb, ◌==◌, if◌then◌else◌,
  add_u64, get_or, length,
}
use pricetime.Types.{Side, Result, Order}
use pricetime.Symbol.{Symbol, bits}
use pricetime.IdMap.{find}
use pricetime.Book.{
  Book, insert_passive, execute_resting, reduce_resting, cancel, find_order, on_ok,
}
use pricetime.MultiBook.{MultiBook, with_book, put_book, book_for_order, note_order, forget_order}
use pricetime.Itch.{
  AddOrder, OrderExecuted, OrderCancel, OrderDelete, OrderReplace, decode_add_order,
  decode_order_executed, decode_order_cancel, decode_order_delete, decode_order_replace,
  decode_system_event, be48,
}

pub record ReplayStats : Type 0 where
  pub messages : ℕ
  pub bytes : ℕ
  pub adds : ℕ
  pub executions : ℕ
  pub cancels : ℕ
  pub deletes : ℕ
  pub replaces : ℕ
  pub trades : ℕ
  pub skipped_symbol : ℕ
  pub unknown_reference : ℕ
  pub clamped : ℕ
  pub shares_added : ℕ
  pub shares_executed : ℕ
  pub last_timestamp : ℕ
  pub session_state : ℕ

pub data Event : Type 0 where
  on_added : ℕ → Symbol → Side → ℤ → ℕ → ℕ → Event
  on_replaced : ℕ → ℕ → ℤ → ℕ → ℕ → Event
  on_reduced : ℕ → ℕ → Bool → ℕ → Event
  on_removed : ℕ → ℕ → Event

pub record Replayer : Type 0 where
  pub books : MultiBook
  pub filter : List ℕ
  pub stats : ReplayStats
  pub events : List Event

abbrev pub is_member : ℕ → List ℕ → Bool
is_member x [] = false
is_member x (y ∷ ys) = x == y || is_member x ys

abbrev pub is_empty : List ℕ → Bool
is_empty [] = true
is_empty (x ∷ xs) = false

abbrev pub tracked : Replayer → Symbol → Bool
tracked r s = is_empty r.filter || is_member (bits s) r.filter

abbrev pub stamp : Replayer → ℕ → Replayer
stamp r ts = record r { stats = record (r.stats) { last_timestamp = ts } }

abbrev pub observe : Replayer → Event → Replayer
observe r e = record r { events = r.events ++ e ∷ [] }

abbrev pub count_unknown : Replayer → Replayer
count_unknown r = record r {
  stats = record (r.stats) { unknown_reference = add_u64 r.stats.unknown_reference 1 };
}

abbrev pub added : Replayer → AddOrder → MultiBook → ℕ → Book → Replayer
added r m books s b =
    observe
      (record r {
        books = note_order (put_book books s b) m.reference s;
        stats = record (r.stats) {
          adds = add_u64 r.stats.adds 1;
          shares_added = add_u64 r.stats.shares_added m.shares;
        };
      })
      (on_added m.reference m.symbol m.side m.price m.shares m.timestamp)

unfoldable pub on_add : Replayer → AddOrder → Option Replayer
on_add r0 m =
    let r = stamp r0 m.timestamp in
    let s = bits m.symbol in
    let books = with_book r.books s in
    if tracked r m.symbol
    then elim (find books.books s) [
      | none ↦ none
      | some b ↦
          let (b', result) = insert_passive b m.reference m.side m.price m.shares in
          some (on_ok result (added r m books s b') (λ _. record r { books = books }))
    ]
    else some (record r {
      stats = record (r.stats) { skipped_symbol = add_u64 r.stats.skipped_symbol 1 };
    })

-- The order has left its book: the index forgets it.
abbrev forget_if_gone : ℕ → ℕ → Option (Option Order) → Replayer → Option Replayer
forget_if_gone id ts none r = none
forget_if_gone id ts (some (some o)) r = some r
forget_if_gone id ts (some none) r =
    some (observe (record r { books = forget_order r.books id }) (on_removed id ts))

abbrev count_taken : Bool → ℕ → ℕ → ReplayStats → ReplayStats
count_taken true asked taken st = record st {
  clamped = if ltb taken asked then add_u64 st.clamped 1 else st.clamped;
  executions = add_u64 st.executions 1;
  shares_executed = add_u64 st.shares_executed taken;
}
count_taken false asked taken st = record st {
  clamped = if ltb taken asked then add_u64 st.clamped 1 else st.clamped;
  cancels = add_u64 st.cancels 1;
}

-- What `on_executed` and `on_cancel` do once the book has answered.
unfoldable pub after_taken : Replayer → ℕ → ℕ → ℕ → ℕ → Bool → Book × Result × ℕ → Option Replayer
after_taken r s id asked ts is_execution (b, result, taken) =
    let r' = record r {
      books = put_book r.books s b;
      stats = count_taken is_execution asked taken r.stats;
    } in
    forget_if_gone id ts (find_order b id) (observe r' (on_reduced id taken is_execution ts))

-- The owner of an order and its book; an unknown reference is counted.
abbrev routed : Replayer → ℕ → (ℕ → Book → Option Replayer) → Option Replayer
routed r id next = elim (book_for_order r.books id) [
  | none ↦ some (count_unknown r)
  | some s ↦ elim (find r.books.books s) [ none ↦ none | some b ↦ next s b ]
]

unfoldable pub on_executed : Replayer → OrderExecuted → Option Replayer
unfolding after_taken
on_executed r0 m =
    let r = stamp r0 m.timestamp in
    routed r m.reference (λ s b. elim (execute_resting b m.reference m.shares) [
      | none ↦ none
      | some answer ↦ after_taken r s m.reference m.shares m.timestamp true answer
    ])

unfoldable pub on_cancel : Replayer → OrderCancel → Option Replayer
unfolding after_taken
on_cancel r0 m =
    let r = stamp r0 m.timestamp in
    routed r m.reference (λ s b. elim (reduce_resting b m.reference m.shares) [
      | none ↦ none
      | some answer ↦ after_taken r s m.reference m.shares m.timestamp false answer
    ])

unfoldable pub on_delete : Replayer → OrderDelete → Option Replayer
on_delete r0 m =
    let r = stamp r0 m.timestamp in
    routed r m.reference (λ s b. elim (cancel b m.reference) [
      | none ↦ none
      | some (b', _, _) ↦
          some
            (record (observe (record r { books = forget_order (put_book r.books s b') m.reference })
              (on_removed m.reference m.timestamp)) {
                stats = record (r.stats) { deletes = add_u64 r.stats.deletes 1 };
              })
    ])

-- The replacement rests in the original's book, at the original's side.
unfoldable pub replace_in : Replayer → OrderReplace → ℕ → Order → Book → Replayer
replace_in r m s original b =
    let books = forget_order (put_book r.books s b) m.original_reference in
    let (b', result) = insert_passive b m.new_reference original.side m.price m.shares in
    let counted = record (r.stats) { replaces = add_u64 r.stats.replaces 1 } in
    on_ok result
      (observe
        (record r {
          books = note_order (put_book books s b') m.new_reference s;
          stats = record counted { shares_added = add_u64 counted.shares_added m.shares };
        })
        (on_replaced m.original_reference m.new_reference m.price m.shares m.timestamp))
      (λ _. record r { books = books; stats = counted })

unfoldable pub on_replace : Replayer → OrderReplace → Option Replayer
unfolding replace_in
on_replace r0 m =
    let r = stamp r0 m.timestamp in
    routed r m.original_reference (λ s b. elim (find_order b m.original_reference) [
      | none ↦ none
      | some none ↦ some (count_unknown r)
      | some (some original) ↦ elim (cancel b m.original_reference) [
        | none ↦ none
        | some (b', _, _) ↦ some (replace_in r m s original b')
      ]
    ])

-- `apply`: one complete message.
unfoldable pub apply : Replayer → List ℕ → ℕ → Option Replayer
apply r0 msg len =
    let r = record r0 {
      stats = record (r0.stats) {
        messages = add_u64 r0.stats.messages 1;
        bytes = add_u64 r0.stats.bytes len;
      };
    } in
    let type = get_or msg 0 0 in
    if type == b'A' || type == b'F'
    then on_add r (decode_add_order msg)
    else if type == b'E' || type == b'C'
    then on_executed r (decode_order_executed msg)
    else if type == b'X'
    then on_cancel r (decode_order_cancel msg)
    else if type == b'D'
    then on_delete r (decode_order_delete msg)
    else if type == b'U'
    then on_replace r (decode_order_replace msg)
    else if type == b'P'
    then some (record r {
      stats = record (r.stats) { trades = add_u64 r.stats.trades 1; last_timestamp = be48 msg 5 };
    })
    else if type == b'S'
    then (let ev = decode_system_event msg in
        some (record r {
          stats = record (r.stats) { session_state = ev.event; last_timestamp = ev.timestamp };
        }))
    else some r

abbrev pub then_apply : Option Replayer → (Replayer → Option Replayer) → Option Replayer
then_apply none next = none
then_apply (some r) next = next r

-- A sequence of messages, each with its length.
unfoldable pub replay : List (List ℕ) → Replayer → Option Replayer
replay [] r = some r
replay (msg ∷ msgs) r = then_apply (apply r msg (length msg)) (replay msgs)
