-- ===== src/Book/Feed.antt =====
-- What a second book makes of the messages that include/pricetime/engine.hpp publishes of the first, as
-- the handlers of include/pricetime/itch_replay.hpp do: matches.
use pricetime.Common.{
  ℕ, ◌+◌, ◌≡◌, refl, List, [], ◌∷◌, Bool, ltb, if◌then◌else◌, some, arith, ℤ, sum_by-append,
}
use pricetime.Types.{Side, bid, ask, opposite, Order, Execution}
use pricetime.IdMap.{StdIdMap}
use pricetime.Level.{Level}
use pricetime.Matching.{Handle, Flow, Aggressor, own, trade, match_level, match_levels}
use pricetime.Matching.Entries.{entries}
use pricetime.Matching.Fills.{filled}
use pricetime.Matching.Rule.{match_level_inv, match_levels_inv}
use pricetime.Book.{Book, levels, match_book}
use pricetime.Book.Invariant.{IsBook}
use pricetime.Book.Index.{IsIndexed, sided}
use pricetime.Book.Mirror.{execute_all, Hides, match_levels-MirrorsAll}

-- The executions of a match, one after another, on a second book with the same levels to match
-- against: the book that they leave.
pub record Mirrored (hide : StdIdMap Handle → StdIdMap Handle) (Q : StdIdMap Handle → Type 0)
    (m : Book) (side : Side) (r : Book × ℕ × List Execution) : Type 0 where
  pub book : Book
  pub runs : execute_all r.2 m ≡ some book
  pub near : levels book (opposite side) ≡ levels r.0 (opposite side)
  pub far : levels book side ≡ levels m side
  pub orders : hide book.orders ≡ r.0.orders
  pub kept : Q book.orders

module _ (hide : StdIdMap Handle → StdIdMap Handle) (Q : StdIdMap Handle → Type 0)
    (hides : Hides hide Q) where
  pub match_book-Mirrored :
      (m b : Book) (id : ℕ) (side : Side) (cross : ℤ → Bool) (qty due : ℕ)
      → IsBook due b
      → IsIndexed b
      → levels m (opposite side) ≡ levels b (opposite side)
      → hide m.orders ≡ b.orders
      → Q m.orders
      → Mirrored hide Q m side (match_book b id 0 side cross qty)
  unfolding match_book execute_all
  match_book-Mirrored m b id bid cross qty due v w same os q =
      let a : Aggressor = record { id = id; actor = 0; policy = b.stp } in
      let start : Flow = record {
        left = qty;
        orders = b.orders;
        counters = b.counters;
        execs = [];
      } in
      let k =
        match_levels-MirrorsAll hide Q hides m ask a (entries bid b.bids) refl cross b.asks start
          (record {
            active = v.asks.active;
            index = sided ask b w;
            mirror = record {
              book = m;
              runs = refl;
              near = same;
              far = refl;
              orders = os;
              kept = q;
            };
          }) in
      record {
        book = k.mirror.book;
        runs = k.mirror.runs;
        near = k.mirror.near;
        far = k.mirror.far;
        orders = k.mirror.orders;
        kept = k.mirror.kept;
      }
  match_book-Mirrored m b id ask cross qty due v w same os q =
      let a : Aggressor = record { id = id; actor = 0; policy = b.stp } in
      let start : Flow = record {
        left = qty;
        orders = b.orders;
        counters = b.counters;
        execs = [];
      } in
      let k =
        match_levels-MirrorsAll hide Q hides m bid a (entries ask b.asks) refl cross b.bids start
          (record {
            active = v.bids.active;
            index = w;
            mirror = record {
              book = m;
              runs = refl;
              near = same;
              far = refl;
              orders = os;
              kept = q;
            };
          }) in
      record {
        book = k.mirror.book;
        runs = k.mirror.runs;
        near = k.mirror.near;
        far = k.mirror.far;
        orders = k.mirror.orders;
        kept = k.mirror.kept;
      }

-- A match leaves its own side alone.
pub match_book-far :
    (b : Book) (id actor : ℕ) (side : Side) (cross : ℤ → Bool) (qty : ℕ)
    → levels (match_book b id actor side cross qty).0 side ≡ levels b side
unfolding match_book
match_book-far b id actor bid cross qty = refl
match_book-far b id actor ask cross qty = refl

-- Without a participant, what is filled and what is left are the whole quantity.
module _ (a : Aggressor) (nobody : a.actor ≡ 0) (w : ℕ) where
  IsWhole : Flow → Type 0
  IsWhole f = filled f.execs + f.left ≡ w

  trade-IsWhole :
      (o : Order) (rest : List Order) (l : Level) (f : Flow)
      → IsWhole f
      → IsWhole (trade a o rest l f).0.1
  unfolding trade IsWhole
  trade-IsWhole o rest l f k =
      let fill : ℕ = if ltb f.left o.qty then f.left else o.qty in
      let x : Execution = record {
        resting_id = o.id;
        aggressor_id = a.id;
        price = l.price;
        qty = fill;
      } in
      ground (arith, sum_by-append (λ (e : Execution). e.qty) f.execs (x ∷ []))

  match_level-IsWhole : (l : Level) (f : Flow) → IsWhole f → IsWhole (match_level a l.queue l f).1
  unfolding own
  match_level-IsWhole l f =
      match_level_inv (λ _ f'. IsWhole f') a
        (record {
          prevents = λ o rest l' f' e h k. absurd (ground (arith, h, nobody));
          trades = λ o rest l' f' e h z k. trade-IsWhole o rest l' f' k;
        })
        l.queue l f refl

  match_levels-IsWhole :
      (cross : ℤ → Bool) (ls : List Level) (f : Flow)
      → IsWhole f
      → IsWhole (match_levels a cross ls f).1
  match_levels-IsWhole cross =
      match_levels_inv (λ _ f. IsWhole f) a cross
        (record {
          empties = λ l ls f _ z k. match_level-IsWhole l f k;
          stays = λ l ls f _ z k. match_level-IsWhole l f k;
        })

pub match_book-filled :
    (b : Book) (id : ℕ) (side : Side) (cross : ℤ → Bool) (qty : ℕ)
    → let r = match_book b id 0 side cross qty in filled r.2 + r.1 ≡ qty
unfolding match_book IsWhole
match_book-filled b id side cross qty =
    match_levels-IsWhole (record { id = id; actor = 0; policy = b.stp }) refl qty cross
      (levels b (opposite side))
      (record { left = qty; orders = b.orders; counters = b.counters; execs = [] }) (omega arith)
