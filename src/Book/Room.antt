-- ===== src/Book/Room.antt =====
-- How many orders rest after an operation of include/pricetime/book.hpp.
use pricetime.Common.{
  ℕ, ◌+◌, ◌≤◌, ◌<◌, ◌≡◌, ◌≢◌, refl, Bool, true, false, inl, inr, Bool-cases, ltb, arith, ℤ, length,
  some,
}
use pricetime.Types.{Side, bid, ask, Order}
use pricetime.Level.{Level, remove, reduce}
use pricetime.Level.Tally.{IsLevel, remove-IsLevel, reduce-IsLevel, find_in-length}
use pricetime.LadderMap.{level_at, settle, put_level}
use pricetime.LadderMap.Sides.{IsSide, settle-IsSide, rest_in-orders}
use pricetime.Matching.{crosses}
use pricetime.Book.{
  Book, levels, with_levels, count_added, count_taken, rest, match_book, sweep, enter_limit, unrest,
}
use pricetime.Book.Invariant.{IsBook, resting, match_book-Matched, count_added-IsBook}
use pricetime.Book.Removal.{IsResting, remove-price, reduce-price, reduce-settle}

-- Writing back a level changes the number by that of the level.
settled-resting :
    (b : Book) (s : Side) (l l' : Level)
    → level_at l'.price (levels b s) ≡ some l
    → IsLevel s l'
    → IsSide s (levels b s)
    → resting (with_levels b s (settle l' (levels b s))) + length l.queue
      ≡ resting b + length l'.queue
settled-resting b bid l l' found sound v =
    omega (arith, (settle-IsSide bid l' l b.bids found sound v).2)
settled-resting b ask l l' found sound v =
    omega (arith, (settle-IsSide ask l' l b.asks found sound v).2)

pub unrest-resting :
    (b : Book) (l : Level) (o : Order)
    → IsResting b (l, o)
    → IsSide o.side (levels b o.side)
    → resting (unrest b (l, o)) + 1 ≡ resting b
unfolding unrest
unrest-resting b l o r v =
    let (sound, sum, len) = remove-IsLevel l o r.order r.sound in
    omega (arith, len, settled-resting b o.side l (remove l o) (rw remove-price r.level) sound v)

pub count_taken-resting : (x : Bool) (q : ℕ) (b : Book) → resting (count_taken x q b) ≡ resting b
count_taken-resting true q b = refl
count_taken-resting false q b = refl

pub reduce-resting :
    (b : Book) (l : Level) (o : Order) (d : ℕ)
    → IsResting b (l, o)
    → d < o.qty
    → IsSide o.side (levels b o.side)
    → resting (with_levels b o.side (put_level l.price (reduce l o d) (levels b o.side)))
      ≡ resting b
reduce-resting b l o d r less v =
    let (sound, sum, len) = reduce-IsLevel l o d r.order less r.sound in
    let some_orders : l.order_count ≢ 0 =
      omega (arith, r.sound.counted, find_in-length o.id l.queue o r.order) in
    rw (reduce-settle l o d (levels b o.side) some_orders) (
      omega
        (arith, len, settled-resting b o.side l (reduce l o d) (rw reduce-price r.level) sound v))

pub rest-resting :
    (b : Book) (id : ℕ) (side : Side) (price : ℤ) (qty actor : ℕ)
    → resting (rest b id side price qty actor) ≡ resting b + 1
unfolding rest
rest-resting b id bid price qty actor = omega (
  arith,
  rest_in-orders bid (record { id = id; price = price; qty = qty; side = bid; participant = actor })
      price b.bids,
)
rest-resting b id ask price qty actor = omega (
  arith,
  rest_in-orders ask (record { id = id; price = price; qty = qty; side = ask; participant = actor })
      price b.asks,
)

-- An operation adds at most one order.
module _ (b : Book) (actor id : ℕ) (side : Side) (qty : ℕ) (v : IsBook 0 b) where
  pub sweep-resting : (cross : ℤ → Bool) → resting (sweep b actor id side cross qty).0 ≤ resting b
  unfolding sweep
  sweep-resting cross =
      (match_book-Matched (count_added b qty) id actor side cross qty
        (count_added-IsBook b qty v)).room

  pub enter_limit-resting :
      (price : ℤ) → resting (enter_limit b actor id side price qty).0 ≤ resting b + 1
  unfolding enter_limit
  enter_limit-resting price =
      let r = match_book (count_added b qty) id actor side (crosses side price) qty in
      let m =
        match_book-Matched (count_added b qty) id actor side (crosses side price) qty
          (count_added-IsBook b qty v) in
      elim (Bool-cases (ltb 0 r.1)) [
        | inl more ↦ rw more (omega (arith, m.room, rest-resting r.0 id side price r.1 actor))
        | inr done ↦ rw done (omega (arith, m.room))
      ]
