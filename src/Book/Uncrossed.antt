-- ===== src/Book/Uncrossed.antt =====
-- The two sides of the book of include/pricetime/book.hpp stay apart.
use pricetime.Common.{
  ℕ, ◌<◌, ◌≡◌, ◌≢◌, sym, subst, List, [], ◌∷◌, Bool, true, false, inl, inr, Bool-cases, ltb, ◌==◌,
  arith, ℤ, if◌then◌else◌, All, All-map,
}
use pricetime.Types.{Side, bid, ask, opposite, Order}
use pricetime.Level.{Level, remove, reduce}
use pricetime.Level.Tally.{find_in-length}
use pricetime.LadderMap.{better, settle, rest_in}
use pricetime.LadderMap.Sides.{IsSorted, rest_in-prices, settle-prices}
use pricetime.Matching.{Aggressor, Flow, crosses, match_levels}
use pricetime.Matching.Rule.{match_levels_inv}
use pricetime.Matching.Frame.{match_level-price}
use pricetime.Matching.Prices.{Blocked, match_levels-Blocked}
use pricetime.Book.{
  Book, levels, with_levels, count_added, rest, match_book, sweep, enter_limit, unrest,
  consume_open, count_taken,
}
use pricetime.Book.Removal.{IsResting, reduce-settle, levels_counted}
use pricetime.Book.Invariant.{IsBook, match_book-Matched, count_added-IsBook}

-- No price of `near` would cross one of `far`.
abbrev pub Apart : Side → List Level → List Level → Type 0
Apart s near far = All (λ l. All (λ m. crosses s l.price m.price ≡ false) far) near

-- The highest bid is below the lowest ask.
abbrev pub IsUncrossed : Book → Type 0
IsUncrossed b = Apart bid b.bids b.asks

crosses-opposite : (s : Side) (p q : ℤ) → crosses s p q ≡ false → crosses (opposite s) q p ≡ false
crosses-opposite bid p q h = ground arith
crosses-opposite ask p q h = ground arith

-- A worse price is crossed by no limit that a better one is not crossed by.
crosses_worse :
    (s : Side) (limit p q : ℤ)
    → better (opposite s) p q ≡ true
    → crosses s limit p ≡ false
    → crosses s limit q ≡ false
crosses_worse bid limit p q h k = ground arith
crosses_worse ask limit p q h k = ground arith

All_of :
    {A B : Type 0} (P : A → B → Type 0) (xs : List A) (ys : List B)
    → All (λ x. All (λ y. P x y) ys) xs
    → All (λ y. All (λ x. P x y) xs) ys
All_of P xs [] h = tt
All_of P xs (y ∷ ys) h = (All-map xs (λ x k. k.0) h, All_of P xs ys (All-map xs (λ x k. k.1) h))

Apart-swap : (s : Side) (near far : List Level) → Apart s near far → Apart (opposite s) far near
Apart-swap s near far h =
    All_of (λ (l m : Level). crosses (opposite s) m.price l.price ≡ false) near far
      (All-map near (λ l k. All-map far (λ m e. crosses-opposite s l.price m.price e) k) h)

-- A match only removes levels.
match_levels-prices :
    (Q : ℤ → Type 0) (a : Aggressor) (cross : ℤ → Bool) (ls : List Level) (f : Flow)
    → All (λ l. Q l.price) ls
    → All (λ l. Q l.price) (match_levels a cross ls f).0
match_levels-prices Q a cross ls f =
    match_levels_inv (λ ms g. All (λ l. Q l.price) ms) a cross
      (record {
        empties = λ l ms g _ _ h. h.1;
        stays = λ l ms g _ _ h. (subst Q (sym (match_level-price a l g)) h.0, h.1);
      })
      ls f

-- Where the best level is out of reach, all are.
all_Blocked :
    (s : Side) (limit : ℤ) (ls : List Level)
    → IsSorted (opposite s) ls
    → Blocked (crosses s limit) ls
    → All (λ m. crosses s limit m.price ≡ false) ls
all_Blocked s limit [] v h = tt
all_Blocked s limit (l ∷ ls) v h =
    (h, All-map ls (λ m e. crosses_worse s limit l.price m.price e h) v.0)

-- A side whose prices all stood there before.
kept :
    (b : Book) (s : Side) (near : List Level)
    → ((Q : ℤ → Type 0) → All (λ l. Q l.price) (levels b s) → All (λ l. Q l.price) near)
    → IsUncrossed b
    → IsUncrossed (with_levels b s near)
kept b bid near f v = f (λ p. All (λ m. crosses bid p m.price ≡ false) b.asks) v
kept b ask near f v =
    Apart-swap ask near b.bids
      (f (λ p. All (λ m. crosses ask p m.price ≡ false) b.bids) (Apart-swap bid b.bids b.asks v))

settle-IsUncrossed :
    (b : Book) (s : Side) (l : Level)
    → IsUncrossed b
    → IsUncrossed (with_levels b s (settle l (levels b s)))
settle-IsUncrossed b s l =
    kept b s (settle l (levels b s)) (λ Q h. settle-prices s l Q (levels b s) h)

match_book-IsUncrossed :
    (b : Book) (id actor : ℕ) (side : Side) (cross : ℤ → Bool) (qty : ℕ)
    → IsUncrossed b
    → IsUncrossed (match_book b id actor side cross qty).0
unfolding match_book
match_book-IsUncrossed b id actor bid cross qty v =
    let a : Aggressor = record { id = id; actor = actor; policy = b.stp } in
    let f : Flow = record { left = qty; orders = b.orders; counters = b.counters; execs = [] } in
    kept b ask (match_levels a cross b.asks f).0 (λ Q h. match_levels-prices Q a cross b.asks f h) v
match_book-IsUncrossed b id actor ask cross qty v =
    let a : Aggressor = record { id = id; actor = actor; policy = b.stp } in
    let f : Flow = record { left = qty; orders = b.orders; counters = b.counters; execs = [] } in
    kept b bid (match_levels a cross b.bids f).0 (λ Q h. match_levels-prices Q a cross b.bids f h) v

-- What is left over meets no one on the other side.
match_book-Blocked :
    (b : Book) (id actor : ℕ) (side : Side) (cross : ℤ → Bool) (qty due : ℕ)
    → IsBook due b
    → 0 < (match_book b id actor side cross qty).1
    → Blocked cross (levels (match_book b id actor side cross qty).0 (opposite side))
unfolding match_book
match_book-Blocked b id actor bid cross qty due v h =
    match_levels-Blocked ask (record { id = id; actor = actor; policy = b.stp }) cross b.asks
      (record { left = qty; orders = b.orders; counters = b.counters; execs = [] }) v.asks.active h
match_book-Blocked b id actor ask cross qty due v h =
    match_levels-Blocked bid (record { id = id; actor = actor; policy = b.stp }) cross b.bids
      (record { left = qty; orders = b.orders; counters = b.counters; execs = [] }) v.bids.active h

rest-IsUncrossed :
    (b : Book) (id : ℕ) (side : Side) (price : ℤ) (qty actor : ℕ)
    → All (λ m. crosses side price m.price ≡ false) (levels b (opposite side))
    → IsUncrossed b
    → IsUncrossed (rest b id side price qty actor)
unfolding rest
rest-IsUncrossed b id bid price qty actor h v =
    rest_in-prices bid
      (record { id = id; price = price; qty = qty; side = bid; participant = actor })
      (λ p. All (λ m. crosses bid p m.price ≡ false) b.asks) price b.bids h v
rest-IsUncrossed b id ask price qty actor h v =
    let o : Order = record { id = id; price = price; qty = qty; side = ask; participant = actor } in
    Apart-swap ask (rest_in ask price o b.asks) b.bids (
      rest_in-prices ask o (λ p. All (λ m. crosses ask p m.price ≡ false) b.bids) price b.asks h
        (Apart-swap bid b.bids b.asks v))

IsSorted-of : (due : ℕ) (b : Book) (s : Side) → IsBook due b → IsSorted s (levels b s)
IsSorted-of due b bid v = v.bids.sorted
IsSorted-of due b ask v = v.asks.sorted

module _ (b : Book) (actor id : ℕ) (side : Side) (qty : ℕ) (v : IsUncrossed b) where
  pub sweep-IsUncrossed : (cross : ℤ → Bool) → IsUncrossed (sweep b actor id side cross qty).0
  unfolding sweep
  sweep-IsUncrossed cross = match_book-IsUncrossed (count_added b qty) id actor side cross qty v

  pub enter_limit-IsUncrossed :
      (price : ℤ) → IsBook 0 b → IsUncrossed (enter_limit b actor id side price qty).0
  unfolding enter_limit
  enter_limit-IsUncrossed price k =
      let b' = count_added b qty in
      let r = match_book b' id actor side (crosses side price) qty in
      let m =
        match_book-Matched b' id actor side (crosses side price) qty (count_added-IsBook b qty k) in
      let still = match_book-IsUncrossed b' id actor side (crosses side price) qty v in
      elim (Bool-cases (ltb 0 r.1)) [
        | inl more ↦
            let far =
              all_Blocked side price (levels r.0 (opposite side))
                (IsSorted-of r.1 r.0 (opposite side) m.book)
                (match_book-Blocked b' id actor side (crosses side price) qty qty
                  (count_added-IsBook b qty k) (ground arith)) in
            rw more (rest-IsUncrossed r.0 id side price r.1 actor far still)
        | inr done ↦ rw done still
      ]

-- Taking an order out, or a part of it, for whichever counter.
pub unrest-IsUncrossed : (b : Book) (e : Level × Order) → IsUncrossed b → IsUncrossed (unrest b e)
unfolding unrest
unrest-IsUncrossed b (l, o) v = settle-IsUncrossed b o.side (remove l o) v

count_taken-IsUncrossed :
    (x : Bool) (q : ℕ) (b : Book) → IsUncrossed b → IsUncrossed (count_taken x q b)
count_taken-IsUncrossed true q b v = v
count_taken-IsUncrossed false q b v = v

pub consume_open-IsUncrossed :
    (b : Book) (qty : ℕ) (x : Bool) (e : Level × Order)
    → IsResting b e
    → IsUncrossed b
    → IsUncrossed (consume_open b qty x e).0
unfolding consume_open
consume_open-IsUncrossed b qty x (l, o) k v =
    let take = if ltb qty o.qty then qty else o.qty in
    let v' = count_taken-IsUncrossed x take b v in
    let some_orders : l.order_count ≢ 0 =
      omega (arith, k.sound.counted, find_in-length o.id l.queue o k.order) in
    elim (Bool-cases (qty == 0)) [
      | inl nothing ↦ rw nothing v
      | inr some_qty ↦ elim (Bool-cases (take == o.qty)) [
        | inl whole ↦ rw (some_qty, whole) (unrest-IsUncrossed (count_taken x take b) (l, o) v')
        | inr part ↦
            rw (some_qty, part, reduce-settle l o take (levels b o.side) some_orders)
              (subst
                (λ ls.
                  IsUncrossed
                    (with_levels (count_taken x take b) o.side (settle (reduce l o take) ls)))
                (levels_counted x take b o.side)
                (settle-IsUncrossed (count_taken x take b) o.side (reduce l o take) v'))
      ]
    ]
