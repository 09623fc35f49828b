-- ===== src/Book/Each.antt =====
-- What the operations of include/pricetime/book.hpp keep of every resting order, whatever its quantity:
-- one property that an order is entered with.
use pricetime.Common.{
  ℕ, ◌≡◌, refl, List, [], ◌∷◌, Bool, true, false, inl, inr, Bool-cases, if◌then◌else◌, ltb, ◌==◌, ℤ,
  All, All-append, eqb_ℤ,
}
use pricetime.Types.{Side, bid, ask, Order}
use pricetime.Level.{Level, push_back, new_level, remove, reduce, unlink, shrink}
use pricetime.LadderMap.{put_level, rest_in, settle}
use pricetime.LadderMap.Sides.{rest_in-place, place-All, settle-swap_in, swap_in-All, level_at-All}
use pricetime.Matching.{crosses}
use pricetime.Matching.Each.{Each, IsLasting, match_levels-HoldsAll}
use pricetime.Book.{
  Book, levels, with_levels, count_added, match_book, rest, enter_limit, unrest, cancel_open,
  cancel_count, consume_open, count_taken,
}
use pricetime.Book.Removal.{IsResting}

module _ (P : Order → Type 0) where
  pub record EachOf (b : Book) : Type 0 where
    pub bids : Each P b.bids
    pub asks : Each P b.asks

  pub levels-Each : (b : Book) (s : Side) → EachOf b → Each P (levels b s)
  levels-Each b bid v = v.bids
  levels-Each b ask v = v.asks

  with_levels-Each :
      (b : Book) (s : Side) (ls : List Level) → EachOf b → Each P ls → EachOf (with_levels b s ls)
  with_levels-Each b bid ls v h = record { bids = h; asks = v.asks }
  with_levels-Each b ask ls v h = record { bids = v.bids; asks = h }

  -- The queue with a new order at its end.
  push_back-Each : (l : Level) (o : Order) → All P l.queue → P o → All P (push_back l o).queue
  unfolding push_back
  push_back-Each l o h p = All-append P l.queue (o ∷ []) h (p, tt)

  pub rest-Each :
      (b : Book) (id : ℕ) (side : Side) (price : ℤ) (qty actor : ℕ)
      → P (record { id = id; price = price; qty = qty; side = side; participant = actor })
      → EachOf b
      → EachOf (rest b id side price qty actor)
  unfolding rest
  rest-Each b id side price qty actor p v =
      let o : Order = record {
        id = id;
        price = price;
        qty = qty;
        side = side;
        participant = actor;
      } in
      let w = with_levels-Each b side (rest_in side price o (levels b side)) v (
        rw (rest_in-place side price o (levels b side)) (
          place-All side o price (levels b side) (levels-Each b side v)
            (push_back-Each (new_level price) o tt p) (λ l _ h _. push_back-Each l o h p))) in
      record { bids = w.bids; asks = w.asks }

  unlink-All : (i : ℕ) (os : List Order) → All P os → All P (unlink i os)
  unfolding unlink
  unlink-All i [] h = tt
  unlink-All i (o ∷ os) h = elim (Bool-cases (o.id == i)) [
    | inl here ↦ rw here h.1
    | inr other ↦ rw other (h.0, unlink-All i os h.1)
  ]

  put_level-Each :
      (p : ℤ) (l' : Level) (ls : List Level)
      → All P l'.queue
      → Each P ls
      → Each P (put_level p l' ls)
  unfolding put_level
  put_level-Each p l' [] k h = tt
  put_level-Each p l' (l ∷ ls) k h = elim (Bool-cases (eqb_ℤ l.price p)) [
    | inl here ↦ rw here (k, h.1)
    | inr other ↦ rw other (h.0, put_level-Each p l' ls k h.1)
  ]

  pub queue-All : (b : Book) (l : Level) (o : Order) → IsResting b (l, o) → EachOf b → All P l.queue
  queue-All b l o r v =
      (level_at-All (λ m. All P m.queue) l.price l (levels b o.side) r.level
        (levels-Each b o.side v)).0

  remove-queue : (l : Level) (o : Order) → (remove l o).queue ≡ unlink o.id l.queue
  unfolding remove
  remove-queue l o = refl

  counted-Each : (x : Bool) (q : ℕ) (b : Book) → EachOf b → EachOf (count_taken x q b)
  counted-Each true q b v = record { bids = v.bids; asks = v.asks }
  counted-Each false q b v = record { bids = v.bids; asks = v.asks }

  unrest-Each :
      (b : Book) (l : Level) (o : Order) → All P l.queue → EachOf b → EachOf (unrest b (l, o))
  unfolding unrest
  unrest-Each b l o h v =
      let w = with_levels-Each b o.side (settle (remove l o) (levels b o.side)) v (
        rw (settle-swap_in (remove l o) (levels b o.side)) (
          swap_in-All o.side (remove l o) (remove l o).price (levels b o.side)
            (levels-Each b o.side v)
            (λ m _ _ _. rw (remove-queue l o) (unlink-All o.id l.queue h)))) in
      record { bids = w.bids; asks = w.asks }

  pub cancel_open-Each :
      (b : Book) (e : Level × Order) → IsResting b e → EachOf b → EachOf (cancel_open b e)
  unfolding cancel_open
  cancel_open-Each b (l, o) r v =
      unrest-Each (cancel_count o.qty b) l o (queue-All b l o r v) (counted-Each false o.qty b v)

  module _ (R : ℕ → Type 0) (lasting : IsLasting P R) where
    shrink-All : (i d : ℕ) (os : List Order) → All P os → All P (shrink i d os)
    unfolding shrink
    shrink-All i d [] h = tt
    shrink-All i d (o ∷ os) h = elim (Bool-cases (o.id == i)) [
      | inl here ↦ rw here (lasting.shrinks o _ h.0, h.1)
      | inr other ↦ rw other (h.0, shrink-All i d os h.1)
    ]

    reduce-All : (l : Level) (o : Order) (d : ℕ) → All P l.queue → All P (reduce l o d).queue
    unfolding reduce
    reduce-All l o d h = shrink-All o.id d l.queue h

    pub consume_open-Each :
        (b : Book) (qty : ℕ) (x : Bool) (e : Level × Order)
        → IsResting b e
        → EachOf b
        → EachOf (consume_open b qty x e).0
    unfolding consume_open
    consume_open-Each b qty x (l, o) r v =
        let take = if ltb qty o.qty then qty else o.qty in
        let h = queue-All b l o r v in
        elim (Bool-cases (qty == 0)) [
          | inl nothing ↦ rw nothing v
          | inr some_qty ↦ elim (Bool-cases (take == o.qty)) [
            | inl whole ↦ rw (some_qty, whole) (unrest-Each _ l o h (counted-Each x take b v))
            | inr part ↦
                rw (some_qty, part)
                  (with_levels-Each _ o.side _ (counted-Each x take b v) (
                    put_level-Each l.price (reduce l o take) (levels b o.side)
                      (reduce-All l o take h) (levels-Each b o.side v)))
          ]
        ]

    -- A match keeps it of every order, and reports executions of such orders only.
    pub match_book-Each :
        (b : Book) (id actor : ℕ) (side : Side) (cross : ℤ → Bool) (qty : ℕ)
        → EachOf b
        → EachOf (match_book b id actor side cross qty).0
          × All (λ x. R x.resting_id) (match_book b id actor side cross qty).2
    unfolding match_book
    match_book-Each b id actor bid cross qty v =
        let k =
          match_levels-HoldsAll P R lasting (record { id = id; actor = actor; policy = b.stp })
            cross b.asks
            (record { left = qty; orders = b.orders; counters = b.counters; execs = [] })
            (record { rests = v.asks; fills = tt }) in
        (record { bids = v.bids; asks = k.rests }, k.fills)
    match_book-Each b id actor ask cross qty v =
        let k =
          match_levels-HoldsAll P R lasting (record { id = id; actor = actor; policy = b.stp })
            cross b.bids
            (record { left = qty; orders = b.orders; counters = b.counters; execs = [] })
            (record { rests = v.bids; fills = tt }) in
        (record { bids = k.rests; asks = v.asks }, k.fills)

    pub enter_limit-Each :
        (b : Book) (actor id : ℕ) (side : Side) (price : ℤ) (qty : ℕ)
        → ((left : ℕ)
            → P (record { id = id; price = price; qty = left; side = side; participant = actor }))
        → EachOf b
        → EachOf (enter_limit b actor id side price qty).0
          × All (λ x. R x.resting_id) (enter_limit b actor id side price qty).2
    unfolding enter_limit
    enter_limit-Each b actor id side price qty p v =
        let r = match_book (count_added b qty) id actor side (crosses side price) qty in
        let (w, fills) =
          match_book-Each (count_added b qty) id actor side (crosses side price) qty
            (record { bids = v.bids; asks = v.asks }) in
        elim (Bool-cases (ltb 0 r.1)) [
          | inl more ↦ (rw more (rest-Each r.0 id side price r.1 actor (p r.1) w), fills)
          | inr done ↦ (rw done w, fills)
        ]
