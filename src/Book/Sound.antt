-- ===== src/Book/Sound.antt =====
-- The operations of include/pricetime/book.hpp and the whole invariant: the accounts and the id map.
use pricetime.Common.{
  ℕ, ◌+◌, ◌≤◌, ◌<◌, ◌≡◌, ◌∙◌, subst, List, Bool, true, false, inl, inr, Bool-cases, ltb, ◌==◌,
  arith, ℤ, if◌then◌else◌, none, some, u32,
}
use pricetime.Types.{Side, Order, Result}
use pricetime.IdMap.{find}
use pricetime.Level.{Level, reduce}
use pricetime.LadderMap.{put_level}
use pricetime.Matching.{crosses}
use pricetime.Book.{
  Book, Outcome, rejected, validate, validate_new, count_added, count_taken, levels, with_levels,
  match_book, sweep, enter_limit, add_limit_as, add_ioc_as, add_market_as, add_fok_as,
  insert_passive, cancel, cancel_open, consume, consume_open, replace, replace_open, unrest,
}
use pricetime.Book.Invariant.{IsBook, HasRoom, resting, count_added-IsBook}
use pricetime.Book.Entry.{
  on_ok_inv, if_inv, validate-ok, add_limit_as-IsBook, sweep-IsBook, insert_passive-IsBook,
}
use pricetime.Book.Removal.{
  levels_counted, recount, side_of, IsResting, IsLinked, lookup-answers, cancel_open-IsBook,
  cancel_open-resting, consume_open-IsBook,
}
use pricetime.Book.Index.{
  count_taken-IsIndexed, reduce-IsIndexed, IsIndexed, rest-IsIndexed, match_book-IsIndexed,
  unrest-IsIndexed, IsLinked-of,
}
use pricetime.LadderMap.Sides.{IsSide}
use pricetime.Book.Room.{
  reduce-resting, count_taken-resting, unrest-resting, rest-resting, sweep-resting,
  enter_limit-resting,
}

-- The accounts hold, and the id map is that of the resting orders.
pub record IsSound (b : Book) : Type 0 where
  pub book : IsBook 0 b
  pub index : IsIndexed b

-- Sound, and with at most one order more than before.
pub record Grown (b b' : Book) : Type 0 where
  pub sound : IsSound b'
  pub room : resting b' ≤ resting b + 1

same-Grown : (b : Book) → IsSound b → Grown b b
same-Grown b v = record { sound = v; room = omega arith }

module _ (b : Book) (actor id : ℕ) (side : Side) (qty : ℕ) (v : IsSound b) where
  sweep-IsIndexed :
      (cross : ℤ → Bool) → find b.orders id ≡ none → IsIndexed (sweep b actor id side cross qty).0
  unfolding sweep
  sweep-IsIndexed cross unused =
      (match_book-IsIndexed (count_added b qty) id actor side cross qty qty unused
        (count_added-IsBook b qty v.book) v.index).0

  enter_limit-IsIndexed :
      (price : ℤ) → find b.orders id ≡ none → IsIndexed (enter_limit b actor id side price qty).0
  unfolding enter_limit
  enter_limit-IsIndexed price unused =
      let r = match_book (count_added b qty) id actor side (crosses side price) qty in
      let (index, still) =
        match_book-IsIndexed (count_added b qty) id actor side (crosses side price) qty qty unused
          (count_added-IsBook b qty v.book) v.index in
      elim (Bool-cases (ltb 0 r.1)) [
        | inl more ↦ rw more (rest-IsIndexed r.0 id side price r.1 actor still index)
        | inr done ↦ rw done index
      ]

  pub add_limit_as-Grown :
      (price : ℤ) → qty < u32 → HasRoom b → Grown b (add_limit_as b actor id side price qty).0
  unfolding add_limit_as
  add_limit_as-Grown price small room = record {
    sound = record {
      book = add_limit_as-IsBook b actor id side qty v.book price small room;
      index =
          on_ok_inv (λ (r : Outcome). IsIndexed r.0) (validate b id qty) _ (rejected b)
            (λ e. enter_limit-IsIndexed price (validate-ok b id qty e).2) (λ _. v.index);
    };
    room =
        on_ok_inv (λ (r : Outcome). resting r.0 ≤ resting b + 1) (validate b id qty) _ (rejected b)
          (λ _. enter_limit-resting b actor id side qty v.book price) (λ _. omega arith);
  }

  sweep-Grown :
      (cross : ℤ → Bool) → find b.orders id ≡ none → Grown b (sweep b actor id side cross qty).0
  sweep-Grown cross unused = record {
    sound = record {
      book = sweep-IsBook b actor id side qty v.book cross;
      index = sweep-IsIndexed cross unused;
    };
    room = omega (arith, sweep-resting b actor id side qty v.book cross);
  }

  pub add_ioc_as-Grown : (price : ℤ) → Grown b (add_ioc_as b actor id side price qty).0
  unfolding add_ioc_as
  add_ioc_as-Grown price =
      on_ok_inv (λ (r : Outcome). Grown b r.0) (validate b id qty) _ (rejected b)
        (λ e. sweep-Grown (crosses side price) (validate-ok b id qty e).2) (λ _. same-Grown b v)

  pub add_market_as-Grown : Grown b (add_market_as b actor id side qty).0
  unfolding add_market_as
  add_market_as-Grown =
      on_ok_inv (λ (r : Outcome). Grown b r.0) (validate b id qty) _ (rejected b)
        (λ e. sweep-Grown (λ _. true) (validate-ok b id qty e).2) (λ _. same-Grown b v)

  pub add_fok_as-Grown : (price : ℤ) → Grown b (add_fok_as b actor id side price qty).0
  unfolding add_fok_as
  add_fok_as-Grown price =
      on_ok_inv (λ (r : Outcome). Grown b r.0) (validate b id qty) _ (rejected b)
        (λ e.
          if_inv (λ (r : Outcome). Grown b r.0) _ _ _ (same-Grown b v)
            (sweep-Grown (crosses side price) (validate-ok b id qty e).2))
        (λ _. same-Grown b v)

pub insert_passive-Grown :
    (b : Book) (id : ℕ) (side : Side) (price : ℤ) (qty : ℕ)
    → qty < u32
    → HasRoom b
    → IsSound b
    → Grown b (insert_passive b id side price qty).0
unfolding insert_passive
insert_passive-Grown b id side price qty small room v = record {
  sound = record {
    book = insert_passive-IsBook b id side price qty small room v.book;
    index =
        on_ok_inv (λ (r : Book × Result). IsIndexed r.0) (validate b id qty) _ (λ r. (b, r))
          (λ e.
            rest-IsIndexed (count_added b qty) id side price qty 0 (validate-ok b id qty e).2
              v.index)
          (λ _. v.index);
  };
  room =
      on_ok_inv (λ (r : Book × Result). resting r.0 ≤ resting b + 1) (validate b id qty) _
        (λ r. (b, r)) (λ e. omega (arith, rest-resting (count_added b qty) id side price qty 0))
        (λ _. omega arith);
}

module _ (b : Book) (v : IsSound b) where
  linked : (id : ℕ) → IsLinked b id
  linked id = IsLinked-of b id 0 v.book v.index

  -- Taking an order out, for whichever counter.
  module _ (x : Bool) (l : Level) (o : Order) (k : IsResting b (l, o)) where
    counted_side : (q : ℕ) → IsSide o.side (levels (count_taken x q b) o.side)
    counted_side q = rw (levels_counted x q b o.side) (side_of 0 b o.side v.book)

    taken-index : (q : ℕ) → IsIndexed (unrest (count_taken x q b) (l, o))
    taken-index q =
        unrest-IsIndexed (count_taken x q b) l o (recount x q b (l, o) k)
          (count_taken-IsIndexed x q b v.index)

    taken-resting : (q : ℕ) → resting (unrest (count_taken x q b) (l, o)) + 1 ≡ resting b
    taken-resting q =
        unrest-resting (count_taken x q b) l o (recount x q b (l, o) k) (counted_side q)
        ∙ count_taken-resting x q b

    reduced_book : ℕ → List Level → Book
    reduced_book q ls = with_levels (count_taken x q b) o.side (put_level l.price (reduce l o q) ls)

    reduced-index : (q : ℕ) → IsIndexed (reduced_book q (levels b o.side))
    unfolding reduced_book
    reduced-index q =
        subst (λ ls. IsIndexed (reduced_book q ls)) (levels_counted x q b o.side)
          (reduce-IsIndexed (count_taken x q b) l o o.side q (recount x q b (l, o) k).level
            (count_taken-IsIndexed x q b v.index))

    reduced-resting : (q : ℕ) → q < o.qty → resting (reduced_book q (levels b o.side)) ≡ resting b
    unfolding reduced_book
    reduced-resting q less =
        subst (λ ls. resting (reduced_book q ls) ≡ resting b) (levels_counted x q b o.side)
          (reduce-resting (count_taken x q b) l o q (recount x q b (l, o) k) less (counted_side q)
            ∙ count_taken-resting x q b)

    consume_open-Grown : (qty : ℕ) → Grown b (consume_open b qty x (l, o)).0
    unfolding consume_open reduced_book
    consume_open-Grown qty =
        let take = if ltb qty o.qty then qty else o.qty in
        let book = consume_open-IsBook b qty x (l, o) k v.book in
        elim (Bool-cases (qty == 0)) [
          | inl nothing ↦ rw nothing (same-Grown b v)
          | inr some_qty ↦ elim (Bool-cases (take == o.qty)) [
            | inl whole ↦
                rw (some_qty, whole)
                  (record {
                    sound = record {
                      book = rw (some_qty, whole, consume_open) at book;
                      index = taken-index take;
                    };
                    room = omega (arith, taken-resting take);
                  })
            | inr part ↦
                let less : take < o.qty = ground arith in
                rw (some_qty, part)
                  (record {
                    sound = record {
                      book = rw (some_qty, part, consume_open) at book;
                      index = reduced-index take;
                    };
                    room = omega (arith, reduced-resting take less);
                  })
          ]
        ]

  pub cancel_open-Grown :
      (e : Level × Order)
      → IsResting b e
      → Grown b (cancel_open b e) × (resting (cancel_open b e) + 1 ≡ resting b)
  unfolding cancel_open
  cancel_open-Grown (l, o) k =
      let fewer = cancel_open-resting b (l, o) k v.book in
      (
        record {
          sound = record {
            book = cancel_open-IsBook b (l, o) k v.book;
            index = taken-index false l o k o.qty;
          };
          room = omega (arith, fewer);
        },
        fewer,
      )

  -- What a cancel, a removal or a replace answers on a sound book.
  pub cancel-Grown : (id : ℕ) → (r : Outcome) × (cancel b id ≡ some r) × Grown b r.0
  unfolding cancel
  cancel-Grown id =
      lookup-answers (λ (x : Outcome). Grown b x.0) b id _ _ (linked id) v.book (same-Grown b v)
        (λ e k _. (cancel_open-Grown e k).0)

  pub consume-Grown :
      (id qty : ℕ) (is_execution : Bool)
      → (r : Book × Result × ℕ) × (consume b id qty is_execution ≡ some r) × Grown b r.0
  unfolding consume
  consume-Grown id qty x =
      lookup-answers (λ (y : Book × Result × ℕ). Grown b y.0) b id _ _ (linked id) v.book
        (same-Grown b v) (λ e k _. consume_open-Grown x e.0 e.1 k qty)

  pub replace-Grown :
      (old_id new_id : ℕ) (price : ℤ) (qty : ℕ)
      → qty < u32
      → HasRoom b
      → (r : Outcome) × (replace b old_id new_id price qty ≡ some r) × Grown b r.0
  unfolding replace
  replace-Grown old_id new_id price qty small room =
      lookup-answers (λ (x : Outcome). Grown b x.0) b old_id _ _ (linked old_id) v.book
        (same-Grown b v) (λ e k _. replaced e k)
    where
      replaced :
          (e : Level × Order) → IsResting b e → Grown b (replace_open b old_id new_id price qty e).0
      replaced e k =
          let (gone, fewer) = cancel_open-Grown e k in
          on_ok_inv (λ (y : Outcome). Grown b y.0) (validate_new b old_id new_id qty) _ (rejected b)
            (λ _.
              let g =
                add_limit_as-Grown (cancel_open b e) e.1.participant new_id e.1.side qty gone.sound
                  price small (omega (arith, fewer)) in
              record { sound = g.sound; room = omega (arith, g.room, fewer) })
            (λ _. same-Grown b v)
