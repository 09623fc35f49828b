-- ===== src/Book/Front.antt =====
-- One execution at the front of the best level of a book of include/pricetime/book.hpp.
use pricetime.Common.{
  ℕ, ◌-◌, ◌<◌, ◌≡◌, refl, ap, sym, ◌∙◌, subst, List, ◌∷◌, Bool, true, false, ltb, ◌==◌,
  if◌then◌else◌, some, arith, sub_u32, sub_u64, All, eqb_ℤ, eqb_ℤ_refl, ==_refl,
}
use pricetime.Types.{Side, bid, ask, opposite, Order, Result, ok}
use pricetime.IdMap.{StdIdMap, find, erase}
use pricetime.Level.{Level, without, reduced, remove, reduce, find_in, unlink, shrink}
use pricetime.Level.Tally.{IsLevel, IsOrder}
use pricetime.LadderMap.{level_at, put_level, on_level_empty, settle}
use pricetime.Matching.{Handle}
use pricetime.Matching.Entries.{handle_at}
use pricetime.Book.{Book, levels, with_levels, consume, consume_open, deref, unrest, count_taken}
use pricetime.Book.Removal.{levels_counted}
use pricetime.Book.Same.{lookup-found}

pub levels-with_same : (b : Book) (s : Side) (ls : List Level) → levels (with_levels b s ls) s ≡ ls
levels-with_same b bid ls = refl
levels-with_same b ask ls = refl

pub levels-with_other :
    (b : Book) (s : Side) (ls : List Level)
    → levels (with_levels b s ls) (opposite s) ≡ levels b (opposite s)
levels-with_other b bid ls = refl
levels-with_other b ask ls = refl

pub levels-with_orders :
    (b : Book) (s : Side) (m : StdIdMap Handle) → levels (record b { orders = m }) s ≡ levels b s
levels-with_orders b bid m = refl
levels-with_orders b ask m = refl

pub orders-with_levels :
    (b : Book) (s : Side) (ls : List Level) → (with_levels b s ls).orders ≡ b.orders
orders-with_levels b bid ls = refl
orders-with_levels b ask ls = refl

pub orders_counted : (x : Bool) (q : ℕ) (b : Book) → (count_taken x q b).orders ≡ b.orders
orders_counted true q b = refl
orders_counted false q b = refl

-- A level that is written back, or erased when it is empty.
abbrev pub back : Level → List Level → List Level
back l ls = if l.order_count == 0 then ls else l ∷ ls

settle_head :
    (l l' : Level) (ls : List Level) → l'.price ≡ l.price → settle l' (l ∷ ls) ≡ back l' ls
unfolding settle put_level on_level_empty
settle_head l l' ls e =
    let here : eqb_ℤ l.price l'.price ≡ true =
      subst (λ p. eqb_ℤ l.price p ≡ true) (sym e) (eqb_ℤ_refl l.price) in
    rw (here, eqb_ℤ_refl l'.price) refl

-- The order at the front of the best level, and its entry in the index.
pub record IsFront (m : Book) (s : Side) (l : Level) (ls : List Level) (o : Order)
    (rest : List Order) : Type 0 where
  pub near : levels m s ≡ l ∷ ls
  pub queue : l.queue ≡ o ∷ rest
  pub level : IsLevel s l
  pub found : find m.orders o.id ≡ some (handle_at s l.price)

deref-found :
    (b : Book) (id : ℕ) (h : Handle) (l : Level) (o : Order)
    → level_at h.price (levels b h.side) ≡ some l
    → find_in id l.queue ≡ some o
    → deref b id h ≡ some (l, o)
unfolding deref
deref-found b id h l o at held = rw (at, deref) (rw held refl)

module _ (m : Book) (s : Side) (l : Level) (ls : List Level) (o : Order) (rest : List Order)
    (v : IsFront m s l ls o rest) where
  levels_front : levels m s ≡ l ∷ ls
  levels_front = v.near

  front_deref : deref m o.id (handle_at s l.price) ≡ some (l, o)
  unfolding level_at find_in
  front_deref =
      deref-found m o.id (handle_at s l.price) l o (rw (v.near, eqb_ℤ_refl l.price) refl)
        (rw (v.queue, ==_refl o.id) refl)

  front_consume : (qty : ℕ) (x : Bool) → consume m o.id qty x ≡ some (consume_open m qty x (l, o))
  unfolding consume
  front_consume qty x =
      lookup-found m o.id _ (consume_open m qty x) (handle_at s l.price) (l, o) v.found front_deref

  order_level : IsOrder s l.price o
  order_level = (subst (All (IsOrder s l.price)) v.queue v.level.orders).0

  reduce_front :
      (fill : ℕ)
      → fill < o.qty
      → reduce l o fill ≡ reduced l fill (record o { qty = o.qty - fill } ∷ rest)
  unfolding reduce shrink
  reduce_front fill less =
      let d : sub_u32 o.qty fill ≡ o.qty - fill = omega (arith, order_level.small) in
      rw (v.queue, ==_refl o.id) (ap (λ q. reduced l fill (record o { qty = q } ∷ rest)) d)

  remove_front : remove l o ≡ without (reduced l o.qty rest) 0 rest
  unfolding remove unlink
  remove_front =
      let t : sub_u64 l.total_qty o.qty ≡ sub_u64 (sub_u64 l.total_qty o.qty) 0 = omega arith in
      rw (v.queue, ==_refl o.id)
        (ap (λ q. record l { total_qty = q; order_count = sub_u32 l.order_count 1; queue = rest })
          t)

  -- What is left of the front order once `fill` of it is executed.
  pub front_part :
      (fill : ℕ) (x : Bool)
      → 0 < fill
      → fill < o.qty
      → (r : Book × Result × ℕ) × (consume m o.id fill x ≡ some r)
        × (levels r.0 s ≡ reduced l fill (record o { qty = o.qty - fill } ∷ rest) ∷ ls)
        × (levels r.0 (opposite s) ≡ levels m (opposite s))
        × (r.0.orders ≡ m.orders)
  unfolding consume_open put_level
  front_part fill x some_fill less =
      let filled : (fill == 0) ≡ false = ground arith in
      let took : ltb fill o.qty ≡ true = ground arith in
      let part : (fill == o.qty) ≡ false = ground arith in
      let b = count_taken x fill m in
      let e : consume_open m fill x (l, o)
          ≡ (with_levels b s (put_level l.price (reduce l o fill) (levels m s)), ok, fill) =
        rw (filled, took, part, order_level.sided) refl in
      (
        _,
        front_consume fill x ∙ ap some e,
        levels-with_same b s _
            ∙ rw (v.near, eqb_ℤ_refl l.price) (ap (λ l'. l' ∷ ls) (reduce_front fill less)),
        levels-with_other b s _ ∙ levels_counted x fill m (opposite s),
        orders-with_levels b s _ ∙ orders_counted x fill m,
      )

  pub front_whole :
      (x : Bool)
      → (r : Book × Result × ℕ) × (consume m o.id o.qty x ≡ some r)
        × (levels r.0 s ≡ back (without (reduced l o.qty rest) 0 rest) ls)
        × (levels r.0 (opposite s) ≡ levels m (opposite s))
        × (r.0.orders ≡ erase m.orders o.id)
  unfolding consume_open unrest
  front_whole x =
      let filled : (o.qty == 0) ≡ false = ground (arith, order_level.positive) in
      let took : ltb o.qty o.qty ≡ false = ground arith in
      let b = count_taken x o.qty m in
      let w = with_levels b s (settle (remove l o) (levels b s)) in
      let e : consume_open m o.qty x (l, o) ≡ (
        record (with_levels b s (settle (remove l o) (levels b s))) {
          orders = erase b.orders o.id;
        },
        ok,
        o.qty,
      ) =
        rw (filled, took, ==_refl o.qty, order_level.sided) refl in
      (
        _,
        front_consume o.qty x ∙ ap some e,
        levels-with_orders w s (erase b.orders o.id)
            ∙ levels-with_same b s _
            ∙ ap (settle (remove l o)) (levels_counted x o.qty m s ∙ v.near)
            ∙ ap (λ l'. settle l' (l ∷ ls)) remove_front
            ∙ settle_head l (without (reduced l o.qty rest) 0 rest) ls refl,
        levels-with_orders w (opposite s) (erase b.orders o.id)
            ∙ levels-with_other b s _
            ∙ levels_counted x o.qty m (opposite s),
        ap (λ os. erase os o.id) (orders_counted x o.qty m),
      )
