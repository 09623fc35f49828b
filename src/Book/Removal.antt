-- ===== src/Book/Removal.antt =====
-- Cancel, feed-driven removal and replace of include/pricetime/book.hpp, and the invariant of the
-- book.
use pricetime.Common.{
  ℕ, ◌+◌, ◌<◌, ◌≡◌, ◌≢◌, refl, sym, List, Bool, true, false, inl, inr, Bool-cases, ltb, arith, u32,
  ℤ, if◌then◌else◌, none, some, Option, Option-cases, eq_of_some, subst, length, ◌==◌, eq_of_==,
}
use pricetime.Types.{Side, bid, ask, Order, Result}
use pricetime.IdMap.{StdIdMap, find}
use pricetime.Level.{Level, find_in, remove, reduce}
use pricetime.Level.Tally.{
  IsLevel, find_in-IsOrder, remove-IsLevel, reduce-IsLevel, open_qty, find_in-length,
}
use pricetime.LadderMap.{level_at, settle, put_level}
use pricetime.LadderMap.Sides.{IsSide, settle-IsSide, level_at-All, IsActive}
use pricetime.Matching.{Handle}
use pricetime.Book.{
  Book, Outcome, rejected, levels, with_levels, deref, unrest, cancel_open, cancel_count,
  count_taken, consume_open, consume, cancel, lookup, follow, replace, replace_open, validate_new,
}
use pricetime.Book.Invariant.{IsBook, HasRoom, resting}
use pricetime.Book.Entry.{on_ok_inv, add_limit_as-IsBook}

-- An order of the book, with its level: what a pointer from the id map leads to.
pub record IsResting (b : Book) (e : Level × Order) : Type 0 where
  pub level : level_at e.0.price (levels b e.1.side) ≡ some e.0
  pub order : find_in e.1.id e.0.queue ≡ some e.1
  pub sound : IsLevel e.1.side e.0

pub side_of : (due : ℕ) (b : Book) (s : Side) → IsBook due b → IsSide s (levels b s)
side_of due b bid v = v.bids
side_of due b ask v = v.asks

deref-parts :
    (b : Book) (id : ℕ) (h : Handle) (e : Level × Order)
    → deref b id h ≡ some e
    → (level_at h.price (levels b h.side) ≡ some e.0) × (find_in id e.0.queue ≡ some e.1)
unfolding deref
deref-parts b id h e d = ground arith

pub deref-IsResting :
    (b : Book) (id : ℕ) (h : Handle) (e : Level × Order)
    → IsBook 0 b
    → deref b id h ≡ some e
    → IsResting b e × (e.1.id ≡ id)
deref-IsResting b id h (l, o) v d =
    let (found, held) = deref-parts b id h (l, o) d in
    let (active, priced) =
      level_at-All (IsActive h.side) h.price l (levels b h.side) found
        (side_of 0 b h.side v).active in
    let (mine, named) = find_in-IsOrder h.side l.price id l.queue o held active.0.orders in
    let found_at : level_at l.price (levels b h.side) ≡ some l =
      subst (λ p. level_at p (levels b h.side) ≡ some l) (sym priced) found in
    (
      record {
        level = subst (λ s. level_at l.price (levels b s) ≡ some l) (sym mine.sided) found_at;
        order = subst (λ i. find_in i l.queue ≡ some o) (sym named) held;
        sound = subst (λ s. IsLevel s l) (sym mine.sided) active.0;
      },
      named,
    )

-- The order rests on the side of its pointer.
pub deref-side :
    (b : Book) (id : ℕ) (h : Handle) (e : Level × Order)
    → IsBook 0 b
    → deref b id h ≡ some e
    → e.1.side ≡ h.side
deref-side b id h (l, o) v d =
    let (found, held) = deref-parts b id h (l, o) d in
    let (active, priced) =
      level_at-All (IsActive h.side) h.price l (levels b h.side) found
        (side_of 0 b h.side v).active in
    (find_in-IsOrder h.side l.price id l.queue o held active.0.orders).0.sided

-- A quantity leaves one level for the canceled or the executed count.
module _ (b : Book) (is_execution : Bool) (q : ℕ) (l l' : Level) where
  taken-IsBook :
      (s : Side)
      → level_at l'.price (levels b s) ≡ some l
      → IsLevel s l'
      → open_qty l'.queue + q ≡ open_qty l.queue
      → IsBook 0 b
      → IsBook 0 (with_levels (count_taken is_execution q b) s (settle l' (levels b s)))
  taken-IsBook bid found sound sum v =
      let r = settle-IsSide bid l' l b.bids found sound v.bids in
      elim is_execution
        as (λ x. IsBook 0 (with_levels (count_taken x q b) bid (settle l' b.bids))) [
          | true ↦ record { bids = r.0; asks = v.asks; balanced = omega (arith, v.balanced, r.1) }
          | false ↦ record { bids = r.0; asks = v.asks; balanced = omega (arith, v.balanced, r.1) }
        ]
  taken-IsBook ask found sound sum v =
      let r = settle-IsSide ask l' l b.asks found sound v.asks in
      elim is_execution
        as (λ x. IsBook 0 (with_levels (count_taken x q b) ask (settle l' b.asks))) [
          | true ↦ record { bids = v.bids; asks = r.0; balanced = omega (arith, v.balanced, r.1) }
          | false ↦ record { bids = v.bids; asks = r.0; balanced = omega (arith, v.balanced, r.1) }
        ]

-- The accounts do not speak of the id map.
any_orders :
    (due : ℕ) (b : Book) (m : StdIdMap Handle) → IsBook due b → IsBook due (record b { orders = m })
any_orders due b m v = record { bids = v.bids; asks = v.asks; balanced = v.balanced }

pub remove-price : (l : Level) (o : Order) → (remove l o).price ≡ l.price
unfolding remove
remove-price l o = refl

pub reduce-price : (l : Level) (o : Order) (d : ℕ) → (reduce l o d).price ≡ l.price
unfolding reduce
reduce-price l o d = refl

pub levels_counted :
    (x : Bool) (q : ℕ) (b : Book) (s : Side) → levels (count_taken x q b) s ≡ levels b s
levels_counted true q b bid = refl
levels_counted true q b ask = refl
levels_counted false q b bid = refl
levels_counted false q b ask = refl

-- What rests does not depend on the counters.
pub recount :
    (x : Bool) (q : ℕ) (b : Book) (e : Level × Order)
    → IsResting b e
    → IsResting (count_taken x q b) e
recount x q b e r = record {
  level = rw (levels_counted x q b e.1.side) r.level;
  order = r.order;
  sound = r.sound;
}

-- Taking a whole order out, as a cancel or as an execution.
unrest-IsBook :
    (b : Book) (x : Bool) (l : Level) (o : Order)
    → IsResting b (l, o)
    → IsBook 0 b
    → IsBook 0 (unrest (count_taken x o.qty b) (l, o))
unfolding unrest
unrest-IsBook b x l o r v =
    let (sound, sum, len) = remove-IsLevel l o r.order r.sound in
    rw levels_counted (
      any_orders 0 _ _
        (taken-IsBook b x o.qty l (remove l o) o.side (rw remove-price r.level) sound sum v))

pub cancel_open-IsBook :
    (b : Book) (e : Level × Order) → IsResting b e → IsBook 0 b → IsBook 0 (cancel_open b e)
unfolding cancel_open
cancel_open-IsBook b (l, o) r v = unrest-IsBook b false l o r v

settled-resting :
    (q : ℕ) (b : Book) (s : Side) (l l' : Level)
    → level_at l'.price (levels b s) ≡ some l
    → IsLevel s l'
    → IsBook 0 b
    → resting (with_levels (cancel_count q b) s (settle l' (levels b s))) + length l.queue
      ≡ resting b + length l'.queue
settled-resting q b bid l l' found sound v =
    omega (arith, (settle-IsSide bid l' l b.bids found sound v.bids).2)
settled-resting q b ask l l' found sound v =
    omega (arith, (settle-IsSide ask l' l b.asks found sound v.asks).2)

-- One order less rests after a cancel.
pub cancel_open-resting :
    (b : Book) (e : Level × Order)
    → IsResting b e
    → IsBook 0 b
    → resting (cancel_open b e) + 1 ≡ resting b
unfolding cancel_open unrest
cancel_open-resting b (l, o) r v =
    let (sound, sum, len) = remove-IsLevel l o r.order r.sound in
    rw (levels_counted false) (
      omega (
        arith,
        len,
        settled-resting o.qty b o.side l (remove l o) (rw remove-price r.level) sound v,
      ))

-- A reduced level is not empty, so writing it back is settling it.
pub reduce-settle :
    (l : Level) (o : Order) (d : ℕ) (ls : List Level)
    → l.order_count ≢ 0
    → put_level l.price (reduce l o d) ls ≡ settle (reduce l o d) ls
unfolding settle reduce
reduce-settle l o d ls h = ground arith

pub consume_open-IsBook :
    (b : Book) (qty : ℕ) (x : Bool) (e : Level × Order)
    → IsResting b e
    → IsBook 0 b
    → IsBook 0 (consume_open b qty x e).0
unfolding consume_open
consume_open-IsBook b qty x (l, o) r v =
    let take = if ltb qty o.qty then qty else o.qty in
    elim (Bool-cases (qty == 0)) [
      | inl nothing ↦ rw nothing v
      | inr some_qty ↦ elim (Bool-cases (take == o.qty)) [
        | inl whole ↦
            let same : take ≡ o.qty = eq_of_== take o.qty whole in
            rw (some_qty, whole)
              (subst (λ t. IsBook 0 (unrest (count_taken x t b) (l, o))) (sym same)
                (unrest-IsBook b x l o r v))
        | inr part ↦
            let less : take < o.qty = ground arith in
            let (sound, sum, len) = reduce-IsLevel l o take r.order less r.sound in
            let some_orders : l.order_count ≢ 0 =
              omega (arith, r.sound.counted, find_in-length o.id l.queue o r.order) in
            rw (some_qty, part, reduce-settle l o take (levels b o.side) some_orders)
              (taken-IsBook b x take l (reduce l o take) o.side (rw reduce-price r.level) sound sum
                v)
      ]
    ]

follow-eq-some :
    {E A : Type 0} (o : Option E) (f : E → A) (r : A)
    → follow o f ≡ some r
    → (e : E) × (o ≡ some e) × (f e ≡ r)
follow-eq-some none f r h = cc
follow-eq-some (some e) f r h = (e, refl, eq_of_some h)

-- What holds of every answer of a lookup: unknown, or of an order that rests in the book.
pub lookup_inv :
    {A : Type 0} (P : A → Type 0) (b : Book) (id : ℕ) (unknown : A) (found : Level × Order → A)
    (r : A)
    → lookup b id unknown found ≡ some r
    → IsBook 0 b
    → P unknown
    → ((e : Level × Order) → IsResting b e → e.1.id ≡ id → P (found e))
    → P r
unfolding lookup
lookup_inv P b id unknown found r run v p q = elim (Option-cases (find b.orders id)) [
  | inl absent ↦ subst P (eq_of_some (rw (absent, lookup) at run)) p
  | inr (h, present) ↦
      let (e, there, same) = follow-eq-some (deref b id h) found r (rw (present, lookup) at run) in
      let (resting, named) = deref-IsResting b id h e v there in subst P same (q e resting named)
]

-- What a pointer of the index leads to.
pub record Pointed (b : Book) (id : ℕ) (e : Level × Order) : Type 0 where
  pub handle : Handle
  pub found : find b.orders id ≡ some handle
  pub leads : deref b id handle ≡ some e
  pub side : e.1.side ≡ handle.side
  pub resting : IsResting b e
  pub named : e.1.id ≡ id

-- What holds of the answer to an unknown id, and of every answer to an order that a pointer leads
-- to, holds of the answer.
pub lookup_pointed :
    {A : Type 0} (P : A → Type 0) (b : Book) (id : ℕ) (unknown : A) (found : Level × Order → A)
    (r : A)
    → lookup b id unknown found ≡ some r
    → IsBook 0 b
    → (find b.orders id ≡ none → P unknown)
    → ((e : Level × Order) → Pointed b id e → P (found e))
    → P r
unfolding lookup
lookup_pointed P b id unknown found r run v p q = elim (Option-cases (find b.orders id)) [
  | inl absent ↦ subst P (eq_of_some (rw (absent, lookup) at run)) (p absent)
  | inr (h, present) ↦
      let (e, there, same) = follow-eq-some (deref b id h) found r (rw (present, lookup) at run) in
      let (resting, named) = deref-IsResting b id h e v there in
      subst P same (
        q e (record {
          handle = h;
          found = present;
          leads = there;
          side = deref-side b id h e v there;
          resting = resting;
          named = named;
        }))
]

-- The index does not dangle at an id: what it holds there leads to a resting order.
abbrev pub IsLinked : Book → ℕ → Type 0
IsLinked b id =
    (h : Handle) → find b.orders id ≡ some h → (e : Level × Order) × (deref b id h ≡ some e)

-- A lookup at such an id answers.
lookup-some :
    {A : Type 0} (b : Book) (id : ℕ) (unknown : A) (found : Level × Order → A)
    → IsLinked b id
    → (r : A) × (lookup b id unknown found ≡ some r)
unfolding lookup
lookup-some b id unknown found linked = elim (Option-cases (find b.orders id)) [
  | inl absent ↦ (unknown, rw (absent, lookup) refl)
  | inr (h, present) ↦
      let (e, there) = linked h present in (found e, rw (present, there, lookup, follow) refl)
]

-- What holds of both of its answers then holds of the result.
pub lookup-answers :
    {A : Type 0} (P : A → Type 0) (b : Book) (id : ℕ) (unknown : A) (found : Level × Order → A)
    → IsLinked b id
    → IsBook 0 b
    → P unknown
    → ((e : Level × Order) → IsResting b e → e.1.id ≡ id → P (found e))
    → (r : A) × (lookup b id unknown found ≡ some r) × P r
lookup-answers P b id unknown found linked v p q =
    let (r, run) = lookup-some b id unknown found linked in
    (r, run, lookup_inv P b id unknown found r run v p q)

-- A cancel of an id at which the index does not dangle, in a book that satisfies the invariant,
-- always answers, and keeps the invariant.
cancel-IsBook :
    (b : Book) (id : ℕ)
    → IsLinked b id
    → IsBook 0 b
    → (r : Outcome) × (cancel b id ≡ some r) × IsBook 0 r.0
unfolding cancel
cancel-IsBook b id linked v =
    lookup-answers (λ (x : Outcome). IsBook 0 x.0) b id _ _ linked v v
      (λ e k _. cancel_open-IsBook b e k v)

-- A removal that the feed reports, as an execution or as a cancel and for any quantity, of an id
-- at which the index does not dangle, in a book that satisfies the invariant, always answers,
-- and keeps the invariant.
consume-IsBook :
    (b : Book) (id qty : ℕ) (is_execution : Bool)
    → IsLinked b id
    → IsBook 0 b
    → (r : Book × Result × ℕ) × (consume b id qty is_execution ≡ some r) × IsBook 0 r.0
unfolding consume
consume-IsBook b id qty x linked v =
    lookup-answers (λ (y : Book × Result × ℕ). IsBook 0 y.0) b id _ _ linked v v
      (λ e k _. consume_open-IsBook b qty x e k v)

-- A replace of an id at which the index does not dangle, with a uint32 quantity and in a book
-- that satisfies the invariant and has room for one more order, always answers, and keeps the
-- invariant, whether the new order rests, trades or is refused.
replace-IsBook :
    (b : Book) (old_id new_id : ℕ) (price : ℤ) (qty : ℕ)
    → IsLinked b old_id
    → qty < u32
    → HasRoom b
    → IsBook 0 b
    → (r : Outcome) × (replace b old_id new_id price qty ≡ some r) × IsBook 0 r.0
unfolding replace
replace-IsBook b old_id new_id price qty linked small room v =
    lookup-answers (λ (y : Outcome). IsBook 0 y.0) b old_id _ _ linked v v (λ e k _. replaced e k)
  where
    replaced :
        (e : Level × Order) → IsResting b e → IsBook 0 (replace_open b old_id new_id price qty e).0
    replaced e k =
        on_ok_inv (λ (y : Outcome). IsBook 0 y.0) (validate_new b old_id new_id qty) _ (rejected b)
          (λ _.
            add_limit_as-IsBook (cancel_open b e) e.1.participant new_id e.1.side qty
              (cancel_open-IsBook b e k v) price small (omega (arith, cancel_open-resting b e k v)))
          (λ _. v)
