-- ===== src/Level/Tally.antt =====
-- The aggregates of include/pricetime/level.hpp against the queue.
use pricetime.Common.{
  eq_of_some, some, ◌==◌, Bool-cases, inl, inr, eq_of_==, sub_u32, ℕ, ◌+◌, ◌-◌, ◌*◌, ◌≤◌, ◌<◌, ◌≡◌,
  refl, ap, ℤ, List, [], ◌∷◌, ◌++◌, arith, u32, u64, length, All, sum_by, length-append,
  sum_by-append, All-append, subst,
}
use pricetime.Types.{Order, Side}
use pricetime.Level.{
  Level, without, reduced, push_back, find_in, unlink, shrink, remove, reduce, new_level,
}

pub record IsOrder (s : Side) (p : ℤ) (o : Order) : Type 0 where
  pub positive : 0 < o.qty
  pub small : o.qty < u32
  pub priced : o.price ≡ p
  pub sided : o.side ≡ s

abbrev pub open_qty : List Order → ℕ
open_qty = sum_by (λ o. o.qty)

pub open_qty-nil : (os : List Order) → length os ≡ 0 → open_qty os ≡ 0
open_qty-nil [] h = refl
open_qty-nil (o ∷ os) h = absurd (omega arith)

-- The count and the total are those of the queue, and every order belongs to the level.
pub record IsLevel (s : Side) (l : Level) : Type 0 where
  pub counted : l.order_count ≡ length l.queue
  pub totalled : l.total_qty ≡ open_qty l.queue
  pub short : length l.queue < u32
  pub orders : All (IsOrder s l.price) l.queue

module _ (s : Side) (p : ℤ) where
  open_qty_bound :
      (os : List Order) → All (IsOrder s p) os → open_qty os + length os ≤ length os * u32
  open_qty_bound [] h = omega arith
  open_qty_bound (o ∷ os) h = omega (arith, open_qty_bound os h.1)

  -- No total of a level comes near 2 ^ 64.
  pub open_qty-lt :
      (os : List Order) → All (IsOrder s p) os → length os < u32 → open_qty os < u64 - u32
  open_qty-lt os h k = omega (arith, open_qty_bound os h)

module _ {s : Side} (l : Level) (o : Order) (rest : List Order) (e : l.queue ≡ o ∷ rest) where
  pub orders_of_head : IsLevel s l → All (IsOrder s l.price) (o ∷ rest)
  orders_of_head v = subst (All (IsOrder s l.price)) e v.orders

  pub without-IsLevel : IsLevel s l → IsLevel s (without l o.qty rest)
  without-IsLevel v =
      let h = orders_of_head v in
      let bound = open_qty-lt s l.price (o ∷ rest) h (omega (arith, v.short, ap length e)) in
      record {
        counted = omega (arith, v.counted, v.short, ap length e);
        totalled = omega (arith, v.totalled, bound, ap open_qty e);
        short = omega (arith, v.short, ap length e);
        orders = h.1;
      }

  -- A last fill takes all that is left of the order, and then the order goes.
  pub filled-IsLevel :
      (d : ℕ) → d ≡ o.qty → IsLevel s l → IsLevel s (without (reduced l d rest) 0 rest)
  filled-IsLevel d k v =
      let h = orders_of_head v in
      let bound = open_qty-lt s l.price (o ∷ rest) h (omega (arith, v.short, ap length e)) in
      record {
        counted = omega (arith, v.counted, v.short, ap length e);
        totalled = omega (arith, v.totalled, bound, ap open_qty e);
        short = omega (arith, v.short, ap length e);
        orders = h.1;
      }

  pub reduced-IsLevel :
      (d : ℕ)
      → d < o.qty
      → IsLevel s l
      → IsLevel s (reduced l d (record o { qty = o.qty - d } ∷ rest))
  reduced-IsLevel d k v =
      let h = orders_of_head v in
      let bound = open_qty-lt s l.price (o ∷ rest) h (omega (arith, v.short, ap length e)) in
      record {
        counted = omega (arith, v.counted, ap length e);
        totalled = omega (arith, v.totalled, bound, ap open_qty e);
        short = omega (arith, v.short, ap length e);
        orders = (
          record {
            positive = omega arith;
            small = omega (arith, h.0.small);
            priced = h.0.priced;
            sided = h.0.sided;
          },
          h.1,
        );
      }

pub push_back-IsLevel :
    {s : Side} (l : Level) (o : Order)
    → IsOrder s l.price o
    → length l.queue + 1 < u32
    → IsLevel s l
    → IsLevel s (push_back l o)
unfolding push_back
push_back-IsLevel {s} l o h k v =
    let q = l.queue in
    let all = All-append (IsOrder s l.price) q (o ∷ []) v.orders (h, tt) in
    let len = length-append q (o ∷ []) in
    let total = sum_by-append (λ (x : Order). x.qty) q (o ∷ []) in
    record {
      counted = omega (arith, v.counted, len);
      totalled =
          omega (
            arith,
            v.totalled,
            total,
            open_qty-lt s l.price (q ++ o ∷ []) all (omega (arith, len)),
          );
      short = omega (arith, len);
      orders = all;
    }

pub new_level-IsLevel : (s : Side) (p : ℤ) → IsLevel s (new_level p)
new_level-IsLevel s p = record { counted = refl; totalled = refl; short = omega arith; orders = tt }

module _ (s : Side) (p : ℤ) where
  pub find_in-IsOrder :
      (i : ℕ) (os : List Order) (o : Order)
      → find_in i os ≡ some o
      → All (IsOrder s p) os
      → IsOrder s p o × (o.id ≡ i)
  unfolding find_in
  find_in-IsOrder i [] o e h = cc
  find_in-IsOrder i (x ∷ os) o e h = elim (Bool-cases (x.id == i)) [
    | inl here ↦
        let same : x ≡ o = eq_of_some (rw here at e) in
        subst (λ r. IsOrder s p r × (r.id ≡ i)) same (h.0, eq_of_== x.id i here)
    | inr other ↦ find_in-IsOrder i os o (rw other at e) h.1
  ]

  unlink_tally :
      (os : List Order) (o : Order)
      → find_in o.id os ≡ some o
      → All (IsOrder s p) os
      → (length (unlink o.id os) + 1 ≡ length os)
        × (open_qty (unlink o.id os) + o.qty ≡ open_qty os)
        × All (IsOrder s p) (unlink o.id os)
  unfolding find_in unlink
  unlink_tally [] o e h = cc
  unlink_tally (x ∷ os) o e h = elim (Bool-cases (x.id == o.id)) [
    | inl here ↦
        let same : x ≡ o = eq_of_some (rw here at e) in
        rw here (omega arith, omega (arith, ap (λ (r : Order). r.qty) same), h.1)
    | inr other ↦
        let ih = unlink_tally os o (rw other at e) h.1 in
        rw other (omega (arith, ih.0), omega (arith, ih.1), (h.0, ih.2))
  ]

  shrink_tally :
      (d : ℕ) (os : List Order) (o : Order)
      → find_in o.id os ≡ some o
      → d < o.qty
      → All (IsOrder s p) os
      → (length (shrink o.id d os) ≡ length os)
        × (open_qty (shrink o.id d os) + d ≡ open_qty os)
        × All (IsOrder s p) (shrink o.id d os)
  unfolding find_in shrink
  shrink_tally d [] o e k h = cc
  shrink_tally d (x ∷ os) o e k h = elim (Bool-cases (x.id == o.id)) [
    | inl here ↦
        let same : x ≡ o = eq_of_some (rw here at e) in
        let qty = ap (λ (r : Order). r.qty) same in
        let sub : sub_u32 x.qty d ≡ x.qty - d = omega (arith, qty, h.0.small) in
        rw (here, sub)
          (
            refl,
            omega (arith, qty),
            (
              record {
                positive = omega (arith, qty);
                small = omega (arith, h.0.small);
                priced = h.0.priced;
                sided = h.0.sided;
              },
              h.1,
            ),
          )
    | inr other ↦
        let ih = shrink_tally d os o (rw other at e) k h.1 in
        rw other (omega (arith, ih.0), omega (arith, ih.1), (h.0, ih.2))
  ]

pub find_in-length : (i : ℕ) (os : List Order) (o : Order) → find_in i os ≡ some o → 0 < length os
unfolding find_in
find_in-length i [] o e = cc
find_in-length i (x ∷ os) o e = omega arith

-- Removing an order that is there.
pub remove-IsLevel :
    {s : Side} (l : Level) (o : Order)
    → find_in o.id l.queue ≡ some o
    → IsLevel s l
    → IsLevel s (remove l o)
      × (open_qty (remove l o).queue + o.qty ≡ open_qty l.queue)
      × (length (remove l o).queue + 1 ≡ length l.queue)
unfolding remove
remove-IsLevel {s} l o e v =
    let (len, total, all) = unlink_tally s l.price l.queue o e v.orders in
    let bound = open_qty-lt s l.price l.queue v.orders v.short in
    (
      record {
        counted = omega (arith, v.counted, v.short, len);
        totalled = omega (arith, v.totalled, total, bound);
        short = omega (arith, v.short, len);
        orders = all;
      },
      total,
      len,
    )

-- A partial fill keeps the order in its place.
pub reduce-IsLevel :
    {s : Side} (l : Level) (o : Order) (d : ℕ)
    → find_in o.id l.queue ≡ some o
    → d < o.qty
    → IsLevel s l
    → IsLevel s (reduce l o d)
      × (open_qty (reduce l o d).queue + d ≡ open_qty l.queue)
      × (length (reduce l o d).queue ≡ length l.queue)
unfolding reduce
reduce-IsLevel {s} l o d e k v =
    let (len, total, all) = shrink_tally s l.price d l.queue o e k v.orders in
    let bound = open_qty-lt s l.price l.queue v.orders v.short in
    (
      record {
        counted = omega (arith, v.counted, len);
        totalled = omega (arith, v.totalled, total, bound);
        short = omega (arith, v.short, len);
        orders = all;
      },
      total,
      len,
    )
