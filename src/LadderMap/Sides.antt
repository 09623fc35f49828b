-- ===== src/LadderMap/Sides.antt =====
-- One side of include/pricetime/ladder_map.hpp: its order, its levels and its open quantity.
use pricetime.Common.{
  eq_of_some, ℕ, ◌+◌, ◌≤◌, ◌<◌, ◌≡◌, ◌≢◌, refl, ap, List, [], ◌∷◌, true, false, inl, inr, ◌==◌,
  Bool-cases, if◌then◌else◌, arith, u32, length, sum_by, ℤ, All, All-map, some, eqb_ℤ, eq_of_eqb_ℤ,
  length-append, sum_by-append, subst, sym,
}
use pricetime.Types.{Side, bid, ask, Order}
use pricetime.Level.{Level, push_back, new_level}
use pricetime.Level.Tally.{
  open_qty, open_qty-nil, IsOrder, IsLevel, push_back-IsLevel, new_level-IsLevel,
}
use pricetime.LadderMap.{
  better, get_or_create, level_at, put_level, on_level_empty, rest_in, settle,
}

abbrev pub open_levels : List Level → ℕ
open_levels = sum_by (λ l. open_qty l.queue)

abbrev pub resting_orders : List Level → ℕ
resting_orders = sum_by (λ l. length l.queue)

-- Every level is sound and holds an order.
abbrev pub IsActive : Side → Level → Type 0
IsActive s l = IsLevel s l × (0 < length l.queue)

abbrev pub Beats : Side → ℤ → Level → Type 0
Beats s p m = better s p m.price ≡ true

-- Strictly from the best price to the worst.
abbrev pub IsSorted : Side → List Level → Type 0
IsSorted s [] = Unit
IsSorted s (l ∷ ls) = All (Beats s l.price) ls × IsSorted s ls

pub record IsSide (s : Side) (ls : List Level) : Type 0 where
  pub active : All (IsActive s) ls
  pub sorted : IsSorted s ls

better_trans :
    (s : Side) (p q r : ℤ) → better s p q ≡ true → better s q r ≡ true → better s p r ≡ true
better_trans bid p q r h k = ground arith
better_trans ask p q r h k = ground arith

better_of_worse :
    (s : Side) (p q : ℤ) → eqb_ℤ q p ≡ false → better s p q ≡ false → better s q p ≡ true
better_of_worse bid p q h k = ground arith
better_of_worse ask p q h k = ground arith

-- `rest_in` in one walk.
unfoldable pub place : Side → ℤ → Order → List Level → List Level
place s p o [] = push_back (new_level p) o ∷ []
place s p o (l ∷ ls) =
    if eqb_ℤ l.price p
    then push_back l o ∷ ls
    else if better s p l.price
    then push_back (new_level p) o ∷ l ∷ ls
    else l ∷ place s p o ls

pub rest_in-place :
    (s : Side) (p : ℤ) (o : Order) (ls : List Level) → rest_in s p o ls ≡ place s p o ls
unfolding rest_in place get_or_create level_at put_level
rest_in-place s p o [] = ground arith
rest_in-place s p o (l ∷ ls) = ground (arith, rest_in-place s p o ls)

module _ (s : Side) (o : Order) where
  private_head : (p : ℤ) → IsOrder s p o → IsActive s (push_back (new_level p) o)
  unfolding push_back
  private_head p h =
      (push_back-IsLevel (new_level p) o h (omega arith) (new_level-IsLevel s p), omega arith)

  -- The price of a level does not change under its queue.
  push_back-price : (l : Level) → (push_back l o).price ≡ l.price
  unfolding push_back
  push_back-price l = refl

  push_back-length : (l : Level) → length (push_back l o).queue ≡ length l.queue + 1
  unfolding push_back
  push_back-length l = omega (arith, length-append l.queue (o ∷ []))

  push_back-open : (l : Level) → open_qty (push_back l o).queue ≡ open_qty l.queue + o.qty
  unfolding push_back
  push_back-open l = omega (arith, sum_by-append (λ (x : Order). x.qty) l.queue (o ∷ []))

  place-open : (p : ℤ) (ls : List Level) → open_levels (place s p o ls) ≡ open_levels ls + o.qty
  unfolding place
  place-open p [] = omega (arith, push_back-open (new_level p))
  place-open p (l ∷ ls) =
      ground (arith, place-open p ls, push_back-open l, push_back-open (new_level p))

  place-orders : (p : ℤ) (ls : List Level) → resting_orders (place s p o ls) ≡ resting_orders ls + 1
  unfolding place
  place-orders p [] = omega (arith, push_back-length (new_level p))
  place-orders p (l ∷ ls) =
      ground (arith, place-orders p ls, push_back-length l, push_back-length (new_level p))

  pub rest_in-orders :
      (p : ℤ) (ls : List Level) → resting_orders (rest_in s p o ls) ≡ resting_orders ls + 1
  rest_in-orders p ls = rw (rest_in-place s p o ls) (place-orders p ls)

  pub place-All :
      {Q : Level → Type 0} (p : ℤ) (ls : List Level)
      → All Q ls
      → Q (push_back (new_level p) o)
      → ((l : Level) → l.price ≡ p → Q l → length l.queue ≤ resting_orders ls → Q (push_back l o))
      → All Q (place s p o ls)
  unfolding place
  place-All p [] h k f = (k, tt)
  place-All p (l ∷ ls) h k f = elim (Bool-cases (eqb_ℤ l.price p)) [
    | inl here ↦ rw here (f l (eq_of_eqb_ℤ l.price p here) h.0 (omega arith), h.1)
    | inr other ↦ elim (Bool-cases (better s p l.price)) [
      | inl above ↦ rw (other, above) (k, h)
      | inr below ↦
          rw (other, below) (h.0, place-All p ls h.1 k (λ l' e q b. f l' e q (omega (arith, b))))
    ]
  ]

  place-IsSorted : (p : ℤ) (ls : List Level) → IsSorted s ls → IsSorted s (place s p o ls)
  unfolding place push_back
  place-IsSorted p [] h = (tt, tt)
  place-IsSorted p (l ∷ ls) h = elim (Bool-cases (eqb_ℤ l.price p)) [
    | inl here ↦ rw (here, push_back-price) h
    | inr other ↦ elim (Bool-cases (better s p l.price)) [
      | inl above ↦
          rw (other, above, push_back-price)
            ((above, All-map ls (λ m b. better_trans s p l.price m.price above b) h.0), h)
      | inr below ↦
          let after = better_of_worse s p l.price other below in
          rw (other, below)
            (
              place-All p ls h.0 (rw push_back-price after) (λ l' e q b. rw push_back-price q),
              place-IsSorted p ls h.1,
            )
    ]
  ]

  -- What holds of every price on the side, and of the order's, holds on the side with the order.
  pub rest_in-prices :
      (Q : ℤ → Type 0) (p : ℤ) (ls : List Level)
      → Q p
      → All (λ l. Q l.price) ls
      → All (λ l. Q l.price) (rest_in s p o ls)
  unfolding push_back
  rest_in-prices Q p ls k h = rw (rest_in-place s p o ls) (place-All p ls h k (λ l e q b. q))

  -- A new order leaves the side sorted and sound, and adds its quantity.
  pub rest_in-IsSide :
      (p : ℤ) (ls : List Level)
      → IsOrder s p o
      → resting_orders ls + 1 < u32
      → IsSide s ls
      → IsSide s (rest_in s p o ls) × (open_levels (rest_in s p o ls) ≡ open_levels ls + o.qty)
  rest_in-IsSide p ls h room v = rw (rest_in-place s p o ls) (
    record {
      active = place-All p ls v.active (private_head p h) (λ l e q b. (
        push_back-IsLevel l o (subst (λ r. IsOrder s r o) (sym e) h) (omega (arith, b)) q.0,
        omega (arith, push_back-length l),
      ));
      sorted = place-IsSorted p ls v.sorted;
    },
    place-open p ls,
  )

-- `settle` in one walk.
unfoldable pub swap_in : ℤ → Level → List Level → List Level
swap_in p l' [] = []
swap_in p l' (l ∷ ls) =
    if eqb_ℤ l.price p then (if l'.order_count == 0 then ls else l' ∷ ls) else l ∷ swap_in p l' ls

pub settle-swap_in : (l' : Level) (ls : List Level) → settle l' ls ≡ swap_in l'.price l' ls
unfolding settle swap_in put_level on_level_empty
settle-swap_in l' [] = ground arith
settle-swap_in l' (l ∷ ls) = ground (arith, settle-swap_in l' ls)

module _ (s : Side) (l' : Level) where
  pub swap_in-All :
      {Q : Level → Type 0} (p : ℤ) (ls : List Level)
      → All Q ls
      → ((l : Level) → l.price ≡ p → Q l → l'.order_count ≢ 0 → Q l')
      → All Q (swap_in p l' ls)
  unfolding swap_in
  swap_in-All p [] h f = tt
  swap_in-All p (l ∷ ls) h f = elim (Bool-cases (eqb_ℤ l.price p)) [
    | inr other ↦ rw other (h.0, swap_in-All p ls h.1 f)
    | inl here ↦ elim (Bool-cases (l'.order_count == 0)) [
      | inl gone ↦ rw (here, gone) h.1
      | inr stays ↦ rw (here, stays) (f l (eq_of_eqb_ℤ l.price p here) h.0 (ground arith), h.1)
    ]
  ]

  -- What holds of every price on the side holds after a level was written back.
  pub settle-prices :
      (Q : ℤ → Type 0) (ls : List Level)
      → All (λ l. Q l.price) ls
      → All (λ l. Q l.price) (settle l' ls)
  settle-prices Q ls h =
      rw (settle-swap_in l' ls) (swap_in-All l'.price ls h (λ l e q _. subst Q e q))

  swap_in-IsSorted : (ls : List Level) → IsSorted s ls → IsSorted s (swap_in l'.price l' ls)
  unfolding swap_in
  swap_in-IsSorted [] h = tt
  swap_in-IsSorted (l ∷ ls) h = elim (Bool-cases (eqb_ℤ l.price l'.price)) [
    | inr other ↦ rw other (
      swap_in-All l'.price ls h.0 (λ m e q _. subst (λ r. better s l.price r ≡ true) e q),
      swap_in-IsSorted ls h.1,
    )
    | inl here ↦ elim (Bool-cases (l'.order_count == 0)) [
      | inl gone ↦ rw (here, gone) h.1
      | inr stays ↦
          let same = eq_of_eqb_ℤ l.price l'.price here in
          rw (here, stays) (subst (λ r. All (Beats s r) ls) same h.0, h.1)
    ]
  ]

  swap_in-sums :
      (l : Level) (p : ℤ) (ls : List Level)
      → level_at p ls ≡ some l
      → l'.order_count ≡ length l'.queue
      → (open_levels (swap_in p l' ls) + open_qty l.queue ≡ open_levels ls + open_qty l'.queue)
        × (resting_orders (swap_in p l' ls) + length l.queue ≡ resting_orders ls + length l'.queue)
  unfolding swap_in level_at
  swap_in-sums l p [] e c = cc
  swap_in-sums l p (x ∷ ls) e c = elim (Bool-cases (eqb_ℤ x.price p)) [
    | inr other ↦
        let ih = swap_in-sums l p ls (rw other at e) c in
        rw other (omega (arith, ih.0), omega (arith, ih.1))
    | inl here ↦
        let same : x ≡ l = eq_of_some (rw here at e) in
        let qty = ap (λ (r : Level). open_qty r.queue) same in
        let len = ap (λ (r : Level). length r.queue) same in
        elim (Bool-cases (l'.order_count == 0)) [
          | inl gone ↦
              let zero_len : length l'.queue ≡ 0 = ground arith in
              rw (here, gone)
                (omega (arith, qty, open_qty-nil l'.queue zero_len), omega (arith, len, zero_len))
          | inr stays ↦ rw (here, stays) (omega (arith, qty), omega (arith, len))
        ]
  ]

  -- Writing a level back leaves the side sorted and sound, and changes the sums by the level's.
  pub settle-IsSide :
      (l : Level) (ls : List Level)
      → level_at l'.price ls ≡ some l
      → IsLevel s l'
      → IsSide s ls
      → IsSide s (settle l' ls)
        × (open_levels (settle l' ls) + open_qty l.queue ≡ open_levels ls + open_qty l'.queue)
        × (resting_orders (settle l' ls) + length l.queue ≡ resting_orders ls + length l'.queue)
  settle-IsSide l ls e v side =
      let sums = swap_in-sums l l'.price ls e v.counted in
      rw (settle-swap_in l' ls) (
        record {
          active = swap_in-All l'.price ls side.active (λ m _ _ n. (v, omega (arith, v.counted)));
          sorted = swap_in-IsSorted ls side.sorted;
        },
        sums.0,
        sums.1,
      )

-- A level that is found has its price, and what all levels have.
pub level_at-All :
    (Q : Level → Type 0) (p : ℤ) (l : Level) (ls : List Level)
    → level_at p ls ≡ some l
    → All Q ls
    → Q l × (l.price ≡ p)
unfolding level_at
level_at-All Q p l [] e h = cc
level_at-All Q p l (x ∷ ls) e h = elim (Bool-cases (eqb_ℤ x.price p)) [
  | inr other ↦ level_at-All Q p l ls (rw other at e) h.1
  | inl here ↦
      let same : x ≡ l = eq_of_some (rw here at e) in
      subst (λ r. Q r × (r.price ≡ p)) same (h.0, eq_of_eqb_ℤ x.price p here)
]
