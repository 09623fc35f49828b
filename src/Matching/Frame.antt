-- ===== src/Matching/Frame.antt =====
-- What the matching loop of include/pricetime/book.hpp does not change: prices and two counters.
use pricetime.Common.{
  ℕ, ◌≤◌, ◌≡◌, refl, ap, List, ◌∷◌, Bool, arith, length, ℤ, All, subst, sym, u64, ◌%◌,
}
use pricetime.Types.{Side, Order}
use pricetime.Level.{Level}
use pricetime.LadderMap.Sides.{IsSorted, Beats, IsSide, resting_orders, open_levels}
use pricetime.Matching.{Aggressor, Flow, Counters, prevent, trade, match_level, match_levels}
use pricetime.Matching.Rule.{match_level_inv, match_levels_inv}
use pricetime.Matching.Fills.{match_levels-KeepsAll, weight}

-- The counters that matching does not touch.
pub record SameEntry (c d : Counters) : Type 0 where
  pub added : d.added_qty ≡ c.added_qty
  pub executed : d.executed_qty ≡ c.executed_qty

record Same (p : ℤ) (n m : ℕ) (c : Counters) (l : Level) (f : Flow) : Type 0 where
  price : l.price ≡ p
  room : length l.queue ≤ n
  left : f.left ≤ m
  entry : SameEntry c f.counters

module _ (p : ℤ) (n m : ℕ) (c : Counters) (a : Aggressor) where
  module _ (o : Order) (rest : List Order) (l : Level) (f : Flow) (e : l.queue ≡ o ∷ rest) where
    prevent-Same :
        Same p n m c l f → Same p n m c (prevent a o rest l f).0.0 (prevent a o rest l f).0.1
    unfolding prevent
    prevent-Same k = ground (arith, ap length e)

    trade-Same : Same p n m c l f → Same p n m c (trade a o rest l f).0.0 (trade a o rest l f).0.1
    unfolding trade
    trade-Same k = ground (arith, ap length e)

  match_level-Same :
      (l : Level) (f : Flow)
      → Same p n m c l f
      → Same p n m c (match_level a l.queue l f).0 (match_level a l.queue l f).1
  match_level-Same l f =
      match_level_inv (Same p n m c) a
        (record {
          prevents = λ o rest l' f' e _ k. prevent-Same o rest l' f' e k;
          trades = λ o rest l' f' e _ _ k. trade-Same o rest l' f' e k;
        })
        l.queue l f refl

pub match_level-price :
    (a : Aggressor) (l : Level) (f : Flow) → (match_level a l.queue l f).0.price ≡ l.price
match_level-price a l f =
    (match_level-Same l.price (length l.queue) f.left f.counters a l f (record {
      price = refl;
      room = omega arith;
      left = omega arith;
      entry = record { added = refl; executed = refl };
    })).price

-- A side that only loses levels and orders from a sorted one.
pub record Thins (s : Side) (n m : ℕ) (c : Counters) (ls : List Level) (f : Flow) : Type 0 where
  pub sorted : IsSorted s ls
  pub room : resting_orders ls ≤ n
  pub left : f.left ≤ m
  pub entry : SameEntry c f.counters

match_levels-Thins :
    (s : Side) (n m : ℕ) (c : Counters) (a : Aggressor) (crosses : ℤ → Bool) (ls : List Level)
    (f : Flow)
    → Thins s n m c ls f
    → Thins s n m c (match_levels a crosses ls f).0 (match_levels a crosses ls f).1
match_levels-Thins s n m c a crosses = match_levels_inv (Thins s n m c) a crosses (record {
  empties = λ l ls f _ z t.
      let k =
        match_level-Same l.price (length l.queue) m c a l f
          (record { price = refl; room = omega arith; left = t.left; entry = t.entry }) in
      record { sorted = t.sorted.1; room = omega (arith, t.room); left = k.left; entry = k.entry };
  stays = λ l ls f _ z t.
      let k =
        match_level-Same l.price (length l.queue) m c a l f
          (record { price = refl; room = omega arith; left = t.left; entry = t.entry }) in
      record {
        sorted = (subst (λ p. All (Beats s p) ls) (sym k.price) t.sorted.0, t.sorted.1);
        room = omega (arith, t.room, k.room);
        left = k.left;
        entry = k.entry;
      };
})

-- One walk of a sound side, seen from outside.
pub record Walked (s : Side) (ls : List Level) (f : Flow) (r : List Level × Flow) : Type 0 where
  pub side : IsSide s r.0
  pub weighs : weight (open_levels r.0) r.1 % u64 ≡ weight (open_levels ls) f % u64
  pub room : resting_orders r.0 ≤ resting_orders ls
  pub left : r.1.left ≤ f.left
  pub entry : SameEntry f.counters r.1.counters

pub match_levels-Walked :
    (s : Side) (a : Aggressor) (crosses : ℤ → Bool) (ls : List Level) (f : Flow)
    → IsSide s ls
    → Walked s ls f (match_levels a crosses ls f)
match_levels-Walked s a crosses ls f v =
    let k =
      match_levels-KeepsAll s _ a crosses ls f (record { levels = v.active; weighs = refl }) in
    let t = match_levels-Thins s (resting_orders ls) f.left f.counters a crosses ls f (record {
      sorted = v.sorted;
      room = omega arith;
      left = omega arith;
      entry = record { added = refl; executed = refl };
    }) in
    record {
      side = record { active = k.levels; sorted = t.sorted };
      weighs = k.weighs;
      room = t.room;
      left = t.left;
      entry = t.entry;
    }
