-- ===== src/Matching/Fills.antt =====
-- Quantities in the matching loop of include/pricetime/book.hpp.
use pricetime.Common.{
  ℕ, ◌+◌, ◌*◌, ◌%◌, ◌≡◌, refl, List, ◌∷◌, Bool, if◌then◌else◌, arith, u64, ltb, ◌<◌, length, sum_by,
  ap, ℤ, All,
}
use pricetime.Types.{Side, Order, Execution}
use pricetime.Level.{Level}
use pricetime.Level.Tally.{
  open_qty, open_qty-nil, IsLevel, without-IsLevel, reduced-IsLevel, filled-IsLevel, orders_of_head,
}
use pricetime.LadderMap.Sides.{open_levels}
use pricetime.Matching.{Aggressor, Flow, prevent, trade, match_level, match_levels}
use pricetime.Matching.Rule.{Turns, Levels, match_level_inv, match_levels_inv}

abbrev pub filled : List Execution → ℕ
filled = sum_by (λ e. e.qty)

-- Every share is still to be matched, resting, traded (on both sides) or canceled.
abbrev pub weight : ℕ → Flow → ℕ
weight resting f = f.left + resting + 2 * f.counters.traded_qty + f.counters.canceled_qty

-- The level stays sound, and no share is lost.
pub record Keeps (s : Side) (w : ℕ) (l : Level) (f : Flow) : Type 0 where
  pub level : IsLevel s l
  pub weighs : weight (open_qty l.queue) f % u64 ≡ w

module _ (s : Side) (w : ℕ) (a : Aggressor) (o : Order) (rest : List Order) (l : Level)
    (f : Flow) where
  module _ (e : l.queue ≡ o ∷ rest) (k : Keeps s w l f) where
    prevent-Keeps : Keeps s w (prevent a o rest l f).0.0 (prevent a o rest l f).0.1
    unfolding prevent
    prevent-Keeps = ground (arith, ap open_qty e, without-IsLevel l o rest e k.level)

    trade-Keeps : Keeps s w (trade a o rest l f).0.0 (trade a o rest l f).0.1
    unfolding trade
    trade-Keeps =
        let fill = if ltb f.left o.qty then f.left else o.qty in
        let gone = filled-IsLevel {s = s} l o rest e fill in
        let shrunk = reduced-IsLevel {s = s} l o rest e fill in
        ground (arith, ap open_qty e, gone, shrunk, k.level, (orders_of_head l o rest e k.level).0)

module _ (s : Side) (w : ℕ) (a : Aggressor) where
  Keeps-turns : Turns (Keeps s w) a
  Keeps-turns = record {
    prevents = λ o rest l f e _ k. prevent-Keeps s w a o rest l f e k;
    trades = λ o rest l f e _ _ k. trade-Keeps s w a o rest l f e k;
  }

  pub match_level-Keeps :
      (l : Level) (f : Flow)
      → Keeps s w l f
      → Keeps s w (match_level a l.queue l f).0 (match_level a l.queue l f).1
  match_level-Keeps l f k = match_level_inv (Keeps s w) a Keeps-turns l.queue l f refl k

-- The whole side: every level is sound and not empty, and no share is lost.
pub record KeepsAll (s : Side) (w : ℕ) (ls : List Level) (f : Flow) : Type 0 where
  pub levels : All (λ l. IsLevel s l × (0 < length l.queue)) ls
  pub weighs : weight (open_levels ls) f % u64 ≡ w

module _ (s : Side) (w : ℕ) (a : Aggressor) (crosses : ℤ → Bool) where
  level_step :
      (l : Level) (ls : List Level) (f : Flow)
      → KeepsAll s w (l ∷ ls) f
      → Keeps s
          (weight (open_qty l.queue) f % u64)
          (match_level a l.queue l f).0
          (match_level a l.queue l f).1
  level_step l ls f k = match_level-Keeps s _ a l f (record { level = k.levels.0.0; weighs = refl })

  KeepsAll-levels : Levels (KeepsAll s w) a crosses
  KeepsAll-levels = record {
    empties = λ l ls f _ z k.
        let r = level_step l ls f k in
        record {
          levels = k.levels.1;
          weighs = omega (
            arith,
            k.weighs,
            r.weighs,
            open_qty-nil (match_level a l.queue l f).0.queue (omega (arith, r.level.counted)),
          );
        };
    stays = λ l ls f _ z k.
        let r = level_step l ls f k in
        record {
          levels = ((r.level, omega (arith, r.level.counted)), k.levels.1);
          weighs = omega (arith, k.weighs, r.weighs);
        };
  }

  pub match_levels-KeepsAll :
      (ls : List Level) (f : Flow)
      → KeepsAll s w ls f
      → KeepsAll s w (match_levels a crosses ls f).0 (match_levels a crosses ls f).1
  match_levels-KeepsAll = match_levels_inv (KeepsAll s w) a crosses KeepsAll-levels
