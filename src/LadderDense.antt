-- ===== src/LadderDense.antt =====
-- include/pricetime/ladder_dense.hpp: a level for each price in a range. A `Level*` is its index. The
-- scans for the next active level have fuel; `none` means that they left the array.
pub mod Scan
use pricetime.Common.{
  ℕ, zero, suc, ◌+◌, ◌-◌, ℤ, pos, pos_part, ◌-ℤ◌, ◌+ℤ◌, leb_ℤ, List, [], ◌∷◌, ◌++◌, Bool, true,
  false, ◌&&◌, ◌||◌, Option, none, some, ltb, ◌==◌, if◌then◌else◌, length, get_or, set, replicate,
  sub_u32, add_u32,
}
use pricetime.Types.{Side, bid, ask}
use pricetime.Level.{Level, new_level}

pub record SideLadder : Type 0 where
  pub levels : List Level
  pub best : Option ℕ
  pub active_levels : ℕ

pub record DenseLadder : Type 0 where
  pub min_price : ℤ
  pub max_price : ℤ
  pub bids : SideLadder
  pub asks : SideLadder

abbrev pub new_side : ℕ → SideLadder
new_side span = record {
  levels = replicate span (new_level (pos 0));
  best = none;
  active_levels = 0;
}

unfoldable pub new_ladder : ℤ → ℤ → DenseLadder
new_ladder lo hi =
    let span = pos_part (hi -ℤ lo +ℤ pos 1) in
    record { min_price = lo; max_price = hi; bids = new_side span; asks = new_side span }

unfoldable pub valid_price : DenseLadder → ℤ → Bool
valid_price d p = leb_ℤ d.min_price p && leb_ℤ p d.max_price

abbrev pub level_of : SideLadder → ℕ → Level
level_of sl i = get_or sl.levels i (new_level (pos 0))

-- The index comparison: a higher bid, a lower ask.
abbrev pub better_index : Side → ℕ → ℕ → Bool
better_index bid a b = ltb b a
better_index ask a b = ltb a b

abbrev improved : Side → ℕ → Option ℕ → Option ℕ
improved s idx none = some idx
improved s idx (some b) = if better_index s idx b then some idx else some b

-- `get_or_create` on one side, for a valid price at an index.
unfoldable pub activate : Side → ℕ → ℤ → SideLadder → SideLadder
activate s idx p sl =
    let lvl = level_of sl idx in
    if lvl.order_count == 0
    then record {
      levels = set sl.levels idx (record lvl { price = p });
      best = improved s idx sl.best;
      active_levels = add_u32 sl.active_levels 1;
    }
    else sl

-- The scan towards worse bids: `--i` until a level is active.
unfoldable pub scan_down : List Level → ℕ → Option ℕ
scan_down ls zero = none
scan_down ls (suc i) =
    let further = scan_down ls i in
    if (get_or ls i (new_level (pos 0))).order_count == 0 then further else some i

-- The scan towards worse asks: `++i` until a level is active.
unfoldable pub scan_up : ℕ → List Level → ℕ → Option ℕ
scan_up zero ls i = none
scan_up (suc fuel) ls i =
    let further = scan_up fuel ls (i + 1) in
    if (get_or ls (i + 1) (new_level (pos 0))).order_count == 0 then further else some (i + 1)

abbrev next_active : Side → List Level → ℕ → Option ℕ
next_active bid ls i = scan_down ls i
next_active ask ls i = scan_up (length ls - 1 - i) ls i

-- `on_level_empty` on one side; the outer `none` is a scan that left the array.
unfoldable pub deactivate : Side → ℕ → SideLadder → Option SideLadder
unfolding scan_down scan_up
deactivate s idx sl =
    let active = sub_u32 sl.active_levels 1 in
    if active == 0 then some (record sl { best = none; active_levels = active }) else elim sl.best [
      | none ↦ some (record sl { active_levels = active })
      | some b ↦
          if idx == b
          then elim (next_active s sl.levels b) [
            | none ↦ none
            | some i ↦ some (record sl { best = some i; active_levels = active })
          ]
          else some (record sl { active_levels = active })
    ]

unfoldable pub best_level : SideLadder → Option Level
best_level sl = elim sl.best [ none ↦ none | some i ↦ some (level_of sl i) ]
