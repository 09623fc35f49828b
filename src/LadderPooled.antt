-- ===== src/LadderPooled.antt =====
-- include/pricetime/ladder_pooled.hpp: the tree ladder whose emptied nodes are parked and used again. One
-- side is its levels in the order of its `std::map`, best first, and its cache, the last node first.
pub mod Recycling
use pricetime.Common.{
  ℕ, ◌+◌, ℤ, List, [], ◌∷◌, ◌++◌, Option, none, some, Bool, true, false, ltb, eqb_ℤ, if◌then◌else◌,
  length,
}
use pricetime.Types.{Side, bid, ask}
use pricetime.Level.{Level, new_level}
use pricetime.LadderMap.{better, level_at, put_level, on_level_empty}

pub record PooledSide : Type 0 where
  pub levels : List Level
  pub cache : List Level

pub record PooledMapLadder : Type 0 where
  pub bids : PooledSide
  pub asks : PooledSide

-- `kMaxCached`
abbrev pub max_cached : ℕ
max_cached = 4096

-- The levels before `m.lower_bound(p)`, and those from it on.
unfoldable pub before : Side → ℤ → List Level → List Level
before s p [] = []
before s p (l ∷ ls) = if better s l.price p then l ∷ before s p ls else []

unfoldable pub lower_bound : Side → ℤ → List Level → List Level
lower_bound s p [] = []
lower_bound s p (l ∷ ls) = if better s l.price p then lower_bound s p ls else l ∷ ls

abbrev pub holds : ℤ → List Level → Bool
holds p [] = false
holds p (l ∷ ls) = eqb_ℤ l.price p

-- The node for a new level: the last parked one, cleared, or a new one.
abbrev pub node_for : ℤ → List Level → Level
node_for p [] = new_level p
node_for p (nh ∷ nodes) = record nh { price = p; total_qty = 0; order_count = 0; queue = [] }

abbrev pub pop_back : List Level → List Level
pop_back [] = []
pop_back (nh ∷ nodes) = nodes

unfoldable pub get_in : Side → ℤ → PooledSide → PooledSide
get_in s p m =
    let it = lower_bound s p m.levels in
    if holds p it then m else record {
      levels = before s p m.levels ++ node_for p m.cache ∷ it;
      cache = pop_back m.cache;
    }

-- `park`, with the node that `extract` gives.
abbrev pub keep : Option Level → List Level → List Level
keep none cache = cache
keep (some nh) cache = if ltb (length cache) max_cached then nh ∷ cache else cache

unfoldable pub park : ℤ → PooledSide → PooledSide
park p m = record { levels = on_level_empty p m.levels; cache = keep (level_at p m.levels) m.cache }

-- What a caller writes through a `Level*`.
unfoldable pub write_level : ℤ → Level → PooledSide → PooledSide
write_level p l m = record m { levels = put_level p l m.levels }

abbrev pub on_side : Side → (PooledSide → PooledSide) → PooledMapLadder → PooledMapLadder
on_side bid f d = record d { bids = f d.bids }
on_side ask f d = record d { asks = f d.asks }

unfoldable pub get_or_create : Side → ℤ → PooledMapLadder → PooledMapLadder
get_or_create s p d = on_side s (get_in s p) d

unfoldable pub on_empty : Side → ℤ → PooledMapLadder → PooledMapLadder
on_empty s p d = on_side s (park p) d

abbrev pub side_of : Side → PooledMapLadder → PooledSide
side_of bid d = d.bids
side_of ask d = d.asks

abbrev first : List Level → Option Level
first [] = none
first (l ∷ ls) = some l

unfoldable pub best : Side → PooledMapLadder → Option Level
best s d = first (side_of s d).levels

abbrev pub cached_nodes : PooledMapLadder → ℕ
cached_nodes d = length d.bids.cache + length d.asks.cache
