-- ===== src/LadderMap.antt =====
-- include/pricetime/ladder_map.hpp: one side of the tree ladder is the list of its levels in the
-- order of the `std::map`, best first. A `Level*` is named by its side and price.
pub mod Sides
use pricetime.Common.{ℤ, List, [], ◌∷◌, Option, none, some, Bool, ltb_ℤ, eqb_ℤ, ◌==◌, if◌then◌else◌}
use pricetime.Types.{Side, bid, ask, Order}
use pricetime.Level.{Level, new_level, push_back}

-- The map's comparator: `std::greater` on the bids, `std::less` on the asks.
abbrev pub better : Side → ℤ → ℤ → Bool
better bid a b = ltb_ℤ b a
better ask a b = ltb_ℤ a b

-- `try_emplace`: the side with a level at this price.
unfoldable pub get_or_create : Side → ℤ → List Level → List Level
get_or_create s p [] = new_level p ∷ []
get_or_create s p (l ∷ ls) =
    if eqb_ℤ l.price p
    then l ∷ ls
    else if better s p l.price
    then new_level p ∷ l ∷ ls
    else l ∷ get_or_create s p ls

unfoldable pub level_at : ℤ → List Level → Option Level
level_at p [] = none
level_at p (l ∷ ls) = if eqb_ℤ l.price p then some l else level_at p ls

-- What is written through the pointer to the level at a price.
unfoldable pub put_level : ℤ → Level → List Level → List Level
put_level p l' [] = []
put_level p l' (l ∷ ls) = if eqb_ℤ l.price p then l' ∷ ls else l ∷ put_level p l' ls

-- `erase` by key.
unfoldable pub on_level_empty : ℤ → List Level → List Level
on_level_empty p [] = []
on_level_empty p (l ∷ ls) = if eqb_ℤ l.price p then ls else l ∷ on_level_empty p ls

unfoldable pub best : List Level → Option Level
best [] = none
best (l ∷ ls) = some l

-- The order joins the queue of the level at its price.
unfoldable pub rest_in : Side → ℤ → Order → List Level → List Level
rest_in side price o ls =
    let ls' = get_or_create side price ls in
    elim (level_at price ls') [ none ↦ ls' | some l ↦ put_level price (push_back l o) ls' ]

-- The level is written back, or erased when it has emptied.
unfoldable pub settle : Level → List Level → List Level
settle l ls =
    if l.order_count == 0
    then on_level_empty l.price (put_level l.price l ls)
    else put_level l.price l ls
