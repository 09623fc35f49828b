-- ===== src/Tests/Tools.antt =====
-- The properties of the tracker of a queue position, the market maker and the dense ladder at
-- concrete states.
use pricetime.Common.{
  ℕ, zero, suc, ◌≤◌, ◌<◌, ◌≡◌, ◌≢◌, refl, none, int64, ℤ, negsuc, pos, ◌+ℤ◌, ◌-ℤ◌, ◌*ℤ◌, ◌≤ℤ◌, List,
  [], ◌∷◌, true, some, arith,
}
use pricetime.Types.{bid}
use pricetime.Level.{Level, new_level}
use pricetime.LadderDense.{scan_down}
use pricetime.LadderDense.Scan.{count_at, scan_down-nearest}
use pricetime.QueuePosition.{
  QueuePosition, idle, place, on_shares_removed, IsTracked, place-IsTracked,
  on_shares_removed-IsTracked,
}
use pricetime.MarketMaker.{
  MarketMaker, FillEvent, new_market_maker, on_fill, after_fill, total_pnl_ticks, signed_qty,
  peak_abs_position, abs_ℤ, mid_at_or_after,
}
use pricetime.MarketMaker.Accounting.{
  IsModest, total_pnl-on_fill, on_fill-IsLogged, position-le-peak,
}
use pricetime.MarketMaker.History.{IsOrdered, IsFirst, mid_at_or_after-IsFirst}

place-IsTracked_example : IsTracked (place idle (pos 10) bid 100 ((4, 30) ∷ (5, 70) ∷ []))
place-IsTracked_example =
    place-IsTracked idle (pos 10) bid 100 ((4, 30) ∷ (5, 70) ∷ []) (omega arith)
      (omega arith, (omega arith, tt))

abbrev queued : QueuePosition
queued = record {
  price = pos 10;
  side = bid;
  remaining = 100;
  shares_ahead = 100;
  ahead = (4, 30) ∷ (5, 70) ∷ [];
  active = true;
}

queued-IsTracked : IsTracked queued
queued-IsTracked = record {
  counted = refl;
  small = omega arith;
  positive = (omega arith, (omega arith, tt));
}

on_shares_removed-IsTracked_example :
    IsTracked (on_shares_removed queued 5 20) × ((on_shares_removed queued 5 20).shares_ahead ≤ 100)
on_shares_removed-IsTracked_example = on_shares_removed-IsTracked queued 5 20 queued-IsTracked

abbrev maker : MarketMaker
maker = new_market_maker (record {
  half_spread_ticks = pos 2;
  quote_size = 100;
  max_position = pos 1000;
  skew_per_100_shares = pos 1;
})

abbrev bought : FillEvent
bought = record { side = bid; price = pos 98; qty = 100; timestamp = 5; mid_at_fill = pos 100 }

bought-IsModest : IsModest maker bought (pos 101)
bought-IsModest = record {
  qty = omega arith;
  price = (omega arith, omega arith);
  marked = (omega arith, omega arith);
  position = (omega arith, omega arith);
  cash = (omega arith, omega arith);
}

total_pnl-on_fill_example :
    (m' : MarketMaker) × (v : ℤ) × (v' : ℤ) × (on_fill maker bought ≡ some m')
    × (total_pnl_ticks maker (pos 101) ≡ some v)
    × (total_pnl_ticks m' (pos 101) ≡ some v')
    × (v' ≡ v +ℤ signed_qty bought *ℤ (pos 101 -ℤ pos 98))
total_pnl-on_fill_example = total_pnl-on_fill maker bought (pos 101) bought-IsModest

abbrev filled_maker : MarketMaker
filled_maker = after_fill maker bought (negsuc 9799) (pos 100)

bought-after_fill : on_fill maker bought ≡ some filled_maker
unfolding on_fill signed_qty int64 ◌+ℤ◌ ◌-ℤ◌ ◌*ℤ◌
bought-after_fill = refl

position-le-peak_example : abs_ℤ filled_maker.position ≤ℤ peak_abs_position filled_maker
position-le-peak_example =
    position-le-peak filled_maker
      (on_fill-IsLogged maker filled_maker bought bought-after_fill refl)

-- A purchase at a price near the top of int64 overflows.
abbrev priced_high : FillEvent
priced_high = record bought { price = pos 9223372036854775807 }

overflow-on_fill : on_fill maker priced_high ≡ none
unfolding on_fill signed_qty int64 ◌*ℤ◌
overflow-on_fill = refl

abbrev quoted_maker : MarketMaker
quoted_maker = record maker {
  mid_history = record { ts = 3; mid = pos 100 } ∷ record { ts = 8; mid = pos 102 } ∷ [];
}

quoted_maker-IsOrdered : IsOrdered quoted_maker.mid_history
quoted_maker-IsOrdered zero zero h k = omega arith
quoted_maker-IsOrdered zero (suc zero) h k = omega arith
quoted_maker-IsOrdered (suc zero) zero h k = absurd (omega arith)
quoted_maker-IsOrdered (suc zero) (suc zero) h k = omega arith
quoted_maker-IsOrdered zero (suc (suc j)) h k = absurd (omega arith)
quoted_maker-IsOrdered (suc zero) (suc (suc j)) h k = absurd (omega arith)
quoted_maker-IsOrdered (suc (suc i)) j h k = absurd (omega arith)

mid_at_or_after-IsFirst_example :
    IsFirst quoted_maker.mid_history 5 (mid_at_or_after quoted_maker 5)
mid_at_or_after-IsFirst_example = mid_at_or_after-IsFirst quoted_maker 5 quoted_maker-IsOrdered

abbrev slots : List Level
slots = record (new_level (pos 7)) { order_count = 1 } ∷ new_level (pos 8) ∷ new_level (pos 9) ∷ []

scan_down-nearest_example :
    (k : ℕ) × (scan_down slots 2 ≡ some k)
    × (0 ≤ k)
    × (k < 2)
    × (count_at slots k ≢ 0)
    × ((m : ℕ) → k < m → m < 2 → count_at slots m ≡ 0)
scan_down-nearest_example =
    scan_down-nearest slots 2 0 (omega arith) (λ h. absurd (omega (arith, h)))
