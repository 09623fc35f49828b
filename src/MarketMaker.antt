-- ===== src/MarketMaker.antt =====
-- include/pricetime/market_maker.hpp: quotes, the accounting of fills, and the search in the history
-- of mids. Where a sum or a product in int64 overflows, which the source leaves undefined, there is
-- no result; `peak_loop` has unbounded sums. The reports in
-- doubles (`markout`, `captured_ticks_per_share`) are not modelled.
pub mod Accounting
pub mod History
use pricetime.Common.{
  ℕ, zero, suc, ◌+◌, ◌-◌, ◌*◌, ◌/◌, ℤ, pos, negsuc, pos_part, neg_part, ◌+ℤ◌, ◌-ℤ◌, ◌*ℤ◌, ltb_ℤ,
  List, [], ◌∷◌, ◌++◌, Bool, true, false, Option, none, some, ltb, leb, if◌then◌else◌, length,
  add_u64, int64, ◌>>=◌,
}
use pricetime.Types.{Side, bid, ask}

pub record FillEvent : Type 0 where
  pub side : Side
  pub price : ℤ
  pub qty : ℕ
  pub timestamp : ℕ
  pub mid_at_fill : ℤ

pub record MarketMakerConfig : Type 0 where
  pub half_spread_ticks : ℤ
  pub quote_size : ℕ
  pub max_position : ℤ
  pub skew_per_100_shares : ℤ

pub record MidPoint : Type 0 where
  pub ts : ℕ
  pub mid : ℤ

pub record MarketMaker : Type 0 where
  pub cfg : MarketMakerConfig
  pub position : ℤ
  pub cash : ℤ
  pub fills : ℕ
  pub volume : ℕ
  pub last_mid : ℤ
  pub last_ts : ℕ
  pub fills_log : List FillEvent
  pub mid_history : List MidPoint

abbrev pub new_market_maker : MarketMakerConfig → MarketMaker
new_market_maker cfg = record {
  cfg = cfg;
  position = pos 0;
  cash = pos 0;
  fills = 0;
  volume = 0;
  last_mid = pos 0;
  last_ts = 0;
  fills_log = [];
  mid_history = [];
}

-- Division of integers, towards zero.
abbrev pub div_100 : ℤ → ℤ
div_100 (pos n) = pos (n / 100)
div_100 (negsuc n) = pos 0 -ℤ pos (suc n / 100)

unfoldable pub skew : MarketMaker → Option ℤ
skew m = do p ← int64 (m.position *ℤ m.cfg.skew_per_100_shares); some (div_100 p)

unfoldable pub bid_quote : MarketMaker → ℤ → Option ℤ
bid_quote m mid = do below ← int64 (mid -ℤ m.cfg.half_spread_ticks); s ← skew m; int64 (below -ℤ s)

unfoldable pub ask_quote : MarketMaker → ℤ → Option ℤ
ask_quote m mid = do above ← int64 (mid +ℤ m.cfg.half_spread_ticks); s ← skew m; int64 (above -ℤ s)

unfoldable pub wants_bid : MarketMaker → Bool
wants_bid m = ltb_ℤ m.position m.cfg.max_position

unfoldable pub wants_ask : MarketMaker → Option Bool
wants_ask m = do least ← int64 (pos 0 -ℤ m.cfg.max_position); some (ltb_ℤ least m.position)

-- A uint32 and its negation are within int64.
unfoldable pub signed_qty : FillEvent → ℤ
signed_qty f = elim f.side [ bid ↦ pos f.qty | ask ↦ pos 0 -ℤ pos f.qty ]

-- The assignments, once both sums are there.
abbrev pub after_fill : MarketMaker → FillEvent → ℤ → ℤ → MarketMaker
after_fill m f cash position = record m {
  cash = cash;
  position = position;
  fills = add_u64 m.fills 1;
  volume = add_u64 m.volume f.qty;
  fills_log = m.fills_log ++ f ∷ [];
}

unfoldable pub on_fill : MarketMaker → FillEvent → Option MarketMaker
on_fill m f = do
  cost ← int64 (signed_qty f *ℤ f.price)
  cash ← int64 (m.cash -ℤ cost)
  position ← int64 (m.position +ℤ signed_qty f)
  some (after_fill m f cash position)

unfoldable pub on_mid : MarketMaker → ℤ → ℕ → MarketMaker
on_mid m mid timestamp = record m {
  last_mid = mid;
  last_ts = timestamp;
  mid_history = m.mid_history ++ record { ts = timestamp; mid = mid } ∷ [];
}

unfoldable pub inventory_value_ticks : MarketMaker → ℤ → Option ℤ
inventory_value_ticks m mark = int64 (m.position *ℤ mark)

unfoldable pub total_pnl_ticks : MarketMaker → ℤ → Option ℤ
total_pnl_ticks m mark = do value ← int64 (m.position *ℤ mark); int64 (m.cash +ℤ value)

abbrev pub abs_ℤ : ℤ → ℤ
abs_ℤ (pos n) = pos n
abs_ℤ (negsuc n) = pos (suc n)

-- The loop of `peak_abs_position` from a peak and a position.
unfoldable pub peak_loop : ℤ → ℤ → List FillEvent → ℤ
peak_loop peak position [] = peak
peak_loop peak position (f ∷ fs) =
    let now = position +ℤ signed_qty f in
    peak_loop (if ltb_ℤ peak (abs_ℤ now) then abs_ℤ now else peak) now fs

unfoldable pub peak_abs_position : MarketMaker → ℤ
peak_abs_position m = peak_loop (pos 0) (pos 0) m.fills_log

abbrev pub mid_at : List MidPoint → ℕ → Option MidPoint
mid_at [] i = none
mid_at (p ∷ ps) zero = some p
mid_at (p ∷ ps) (suc i) = mid_at ps i

-- The timestamp at an index; the search stays within the history.
abbrev pub ts_at : List MidPoint → ℕ → ℕ
ts_at ps i = elim (mid_at ps i) [ none ↦ 0 | some p ↦ p.ts ]

-- The binary search between `lo` and `hi`; `none` means that the fuel ran out.
unfoldable pub search_mid : ℕ → List MidPoint → ℕ → ℕ → ℕ → Option ℕ
search_mid zero ps ts lo hi = none
search_mid (suc fuel) ps ts lo hi =
    let mid_idx = lo + (hi - lo) / 2 in
    let right = search_mid fuel ps ts (mid_idx + 1) hi in
    let left = search_mid fuel ps ts lo mid_idx in
    if leb hi lo then some lo else if ltb (ts_at ps mid_idx) ts then right else left

-- `none` is the source's `kNoMid`.
unfoldable pub mid_at_or_after : MarketMaker → ℕ → Option MidPoint
mid_at_or_after m ts =
    let n = length m.mid_history in
    elim (search_mid (n + 1) m.mid_history ts 0 n) [ none ↦ none | some i ↦ mid_at m.mid_history i ]
