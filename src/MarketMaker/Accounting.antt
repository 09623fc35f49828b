-- ===== src/MarketMaker/Accounting.antt =====
-- Position and profit of include/pricetime/market_maker.hpp.
use pricetime.Common.{
  ℕ, ◌+◌, ◌*◌, ◌^◌, ◌<◌, u32, some, Within, int64-Within, +ℤ-Within, -ℤ-Within, *ℤ-Within, ◌>>=◌,
  Option, Option-cases, none, int64, eq_of_int64, eq_of_some, ◌≡◌, refl, ap, sym, ◌∙◌, ℤ, pos, ◌+ℤ◌,
  ◌-ℤ◌, ◌*ℤ◌, ◌≤ℤ◌, ltb_ℤ, List, [], ◌∷◌, ◌++◌, inl, inr, arith, int_laws, *ℤ_add_right,
  *ℤ_sub_left, Bool-cases, subst,
}
use pricetime.Types.{Side, bid, ask}
use pricetime.MarketMaker.{
  MarketMaker, FillEvent, after_fill, on_fill, signed_qty, total_pnl_ticks, peak_loop,
  peak_abs_position, abs_ℤ,
}

-- What the machine's numbers have room for in one fill.
pub record IsModest (m : MarketMaker) (f : FillEvent) (mark : ℤ) : Type 0 where
  pub qty : f.qty < u32
  pub price : Within (2 ^ 28) f.price
  pub marked : Within (2 ^ 28) mark
  pub position : Within (2 ^ 33) m.position
  pub cash : Within (2 ^ 61) m.cash

qty-Within :
    (side : Side) (n : ℕ) → n < u32 → Within u32 (elim side [ bid ↦ pos n | ask ↦ pos 0 -ℤ pos n ])
qty-Within bid n h = (omega arith, omega arith)
qty-Within ask n h =
    let sold =
      -ℤ-Within 0 n (pos 0) (pos n) (omega arith, omega arith) (omega arith, omega arith) in
    (omega (arith, sold.0), omega (arith, sold.1))

signed_qty-Within : (f : FillEvent) → f.qty < u32 → Within u32 (signed_qty f)
unfolding signed_qty
signed_qty-Within f h = qty-Within f.side f.qty h

fill_cash-fill_position :
    (cash position q price mark : ℤ)
    → cash -ℤ q *ℤ price +ℤ (position +ℤ q) *ℤ mark
      ≡ cash +ℤ position *ℤ mark +ℤ q *ℤ (mark -ℤ price)
fill_cash-fill_position cash position q price mark =
    rw (*ℤ_add_right position q mark, *ℤ_sub_left q mark price) (omega int_laws)

-- For a fill of a uint32 quantity, its price and the mark of size at most 2 ^ 28, a position of
-- size at most 2 ^ 33 and cash of size at most 2 ^ 61, nothing overflows int64: the fill and the
-- marked profit before and after it have results, and the profit changes by the signed quantity
-- times the distance of the price from the mark.
pub total_pnl-on_fill :
    (m : MarketMaker) (f : FillEvent) (mark : ℤ)
    → IsModest m f mark
    → (m' : MarketMaker) × (v : ℤ) × (v' : ℤ) × (on_fill m f ≡ some m')
      × (total_pnl_ticks m mark ≡ some v)
      × (total_pnl_ticks m' mark ≡ some v')
      × (v' ≡ v +ℤ signed_qty f *ℤ (mark -ℤ f.price))
unfolding total_pnl_ticks on_fill
total_pnl-on_fill m f mark h =
    let q = signed_qty f in
    let small = signed_qty-Within f h.qty in
    let cost = *ℤ-Within u32 (2 ^ 28) q f.price small h.price in
    let cash = -ℤ-Within (2 ^ 61) (2 ^ 60) m.cash (q *ℤ f.price) h.cash cost in
    let position = +ℤ-Within (2 ^ 33) u32 m.position q h.position small in
    let before = *ℤ-Within (2 ^ 33) (2 ^ 28) m.position mark h.position h.marked in
    let total = +ℤ-Within (2 ^ 61) (2 ^ 61) m.cash (m.position *ℤ mark) h.cash before in
    let later = *ℤ-Within (2 ^ 33 + u32) (2 ^ 28) (m.position +ℤ q) mark position h.marked in
    let total' =
      +ℤ-Within (2 ^ 61 + 2 ^ 60) ((2 ^ 33 + u32) * 2 ^ 28) (m.cash -ℤ q *ℤ f.price)
        ((m.position +ℤ q) *ℤ mark) cash later in
    let fits = int64-Within in
    (
      after_fill m f (m.cash -ℤ q *ℤ f.price) (m.position +ℤ q),
      m.cash +ℤ m.position *ℤ mark,
      m.cash -ℤ q *ℤ f.price +ℤ (m.position +ℤ q) *ℤ mark,
      rw (fits _ _ cost (omega arith), fits _ _ cash (omega arith), fits _ _ position (omega arith))
          refl,
      rw (fits _ _ before (omega arith)) (fits _ _ total (omega arith)),
      rw (fits _ _ later (omega arith)) (fits _ _ total' (omega arith)),
      fill_cash-fill_position m.cash m.position q f.price mark,
    )

-- The fold of the signed quantities from a position.
abbrev pub position_after : ℤ → List FillEvent → ℤ
position_after p [] = p
position_after p (f ∷ fs) = position_after (p +ℤ signed_qty f) fs

position_after-append :
    (p : ℤ) (fs gs : List FillEvent)
    → position_after p (fs ++ gs) ≡ position_after (position_after p fs) gs
position_after-append p [] gs = refl
position_after-append p (f ∷ fs) gs = position_after-append (p +ℤ signed_qty f) fs gs

-- The position is always that of the logged fills.
abbrev pub IsLogged : MarketMaker → Type 0
IsLogged m = m.position ≡ position_after (pos 0) m.fills_log

settled :
    (m m' : MarketMaker) (f : FillEvent) (cash position : Option ℤ)
    → (cash >>= λ c. position >>= λ p. some (after_fill m f c p)) ≡ some m'
    → (c : ℤ) × (p : ℤ) × (position ≡ some p) × (after_fill m f c p ≡ m')
settled m m' f none position e = absurd (cc)
settled m m' f (some c) none e = absurd (cc)
settled m m' f (some c) (some p) e = (c, p, refl, eq_of_some e)

pub on_fill-IsLogged :
    (m m' : MarketMaker) (f : FillEvent) → on_fill m f ≡ some m' → IsLogged m → IsLogged m'
unfolding on_fill
on_fill-IsLogged m m' f e h =
    let q = signed_qty f in
    elim (Option-cases (int64 (q *ℤ f.price))) [
      | inl over ↦ absurd (let z = rw over at e in cc)
      | inr (cost, priced) ↦
          let (c, p, counted, made) =
            settled m m' f (int64 (m.cash -ℤ cost)) (int64 (m.position +ℤ q)) (rw priced at e) in
          let moved = eq_of_int64 (m.position +ℤ q) counted in
          subst IsLogged made
            (moved ∙ ap (λ r. r +ℤ q) h ∙ sym (position_after-append (pos 0) m.fills_log (f ∷ [])))
    ]

peak_loop_bound :
    (peak p : ℤ) (fs : List FillEvent)
    → abs_ℤ p ≤ℤ peak
    → (abs_ℤ (position_after p fs) ≤ℤ peak_loop peak p fs) × (peak ≤ℤ peak_loop peak p fs)
unfolding peak_loop
peak_loop_bound peak p [] h = (h, omega arith)
peak_loop_bound peak p (f ∷ fs) h =
    let now = p +ℤ signed_qty f in
    elim (Bool-cases (ltb_ℤ peak (abs_ℤ now))) [
      | inl more ↦
          let e : peak ≤ℤ abs_ℤ now = ground arith in
          let ih = peak_loop_bound (abs_ℤ now) now fs (omega arith) in
          rw more (ih.0, omega (arith, ih.1, e))
      | inr less ↦
          let e : abs_ℤ now ≤ℤ peak = ground arith in rw less (peak_loop_bound peak now fs e)
    ]

-- Where the position is that of the logged fills, the reported peak is at least the size of the
-- position.
pub position-le-peak : (m : MarketMaker) → IsLogged m → abs_ℤ m.position ≤ℤ peak_abs_position m
unfolding peak_abs_position
position-le-peak m h =
    subst (λ p. abs_ℤ p ≤ℤ peak_loop (pos 0) (pos 0) m.fills_log) (sym h)
      (peak_loop_bound (pos 0) (pos 0) m.fills_log (omega arith)).0
