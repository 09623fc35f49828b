-- ===== src/MarketMaker/History.antt =====
-- The search in the mids of include/pricetime/market_maker.hpp.
use pricetime.Common.{
  ℕ, zero, suc, ◌+◌, ◌-◌, ◌/◌, ◌≤◌, ◌<◌, ◌≡◌, refl, List, [], ◌∷◌, Option, none, some, arith,
  length, Bool-cases, inl, inr, ltb, leb,
}
use pricetime.MarketMaker.{MidPoint, MarketMaker, search_mid, mid_at, ts_at, mid_at_or_after}

-- The mids arrived in the order of their times.
abbrev pub IsOrdered : List MidPoint → Type 0
IsOrdered ps = (i j : ℕ) → i ≤ j → j < length ps → ts_at ps i ≤ ts_at ps j

-- `i` splits the history: before it all are earlier than `ts`, from it on none is.
pub record Splits (ps : List MidPoint) (ts i : ℕ) : Type 0 where
  pub within : i ≤ length ps
  pub before : (k : ℕ) → k < i → ts_at ps k < ts
  pub after : (k : ℕ) → i ≤ k → k < length ps → ts ≤ ts_at ps k

search_mid-Splits :
    (fuel : ℕ) (ps : List MidPoint) (ts lo hi : ℕ)
    → IsOrdered ps
    → lo ≤ hi
    → hi ≤ length ps
    → hi - lo < fuel
    → ((k : ℕ) → k < lo → ts_at ps k < ts)
    → ((k : ℕ) → hi ≤ k → k < length ps → ts ≤ ts_at ps k)
    → (i : ℕ) × (search_mid fuel ps ts lo hi ≡ some i) × Splits ps ts i
unfolding search_mid
search_mid-Splits zero ps ts lo hi ord lh hn m before after = absurd (omega arith)
search_mid-Splits (suc fuel) ps ts lo hi ord lh hn m before after =
    let mid = lo + (hi - lo) / 2 in
    elim (Bool-cases (leb hi lo)) [
      | inl done ↦
          let same : hi ≤ lo = ground arith in
          (
            lo,
            rw done,
            record {
              within = omega arith;
              before = before;
              after = λ k a b. after k (omega arith) b;
            },
          )
      | inr more ↦
          let open_range : lo < hi = ground arith in
          elim (Bool-cases (ltb (ts_at ps mid) ts)) [
            | inl early ↦
                let e : ts_at ps mid < ts = ground arith in
                rw (more, early)
                  (search_mid-Splits fuel ps ts (mid + 1) hi ord (omega arith) hn (omega arith)
                    (λ k a. omega (arith, ord k mid (omega arith) (omega arith), e)) after)
            | inr late ↦
                let e : ts ≤ ts_at ps mid = ground arith in
                rw (more, late)
                  (search_mid-Splits fuel ps ts lo mid ord (omega arith) (omega arith) (omega arith)
                    before (λ k a b. omega (arith, ord mid k (omega arith) b, e)))
          ]
    ]

mid_at-some :
    (ps : List MidPoint) (i : ℕ)
    → i < length ps
    → (p : MidPoint) × (mid_at ps i ≡ some p) × (p.ts ≡ ts_at ps i)
mid_at-some [] i h = absurd (omega arith)
mid_at-some (p ∷ ps) zero h = (p, refl, refl)
mid_at-some (p ∷ ps) (suc i) h = mid_at-some ps i (omega arith)

mid_at-none : (ps : List MidPoint) (i : ℕ) → length ps ≤ i → mid_at ps i ≡ none
mid_at-none [] i h = refl
mid_at-none (p ∷ ps) zero h = absurd (omega arith)
mid_at-none (p ∷ ps) (suc i) h = mid_at-none ps i (omega arith)

-- The first mid at or after `ts`, or none where all are earlier.
abbrev pub IsFirst : List MidPoint → ℕ → Option MidPoint → Type 0
IsFirst ps ts none = (k : ℕ) → k < length ps → ts_at ps k < ts
IsFirst ps ts (some p) =
    (i : ℕ) × (mid_at ps i ≡ some p) × (ts ≤ p.ts) × ((k : ℕ) → k < i → ts_at ps k < ts)

-- Over mids that arrived in the order of their times, the binary search returns the first mid at
-- or after `ts`, and no mid exactly when all are earlier.
pub mid_at_or_after-IsFirst :
    (m : MarketMaker) (ts : ℕ)
    → IsOrdered m.mid_history
    → IsFirst m.mid_history ts (mid_at_or_after m ts)
unfolding mid_at_or_after
mid_at_or_after-IsFirst m ts ord =
    let ps = m.mid_history in
    let n = length ps in
    let (i, found, s) =
      search_mid-Splits (n + 1) ps ts 0 n ord (omega arith) (omega arith) (omega arith)
        (λ k h. absurd (omega arith)) (λ k h h'. absurd (omega arith)) in
    elim (Bool-cases (ltb i n)) [
      | inl inside ↦
          let less : i < n = ground arith in
          let (p, there, stamped) = mid_at-some ps i less in
          rw (mid_at_or_after, found, there)
            (i, there, omega (arith, stamped, s.after i (omega arith) less), s.before)
      | inr outside ↦
          let past : n ≤ i = ground arith in
          rw (mid_at_or_after, found, mid_at-none ps i past) (λ k h. s.before k (omega arith))
    ]
