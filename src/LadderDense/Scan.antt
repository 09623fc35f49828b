-- ===== src/LadderDense/Scan.antt =====
-- The downward scan of include/pricetime/ladder_dense.hpp.
use pricetime.Common.{
  ℕ, zero, suc, ◌≤◌, ◌<◌, ◌≡◌, ◌≢◌, pos, List, some, arith, get_or, Bool-cases, inl, inr, ◌==◌,
}
use pricetime.Level.{Level, new_level}
use pricetime.LadderDense.{scan_down}

abbrev pub count_at : List Level → ℕ → ℕ
count_at ls i = (get_or ls i (new_level (pos 0))).order_count

-- If there is an active level below index `i`, the scan down from `i` ends at the highest one.
pub scan_down-nearest :
    (ls : List Level) (i j : ℕ)
    → j < i
    → count_at ls j ≢ 0
    → (k : ℕ) × (scan_down ls i ≡ some k)
      × (j ≤ k)
      × (k < i)
      × (count_at ls k ≢ 0)
      × ((m : ℕ) → k < m → m < i → count_at ls m ≡ 0)
unfolding scan_down
scan_down-nearest ls zero j h a = absurd (omega arith)
scan_down-nearest ls (suc i) j h a = elim (Bool-cases (count_at ls i == 0)) [
  | inr active ↦
      (i, rw active, omega arith, omega arith, ground arith, λ m x y. absurd (omega arith))
  | inl empty ↦
      let none_here : count_at ls i ≡ 0 = ground arith in
      let lower : j < i = elim (Bool-cases (j == i)) [
        | inl same ↦ absurd (a (let e : j ≡ i = ground arith in rw e none_here))
        | inr other ↦ ground arith
      ] in
      let (k, found, above, below, active, gap) = scan_down-nearest ls i j lower a in
      (
        k,
        rw empty found,
        above,
        omega arith,
        active,
        λ m x y. elim (Bool-cases (m == i)) [
          | inl same ↦ (let e : m ≡ i = ground arith in rw e none_here)
          | inr other ↦ gap m x (ground arith)
        ],
      )
]
