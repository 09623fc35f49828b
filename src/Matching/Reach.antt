-- ===== src/Matching/Reach.antt =====
-- The pre-scan `available` and the match of include/pricetime/book.hpp.
use pricetime.Common.{
  ℕ, ◌+◌, ◌≤◌, ◌<◌, ◌≡◌, refl, ap, List, [], ◌∷◌, Bool, true, false, inl, inr, ◌==◌, Bool-cases,
  if◌then◌else◌, arith, u32, length, ℤ, All,
}
use pricetime.Types.{Side}
use pricetime.Level.{Level}
use pricetime.Level.Tally.{IsLevel}
use pricetime.Matching.{Aggressor, Flow, match_level, match_levels, scan_level, available}
use pricetime.Matching.Scan.{match_level_empties, scan_level-Agrees}
use pricetime.Matching.Fills.{filled, match_level-Keeps}

match_levels-done :
    (a : Aggressor) (crosses : ℤ → Bool) (ls : List Level) (f : Flow)
    → f.left ≡ 0
    → match_levels a crosses ls f ≡ (ls, f)
unfolding match_levels
match_levels-done a crosses [] f h = refl
match_levels-done a crosses (l ∷ ls) f h = rw h

match_levels-rest :
    (a : Aggressor) (crosses : ℤ → Bool) (l : Level) (ls : List Level) (f : Flow) (emptied : Bool)
    → f.left ≡ 0
    → (if emptied then match_levels a crosses ls f else (l ∷ ls, f)).1 ≡ f
match_levels-rest a crosses l ls f true h = rw (match_levels-done a crosses ls f h)
match_levels-rest a crosses l ls f false h = refl

module _ (s : Side) (a : Aggressor) (crosses : ℤ → Bool) (need w : ℕ) (small : need < u32) where
  -- The pre-scan agrees with the match. Let the levels be sound and not empty, and let `total`
  -- count what was reached of the uint32 quantity `need`, of which `f.left` is still open. If
  -- the scan of the levels from `total` reaches `need`, the match over them leaves nothing open
  -- and fills all of `f.left`.
  pub available-match_levels :
      (ls : List Level) (f : Flow) (total : ℕ)
      → All (λ l. IsLevel s l × (0 < length l.queue)) ls
      → total + f.left ≡ need
      → filled f.execs + f.left ≡ w
      → 0 < f.left
      → need ≤ available a crosses need ls total
      → ((match_levels a crosses ls f).1.left ≡ 0)
        × (filled (match_levels a crosses ls f).1.execs ≡ w)
  unfolding available match_levels
  available-match_levels [] f total v e d h k = absurd (omega arith)
  available-match_levels (l ∷ ls) f total v e d h k =
      let r = match_level a l.queue l f in
      let scan = scan_level a need l total in
      let agrees = scan_level-Agrees a need w small s l f total v.0.0 e d h in
      let positive : (f.left == 0) ≡ false = ground arith in
      elim (Bool-cases (crosses l.price)) [
        | inr far ↦ absurd (let k' : need ≤ total = rw far at k in omega arith)
        | inl near ↦ elim (Bool-cases scan.1) [
          | inl go ↦
              let (t, fills, some_left) = agrees.goes_on go in
              let gone = match_level_empties a l.queue l f refl some_left in
              let sound = match_level-Keeps s _ a l f (record { level = v.0.0; weighs = refl }) in
              let zero_count : (r.0.order_count == 0) ≡ true =
                ground (arith, sound.level.counted, ap length gone) in
              rw (positive, near, zero_count)
                (available-match_levels ls r.1 scan.0 v.1 t fills some_left (rw (near, go) at k))
          | inr stop ↦
              let done = agrees.completes stop (rw (near, stop) at k) in
              rw
                (
                  positive,
                  near,
                  match_levels-rest a crosses r.0 ls r.1 (r.0.order_count == 0) done.0,
                )
                done
        ]
      ]
