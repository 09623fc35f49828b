-- ===== src/Matching/Rule.antt =====
-- Invariant rules for the two loops of `match` in include/pricetime/book.hpp.
use pricetime.Common.{
  ◌≡◌, ◌≢◌, List, [], ◌∷◌, Bool, true, false, inl, inr, ◌==◌, Bool-cases, if◌then◌else◌, arith, ℤ,
}
use pricetime.Types.{Order}
use pricetime.Level.{Level}
use pricetime.Matching.{Aggressor, Flow, own, prevent, trade, match_level, match_levels}

-- One turn of the inner loop, whichever kind.
abbrev pub visit : Aggressor → Order → List Order → Level → Flow → (Level × Flow) × Bool
visit a o rest l f = if own a o then prevent a o rest l f else trade a o rest l f

prevent-queue :
    (a : Aggressor) (o : Order) (rest : List Order) (l : Level) (f : Flow)
    → (prevent a o rest l f).1 ≡ true
    → (prevent a o rest l f).0.0.queue ≡ rest
unfolding prevent
prevent-queue a o rest l f e = ground arith

trade-queue :
    (a : Aggressor) (o : Order) (rest : List Order) (l : Level) (f : Flow)
    → (trade a o rest l f).1 ≡ true
    → (trade a o rest l f).0.0.queue ≡ rest
unfolding trade
trade-queue a o rest l f e = ground arith

-- When the loop goes on, the level's queue is what remains.
pub visit-queue :
    (a : Aggressor) (o : Order) (rest : List Order) (l : Level) (f : Flow)
    → (visit a o rest l f).1 ≡ true
    → (visit a o rest l f).0.0.queue ≡ rest
visit-queue a o rest l f e = elim (Bool-cases (own a o)) [
  | inl h ↦ rw h (prevent-queue a o rest l f (rw h at e))
  | inr h ↦ rw h (trade-queue a o rest l f (rw h at e))
]

module _ {κ} (P : Level → Flow → Type κ) (a : Aggressor) where
  -- Both kinds of turn keep `P`.
  pub record Turns : Type κ where
    pub prevents :
        (o : Order) (rest : List Order) (l : Level) (f : Flow)
        → l.queue ≡ o ∷ rest
        → own a o ≡ true
        → P l f
        → P (prevent a o rest l f).0.0 (prevent a o rest l f).0.1
    pub trades :
        (o : Order) (rest : List Order) (l : Level) (f : Flow)
        → l.queue ≡ o ∷ rest
        → own a o ≡ false
        → f.left ≢ 0
        → P l f
        → P (trade a o rest l f).0.0 (trade a o rest l f).0.1

  visit_inv :
      (t : Turns) (o : Order) (rest : List Order) (l : Level) (f : Flow)
      → l.queue ≡ o ∷ rest
      → f.left ≢ 0
      → P l f
      → P (visit a o rest l f).0.0 (visit a o rest l f).0.1
  visit_inv t o rest l f e z p = elim (Bool-cases (own a o)) [
    | inl h ↦ rw h (t.prevents o rest l f e h p)
    | inr h ↦ rw h (t.trades o rest l f e h z p)
  ]

  pub match_level_inv :
      (t : Turns) (os : List Order) (l : Level) (f : Flow)
      → l.queue ≡ os
      → P l f
      → P (match_level a os l f).0 (match_level a os l f).1
  unfolding match_level
  match_level_inv t [] l f e p = p
  match_level_inv t (o ∷ rest) l f e p =
      let v = visit a o rest l f in
      elim (Bool-cases (f.left == 0)) [
        | inl h ↦ rw h p
        | inr h ↦ elim (Bool-cases v.1) [
          | inl go ↦
              rw (h, go)
                (match_level_inv t rest v.0.0 v.0.1 (visit-queue a o rest l f go)
                  (visit_inv t o rest l f e (ground arith) p))
          | inr stop ↦ rw (h, stop) (visit_inv t o rest l f e (ground arith) p)
        ]
      ]

module _ {κ} (Q : List Level → Flow → Type κ) (a : Aggressor) (crosses : ℤ → Bool) where
  -- The invariant of the outer loop speaks of the levels that are left: one that has emptied goes,
  -- and the one where the loop ends is written back. `Q` of the whole follows from both.
  pub record Levels : Type κ where
    pub empties :
        (l : Level) (ls : List Level) (f : Flow)
        → crosses l.price ≡ true
        → let r = match_level a l.queue l f in r.0.order_count ≡ 0 → Q (l ∷ ls) f → Q ls r.1
    pub stays :
        (l : Level) (ls : List Level) (f : Flow)
        → crosses l.price ≡ true
        → let r = match_level a l.queue l f in r.0.order_count ≢ 0 → Q (l ∷ ls) f → Q (r.0 ∷ ls) r.1

  pub match_levels_inv :
      (t : Levels) (ls : List Level) (f : Flow)
      → Q ls f
      → Q (match_levels a crosses ls f).0 (match_levels a crosses ls f).1
  unfolding match_levels
  match_levels_inv t [] f q = q
  match_levels_inv t (l ∷ ls) f q =
      let r = match_level a l.queue l f in
      elim (Bool-cases (f.left == 0)) [
        | inl h ↦ rw h q
        | inr h ↦ elim (Bool-cases (crosses l.price)) [
          | inr c ↦ rw (h, c) q
          | inl c ↦ elim (Bool-cases (r.0.order_count == 0)) [
            | inl z ↦ rw (h, c, z) (match_levels_inv t ls r.1 (t.empties l ls f c (ground arith) q))
            | inr z ↦ rw (h, c, z) (t.stays l ls f c (ground arith) q)
          ]
        ]
      ]
