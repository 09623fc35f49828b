-- ===== src/Matching/Prices.antt =====
-- Prices and counterparties in the matching loop of include/pricetime/book.hpp.
use pricetime.Common.{
  ℕ, ◌<◌, ◌≡◌, refl, ap, List, [], ◌∷◌, ◌++◌, Bool, true, false, inl, inr, ltb, ◌==◌, Bool-cases,
  if◌then◌else◌, arith, length, ℤ, All, All-append, ◌-◌, subst,
}
use pricetime.Types.{Side, Order, Execution}
use pricetime.Level.{Level}
use pricetime.Level.Tally.{IsLevel}
use pricetime.Matching.{Aggressor, Flow, own, prevent, trade, match_level, match_levels}
use pricetime.Matching.Scan.{match_level_empties}
use pricetime.Matching.Fills.{match_level-Keeps}
use pricetime.Matching.Rule.{match_level_inv, match_levels_inv}

-- An execution of this aggressor, at a price that its limit crosses, against one of the orders
-- that `Foreign` names.
pub record IsFill (a : Aggressor) (crosses : ℤ → Bool) (Foreign : ℕ → Type 0) (e : Execution)
    : Type 0 where
  pub by : e.aggressor_id ≡ a.id
  pub within : crosses e.price ≡ true
  pub some_shares : 0 < e.qty
  pub against : Foreign e.resting_id

module _ (a : Aggressor) (crosses : ℤ → Bool) (Foreign : ℕ → Type 0) where
  -- A resting order that the aggressor may trade with.
  pub record IsTarget (o : Order) : Type 0 where
    pub positive : 0 < o.qty
    pub foreign : own a o ≡ false → Foreign o.id

  -- What one level keeps: its price, its orders, and fills within the limit.
  record Priced (p : ℤ) (l : Level) (f : Flow) : Type 0 where
    price : l.price ≡ p
    targets : All IsTarget l.queue
    fills : All (IsFill a crosses Foreign) f.execs

  module _ (p : ℤ) (o : Order) (rest : List Order) (l : Level) (f : Flow)
      (e : l.queue ≡ o ∷ rest) where
    head_targets : Priced p l f → IsTarget o × All IsTarget rest
    head_targets k = subst (All IsTarget) e k.targets

    prevent-Priced : Priced p l f → Priced p (prevent a o rest l f).0.0 (prevent a o rest l f).0.1
    unfolding prevent
    prevent-Priced k = ground (arith, (head_targets k).1)

    report-IsFill :
        (q : ℕ)
        → crosses p ≡ true
        → own a o ≡ false
        → 0 < q
        → Priced p l f
        → All (IsFill a crosses Foreign) (
            f.execs
            ++ record { resting_id = o.id; aggressor_id = a.id; price = l.price; qty = q } ∷ [])
    report-IsFill q c theirs h k =
        let r : Execution = record {
          resting_id = o.id;
          aggressor_id = a.id;
          price = l.price;
          qty = q;
        } in
        All-append (IsFill a crosses Foreign) f.execs (r ∷ []) k.fills (
          record {
            by = refl;
            within = rw k.price c;
            some_shares = h;
            against = (head_targets k).0.foreign theirs;
          },
          tt,
        )

    trade-Priced :
        crosses p ≡ true
        → own a o ≡ false
        → 0 < f.left
        → Priced p l f
        → Priced p (trade a o rest l f).0.0 (trade a o rest l f).0.1
    unfolding trade own
    trade-Priced c theirs h k =
        let (target, others) = head_targets k in
        let fill = if ltb f.left o.qty then f.left else o.qty in
        let positive : 0 < fill = ground (arith, target.positive) in
        let fills = report-IsFill fill c theirs positive k in
        elim (Bool-cases (o.qty - fill == 0)) [
          | inl gone ↦ rw gone (record { price = k.price; targets = others; fills = fills })
          | inr some_left ↦ rw some_left (record {
            price = k.price;
            targets = (record { positive = ground arith; foreign = target.foreign }, others);
            fills = fills;
          })
        ]

  match_level-Priced :
      (l : Level) (f : Flow)
      → crosses l.price ≡ true
      → All IsTarget l.queue
      → All (IsFill a crosses Foreign) f.execs
      → Priced l.price (match_level a l.queue l f).0 (match_level a l.queue l f).1
  match_level-Priced l f c t k =
      match_level_inv (Priced l.price) a
        (record {
          prevents = λ o rest l' f' e _ q. prevent-Priced l.price o rest l' f' e q;
          trades = λ o rest l' f' e theirs z q.
              trade-Priced l.price o rest l' f' e c theirs (omega arith) q;
        })
        l.queue l f refl (record { price = refl; targets = t; fills = k })

  record PricedAll (ls : List Level) (f : Flow) : Type 0 where
    targets : All (λ l. All IsTarget l.queue) ls
    fills : All (IsFill a crosses Foreign) f.execs

  -- Whatever the walk meets, it reports only fills within the limit and with foreign orders.
  pub match_levels-IsFill :
      (ls : List Level) (f : Flow)
      → All (λ l. All IsTarget l.queue) ls
      → All (IsFill a crosses Foreign) f.execs
      → All (IsFill a crosses Foreign) (match_levels a crosses ls f).1.execs
  match_levels-IsFill ls f t k =
      let r =
        match_levels_inv PricedAll a crosses
          (record {
            empties = λ l ls' f' c _ q.
                let p = match_level-Priced l f' c q.targets.0 q.fills in
                record { targets = q.targets.1; fills = p.fills };
            stays = λ l ls' f' c _ q.
                let p = match_level-Priced l f' c q.targets.0 q.fills in
                record { targets = (p.targets, q.targets.1); fills = p.fills };
          })
          ls f (record { targets = t; fills = k }) in
      r.fills

-- The best level is out of reach, if there is one.
abbrev pub Blocked : (ℤ → Bool) → List Level → Type 0
Blocked crosses [] = Unit
Blocked crosses (l ∷ ls) = crosses l.price ≡ false

module _ (s : Side) (a : Aggressor) (crosses : ℤ → Bool) where
  -- A match over sound levels that are not empty ends with some quantity open only if no level
  -- is left or the best one left is out of the aggressor's reach.
  pub match_levels-Blocked :
      (ls : List Level) (f : Flow)
      → All (λ l. IsLevel s l × (0 < length l.queue)) ls
      → 0 < (match_levels a crosses ls f).1.left
      → Blocked crosses (match_levels a crosses ls f).0
  unfolding match_levels
  match_levels-Blocked [] f v h = tt
  match_levels-Blocked (l ∷ ls) f v h =
      let r = match_level a l.queue l f in
      elim (Bool-cases (f.left == 0)) [
        | inl z ↦ absurd (let h' : 0 < f.left = rw z at h in ground arith)
        | inr z ↦ elim (Bool-cases (crosses l.price)) [
          | inr far ↦ rw (z, far) far
          | inl near ↦ elim (Bool-cases (r.0.order_count == 0)) [
            | inl gone ↦
                rw (z, near, gone) (match_levels-Blocked ls r.1 v.1 (rw (z, near, gone) at h))
            | inr stays ↦
                let some_left : 0 < r.1.left = rw (z, near, stays) at h in
                let emptied = match_level_empties a l.queue l f refl some_left in
                let sound = match_level-Keeps s _ a l f (record { level = v.0.0; weighs = refl }) in
                absurd (let c = sound.level.counted in ground (arith, ap length emptied))
          ]
        ]
      ]
