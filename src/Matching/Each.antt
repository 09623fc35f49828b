-- ===== src/Matching/Each.antt =====
-- What the matching loop of include/pricetime/book.hpp keeps of every resting order, whatever its
-- quantity, and so of every order that it reports an execution of.
use pricetime.Common.{
  ℕ, ◌≡◌, refl, subst, List, [], ◌∷◌, Bool, inl, inr, Bool-cases, if◌then◌else◌, ltb, ◌-◌, ◌==◌, ℤ,
  All, All-append,
}
use pricetime.Types.{Order, Execution}
use pricetime.Level.{Level}
use pricetime.Matching.{
  Aggressor, Flow, prevent, trade, match_level, match_levels, kills_resting, kills_aggressor,
}
use pricetime.Matching.Rule.{match_level_inv, match_levels_inv}

-- Every order of every level.
abbrev pub Each : (Order → Type 0) → List Level → Type 0
Each P ls = All (λ l. All P l.queue) ls

-- The quantity of the order does not matter to `P`, and `R` follows of its id.
pub record IsLasting (P : Order → Type 0) (R : ℕ → Type 0) : Type 0 where
  pub shrinks : (o : Order) (q : ℕ) → P o → P (record o { qty = q })
  pub names : (o : Order) → P o → R o.id

module _ (P : Order → Type 0) (R : ℕ → Type 0) (lasting : IsLasting P R) (a : Aggressor) where
  -- The orders of a level, and those that were executed.
  record Holds (l : Level) (f : Flow) : Type 0 where
    rests : All P l.queue
    fills : All (λ x. R x.resting_id) f.execs

  module _ (o : Order) (rest : List Order) (l : Level) (f : Flow) (e : l.queue ≡ o ∷ rest)
      (h : Holds l f) where
    orders : P o × All P rest
    orders = subst (All P) e h.rests

    prevent-Holds : Holds (prevent a o rest l f).0.0 (prevent a o rest l f).0.1
    unfolding prevent
    prevent-Holds = elim (Bool-cases (kills_resting a.policy)) [
      | inl drops ↦ elim (Bool-cases (kills_aggressor a.policy)) [
        | inl stops ↦ rw (drops, stops) (record { rests = orders.1; fills = h.fills })
        | inr goes ↦ rw (drops, goes) (record { rests = orders.1; fills = h.fills })
      ]
      | inr keeps ↦ elim (Bool-cases (kills_aggressor a.policy)) [
        | inl stops ↦ rw (keeps, stops) (record { rests = h.rests; fills = h.fills })
        | inr goes ↦ rw (keeps, goes) (record { rests = h.rests; fills = h.fills })
      ]
    ]

    trade-Holds : Holds (trade a o rest l f).0.0 (trade a o rest l f).0.1
    unfolding trade
    trade-Holds =
        let fill : ℕ = if ltb f.left o.qty then f.left else o.qty in
        let x : Execution = record {
          resting_id = o.id;
          aggressor_id = a.id;
          price = l.price;
          qty = fill;
        } in
        let fills =
          All-append (λ (y : Execution). R y.resting_id) f.execs (x ∷ []) h.fills
            (lasting.names o orders.0, tt) in
        elim (Bool-cases (o.qty - fill == 0)) [
          | inl gone ↦ rw gone (record { rests = orders.1; fills = fills })
          | inr part ↦ rw part (record {
            rests = (lasting.shrinks o (o.qty - fill) orders.0, orders.1);
            fills = fills;
          })
        ]

  match_level-Holds :
      (l : Level) (f : Flow)
      → Holds l f
      → Holds (match_level a l.queue l f).0 (match_level a l.queue l f).1
  match_level-Holds l f =
      match_level_inv Holds a
        (record {
          prevents = λ o rest l' f' e _ h. prevent-Holds o rest l' f' e h;
          trades = λ o rest l' f' e _ _ h. trade-Holds o rest l' f' e h;
        })
        l.queue l f refl

  pub record HoldsAll (ls : List Level) (f : Flow) : Type 0 where
    pub rests : Each P ls
    pub fills : All (λ x. R x.resting_id) f.execs

  pub match_levels-HoldsAll :
      (crosses : ℤ → Bool) (ls : List Level) (f : Flow)
      → HoldsAll ls f
      → HoldsAll (match_levels a crosses ls f).0 (match_levels a crosses ls f).1
  match_levels-HoldsAll crosses = match_levels_inv HoldsAll a crosses (record {
    empties = λ l ls f _ z h.
        let k = match_level-Holds l f (record { rests = h.rests.0; fills = h.fills }) in
        record { rests = h.rests.1; fills = k.fills };
    stays = λ l ls f _ z h.
        let k = match_level-Holds l f (record { rests = h.rests.0; fills = h.fills }) in
        record { rests = (k.rests, h.rests.1); fills = k.fills };
  })
