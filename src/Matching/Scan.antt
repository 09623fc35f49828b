-- ===== src/Matching/Scan.antt =====
-- The pre-scan of one level in `available` of include/pricetime/book.hpp.
use pricetime.Common.{
  ℕ, ◌+◌, ◌-◌, ◌≤◌, ◌<◌, ◌≡◌, refl, sym, ◌∙◌, ap, List, [], ◌∷◌, Bool, true, false, inl, inr, ltb,
  ◌==◌, Bool-cases, if◌then◌else◌, arith, u32, sum_by-append, All, All-map, add_u64,
}
use pricetime.Types.{Side, Order, Execution}
use pricetime.Level.{Level}
use pricetime.Level.Tally.{open_qty, open_qty-lt, IsOrder, IsLevel}
use pricetime.Matching.{
  Aggressor, Flow, own, prevent, trade, match_level, scan_queue, scan_level, stp_on, stops_at_own,
}
use pricetime.Matching.Rule.{visit, visit-queue}
use pricetime.Matching.Fills.{filled}

match_level-done :
    (a : Aggressor) (os : List Order) (l : Level) (f : Flow)
    → f.left ≡ 0
    → match_level a os l f ≡ (l, f)
unfolding match_level
match_level-done a [] l f h = refl
match_level-done a (o ∷ os) l f h = rw h

visit_stops :
    (a : Aggressor) (o : Order) (rest : List Order) (l : Level) (f : Flow)
    → (visit a o rest l f).1 ≡ false
    → (visit a o rest l f).0.1.left ≡ 0
unfolding prevent trade
visit_stops a o rest l f e = ground arith

-- A level at which the aggressor is not finished has emptied.
pub match_level_empties :
    (a : Aggressor) (os : List Order) (l : Level) (f : Flow)
    → l.queue ≡ os
    → 0 < (match_level a os l f).1.left
    → (match_level a os l f).0.queue ≡ []
unfolding match_level
match_level_empties a [] l f e h = e
match_level_empties a (o ∷ rest) l f e h =
    let v = visit a o rest l f in
    elim (Bool-cases (f.left == 0)) [
      | inl z ↦ absurd (
          let h' : 0 < f.left = rw z at h in
          omega (arith, (let e : f.left ≡ 0 = ground arith in e)))
      | inr z ↦ elim (Bool-cases v.1) [
        | inl go ↦
            rw (z, go)
              (match_level_empties a rest v.0.0 v.0.1 (visit-queue a o rest l f go)
                (rw (z, go) at h))
        | inr stop ↦ absurd (
            let h' : 0 < v.0.1.left = rw (z, stop) at h in
            omega (arith, visit_stops a o rest l f stop))
      ]
    ]

abbrev fill_qty : Execution → ℕ
fill_qty e = e.qty

module _ (a : Aggressor) (o : Order) (rest : List Order) (l : Level) (f : Flow) where
  -- An own order that does not stop the aggressor is passed over.
  visit_skips :
      own a o ≡ true
      → stops_at_own a.policy ≡ false
      → ((visit a o rest l f).1 ≡ true)
        × ((visit a o rest l f).0.1.left ≡ f.left)
        × ((visit a o rest l f).0.1.execs ≡ f.execs)
  unfolding prevent own
  visit_skips h k = ground arith

  abbrev new_fill : ℕ → Execution
  new_fill q = record { resting_id = o.id; aggressor_id = a.id; price = l.price; qty = q }

  -- A foreign order that is no larger is taken whole.
  visit_takes :
      own a o ≡ false
      → o.qty ≤ f.left
      → ((visit a o rest l f).1 ≡ true)
        × ((visit a o rest l f).0.1.left + o.qty ≡ f.left)
        × (filled (visit a o rest l f).0.1.execs ≡ filled f.execs + o.qty)
  unfolding trade
  visit_takes h k = ground (arith, sum_by-append fill_qty f.execs (new_fill o.qty ∷ []))

  -- A foreign order that is no smaller ends the match.
  visit_finishes :
      own a o ≡ false
      → f.left ≤ o.qty
      → ((visit a o rest l f).0.1.left ≡ 0)
        × (filled (visit a o rest l f).0.1.execs ≡ filled f.execs + f.left)
  unfolding trade
  visit_finishes h k = ground (
    arith,
    sum_by-append fill_qty f.execs (new_fill o.qty ∷ []),
    sum_by-append fill_qty f.execs (new_fill f.left ∷ []),
  )

-- The scan of one level agrees with the match of it: if it goes on, the match takes what was
-- counted, and if it stops with enough, the match is complete. `w` is what was filled or left.
pub record Agrees (need w : ℕ) (scan : ℕ × Bool) (r : Level × Flow) : Type 0 where
  pub goes_on :
      scan.1 ≡ true
      → (scan.0 + r.1.left ≡ need) × (filled r.1.execs + r.1.left ≡ w) × (0 < r.1.left)
  pub completes : scan.1 ≡ false → need ≤ scan.0 → (r.1.left ≡ 0) × (filled r.1.execs ≡ w)

-- Once nothing is left the loop ends, whatever the turn said.
match_level-rest :
    (a : Aggressor) (os : List Order) (l : Level) (f : Flow) (go : Bool)
    → f.left ≡ 0
    → (if go then match_level a os l f else (l, f)) ≡ (l, f)
match_level-rest a os l f true h = match_level-done a os l f h
match_level-rest a os l f false h = refl

own_participant :
    (a : Aggressor) (o : Order) → stp_on a ≡ true → own a o ≡ (o.participant == a.actor)
unfolding own
own_participant a o on = ground arith

module _ (a : Aggressor) (need w : ℕ) (small : need < u32) where
  module _ (on : stp_on a ≡ true) where
    scan_queue-Agrees :
        (os : List Order) (l : Level) (f : Flow) (total : ℕ)
        → All (λ o. o.qty < u32) os
        → total + f.left ≡ need
        → filled f.execs + f.left ≡ w
        → 0 < f.left
        → Agrees need w (scan_queue a need os total) (match_level a os l f)
    unfolding scan_queue match_level
    scan_queue-Agrees [] l f total q e d h = record {
      goes_on = λ g. (e, d, h);
      completes = λ g. cc;
    }
    scan_queue-Agrees (o ∷ os) l f total q e d h =
        let v = visit a o os l f in
        let positive : (f.left == 0) ≡ false = ground arith in
        let whose = own_participant a o on in
        elim (Bool-cases (own a o)) [
          | inl mine ↦
              let same : (o.participant == a.actor) ≡ true = sym whose ∙ mine in
              elim (Bool-cases (stops_at_own a.policy)) [
                | inl stops ↦
                    rw (same, stops)
                      (record { goes_on = λ g. cc; completes = λ g k. absurd (omega arith) })
                | inr on_by ↦
                    let (go, left, execs) = visit_skips a o os l f mine on_by in
                    rw (same, on_by, positive, go)
                      (scan_queue-Agrees os v.0.0 v.0.1 total q.1 (omega (arith, left))
                        (omega (arith, left, ap filled execs)) (omega (arith, left)))
              ]
          | inr theirs ↦
              let other : (o.participant == a.actor) ≡ false = sym whose ∙ theirs in
              elim (Bool-cases (ltb (add_u64 total o.qty) need)) [
                | inl more ↦
                    let fits : (o.qty < f.left) × (add_u64 total o.qty ≡ total + o.qty) =
                      (ground arith, ground arith) in
                    let (go, left, fill) = visit_takes a o os l f theirs (omega (arith, fits.0)) in
                    rw (other, more, positive, go)
                      (scan_queue-Agrees os v.0.0 v.0.1 (add_u64 total o.qty) q.1
                        (omega (arith, left, fits.1)) (omega (arith, left, fill))
                        (omega (arith, left, fits.0)))
                | inr enough ↦
                    let full : (f.left ≤ o.qty) × (add_u64 total o.qty ≡ total + o.qty) =
                      (ground arith, ground arith) in
                    let (left, fill) = visit_finishes a o os l f theirs full.0 in
                    rw (other, enough, positive, match_level-rest a os v.0.0 v.0.1 v.1 left)
                      (record { goes_on = λ g. cc; completes = λ g k. (left, fill ∙ d) })
              ]
        ]

  module _ (off : stp_on a ≡ false) where
    never_own : (o : Order) → own a o ≡ false
    unfolding own
    never_own o = rw off

    -- Without prevention the match of a level takes all of it, or finishes.
    match_level-plain :
        (os : List Order) (l : Level) (f : Flow)
        → filled f.execs + f.left ≡ w
        → (filled (match_level a os l f).1.execs + (match_level a os l f).1.left ≡ w)
          × ((match_level a os l f).1.left ≡ f.left - open_qty os)
    unfolding match_level
    match_level-plain [] l f d = (d, omega arith)
    match_level-plain (o ∷ os) l f d =
        let v = visit a o os l f in
        elim (Bool-cases (f.left == 0)) [
          | inl z ↦ rw z (d, ground arith)
          | inr z ↦ elim (Bool-cases (ltb f.left o.qty)) [
            | inl big ↦
                let (left, fill) = visit_finishes a o os l f (never_own o) (ground arith) in
                rw (z, match_level-rest a os v.0.0 v.0.1 v.1 left)
                  (
                    omega (arith, left, fill),
                    (let k : f.left < o.qty = ground arith in omega (arith, left)),
                  )
            | inr fits ↦
                let (go, left, fill) = visit_takes a o os l f (never_own o) (ground arith) in
                let ih = match_level-plain os v.0.0 v.0.1 (omega (arith, left, fill)) in
                rw (z, go) (ih.0, omega (arith, ih.1, left))
          ]
        ]

  -- The pre-scan of a sound level agrees with its match, with prevention and without.
  pub scan_level-Agrees :
      (s : Side) (l : Level) (f : Flow) (total : ℕ)
      → IsLevel s l
      → total + f.left ≡ need
      → filled f.execs + f.left ≡ w
      → 0 < f.left
      → Agrees need w (scan_level a need l total) (match_level a l.queue l f)
  unfolding scan_level
  scan_level-Agrees s l f total v e d h = elim (Bool-cases (stp_on a)) [
    | inl on ↦
        let small_orders = All-map l.queue (λ o (p : IsOrder s l.price o). p.small) v.orders in
        rw on (scan_queue-Agrees on l.queue l f total small_orders e d h)
    | inr off ↦
        let r = match_level-plain off l.queue l f d in
        let sum : add_u64 total l.total_qty ≡ total + open_qty l.queue =
          omega (arith, v.totalled, open_qty-lt s l.price l.queue v.orders v.short) in
        rw (off, sum)
          (record {
            goes_on = λ g.
                let k : total + open_qty l.queue < need = ground arith in
                (omega (arith, r.1), r.0, omega (arith, r.1));
            completes = λ g k. (omega (arith, r.1), omega (arith, r.0, r.1));
          })
  ]
