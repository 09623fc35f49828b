-- ===== src/StatsObserver/Lifetimes.antt =====
-- The lifetimes that the observer of src/tools/book_stats.cpp collects.
use pricetime.Common.{
  ℕ, ◌+◌, ◌-◌, ◌≤◌, ◌<◌, ◌^◌, ◌%◌, ◌≡◌, refl, ◌∙◌, subst, List, [], ◌∷◌, ◌++◌, Bool, true, false,
  ◌||◌, inl, inr, Bool-cases, Option, Option-cases, none, some, ltb, ◌==◌, arith, u64, length,
  length-append, sum_by, sum_by-append, All,
}
use pricetime.IdMap.{find}
use pricetime.Symbol.{bits}
use pricetime.Replay.{Event, on_added, on_replaced, on_reduced, on_removed}
use pricetime.StatsObserver.{
  StatsObserver, new_observer, upper_ns, value_or, at_symbol, count_new, add_seen, replace_seen,
  reduce_seen, bump, record_lifetime, if_found, count_removal, remove_seen, observe_event,
  observe_all,
}

abbrev pub total : List ℕ → ℕ
total = sum_by (λ x. x)

-- Every lifetime recorded is in one bucket, and the sum is that of the lifetimes.
pub record IsTallied (o : StatsObserver) (n : ℕ) : Type 0 where
  pub counted : o.lifetime_n ≡ length o.lifetimes
  pub buckets : total o.lifetime_hist ≡ length o.lifetimes
  pub shaped : length o.lifetime_hist ≡ 11
  pub summed : o.lifetime_total ≡ total o.lifetimes % u64
  pub few : length o.lifetimes ≤ n

abbrev has_bucket : ℕ → List ℕ → Bool
has_bucket life [] = false
has_bucket life (u ∷ us) = ltb life u || has_bucket life us

bump-length : (life : ℕ) (us hist : List ℕ) → length (bump life us hist) ≡ length hist
unfolding bump
bump-length life [] hist = refl
bump-length life (u ∷ us) [] = refl
bump-length life (u ∷ us) (h ∷ hist) = ground (arith, bump-length life us hist)

-- One bucket grows by one.
bump-total :
    (life : ℕ) (us hist : List ℕ)
    → has_bucket life us ≡ true
    → length us ≡ length hist
    → total hist + 1 < u64
    → total (bump life us hist) ≡ total hist + 1
unfolding bump
bump-total life [] hist h e small = cc
bump-total life (u ∷ us) [] h e small = absurd (omega (arith, e))
bump-total life (u ∷ us) (c ∷ hist) h e small = elim (Bool-cases (ltb life u)) [
  | inl here ↦ rw here (omega (arith, small))
  | inr there ↦ rw there (
      omega
        (arith, bump-total life us hist (rw there at h) (omega (arith, e)) (omega (arith, small))))
]

has_bucket-upper_ns : (life : ℕ) → life < 2 ^ 48 → has_bucket life upper_ns ≡ true
has_bucket-upper_ns life h = ground (arith, h)

record_lifetime-IsTallied :
    (o : StatsObserver) (life n : ℕ)
    → IsTallied o n
    → n + 2 < u64
    → life < 2 ^ 48
    → IsTallied (record_lifetime o life) (n + 1)
unfolding record_lifetime
record_lifetime-IsTallied o life n v small h =
    let longer : length (o.lifetimes ++ life ∷ []) ≡ length o.lifetimes + 1 =
      length-append o.lifetimes (life ∷ []) ∙ omega arith in
    record {
      counted = omega (arith, v.counted, v.few, small, longer);
      buckets =
          bump-total life upper_ns o.lifetime_hist (has_bucket-upper_ns life h)
            (omega (arith, v.shaped)) (omega (arith, v.buckets, v.few, small))
          ∙ omega (arith, v.buckets, longer);
      shaped = bump-length life upper_ns o.lifetime_hist ∙ v.shaped;
      summed = omega (arith, v.summed, sum_by-append (λ (x : ℕ). x) o.lifetimes (life ∷ []));
      few = omega (arith, v.few, longer);
    }

-- What the lifetimes are is left alone.
record Untouched (o o' : StatsObserver) : Type 0 where
  times : o'.lifetimes ≡ o.lifetimes
  hist : o'.lifetime_hist ≡ o.lifetime_hist
  summed : o'.lifetime_total ≡ o.lifetime_total
  counted : o'.lifetime_n ≡ o.lifetime_n

untouched : (o : StatsObserver) → Untouched o o
untouched o = record { times = refl; hist = refl; summed = refl; counted = refl }

Untouched-IsTallied :
    (o o' : StatsObserver) (n : ℕ) → Untouched o o' → IsTallied o n → IsTallied o' (n + 1)
Untouched-IsTallied o o' n u v = record {
  counted = rw (u.counted, u.times) v.counted;
  buckets = rw (u.hist, u.times) v.buckets;
  shaped = rw u.hist v.shaped;
  summed = rw (u.summed, u.times) v.summed;
  few = rw u.times (omega (arith, v.few));
}

found-Untouched :
    (o : StatsObserver) (found : ℕ → StatsObserver) (x : Option ℕ)
    → ((s : ℕ) → Untouched o (found s))
    → Untouched o (if_found x o found)
found-Untouched o found none h = untouched o
found-Untouched o found (some s) h = h s

count_removal-Untouched : (o : StatsObserver) (id : ℕ) → Untouched o (count_removal o id)
unfolding count_removal at_symbol
count_removal-Untouched o id =
    let u =
      found-Untouched o _ (find o.owner id)
        (λ s. record { times = refl; hist = refl; summed = refl; counted = refl }) in
    record { times = u.times; hist = u.hist; summed = u.summed; counted = u.counted }

reduce_seen-Untouched :
    (o : StatsObserver) (id qty : ℕ) (x : Bool) → Untouched o (reduce_seen o id qty x)
unfolding reduce_seen at_symbol
reduce_seen-Untouched o id qty false = untouched o
reduce_seen-Untouched o id qty true =
    let u =
      found-Untouched o _ (find o.owner id)
        (λ s. record { times = refl; hist = refl; summed = refl; counted = refl }) in
    record { times = u.times; hist = u.hist; summed = u.summed; counted = u.counted }

add_seen-Untouched : (o : StatsObserver) (id s qty ts : ℕ) → Untouched o (add_seen o id s qty ts)
unfolding add_seen at_symbol count_new
add_seen-Untouched o id s qty ts = record {
  times = refl;
  hist = refl;
  summed = refl;
  counted = refl;
}

replace_seen-Untouched :
    (o : StatsObserver) (old_id new_id qty ts : ℕ)
    → Untouched o (replace_seen o old_id new_id qty ts)
unfolding replace_seen at_symbol count_new
replace_seen-Untouched o old_id new_id qty ts =
    elim (Bool-cases (value_or (find o.owner old_id) 0 == 0)) [
      | inl unknown ↦
          rw unknown (record { times = refl; hist = refl; summed = refl; counted = refl })
      | inr known ↦ rw known (record { times = refl; hist = refl; summed = refl; counted = refl })
    ]

remove_seen-IsTallied :
    (o : StatsObserver) (id ts n : ℕ)
    → IsTallied o n
    → n + 2 < u64
    → ts < 2 ^ 48
    → IsTallied (remove_seen o id ts) (n + 1)
unfolding remove_seen
remove_seen-IsTallied o id ts n v small h =
    let o1 = count_removal o id in
    let same = count_removal-Untouched o id in
    elim (Option-cases (find o1.birth id)) [
      | inl unsampled ↦ rw unsampled (Untouched-IsTallied o o1 n same v)
      | inr (born, sampled) ↦ elim (Bool-cases (ltb ts born)) [
        | inl wraps ↦
            let t = Untouched-IsTallied o o1 n same v in
            rw (sampled, wraps)
              (record {
                counted = t.counted;
                buckets = t.buckets;
                shaped = t.shaped;
                summed = t.summed;
                few = t.few;
              })
        | inr later ↦
            let t : IsTallied (record_lifetime o1 (ts - born)) (n + 1) =
              record_lifetime-IsTallied o1 (ts - born) n
                (record {
                  counted = rw (same.counted, same.times) v.counted;
                  buckets = rw (same.hist, same.times) v.buckets;
                  shaped = rw same.hist v.shaped;
                  summed = rw (same.summed, same.times) v.summed;
                  few = rw same.times v.few;
                })
                small (omega (arith, h)) in
            rw (sampled, later)
              (record {
                counted = t.counted;
                buckets = t.buckets;
                shaped = t.shaped;
                summed = t.summed;
                few = t.few;
              })
      ]
    ]

-- The time that an event carries.
abbrev pub time_of : Event → ℕ
time_of (on_added id symbol side price qty ts) = ts
time_of (on_replaced old_id new_id price qty ts) = ts
time_of (on_reduced id qty executed ts) = ts
time_of (on_removed id ts) = ts

observe_event-IsTallied :
    (o : StatsObserver) (e : Event) (n : ℕ)
    → IsTallied o n
    → n + 2 < u64
    → time_of e < 2 ^ 48
    → IsTallied (observe_event o e) (n + 1)
unfolding observe_event
observe_event-IsTallied o (on_added id symbol side price qty ts) n v small h =
    Untouched-IsTallied o _ n (add_seen-Untouched o id (bits symbol) qty ts) v
observe_event-IsTallied o (on_replaced old_id new_id price qty ts) n v small h =
    Untouched-IsTallied o _ n (replace_seen-Untouched o old_id new_id qty ts) v
observe_event-IsTallied o (on_reduced id qty executed ts) n v small h =
    Untouched-IsTallied o _ n (reduce_seen-Untouched o id qty executed) v
observe_event-IsTallied o (on_removed id ts) n v small h = remove_seen-IsTallied o id ts n v small h

observe_all-IsTallied :
    (o : StatsObserver) (es : List Event) (n : ℕ)
    → IsTallied o n
    → n + length es + 1 < u64
    → All (λ e. time_of e < 2 ^ 48) es
    → IsTallied (observe_all o es) (n + length es)
unfolding observe_all
observe_all-IsTallied o [] n v small h = subst (IsTallied o) (omega arith) v
observe_all-IsTallied o (e ∷ es) n v small h =
    subst (IsTallied (observe_all (observe_event o e) es)) (omega arith) (
      observe_all-IsTallied (observe_event o e) es (n + 1)
        (observe_event-IsTallied o e n v (omega (arith, small)) h.0) (omega (arith, small)) h.1)

-- For any calls of the observer with 48-bit timestamps, fewer than 2 ^ 64 - 1 of them: the
-- number of lifetimes is the count kept of them and the sum of the buckets, so each is in
-- exactly one bucket; there are 11 buckets; and the total is the sum of the lifetimes modulo 2 ^
-- 64.
pub observed-IsTallied :
    (es : List Event)
    → length es + 1 < u64
    → All (λ e. time_of e < 2 ^ 48) es
    → IsTallied (observe_all new_observer es) (length es)
observed-IsTallied es small h = subst (IsTallied (observe_all new_observer es)) (omega arith) (
    observe_all-IsTallied new_observer es 0
      (record {
        counted = refl;
        buckets = omega arith;
        shaped = omega arith;
        summed = omega arith;
        few = omega arith;
      })
      (omega (arith, small)) h)
