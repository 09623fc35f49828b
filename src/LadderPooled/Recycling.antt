-- ===== src/LadderPooled/Recycling.antt =====
-- The side of include/pricetime/ladder_pooled.hpp against the side of include/pricetime/ladder_map.hpp.
use pricetime.Common.{
  ◌≤◌, ◌≡◌, refl, ap, ◌∙◌, List, [], ◌∷◌, ◌++◌, Option, none, some, Bool, true, false, Bool-cases,
  inl, inr, eqb_ℤ, if◌then◌else◌, length, ℤ, arith,
}
use pricetime.Types.{Side, bid, ask}
use pricetime.Level.{Level, new_level}
use pricetime.LadderMap
use pricetime.LadderMap.{better, level_at, put_level, on_level_empty}
use pricetime.LadderPooled.{
  PooledSide, max_cached, before, lower_bound, holds, node_for, pop_back, get_in, keep, park,
  write_level,
}

-- What is done to a side.
pub data Operation : Type 0 where
  create : ℤ → Operation
  write : ℤ → Level → Operation
  empty : ℤ → Operation

abbrev pub on_pooled : Side → Operation → PooledSide → PooledSide
on_pooled s (create p) m = get_in s p m
on_pooled s (write p l) m = write_level p l m
on_pooled s (empty p) m = park p m

abbrev pub on_map : Side → Operation → List Level → List Level
on_map s (create p) ls = LadderMap.get_or_create s p ls
on_map s (write p l) ls = put_level p l ls
on_map s (empty p) ls = on_level_empty p ls

abbrev pub run_pooled : Side → List Operation → PooledSide → PooledSide
run_pooled s [] m = m
run_pooled s (o ∷ os) m = run_pooled s os (on_pooled s o m)

abbrev pub run_map : Side → List Operation → List Level → List Level
run_map s [] ls = ls
run_map s (o ∷ os) ls = run_map s os (on_map s o ls)

node_for-new : (p : ℤ) (cache : List Level) → node_for p cache ≡ new_level p
node_for-new p [] = refl
node_for-new p (nh ∷ nodes) = refl

worse_or_same :
    (s : Side) (p q : ℤ) → better s q p ≡ false → eqb_ℤ q p ≡ false → better s p q ≡ true
worse_or_same bid p q h k = ground arith
worse_or_same ask p q h k = ground arith

not_better_same :
    (s : Side) (p q : ℤ) → better s q p ≡ true → (eqb_ℤ q p ≡ false) × (better s p q ≡ false)
not_better_same bid p q h = (ground arith, ground arith)
not_better_same ask p q h = (ground arith, ground arith)

spliced : Side → ℤ → List Level → List Level
spliced s p ls =
    let it = lower_bound s p ls in if holds p it then ls else before s p ls ++ new_level p ∷ it

if-cons :
    (b : Bool) (l : Level) (xs ys : List Level)
    → (if b then l ∷ xs else l ∷ ys) ≡ l ∷ (if b then xs else ys)
if-cons true l xs ys = refl
if-cons false l xs ys = refl

if-levels :
    (b : Bool) (m m' : PooledSide)
    → (if b then m else m').levels ≡ (if b then m.levels else m'.levels)
if-levels true m m' = refl
if-levels false m m' = refl

get_or_create-splice :
    (s : Side) (p : ℤ) (ls : List Level) → spliced s p ls ≡ LadderMap.get_or_create s p ls
unfolding spliced before lower_bound LadderMap.get_or_create
get_or_create-splice s p [] = refl
get_or_create-splice s p (l ∷ ls) = elim (Bool-cases (better s l.price p)) [
  | inl above ↦
      let (other, below) = not_better_same s p l.price above in
      rw (above, other, below)
        (if-cons (holds p (lower_bound s p ls)) l _ _
          ∙ ap (λ xs. l ∷ xs) (get_or_create-splice s p ls))
  | inr level ↦ elim (Bool-cases (eqb_ℤ l.price p)) [
    | inl same ↦ rw (level, same) refl
    | inr other ↦ rw (level, other, worse_or_same s p l.price level other) refl
  ]
]

get_in-levels :
    (s : Side) (p : ℤ) (m : PooledSide)
    → (get_in s p m).levels ≡ LadderMap.get_or_create s p m.levels
unfolding get_in spliced
get_in-levels s p m =
    let it = lower_bound s p m.levels in
    if-levels (holds p it) m _
    ∙ ap (λ l. if holds p it then m.levels else before s p m.levels ++ l ∷ it)
        (node_for-new p m.cache)
    ∙ get_or_create-splice s p m.levels

keep-bound :
    (o : Option Level) (cache : List Level)
    → length cache ≤ max_cached
    → length (keep o cache) ≤ max_cached
keep-bound none cache h = h
keep-bound (some nh) cache h = ground (arith, h)

pop_back-bound : (cache : List Level) → length (pop_back cache) ≤ length cache
pop_back-bound [] = omega arith
pop_back-bound (nh ∷ nodes) = omega arith

on_pooled-cache :
    (s : Side) (o : Operation) (m : PooledSide)
    → length m.cache ≤ max_cached
    → length (on_pooled s o m).cache ≤ max_cached
unfolding get_in park write_level
on_pooled-cache s (create p) m h = ground (arith, h, pop_back-bound m.cache)
on_pooled-cache s (write p l) m h = h
on_pooled-cache s (empty p) m h = keep-bound (level_at p m.levels) m.cache h

on_pooled-levels :
    (s : Side) (o : Operation) (m : PooledSide) → (on_pooled s o m).levels ≡ on_map s o m.levels
unfolding park write_level
on_pooled-levels s (create p) m = get_in-levels s p m
on_pooled-levels s (write p l) m = refl
on_pooled-levels s (empty p) m = refl

-- Whatever levels are created, written and emptied on a side whose cache holds at most 4,096
-- nodes, the levels are those of the tree ladder after the same operations, and the cache stays
-- within its bound.
pub run_pooled-run_map :
    (s : Side) (os : List Operation) (m : PooledSide)
    → length m.cache ≤ max_cached
    → ((run_pooled s os m).levels ≡ run_map s os m.levels)
      × (length (run_pooled s os m).cache ≤ max_cached)
run_pooled-run_map s [] m h = (refl, h)
run_pooled-run_map s (o ∷ os) m h =
    let (same, bound) = run_pooled-run_map s os (on_pooled s o m) (on_pooled-cache s o m h) in
    (same ∙ ap (run_map s os) (on_pooled-levels s o m), bound)
