-- ===== src/OrderPool/Nodes.antt =====
-- The nodes of include/pricetime/order_pool.hpp that are in use, and those that are free.
use pricetime.Common.{
  ℕ, ◌<◌, ◌≡◌, refl, List, [], ◌∷◌, Bool, true, false, Option, none, some, arith,
}
use pricetime.OrderPool.{OrderPool, new_pool, put, alloc_from, alloc, release, allocated}
use pricetime.OrderPool.FreeList.{
  Chain, OneOf, Chain-put, unheld_apart, release-IsPool, alloc-Allocates, IsPool,
}

-- The pool between calls, with the nodes that its user holds. A node that is held is the user's to
-- link and to release.
pub data Reach : OrderPool → (ℕ → Bool) → Type 0 where
  start : Reach new_pool (λ _. false)
  allocate :
      {p : OrderPool} {held : ℕ → Bool}
      → Reach p held
      → Reach (alloc p).1 (put held (alloc p).0 true)
  give_back :
      {p : OrderPool} {held : ℕ → Bool} (o : ℕ)
      → Reach p held
      → held o ≡ true
      → Reach (release o p) (put held o false)
  link :
      {p : OrderPool} {held : ℕ → Bool} (o : ℕ) (v : Option ℕ)
      → Reach p held
      → held o ≡ true
      → Reach (record p { links = put p.links o v }) held

Reach-IsPool :
    (p : OrderPool) (held : ℕ → Bool) → Reach p held → (free : List ℕ) × IsPool p held free
Reach-IsPool _ _ start = (
  [],
  record {
    chained = tt;
    distinct = tt;
    unheld = tt;
    given = tt;
    counted = λ x h. absurd (ground (arith, h));
    kept = λ x h k. absurd (omega arith);
    sized = refl;
    bounded = omega arith;
  },
)
Reach-IsPool _ _ (allocate {p = p} {held = held} reached) =
    let (free, v) = Reach-IsPool p held reached in
    let (_, _, kept) = alloc-Allocates p held p.free_head free refl v.chained v in kept
Reach-IsPool _ _ (give_back {p = p} {held = held} o reached h) =
    let (free, v) = Reach-IsPool p held reached in (o ∷ free, release-IsPool p held o free h v)
Reach-IsPool _ _ (link {p = p} {held = held} o v reached h) =
    let (free, w) = Reach-IsPool p held reached in
    (
      free,
      record {
        chained =
            Chain-put p.links p.free_head free o v (unheld_apart held o free h w.unheld) w.chained;
        distinct = w.distinct;
        unheld = w.unheld;
        given = w.given;
        counted = w.counted;
        kept = w.kept;
        sized = w.sized;
        bounded = w.bounded;
      },
    )

-- However nodes are allocated, linked by their holder and released, `alloc` gives a node that
-- nobody holds, and its number is below the count of nodes handed out.
pub alloc-fresh :
    (p : OrderPool) (held : ℕ → Bool)
    → Reach p held
    → (held (alloc p).0 ≡ false) × ((alloc p).0 < allocated (alloc p).1)
alloc-fresh p held reached =
    let (free, v) = Reach-IsPool p held reached in
    let (unheld, given, _) = alloc-Allocates p held p.free_head free refl v.chained v in
    (unheld, given)

alloc_from-total :
    (p : OrderPool) (h : Option ℕ) (free : List ℕ) (o : ℕ)
    → Chain p.links h free
    → OneOf o free
    → (alloc_from h p).1.total ≡ p.total
unfolding alloc_from
alloc_from-total p none [] o c m = absurd m
alloc_from-total p none (x ∷ xs) o c m = absurd c
alloc_from-total p (some a) free o c m = refl

-- While a node that was handed out is not held, `alloc` takes no new node from a chunk.
pub alloc-reuses :
    (p : OrderPool) (held : ℕ → Bool) (o : ℕ)
    → Reach p held
    → o < allocated p
    → held o ≡ false
    → allocated (alloc p).1 ≡ allocated p
alloc-reuses p held o reached given unheld =
    let (free, v) = Reach-IsPool p held reached in
    alloc_from-total p p.free_head free o v.chained (v.kept o given unheld)
