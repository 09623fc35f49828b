-- ===== src/OrderPool/FreeList.antt =====
-- The free list of include/pricetime/order_pool.hpp, and the calls that change it.
use pricetime.Common.{
  ℕ, ◌+◌, ◌*◌, ◌≤◌, ◌<◌, ◌≡◌, ◌≢◌, ◌⊎◌, inl, inr, refl, ap, sym, ◌∙◌, subst, List, [], ◌∷◌, Bool,
  true, false, Bool-cases, Option, none, some, ◌==◌, All, arith,
}
use pricetime.OrderPool.{
  OrderPool, chunk_size, put, with_room, take_slot, alloc_from, release, allocated,
}

-- The free list from a head.
abbrev pub Chain : (ℕ → Option ℕ) → Option ℕ → List ℕ → Type 0
Chain links none [] = Unit
Chain links none (x ∷ xs) = ⊥
Chain links (some a) [] = ⊥
Chain links (some a) (x ∷ xs) = (a ≡ x) × Chain links (links a) xs

abbrev Distinct : List ℕ → Type 0
Distinct [] = Unit {0}
Distinct (x ∷ xs) = All (λ y. y ≢ x) xs × Distinct xs

abbrev pub OneOf : ℕ → List ℕ → Type 0
OneOf x [] = ⊥
OneOf x (y ∷ ys) = (x ≡ y) ⊎ OneOf x ys

pub record IsPool (p : OrderPool) (held : ℕ → Bool) (free : List ℕ) : Type 0 where
  pub chained : Chain p.links p.free_head free
  pub distinct : Distinct free
  pub unheld : All (λ x. held x ≡ false) free
  pub given : All (λ x. x < p.total) free
  pub counted : (x : ℕ) → held x ≡ true → x < p.total
  pub kept : (x : ℕ) → x < p.total → held x ≡ false → OneOf x free
  pub sized : p.total + chunk_size ≡ p.chunks * chunk_size + p.used_in_last
  pub bounded : p.used_in_last ≤ chunk_size

put_same : {A : Type 0} (f : ℕ → A) (a : ℕ) (v : A) → put f a v a ≡ v
put_same f a v = ground arith

put_other : {A : Type 0} (f : ℕ → A) (a b : ℕ) (v : A) → b ≢ a → put f a v b ≡ f b
put_other f a b v h = ground arith

-- A write at a node that is not on the list.
pub Chain-put :
    (links : ℕ → Option ℕ) (head : Option ℕ) (free : List ℕ) (o : ℕ) (v : Option ℕ)
    → All (λ y. y ≢ o) free
    → Chain links head free
    → Chain (put links o v) head free
Chain-put links none [] o v h c = tt
Chain-put links none (x ∷ xs) o v h c = absurd c
Chain-put links (some a) [] o v h c = absurd c
Chain-put links (some a) (x ∷ xs) o v h c =
    let other = put_other links o a v (subst (λ y. y ≢ o) (sym c.0) h.0) in
    (
      c.0,
      subst (λ n. Chain (put links o v) n xs) (sym other)
          (Chain-put links (links a) xs o v h.1 c.1),
    )

pub unheld_apart :
    (held : ℕ → Bool) (o : ℕ) (free : List ℕ)
    → held o ≡ true
    → All (λ x. held x ≡ false) free
    → All (λ y. y ≢ o) free
unheld_apart held o [] h v = tt
unheld_apart held o (x ∷ xs) h v =
    (λ e. ground (arith, h, v.0, ap held e), unheld_apart held o xs h v.1)

unheld_put :
    (held : ℕ → Bool) (o : ℕ) (b : Bool) (free : List ℕ)
    → All (λ y. y ≢ o) free
    → All (λ x. held x ≡ false) free
    → All (λ x. put held o b x ≡ false) free
unheld_put held o b [] h v = tt
unheld_put held o b (x ∷ xs) h v = (put_other held o x b h.0 ∙ v.0, unheld_put held o b xs h.1 v.1)

-- The node at the head of the free list.
reuse-IsPool :
    (p : OrderPool) (held : ℕ → Bool) (o : ℕ) (free : List ℕ)
    → Chain p.links (some o) (o ∷ free)
    → IsPool p held (o ∷ free)
    → IsPool (alloc_from (some o) p).1 (put held o true) free
unfolding alloc_from
reuse-IsPool p held o free c v = record {
  chained = Chain-put p.links (p.links o) free o none v.distinct.0 c.1;
  distinct = v.distinct.1;
  unheld = unheld_put held o true free v.distinct.0 v.unheld.1;
  given = v.given.1;
  counted = λ x h. elim (Bool-cases (o == x)) [
    | inl same ↦ ground (arith, same, v.given.0)
    | inr other ↦ v.counted x (ground (arith, other, h))
  ];
  kept = λ x h k. elim (Bool-cases (o == x)) [
    | inl same ↦ absurd (ground (arith, same, k))
    | inr other ↦ elim (v.kept x h (ground (arith, other, k))) [
      | inl e ↦ absurd (ground (arith, other, e))
      | inr m ↦ m
    ]
  ];
  sized = v.sized;
  bounded = v.bounded;
}

-- A slot that was not handed out before.
fresh-IsPool :
    (p : OrderPool) (held : ℕ → Bool)
    → IsPool p held []
    → ((alloc_from none p).0 ≡ p.total)
      × ((alloc_from none p).1.total ≡ p.total + 1)
      × ((alloc_from none p).1.chunks * chunk_size + (alloc_from none p).1.used_in_last
          ≡ p.total + 1 + chunk_size)
      × ((alloc_from none p).1.used_in_last ≤ chunk_size)
      × ((alloc_from none p).1.free_head ≡ p.free_head)
unfolding alloc_from take_slot with_room
fresh-IsPool p held v = elim (Bool-cases (p.used_in_last == chunk_size)) [
  | inl full ↦
      rw full
        (ground (arith, full, v.sized), refl, ground (arith, full, v.sized), omega arith, refl)
  | inr room ↦ rw room (
    ground (arith, room, v.sized, v.bounded),
    refl,
    ground (arith, room, v.sized),
    ground (arith, room, v.bounded),
    refl,
  )
]

pub release-IsPool :
    (p : OrderPool) (held : ℕ → Bool) (o : ℕ) (free : List ℕ)
    → held o ≡ true
    → IsPool p held free
    → IsPool (release o p) (put held o false) (o ∷ free)
unfolding release
release-IsPool p held o free h v =
    let apart = unheld_apart held o free h v.unheld in
    record {
      chained = (
        refl,
        subst (λ n. Chain (put p.links o p.free_head) n free) (sym (put_same p.links o p.free_head))
            (Chain-put p.links p.free_head free o p.free_head apart v.chained),
      );
      distinct = (apart, v.distinct);
      unheld = (put_same held o false, unheld_put held o false free apart v.unheld);
      given = (v.counted o h, v.given);
      counted = λ x k. v.counted x (ground (arith, k));
      kept = λ x k u. elim (Bool-cases (o == x)) [
        | inl same ↦ inl (ground (arith, same))
        | inr other ↦ inr (v.kept x k (ground (arith, other, u)))
      ];
      sized = v.sized;
      bounded = v.bounded;
    }

-- What `alloc` hands out.
abbrev pub Allocates : OrderPool → (ℕ → Bool) → ℕ × OrderPool → Type 0
Allocates p held r =
    (held r.0 ≡ false)
    × (r.0 < allocated r.1)
    × ((free : List ℕ) × IsPool r.1 (put held r.0 true) free)

fresh-Allocates :
    (p : OrderPool) (held : ℕ → Bool)
    → p.free_head ≡ none
    → IsPool p held []
    → Allocates p held (alloc_from none p)
fresh-Allocates p held none_left v =
    let (fresh, grown, sized, bounded, head) = fresh-IsPool p held v in
    (
      elim (Bool-cases (held (alloc_from none p).0)) [
        | inl taken ↦ absurd (omega (arith, v.counted _ taken, fresh))
        | inr free ↦ free
      ],
      omega (arith, fresh, grown),
      (
        [],
        record {
          chained = subst (λ h. Chain (alloc_from none p).1.links h []) (sym (head ∙ none_left)) tt;
          distinct = tt;
          unheld = tt;
          given = tt;
          counted = λ x h. elim (Bool-cases ((alloc_from none p).0 == x)) [
            | inl same ↦ ground (arith, same, fresh, grown)
            | inr other ↦ ground (arith, v.counted x (ground (arith, other, h)), grown)
          ];
          kept = λ x h k. elim (Bool-cases ((alloc_from none p).0 == x)) [
            | inl same ↦ absurd (ground (arith, same, k))
            | inr other ↦
                v.kept x (ground (arith, other, h, fresh, grown)) (ground (arith, other, k))
          ];
          sized = omega (arith, sized, grown);
          bounded = bounded;
        },
      ),
    )

pub alloc-Allocates :
    (p : OrderPool) (held : ℕ → Bool) (h : Option ℕ) (free : List ℕ)
    → p.free_head ≡ h
    → Chain p.links h free
    → IsPool p held free
    → Allocates p held (alloc_from h p)
unfolding alloc_from
alloc-Allocates p held none [] e c v = fresh-Allocates p held e v
alloc-Allocates p held none (x ∷ xs) e c v = absurd c
alloc-Allocates p held (some o) [] e c v = absurd c
alloc-Allocates p held (some o) (x ∷ xs) e c v =
    let w = subst (λ y. IsPool p held (y ∷ xs)) (sym c.0) v in
    (w.unheld.0, w.given.0, (xs, reuse-IsPool p held o xs (refl, c.1) w))
