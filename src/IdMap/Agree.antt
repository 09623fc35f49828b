-- ===== src/IdMap/Agree.antt =====
-- When two association lists are the same map: the index of include/pricetime/id_map.hpp against the
-- entries that it should have.
use pricetime.Common.{
  ℕ, suc, ◌+◌, ◌≤◌, ◌<◌, ◌≡◌, refl, ap, sym, subst, ◌∙◌, [], ◌∷◌, ◌++◌, Option, none, some,
  Option-cases, Bool-cases, inl, inr, ◌==◌, ==_refl, eq_of_==, if◌then◌else◌, arith,
}
use pricetime.IdMap.{StdIdMap, find, erase, insert, find-erase, find-insert}

module _ {V : Type 0} where
  -- How often a key occurs.
  abbrev pub count : StdIdMap V → ℕ → ℕ
  count [] i = 0
  count (e ∷ m) i = if e.0 == i then suc (count m i) else count m i

  pub count-append : (xs ys : StdIdMap V) (i : ℕ) → count (xs ++ ys) i ≡ count xs i + count ys i
  count-append [] ys i = omega arith
  count-append (e ∷ xs) ys i = ground (arith, count-append xs ys i)

  pub find-none : (m : StdIdMap V) (i : ℕ) → count m i ≡ 0 → find m i ≡ none
  unfolding find
  find-none [] i h = refl
  find-none (e ∷ m) i h = elim (Bool-cases (e.0 == i)) [
    | inl here ↦ absurd (let z : suc (count m i) ≡ 0 = rw here at h in omega arith)
    | inr other ↦ rw other (find-none m i (rw other at h))
  ]

  pub count-none : (m : StdIdMap V) (i : ℕ) → find m i ≡ none → count m i ≡ 0
  unfolding find
  count-none [] i h = refl
  count-none (e ∷ m) i h = elim (Bool-cases (e.0 == i)) [
    | inl here ↦ absurd (let z : some e.1 ≡ none = rw here at h in cc)
    | inr other ↦ rw other (count-none m i (rw other at h))
  ]

  pub count-some : (m : StdIdMap V) (i : ℕ) (v : V) → find m i ≡ some v → 0 < count m i
  unfolding find
  count-some [] i v h = cc
  count-some (e ∷ m) i v h = elim (Bool-cases (e.0 == i)) [
    | inl here ↦ rw here (omega arith)
    | inr other ↦ rw other (count-some m i v (rw other at h))
  ]

  pub find-append_some :
      (xs ys : StdIdMap V) (i : ℕ) (v : V) → find xs i ≡ some v → find (xs ++ ys) i ≡ some v
  unfolding find
  find-append_some [] ys i v h = cc
  find-append_some (e ∷ xs) ys i v h = elim (Bool-cases (e.0 == i)) [
    | inl here ↦ rw here (rw here at h)
    | inr other ↦ rw other (find-append_some xs ys i v (rw other at h))
  ]

  pub find-append_none :
      (xs ys : StdIdMap V) (i : ℕ) → find xs i ≡ none → find (xs ++ ys) i ≡ find ys i
  unfolding find
  find-append_none [] ys i h = refl
  find-append_none (e ∷ xs) ys i h = elim (Bool-cases (e.0 == i)) [
    | inl here ↦ absurd (let z : some e.1 ≡ none = rw here at h in cc)
    | inr other ↦ rw other (find-append_none xs ys i (rw other at h))
  ]

  pub erase-append : (xs ys : StdIdMap V) (i : ℕ) → erase (xs ++ ys) i ≡ erase xs i ++ erase ys i
  unfolding erase
  erase-append [] ys i = refl
  erase-append (e ∷ xs) ys i = ground (arith, erase-append xs ys i)

  pub erase-absent : (m : StdIdMap V) (i : ℕ) → count m i ≡ 0 → erase m i ≡ m
  unfolding erase
  erase-absent [] i h = refl
  erase-absent (e ∷ m) i h = elim (Bool-cases (e.0 == i)) [
    | inl here ↦ absurd (let z : suc (count m i) ≡ 0 = rw here at h in omega arith)
    | inr other ↦ rw other (ap (◌∷◌ e) (erase-absent m i (rw other at h)))
  ]

  pub count-erase : (m : StdIdMap V) (i j : ℕ) → count (erase m i) j ≤ count m j
  unfolding erase
  count-erase [] i j = omega arith
  count-erase (e ∷ m) i j = ground (arith, count-erase m i j)

  -- The index finds what the list holds, which has every key at most once.
  pub record Indexes (index m : StdIdMap V) : Type 0 where
    pub agree : (i : ℕ) → find index i ≡ find m i
    pub once : (i : ℕ) → count m i ≤ 1

  -- The order of the parts does not matter.
  pub Indexes-swap :
      (index xs ys : StdIdMap V) → Indexes index (xs ++ ys) → Indexes index (ys ++ xs)
  Indexes-swap index xs ys v = record {
    agree = λ i. v.agree i ∙ swapped i;
    once = λ i. omega (arith, v.once i, count-append xs ys i, count-append ys xs i);
  }
    where
      swapped : (i : ℕ) → find (xs ++ ys) i ≡ find (ys ++ xs) i
      swapped i = elim (Option-cases (find xs i)) [
        | inl absent ↦ elim (Option-cases (find ys i)) [
          | inl nowhere ↦
              find-append_none xs ys i absent
              ∙ nowhere
              ∙ sym (find-append_none ys xs i nowhere ∙ absent)
          | inr (v', there) ↦
              find-append_none xs ys i absent ∙ there ∙ sym (find-append_some ys xs i v' there)
        ]
        | inr (v', there) ↦
            let absent : find ys i ≡ none =
              find-none ys i
                (omega (arith, v.once i, count-append xs ys i, count-some xs i v' there)) in
            find-append_some xs ys i v' there ∙ sym (find-append_none ys xs i absent ∙ there)
      ]

  pub Indexes-erase :
      (index m : StdIdMap V) (k : ℕ) → Indexes index m → Indexes (erase index k) (erase m k)
  Indexes-erase index m k v = record {
    agree = λ i.
        find-erase index k i
        ∙ ap (λ (o : Option V). if k == i then none else o) (v.agree i)
        ∙ sym (find-erase m k i);
    once = λ i. omega (arith, v.once i, count-erase m k i);
  }

  -- The first entry leaves both.
  pub Indexes-head :
      (index m : StdIdMap V) (k : ℕ) (h : V)
      → Indexes index ((k, h) ∷ m)
      → Indexes (erase index k) m
  unfolding erase
  Indexes-head index m k h v =
      let once : suc (count m k) ≤ 1 = rw (==_refl k) at (v.once k) in
      let gone : erase ((k, h) ∷ m) k ≡ m =
        rw (==_refl k, erase) (erase-absent m k (omega arith)) in
      subst (Indexes (erase index k)) gone (Indexes-erase index ((k, h) ∷ m) k v)

  -- A new key joins both, at any place.
  pub Indexes-insert :
      (index xs ys : StdIdMap V) (k : ℕ) (h : V)
      → find index k ≡ none
      → Indexes index (xs ++ ys)
      → Indexes (insert index k h).0 (xs ++ (k, h) ∷ ys)
  unfolding find
  Indexes-insert index xs ys k h absent v =
      let w = Indexes-swap index xs ys v in
      let fresh : count (ys ++ xs) k ≡ 0 = count-none (ys ++ xs) k (sym (w.agree k) ∙ absent) in
      Indexes-swap (insert index k h).0 ((k, h) ∷ ys) xs (record {
        agree = λ i.
            find-insert index k i h absent
            ∙ ap (λ (o : Option V). if k == i then some h else o) (w.agree i);
        once = λ i. elim (Bool-cases (k == i)) [
          | inl here ↦
              let same : count (ys ++ xs) i ≡ 0 =
                subst (λ j. count (ys ++ xs) j ≡ 0) (eq_of_== k i here) fresh in
              rw here (omega (arith, same))
          | inr other ↦ rw other (w.once i)
        ];
      })
