-- ===== src/Spsc/Contract.antt =====
-- What the two ends of the queue of include/pricetime/spsc_queue.hpp can count on.
use native.Mathlib.Nat.{one-le-pow}
use mathlib.Core.Option
use pricetime.Common.{
  ℕ, zero, suc, ◌+◌, ◌-◌, ◌^◌, ◌<◌, u64, ◌⊎◌, Option, none, add_u64, ◌≤◌, ◌≡◌, refl, ap, sym, ◌∙◌,
  subst, List, [], ◌∷◌, ◌++◌, append-nil, Bool, true, false, Bool-cases, inl, inr, some, ltb, ◌==◌,
  if◌then◌else◌, length, replicate, arith, eq_of_some, eq_of_==, nil_of_length,
}
use pricetime.Spsc.{
  no_push, full_test, write_slot, Consumer, no_pop, empty_test, read_slot, publish_tail, Queue,
  new_queue, after, step_push, step_pop, construct, round_up_pow2, size_approx, capacity, taken,
}
use pricetime.Spsc.Doubling.{round_up_pow2-answers, round_up_pow2-endless, round_up_pow2-power}
use pricetime.Spsc.Ring.{dist, dist-lt, dist_self, dist_full, dist_mod}
use pricetime.Spsc.Invariant.{IsRing, after_is, Consuming, new_queue-IsRing}
use pricetime.Spsc.Threads.{Reach, Reach-IsRing, Reach-mask, slot_at_tail}

length-replicate : {A : Type 0} (n : ℕ) (a : A) → length (replicate n a) ≡ n
length-replicate zero a = refl
length-replicate (suc n) a = ap suc (length-replicate n a)

some_of_map :
    {A B : Type 0} {f : A → B} {b : B} (o : Option A)
    → Option.map f o ≡ some b
    → (a : A) × (o ≡ some a) × (f a ≡ b)
some_of_map none e = absurd (cc)
some_of_map (some a) e = (a, refl, eq_of_some e)

module _ {A : Type 0} where
  full_of_refused : (b : Bool) (x : A) → (if b then no_push else write_slot x) ≡ no_push → b ≡ true
  full_of_refused true x e = refl
  full_of_refused false x e = absurd (cc)

  empty_of_refused :
      (b : Bool) → Path (Consumer A) (if b then no_pop else read_slot) no_pop → b ≡ true
  empty_of_refused true e = refl
  empty_of_refused false e = absurd (cc)

  construct_as :
      (blank : A) (n : ℕ)
      → n < 2 ^ 63
      → (m : ℕ) × (construct 64 blank n ≡ some (new_queue (replicate (2 ^ m) blank) (2 ^ m - 1)))
        × (n + 1 ≤ 2 ^ m)
  unfolding construct
  construct_as blank n h =
      let whole : add_u64 n 1 ≡ n + 1 = omega arith in
      let (m, answers, wide) = round_up_pow2-answers 63 0 (n + 1) refl (omega arith) in
      let made = Option.map (λ p. new_queue (replicate p blank) (p - 1)) in
      (m, ap (λ c. made (round_up_pow2 64 1 c)) whole ∙ ap made answers, wide)

  construct-endless :
      (blank : A) (n fuel : ℕ) → 2 ^ 63 ≤ n → n + 1 < u64 → construct fuel blank n ≡ none
  unfolding construct
  construct-endless blank n fuel h b =
      let whole : add_u64 n 1 ≡ n + 1 = omega arith in
      rw (whole, round_up_pow2-endless fuel 0 (n + 1) (omega arith) (omega arith)) refl

  -- Let a capacity `n` be below 2 ^ 64 - 1. Below 2 ^ 63 the constructor ends within 64 rounds
  -- of its loop, with a queue of at least that capacity whose number of slots is a power of two;
  -- from 2 ^ 63 on it does not end in any number of rounds.
  pub construct-answers :
      (blank : A) (n : ℕ)
      → n + 1 < u64
      → ((n < 2 ^ 63)
          × ((q : Queue A) × (construct 64 blank n ≡ some q)
              × (n ≤ capacity q)
              × ((m : ℕ) × (q.mask + 1 ≡ 2 ^ m))))
        ⊎ ((2 ^ 63 ≤ n) × ((fuel : ℕ) → construct fuel blank n ≡ none))
  construct-answers blank n h = elim (Bool-cases (ltb n (2 ^ 63))) [
    | inl small ↦
        let below : n < 2 ^ 63 = ground (arith, small) in
        let (m, answers, wide) = construct_as blank n below in
        inl (below, (_, answers, omega (arith, wide), (m, omega (arith, wide))))
    | inr large ↦
        let above : 2 ^ 63 ≤ n = ground (arith, large) in
        inr (above, λ fuel. construct-endless blank n fuel above h)
  ]

  construct-IsRing :
      (blank : A) (fuel n : ℕ) (q : Queue A) → construct fuel blank n ≡ some q → IsRing q []
  unfolding construct
  construct-IsRing blank fuel n q made =
      let (p, rounds, e) = some_of_map (round_up_pow2 fuel 1 (add_u64 n 1)) made in
      let (m, power) = round_up_pow2-power fuel 0 (add_u64 n 1) p (omega arith) rounds in
      let two : 0 < 2 = omega arith in
      let positive = one-le-pow m 2 two in
      subst (λ r. IsRing r []) e
        (new_queue-IsRing _ _ (length-replicate p blank ∙ omega (arith, power, positive)))

  module _ (blank : A) (fuel n : ℕ) (q0 : Queue A) (made : construct fuel blank n ≡ some q0)
      (q : Queue A) (reached : Reach q0 q) where
    reached-IsRing : (xs : List A) × IsRing q xs
    reached-IsRing = Reach-IsRing q0 q ([], construct-IsRing blank fuel n q0 made) reached

    -- Let the queue be constructed. However the accesses of one producer and one consumer
    -- interleave, the values sent are the values received and then those that the queue holds,
    -- in this order; these are at most the capacity, and `size_approx` at one instant is their
    -- number.
    pub Reach-fifo :
        (xs : List A) × (q.sent ≡ q.received ++ xs)
        × (length xs ≤ capacity q0)
        × (size_approx q ≡ length xs)
    unfolding size_approx
    Reach-fifo =
        let (xs, v) = reached-IsRing in
        let e : q.mask + 1 ≡ suc q.mask = omega arith in
        let bound = dist-lt (suc q.mask) q.head q.tail v.head v.tail in
        (
          xs,
          v.fifo,
          omega (arith, v.counted, bound, Reach-mask q0 q reached),
          rw e (dist_mod (suc q.mask) q.head q.tail v.head v.tail) ∙ sym v.counted,
        )

    -- In every interleaving, a push is refused only at a load of the tail at which the queue
    -- holds as many values as its capacity.
    pub refused_push :
        (x : A)
        → q.producer ≡ full_test x
        → (step_push q.producer q).producer ≡ no_push
        → (xs : List A) × (q.sent ≡ q.received ++ xs) × (length xs ≡ capacity q0)
    unfolding step_push
    refused_push x at refused =
        let (xs, v) = reached-IsRing in
        let full =
          full_of_refused (after q q.head == q.tail) x
            (subst (λ p. (step_push p q).producer ≡ no_push) at refused) in
        let e = sym (after_is q q.head v.head) ∙ eq_of_== _ _ full in
        (
          xs,
          v.fifo,
          omega (
            arith,
            dist_full (suc q.mask) q.head q.tail v.head e,
            v.counted,
            Reach-mask q0 q reached,
          ),
        )

    -- In every interleaving, a pop is refused only at a load of the head at which every value
    -- that was sent has been received.
    pub refused_pop :
        q.consumer ≡ empty_test → (step_pop q.consumer q).consumer ≡ no_pop → q.sent ≡ q.received
    unfolding step_pop
    refused_pop at refused =
        let (xs, v) = reached-IsRing in
        let empty =
          empty_of_refused (q.tail == q.head)
            (subst (λ c. (step_pop c q).consumer ≡ no_pop) at refused) in
        let e = eq_of_== q.tail q.head empty in
        let none_left : length xs ≡ 0 =
          v.counted
          ∙ subst (λ m. dist (suc q.mask) m q.tail ≡ 0) e (dist_self (suc q.mask) q.tail) in
        v.fifo ∙ ap (λ ys. q.received ++ ys) (nil_of_length xs none_left) ∙ append-nil q.received

    read_value :
        q.consumer ≡ read_slot
        → (x : A) × (xs : List A) × (q.sent ≡ q.received ++ x ∷ xs)
          × ((step_pop q.consumer q).consumer ≡ publish_tail x)
    unfolding step_pop taken
    read_value at =
        let (xs, v) = reached-IsRing in
        let apart = subst (Consuming q.tail q.cached_head xs) at v.consuming in
        let (x, ys, e, found) = slot_at_tail q xs v apart in
        (
          x,
          ys,
          v.fifo ∙ ap (λ zs. q.received ++ zs) e,
          ap (λ c. (step_pop c q).consumer) at ∙ ap (λ o. (taken q o).consumer) found,
        )
