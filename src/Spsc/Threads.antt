-- ===== src/Spsc/Threads.antt =====
-- One producer and one consumer on the ring of include/pricetime/spsc_queue.hpp, in any interleaving of
-- their accesses.
use pricetime.Common.{
  ℕ, ◌<◌, ◌≡◌, ◌≢◌, refl, ap, sym, ◌∙◌, subst, List, [], ◌∷◌, ◌++◌, Bool-cases, inl, inr, Option,
  none, some, ◌==◌, if◌then◌else◌, length, arith,
}
use pricetime.Spsc.{
  Producer, no_push, full_test, write_slot, publish_head, Consumer, no_pop, empty_test, read_slot,
  publish_tail, Queue, slot, after, start_push, step_push, start_pop, step_pop, taken,
}
use pricetime.Spsc.Ring.{succ_on, dist-zero}
use pricetime.Spsc.Invariant.{
  size, Producing, Front, Ringing, producer_at, consumer_at, load_tail, load_head, write, publish,
  take, Consuming, IsRing, after_is,
}

module _ {A : Type 0} where
  -- One access of one thread. A thread that is in a call takes its next access.
  pub data Step (q : Queue A) : Queue A → Type 0 where
    push : (v : A) → q.producer ≡ no_push → Step q (start_push q v)
    push_on : Step q (step_push q.producer q)
    pop : q.consumer ≡ no_pop → Step q (start_pop q)
    pop_on : Step q (step_pop q.consumer q)

  pub data Reach (q : Queue A) : Queue A → Type 0 where
    start : Reach q q
    next : {q' q'' : Queue A} → Reach q q' → Step q' q'' → Reach q q''

  -- The outcome of the two tests of a call.
  push_at :
      (q : Queue A) (cached : ℕ) (x : A) (p : Producer A)
      → q.head < size q
      → Producing (size q) q.head cached q.slots p
      → Producing
          (size q)
          q.head
          cached
          q.slots
          (if after q q.head == cached then p else write_slot x)
  push_at q cached x p h k = elim (Bool-cases (after q q.head == cached)) [
    | inl full ↦ rw full k
    | inr room ↦ rw room (λ e. ground (arith, room, e, after_is q q.head h))
  ]

  pop_at :
      (tail cached : ℕ) (xs : List A) (c : Consumer A)
      → Consuming tail cached xs c
      → Consuming tail cached xs (if tail == cached then c else read_slot)
  pop_at tail cached xs c k = elim (Bool-cases (tail == cached)) [
    | inl empty ↦ rw empty k
    | inr full ↦ rw full (λ e. ground (arith, full, e))
  ]

  step_push-IsRing :
      (q : Queue A) (xs : List A) (p : Producer A)
      → IsRing q xs
      → Producing (size q) q.head q.cached_tail q.slots p
      → Ringing (step_push p q)
  unfolding step_push
  step_push-IsRing q xs no_push v k = (xs, v)
  step_push-IsRing q xs (full_test x) v k =
      (xs, load_tail q xs v _ (push_at q q.tail x no_push v.head tt))
  step_push-IsRing q xs (write_slot x) v k = (xs, write q xs v x k)
  step_push-IsRing q xs (publish_head x) v k = (
    xs ++ x ∷ [],
    subst
        (λ m.
          IsRing (record q { head = m; producer = no_push; sent = q.sent ++ x ∷ [] })
            (xs ++ x ∷ []))
        (sym (after_is q q.head v.head)) (publish q xs x v k.0 k.1),
  )

  -- The slots in use are not empty when the consumer reads.
  behind_head : (q : Queue A) (xs : List A) → IsRing q xs → q.tail ≢ q.cached_head → xs ≢ []
  behind_head q xs v k e =
      let none_left : length xs ≡ 0 = ap length e in
      k (
        sym (
          dist-zero (size q) q.cached_head q.tail v.cached_head v.tail
            (omega (arith, v.ahead, none_left))))

  pub slot_at_tail :
      (q : Queue A) (xs : List A)
      → IsRing q xs
      → q.tail ≢ q.cached_head
      → (x : A) × (ys : List A) × (xs ≡ x ∷ ys) × (slot q.slots q.tail ≡ some x)
  slot_at_tail q [] v k = absurd (behind_head q [] v k refl)
  slot_at_tail q (x ∷ xs) v k = (x, xs, refl, v.held.0)

  step_pop-IsRing :
      (q : Queue A) (xs : List A) (c : Consumer A)
      → IsRing q xs
      → Consuming q.tail q.cached_head xs c
      → Ringing (step_pop c q)
  unfolding step_pop taken
  step_pop-IsRing q xs no_pop v k = (xs, v)
  step_pop-IsRing q xs empty_test v k = (xs, load_head q xs v _ (pop_at q.tail q.head xs no_pop tt))
  step_pop-IsRing q xs read_slot v k =
      let (x, ys, e, at) = slot_at_tail q xs v k in
      let front = subst (Front x) (sym e) refl in
      (
        xs,
        subst (λ o. IsRing (taken q o) xs) (sym at)
            (consumer_at q xs v (publish_tail x) (k, front)),
      )
  step_pop-IsRing q [] (publish_tail x) v k = absurd k.1
  step_pop-IsRing q (y ∷ xs) (publish_tail x) v k = (
    xs,
    subst
        (λ m. IsRing (record q { tail = m; consumer = no_pop; received = q.received ++ x ∷ [] }) xs)
        (sym (after_is q q.tail v.tail))
        (subst
          (λ z.
            IsRing
              (record q {
                tail = succ_on (size q) q.tail;
                consumer = no_pop;
                received = q.received ++ z ∷ [];
              })
              xs)
          k.1 (take q y xs v k.0)),
  )

  Step-IsRing : (q q' : Queue A) (xs : List A) → IsRing q xs → Step q q' → Ringing q'
  unfolding start_push start_pop
  Step-IsRing q _ xs v (push x idle) =
      (xs, producer_at q xs v _ (push_at q q.cached_tail x (full_test x) v.head tt))
  Step-IsRing q _ xs v push_on = step_push-IsRing q xs q.producer v v.producing
  Step-IsRing q _ xs v (pop idle) =
      (xs, consumer_at q xs v _ (pop_at q.tail q.cached_head xs empty_test tt))
  Step-IsRing q _ xs v pop_on = step_pop-IsRing q xs q.consumer v v.consuming

  pub Reach-IsRing : (q q' : Queue A) → Ringing q → Reach q q' → Ringing q'
  Reach-IsRing q _ v start = v
  Reach-IsRing q q' v (next {q' = q1} reached step) =
      let (xs, w) = Reach-IsRing q q1 v reached in Step-IsRing q1 q' xs w step

  step_push-mask : (p : Producer A) (q : Queue A) → (step_push p q).mask ≡ q.mask
  unfolding step_push
  step_push-mask no_push q = refl
  step_push-mask (full_test x) q = refl
  step_push-mask (write_slot x) q = refl
  step_push-mask (publish_head x) q = refl

  taken-mask : (o : Option A) (q : Queue A) → (taken q o).mask ≡ q.mask
  unfolding taken
  taken-mask none q = refl
  taken-mask (some x) q = refl

  step_pop-mask : (c : Consumer A) (q : Queue A) → (step_pop c q).mask ≡ q.mask
  unfolding step_pop
  step_pop-mask no_pop q = refl
  step_pop-mask empty_test q = refl
  step_pop-mask read_slot q = taken-mask (slot q.slots q.tail) q
  step_pop-mask (publish_tail x) q = refl

  Step-mask : (q q' : Queue A) → Step q q' → q'.mask ≡ q.mask
  unfolding start_push start_pop
  Step-mask q _ (push x idle) = refl
  Step-mask q _ push_on = step_push-mask q.producer q
  Step-mask q _ (pop idle) = refl
  Step-mask q _ pop_on = step_pop-mask q.consumer q

  pub Reach-mask : (q q' : Queue A) → Reach q q' → q'.mask ≡ q.mask
  Reach-mask q _ start = refl
  Reach-mask q q' (next {q' = q1} reached step) = Step-mask q1 q' step ∙ Reach-mask q q1 reached
