-- ===== src/Spsc/Invariant.antt =====
-- The invariant of the ring of include/pricetime/spsc_queue.hpp, and the accesses that change it.
use pricetime.Common.{
  ℕ, suc, ◌+◌, ◌≤◌, ◌<◌, ◌≡◌, ◌≢◌, refl, ap, sym, ◌∙◌, List, [], ◌∷◌, ◌++◌, append_assoc, some,
  length, length-append, set, length-set, arith,
}
use pricetime.Spsc.{
  Producer, no_push, full_test, write_slot, publish_head, Consumer, no_pop, empty_test, read_slot,
  publish_tail, Queue, new_queue, slot, after,
}
use pricetime.Spsc.Ring.{
  succ_on, dist, succ_on_mod, succ_on-lt, dist_succ_left, dist_succ_right, dist-lt, dist_self,
  dist_full, apart_of_dist, slot-set_same, Holds, Holds-set, Holds-append,
}

module _ {A : Type 0} where
  abbrev pub size : Queue A → ℕ
  size q = suc q.mask

  -- What the producer knows where it stands.
  abbrev pub Producing : ℕ → ℕ → ℕ → List A → Producer A → Type 0
  Producing n head cached slots (write_slot v) = succ_on n head ≢ cached
  Producing n head cached slots (publish_head v) =
      (succ_on n head ≢ cached) × (slot slots head ≡ some v)
  Producing n head cached slots no_push = Unit {0}
  Producing n head cached slots (full_test v) = Unit {0}

  abbrev pub Front : A → List A → Type 0
  Front x [] = ⊥
  Front x (y ∷ ys) = y ≡ x

  -- What the consumer knows where it stands.
  abbrev pub Consuming : ℕ → ℕ → List A → Consumer A → Type 0
  Consuming tail cached xs read_slot = tail ≢ cached
  Consuming tail cached xs (publish_tail x) = (tail ≢ cached) × Front x xs
  Consuming tail cached xs no_pop = Unit {0}
  Consuming tail cached xs empty_test = Unit {0}

  -- The values that are sent and not yet received are in the slots from the tail on; both caches are
  -- behind what they copy.
  pub record IsRing (q : Queue A) (xs : List A) : Type 0 where
    pub sized : length q.slots ≡ size q
    pub head : q.head < size q
    pub tail : q.tail < size q
    pub cached_tail : q.cached_tail < size q
    pub cached_head : q.cached_head < size q
    pub held : Holds (size q) q.slots q.tail xs
    pub counted : length xs ≡ dist (size q) q.head q.tail
    pub behind : dist (size q) q.tail q.cached_tail + length xs ≡ dist (size q) q.head q.cached_tail
    pub ahead : dist (size q) q.cached_head q.tail ≤ length xs
    pub fifo : q.sent ≡ q.received ++ xs
    pub producing : Producing (size q) q.head q.cached_tail q.slots q.producer
    pub consuming : Consuming q.tail q.cached_head xs q.consumer

  pub new_queue-IsRing :
      (slots : List A) (mask : ℕ) → length slots ≡ suc mask → IsRing (new_queue slots mask) []
  new_queue-IsRing slots mask e = record {
    sized = e;
    head = omega arith;
    tail = omega arith;
    cached_tail = omega arith;
    cached_head = omega arith;
    held = tt;
    counted = omega arith;
    behind = omega arith;
    ahead = omega arith;
    fifo = refl;
    producing = tt;
    consuming = tt;
  }

  pub after_is : (q : Queue A) (i : ℕ) → i < size q → after q i ≡ succ_on (size q) i
  after_is q i h = let e : q.mask + 1 ≡ size q = omega arith in rw e (succ_on_mod (size q) i h)

  abbrev pub Ringing : Queue A → Type 0
  Ringing q = (xs : List A) × IsRing q xs

  -- The threads' own positions are all that a call's start and its tests change.
  module _ (q : Queue A) (xs : List A) (v : IsRing q xs) where
    pub producer_at :
        (p : Producer A)
        → Producing (size q) q.head q.cached_tail q.slots p
        → IsRing (record q { producer = p }) xs
    producer_at p k = record {
      sized = v.sized;
      head = v.head;
      tail = v.tail;
      cached_tail = v.cached_tail;
      cached_head = v.cached_head;
      held = v.held;
      counted = v.counted;
      behind = v.behind;
      ahead = v.ahead;
      fifo = v.fifo;
      producing = k;
      consuming = v.consuming;
    }

    pub consumer_at :
        (c : Consumer A)
        → Consuming q.tail q.cached_head xs c
        → IsRing (record q { consumer = c }) xs
    consumer_at c k = record {
      sized = v.sized;
      head = v.head;
      tail = v.tail;
      cached_tail = v.cached_tail;
      cached_head = v.cached_head;
      held = v.held;
      counted = v.counted;
      behind = v.behind;
      ahead = v.ahead;
      fifo = v.fifo;
      producing = v.producing;
      consuming = k;
    }

    pub load_tail :
        (p : Producer A)
        → Producing (size q) q.head q.tail q.slots p
        → IsRing (record q { cached_tail = q.tail; producer = p }) xs
    load_tail p k = record {
      sized = v.sized;
      head = v.head;
      tail = v.tail;
      cached_tail = v.tail;
      cached_head = v.cached_head;
      held = v.held;
      counted = v.counted;
      behind = omega (arith, dist_self (size q) q.tail, v.counted);
      ahead = v.ahead;
      fifo = v.fifo;
      producing = k;
      consuming = v.consuming;
    }

    pub load_head :
        (c : Consumer A)
        → Consuming q.tail q.head xs c
        → IsRing (record q { cached_head = q.head; consumer = c }) xs
    load_head c k = record {
      sized = v.sized;
      head = v.head;
      tail = v.tail;
      cached_tail = v.cached_tail;
      cached_head = v.head;
      held = v.held;
      counted = v.counted;
      behind = v.behind;
      ahead = omega (arith, v.counted);
      fifo = v.fifo;
      producing = v.producing;
      consuming = k;
    }

    -- The slot at the head is not in use.
    pub write :
        (x : A)
        → succ_on (size q) q.head ≢ q.cached_tail
        → IsRing (record q { slots = set q.slots q.head x; producer = publish_head x }) xs
    write x k = record {
      sized = length-set q.slots q.head x ∙ v.sized;
      head = v.head;
      tail = v.tail;
      cached_tail = v.cached_tail;
      cached_head = v.cached_head;
      held =
          Holds-set (size q) q.slots q.tail q.head x xs v.tail v.head (omega (arith, v.counted))
            v.held;
      counted = v.counted;
      behind = v.behind;
      ahead = v.ahead;
      fifo = v.fifo;
      producing = (k, slot-set_same q.slots q.head x (omega (arith, v.head, v.sized)));
      consuming = v.consuming;
    }

  -- The head is a slot short of the tail that the producer saw, so of the tail.
  pub apart_of_cache :
      (q : Queue A) (xs : List A)
      → IsRing q xs
      → succ_on (size q) q.head ≢ q.cached_tail
      → succ_on (size q) q.head ≢ q.tail
  apart_of_cache q xs v k e =
      let further = dist_succ_left (size q) q.head q.cached_tail v.head v.cached_tail k in
      let same = ap (λ m. dist (size q) m q.cached_tail) e in omega (arith, v.behind, further, same)

  pub Consuming-append :
      (tail cached : ℕ) (xs : List A) (x : A) (c : Consumer A)
      → Consuming tail cached xs c
      → Consuming tail cached (xs ++ x ∷ []) c
  Consuming-append tail cached xs x no_pop k = tt
  Consuming-append tail cached xs x empty_test k = tt
  Consuming-append tail cached xs x read_slot k = k
  Consuming-append tail cached [] x (publish_tail y) k = absurd k.1
  Consuming-append tail cached (z ∷ xs) x (publish_tail y) k = k

  pub publish :
      (q : Queue A) (xs : List A) (x : A)
      → IsRing q xs
      → succ_on (size q) q.head ≢ q.cached_tail
      → slot q.slots q.head ≡ some x
      → IsRing
          (record q { head = succ_on (size q) q.head; producer = no_push; sent = q.sent ++ x ∷ [] })
          (xs ++ x ∷ [])
  publish q xs x v k e =
      let further = dist_succ_left (size q) q.head q.cached_tail v.head v.cached_tail k in
      let longer = dist_succ_left (size q) q.head q.tail v.head v.tail (apart_of_cache q xs v k) in
      let grown = length-append xs (x ∷ []) in
      record {
        sized = v.sized;
        head = succ_on-lt (size q) q.head v.head;
        tail = v.tail;
        cached_tail = v.cached_tail;
        cached_head = v.cached_head;
        held = Holds-append (size q) q.slots q.tail q.head x xs v.tail v.head v.counted v.held e;
        counted = omega (arith, grown, longer, v.counted);
        behind = omega (arith, grown, further, v.behind);
        ahead = omega (arith, grown, v.ahead);
        fifo = ap (λ ys. ys ++ x ∷ []) v.fifo ∙ append_assoc q.received xs (x ∷ []);
        producing = tt;
        consuming = Consuming-append q.tail q.cached_head xs x q.consumer v.consuming;
      }

  pub take :
      (q : Queue A) (x : A) (xs : List A)
      → IsRing q (x ∷ xs)
      → q.tail ≢ q.cached_head
      → IsRing
          (record q {
            tail = succ_on (size q) q.tail;
            consumer = no_pop;
            received = q.received ++ x ∷ [];
          })
          xs
  take q x xs v k =
      let apart : q.head ≢ q.tail =
        apart_of_dist (size q) q.head q.tail (omega (arith, v.counted)) in
      let shorter = dist_succ_right (size q) q.head q.tail v.head v.tail apart in
      let nearer =
        dist_succ_right (size q) q.cached_head q.tail v.cached_head v.tail (λ e. k (sym e)) in
      let bound = dist-lt (size q) q.head q.cached_tail v.head v.cached_tail in
      let unseen : succ_on (size q) q.tail ≢ q.cached_tail =
        λ e. omega (arith, dist_full (size q) q.tail q.cached_tail v.tail e, v.behind, bound) in
      let further = dist_succ_left (size q) q.tail q.cached_tail v.tail v.cached_tail unseen in
      record {
        sized = v.sized;
        head = v.head;
        tail = succ_on-lt (size q) q.tail v.tail;
        cached_tail = v.cached_tail;
        cached_head = v.cached_head;
        held = v.held.1;
        counted = omega (arith, shorter, v.counted);
        behind = omega (arith, further, v.behind);
        ahead = omega (arith, nearer, v.ahead);
        fifo = v.fifo ∙ sym (append_assoc q.received (x ∷ []) xs);
        producing = v.producing;
        consuming = tt;
      }
