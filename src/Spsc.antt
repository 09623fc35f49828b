-- ===== src/Spsc.antt =====
-- include/pricetime/spsc_queue.hpp: the ring between two threads, one access to the shared indices at
-- a time. `mask_ + 1` is a power of two, so `& mask_` is the remainder by it. `sent` and `received`
-- record the values of the calls that have returned true.
pub mod Ring
pub mod Invariant
pub mod Threads
pub mod Doubling
pub mod Contract
use mathlib.Core.Option
use pricetime.Common.{
  ℕ, zero, suc, ◌+◌, ◌-◌, ◌*◌, ◌%◌, List, [], ◌∷◌, ◌++◌, Bool, true, false, Option, none, some, ltb,
  ◌==◌, if◌then◌else◌, length, set, replicate, u64, add_u64,
}

-- Where `try_push` stands, with its argument.
pub data Producer (A : Type 0) : Type 0 where
  no_push : Producer A
  full_test : A → Producer A  -- before the load of `tail_`
  write_slot : A → Producer A
  publish_head : A → Producer A  -- before the store to `head_`

-- Where `try_pop` stands.
pub data Consumer (A : Type 0) : Type 0 where
  no_pop : Consumer A
  empty_test : Consumer A  -- before the load of `head_`
  read_slot : Consumer A
  publish_tail : A → Consumer A  -- before the store to `tail_`, with `out`

pub record Queue (A : Type 0) : Type 0 where
  pub slots : List A
  pub mask : ℕ
  pub head : ℕ
  pub cached_tail : ℕ
  pub tail : ℕ
  pub cached_head : ℕ
  pub producer : Producer A
  pub consumer : Consumer A
  pub sent : List A
  pub received : List A

-- The loop of `round_up_pow2`, from `p`, which is a size_t; `none` means that the fuel ran out.
unfoldable pub round_up_pow2 : ℕ → ℕ → ℕ → Option ℕ
round_up_pow2 zero p n = none
round_up_pow2 (suc fuel) p n =
    let doubled = round_up_pow2 fuel (p * 2 % u64) n in if ltb p n then doubled else some p

module _ {A : Type 0} where
  -- The constructor's state, on its slots.
  abbrev pub new_queue : List A → ℕ → Queue A
  new_queue slots mask = record {
    slots = slots;
    mask = mask;
    head = 0;
    cached_tail = 0;
    tail = 0;
    cached_head = 0;
    producer = no_push;
    consumer = no_pop;
    sent = [];
    received = [];
  }

  abbrev pub slot : List A → ℕ → Option A
  slot [] i = none
  slot (x ∷ xs) zero = some x
  slot (x ∷ xs) (suc i) = slot xs i

  abbrev pub after : Queue A → ℕ → ℕ
  after q i = (i + 1) % (q.mask + 1)

  -- The call of `try_push`, up to its first access to what the consumer writes.
  unfoldable pub start_push : Queue A → A → Queue A
  start_push q v = record q {
    producer = if after q q.head == q.cached_tail then full_test v else write_slot v;
  }

  -- The producer's next access.
  unfoldable pub step_push : Producer A → Queue A → Queue A
  step_push no_push q = q
  step_push (full_test v) q = record q {
    cached_tail = q.tail;
    producer = if after q q.head == q.tail then no_push else write_slot v;
  }
  step_push (write_slot v) q = record q { slots = set q.slots q.head v; producer = publish_head v }
  step_push (publish_head v) q = record q {
    head = after q q.head;
    producer = no_push;
    sent = q.sent ++ v ∷ [];
  }

  unfoldable pub start_pop : Queue A → Queue A
  start_pop q = record q { consumer = if q.tail == q.cached_head then empty_test else read_slot }

  -- `out = slots_[tail]`, in a call that goes on to the store of `tail_`.
  unfoldable pub taken : Queue A → Option A → Queue A
  taken q none = q
  taken q (some x) = record q { consumer = publish_tail x }

  -- The consumer's next access. The slot that is read is within the array.
  unfoldable pub step_pop : Consumer A → Queue A → Queue A
  step_pop no_pop q = q
  step_pop empty_test q = record q {
    cached_head = q.head;
    consumer = if q.tail == q.head then no_pop else read_slot;
  }
  step_pop read_slot q = taken q (slot q.slots q.tail)
  step_pop (publish_tail x) q = record q {
    tail = after q q.tail;
    consumer = no_pop;
    received = q.received ++ x ∷ [];
  }

  -- The constructor: `T[]` default-initialises the slots.
  unfoldable pub construct : ℕ → A → ℕ → Option (Queue A)
  construct fuel blank capacity =
      Option.map (λ p. new_queue (replicate p blank) (p - 1))
        (round_up_pow2 fuel 1 (add_u64 capacity 1))

  -- `(head - tail) & mask_`
  unfoldable pub size_approx : Queue A → ℕ
  size_approx q = (q.head + (q.mask + 1) - q.tail) % (q.mask + 1)

  unfoldable pub empty_approx : Queue A → Bool
  empty_approx q = q.head == q.tail

  abbrev pub capacity : Queue A → ℕ
  capacity q = q.mask
