-- ===== src/Tests/Queues.antt =====
-- The properties of the queue between threads, of the node pool and of the pooled ladder at small inputs.
use pricetime.Common.{
  ℕ, ◌<◌, ◌≤◌, ◌^◌, ◌+◌, ◌≡◌, refl, pos, List, [], ◌∷◌, ◌++◌, Bool, true, false, some, none, ◌⊎◌,
  arith, length,
}
use pricetime.Types.{bid}
use pricetime.Spsc.{
  Queue, new_queue, construct, round_up_pow2, start_push, step_push, start_pop, step_pop,
  size_approx, capacity,
}
use pricetime.Spsc.Threads.{Reach, start, next, push, push_on, pop}
use pricetime.Spsc.Contract.{construct-answers, Reach-fifo, refused_push, refused_pop}
use pricetime.OrderPool.{
  alloc, alloc_from, release, allocated, new_pool, put, OrderPool, take_slot, with_room,
}
use pricetime.OrderPool.Nodes
use pricetime.OrderPool.Nodes.{alloc-fresh, alloc-reuses}
use pricetime.LadderPooled.{PooledSide, max_cached}
use pricetime.LadderPooled.Recycling.{
  Operation, create, empty, run_pooled, run_map, run_pooled-run_map,
}

-- A queue for one value, with two slots.
abbrev ring : Queue ℕ
ring = new_queue (0 ∷ 0 ∷ []) 1

ring-made : construct 2 0 1 ≡ some ring
unfolding construct round_up_pow2
ring-made = refl

construct-answers_example :
    ((1 < 2 ^ 63)
      × ((q : Queue ℕ) × (construct {A = ℕ} 64 0 1 ≡ some q)
          × (1 ≤ capacity q)
          × ((m : ℕ) × (q.mask + 1 ≡ 2 ^ m))))
    ⊎ ((2 ^ 63 ≤ 1) × ((fuel : ℕ) → construct {A = ℕ} fuel 0 1 ≡ none))
construct-answers_example = construct-answers 0 1 (omega arith)

abbrev called : Queue ℕ
called = start_push ring 5

abbrev written : Queue ℕ
written = step_push called.producer called

abbrev pushed : Queue ℕ
pushed = step_push written.producer written

-- The second push finds the queue full.
abbrev full : Queue ℕ
full = start_push pushed 6

full-Reach : Reach ring full
unfolding start_push step_push
full-Reach = next (next (next (next start (push 5 refl)) push_on) push_on) (push 6 refl)

Reach-fifo_example :
    (xs : List ℕ) × (full.sent ≡ full.received ++ xs)
    × (length xs ≤ capacity ring)
    × (size_approx full ≡ length xs)
Reach-fifo_example = Reach-fifo 0 2 1 ring ring-made full full-Reach

refused_push_example :
    (xs : List ℕ) × (full.sent ≡ full.received ++ xs) × (length xs ≡ capacity ring)
unfolding start_push step_push
refused_push_example = refused_push 0 2 1 ring ring-made full full-Reach 6 refl refl

abbrev asked : Queue ℕ
asked = start_pop ring

refused_pop_example : asked.sent ≡ asked.received
unfolding start_pop step_pop
refused_pop_example = refused_pop 0 2 1 ring ring-made asked (next start (pop refl)) refl refl

-- A node that was taken and given back.
abbrev taken_once : OrderPool
taken_once = (alloc new_pool).1

abbrev given_back : OrderPool
given_back = release 0 taken_once

abbrev holder : ℕ → Bool
holder = put (put (λ _. false) 0 true) 0 false

given_back-Reach : Nodes.Reach given_back holder
unfolding alloc_from take_slot with_room
given_back-Reach = Nodes.give_back 0 (Nodes.allocate Nodes.start) refl

alloc-fresh_example :
    (holder (alloc given_back).0 ≡ false) × ((alloc given_back).0 < allocated (alloc given_back).1)
alloc-fresh_example = alloc-fresh given_back holder given_back-Reach

abbrev operations : List Operation
operations = create (pos 10) ∷ create (pos 12) ∷ empty (pos 10) ∷ create (pos 11) ∷ []

abbrev no_levels : PooledSide
no_levels = record { levels = []; cache = [] }

run_pooled-run_map_example :
    ((run_pooled bid operations no_levels).levels ≡ run_map bid operations [])
    × (length (run_pooled bid operations no_levels).cache ≤ max_cached)
run_pooled-run_map_example = run_pooled-run_map bid operations no_levels (omega arith)
