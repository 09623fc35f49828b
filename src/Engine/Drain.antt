-- ===== src/Engine/Drain.antt =====
-- How the threads of include/pricetime/engine.hpp drain their queues: the outer loops of `match_loop`,
-- `send_loop` and `md_loop`. The queue is a list, oldest first, and `done` is the flag that the thread
-- before sets behind its last push.
pub mod Losing
use pricetime.Common.{
  ◌≡◌, refl, ap, subst, sym, ◌∙◌, List, [], ◌∷◌, ◌++◌, Bool, true, false, append_assoc, append-nil,
  inl, inr, Bool-cases, if◌then◌else◌,
}

-- Before the first `try_pop`, before the flag is read, before the second `try_pop`, and behind the loop.
pub data Place : Type 0 where
  polling checking retrying stopped : Place

module _ (A : Type 0) where
  pub record Drain : Type 0 where
    pub queue : List A
    pub done : Bool
    pub place : Place
    pub handled : List A
    pub lost : List A
    pub sent : List A

module _ {A : Type 0} where
  abbrev pub new_drain : Drain A
  new_drain = record {
    queue = [];
    done = false;
    place = polling;
    handled = [];
    lost = [];
    sent = [];
  }

  -- A value that the second `try_pop` takes is overwritten by the next one.
  unfoldable pub poll_at : Place → List A → Drain A → Drain A
  poll_at polling [] d = record d { place = checking }
  poll_at polling (a ∷ q) d = record d { queue = q; handled = d.handled ++ a ∷ [] }
  poll_at checking q d = record d { place = if d.done then retrying else polling }
  poll_at retrying [] d = record d { place = stopped }
  poll_at retrying (a ∷ q) d = record d { queue = q; place = polling; lost = d.lost ++ a ∷ [] }
  poll_at stopped q d = d

  -- One access of the draining thread.
  unfoldable pub poll : Drain A → Drain A
  unfolding poll_at
  poll d = poll_at d.place d.queue d

  -- `push_spin` tries until there is room, so the list has no bound here.
  unfoldable pub push : A → Drain A → Drain A
  push a d = record d { queue = d.queue ++ a ∷ []; sent = d.sent ++ a ∷ [] }

  unfoldable pub finish : Drain A → Drain A
  finish d = record d { done = true }

  -- Any interleaving in which nothing is pushed behind the flag.
  pub data Drains : Drain A → Type 0 where
    start : Drains new_drain
    pushes : {d : Drain A} (a : A) → Drains d → d.done ≡ false → Drains (push a d)
    finishes : {d : Drain A} → Drains d → Drains (finish d)
    polls : {d : Drain A} → Drains d → Drains (poll d)

  -- Where the loop stands once a value was lost: it sees an empty queue before it comes to the flag.
  abbrev pub Spent : Place → List A → Type 0
  Spent polling q = Unit
  Spent checking q = q ≡ []
  Spent retrying q = q ≡ []
  Spent stopped q = q ≡ []

  abbrev pub AtMostOne : List A → Bool → Place → List A → Type 0
  AtMostOne [] done place q = Unit
  AtMostOne (a ∷ []) done place q = (done ≡ true) × Spent place q
  AtMostOne (a ∷ b ∷ ls) done place q = ⊥

  -- The loop looks again only behind the flag, and stops only at an empty queue behind it.
  abbrev pub Empties : Place → Bool → List A → Type 0
  Empties polling done q = Unit
  Empties checking done q = Unit
  Empties retrying done q = done ≡ true
  Empties stopped done q = (done ≡ true) × (q ≡ [])

  -- What was sent, from the values handled, the one lost, and those in the queue.
  abbrev pub Accounts : List A → List A → List A → List A → Type 0
  Accounts [] handled q sent = sent ≡ handled ++ q
  Accounts (x ∷ ls) handled q sent =
      (xs : List A) × (ys : List A) × (ls ≡ [])
      × (handled ≡ xs ++ ys)
      × (sent ≡ xs ++ x ∷ (ys ++ q))

  pub record IsDrained (d : Drain A) : Type 0 where
    pub counted : Accounts d.lost d.handled d.queue d.sent
    pub once : AtMostOne d.lost d.done d.place d.queue
    pub ends : Empties d.place d.done d.queue
