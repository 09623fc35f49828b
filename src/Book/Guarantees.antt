-- ===== src/Book/Guarantees.antt =====
-- What the order types promise, for `add_fok_as`, `add_limit_as` and `match` of
-- include/pricetime/book.hpp.
use pricetime.Common.{
  ℕ, ◌≤◌, ◌<◌, ◌≡◌, ◌≢◌, refl, ◌⊎◌, List, [], ◌∷◌, Bool, false, inl, inr, Bool-cases, ltb, arith,
  u32, ℤ, All, All-map,
}
use pricetime.Types.{
  SelfTradePolicy, off, cancel_resting, cancel_aggressor, cancel_both, Side, bid, ask, opposite,
  Order, ok,
}
use pricetime.Level.{Level}
use pricetime.Level.Tally.{IsOrder}
use pricetime.LadderMap.Sides.{IsSide, IsActive}
use pricetime.Matching.{Aggressor, crosses, available, own}
use pricetime.Matching.Fills.{filled}
use pricetime.Matching.Reach.{available-match_levels}
use pricetime.Matching.Prices.{IsFill, IsTarget, match_levels-IsFill}
use pricetime.Book.{
  Book, Outcome, rejected, levels, validate, match_book, count_added, sweep, enter_limit,
  add_fok_as, add_limit_as,
}
use pricetime.Book.Invariant.{IsBook}
use pricetime.Book.Entry.{on_ok_inv, validate-ok}

abbrev pub aggressor : Book → ℕ → ℕ → Aggressor
aggressor b id actor = record { id = id; actor = actor; policy = b.stp }

-- All of the quantity has traded, or nothing has happened.
abbrev pub IsAllOrNothing : Book → ℕ → Outcome → Type 0
IsAllOrNothing b qty r = ((r.1 ≡ ok) × (filled r.2 ≡ qty)) ⊎ ((r.1 ≢ ok) × (r.0 ≡ b) × (r.2 ≡ []))

module _ (b : Book) (actor id : ℕ) (price : ℤ) (qty : ℕ) where
  sweep-fills :
      (side : Side)
      → IsBook 0 b
      → qty < u32
      → 0 < qty
      → qty ≤ available (aggressor b id actor) (crosses side price) qty (levels b (opposite side)) 0
      → filled (sweep b actor id side (crosses side price) qty).2 ≡ qty
  unfolding sweep match_book
  sweep-fills bid v small h k =
      (available-match_levels ask (aggressor b id actor) (crosses bid price) qty qty small b.asks
        (record {
          left = qty;
          orders = b.orders;
          counters = (count_added b qty).counters;
          execs = [];
        })
        0 v.asks.active (omega arith) (omega arith) h k).1
  sweep-fills ask v small h k =
      (available-match_levels bid (aggressor b id actor) (crosses ask price) qty qty small b.bids
        (record {
          left = qty;
          orders = b.orders;
          counters = (count_added b qty).counters;
          execs = [];
        })
        0 v.bids.active (omega arith) (omega arith) h k).1

  sweep-ok : (side : Side) (cross : ℤ → Bool) → (sweep b actor id side cross qty).1 ≡ ok
  unfolding sweep
  sweep-ok side cross = refl

  -- Fill or kill, from a book that satisfies the invariant and for a uint32 quantity: with the
  -- code `ok` the executions add up to the whole quantity, and with any other code the book is
  -- as it was and nothing was executed. This holds under every self-trade policy.
  pub add_fok_as-IsAllOrNothing :
      (side : Side)
      → IsBook 0 b
      → qty < u32
      → IsAllOrNothing b qty (add_fok_as b actor id side price qty)
  unfolding add_fok_as
  add_fok_as-IsAllOrNothing side v small =
      let reach =
        available (aggressor b id actor) (crosses side price) qty (levels b (opposite side)) 0 in
      on_ok_inv (IsAllOrNothing b qty) (validate b id qty) _ (rejected b)
        (λ e. elim (Bool-cases (ltb reach qty)) [
          | inl short ↦ rw short (inr (λ e'. cc, refl, refl))
          | inr enough ↦ rw enough (
              inl (
                sweep-ok side (crosses side price),
                sweep-fills side v small (validate-ok b id qty e).1 (ground arith),
              ))
        ])
        (λ n. inr (n, refl, refl))

abbrev pub Elem : Order → List Order → Type 0
Elem o [] = ⊥
Elem o (x ∷ xs) = (x ≡ o) ⊎ Elem o xs

-- The order rests on one of the levels.
abbrev pub Rests : Order → List Level → Type 0
Rests o [] = ⊥
Rests o (l ∷ ls) = Elem o l.queue ⊎ Rests o ls

all-Elem : (os : List Order) → All (λ o. Elem o os) os
all-Elem [] = tt
all-Elem (o ∷ os) = (inl refl, All-map os (λ x e. inr e) (all-Elem os))

all-Rests : (ls : List Level) → All (λ l. All (λ o. Rests o ls) l.queue) ls
all-Rests [] = tt
all-Rests (l ∷ ls) = (
  All-map l.queue (λ x e. inl e) (all-Elem l.queue),
  All-map ls (λ m h. All-map m.queue (λ x e. inr e) h) (all-Rests ls),
)

-- The order is another participant's, or the aggressor has none, or no policy is set.
abbrev pub IsOther : Aggressor → Order → Type 0
IsOther a o = o.participant ≡ a.actor → (a.actor ≡ 0) ⊎ (a.policy ≡ off)

own-IsOther :
    (id actor : ℕ) (p : SelfTradePolicy) (o : Order)
    → own (record { id = id; actor = actor; policy = p }) o ≡ false
    → IsOther (record { id = id; actor = actor; policy = p }) o
unfolding own
own-IsOther id actor off o h e = inr refl
own-IsOther id actor cancel_resting o h e = inl (ground arith)
own-IsOther id actor cancel_aggressor o h e = inl (ground arith)
own-IsOther id actor cancel_both o h e = inl (ground arith)

-- What the aggressor may trade with: a resting order that is not its own.
abbrev pub IsForeign : Aggressor → List Level → ℕ → Type 0
IsForeign a ls i = (o : Order) × Rests o ls × IsOther a o × (o.id ≡ i)

targets :
    (s : Side) (a : Aggressor) (cross : ℤ → Bool) (Foreign : ℕ → Type 0) (ls : List Level)
    → All (IsActive s) ls
    → All (λ l. All (λ o. own a o ≡ false → Foreign o.id) l.queue) ls
    → All (λ l. All (IsTarget a cross Foreign) l.queue) ls
targets s a cross F [] h k = tt
targets s a cross F (l ∷ ls) h k = (both l.queue h.0.0.orders k.0, targets s a cross F ls h.1 k.1)
  where
    both :
        (os : List Order)
        → All (IsOrder s l.price) os
        → All (λ o. own a o ≡ false → F o.id) os
        → All (IsTarget a cross F) os
    both [] p q = tt
    both (o ∷ os) p q = (record { positive = p.0.positive; foreign = q.0 }, both os p.1 q.1)

targets_of :
    (s : Side) (a : Aggressor) (cross : ℤ → Bool) (ls : List Level)
    → IsSide s ls
    → All (λ l. All (IsTarget a cross (IsForeign a ls)) l.queue) ls
targets_of s a cross ls v = targets s a cross (IsForeign a ls) ls v.active (
    All-map ls
      (λ m h. All-map m.queue (λ o r e. (o, r, own-IsOther a.id a.actor a.policy o e, refl)) h)
      (all-Rests ls))

module _ (b : Book) (actor id qty : ℕ) (cross : ℤ → Bool) where
  -- From a book that satisfies the invariant, every fill of a match, with or without a limit, is
  -- at a price that the limit crosses, for at least one share, and against an order that rested
  -- on the opposite side and that, where the participant is not 0 and a self-trade policy is
  -- set, is another participant's.
  pub match_book-IsFill :
      (side : Side)
      → IsBook 0 b
      → let a = aggressor b id actor in
        All
          (IsFill a cross (IsForeign a (levels b (opposite side))))
          (match_book (count_added b qty) id actor side cross qty).2
  unfolding match_book
  match_book-IsFill bid v =
      let a = aggressor b id actor in
      match_levels-IsFill a cross (IsForeign a b.asks) b.asks _
        (targets_of ask a cross b.asks v.asks) tt
  match_book-IsFill ask v =
      let a = aggressor b id actor in
      match_levels-IsFill a cross (IsForeign a b.bids) b.bids _
        (targets_of bid a cross b.bids v.bids) tt

-- From a book that satisfies the invariant, every fill of a limit order is reported for that
-- order, at a price within its limit, for at least one share, and against an order that rested
-- on the opposite side and that, where the participant is not 0 and a self-trade policy is set,
-- is another participant's.
pub add_limit_as-IsFill :
    (b : Book) (actor id : ℕ) (side : Side) (price : ℤ) (qty : ℕ)
    → IsBook 0 b
    → let a = aggressor b id actor in
      All
        (IsFill a (crosses side price) (IsForeign a (levels b (opposite side))))
        (add_limit_as b actor id side price qty).2
unfolding add_limit_as enter_limit
add_limit_as-IsFill b actor id side price qty v =
    let a = aggressor b id actor in
    on_ok_inv
      (λ (r : Outcome).
        All (IsFill a (crosses side price) (IsForeign a (levels b (opposite side)))) r.2)
      (validate b id qty) _ (rejected b)
      (λ _. match_book-IsFill b actor id qty (crosses side price) side v) (λ _. tt)
