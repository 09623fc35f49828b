-- ===== src/Book/Same.antt =====
-- Two books of include/pricetime/book.hpp with the same resting orders, whatever their counters and their
-- self-trade policies: the operations without a participant leave them the same.
use pricetime.Common.{
  ℕ, ◌≡◌, refl, ap, sym, ◌∙◌, subst, List, Bool, true, false, inl, inr, Bool-cases, ltb, ◌==◌,
  if◌then◌else◌, none, some, Option-cases, ℤ, eq_of_some,
}
use pricetime.Types.{Side, bid, ask, opposite, Order, Result}
use pricetime.IdMap.{StdIdMap, find, erase, insert}
use pricetime.Level.{Level, remove, reduce}
use pricetime.LadderMap.{put_level, rest_in, settle}
use pricetime.Matching.{Handle}
use pricetime.Book.{
  Book, Outcome, levels, with_levels, rest, unrest, lookup, deref, follow, cancel, cancel_open,
  cancel_count, count_taken, consume, consume_open,
}

pub record SameOrders (m b : Book) : Type 0 where
  pub bids : m.bids ≡ b.bids
  pub asks : m.asks ≡ b.asks
  pub orders : m.orders ≡ b.orders

pub SameOrders-refl : (b : Book) → SameOrders b b
SameOrders-refl b = record { bids = refl; asks = refl; orders = refl }

pub levels-Same : (m b : Book) (s : Side) → SameOrders m b → levels m s ≡ levels b s
levels-Same m b bid v = v.bids
levels-Same m b ask v = v.asks

pub SameOrders-of :
    (m b : Book) (s : Side)
    → levels m s ≡ levels b s
    → levels m (opposite s) ≡ levels b (opposite s)
    → m.orders ≡ b.orders
    → SameOrders m b
SameOrders-of m b bid near far o = record { bids = near; asks = far; orders = o }
SameOrders-of m b ask near far o = record { bids = far; asks = near; orders = o }

pub with_levels-Same :
    (m b : Book) (s : Side) (ls ls' : List Level)
    → ls ≡ ls'
    → SameOrders m b
    → SameOrders (with_levels m s ls) (with_levels b s ls')
with_levels-Same m b bid ls ls' e v = record { bids = e; asks = v.asks; orders = v.orders }
with_levels-Same m b ask ls ls' e v = record { bids = v.bids; asks = e; orders = v.orders }

with_orders-Same :
    (m b : Book) (os os' : StdIdMap Handle)
    → os ≡ os'
    → SameOrders m b
    → SameOrders (record m { orders = os }) (record b { orders = os' })
with_orders-Same m b os os' e v = record { bids = v.bids; asks = v.asks; orders = e }

pub rest-Same :
    (m b : Book) (id : ℕ) (side : Side) (price : ℤ) (qty actor : ℕ)
    → SameOrders m b
    → SameOrders (rest m id side price qty actor) (rest b id side price qty actor)
unfolding rest
rest-Same m b id s price qty actor v =
    let o : Order = record { id = id; price = price; qty = qty; side = s; participant = actor } in
    with_orders-Same _ _ _ _
      (ap (λ os. (insert os id (record { side = s; price = price })).0) v.orders)
      (with_levels-Same m b s _ _ (ap (rest_in s price o) (levels-Same m b s v)) v)

unrest-Same :
    (m b : Book) (e : Level × Order) → SameOrders m b → SameOrders (unrest m e) (unrest b e)
unfolding unrest
unrest-Same m b (l, o) v =
    with_orders-Same _ _ _ _ (ap (λ os. erase os o.id) v.orders)
      (with_levels-Same m b o.side _ _ (ap (settle (remove l o)) (levels-Same m b o.side v)) v)

pub cancel_open-Same :
    (m b : Book) (e : Level × Order)
    → SameOrders m b
    → SameOrders (cancel_open m e) (cancel_open b e)
unfolding cancel_open
cancel_open-Same m b (l, o) v =
    unrest-Same (cancel_count o.qty m) (cancel_count o.qty b) (l, o)
      (record { bids = v.bids; asks = v.asks; orders = v.orders })

counted-Same :
    (x y : Bool) (q : ℕ) (m b : Book)
    → SameOrders m b
    → SameOrders (count_taken x q m) (count_taken y q b)
counted-Same true true q m b v = record { bids = v.bids; asks = v.asks; orders = v.orders }
counted-Same true false q m b v = record { bids = v.bids; asks = v.asks; orders = v.orders }
counted-Same false true q m b v = record { bids = v.bids; asks = v.asks; orders = v.orders }
counted-Same false false q m b v = record { bids = v.bids; asks = v.asks; orders = v.orders }

-- An execution and a reduction take the same from the book.
pub consume_open-Same :
    (m b : Book) (qty : ℕ) (x y : Bool) (e : Level × Order)
    → SameOrders m b
    → SameOrders (consume_open m qty x e).0 (consume_open b qty y e).0
unfolding consume_open
consume_open-Same m b qty x y (l, o) v =
    let take = if ltb qty o.qty then qty else o.qty in
    let w = counted-Same x y take m b v in
    elim (Bool-cases (qty == 0)) [
      | inl nothing ↦ rw nothing v
      | inr some_qty ↦ elim (Bool-cases (take == o.qty)) [
        | inl whole ↦ rw (some_qty, whole) (unrest-Same _ _ (l, o) w)
        | inr part ↦
            rw (some_qty, part)
              (with_levels-Same _ _ o.side _ _
                (ap (put_level l.price (reduce l o take)) (levels-Same m b o.side v)) w)
      ]
    ]

pub deref-Same : (m b : Book) (id : ℕ) (h : Handle) → SameOrders m b → deref m id h ≡ deref b id h
unfolding deref
deref-Same m b id h v = rw (levels-Same m b h.side v, deref) refl

pub lookup-found :
    {A : Type 0} (b : Book) (id : ℕ) (u : A) (f : Level × Order → A) (h : Handle)
    (e : Level × Order)
    → find b.orders id ≡ some h
    → deref b id h ≡ some e
    → lookup b id u f ≡ some (f e)
unfolding lookup
lookup-found b id u f h e found leads = rw (found, lookup) (ap (λ d. follow d f) leads)

pub lookup-absent :
    {A : Type 0} (b : Book) (id : ℕ) (u : A) (f : Level × Order → A)
    → find b.orders id ≡ none
    → lookup b id u f ≡ some u
unfolding lookup
lookup-absent b id u f absent = rw (absent, lookup) refl

lookup-lost :
    {A : Type 0} (b : Book) (id : ℕ) (u : A) (f : Level × Order → A) (h : Handle)
    → find b.orders id ≡ some h
    → deref b id h ≡ none
    → lookup b id u f ≡ none
unfolding lookup
lookup-lost b id u f h found lost = rw (found, lookup) (ap (λ d. follow d f) lost)

-- Both lookups answer, or none.
pub lookup-Same :
    {A B : Type 0} (P : A → B → Type 0) (m b : Book) (id : ℕ) (u : A) (u' : B)
    (f : Level × Order → A) (g : Level × Order → B) (y : B)
    → SameOrders m b
    → P u u'
    → ((e : Level × Order) → P (f e) (g e))
    → lookup b id u' g ≡ some y
    → (x : A) × (lookup m id u f ≡ some x) × P x y
lookup-Same P m b id u u' f g y v p q run = elim (Option-cases (find b.orders id)) [
  | inl absent ↦
      let same : u' ≡ y = eq_of_some (sym (lookup-absent b id u' g absent) ∙ run) in
      (u, lookup-absent m id u f (ap (λ os. find os id) v.orders ∙ absent), subst (P u) same p)
  | inr (h, there) ↦ elim (Option-cases (deref b id h)) [
    | inl lost ↦ absurd (let z = sym (lookup-lost b id u' g h there lost) ∙ run in cc)
    | inr (e, leads) ↦
        let same : g e ≡ y = eq_of_some (sym (lookup-found b id u' g h e there leads) ∙ run) in
        (
          f e,
          lookup-found m id u f h e (ap (λ os. find os id) v.orders ∙ there)
              (deref-Same m b id h v ∙ leads),
          subst (P (f e)) same (q e),
        )
  ]
]

pub cancel-Same :
    (m b : Book) (id : ℕ) (r : Outcome)
    → SameOrders m b
    → cancel b id ≡ some r
    → (r' : Outcome) × (cancel m id ≡ some r') × SameOrders r'.0 r.0
unfolding cancel
cancel-Same m b id r v run =
    lookup-Same (λ (x y : Outcome). SameOrders x.0 y.0) m b id _ _ _ _ r v v
      (λ e. cancel_open-Same m b e v) run

pub consume-Same :
    (m b : Book) (id qty : ℕ) (x y : Bool) (r : Book × Result × ℕ)
    → SameOrders m b
    → consume b id qty y ≡ some r
    → (r' : Book × Result × ℕ) × (consume m id qty x ≡ some r') × SameOrders r'.0 r.0
unfolding consume
consume-Same m b id qty x y r v run =
    lookup-Same (λ (p q : Book × Result × ℕ). SameOrders p.0 q.0) m b id _ _ _ _ r v v
      (λ e. consume_open-Same m b qty x y e v) run
