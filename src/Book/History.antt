-- ===== src/Book/History.antt =====
-- The histories of the order book of include/pricetime/book.hpp: one step for each public operation,
-- in any order and with any arguments.
use pricetime.Common.{
  ℕ, suc, ◌+◌, ◌≤◌, ◌<◌, ◌≡◌, Bool, true, false, arith, ℤ, Option, some, u32, eq_of_some, sym, ◌∙◌,
  subst,
}
use pricetime.Types.{Side, Order, SelfTradePolicy, Result}
use pricetime.Level.{Level}
use pricetime.Matching.{crosses}
use pricetime.Book.{
  Book, Outcome, rejected, empty_book, set_self_trade_policy, validate, validate_new, add_limit_as,
  add_ioc_as, add_market_as, add_fok_as, insert_passive, cancel, cancel_open, consume, replace,
  replace_open, cancel_count,
}
use pricetime.Book.Invariant.{IsBook, HasRoom, resting, empty_book-IsBook}
use pricetime.Book.Entry.{on_ok_inv, if_inv}
use pricetime.Book.Removal.{lookup_inv, cancel_open-IsBook}
use pricetime.Book.Index.{empty_book-IsIndexed}
use pricetime.Book.Sound.{
  IsSound, Grown, add_limit_as-Grown, add_ioc_as-Grown, add_market_as-Grown, add_fok_as-Grown,
  insert_passive-Grown, cancel-Grown, consume-Grown, replace-Grown,
}
use pricetime.Book.Uncrossed.{
  IsUncrossed, sweep-IsUncrossed, enter_limit-IsUncrossed, unrest-IsUncrossed,
  consume_open-IsUncrossed,
}

-- One operation, whatever it answers. `feed` says whether the book takes passive orders from a feed;
-- without them it only trades.
pub data Step (feed : Bool) (b : Book) : Book → Type 0 where
  policy : (p : SelfTradePolicy) → Step feed b (set_self_trade_policy b p)
  limit :
      (actor id : ℕ) (side : Side) (price : ℤ) (qty : ℕ)
      → qty < u32
      → Step feed b (add_limit_as b actor id side price qty).0
  immediate :
      (actor id : ℕ) (side : Side) (price : ℤ) (qty : ℕ)
      → Step feed b (add_ioc_as b actor id side price qty).0
  all_or_none :
      (actor id : ℕ) (side : Side) (price : ℤ) (qty : ℕ)
      → Step feed b (add_fok_as b actor id side price qty).0
  at_market :
      (actor id : ℕ) (side : Side) (qty : ℕ) → Step feed b (add_market_as b actor id side qty).0
  passive :
      (id : ℕ) (side : Side) (price : ℤ) (qty : ℕ)
      → feed ≡ true
      → qty < u32
      → Step feed b (insert_passive b id side price qty).0
  canceled : (id : ℕ) {r : Outcome} → cancel b id ≡ some r → Step feed b r.0
  consumed :
      (id qty : ℕ) (is_execution : Bool) {r : Book × Result × ℕ}
      → consume b id qty is_execution ≡ some r
      → Step feed b r.0
  replaced :
      (old_id new_id : ℕ) (price : ℤ) (qty : ℕ) {r : Outcome}
      → qty < u32
      → replace b old_id new_id price qty ≡ some r
      → Step feed b r.0

-- The books after `n` operations on an empty one.
pub data Reach (feed : Bool) : ℕ → Book → Type 0 where
  start : Reach feed 0 empty_book
  next : {n : ℕ} {b b' : Book} → Reach feed n b → Step feed b b' → Reach feed (suc n) b'

-- An operation has one answer.
answered :
    {A : Type 0} (P : A → Type 0) {m : Option A} {r s : A} → m ≡ some s → m ≡ some r → P s → P r
answered P e e' = subst P (eq_of_some (sym e ∙ e'))

Step-Grown : {feed : Bool} {b b' : Book} → Step feed b b' → HasRoom b → IsSound b → Grown b b'
Step-Grown {b} (policy p) room v = record {
  sound = record {
    book = record { bids = v.book.bids; asks = v.book.asks; balanced = v.book.balanced };
    index = v.index;
  };
  room = omega arith;
}
Step-Grown {b} (limit actor id side price qty small) room v =
    add_limit_as-Grown b actor id side qty v price small room
Step-Grown {b} (immediate actor id side price qty) room v =
    add_ioc_as-Grown b actor id side qty v price
Step-Grown {b} (all_or_none actor id side price qty) room v =
    add_fok_as-Grown b actor id side qty v price
Step-Grown {b} (at_market actor id side qty) room v = add_market_as-Grown b actor id side qty v
Step-Grown {b} (passive id side price qty f small) room v =
    insert_passive-Grown b id side price qty small room v
Step-Grown {b} (canceled id run) room v =
    let (r, runs, g) = cancel-Grown b v id in answered (λ (x : Outcome). Grown b x.0) runs run g
Step-Grown {b} (consumed id qty x run) room v =
    let (r, runs, g) = consume-Grown b v id qty x in
    answered (λ (y : Book × Result × ℕ). Grown b y.0) runs run g
Step-Grown {b} (replaced old_id new_id price qty small run) room v =
    let (r, runs, g) = replace-Grown b v old_id new_id price qty small room in
    answered (λ (x : Outcome). Grown b x.0) runs run g

-- After `n` operations on an empty book, in any order and with any arguments but uint32
-- quantities for what may rest, with `n + 1` below 2 ^ 32: the invariant of the book holds, the
-- index and the levels agree, so that no pointer of the index dangles, and at most `n` orders
-- rest.
pub Reach-IsSound :
    {feed : Bool} {n : ℕ} {b : Book} → Reach feed n b → n + 1 < u32 → IsSound b × (resting b ≤ n)
Reach-IsSound start few =
    (record { book = empty_book-IsBook; index = empty_book-IsIndexed }, omega arith)
Reach-IsSound (next {n} {b} r st) few =
    let (v, held) = Reach-IsSound r (omega arith) in
    let g = Step-Grown st (omega (arith, held)) v in (g.sound, omega (arith, held, g.room))

-- In every book that is reached by `n` operations on an empty one, with `n + 2` below 2 ^ 32, a
-- cancel, a removal that the feed reports and a replace by a uint32 quantity all answer,
-- whatever the ids and the price: none of them follows a dangling pointer.
pub Reach-answers :
    {feed : Bool} {n : ℕ} {b : Book}
    → Reach feed n b
    → n + 2 < u32
    → (id new_id : ℕ) (price : ℤ) (qty : ℕ) (is_execution : Bool) → qty < u32
    → ((r : Outcome) × (cancel b id ≡ some r))
      × ((r : Book × Result × ℕ) × (consume b id qty is_execution ≡ some r))
      × ((r : Outcome) × (replace b id new_id price qty ≡ some r))
Reach-answers {b} r few id new_id price qty x small =
    let (v, held) = Reach-IsSound r (omega arith) in
    let (c, runs, _) = cancel-Grown b v id in
    let (d, runs', _) = consume-Grown b v id qty x in
    let (e, runs'', _) = replace-Grown b v id new_id price qty small (omega (arith, held)) in
    ((c, runs), (d, runs'), (e, runs''))

canceled_open : (b : Book) (e : Level × Order) → IsUncrossed b → IsUncrossed (cancel_open b e)
unfolding cancel_open
canceled_open b (l, o) v = unrest-IsUncrossed (cancel_count o.qty b) (l, o) v

limit_after :
    (b : Book) (actor id : ℕ) (side : Side) (price : ℤ) (qty : ℕ)
    → IsUncrossed b
    → IsBook 0 b
    → IsUncrossed (add_limit_as b actor id side price qty).0
unfolding add_limit_as
limit_after b actor id side price qty v k =
    on_ok_inv (λ (r : Outcome). IsUncrossed r.0) (validate b id qty) _ (rejected b)
      (λ _. enter_limit-IsUncrossed b actor id side qty v price k) (λ _. v)

-- A book that takes no passive orders is never crossed.
Step-IsUncrossed : {b b' : Book} → Step false b b' → IsBook 0 b → IsUncrossed b → IsUncrossed b'
unfolding add_ioc_as add_fok_as add_market_as cancel consume replace replace_open
Step-IsUncrossed (policy p) k v = v
Step-IsUncrossed {b} (limit actor id side price qty small) k v =
    limit_after b actor id side price qty v k
Step-IsUncrossed {b} (immediate actor id side price qty) k v =
    on_ok_inv (λ (r : Outcome). IsUncrossed r.0) (validate b id qty) _ (rejected b)
      (λ _. sweep-IsUncrossed b actor id side qty v (crosses side price)) (λ _. v)
Step-IsUncrossed {b} (all_or_none actor id side price qty) k v =
    on_ok_inv (λ (r : Outcome). IsUncrossed r.0) (validate b id qty) _ (rejected b)
      (λ _.
        if_inv (λ (r : Outcome). IsUncrossed r.0) _ _ _ v
          (sweep-IsUncrossed b actor id side qty v (crosses side price)))
      (λ _. v)
Step-IsUncrossed {b} (at_market actor id side qty) k v =
    on_ok_inv (λ (r : Outcome). IsUncrossed r.0) (validate b id qty) _ (rejected b)
      (λ _. sweep-IsUncrossed b actor id side qty v (λ _. true)) (λ _. v)
Step-IsUncrossed (passive id side price qty f small) k v = cc
Step-IsUncrossed {b} (canceled id {r} run) k v =
    lookup_inv (λ (x : Outcome). IsUncrossed x.0) b id _ _ r run k v (λ e _ _. canceled_open b e v)
Step-IsUncrossed {b} (consumed id qty x {r} run) k v =
    lookup_inv (λ (y : Book × Result × ℕ). IsUncrossed y.0) b id _ _ r run k v
      (λ e at _. consume_open-IsUncrossed b qty x e at v)
Step-IsUncrossed {b} (replaced old_id new_id price qty {r} small run) k v =
    lookup_inv (λ (y : Outcome). IsUncrossed y.0) b old_id _ _ r run k v
      (λ e at _.
        on_ok_inv (λ (y : Outcome). IsUncrossed y.0) (validate_new b old_id new_id qty) _
          (rejected b)
          (λ _.
            limit_after (cancel_open b e) e.1.participant new_id e.1.side price qty
              (canceled_open b e v) (cancel_open-IsBook b e at k))
          (λ _. v))

-- A book that is reached from the empty one by `n` operations, passive orders of a feed apart,
-- with `n + 1` below 2 ^ 32, is not crossed.
pub Reach-IsUncrossed : {n : ℕ} {b : Book} → Reach false n b → n + 1 < u32 → IsUncrossed b
Reach-IsUncrossed start few = tt
Reach-IsUncrossed (next {n} {b} r st) few =
    Step-IsUncrossed st (Reach-IsSound r (omega arith)).0.book (Reach-IsUncrossed r (omega arith))
