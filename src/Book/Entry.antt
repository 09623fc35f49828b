-- ===== src/Book/Entry.antt =====
-- The order entry of include/pricetime/book.hpp and the invariant of the book.
use pricetime.Common.{
  ℕ, ◌<◌, ◌≡◌, ◌≢◌, refl, Bool, true, false, inl, inr, Bool-cases, ltb, arith, u32, ℤ,
  if◌then◌else◌, none, subst,
}
use pricetime.Types.{
  Side, Result, ok, rejected_bad_id, rejected_bad_qty, rejected_bad_price, rejected_duplicate_id,
  rejected_unknown_id, rejected_no_liquidity,
}
use pricetime.IdMap.{find}
use pricetime.Matching.{crosses}
use pricetime.Book.{
  Book, Outcome, rejected, on_ok, validate, count_added, match_book, enter_limit, add_limit_as,
  sweep, add_ioc_as, add_market_as, add_fok_as, insert_passive,
}
use pricetime.Book.Invariant.{
  IsBook, HasRoom, match_book-Matched, rest-IsBook, count_added-IsBook, cancel_count-IsBook,
}

-- What holds of the operation that runs and of every rejection holds of the outcome.
pub on_ok_inv {κ} :
    {A : Type 0} (P : A → Type κ) (r : Result) (next : A) (reject : Result → A)
    → (r ≡ ok → P next)
    → (r ≢ ok → P (reject r))
    → P (on_ok r next reject)
on_ok_inv P ok next reject h k = h refl
on_ok_inv P rejected_bad_id next reject h k = k (λ e. cc)
on_ok_inv P rejected_bad_qty next reject h k = k (λ e. cc)
on_ok_inv P rejected_bad_price next reject h k = k (λ e. cc)
on_ok_inv P rejected_duplicate_id next reject h k = k (λ e. cc)
on_ok_inv P rejected_unknown_id next reject h k = k (λ e. cc)
on_ok_inv P rejected_no_liquidity next reject h k = k (λ e. cc)

pub if_inv {κ} :
    {A : Type 0} (P : A → Type κ) (t : Bool) (x y : A) → P x → P y → P (if t then x else y)
if_inv P true x y h k = h
if_inv P false x y h k = k

-- What validation has checked when it passes.
pub validate-ok :
    (b : Book) (id qty : ℕ)
    → validate b id qty ≡ ok
    → (id ≢ 0) × (0 < qty) × (find b.orders id ≡ none)
unfolding validate
validate-ok b id qty e = ground arith

module _ (b : Book) (actor id : ℕ) (side : Side) (qty : ℕ) (v : IsBook 0 b) where
  added : IsBook qty (count_added b qty)
  added = count_added-IsBook b qty v

  pub sweep-IsBook : (cross : ℤ → Bool) → IsBook 0 (sweep b actor id side cross qty).0
  unfolding sweep
  sweep-IsBook cross =
      let m = match_book-Matched (count_added b qty) id actor side cross qty added in
      cancel_count-IsBook (match_book (count_added b qty) id actor side cross qty).1
        (match_book (count_added b qty) id actor side cross qty).0 m.book

  enter_limit-IsBook :
      (price : ℤ) → qty < u32 → HasRoom b → IsBook 0 (enter_limit b actor id side price qty).0
  unfolding enter_limit
  enter_limit-IsBook price small room =
      let r = match_book (count_added b qty) id actor side (crosses side price) qty in
      let m = match_book-Matched (count_added b qty) id actor side (crosses side price) qty added in
      elim (Bool-cases (ltb 0 r.1)) [
        | inl more ↦ rw more (
            rest-IsBook r.0 id side price r.1 actor (ground arith) (omega (arith, m.left))
              (omega (arith, m.room)) m.book)
        | inr done ↦
            let none_left : r.1 ≡ 0 = ground arith in
            rw done (subst (λ d. IsBook d r.0) none_left m.book)
      ]

  -- A limit order of a uint32 quantity, entered into a book that satisfies the invariant and has
  -- room for one more order, keeps the invariant, whether it is rejected, fills or rests: both
  -- sides stay sorted, the aggregates of every level right, and every share added is resting,
  -- traded on both sides, executed or canceled, modulo 2 ^ 64.
  pub add_limit_as-IsBook :
      (price : ℤ) → qty < u32 → HasRoom b → IsBook 0 (add_limit_as b actor id side price qty).0
  unfolding add_limit_as
  add_limit_as-IsBook price small room =
      on_ok_inv (λ (r : Outcome). IsBook 0 r.0) (validate b id qty) _ (rejected b)
        (λ _. enter_limit-IsBook price small room) (λ _. v)

  -- An immediate-or-cancel order keeps the invariant of the book on every branch.
  pub add_ioc_as-IsBook : (price : ℤ) → IsBook 0 (add_ioc_as b actor id side price qty).0
  unfolding add_ioc_as
  add_ioc_as-IsBook price =
      on_ok_inv (λ (r : Outcome). IsBook 0 r.0) (validate b id qty) _ (rejected b)
        (λ _. sweep-IsBook (crosses side price)) (λ _. v)

  -- A market order keeps the invariant of the book on every branch.
  pub add_market_as-IsBook : IsBook 0 (add_market_as b actor id side qty).0
  unfolding add_market_as
  add_market_as-IsBook =
      on_ok_inv (λ (r : Outcome). IsBook 0 r.0) (validate b id qty) _ (rejected b)
        (λ _. sweep-IsBook (λ _. true)) (λ _. v)

  -- A fill-or-kill order keeps the invariant of the book on every branch.
  pub add_fok_as-IsBook : (price : ℤ) → IsBook 0 (add_fok_as b actor id side price qty).0
  unfolding add_fok_as
  add_fok_as-IsBook price =
      on_ok_inv (λ (r : Outcome). IsBook 0 r.0) (validate b id qty) _ (rejected b)
        (λ _. if_inv (λ (r : Outcome). IsBook 0 r.0) _ _ _ v (sweep-IsBook (crosses side price)))
        (λ _. v)

-- An order of a uint32 quantity that the feed adds to a book that satisfies the invariant and
-- has room for one more order keeps the invariant, whether it rests or is rejected.
pub insert_passive-IsBook :
    (b : Book) (id : ℕ) (side : Side) (price : ℤ) (qty : ℕ)
    → qty < u32
    → HasRoom b
    → IsBook 0 b
    → IsBook 0 (insert_passive b id side price qty).0
unfolding insert_passive
insert_passive-IsBook b id side price qty small room v =
    on_ok_inv (λ (r : Book × Result). IsBook 0 r.0) (validate b id qty) _ (λ r. (b, r))
      (λ e.
        rest-IsBook (count_added b qty) id side price qty 0 (validate-ok b id qty e).1 small room
          (count_added-IsBook b qty v))
      (λ _. v)
