-- ===== src/Engine/Feed.antt =====
-- The feed that include/pricetime/engine.hpp publishes, against its book: a second book that takes the
-- messages of a request follows.
use pricetime.Common.{
  ℕ, ◌+◌, ◌<◌, ◌≡◌, ◌≢◌, refl, sym, ◌∙◌, subst, List, [], ◌∷◌, ◌++◌, append-nil, Bool, true, false,
  inl, inr, ltb, if◌then◌else◌, Bool-cases, some, arith, ℤ, pos, u32, u64, sub_u32, add_u32, All,
}
use pricetime.Types.{
  Side, Order, Execution, Result, ok, rejected_bad_id, rejected_bad_qty, rejected_bad_price,
  rejected_duplicate_id, rejected_unknown_id, rejected_no_liquidity,
}
use pricetime.Matching.{crosses}
use pricetime.Matching.Fills.{filled}
use pricetime.Matching.Each.{IsLasting}
use pricetime.Book.{
  Book, Outcome, rejected, validate, match_book, count_added, add_limit_as, enter_limit,
}
use pricetime.Book.Sound.{IsSound}
use pricetime.Book.Entry.{on_ok_inv}
use pricetime.Book.Each.{EachOf, enter_limit-Each}
use pricetime.Book.Same.{SameOrders}
use pricetime.Book.Feed.{match_book-filled}
use pricetime.Book.Messages.{
  FeedMessage, added, take_all, execution_messages, added_message, enter_limit-Same,
}
use pricetime.Itch.Writer.{cleared, add_order}
use pricetime.Itch.RoundTrip.{u48}
use pricetime.Wire.{Request}
use pricetime.Engine.{Engine, handle_enter, is_ok, side_of_byte, filled_qty, md_push, respond}
use pricetime.Engine.Messages.{IsMessage, read_all, add_order-IsMessage}
use pricetime.Engine.Published.{Publishes, IsPublic, md_push-Publishes, report_fills-Publishes}

-- Orders of no participant, with the ids that a message has room for.
abbrev pub IsOpen : Order → Type 0
IsOpen o = (o.participant ≡ 0) × (o.id < u64)

pub IsOpen-lasting : IsLasting IsOpen (λ i. i < u64)
IsOpen-lasting = record { shrinks = λ o q p. p; names = λ o p. p.1 }

pub is_ok-rejected : (r : Result) → r ≢ ok → is_ok r ≡ false
is_ok-rejected ok h = absurd (h refl)
is_ok-rejected rejected_bad_id h = refl
is_ok-rejected rejected_bad_qty h = refl
is_ok-rejected rejected_bad_price h = refl
is_ok-rejected rejected_duplicate_id h = refl
is_ok-rejected rejected_unknown_id h = refl
is_ok-rejected rejected_no_liquidity h = refl

-- The sum of the fills does not wrap.
filled_qty-filled :
    (acc : ℕ) (xs : List Execution) → acc + filled xs < u32 → filled_qty acc xs ≡ acc + filled xs
filled_qty-filled acc [] h = omega arith
filled_qty-filled acc (x ∷ xs) h =
    let here : add_u32 acc x.qty ≡ acc + x.qty = omega (arith, h) in
    rw here (filled_qty-filled (acc + x.qty) xs (omega (arith, h)) ∙ omega arith)

pub fills-IsPublic :
    (xs : List Execution) → filled xs < u32 → All (λ x. x.resting_id < u64) xs → All IsPublic xs
fills-IsPublic [] h k = tt
fills-IsPublic (x ∷ xs) h k = ((omega (arith, h), k.0), fills-IsPublic xs (omega (arith, h)) k.1)

-- What is displayed is what the match has left.
pub remainder-left :
    (b : Book) (id : ℕ) (side : Side) (cross : ℤ → Bool) (qty : ℕ)
    → qty < u32
    → let r = match_book b id 0 side cross qty in
      (sub_u32 qty (filled_qty 0 r.2) ≡ r.1) × (filled r.2 < u32) × (r.1 < u32)
remainder-left b id side cross qty small =
    let r = match_book b id 0 side cross qty in
    let sum = match_book-filled b id side cross qty in
    let all : filled_qty 0 r.2 ≡ filled r.2 =
      filled_qty-filled 0 r.2 (omega (arith, sum, small)) ∙ omega arith in
    (rw all (omega (arith, sum, small)), omega (arith, sum, small), omega (arith, sum, small))

-- After a request the engine has published messages by which the second book has come to hold the
-- orders of the engine's.
pub record Fed (m : Book) (e e' : Engine) : Type 0 where
  pub book : Book
  pub messages : List FeedMessage
  pub published : Publishes e.symbol book e.q_md e' messages
  pub mirror : Book
  pub taken : take_all messages m ≡ some mirror
  pub same : SameOrders mirror book
  pub orders : EachOf IsOpen book

-- The engine's book is sound and followed by the second book, and the request's numbers have room
-- in the messages.
pub record Follows (m : Book) (e : Engine) : Type 0 where
  pub enabled : e.md_enabled ≡ true
  pub numbered : e.match_number < u64
  pub sound : IsSound e.book
  pub same : SameOrders m e.book
  pub orders : EachOf IsOpen e.book

pub record Fits (ts : ℕ) (req : Request) : Type 0 where
  pub stamped : ts < u48
  pub id : req.id < u64
  pub new_id : req.new_id < u64
  pub qty : req.qty < u32
  pub cents : ℕ
  pub price : req.price ≡ pos cents
  pub priced : cents < u32

module _ (m : Book) (e : Engine) (ts : ℕ) (req : Request) (v : Follows m e) (f : Fits ts req) where
  -- An engine with this book and nothing published.
  pub starts :
      (b : Book) (e1 : Engine)
      → e1.book ≡ b
      → e1.md_enabled ≡ true
      → e1.match_number < u64
      → e1.q_md ≡ e.q_md
      → e1.symbol ≡ e.symbol
      → Publishes e.symbol b e.q_md e1 []
  unfolding read_all
  starts b e1 k on n q c = record {
    book = k;
    enabled = on;
    numbered = n;
    messages = [];
    pushed = q ∙ sym (append-nil e.q_md);
    read = refl;
    symbol = c;
    about = tt;
    small = tt;
  }

  -- Nothing was published, and nothing has changed.
  pub quiet : (e' : Engine) → Publishes e.symbol e.book e.q_md e' [] → Fed m e e'
  unfolding take_all
  quiet e' p = record {
    book = e.book;
    messages = [];
    published = p;
    mirror = m;
    taken = refl;
    same = v.same;
    orders = v.orders;
  }

  displayed :
      (b : Book) (q : List (List ℕ)) (e2 : Engine) (xs : List FeedMessage) (id : ℕ) (side : Side)
      (remainder left : ℕ)
      → id < u64
      → remainder ≡ left
      → left < u32
      → Publishes e.symbol b q e2 xs
      → Publishes e.symbol b q
          (if ltb 0 remainder
            then md_push e2 (add_order cleared ts id side remainder e2.symbol req.price)
            else e2)
          (xs ++ added_message id side req.price left)
  displayed b q e2 xs id side remainder left i same small p =
      subst
        (λ n.
          Publishes e.symbol b q
            (if ltb 0 n
              then md_push e2 (add_order cleared ts id side n e2.symbol req.price)
              else e2)
            (xs ++ added_message id side req.price left))
        (sym same)
        (elim (Bool-cases (ltb 0 left)) [
          | inl more ↦ rw more (
              md_push-Publishes e.symbol b q e2 _ xs _ p (
                subst
                  (λ c.
                    IsMessage e.symbol (add_order cleared ts id side left e2.symbol c).buf
                      (added id side left c))
                  (sym f.price)
                  (subst
                    (λ z.
                      IsMessage e.symbol (add_order cleared ts id side left z (pos f.cents)).buf
                        (added id side left (pos f.cents)))
                    (sym p.symbol)
                    (add_order-IsMessage ts e.symbol f.stamped id side left f.cents i small
                      f.priced))))
          | inr done ↦ rw done (subst (Publishes e.symbol b q e2) (sym (append-nil xs)) p)
        ])

  pub handle_enter-Fed : Fed m e (
      handle_enter e ts req
        (add_limit_as e.book 0 req.id (side_of_byte req.side) req.price req.qty))
  unfolding handle_enter add_limit_as enter_limit respond
  handle_enter-Fed =
      let side = side_of_byte req.side in
      let b = e.book in
      let r = match_book (count_added b req.qty) req.id 0 side (crosses side req.price) req.qty in
      on_ok_inv (λ (o : Outcome). Fed m e (handle_enter e ts req o)) (validate b req.id req.qty)
        (enter_limit b 0 req.id side req.price req.qty) (rejected b)
        (λ valid.
          let (m', taken, same) =
            enter_limit-Same m b req.id side req.price req.qty v.sound.book v.sound.index valid
              v.same in
          let (orders, named) =
            enter_limit-Each IsOpen (λ i. i < u64) IsOpen-lasting b 0 req.id side req.price req.qty
              (λ left. (refl, f.id)) v.orders in
          let (left, few, less) =
            remainder-left (count_added b req.qty) req.id side (crosses side req.price) req.qty
              f.qty in
          record {
            book = (enter_limit b 0 req.id side req.price req.qty).0;
            messages = execution_messages r.2 ++ added_message req.id side req.price r.1;
            published =
                displayed (enter_limit b 0 req.id side req.price req.qty).0 e.q_md _
                  (execution_messages r.2) req.id side _ r.1 f.id left less
                  (report_fills-Publishes e.symbol _ _ _ ts req r.2 [] f.stamped
                    (fills-IsPublic r.2 few named)
                    (starts _ _ refl v.enabled v.numbered refl refl));
            mirror = m';
            taken = taken;
            same = same;
            orders = orders;
          })
        (λ n. quiet _ (
          rw (is_ok-rejected (validate b req.id req.qty) n)
            (starts _ _ refl v.enabled v.numbered refl refl)))
