-- ===== src/Engine/Replaces.antt =====
-- The feed that include/pricetime/engine.hpp publishes of replaces.
use pricetime.Common.{
  ℕ, ◌<◌, ◌≡◌, refl, ap, sym, ◌∙◌, subst, List, [], ◌∷◌, ◌++◌, inl, inr, ltb, ◌==◌, if◌then◌else◌,
  Bool-cases, some, arith, ℤ, eq_of_some, u32, u64, All,
}
use pricetime.Types.{Side, Order, ok}
use pricetime.IdMap.{erase, find-erase}
use pricetime.Level.{Level, find_in}
use pricetime.Matching.{crosses}
use pricetime.Book.{
  Book, Outcome, rejected, validate, validate_new, match_book, count_added, add_limit_as,
  enter_limit, cancel_open, replace, replace_open,
}
use pricetime.Book.Sound.{cancel_open-Grown}
use pricetime.Book.Entry.{on_ok_inv}
use pricetime.Book.Removal.{Pointed, lookup_pointed}
use pricetime.Book.Each.{queue-All, cancel_open-Each, enter_limit-Each}
use pricetime.Book.Messages.{FeedMessage, replaced, deleted, execution_messages}
use pricetime.Book.Replacing.{replaced_message, cancel_open-orders, Replaces, replace-Same}
use pricetime.Itch.Writer.{cleared, order_delete, order_replace}
use pricetime.Wire.{Request}
use pricetime.Engine.{Engine, handle_replace, md_push, respond}
use pricetime.Engine.Messages.{IsMessage, order_delete-IsMessage, order_replace-IsMessage}
use pricetime.Engine.Published.{Publishes, md_push-Publishes, report_fills-Publishes}
use pricetime.Engine.Feed.{
  IsOpen, IsOpen-lasting, Fed, Follows, Fits, starts, quiet, is_ok-rejected, remainder-left,
  fills-IsPublic,
}

find_in-All :
    (P : Order → Type 0) (i : ℕ) (os : List Order) (o : Order)
    → find_in i os ≡ some o
    → All P os
    → P o
unfolding find_in
find_in-All P i [] o e h = cc
find_in-All P i (x ∷ os) o e h = elim (Bool-cases (x.id == i)) [
  | inl here ↦ subst P (eq_of_some (rw here at e)) h.0
  | inr other ↦ find_in-All P i os o (rw other at e) h.1
]

-- The replacement is valid where the old order has gone.
validate_new-validate :
    (b : Book) (l : Level) (o : Order) (old_id new_id qty : ℕ)
    → o.id ≡ old_id
    → validate_new b old_id new_id qty ≡ ok
    → validate (cancel_open b (l, o)) new_id qty ≡ ok
unfolding validate_new validate
validate_new-validate b l o old_id new_id qty named e =
    let gone = cancel_open-orders b l o ∙ ap (erase b.orders) named in
    rw gone (ground (arith, e, find-erase b.orders old_id new_id))

entered :
    (b : Book) (actor id : ℕ) (side : Side) (price : ℤ) (qty : ℕ)
    → validate b id qty ≡ ok
    → add_limit_as b actor id side price qty ≡ enter_limit b actor id side price qty
unfolding add_limit_as
entered b actor id side price qty valid = rw valid refl

module _ (m : Book) (e : Engine) (ts : ℕ) (req : Request) (v : Follows m e) (f : Fits ts req) where
  told :
      (b : Book) (q : List (List ℕ)) (e2 : Engine) (xs : List FeedMessage) (remainder left : ℕ)
      → remainder ≡ left
      → left < u32
      → Publishes e.symbol b q e2 xs
      → Publishes e.symbol b q
          (if ltb 0 remainder
            then md_push e2 (order_replace cleared ts req.id req.new_id remainder req.price)
            else md_push e2 (order_delete cleared ts req.id))
          (xs ++ replaced_message req.id req.new_id req.price left ∷ [])
  told b q e2 xs remainder left same small p =
      subst
        (λ n.
          Publishes e.symbol b q
            (if ltb 0 n
              then md_push e2 (order_replace cleared ts req.id req.new_id n req.price)
              else md_push e2 (order_delete cleared ts req.id))
            (xs ++ replaced_message req.id req.new_id req.price left ∷ []))
        (sym same)
        (elim (Bool-cases (ltb 0 left)) [
          | inl more ↦ rw more (
              md_push-Publishes e.symbol b q e2
                (order_replace cleared ts req.id req.new_id left req.price) xs
                (replaced req.id req.new_id left req.price) p
                (subst
                  (λ c.
                    IsMessage e.symbol (order_replace cleared ts req.id req.new_id left c).buf
                      (replaced req.id req.new_id left c))
                  (sym f.price)
                  (order_replace-IsMessage ts e.symbol f.stamped req.id req.new_id left f.cents f.id
                    f.new_id small f.priced)))
          | inr done ↦ rw done (
              md_push-Publishes e.symbol b q e2 (order_delete cleared ts req.id) xs (deleted req.id)
                p (order_delete-IsMessage ts e.symbol f.stamped req.id f.id))
        ])

  module _ (l : Level) (o : Order) (p : Pointed e.book req.id (l, o))
      (valid : validate_new e.book req.id req.new_id req.qty ≡ ok) where
    open_order : IsOpen o
    open_order =
        find_in-All IsOpen o.id l.queue o p.resting.order
          (queue-All IsOpen e.book l o p.resting v.orders)

    still_valid : validate (cancel_open e.book (l, o)) req.new_id req.qty ≡ ok
    still_valid = validate_new-validate e.book l o req.id req.new_id req.qty p.named valid

    replaces : Replaces m e.book req.id req.new_id req.price req.qty p.handle l o
    replaces =
        let gone = (cancel_open-Grown e.book v.sound (l, o) p.resting).0.sound in
        record {
          same = v.same;
          found = p.found;
          leads = p.leads;
          sided = p.side;
          named = p.named;
          book = gone.book;
          index = gone.index;
          valid = still_valid;
        }

    replaced-Fed : Fed m e (
        handle_replace e ts req
          (enter_limit (cancel_open e.book (l, o)) 0 req.new_id o.side req.price req.qty))
    unfolding handle_replace respond enter_limit
    replaced-Fed =
        let b = cancel_open e.book (l, o) in
        let r =
          match_book (count_added b req.qty) req.new_id 0 o.side (crosses o.side req.price)
            req.qty in
        let (m', taken, same) =
          replace-Same m e.book req.id req.new_id req.price req.qty p.handle l o replaces in
        let (orders, named) =
          enter_limit-Each IsOpen (λ i. i < u64) IsOpen-lasting b 0 req.new_id o.side req.price
            req.qty (λ left. (refl, f.new_id))
            (cancel_open-Each IsOpen e.book (l, o) p.resting v.orders) in
        let (left, few, less) =
          remainder-left (count_added b req.qty) req.new_id o.side (crosses o.side req.price)
            req.qty f.qty in
        record {
          book = (enter_limit b 0 req.new_id o.side req.price req.qty).0;
          messages =
              execution_messages r.2 ++ replaced_message req.id req.new_id req.price r.1 ∷ [];
          published =
              told (enter_limit b 0 req.new_id o.side req.price req.qty).0 e.q_md _
                (execution_messages r.2) _ r.1 left less
                (report_fills-Publishes e.symbol _ _ _ ts req r.2 [] f.stamped
                  (fills-IsPublic r.2 few named)
                  (starts m e ts req v f _ _ refl v.enabled v.numbered refl refl));
          mirror = m';
          taken = taken;
          same = same;
          orders = orders;
        }

    accepted-Fed : Fed m e (
        handle_replace e ts req (
          add_limit_as
            (cancel_open e.book (l, o))
            o.participant
            req.new_id
            o.side
            req.price
            req.qty))
    accepted-Fed =
        subst (λ x. Fed m e (handle_replace e ts req x))
          (sym (
            ap (λ a. add_limit_as (cancel_open e.book (l, o)) a req.new_id o.side req.price req.qty)
              open_order.0
            ∙ entered (cancel_open e.book (l, o)) 0 req.new_id o.side req.price req.qty
                still_valid))
          replaced-Fed

  pub handle_replace-Fed :
      (o : Outcome)
      → replace e.book req.id req.new_id req.price req.qty ≡ some o
      → Fed m e (handle_replace e ts req o)
  unfolding handle_replace respond replace replace_open
  handle_replace-Fed o run =
      lookup_pointed (λ (x : Outcome). Fed m e (handle_replace e ts req x)) e.book req.id _ _ o run
        v.sound.book
        (λ _.
          quiet m e ts req v f _
            (starts m e ts req v f e.book _ refl v.enabled v.numbered refl refl))
        (λ (l, x) p.
          on_ok_inv (λ (y : Outcome). Fed m e (handle_replace e ts req y))
            (validate_new e.book req.id req.new_id req.qty) _ (rejected e.book)
            (λ valid. accepted-Fed l x p valid)
            (λ n. quiet m e ts req v f _ (
              rw (is_ok-rejected (validate_new e.book req.id req.new_id req.qty) n)
                (starts m e ts req v f e.book _ refl v.enabled v.numbered refl refl))))
