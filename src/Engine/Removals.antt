-- ===== src/Engine/Removals.antt =====
-- The feed that include/pricetime/engine.hpp publishes of cancels, reductions and replaces.
use pricetime.Common.{
  ℕ, ◌<◌, ◌≡◌, refl, ap, sym, ◌∙◌, subst, [], ◌∷◌, Bool, true, false, inl, inr, ltb, ◌==◌,
  if◌then◌else◌, Bool-cases, Option, some, arith, u32, u64,
}
use pricetime.Types.{Order, Result, ok}
use pricetime.IdMap.{find}
use pricetime.Level.{Level}
use pricetime.Level.Tally.{find_in-IsOrder}
use pricetime.Book.{
  Book, Outcome, cancel, cancel_open, consume, consume_open, reduce_resting, lookup,
}
use pricetime.Book.Removal.{Pointed, lookup_pointed}
use pricetime.Book.Each.{cancel_open-Each, consume_open-Each}
use pricetime.Book.Same.{SameOrders, cancel_open-Same, consume_open-Same, deref-Same, lookup-found}
use pricetime.Book.Mirror.{after_one}
use pricetime.Book.Messages.{FeedMessage, deleted, canceled, take, take_all}
use pricetime.Itch.Writer.{cleared, order_delete, order_cancel}
use pricetime.Wire.{Request}
use pricetime.Engine.{Engine, handle_cancel, handle_reduce, respond}
use pricetime.Engine.Messages.{order_delete-IsMessage, order_cancel-IsMessage}
use pricetime.Engine.Published.{md_push-Publishes}
use pricetime.Engine.Feed.{IsOpen, IsOpen-lasting, Fed, Follows, Fits, starts, quiet}

-- What a pointer of the first book leads to, the second book's leads to.
Pointed-lookup :
    {A : Type 0} (m b : Book) (id : ℕ) (unknown : A) (found : Level × Order → A) (e : Level × Order)
    → SameOrders m b
    → Pointed b id e
    → lookup m id unknown found ≡ some (found e)
Pointed-lookup m b id unknown found e v p =
    lookup-found m id unknown found p.handle e (ap (λ os. find os id) v.orders ∙ p.found)
      (deref-Same m b id p.handle v ∙ p.leads)

take_one : (x : FeedMessage) (m m' : Book) → take m x ≡ some m' → take_all (x ∷ []) m ≡ some m'
unfolding take_all
take_one x m m' e = rw e refl

module _ (m : Book) (e : Engine) (ts : ℕ) (req : Request) (v : Follows m e) (f : Fits ts req) where
  pub handle_cancel-Fed :
      (o : Outcome) → cancel e.book req.id ≡ some o → Fed m e (handle_cancel e ts req o)
  unfolding handle_cancel respond cancel take
  handle_cancel-Fed o run =
      lookup_pointed (λ (x : Outcome). Fed m e (handle_cancel e ts req x)) e.book req.id _ _ o run
        v.sound.book
        (λ _.
          quiet m e ts req v f _
            (starts m e ts req v f e.book _ refl v.enabled v.numbered refl refl))
        (λ (l, x) p. record {
          book = cancel_open e.book (l, x);
          messages = deleted req.id ∷ [];
          published =
              md_push-Publishes e.symbol _ _ _ (order_delete cleared ts req.id) [] (deleted req.id)
                (starts m e ts req v f (cancel_open e.book (l, x)) _ refl v.enabled v.numbered refl
                  refl)
                (order_delete-IsMessage ts e.symbol f.stamped req.id f.id);
          mirror = cancel_open m (l, x);
          taken = take_one (deleted req.id) m (cancel_open m (l, x)) (
              ap (λ (c : Option Outcome). after_one c some)
                (Pointed-lookup m e.book req.id _ _ (l, x) v.same p));
          same = cancel_open-Same m e.book (l, x) v.same;
          orders = cancel_open-Each IsOpen e.book (l, x) p.resting v.orders;
        })

-- How much of an order a reduction takes.
abbrev taken_of : ℕ → Order → ℕ
taken_of qty o = if ltb qty o.qty then qty else o.qty

consume_open-ok :
    (b : Book) (qty : ℕ) (x : Bool) (l : Level) (o : Order)
    → (qty == 0) ≡ false
    → consume_open b qty x (l, o) ≡ ((consume_open b qty x (l, o)).0, ok, taken_of qty o)
unfolding consume_open
consume_open-ok b qty x l o some_qty = elim (Bool-cases (taken_of qty o == o.qty)) [
  | inl whole ↦ rw (some_qty, whole) refl
  | inr part ↦ rw (some_qty, part) refl
]

-- Taking what was taken takes the same.
consume_open-again :
    (b : Book) (qty : ℕ) (x : Bool) (l : Level) (o : Order)
    → (qty == 0) ≡ false
    → 0 < o.qty
    → consume_open b (taken_of qty o) x (l, o) ≡ consume_open b qty x (l, o)
unfolding consume_open
consume_open-again b qty x l o some_qty positive =
    let twice : taken_of (taken_of qty o) o ≡ taken_of qty o = ground arith in
    let some_take : (taken_of qty o == 0) ≡ false = ground (arith, some_qty, positive) in
    rw (some_qty, some_take, twice) refl

module _ (m : Book) (e : Engine) (ts : ℕ) (req : Request) (v : Follows m e) (f : Fits ts req) where
  positive_of : (l : Level) (o : Order) → Pointed e.book req.id (l, o) → 0 < o.qty
  positive_of l o p =
      (find_in-IsOrder o.side l.price o.id l.queue o p.resting.order
        p.resting.sound.orders).0.positive

  reduced-Fed :
      (l : Level) (o : Order)
      → Pointed e.book req.id (l, o)
      → (req.qty == 0) ≡ false
      → Fed m e (
          handle_reduce e ts req
            ((consume_open e.book req.qty false (l, o)).0, ok, taken_of req.qty o))
  unfolding handle_reduce respond take consume
  reduced-Fed l o p some_qty =
      let b' = (consume_open e.book req.qty false (l, o)).0 in
      let positive = positive_of l o p in
      let taken : ltb 0 (taken_of req.qty o) ≡ true = ground (arith, some_qty, positive) in
      let less : taken_of req.qty o < u32 = ground (arith, f.qty) in
      rw taken (record {
        book = b';
        messages = canceled req.id (taken_of req.qty o) ∷ [];
        published =
            md_push-Publishes e.symbol _ _ _ (order_cancel cleared ts req.id (taken_of req.qty o))
              [] (canceled req.id (taken_of req.qty o))
              (starts m e ts req v f b' _ refl v.enabled v.numbered refl refl)
              (order_cancel-IsMessage ts e.symbol f.stamped req.id (taken_of req.qty o) f.id less);
        mirror = (consume_open m req.qty false (l, o)).0;
        taken = take_one (canceled req.id (taken_of req.qty o)) m _ (
            ap (λ (c : Option (Book × Result × ℕ)). after_one c some)
              (Pointed-lookup m e.book req.id _ _ (l, o) v.same p
                ∙ ap some (consume_open-again m req.qty false l o some_qty positive)));
        same = consume_open-Same m e.book req.qty false false (l, o) v.same;
        orders =
            consume_open-Each IsOpen (λ i. i < u64) IsOpen-lasting e.book req.qty false (l, o)
              p.resting v.orders;
      })

  pub handle_reduce-Fed :
      (o : Book × Result × ℕ)
      → reduce_resting e.book req.id req.qty ≡ some o
      → Fed m e (handle_reduce e ts req o)
  unfolding handle_reduce respond consume consume_open
  handle_reduce-Fed o run =
      lookup_pointed (λ (x : Book × Result × ℕ). Fed m e (handle_reduce e ts req x)) e.book req.id _
        _ o run v.sound.book
        (λ _.
          quiet m e ts req v f _
            (starts m e ts req v f e.book _ refl v.enabled v.numbered refl refl))
        (λ (l, x) p. elim (Bool-cases (req.qty == 0)) [
          | inl nothing ↦ rw nothing (
              quiet m e ts req v f _
                (starts m e ts req v f e.book _ refl v.enabled v.numbered refl refl))
          | inr some_qty ↦
              subst (λ y. Fed m e (handle_reduce e ts req y))
                (sym (consume_open-ok e.book req.qty false l x some_qty))
                (reduced-Fed l x p some_qty)
        ])
