-- ===== src/Engine/Integrity.antt =====
-- The market-data feed of include/pricetime/engine.hpp over a history of requests: what a second book
-- makes of all that was published.
use pricetime.Common.{
  ℕ, suc, ◌+◌, ◌<◌, ◌≡◌, inl, inr, refl, ap, sym, ◌∙◌, subst, List, [], ◌∷◌, ◌++◌, true, Option,
  Option-cases, none, some, u32, u64, arith, eq_of_some, All, All-append,
}
use pricetime.Book.{Book, empty_book, add_limit, cancel, reduce_resting, replace}
use pricetime.Book.History.{Reach-IsSound}
use pricetime.Book.Same.{SameOrders, SameOrders-refl}
use pricetime.Book.Each.{EachOf}
use pricetime.Book.Messages.{FeedMessage, take, take_all}
use pricetime.Symbol.{Symbol}
use pricetime.Wire.{Request}
use pricetime.Wire
use pricetime.Engine.{
  Engine, handle, side_of_byte, handle_enter, handle_cancel, handle_reduce, handle_replace,
  map_some,
}
use pricetime.Engine.Messages.{IsAbout, IsSmall, read_all, read_all-append}
use pricetime.Engine.Feed.{IsOpen, Fed, Follows, Fits, handle_enter-Fed}
use pricetime.Engine.Removals.{handle_cancel-Fed, handle_reduce-Fed}
use pricetime.Engine.Replaces.{handle_replace-Fed}
use pricetime.Engine.Service.{IsKnown, Served, opened, serve, Served-Reach}

take_all-append :
    (xs ys : List FeedMessage) (m m' : Book)
    → take_all xs m ≡ some m'
    → take_all (xs ++ ys) m ≡ take_all ys m'
unfolding take_all
take_all-append [] ys m m' e = ap (take_all ys) (eq_of_some e)
take_all-append (x ∷ xs) ys m m' e = elim (Option-cases (take m x)) [
  | inl stuck ↦ absurd (let z : none ≡ some m' = rw stuck at e in cc)
  | inr (one, takes) ↦ rw takes (take_all-append xs ys one m' (rw takes at e))
]

map_some-inv :
    {A : Type 0} (P : Engine → Type 0) (o : Option A) (f : A → Engine) (e' : Engine)
    → map_some o f ≡ some e'
    → ((a : A) → o ≡ some a → P (f a))
    → P e'
map_some-inv P none f e' run h = cc
map_some-inv P (some a) f e' run h = subst P (eq_of_some run) (h a refl)

-- The branches of the switch.
module _ (e : Engine) (ts : ℕ) (req : Request) where
  pub handle-enter :
      req.kind ≡ Wire.enter
      → handle e ts req
        ≡ some (
            handle_enter e ts req
              (add_limit e.book req.id (side_of_byte req.side) req.price req.qty))
  unfolding handle
  handle-enter k = rw k refl

  handle-cancel :
      req.kind ≡ Wire.cancel
      → handle e ts req ≡ map_some (cancel e.book req.id) (handle_cancel e ts req)
  unfolding handle
  handle-cancel k = rw k refl

  handle-reduce :
      req.kind ≡ Wire.reduce
      → handle e ts req ≡ map_some (reduce_resting e.book req.id req.qty) (handle_reduce e ts req)
  unfolding handle
  handle-reduce k = rw k refl

  handle-replace :
      req.kind ≡ Wire.replace
      → handle e ts req
        ≡ map_some (replace e.book req.id req.new_id req.price req.qty) (handle_replace e ts req)
  unfolding handle
  handle-replace k = rw k refl

handle-Fed :
    (m : Book) (e e' : Engine) (ts : ℕ) (req : Request)
    → Follows m e
    → Fits ts req
    → IsKnown req
    → handle e ts req ≡ some e'
    → Fed m e e'
handle-Fed m e e' ts req v f (inl k) run =
    subst (Fed m e) (eq_of_some (sym (handle-enter e ts req k) ∙ run))
      (handle_enter-Fed m e ts req v f)
handle-Fed m e e' ts req v f (inr (inl k)) run =
    map_some-inv (Fed m e) (cancel e.book req.id) (handle_cancel e ts req) e'
      (sym (handle-cancel e ts req k) ∙ run)
      (λ o answers. handle_cancel-Fed m e ts req v f o answers)
handle-Fed m e e' ts req v f (inr (inr (inl k))) run =
    map_some-inv (Fed m e) (reduce_resting e.book req.id req.qty) (handle_reduce e ts req) e'
      (sym (handle-reduce e ts req k) ∙ run)
      (λ o answers. handle_reduce-Fed m e ts req v f o answers)
handle-Fed m e e' ts req v f (inr (inr (inr k))) run =
    map_some-inv (Fed m e) (replace e.book req.id req.new_id req.price req.qty)
      (handle_replace e ts req) e' (sym (handle-replace e ts req k) ∙ run)
      (λ o answers. handle_replace-Fed m e ts req v f o answers)

-- The engine after `n` requests of the known kinds whose numbers have room in the messages, from
-- one with an empty book.
pub data Serves (e0 : Engine) : ℕ → Engine → Type 0 where
  first : Serves e0 0 (record e0 { book = empty_book })
  further :
      {n : ℕ} {e e' : Engine} (ts : ℕ) (req : Request)
      → Serves e0 n e
      → Fits ts req
      → IsKnown req
      → handle e ts req ≡ some e'
      → Serves e0 (suc n) e'

Serves-Served : {e0 : Engine} {n : ℕ} {e : Engine} → Serves e0 n e → Served e0 n e
Serves-Served first = opened
Serves-Served (further ts req h f k run) = serve ts req (Serves-Served h) f.qty k run

-- All that was published, of one symbol, and the book that it makes.
pub record Reads (stock : Symbol) (e : Engine) : Type 0 where
  pub messages : List FeedMessage
  pub mirror : Book
  pub read : read_all e.q_md ≡ some messages
  pub taken : take_all messages empty_book ≡ some mirror
  pub same : SameOrders mirror e.book
  pub about : All (IsAbout stock) e.q_md
  pub small : All IsSmall messages

-- A market-data queue that is on and empty.
pub record IsFresh (e : Engine) : Type 0 where
  pub enabled : e.md_enabled ≡ true
  pub numbered : e.match_number < u64
  pub quiet : e.q_md ≡ []

record Traced (stock : Symbol) (e : Engine) : Type 0 where
  reads : Reads stock e
  symbol : e.symbol ≡ stock
  enabled : e.md_enabled ≡ true
  numbered : e.match_number < u64
  orders : EachOf IsOpen e.book

Serves-Traced :
    {e0 : Engine} {n : ℕ} {e : Engine}
    → IsFresh e0
    → Serves e0 n e
    → n + 1 < u32
    → Traced e0.symbol e
unfolding read_all take_all
Serves-Traced {e0} v first few = record {
  reads = record {
    messages = [];
    mirror = empty_book;
    read = ap read_all v.quiet;
    taken = refl;
    same = SameOrders-refl empty_book;
    about = subst (All (IsAbout e0.symbol)) (sym v.quiet) tt;
    small = tt;
  };
  symbol = refl;
  enabled = v.enabled;
  numbered = v.numbered;
  orders = record { bids = tt; asks = tt };
}
Serves-Traced {e0} v (further {n} {e} {e'} ts req h f k run) few =
    let t = Serves-Traced v h (omega (arith, few)) in
    let reached = Served-Reach (Serves-Served h) (omega (arith, few)) in
    let g =
      handle-Fed t.reads.mirror e e' ts req
        (record {
          enabled = t.enabled;
          numbered = t.numbered;
          sound = (Reach-IsSound reached (omega (arith, few))).0;
          same = t.reads.same;
          orders = t.orders;
        })
        f k run in
    record {
      reads = record {
        messages = t.reads.messages ++ g.messages;
        mirror = g.mirror;
        read =
            ap read_all g.published.pushed
            ∙ read_all-append e.q_md g.published.messages t.reads.messages g.messages t.reads.read
                g.published.read;
        taken =
            take_all-append t.reads.messages g.messages empty_book t.reads.mirror t.reads.taken
            ∙ g.taken;
        same = subst (SameOrders g.mirror) (sym g.published.book) g.same;
        about = subst (All (IsAbout e0.symbol)) (sym g.published.pushed) (
            All-append (IsAbout e0.symbol) e.q_md g.published.messages t.reads.about
              (subst (λ z. All (IsAbout z) g.published.messages) t.symbol g.published.about));
        small = All-append IsSmall t.reads.messages g.messages t.reads.small g.published.small;
      };
      symbol = g.published.symbol ∙ t.symbol;
      enabled = g.published.enabled;
      numbered = g.published.numbered;
      orders = subst (EachOf IsOpen) (sym g.published.book) g.orders;
    }

-- After `n` requests of known kinds, whose numbers have room in the messages, on an engine with
-- an empty book and a market-data queue that is on and empty, with `n + 1` below 2 ^ 32:
-- everything on the queue decodes as order messages, its adds name the engine's symbol, and the
-- messages, applied one after another to an empty book, leave a book with the engine's levels
-- and the engine's index of orders.
pub Serves-Reads :
    {e0 : Engine} {n : ℕ} {e : Engine}
    → IsFresh e0
    → Serves e0 n e
    → n + 1 < u32
    → Reads e0.symbol e
Serves-Reads v h few = (Serves-Traced v h few).reads
