-- ===== src/Replay/Follow.antt =====
-- include/pricetime/itch_replay.hpp on the messages of one symbol: the replayer's book for it, and its
-- index from orders to books.
use pricetime.Common.{
  ℕ, ◌≡◌, ◌⊎◌, refl, ap, sym, ◌∙◌, subst, [], Option, Option-cases, none, some, true, inl, inr,
  Bool-cases, ◌==◌, ◌||◌, if◌then◌else◌, arith, eq_of_some, ℤ,
}
use pricetime.Types.{
  Result, ok, rejected_bad_id, rejected_bad_qty, rejected_bad_price, rejected_duplicate_id,
  rejected_unknown_id, rejected_no_liquidity, Side,
}
use pricetime.IdMap.{find, find-insert}
use pricetime.Matching.{Handle}
use pricetime.Symbol.{bits}
use pricetime.Book.{Book, empty_book, insert_passive, validate, on_ok, rest, count_added}
use pricetime.Book.Entry.{validate-ok}
use pricetime.MultiBook.{MultiBook, with_book, put_book, note_order}
use pricetime.Itch.{AddOrder}
use pricetime.Replay.{Replayer, stamp, tracked, is_empty, is_member, on_add}
use pricetime.Replay.Books.{insert-there, find-put}

-- The owner of an order of the symbol's book.
abbrev pub owner_of : ℕ → Option Handle → Option ℕ
owner_of s none = none
owner_of s (some h) = some s

-- The symbol's book is this one, and the owners are those of its orders.
pub record Carries (s : ℕ) (m : MultiBook) (b : Book) : Type 0 where
  pub book : find (with_book m s).books s ≡ some b
  pub owner : (i : ℕ) → find m.owner i ≡ owner_of s (find b.orders i)

module _ (s : ℕ) (m : MultiBook) where
  pub with_book-there : (b : Book) → find m.books s ≡ some b → find (with_book m s).books s ≡ some b
  unfolding with_book
  with_book-there b there = ap (λ bs. find bs s) (insert-there m.books s empty_book b there) ∙ there

  pub with_book-absent : find m.books s ≡ none → find (with_book m s).books s ≡ some empty_book
  unfolding with_book
  with_book-absent absent = find-insert m.books s s empty_book absent ∙ ground arith

  -- An order that is in the book was routed to it.
  pub known-book :
      (b : Book) (i : ℕ) (h : Handle)
      → Carries s m b
      → find b.orders i ≡ some h
      → find m.books s ≡ some b
  unfolding find
  known-book b i h v present = elim (Option-cases (find m.books s)) [
    | inl absent ↦ absurd (
        let e : empty_book ≡ b = eq_of_some (sym (with_book-absent absent) ∙ v.book) in
        let z : none ≡ some h = subst (λ x. find x.orders i ≡ some h) (sym e) present in cc)
    | inr (c, there) ↦ there ∙ sym (with_book-there c there) ∙ v.book
  ]

  pub put-book : (b : Book) → find (put_book m s b).books s ≡ some b
  unfolding put_book
  put-book b = find-put m.books s s b ∙ ground arith

-- The book is written back, and its owners are as they should be.
pub put-Carries :
    (s : ℕ) (m : MultiBook) (b : Book)
    → ((i : ℕ) → find m.owner i ≡ owner_of s (find b.orders i))
    → Carries s (put_book m s b) b
unfolding put_book
put-Carries s m b owner = record {
  book = with_book-there s (put_book m s b) b (put-book s m b);
  owner = owner;
}

pub ok_or : (r : Result) → (r ≡ ok) ⊎ ((A : Type 0) (x : A) (f : Result → A) → on_ok r x f ≡ f r)
ok_or ok = inl refl
ok_or rejected_bad_id = inr (λ A x f. refl)
ok_or rejected_bad_qty = inr (λ A x f. refl)
ok_or rejected_bad_price = inr (λ A x f. refl)
ok_or rejected_duplicate_id = inr (λ A x f. refl)
ok_or rejected_unknown_id = inr (λ A x f. refl)
ok_or rejected_no_liquidity = inr (λ A x f. refl)

-- The index after an order was rested under an unused id.
rest-orders :
    (b : Book) (id : ℕ) (side : Side) (price : ℤ) (qty i : ℕ)
    → find b.orders id ≡ none
    → (h : Handle) × (find (rest b id side price qty 0).orders i
        ≡ (if id == i then some h else find b.orders i))
unfolding rest
rest-orders b id side price qty i unused = (
  record { side = side; price = price },
  find-insert b.orders id i (record { side = side; price = price }) unused,
)

abbrev pub rested : Book → ℕ → Side → ℤ → ℕ → Book
rested b id side price qty = rest (count_added b qty) id side price qty 0

pub insert_passive-ok :
    (b : Book) (id : ℕ) (side : Side) (price : ℤ) (qty : ℕ)
    → validate b id qty ≡ ok
    → insert_passive b id side price qty ≡ (rested b id side price qty, ok)
unfolding insert_passive
insert_passive-ok b id side price qty valid = rw valid refl

-- A rested order is noted under its book.
pub rest-Carries :
    (s : ℕ) (m : MultiBook) (b : Book) (id : ℕ) (side : Side) (price : ℤ) (qty : ℕ)
    → ((i : ℕ) → find m.owner i ≡ owner_of s (find b.orders i))
    → find b.orders id ≡ none
    → Carries s
        (note_order (put_book m s (rested b id side price qty)) id s)
        (rested b id side price qty)
unfolding note_order put_book with_book
rest-Carries s m b id side price qty owner unused =
    let r = rested b id side price qty in
    let free : find m.owner id ≡ none = owner id ∙ ap (owner_of s) unused in
    record {
      book = with_book-there s (put_book m s r) r (put-book s m r);
      owner = λ i.
          (let (h, finds) = rest-orders (count_added b qty) id side price qty i unused in
            elim (Bool-cases (id == i)) [
              | inl here ↦
                  find-insert m.owner id i s free
                  ∙ rw here refl
                  ∙ sym (ap (owner_of s) (rw here at finds))
              | inr other ↦
                  find-insert m.owner id i s free
                  ∙ rw other (owner i)
                  ∙ sym (ap (owner_of s) (rw other at finds))
            ]);
    }

-- The replayer tracks every symbol, and its book for this one is `b`.
pub record Tracks (s : ℕ) (r : Replayer) (b : Book) : Type 0 where
  pub all : r.filter ≡ []
  pub books : Carries s r.books b

pub insert_passive-refused :
    (b : Book) (id : ℕ) (side : Side) (price : ℤ) (qty : ℕ)
    → ((A : Type 0) (x : A) (f : Result → A)
        → on_ok (validate b id qty) x f ≡ f (validate b id qty))
    → insert_passive b id side price qty ≡ (b, validate b id qty)
unfolding insert_passive
insert_passive-refused b id side price qty refused =
    refused (Book × Result) (rested b id side price qty, ok) (λ r. (b, r))

with_book-Carries : (s : ℕ) (m : MultiBook) (b : Book) → Carries s m b → Carries s (with_book m s) b
unfolding with_book
with_book-Carries s m b v = record {
  book = with_book-there s (with_book m s) b v.book;
  owner = v.owner;
}

pub on_add-Tracks :
    (r r' : Replayer) (b : Book) (m : AddOrder)
    → Tracks (bits m.symbol) r b
    → on_add r m ≡ some r'
    → Tracks (bits m.symbol) r' (insert_passive b m.reference m.side m.price m.shares).0
unfolding on_add
on_add-Tracks r r' b m v run =
    let s = bits m.symbol in
    let tracks : tracked (stamp r m.timestamp) m.symbol ≡ true =
      ap (λ f. is_empty f || is_member s f) v.all in
    let there : find (with_book r.books s).books s ≡ some b = v.books.book in
    elim (ok_or (validate b m.reference m.shares)) [
      | inl valid ↦
          let e = insert_passive-ok b m.reference m.side m.price m.shares valid in
          let unused = (validate-ok b m.reference m.shares valid).2 in
          rw e (
            subst (λ x. Tracks s x (rested b m.reference m.side m.price m.shares))
              (eq_of_some (rw (tracks, there, e) at run))
              (record {
                all = v.all;
                books =
                    rest-Carries s (with_book r.books s) b m.reference m.side m.price m.shares
                      (with_book-Carries s r.books b v.books).owner unused;
              }))
      | inr refused ↦
          let e = insert_passive-refused b m.reference m.side m.price m.shares refused in
          let step = refused Replayer _ _ in
          rw e (
            subst (λ x. Tracks s x b)
              (eq_of_some (ap some (sym step) ∙ rw (tracks, there, e) at run))
              (record { all = v.all; books = with_book-Carries s r.books b v.books }))
    ]
