-- ===== src/Replay/Books.antt =====
-- The books of include/pricetime/multi_book.hpp while messages are replayed.
use pricetime.Common.{
  ℕ, ◌+◌, ◌≤◌, ◌≡◌, refl, sym, ◌∙◌, subst, Option-cases, some, inl, inr, Bool-cases, ◌==◌,
  if◌then◌else◌, arith, eq_of_some,
}
use pricetime.IdMap.{StdIdMap, find, erase, insert, find-erase, find-insert}
use pricetime.Book.{Book, empty_book}
use pricetime.Book.Invariant.{resting, empty_book-IsBook}
use pricetime.Book.Index.{empty_book-IsIndexed}
use pricetime.Book.Sound.{IsSound}
use pricetime.MultiBook.{MultiBook, no_books, with_book, put_book, note_order, forget_order}

-- Every book is sound and has at most `n` orders, and every order's owner has a book.
pub record IsRouted (n : ℕ) (m : MultiBook) : Type 0 where
  pub sound : (s : ℕ) (b : Book) → find m.books s ≡ some b → IsSound b × (resting b ≤ n)
  pub owned : (id s : ℕ) → find m.owner id ≡ some s → (b : Book) × (find m.books s ≡ some b)

pub no_books-IsRouted : IsRouted 0 no_books
unfolding find
no_books-IsRouted = record { sound = λ s b e. cc; owned = λ id s e. cc }

pub IsRouted-more : (n : ℕ) (m : MultiBook) → IsRouted n m → IsRouted (n + 1) m
IsRouted-more n m v = record {
  sound = λ s b e. (let (k, few) = v.sound s b e in (k, omega (arith, few)));
  owned = v.owned;
}

module _ {V : Type 0} where
  -- `insert` keeps what is there.
  pub insert-there : (m : StdIdMap V) (i : ℕ) (v w : V) → find m i ≡ some w → (insert m i v).0 ≡ m
  unfolding insert
  insert-there m i v w e = ground arith

  pub find-put :
      (m : StdIdMap V) (i j : ℕ) (v : V)
      → find (insert (erase m i) i v).0 j ≡ (if i == j then some v else find m j)
  find-put m i j v =
      ground (arith, find-insert (erase m i) i j v, find-erase m i i, find-erase m i j)

-- The symbol's book is there, and what is found elsewhere was there before.
pub with_book-IsRouted :
    (n : ℕ) (m : MultiBook) (s : ℕ)
    → IsRouted n m
    → IsRouted n (with_book m s) × ((b : Book) × (find (with_book m s).books s ≡ some b))
unfolding with_book
with_book-IsRouted n m s v = elim (Option-cases (find m.books s)) [
  | inr (b, there) ↦ let same = insert-there m.books s empty_book b there in rw same (v, (b, there))
  | inl absent ↦
      let finds = λ (j : ℕ). find-insert m.books s j empty_book absent in
      (
        record {
          sound = λ j b e. (elim (Bool-cases (s == j)) [
            | inl here ↦
                let fresh : empty_book ≡ b = eq_of_some (rw here at (sym (finds j) ∙ e)) in
                subst (λ x. IsSound x × (resting x ≤ n)) fresh
                  (record { book = empty_book-IsBook; index = empty_book-IsIndexed }, omega arith)
            | inr other ↦ v.sound j b (rw other at (sym (finds j) ∙ e))
          ]);
          owned = λ id j e. (elim (Bool-cases (s == j)) [
            | inl here ↦ (empty_book, finds j ∙ rw here refl)
            | inr other ↦ let (b, there) = v.owned id j e in (b, finds j ∙ rw other there)
          ]);
        },
        (empty_book, finds s ∙ ground arith),
      )
]

-- A sound book is written back.
pub put_book-IsRouted :
    (n : ℕ) (m : MultiBook) (s : ℕ) (b : Book)
    → IsSound b
    → resting b ≤ n
    → IsRouted n m
    → IsRouted n (put_book m s b) × (find (put_book m s b).books s ≡ some b)
unfolding put_book
put_book-IsRouted n m s b k few v =
    let finds = λ (j : ℕ). find-put m.books s j b in
    (
      record {
        sound = λ j c e. (elim (Bool-cases (s == j)) [
          | inl here ↦
              let same : b ≡ c = eq_of_some (rw here at (sym (finds j) ∙ e)) in
              subst (λ x. IsSound x × (resting x ≤ n)) same (k, few)
          | inr other ↦ v.sound j c (rw other at (sym (finds j) ∙ e))
        ]);
        owned = λ id j e. (elim (Bool-cases (s == j)) [
          | inl here ↦ (b, finds j ∙ rw here refl)
          | inr other ↦ let (c, there) = v.owned id j e in (c, finds j ∙ rw other there)
        ]);
      },
      finds s ∙ ground arith,
    )

pub note_order-IsRouted :
    (n : ℕ) (m : MultiBook) (id s : ℕ) (b : Book)
    → find m.books s ≡ some b
    → IsRouted n m
    → IsRouted n (note_order m id s)
unfolding note_order
note_order-IsRouted n m id s b there v = record {
  sound = v.sound;
  owned = λ i j e. (elim (Option-cases (find m.owner id)) [
    | inr (w, known) ↦
        v.owned i j (subst (λ o. find o i ≡ some j) (insert-there m.owner id s w known) e)
    | inl absent ↦ elim (Bool-cases (id == i)) [
      | inl here ↦
          let same : s ≡ j =
            eq_of_some (rw here at (sym (find-insert m.owner id i s absent) ∙ e)) in
          (b, subst (λ x. find m.books x ≡ some b) same there)
      | inr other ↦ v.owned i j (rw other at (sym (find-insert m.owner id i s absent) ∙ e))
    ]
  ]);
}

pub forget_order-IsRouted :
    (n : ℕ) (m : MultiBook) (id : ℕ) → IsRouted n m → IsRouted n (forget_order m id)
unfolding forget_order
forget_order-IsRouted n m id v = record {
  sound = v.sound;
  owned = λ i j e. v.owned i j (ground (arith, e, find-erase m.owner id i));
}
