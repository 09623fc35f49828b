-- ===== src/Replay/Removals.antt =====
-- Executions, cancels, deletes and replaces in include/pricetime/itch_replay.hpp: the replayer's book and
-- index of orders follow.
use pricetime.Common.{
  ℕ, ◌≡◌, ◌≢◌, refl, ap, sym, ◌∙◌, subst, [], Option, Option-cases, none, some, Bool, true, false,
  inl, inr, Bool-cases, ◌==◌, arith, eq_of_some, eq_of_==,
}
use pricetime.Types.{Order, Result, ok, rejected_unknown_id}
use pricetime.IdMap.{find, erase, find-erase}
use pricetime.Matching.{Handle}
use pricetime.Book.{
  Book, Outcome, find_order, insert_passive, consume, consume_open, cancel, cancel_open, rejected,
  validate,
}
use pricetime.Book.Invariant.{IsBook}
use pricetime.Book.Entry.{validate-ok}
use pricetime.Book.Same.{lookup-absent}
use pricetime.Book.Orders.{cancel-orders, consume-others, find_order-none, find_order-some}
use pricetime.Book.Messages.{take, replaced}
use pricetime.MultiBook.{MultiBook, book_for_order, put_book, forget_order}
use pricetime.Itch.{OrderExecuted, OrderCancel, OrderDelete, OrderReplace}
use pricetime.Replay.{
  Replayer, stamp, routed, count_unknown, after_taken, on_executed, on_cancel, on_delete,
  replace_in, on_replace,
}
use pricetime.Replay.Follow.{
  owner_of, Carries, Tracks, known-book, put-Carries, ok_or, rest-Carries, insert_passive-ok,
  insert_passive-refused,
}

forget-Carries :
    (s : ℕ) (m : MultiBook) (b : Book) (id : ℕ)
    → ((i : ℕ) → find (erase m.owner id) i ≡ owner_of s (find b.orders i))
    → Carries s (forget_order (put_book m s b) id) b
unfolding forget_order put_book
forget-Carries s m b id owner = put-Carries s (record m { owner = erase m.owner id }) b owner

module _ (s : ℕ) (r : Replayer) (b : Book) (v : Tracks s r b) where
  unowned : (id : ℕ) → find b.orders id ≡ none → book_for_order r.books id ≡ none
  unfolding book_for_order
  unowned id absent = v.books.owner id ∙ ap (owner_of s) absent

  owned : (id : ℕ) (h : Handle) → find b.orders id ≡ some h → book_for_order r.books id ≡ some s
  unfolding book_for_order
  owned id h present = v.books.owner id ∙ ap (owner_of s) present

  routed-absent :
      (id : ℕ) (next : ℕ → Book → Option Replayer)
      → find b.orders id ≡ none
      → routed r id next ≡ some (count_unknown r)
  routed-absent id next absent = rw (unowned id absent, routed) refl

  routed-present :
      (id : ℕ) (next : ℕ → Book → Option Replayer) (h : Handle)
      → find b.orders id ≡ some h
      → routed r id next ≡ next s b
  routed-present id next h present =
      rw (owned id h present, known-book s r.books b id h v.books present, routed) refl

  -- The book is written back: other ids are as they were, and this one is kept or forgotten.
  kept-Carries :
      (id : ℕ) (h k : Handle) (b' : Book)
      → find b.orders id ≡ some h
      → find b'.orders id ≡ some k
      → ((i : ℕ) → i ≢ id → find b'.orders i ≡ find b.orders i)
      → Carries s (put_book r.books s b') b'
  kept-Carries id h k b' present still others = put-Carries s r.books b' (λ i.
      (elim (Bool-cases (id == i)) [
        | inl here ↦
            let e = eq_of_== id i here in
            subst (λ j. find r.books.owner j ≡ owner_of s (find b'.orders j)) e
              (v.books.owner id ∙ ap (owner_of s) present ∙ sym (ap (owner_of s) still))
        | inr other ↦ v.books.owner i ∙ ap (owner_of s) (sym (others i (ground (arith, other))))
      ]))

  forgotten-Carries :
      (id : ℕ) (b' : Book)
      → find b'.orders id ≡ none
      → ((i : ℕ) → i ≢ id → find b'.orders i ≡ find b.orders i)
      → Carries s (forget_order (put_book r.books s b') id) b'
  forgotten-Carries id b' gone others = forget-Carries s r.books b' id (λ i.
      (find-erase r.books.owner id i ∙ elim (Bool-cases (id == i)) [
        | inl here ↦
            let e = eq_of_== id i here in
            rw here
              (subst (λ j. none ≡ owner_of s (find b'.orders j)) e (sym (ap (owner_of s) gone)))
        | inr other ↦
            rw other (v.books.owner i ∙ ap (owner_of s) (sym (others i (ground (arith, other)))))
      ]))

  -- What an executed or canceled message does once the book has answered.
  taken_answer : (id asked ts : ℕ) (x : Bool) → ℕ → Book → Option Replayer
  taken_answer id asked ts x s' c = elim (consume c id asked x) [
    | none ↦ none
    | some answer ↦ after_taken r s' id asked ts x answer
  ]

  after_taken-Tracks :
      (id asked ts : ℕ) (x : Bool) (h : Handle) (o : Book × Result × ℕ) (r' : Replayer)
      → IsBook 0 b
      → find b.orders id ≡ some h
      → consume b id asked x ≡ some o
      → after_taken r s id asked ts x o ≡ some r'
      → Tracks s r' o.0
  unfolding after_taken
  after_taken-Tracks id asked ts x h o r' k present answers run =
      let others = λ (i : ℕ) (other : i ≢ id). consume-others b k id asked x o answers i other in
      elim (Option-cases (find_order o.0 id)) [
        | inl lost ↦ absurd (let z : none ≡ some r' = rw lost at run in cc)
        | inr (found, finds) ↦ elim (Option-cases found) [
          | inl gone ↦
              let none_left : find_order o.0 id ≡ some none = finds ∙ ap some gone in
              subst (λ y. Tracks s y o.0) (eq_of_some (rw none_left at run))
                (record {
                  all = v.all;
                  books = forgotten-Carries id o.0 (find_order-none o.0 id none_left) others;
                })
          | inr (y, stays) ↦
              let some_left : find_order o.0 id ≡ some (some y) = finds ∙ ap some stays in
              let (kept, still) = find_order-some o.0 id y some_left in
              subst (λ z. Tracks s z o.0) (eq_of_some (rw some_left at run))
                (record { all = v.all; books = kept-Carries id h kept o.0 present still others })
        ]
      ]

  consume-absent :
      (id asked : ℕ) (x : Bool)
      → find b.orders id ≡ none
      → consume b id asked x ≡ some (b, rejected_unknown_id, 0)
  unfolding consume
  consume-absent id asked x absent =
      lookup-absent b id (b, rejected_unknown_id, 0) (consume_open b asked x) absent

  taken-Tracks :
      (id asked ts : ℕ) (x : Bool) (o : Book × Result × ℕ) (r' : Replayer)
      → IsBook 0 b
      → consume b id asked x ≡ some o
      → routed r id (taken_answer id asked ts x) ≡ some r'
      → Tracks s r' o.0
  unfolding taken_answer
  taken-Tracks id asked ts x o r' k answers run = elim (Option-cases (find b.orders id)) [
    | inl absent ↦
        let same = eq_of_some (sym (consume-absent id asked x absent) ∙ answers) in
        let counted =
          eq_of_some (sym (routed-absent id (taken_answer id asked ts x) absent) ∙ run) in
        subst (λ y. Tracks s r' y.0) same
          (subst (λ y. Tracks s y b) counted (record { all = v.all; books = v.books }))
    | inr (h, present) ↦ after_taken-Tracks id asked ts x h o r' k present answers (
        rw (answers, taken_answer) at
          (sym (routed-present id (taken_answer id asked ts x) h present) ∙ run))
  ]

module _ (s : ℕ) (r r' : Replayer) (b : Book) (v : Tracks s r b) (k : IsBook 0 b) where
  stamped : (ts : ℕ) → Tracks s (stamp r ts) b
  stamped ts = record { all = v.all; books = v.books }

  pub on_executed-Tracks :
      (m : OrderExecuted) (o : Book × Result × ℕ)
      → consume b m.reference m.shares true ≡ some o
      → on_executed r m ≡ some r'
      → Tracks s r' o.0
  unfolding on_executed taken_answer
  on_executed-Tracks m o answers run =
      taken-Tracks s (stamp r m.timestamp) b (stamped m.timestamp) m.reference m.shares m.timestamp
        true o r' k answers run

  pub on_cancel-Tracks :
      (m : OrderCancel) (o : Book × Result × ℕ)
      → consume b m.reference m.shares false ≡ some o
      → on_cancel r m ≡ some r'
      → Tracks s r' o.0
  unfolding on_cancel taken_answer
  on_cancel-Tracks m o answers run =
      taken-Tracks s (stamp r m.timestamp) b (stamped m.timestamp) m.reference m.shares m.timestamp
        false o r' k answers run

  cancel-absent :
      (id : ℕ) → find b.orders id ≡ none → cancel b id ≡ some (rejected b rejected_unknown_id)
  unfolding cancel
  cancel-absent id absent =
      lookup-absent b id (rejected b rejected_unknown_id) (λ e. (cancel_open b e, ok, [])) absent

  -- A cancel forgets the id and leaves the others.
  gone_of : (id : ℕ) (o : Outcome) → cancel b id ≡ some o → find o.0.orders id ≡ none
  gone_of id o answers =
      ap (λ os. find os id) (cancel-orders b k id o answers)
      ∙ ground (arith, find-erase b.orders id id)

  others_of :
      (id : ℕ) (o : Outcome)
      → cancel b id ≡ some o
      → (i : ℕ) → i ≢ id
      → find o.0.orders i ≡ find b.orders i
  others_of id o answers i other =
      ap (λ os. find os i) (cancel-orders b k id o answers)
      ∙ ground (arith, other, find-erase b.orders id i)

  pub on_delete-Tracks :
      (m : OrderDelete) (o : Outcome)
      → cancel b m.reference ≡ some o
      → on_delete r m ≡ some r'
      → Tracks s r' o.0
  unfolding on_delete
  on_delete-Tracks m o answers run = elim (Option-cases (find b.orders m.reference)) [
    | inl absent ↦
        let same = eq_of_some (sym (cancel-absent m.reference absent) ∙ answers) in
        let counted = eq_of_some (
          sym (routed-absent s (stamp r m.timestamp) b (stamped m.timestamp) m.reference _ absent)
          ∙ run) in
        subst (λ y. Tracks s r' y.0) same
          (subst (λ y. Tracks s y b) counted (record { all = v.all; books = v.books }))
    | inr (h, present) ↦
        let done =
          sym
            (routed-present s (stamp r m.timestamp) b (stamped m.timestamp) m.reference _ h present)
          ∙ run in
        subst (λ y. Tracks s y o.0) (eq_of_some (rw answers at done))
          (record {
            all = v.all;
            books =
                forgotten-Carries s (stamp r m.timestamp) b (stamped m.timestamp) m.reference o.0
                  (gone_of m.reference o answers) (others_of m.reference o answers);
          })
  ]

  find_order-absent : (id : ℕ) → find b.orders id ≡ none → find_order b id ≡ some none
  unfolding find_order
  find_order-absent id absent = lookup-absent b id none (λ e. some e.1) absent

  -- The new order is noted if it rests.
  replace_in-Tracks :
      (m : OrderReplace) (x : Order) (o : Outcome)
      → cancel b m.original_reference ≡ some o
      → Tracks s
          (replace_in (stamp r m.timestamp) m s x o.0)
          (insert_passive o.0 m.new_reference x.side m.price m.shares).0
  unfolding replace_in
  replace_in-Tracks m x o answers =
      let gone =
        forgotten-Carries s (stamp r m.timestamp) b (stamped m.timestamp) m.original_reference o.0
          (gone_of m.original_reference o answers) (others_of m.original_reference o answers) in
      let books = forget_order (put_book r.books s o.0) m.original_reference in
      elim (ok_or (validate o.0 m.new_reference m.shares)) [
        | inl valid ↦
            let e = insert_passive-ok o.0 m.new_reference x.side m.price m.shares valid in
            rw e (record {
              all = v.all;
              books =
                  rest-Carries s books o.0 m.new_reference x.side m.price m.shares gone.owner
                    (validate-ok o.0 m.new_reference m.shares valid).2;
            })
        | inr refused ↦
            let e = insert_passive-refused o.0 m.new_reference x.side m.price m.shares refused in
            rw e (
              subst (λ y. Tracks s y o.0) (sym (refused Replayer _ _))
                (record { all = v.all; books = gone }))
      ]

  pub on_replace-Tracks :
      (m : OrderReplace) (b' : Book)
      → take b (replaced m.original_reference m.new_reference m.shares m.price) ≡ some b'
      → on_replace r m ≡ some r'
      → Tracks s r' b'
  unfolding on_replace take
  on_replace-Tracks m b' takes run = elim (Option-cases (find b.orders m.original_reference)) [
    | inl absent ↦
        let same : b ≡ b' =
          eq_of_some (rw (find_order-absent m.original_reference absent) at takes) in
        let counted = eq_of_some (
          sym (
            routed-absent s (stamp r m.timestamp) b (stamped m.timestamp) m.original_reference _
              absent)
          ∙ run) in
        subst (Tracks s r') same
          (subst (λ y. Tracks s y b) counted (record { all = v.all; books = v.books }))
    | inr (h, present) ↦
        let done =
          sym (
            routed-present s (stamp r m.timestamp) b (stamped m.timestamp) m.original_reference _ h
              present)
          ∙ run in
        elim (Option-cases (find_order b m.original_reference)) [
          | inl lost ↦ absurd (let z : none ≡ some b' = rw lost at takes in cc)
          | inr (found, finds) ↦ elim (Option-cases found) [
            | inl gone ↦ absurd (
                let z =
                  sym (find_order-none b m.original_reference (finds ∙ ap some gone)) ∙ present in
                cc)
            | inr (x, there) ↦
                let finds' : find_order b m.original_reference ≡ some (some x) =
                  finds ∙ ap some there in
                elim (Option-cases (cancel b m.original_reference)) [
                  | inl stuck ↦ absurd (let z : none ≡ some b' = rw (finds', stuck) at takes in cc)
                  | inr (o, answers) ↦
                      subst (Tracks s r') (eq_of_some (rw (finds', answers) at takes)) (
                        subst
                          (λ y.
                            Tracks s y
                              (insert_passive o.0 m.new_reference x.side m.price m.shares).0)
                          (eq_of_some (rw (finds', answers) at done))
                          (replace_in-Tracks m x o answers))
                ]
          ]
        ]
  ]
