-- ===== src/Replay/Mirror.antt =====
-- include/pricetime/itch_replay.hpp on the bytes of a feed of one symbol: the replayer's book is the one
-- that the messages make.
use pricetime.Common.{
  ℕ, ◌+◌, ◌<◌, ◌≡◌, refl, ap, sym, ◌∙◌, subst, List, Option, Option-cases, none, some, true, false,
  inl, inr, Bool-cases, ◌==◌, u32, eq_of_some, eq_of_==, get_or, add_u64,
}
use pricetime.Symbol.{Symbol, bits}
use pricetime.Book.{Book, insert_passive, consume, cancel}
use pricetime.Book.Invariant.{IsBook}
use pricetime.Book.Messages.{FeedMessage, executed, added, canceled, deleted, replaced, take}
use pricetime.Itch.{
  decode_add_order, decode_order_executed, decode_order_cancel, decode_order_delete,
  decode_order_replace,
}
use pricetime.Engine.Messages.{read_payload, IsSmall}
use pricetime.Replay.{Replayer, on_add, on_executed, on_cancel, on_delete, on_replace, apply}
use pricetime.Replay.Books.{IsRouted, with_book-IsRouted}
use pricetime.Replay.Total.{
  on_add-Routes, on_executed-Routes, on_cancel-Routes, on_delete-Routes, on_replace-Routes,
}
use pricetime.Replay.Follow.{Tracks, on_add-Tracks}
use pricetime.Replay.Removals.{
  on_executed-Tracks, on_cancel-Tracks, on_delete-Tracks, on_replace-Tracks,
}

-- The message is counted before the switch.
abbrev counted : Replayer → ℕ → Replayer
counted r len = record r {
  stats = record (r.stats) {
    messages = add_u64 r.stats.messages 1;
    bytes = add_u64 r.stats.bytes len;
  };
}

-- The branches of `apply` for the messages of an order.
module _ (r : Replayer) (p : List ℕ) (len : ℕ) where
  apply-add : get_or p 0 0 ≡ b'A' → apply r p len ≡ on_add (counted r len) (decode_add_order p)
  unfolding apply
  apply-add k = rw k refl

  apply-executed :
      get_or p 0 0 ≡ b'E' → apply r p len ≡ on_executed (counted r len) (decode_order_executed p)
  unfolding apply
  apply-executed k = rw k refl

  apply-cancel :
      get_or p 0 0 ≡ b'X' → apply r p len ≡ on_cancel (counted r len) (decode_order_cancel p)
  unfolding apply
  apply-cancel k = rw k refl

  apply-delete :
      get_or p 0 0 ≡ b'D' → apply r p len ≡ on_delete (counted r len) (decode_order_delete p)
  unfolding apply
  apply-delete k = rw k refl

  apply-replace :
      get_or p 0 0 ≡ b'U' → apply r p len ≡ on_replace (counted r len) (decode_order_replace p)
  unfolding apply
  apply-replace k = rw k refl

-- A message is applied, and the replayer's book is `b` after it.
pub record Applied (s n : ℕ) (o : Option Replayer) (b : Book) : Type 0 where
  pub after : Replayer
  pub runs : o ≡ some after
  pub routed : IsRouted n after.books
  pub tracks : Tracks s after b

abbrev pub IsApplied : (s n : ℕ) → Option Replayer → Book → FeedMessage → Type 0
IsApplied s n o b x = (b' : Book) → take b x ≡ some b' → IsSmall x → Applied s n o b'

module _ (stock : Symbol) (n : ℕ) (r : Replayer) (b : Book) (p : List ℕ) (len : ℕ) where
  module _ (v : Tracks (bits stock) r b) (w : IsRouted n r.books) (few : n + 2 < u32) where
    sound_book : IsBook 0 b
    sound_book =
        ((with_book-IsRouted n r.books (bits stock) w).0.sound (bits stock) b v.books.book).0.book

    start : Tracks (bits stock) (counted r len) b
    start = record { all = v.all; books = v.books }

    add-IsApplied :
        get_or p 0 0 ≡ b'A'
        → (decode_add_order p).symbol ≡ stock
        → let d = decode_add_order p in
          IsApplied
            (bits stock)
            (n + 1)
            (apply r p len)
            b
            (added d.reference d.side d.shares d.price)
    unfolding take
    add-IsApplied k named b' takes small =
        let d = decode_add_order p in
        let (r', run, routed) = on_add-Routes n (counted r len) w few d small in
        record {
          after = r';
          runs = apply-add r p len k ∙ run;
          routed = routed;
          tracks = subst (Tracks (bits stock) r') (eq_of_some takes) (
              subst (λ z. Tracks z r' (insert_passive b d.reference d.side d.price d.shares).0)
                (ap bits named)
                (on_add-Tracks (counted r len) r' b d
                  (subst (λ z. Tracks z (counted r len) b) (sym (ap bits named)) start) run));
        }

    executed-IsApplied :
        get_or p 0 0 ≡ b'E'
        → let d = decode_order_executed p in
          IsApplied (bits stock) (n + 1) (apply r p len) b (executed d.reference d.shares)
    unfolding take
    executed-IsApplied k b' takes small =
        let d = decode_order_executed p in
        let (r', run, routed) = on_executed-Routes n (counted r len) w few d in
        elim (Option-cases (consume b d.reference d.shares true)) [
          | inl lost ↦ absurd (let z : none ≡ some b' = rw lost at takes in cc)
          | inr (o, answers) ↦ record {
            after = r';
            runs = apply-executed r p len k ∙ run;
            routed = routed;
            tracks = subst (Tracks (bits stock) r') (eq_of_some (rw answers at takes)) (
                on_executed-Tracks (bits stock) (counted r len) r' b start sound_book d o answers
                  run);
          }
        ]

    canceled-IsApplied :
        get_or p 0 0 ≡ b'X'
        → let d = decode_order_cancel p in
          IsApplied (bits stock) (n + 1) (apply r p len) b (canceled d.reference d.shares)
    unfolding take
    canceled-IsApplied k b' takes small =
        let d = decode_order_cancel p in
        let (r', run, routed) = on_cancel-Routes n (counted r len) w few d in
        elim (Option-cases (consume b d.reference d.shares false)) [
          | inl lost ↦ absurd (let z : none ≡ some b' = rw lost at takes in cc)
          | inr (o, answers) ↦ record {
            after = r';
            runs = apply-cancel r p len k ∙ run;
            routed = routed;
            tracks = subst (Tracks (bits stock) r') (eq_of_some (rw answers at takes)) (
                on_cancel-Tracks (bits stock) (counted r len) r' b start sound_book d o answers
                  run);
          }
        ]

    deleted-IsApplied :
        get_or p 0 0 ≡ b'D'
        → IsApplied
            (bits stock)
            (n + 1)
            (apply r p len)
            b
            (deleted (decode_order_delete p).reference)
    unfolding take
    deleted-IsApplied k b' takes small =
        let d = decode_order_delete p in
        let (r', run, routed) = on_delete-Routes n (counted r len) w few d in
        elim (Option-cases (cancel b d.reference)) [
          | inl lost ↦ absurd (let z : none ≡ some b' = rw lost at takes in cc)
          | inr (o, answers) ↦ record {
            after = r';
            runs = apply-delete r p len k ∙ run;
            routed = routed;
            tracks = subst (Tracks (bits stock) r') (eq_of_some (rw answers at takes)) (
                on_delete-Tracks (bits stock) (counted r len) r' b start sound_book d o answers
                  run);
          }
        ]

    replaced-IsApplied :
        get_or p 0 0 ≡ b'U'
        → let d = decode_order_replace p in
          IsApplied
            (bits stock)
            (n + 1)
            (apply r p len)
            b
            (replaced d.original_reference d.new_reference d.shares d.price)
    replaced-IsApplied k b' takes small =
        let d = decode_order_replace p in
        let (r', run, routed) = on_replace-Routes n (counted r len) w few d small in
        record {
          after = r';
          runs = apply-replace r p len k ∙ run;
          routed = routed;
          tracks =
              on_replace-Tracks (bits stock) (counted r len) r' b start sound_book d b' takes run;
        }

    pub payload-IsApplied :
        (x : FeedMessage)
        → read_payload (get_or p 0 0) p ≡ some x
        → (get_or p 0 0 ≡ b'A' → (decode_add_order p).symbol ≡ stock)
        → IsApplied (bits stock) (n + 1) (apply r p len) b x
    unfolding read_payload
    payload-IsApplied x read about =
        let t : ℕ = get_or p 0 0 in
        let P : FeedMessage → Type 0 = IsApplied (bits stock) (n + 1) (apply r p len) b in
        elim (Bool-cases (t == b'A')) [
          | inl a ↦
              let k = eq_of_== t b'A' a in
              subst P (eq_of_some (rw a at read)) (add-IsApplied k (about k))
          | inr a ↦ elim (Bool-cases (t == b'E')) [
            | inl e ↦
                subst P (eq_of_some (rw (a, e) at read)) (executed-IsApplied (eq_of_== t b'E' e))
            | inr e ↦ elim (Bool-cases (t == b'X')) [
              | inl c ↦
                  subst P (eq_of_some (rw (a, e, c) at read))
                    (canceled-IsApplied (eq_of_== t b'X' c))
              | inr c ↦ elim (Bool-cases (t == b'D')) [
                | inl d ↦
                    subst P (eq_of_some (rw (a, e, c, d) at read))
                      (deleted-IsApplied (eq_of_== t b'D' d))
                | inr d ↦ elim (Bool-cases (t == b'U')) [
                  | inl u ↦
                      subst P (eq_of_some (rw (a, e, c, d, u) at read))
                        (replaced-IsApplied (eq_of_== t b'U' u))
                  | inr u ↦ absurd (let z : none ≡ some x = rw (a, e, c, d, u) at read in cc)
                ]
              ]
            ]
          ]
        ]
