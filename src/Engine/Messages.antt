-- ===== src/Engine/Messages.antt =====
-- What the market-data messages of include/pricetime/engine.hpp say: the bytes on the queue, read back
-- with the decoders of include/pricetime/itch.hpp.
use pricetime.Common.{
  ℕ, ◌<◌, ◌≡◌, refl, ap, sym, ◌∙◌, List, [], ◌∷◌, ◌++◌, true, inl, inr, ltb, ◌==◌, if◌then◌else◌,
  Option, none, some, Option-cases, arith, ℤ, pos, eq_of_some, length, drop, get_or, u32, u64,
}
use pricetime.Types.{Side, bid}
use pricetime.Symbol.{Symbol}
use pricetime.Book.Messages.{FeedMessage, executed, added, canceled, deleted, replaced}
use pricetime.Itch.{
  decode_add_order, decode_order_executed, decode_order_cancel, decode_order_delete,
  decode_order_replace,
}
use pricetime.Itch.Writer.{
  Writer, cleared, add_order, order_executed, order_cancel, order_delete, order_replace,
}
use pricetime.Itch.RoundTrip.{
  u48, payload, decode-add_order, decode-order_executed, decode-order_cancel, decode-order_delete,
  decode-order_replace,
}

-- The type byte of a message chooses its decoder.
unfoldable pub read_payload : ℕ → List ℕ → Option FeedMessage
read_payload type p =
    if type == b'A'
    then (let d = decode_add_order p in some (added d.reference d.side d.shares d.price))
    else if type == b'E'
    then (let d = decode_order_executed p in some (executed d.reference d.shares))
    else if type == b'X'
    then (let d = decode_order_cancel p in some (canceled d.reference d.shares))
    else if type == b'D'
    then (let d = decode_order_delete p in some (deleted d.reference))
    else if type == b'U'
    then (let d = decode_order_replace p in
        some (replaced d.original_reference d.new_reference d.shares d.price))
    else none

-- A framed message of the queue, without its length.
abbrev pub read_message : List ℕ → Option FeedMessage
read_message buf = read_payload (get_or (drop 2 buf) 0 0) (drop 2 buf)

abbrev pub after_read : Option FeedMessage → Option (List FeedMessage) → Option (List FeedMessage)
after_read none rest = none
after_read (some x) none = none
after_read (some x) (some xs) = some (x ∷ xs)

unfoldable pub read_all : List (List ℕ) → Option (List FeedMessage)
read_all [] = some []
read_all (b ∷ bs) = after_read (read_message b) (read_all bs)

pub read_all-append :
    (bs cs : List (List ℕ)) (xs ys : List FeedMessage)
    → read_all bs ≡ some xs
    → read_all cs ≡ some ys
    → read_all (bs ++ cs) ≡ some (xs ++ ys)
unfolding read_all
read_all-append [] cs xs ys e k = k ∙ ap (λ zs. some (zs ++ ys)) (eq_of_some e)
read_all-append (b ∷ bs) cs xs ys e k = elim (Option-cases (read_message b)) [
  | inl unread ↦ absurd (let z : none ≡ some xs = rw unread at e in cc)
  | inr (x, read) ↦ elim (Option-cases (read_all bs)) [
    | inl unread ↦ absurd (let z : none ≡ some xs = rw (read, unread) at e in cc)
    | inr (zs, rest) ↦
        let all : x ∷ zs ≡ xs = eq_of_some (rw (read, rest) at e) in
        rw (read, read_all-append bs cs zs ys rest k) (ap (λ vs. some (vs ++ ys)) all)
  ]
]

-- A buffer that starts with this type and fits the queue's slots.
abbrev HasType : ℕ → Writer → Type 0
HasType type w = (get_or (payload w) 0 0 ≡ type) × (ltb (length w.buf) 65 ≡ true)

message_types :
    (ts ref shares match_no fresh : ℕ) (side : Side) (stock : Symbol) (price : ℤ)
    → HasType b'A' (add_order cleared ts ref side shares stock price)
      × HasType b'E' (order_executed cleared ts ref shares match_no)
      × HasType b'X' (order_cancel cleared ts ref shares)
      × HasType b'D' (order_delete cleared ts ref)
      × HasType b'U' (order_replace cleared ts ref fresh shares price)
unfolding add_order order_executed order_cancel order_delete order_replace
message_types ts ref shares match_no fresh side stock price =
    ((refl, refl), (refl, refl), (refl, refl), (refl, refl), (refl, refl))

-- If it adds an order, it names this symbol.
abbrev pub IsAbout : Symbol → List ℕ → Type 0
IsAbout stock buf = get_or (drop 2 buf) 0 0 ≡ b'A' → (decode_add_order (drop 2 buf)).symbol ≡ stock

-- What is added is a uint32 quantity.
abbrev pub IsSmall : FeedMessage → Type 0
IsSmall (executed id qty) = Unit
IsSmall (added id side qty price) = qty < u32
IsSmall (canceled id qty) = Unit
IsSmall (deleted id) = Unit
IsSmall (replaced old_id new_id qty price) = qty < u32

-- A buffer that says this and fits the queue's slots.
pub record IsMessage (stock : Symbol) (buf : List ℕ) (x : FeedMessage) : Type 0 where
  pub says : read_message buf ≡ some x
  pub fits : ltb (length buf) 65 ≡ true
  pub names : IsAbout stock buf
  pub small : IsSmall x

IsMessage-of :
    (stock : Symbol) (w : Writer) (type : ℕ) (x : FeedMessage)
    → HasType type w
    → read_payload type (payload w) ≡ some x
    → (type ≡ b'A' → (decode_add_order (payload w)).symbol ≡ stock)
    → IsSmall x
    → IsMessage stock w.buf x
IsMessage-of stock w type x t e about small = record {
  says = ap (λ y. read_payload y (payload w)) t.0 ∙ e;
  fits = t.1;
  names = λ a. about (sym t.0 ∙ a);
  small = small;
}

module _ (ts : ℕ) (stock : Symbol) (h : ts < u48) where
  pub add_order-IsMessage :
      (id : ℕ) (side : Side) (qty price : ℕ)
      → id < u64
      → qty < u32
      → price < u32
      → IsMessage stock
          (add_order cleared ts id side qty stock (pos price)).buf
          (added id side qty (pos price))
  unfolding read_payload
  add_order-IsMessage id side qty price k m n =
      IsMessage-of stock (add_order cleared ts id side qty stock (pos price)) b'A' _
        (message_types ts id qty 0 0 side stock (pos price)).0
        (ap (λ d. some (added d.reference d.side d.shares d.price))
          (decode-add_order ts id side qty stock price h k m n))
        (λ _. ap (λ d. d.symbol) (decode-add_order ts id side qty stock price h k m n)) m

  pub order_executed-IsMessage :
      (id qty n : ℕ)
      → id < u64
      → qty < u32
      → n < u64
      → IsMessage stock (order_executed cleared ts id qty n).buf (executed id qty)
  unfolding read_payload
  order_executed-IsMessage id qty n k m l =
      IsMessage-of stock (order_executed cleared ts id qty n) b'E' _
        (message_types ts id qty n 0 bid stock (pos 0)).1
        (ap (λ d. some (executed d.reference d.shares)) (decode-order_executed ts id qty n h k m l))
        (λ a. absurd (ground (arith, a))) tt

  pub order_cancel-IsMessage :
      (id qty : ℕ)
      → id < u64
      → qty < u32
      → IsMessage stock (order_cancel cleared ts id qty).buf (canceled id qty)
  unfolding read_payload
  order_cancel-IsMessage id qty k m =
      IsMessage-of stock (order_cancel cleared ts id qty) b'X' _
        (message_types ts id qty 0 0 bid stock (pos 0)).2
        (ap (λ d. some (canceled d.reference d.shares)) (decode-order_cancel ts id qty h k m))
        (λ a. absurd (ground (arith, a))) tt

  pub order_delete-IsMessage :
      (id : ℕ) → id < u64 → IsMessage stock (order_delete cleared ts id).buf (deleted id)
  unfolding read_payload
  order_delete-IsMessage id k =
      IsMessage-of stock (order_delete cleared ts id) b'D' _
        (message_types ts id 0 0 0 bid stock (pos 0)).3
        (ap (λ d. some (deleted d.reference)) (decode-order_delete ts id h k))
        (λ a. absurd (ground (arith, a))) tt

  pub order_replace-IsMessage :
      (old_id new_id qty price : ℕ)
      → old_id < u64
      → new_id < u64
      → qty < u32
      → price < u32
      → IsMessage stock
          (order_replace cleared ts old_id new_id qty (pos price)).buf
          (replaced old_id new_id qty (pos price))
  unfolding read_payload
  order_replace-IsMessage old_id new_id qty price k l m n =
      IsMessage-of stock (order_replace cleared ts old_id new_id qty (pos price)) b'U' _
        (message_types ts old_id qty 0 new_id bid stock (pos price)).4
        (ap (λ d. some (replaced d.original_reference d.new_reference d.shares d.price))
          (decode-order_replace ts old_id new_id qty price h k l m n))
        (λ a. absurd (ground (arith, a))) m
