-- ===== src/Itch/RoundTrip.antt =====
-- include/pricetime/itch_writer.hpp against the decoders of include/pricetime/itch.hpp.
use pricetime.Common.{
  ℕ, ◌<◌, ◌^◌, ◌≡◌, refl, ℤ, pos, List, Bool, true, false, drop, length, arith, u32, u64,
}
use pricetime.Types.{Side, bid, ask}
use pricetime.Symbol.{Symbol}
use pricetime.Itch.{
  decode_add_order, decode_order_executed, decode_order_cancel, decode_order_delete,
  decode_order_replace, message_length,
}
use pricetime.Itch.Writer.{
  Writer, cleared, add_order, order_executed, order_executed_with_price, order_cancel, order_delete,
  order_replace, add_order_mpid,
}

abbrev pub u48 : ℕ
u48 = 2 ^ 48

-- The bytes of the one message in a writer's buffer.
abbrev pub payload : Writer → List ℕ
payload w = drop 2 w.buf

-- An order-delete message decodes to what was written, for a 48-bit timestamp and a uint64
-- reference.
pub decode-order_delete :
    (ts ref : ℕ)
    → ts < u48
    → ref < u64
    → decode_order_delete (payload (order_delete cleared ts ref))
      ≡ record { timestamp = ts; reference = ref }
unfolding decode_order_delete order_delete
decode-order_delete ts ref h k = ground arith

-- An order-cancel message decodes to what was written, for a 48-bit timestamp, a uint64
-- reference and uint32 shares.
pub decode-order_cancel :
    (ts ref shares : ℕ)
    → ts < u48
    → ref < u64
    → shares < u32
    → decode_order_cancel (payload (order_cancel cleared ts ref shares))
      ≡ record { timestamp = ts; reference = ref; shares = shares }
unfolding decode_order_cancel order_cancel
decode-order_cancel ts ref shares h k m = ground arith

-- An order-replace message decodes to what was written, for a 48-bit timestamp, uint64
-- references and uint32 shares and price.
pub decode-order_replace :
    (ts orig fresh shares price : ℕ)
    → ts < u48
    → orig < u64
    → fresh < u64
    → shares < u32
    → price < u32
    → decode_order_replace (payload (order_replace cleared ts orig fresh shares (pos price)))
      ≡ record {
        timestamp = ts;
        original_reference = orig;
        new_reference = fresh;
        shares = shares;
        price = pos price;
      }
unfolding decode_order_replace order_replace
decode-order_replace ts orig fresh shares price h k m n p = ground arith

-- An order-executed message decodes to what was written, without a price, for a 48-bit
-- timestamp, uint64 reference and match number and uint32 shares.
pub decode-order_executed :
    (ts ref shares match_no : ℕ)
    → ts < u48
    → ref < u64
    → shares < u32
    → match_no < u64
    → decode_order_executed (payload (order_executed cleared ts ref shares match_no)) ≡ record {
      timestamp = ts;
      reference = ref;
      shares = shares;
      match_number = match_no;
      has_price = false;
      printable = true;
      price = pos 0;
    }
unfolding decode_order_executed order_executed
decode-order_executed ts ref shares match_no h k m n = ground arith

-- An order-executed-with-price message decodes to what was written, its price and its printable
-- flag included, for a 48-bit timestamp, uint64 reference and match number and uint32 shares and
-- price.
pub decode-order_executed_with_price :
    (ts ref shares match_no : ℕ) (printable : Bool) (price : ℕ)
    → ts < u48
    → ref < u64
    → shares < u32
    → match_no < u64
    → price < u32
    → decode_order_executed
        (payload (order_executed_with_price cleared ts ref shares match_no printable (pos price)))
      ≡ record {
        timestamp = ts;
        reference = ref;
        shares = shares;
        match_number = match_no;
        has_price = true;
        printable = printable;
        price = pos price;
      }
unfolding decode_order_executed order_executed_with_price
decode-order_executed_with_price ts ref shares match_no true price h k m n p = ground arith
decode-order_executed_with_price ts ref shares match_no false price h k m n p = ground arith

-- An add-order message decodes to what was written, for a 48-bit timestamp, a uint64 reference
-- and uint32 shares and price.
pub decode-add_order :
    (ts ref : ℕ) (side : Side) (shares : ℕ) (sym : Symbol) (price : ℕ)
    → ts < u48
    → ref < u64
    → shares < u32
    → price < u32
    → decode_add_order (payload (add_order cleared ts ref side shares sym (pos price))) ≡ record {
      timestamp = ts;
      reference = ref;
      side = side;
      shares = shares;
      symbol = sym;
      price = pos price;
    }
unfolding decode_add_order add_order
decode-add_order ts ref bid shares sym price h k m n = ground arith
decode-add_order ts ref ask shares sym price h k m n = ground arith

-- Whatever its fields, each of the add, executed, cancel, delete and replace messages is written
-- with the length that the table gives its type.
written_length :
    (ts ref shares match_no fresh : ℕ) (side : Side) (sym : Symbol) (price : ℤ)
    → (length (payload (add_order cleared ts ref side shares sym price)) ≡ message_length b'A')
      × (length (payload (order_executed cleared ts ref shares match_no)) ≡ message_length b'E')
      × (length (payload (order_cancel cleared ts ref shares)) ≡ message_length b'X')
      × (length (payload (order_delete cleared ts ref)) ≡ message_length b'D')
      × (length (payload (order_replace cleared ts ref fresh shares price)) ≡ message_length b'U')
unfolding add_order order_executed order_cancel order_delete order_replace message_length
written_length ts ref shares match_no fresh side sym price = (refl, refl, refl, refl, refl)

-- An add-order message with a participant id decodes to what was written, the id apart, for any
-- id, a 48-bit timestamp, a uint64 reference and uint32 shares and price.
pub decode-add_order_mpid :
    (ts ref : ℕ) (side : Side) (shares : ℕ) (sym : Symbol) (price : ℕ) (mpid : List ℕ)
    → ts < u48
    → ref < u64
    → shares < u32
    → price < u32
    → decode_add_order (payload (add_order_mpid cleared ts ref side shares sym (pos price) mpid))
      ≡ record {
        timestamp = ts;
        reference = ref;
        side = side;
        shares = shares;
        symbol = sym;
        price = pos price;
      }
unfolding decode_add_order add_order_mpid
decode-add_order_mpid ts ref bid shares sym price mpid h k m n = ground arith
decode-add_order_mpid ts ref ask shares sym price mpid h k m n = ground arith
