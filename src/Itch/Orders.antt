-- ===== src/Itch/Orders.antt =====
-- The seven order messages of include/pricetime/itch_writer.hpp against the decoders of
-- include/pricetime/itch.hpp.
use pricetime.Common.{ℕ, ◌<◌, ◌≡◌, pos, List, Bool, true, false, u32, u64}
use pricetime.Types.{Side}
use pricetime.Symbol.{Symbol}
use pricetime.Itch.{
  decode_add_order, decode_order_executed, decode_order_cancel, decode_order_delete,
  decode_order_replace,
}
use pricetime.Itch.Writer.{
  cleared, add_order, order_executed, order_executed_with_price, order_cancel, order_delete,
  order_replace, add_order_mpid,
}
use pricetime.Itch.RoundTrip.{
  u48, payload, decode-add_order, decode-add_order_mpid, decode-order_executed,
  decode-order_executed_with_price, decode-order_cancel, decode-order_delete, decode-order_replace,
}

-- Each of the seven order messages (add, with a participant id or without, executed, with a
-- price or without, cancel, delete and replace) decodes to what was written, a participant id
-- apart, for a 48-bit timestamp, uint64 references and match number and uint32 shares and price.
pub decode-written :
    (ts ref fresh shares match_no price : ℕ) (side : Side) (sym : Symbol) (printable : Bool)
    (mpid : List ℕ)
    → ts < u48
    → ref < u64
    → fresh < u64
    → shares < u32
    → match_no < u64
    → price < u32
    → (decode_add_order (payload (add_order cleared ts ref side shares sym (pos price))) ≡ record {
      timestamp = ts;
      reference = ref;
      side = side;
      shares = shares;
      symbol = sym;
      price = pos price;
    })
      × (decode_add_order (payload (add_order_mpid cleared ts ref side shares sym (pos price) mpid))
          ≡ record {
            timestamp = ts;
            reference = ref;
            side = side;
            shares = shares;
            symbol = sym;
            price = pos price;
          })
      × (decode_order_executed (payload (order_executed cleared ts ref shares match_no)) ≡ record {
        timestamp = ts;
        reference = ref;
        shares = shares;
        match_number = match_no;
        has_price = false;
        printable = true;
        price = pos 0;
      })
      × (decode_order_executed (
            payload
              (order_executed_with_price cleared ts ref shares match_no printable (pos price)))
          ≡ record {
            timestamp = ts;
            reference = ref;
            shares = shares;
            match_number = match_no;
            has_price = true;
            printable = printable;
            price = pos price;
          })
      × (decode_order_cancel (payload (order_cancel cleared ts ref shares))
          ≡ record { timestamp = ts; reference = ref; shares = shares })
      × (decode_order_delete (payload (order_delete cleared ts ref))
          ≡ record { timestamp = ts; reference = ref })
      × (decode_order_replace (payload (order_replace cleared ts ref fresh shares (pos price)))
          ≡ record {
            timestamp = ts;
            original_reference = ref;
            new_reference = fresh;
            shares = shares;
            price = pos price;
          })
decode-written ts ref fresh shares match_no price side sym printable mpid h_ts h_ref h_fresh
      h_shares h_match h_price =
    (
      decode-add_order ts ref side shares sym price h_ts h_ref h_shares h_price,
      decode-add_order_mpid ts ref side shares sym price mpid h_ts h_ref h_shares h_price,
      decode-order_executed ts ref shares match_no h_ts h_ref h_shares h_match,
      decode-order_executed_with_price ts ref shares match_no printable price h_ts h_ref h_shares
          h_match h_price,
      decode-order_cancel ts ref shares h_ts h_ref h_shares,
      decode-order_delete ts ref h_ts h_ref,
      decode-order_replace ts ref fresh shares price h_ts h_ref h_fresh h_shares h_price,
    )
