-- ===== src/Itch/Writer.antt =====
-- include/pricetime/itch_writer.hpp: the encoder. Each `put` appends bytes to the buffer.
use pricetime.Common.{
  ℕ, ◌+◌, ◌-◌, ◌/◌, ◌%◌, ℤ, pos, negsuc, List, [], ◌∷◌, ◌++◌, Bool, length, replicate, get_or,
  if◌then◌else◌, u32,
}
use pricetime.Types.{Side, bid, ask}
use pricetime.Symbol.{Symbol, bytes}

pub record Writer : Type 0 where
  pub buf : List ℕ
  pub count : ℕ
  pub body_start : ℕ
  pub msg_len : ℕ

-- A fresh writer, and one after `clear`, whose other fields the next message sets.
abbrev pub cleared : Writer
cleared = record { buf = []; count = 0; body_start = 0; msg_len = 0 }

abbrev pub put8 : Writer → ℕ → Writer
put8 w v = record w { buf = w.buf ++ (v % 256) ∷ [] }

abbrev pub put16 : Writer → ℕ → Writer
put16 w v = record w { buf = w.buf ++ (v / 0x100 % 256) ∷ (v % 256) ∷ [] }

abbrev pub put32 : Writer → ℕ → Writer
put32 w v = record w {
  buf = w.buf ++ (v / 0x1000000 % 256) ∷ (v / 0x10000 % 256) ∷ (v / 0x100 % 256) ∷ (v % 256) ∷ [];
}

abbrev pub put48 : Writer → ℕ → Writer
put48 w v = record w {
  buf =
      w.buf
      ++ (v / 0x10000000000 % 256)
        ∷ (v / 0x100000000 % 256)
        ∷ (v / 0x1000000 % 256)
        ∷ (v / 0x10000 % 256)
        ∷ (v / 0x100 % 256)
        ∷ (v % 256)
        ∷ [];
}

abbrev pub put64 : Writer → ℕ → Writer
put64 w v = record w {
  buf =
      w.buf
      ++ (v / 0x100000000000000 % 256)
        ∷ (v / 0x1000000000000 % 256)
        ∷ (v / 0x10000000000 % 256)
        ∷ (v / 0x100000000 % 256)
        ∷ (v / 0x1000000 % 256)
        ∷ (v / 0x10000 % 256)
        ∷ (v / 0x100 % 256)
        ∷ (v % 256)
        ∷ [];
}

abbrev pub put_symbol : Writer → Symbol → Writer
put_symbol w s = record w { buf = w.buf ++ bytes s }

-- `static_cast<std::uint32_t>(price)`
abbrev pub price_bits : ℤ → ℕ
price_bits (pos n) = n % u32
price_bits (negsuc n) = u32 - 1 - n % u32

abbrev pub pad : Writer → ℕ → Writer
pad w to_len = record w { buf = w.buf ++ replicate (to_len - (length w.buf - w.body_start)) 0 }

abbrev pub begin : Writer → ℕ → ℕ → Writer
begin w type len =
    let start = record w { buf = w.buf ++ (len / 0x100 % 256) ∷ (len % 256) ∷ []; msg_len = len } in
    let body = record start { body_start = length start.buf } in put16 (put16 (put8 body type) 0) 0

abbrev pub end_message : Writer → Writer
end_message w = let padded = pad w w.msg_len in record padded { count = w.count + 1 }

abbrev pub side_byte : Side → ℕ
side_byte bid = b'B'
side_byte ask = b'S'

unfoldable pub system_event : Writer → ℕ → ℕ → Writer
system_event w ts event = end_message (put8 (put48 (begin w b'S' 12) ts) event)

unfoldable pub stock_directory : Writer → ℕ → Symbol → ℕ → Writer
stock_directory w ts sym category =
    end_message (pad (put8 (put_symbol (put48 (begin w b'R' 39) ts) sym) category) 39)

unfoldable pub add_order : Writer → ℕ → ℕ → Side → ℕ → Symbol → ℤ → Writer
add_order w ts ref side shares sym price =
    let w1 = put8 (put64 (put48 (begin w b'A' 36) ts) ref) (side_byte side) in
    end_message (put32 (put_symbol (put32 w1 shares) sym) (price_bits price))

unfoldable pub order_executed : Writer → ℕ → ℕ → ℕ → ℕ → Writer
order_executed w ts ref shares match_no =
    end_message (put64 (put32 (put64 (put48 (begin w b'E' 31) ts) ref) shares) match_no)

unfoldable pub order_executed_with_price : Writer → ℕ → ℕ → ℕ → ℕ → Bool → ℤ → Writer
order_executed_with_price w ts ref shares match_no printable price =
    let w1 = put64 (put32 (put64 (put48 (begin w b'C' 36) ts) ref) shares) match_no in
    end_message (put32 (put8 w1 (if printable then b'Y' else b'N')) (price_bits price))

unfoldable pub order_cancel : Writer → ℕ → ℕ → ℕ → Writer
order_cancel w ts ref shares = end_message (put32 (put64 (put48 (begin w b'X' 23) ts) ref) shares)

unfoldable pub order_delete : Writer → ℕ → ℕ → Writer
order_delete w ts ref = end_message (put64 (put48 (begin w b'D' 19) ts) ref)

unfoldable pub order_replace : Writer → ℕ → ℕ → ℕ → ℕ → ℤ → Writer
order_replace w ts orig fresh shares price =
    let w1 = put64 (put64 (put48 (begin w b'U' 35) ts) orig) fresh in
    end_message (put32 (put32 w1 shares) (price_bits price))

-- The participant id, padded with spaces or cut to four bytes.
unfoldable pub add_order_mpid : Writer → ℕ → ℕ → Side → ℕ → Symbol → ℤ → List ℕ → Writer
add_order_mpid w ts ref side shares sym price mpid =
    let w1 = put8 (put64 (put48 (begin w b'F' 40) ts) ref) (side_byte side) in
    let w2 = put32 (put_symbol (put32 w1 shares) sym) (price_bits price) in
    let w3 = put8 (put8 w2 (get_or mpid 0 b' ')) (get_or mpid 1 b' ') in
    end_message (put8 (put8 w3 (get_or mpid 2 b' ')) (get_or mpid 3 b' '))

unfoldable pub trade_non_cross : Writer → ℕ → ℕ → Side → ℕ → Symbol → ℤ → ℕ → Writer
trade_non_cross w ts ref side shares sym price match_no =
    let w1 = put8 (put64 (put48 (begin w b'P' 44) ts) ref) (side_byte side) in
    end_message (put64 (put32 (put_symbol (put32 w1 shares) sym) (price_bits price)) match_no)

unfoldable pub stock_trading_action : Writer → ℕ → Symbol → ℕ → Writer
stock_trading_action w ts sym state =
    end_message (pad (put8 (put_symbol (put48 (begin w b'H' 25) ts) sym) state) 25)
