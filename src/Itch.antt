-- ===== src/Itch.antt =====
-- include/pricetime/itch.hpp: field readers, the length table and the decoders. A message is a list
-- of bytes; a read beyond it, which the callers rule out by its length, gives 0.
pub mod Reader
pub mod Writer
pub mod RoundTrip
pub mod Orders
pub mod Visits
pub mod Stream
pub mod Chunks
pub mod RawStream
use pricetime.Common.{ℕ, ◌+◌, ◌*◌, ℤ, pos, List, Bool, true, false, get_or, ◌==◌, if◌then◌else◌}
use pricetime.Types.{Side, bid, ask}
use pricetime.Symbol.{Symbol}

-- The bytes are below 256, so the shifted bytes that `|` joins add up.
abbrev pub be16 : List ℕ → ℕ → ℕ
be16 p i = 0x100 * get_or p i 0 + get_or p (i + 1) 0

abbrev pub be32 : List ℕ → ℕ → ℕ
be32 p i =
    0x1000000 * get_or p i 0
    + 0x10000 * get_or p (i + 1) 0
    + 0x100 * get_or p (i + 2) 0
    + get_or p (i + 3) 0

abbrev pub be48 : List ℕ → ℕ → ℕ
be48 p i =
    0x10000000000 * get_or p i 0
    + 0x100000000 * get_or p (i + 1) 0
    + 0x1000000 * get_or p (i + 2) 0
    + 0x10000 * get_or p (i + 3) 0
    + 0x100 * get_or p (i + 4) 0
    + get_or p (i + 5) 0

abbrev pub be64 : List ℕ → ℕ → ℕ
be64 p i = 0x100000000 * be32 p i + be32 p (i + 4)

-- The length with the type byte, and 0 for a type that the specification does not have.
unfoldable pub message_length : ℕ → ℕ
message_length t =
    if t == b'S'
    then 12
    else if t == b'R'
    then 39
    else if t == b'H'
    then 25
    else if t == b'Y'
    then 20
    else if t == b'L'
    then 26
    else if t == b'V'
    then 35
    else if t == b'W'
    then 12
    else if t == b'K'
    then 28
    else if t == b'J'
    then 35
    else if t == b'h'
    then 21
    else if t == b'A'
    then 36
    else if t == b'F'
    then 40
    else if t == b'E'
    then 31
    else if t == b'C'
    then 36
    else if t == b'X'
    then 23
    else if t == b'D'
    then 19
    else if t == b'U'
    then 35
    else if t == b'P'
    then 44
    else if t == b'Q'
    then 40
    else if t == b'B'
    then 19
    else if t == b'I'
    then 50
    else if t == b'N'
    then 20
    else if t == b'O'
    then 48
    else 0

pub record AddOrder : Type 0 where
  pub timestamp : ℕ
  pub reference : ℕ
  pub side : Side
  pub shares : ℕ
  pub symbol : Symbol
  pub price : ℤ

pub record OrderExecuted : Type 0 where
  pub timestamp : ℕ
  pub reference : ℕ
  pub shares : ℕ
  pub match_number : ℕ
  pub has_price : Bool
  pub printable : Bool
  pub price : ℤ

pub record OrderCancel : Type 0 where
  pub timestamp : ℕ
  pub reference : ℕ
  pub shares : ℕ

pub record OrderDelete : Type 0 where
  pub timestamp : ℕ
  pub reference : ℕ

pub record OrderReplace : Type 0 where
  pub timestamp : ℕ
  pub original_reference : ℕ
  pub new_reference : ℕ
  pub shares : ℕ
  pub price : ℤ

pub record SystemEvent : Type 0 where
  pub timestamp : ℕ
  pub event : ℕ

pub record StockDirectory : Type 0 where
  pub timestamp : ℕ
  pub symbol : Symbol
  pub market_category : ℕ

-- `Symbol::from_wire` at an offset.
abbrev pub from_wire : List ℕ → ℕ → Symbol
from_wire p i = record {
  c0 = get_or p i 0;
  c1 = get_or p (i + 1) 0;
  c2 = get_or p (i + 2) 0;
  c3 = get_or p (i + 3) 0;
  c4 = get_or p (i + 4) 0;
  c5 = get_or p (i + 5) 0;
  c6 = get_or p (i + 6) 0;
  c7 = get_or p (i + 7) 0;
}

unfoldable pub decode_add_order : List ℕ → AddOrder
decode_add_order p = record {
  timestamp = be48 p 5;
  reference = be64 p 11;
  side = if get_or p 19 0 == b'B' then bid else ask;
  shares = be32 p 20;
  symbol = from_wire p 24;
  price = pos (be32 p 32);
}

unfoldable pub decode_order_executed : List ℕ → OrderExecuted
decode_order_executed p =
    let priced = get_or p 0 0 == b'C' in
    record {
      timestamp = be48 p 5;
      reference = be64 p 11;
      shares = be32 p 19;
      match_number = be64 p 23;
      has_price = priced;
      printable = if priced then get_or p 31 0 == b'Y' else true;
      price = if priced then pos (be32 p 32) else pos 0;
    }

unfoldable pub decode_order_cancel : List ℕ → OrderCancel
decode_order_cancel p = record { timestamp = be48 p 5; reference = be64 p 11; shares = be32 p 19 }

unfoldable pub decode_order_delete : List ℕ → OrderDelete
decode_order_delete p = record { timestamp = be48 p 5; reference = be64 p 11 }

unfoldable pub decode_order_replace : List ℕ → OrderReplace
decode_order_replace p = record {
  timestamp = be48 p 5;
  original_reference = be64 p 11;
  new_reference = be64 p 19;
  shares = be32 p 27;
  price = pos (be32 p 31);
}

unfoldable pub decode_system_event : List ℕ → SystemEvent
decode_system_event p = record { timestamp = be48 p 5; event = get_or p 11 0 }

unfoldable pub decode_stock_directory : List ℕ → StockDirectory
decode_stock_directory p = record {
  timestamp = be48 p 5;
  symbol = from_wire p 11;
  market_category = get_or p 19 0;
}
