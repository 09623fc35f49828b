-- ===== src/Wire.antt =====
-- include/pricetime/wire.hpp: the fixed 40-byte order-entry messages, little-endian.
pub mod RoundTrip
use pricetime.Common.{
  ℕ, ◌+◌, ◌-◌, ◌*◌, ◌/◌, ◌%◌, ℤ, pos, negsuc, List, [], ◌∷◌, ◌++◌, Option, none, some, Bool, ◌==◌,
  ◌&&◌, ◌||◌, not, ltb, if◌then◌else◌, get_or, u64,
}
use pricetime.Types.{
  Side, bid, ask, Result, ok, rejected_bad_id, rejected_bad_qty, rejected_bad_price,
  rejected_duplicate_id, rejected_unknown_id, rejected_no_liquidity,
}

abbrev pub put_le32 : ℕ → List ℕ
put_le32 v = (v % 256) ∷ (v / 0x100 % 256) ∷ (v / 0x10000 % 256) ∷ (v / 0x1000000 % 256) ∷ []

abbrev pub put_le64 : ℕ → List ℕ
put_le64 v =
    (v % 256)
    ∷ (v / 0x100 % 256)
    ∷ (v / 0x10000 % 256)
    ∷ (v / 0x1000000 % 256)
    ∷ (v / 0x100000000 % 256)
    ∷ (v / 0x10000000000 % 256)
    ∷ (v / 0x1000000000000 % 256)
    ∷ (v / 0x100000000000000 % 256)
    ∷ []

abbrev pub get_le32 : List ℕ → ℕ → ℕ
get_le32 p i =
    get_or p i 0
    + 0x100 * get_or p (i + 1) 0
    + 0x10000 * get_or p (i + 2) 0
    + 0x1000000 * get_or p (i + 3) 0

abbrev pub get_le64 : List ℕ → ℕ → ℕ
get_le64 p i = get_le32 p i + 0x100000000 * get_le32 p (i + 4)

-- The cast of an int64 price to a uint64 and back.
abbrev pub price_to_u64 : ℤ → ℕ
price_to_u64 (pos n) = n % u64
price_to_u64 (negsuc n) = u64 - 1 - n % u64

abbrev pub price_of_u64 : ℕ → ℤ
price_of_u64 v = if ltb v 0x8000000000000000 then pos v else negsuc (u64 - 1 - v)

-- `ReqKind` and `RespKind` are bytes; the receiver casts any byte to them, so they are numbers.
abbrev pub Kind : Type 0
Kind = ℕ

abbrev pub enter : Kind
enter = b'E'

abbrev pub cancel : Kind
cancel = b'X'

abbrev pub replace : Kind
replace = b'U'

abbrev pub reduce : Kind
reduce = b'Q'

-- The side is the byte that was cast: 0 is a bid, 1 an ask, and any other is neither.
pub record Request : Type 0 where
  pub kind : Kind
  pub side : ℕ
  pub qty : ℕ
  pub price : ℤ
  pub id : ℕ
  pub new_id : ℕ
  pub client_ts : ℕ

pub record Response : Type 0 where
  pub kind : Kind
  pub code : ℕ
  pub qty : ℕ
  pub price : ℤ
  pub id : ℕ
  pub peer : ℕ
  pub client_ts : ℕ

-- The common layout.
abbrev layout : ℕ → ℕ → ℕ → ℤ → ℕ → ℕ → ℕ → List ℕ
layout kind aux qty price id peer ts =
    (kind % 256)
    ∷ (aux % 256)
    ∷ (put_le32 qty
        ++ (put_le64 (price_to_u64 price)
            ++ (put_le64 id ++ (put_le64 peer ++ (put_le64 ts ++ b'p' ∷ b't' ∷ [])))))

abbrev has_magic : List ℕ → Bool
has_magic p = get_or p 38 0 == b'p' && get_or p 39 0 == b't'

unfoldable pub encode_request : Request → List ℕ
encode_request r = layout r.kind r.side r.qty r.price r.id r.new_id r.client_ts

unfoldable pub decode_request : List ℕ → Option Request
decode_request p =
    if has_magic p
    then some (record {
      kind = get_or p 0 0;
      side = get_or p 1 0;
      qty = get_le32 p 2;
      price = price_of_u64 (get_le64 p 6);
      id = get_le64 p 14;
      new_id = get_le64 p 22;
      client_ts = get_le64 p 30;
    })
    else none

unfoldable pub encode_response : Response → List ℕ
encode_response r = layout r.kind r.code r.qty r.price r.id r.peer r.client_ts

unfoldable pub decode_response : List ℕ → Option Response
decode_response p =
    if has_magic p
    then some (record {
      kind = get_or p 0 0;
      code = get_or p 1 0;
      qty = get_le32 p 2;
      price = price_of_u64 (get_le64 p 6);
      id = get_le64 p 14;
      peer = get_le64 p 22;
      client_ts = get_le64 p 30;
    })
    else none
