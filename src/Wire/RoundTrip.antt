-- ===== src/Wire/RoundTrip.antt =====
-- The two directions of include/pricetime/wire.hpp.
use pricetime.Common.{ℕ, ◌<◌, ◌≡◌, ℤ, pos, negsuc, some, arith, u32, u64}
use pricetime.Wire.{
  Request, Response, encode_response, decode_response, encode_request, decode_request, price_to_u64,
  price_of_u64, put_le64, get_le64,
}

-- An int64.
abbrev pub IsInt64 : ℤ → Type 0
IsInt64 (pos n) = n < 0x8000000000000000
IsInt64 (negsuc n) = n < 0x8000000000000000

-- An int64 price, negative ones included, survives the casts to and from uint64.
pub price_of_u64-price_to_u64 : (p : ℤ) → IsInt64 p → price_of_u64 (price_to_u64 p) ≡ p
price_of_u64-price_to_u64 (pos n) h = ground arith
price_of_u64-price_to_u64 (negsuc n) h = ground arith

price_to_u64-lt : (p : ℤ) → price_to_u64 p < u64
price_to_u64-lt (pos n) = omega arith
price_to_u64-lt (negsuc n) = omega arith

get_le64-put_le64 : (v : ℕ) → v < u64 → get_le64 (put_le64 v) 0 ≡ v
get_le64-put_le64 v h = omega arith

pub record IsRequest (r : Request) : Type 0 where
  pub kind : r.kind < 256
  pub side : r.side < 256
  pub qty : r.qty < u32
  pub price : IsInt64 r.price
  pub id : r.id < u64
  pub new_id : r.new_id < u64
  pub client_ts : r.client_ts < u64

-- A request whose kind and side are bytes, whose quantity is a uint32, whose price is an int64
-- and whose ids and timestamp are uint64 is what its 40 bytes decode to.
pub decode-encode_request : (r : Request) → IsRequest r → decode_request (encode_request r) ≡ some r
unfolding decode_request encode_request
decode-encode_request r v = ground (
  arith,
  get_le64-put_le64 r.id v.id,
  get_le64-put_le64 r.new_id v.new_id,
  get_le64-put_le64 r.client_ts v.client_ts,
  get_le64-put_le64 (price_to_u64 r.price) (price_to_u64-lt r.price),
  price_of_u64-price_to_u64 r.price v.price,
)

pub record IsResponse (r : Response) : Type 0 where
  pub kind : r.kind < 256
  pub code : r.code < 256
  pub qty : r.qty < u32
  pub price : IsInt64 r.price
  pub id : r.id < u64
  pub peer : r.peer < u64
  pub client_ts : r.client_ts < u64

-- A response whose kind and code are bytes, whose quantity is a uint32, whose price is an int64
-- and whose ids and timestamp are uint64 is what its 40 bytes decode to.
pub decode-encode_response :
    (r : Response) → IsResponse r → decode_response (encode_response r) ≡ some r
unfolding decode_response encode_response
decode-encode_response r v = ground (
  arith,
  get_le64-put_le64 r.id v.id,
  get_le64-put_le64 r.peer v.peer,
  get_le64-put_le64 r.client_ts v.client_ts,
  get_le64-put_le64 (price_to_u64 r.price) (price_to_u64-lt r.price),
  price_of_u64-price_to_u64 r.price v.price,
)
