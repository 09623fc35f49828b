-- ===== src/Symbol.antt =====
-- include/pricetime/symbol.hpp: a ticker of exactly eight bytes, and its 64-bit image. `memcpy` to
-- and from a uint64 is little-endian, as on the hosts that the program names.
use pricetime.Common.{ℕ, ◌+◌, ◌*◌, ◌/◌, ◌%◌, ◌<◌, ◌≡◌, List, [], ◌∷◌, get_or, arith, u64}

pub record Symbol : Type 0 where
  pub c0 : ℕ
  pub c1 : ℕ
  pub c2 : ℕ
  pub c3 : ℕ
  pub c4 : ℕ
  pub c5 : ℕ
  pub c6 : ℕ
  pub c7 : ℕ

abbrev pub space : ℕ
space = b' '

-- `Symbol(std::string_view)`: padded with spaces, or cut to eight bytes.
unfoldable pub from_text : List ℕ → Symbol
from_text s = record {
  c0 = get_or s 0 space;
  c1 = get_or s 1 space;
  c2 = get_or s 2 space;
  c3 = get_or s 3 space;
  c4 = get_or s 4 space;
  c5 = get_or s 5 space;
  c6 = get_or s 6 space;
  c7 = get_or s 7 space;
}

abbrev pub bytes : Symbol → List ℕ
bytes s = s.c0 ∷ s.c1 ∷ s.c2 ∷ s.c3 ∷ s.c4 ∷ s.c5 ∷ s.c6 ∷ s.c7 ∷ []

unfoldable pub bits : Symbol → ℕ
bits s =
    s.c0
    + 0x100 * s.c1
    + 0x10000 * s.c2
    + 0x1000000 * s.c3
    + 0x100000000 * s.c4
    + 0x10000000000 * s.c5
    + 0x1000000000000 * s.c6
    + 0x100000000000000 * s.c7

unfoldable pub from_bits : ℕ → Symbol
from_bits v = record {
  c0 = v % 256;
  c1 = v / 0x100 % 256;
  c2 = v / 0x10000 % 256;
  c3 = v / 0x1000000 % 256;
  c4 = v / 0x100000000 % 256;
  c5 = v / 0x10000000000 % 256;
  c6 = v / 0x1000000000000 % 256;
  c7 = v / 0x100000000000000 % 256;
}

-- Every field is a byte.
pub record IsSymbol (s : Symbol) : Type 0 where
  pub b0 : s.c0 < 256
  pub b1 : s.c1 < 256
  pub b2 : s.c2 < 256
  pub b3 : s.c3 < 256
  pub b4 : s.c4 < 256
  pub b5 : s.c5 < 256
  pub b6 : s.c6 < 256
  pub b7 : s.c7 < 256

-- A symbol whose fields are bytes is recovered from its image.
pub from_bits-bits : (s : Symbol) → IsSymbol s → from_bits (bits s) ≡ s
unfolding from_bits bits
from_bits-bits s v = ground arith

-- Every 64-bit image is that of the symbol built from it.
pub bits-from_bits : (v : ℕ) → v < u64 → bits (from_bits v) ≡ v
unfolding from_bits bits
bits-from_bits v h = omega arith
