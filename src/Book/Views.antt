-- ===== src/Book/Views.antt =====
-- The depth snapshot and the state hash of include/pricetime/book.hpp, with the hash of
-- include/pricetime/hash.hpp.
use Prim.Native.Nat.{bit_xor}
use pricetime.Common.{
  ℕ, zero, suc, ◌+◌, ◌*◌, ◌/◌, ◌%◌, ◌≡◌, refl, ℤ, List, [], ◌∷◌, ◌++◌, map, append_assoc,
  append-nil, true, false, ltb, ◌==◌, if◌then◌else◌, length, length-append, take, arith, u64,
}
use pricetime.Types.{Order}
use pricetime.Level.{Level}
use pricetime.Wire.{price_to_u64}
use pricetime.Book.{Book}

abbrev pub fnv_offset : ℕ
fnv_offset = 14695981039346656037

abbrev pub fnv_prime : ℕ
fnv_prime = 1099511628211

unfoldable pub mix_byte : ℕ → ℕ → ℕ
mix_byte h byte = bit_xor h byte * fnv_prime % u64

-- The loop over the eight bytes, the lowest first, from byte `8 - n` on.
unfoldable pub mix_loop : ℕ → ℕ → ℕ → ℕ
mix_loop zero h v = h
mix_loop (suc n) h v = mix_loop n (mix_byte h (v % 256)) (v / 256)

unfoldable pub mix : ℕ → ℕ → ℕ
mix h v = mix_loop 8 h v

unfoldable pub mix_orders : ℕ → List Order → ℕ
mix_orders h [] = h
mix_orders h (o ∷ os) = mix_orders (mix (mix h o.id) o.qty) os

unfoldable pub mix_levels : ℕ → List Level → ℕ
mix_levels h [] = h
mix_levels h (l ∷ ls) =
    let h' = mix (mix (mix h (price_to_u64 l.price)) l.total_qty) l.order_count in
    mix_levels (mix_orders h' l.queue) ls

unfoldable pub state_hash : Book → ℕ
state_hash b = mix_levels (mix (mix_levels (mix fnv_offset 1) b.bids) 2) b.asks

pub record DepthLevel : Type 0 where
  pub price : ℤ
  pub qty : ℕ
  pub orders : ℕ

pub record Depth : Type 0 where
  pub bids : List DepthLevel
  pub asks : List DepthLevel

abbrev pub depth_level : Level → DepthLevel
depth_level l = record { price = l.price; qty = l.total_qty; orders = l.order_count }

-- The walk of `collect`, which stops once `out` has `max_levels` entries.
unfoldable pub collect_walk : ℕ → List DepthLevel → List Level → List DepthLevel
collect_walk max_levels out [] = out
collect_walk max_levels out (l ∷ ls) =
    let out' = out ++ depth_level l ∷ [] in
    let further = collect_walk max_levels out' ls in
    if ltb (length out') max_levels then further else out'

unfoldable pub collect : ℕ → List Level → List DepthLevel
collect max_levels ls = if max_levels == 0 then [] else collect_walk max_levels [] ls

unfoldable pub depth : Book → ℕ → Depth
unfolding collect
depth b max_levels = record { bids = collect max_levels b.bids; asks = collect max_levels b.asks }

collect_walk-take :
    (n : ℕ) (ls : List Level) (out : List DepthLevel) (max_levels : ℕ)
    → length out + suc n ≡ max_levels
    → collect_walk max_levels out ls ≡ out ++ take (suc n) (map depth_level ls)
unfolding collect_walk
collect_walk-take n [] out max_levels h = rw (append-nil out) refl
collect_walk-take zero (l ∷ ls) out max_levels h =
    let out' = out ++ depth_level l ∷ [] in
    let full : ltb (length out') max_levels ≡ false =
      ground (arith, length-append out (depth_level l ∷ [])) in
    rw full refl
collect_walk-take (suc n) (l ∷ ls) out max_levels h =
    let out' = out ++ depth_level l ∷ [] in
    let grown = length-append out (depth_level l ∷ []) in
    let more : ltb (length out') max_levels ≡ true = ground (arith, grown) in
    let ih = collect_walk-take n ls out' max_levels (omega (arith, grown, h)) in
    rw (more, ih) (append_assoc out (depth_level l ∷ []) (take (suc n) (map depth_level ls)))

collect-take :
    (max_levels : ℕ) (ls : List Level)
    → collect max_levels ls ≡ take max_levels (map depth_level ls)
unfolding collect
collect-take zero ls = refl
collect-take (suc n) ls =
    let some_levels : (suc n == 0) ≡ false = ground arith in
    rw some_levels (collect_walk-take n ls [] (suc n) (omega arith))

-- The snapshot of each side of the book is its best `max_levels` levels, best first, each with
-- its price, open quantity and number of orders.
pub depth-take :
    (b : Book) (max_levels : ℕ)
    → (depth b max_levels).bids ≡ take max_levels (map depth_level b.bids)
      × (depth b max_levels).asks ≡ take max_levels (map depth_level b.asks)
unfolding depth
depth-take b max_levels = (collect-take max_levels b.bids, collect-take max_levels b.asks)
