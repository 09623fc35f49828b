-- ===== src/Level.antt =====
-- include/pricetime/level.hpp: a price level. The intrusive list is the list of its orders, head
-- first; an order in it is named by its id.
pub mod Tally
use pricetime.Common.{
  ℕ, ℤ, List, [], ◌∷◌, ◌++◌, Option, none, some, ◌==◌, if◌then◌else◌, add_u64, sub_u64, add_u32,
  sub_u32,
}
use pricetime.Types.{Order}

pub record Level : Type 0 where
  pub price : ℤ
  pub total_qty : ℕ
  pub order_count : ℕ
  pub queue : List Order

-- `Level{}` with its price set.
abbrev pub new_level : ℤ → Level
new_level p = record { price = p; total_qty = 0; order_count = 0; queue = [] }

unfoldable pub push_back : Level → Order → Level
push_back l o = record l {
  total_qty = add_u64 l.total_qty o.qty;
  order_count = add_u32 l.order_count 1;
  queue = l.queue ++ o ∷ [];
}

-- The order with this id, when the queue holds one.
unfoldable pub find_in : ℕ → List Order → Option Order
find_in i [] = none
find_in i (o ∷ os) = if o.id == i then some o else find_in i os

unfoldable pub unlink : ℕ → List Order → List Order
unlink i [] = []
unlink i (o ∷ os) = if o.id == i then os else o ∷ unlink i os

unfoldable pub shrink : ℕ → ℕ → List Order → List Order
shrink i d [] = []
shrink i d (o ∷ os) =
    if o.id == i then record o { qty = sub_u32 o.qty d } ∷ os else o ∷ shrink i d os

-- The level when a quantity and its order have left, and this queue remains.
abbrev pub without : Level → ℕ → List Order → Level
without l q os = record l {
  total_qty = sub_u64 l.total_qty q;
  order_count = sub_u32 l.order_count 1;
  queue = os;
}

-- The level when a quantity has left, and this queue remains.
abbrev pub reduced : Level → ℕ → List Order → Level
reduced l q os = record l { total_qty = sub_u64 l.total_qty q; queue = os }

unfoldable pub remove : Level → Order → Level
unfolding unlink
remove l o = without l o.qty (unlink o.id l.queue)

unfoldable pub reduce : Level → Order → ℕ → Level
unfolding shrink
reduce l o d = reduced l d (shrink o.id d l.queue)
