-- ===== src/OrderPool.antt =====
-- include/pricetime/order_pool.hpp: the free list that runs through the nodes' own `next`. A node is the
-- number of its slot, counted through the chunks; `links` is the field `next` of every node, which the
-- price levels write too while a node is theirs.
pub mod FreeList
pub mod Nodes
use pricetime.Common.{ℕ, ◌+◌, ◌-◌, ◌*◌, Bool, true, false, Option, none, some, ◌==◌, if◌then◌else◌}

-- `kChunkSize`
abbrev pub chunk_size : ℕ
chunk_size = 4096

pub record OrderPool : Type 0 where
  pub chunks : ℕ
  pub used_in_last : ℕ
  pub total : ℕ
  pub free_head : Option ℕ
  pub links : ℕ → Option ℕ

abbrev pub new_pool : OrderPool
new_pool = record {
  chunks = 0;
  used_in_last = chunk_size;
  total = 0;
  free_head = none;
  links = λ _. none;
}

module _ {A : Type 0} where
  abbrev pub put : (ℕ → A) → ℕ → A → ℕ → A
  put f a v b = if a == b then v else f b

-- `chunks_.push_back`, where the last chunk is full.
unfoldable pub with_room : OrderPool → OrderPool
with_room p =
    if p.used_in_last == chunk_size then record p { chunks = p.chunks + 1; used_in_last = 0 } else p

-- The next slot of the last chunk.
unfoldable pub take_slot : OrderPool → ℕ × OrderPool
take_slot p = (
  (p.chunks - 1) * chunk_size + p.used_in_last,
  record p { used_in_last = p.used_in_last + 1; total = p.total + 1 },
)

-- `alloc`: the node is a fresh `Order{}`, without a link.
unfoldable pub alloc_from : Option ℕ → OrderPool → ℕ × OrderPool
alloc_from (some o) p = (o, record p { free_head = p.links o; links = put p.links o none })
alloc_from none p = take_slot (with_room p)

abbrev pub alloc : OrderPool → ℕ × OrderPool
alloc p = alloc_from p.free_head p

unfoldable pub release : ℕ → OrderPool → OrderPool
release o p = record p { links = put p.links o p.free_head; free_head = some o }

abbrev pub allocated : OrderPool → ℕ
allocated p = p.total
