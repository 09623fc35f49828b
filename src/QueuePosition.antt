-- ===== src/QueuePosition.antt =====
-- include/pricetime/queue_position.hpp: where one simulated order stands in its queue. The
-- `std::unordered_map` of the orders ahead is an association list with distinct keys.
use pricetime.Common.{
  ℕ, ◌+◌, ◌-◌, ◌≤◌, ◌<◌, ◌≡◌, ℤ, pos, [], ◌∷◌, Bool, true, false, ◌&&◌, ltb, ◌==◌, if◌then◌else◌,
  sum_by, All, arith, u64, add_u64, sub_u64, ◌↔◌, ◌∙◌,
}
use pricetime.Types.{Side, bid}
use pricetime.IdMap.{StdIdMap}

pub record QueuePosition : Type 0 where
  pub price : ℤ
  pub side : Side
  pub remaining : ℕ
  pub shares_ahead : ℕ
  pub ahead : StdIdMap ℕ
  pub active : Bool

abbrev pub idle : QueuePosition
idle = record {
  price = pos 0;
  side = bid;
  remaining = 0;
  shares_ahead = 0;
  ahead = [];
  active = false;
}

-- The loop that adds up the quantities.
unfoldable pub total_shares : ℕ → StdIdMap ℕ → ℕ
total_shares acc [] = acc
total_shares acc (e ∷ m) = total_shares (add_u64 acc e.1) m

unfoldable pub place : QueuePosition → ℤ → Side → ℕ → StdIdMap ℕ → QueuePosition
place q price side qty ahead = record {
  price = price;
  side = side;
  remaining = qty;
  shares_ahead = total_shares 0 ahead;
  ahead = ahead;
  active = true;
}

unfoldable pub cancel : QueuePosition → QueuePosition
cancel q = record q { active = false; ahead = []; shares_ahead = 0 }

abbrev is_empty : StdIdMap ℕ → Bool
is_empty [] = true
is_empty (e ∷ m) = false

unfoldable pub at_front : QueuePosition → Bool
at_front q = q.active && is_empty q.ahead

-- The map and the share count after a cut; an entry that reaches 0 is erased.
unfoldable pub cut_ahead : ℕ → ℕ → StdIdMap ℕ → ℕ → StdIdMap ℕ × ℕ
cut_ahead id qty [] total = ([], total)
cut_ahead id qty (e ∷ m) total =
    let cut = if ltb qty e.1 then qty else e.1 in
    let (m', total') = cut_ahead id qty m total in
    if e.0 == id
    then (if e.1 - cut == 0 then m else (e.0, e.1 - cut) ∷ m, sub_u64 total cut)
    else (e ∷ m', total')

unfoldable pub on_shares_removed : QueuePosition → ℕ → ℕ → QueuePosition
unfolding cut_ahead
on_shares_removed q id qty =
    let (ahead, total) = cut_ahead id qty q.ahead q.shares_ahead in
    record q { ahead = ahead; shares_ahead = total }

unfoldable pub take_fill : QueuePosition → ℕ → QueuePosition × ℕ
take_fill q print_qty =
    let fill = if ltb print_qty q.remaining then print_qty else q.remaining in
    let remaining = q.remaining - fill in
    (record q { remaining = remaining; active = if remaining == 0 then false else q.active }, fill)

abbrev pub shares : StdIdMap ℕ → ℕ
shares = sum_by (λ e. e.1)

-- The count is that of the orders ahead, each of which has shares left.
pub record IsTracked (q : QueuePosition) : Type 0 where
  pub counted : q.shares_ahead ≡ shares q.ahead
  pub small : shares q.ahead < u64
  pub positive : All (λ e. 0 < e.1) q.ahead

total_shares-sum :
    (m : StdIdMap ℕ) (acc : ℕ) → acc + shares m < u64 → total_shares acc m ≡ acc + shares m
unfolding total_shares
total_shares-sum [] acc h = omega arith
total_shares-sum (e ∷ m) acc h =
    let here : add_u64 acc e.1 ≡ acc + e.1 = omega arith in
    rw here (total_shares-sum m (acc + e.1) (omega arith) ∙ omega arith)

-- An order that joins behind a map of orders with positive quantities, of a total below 2 ^ 64,
-- starts with the count of the shares ahead of it.
pub place-IsTracked :
    (q : QueuePosition) (price : ℤ) (side : Side) (qty : ℕ) (ahead : StdIdMap ℕ)
    → shares ahead < u64
    → All (λ e. 0 < e.1) ahead
    → IsTracked (place q price side qty ahead)
unfolding place
place-IsTracked q price side qty ahead h k = record {
  counted = total_shares-sum ahead 0 (omega arith) ∙ omega arith;
  small = h;
  positive = k;
}

cut_ahead_lem :
    (id qty : ℕ) (m : StdIdMap ℕ) (rest total : ℕ)
    → total ≡ rest + shares m
    → total < u64
    → All (λ e. 0 < e.1) m
    → (rest + shares (cut_ahead id qty m total).0 ≡ (cut_ahead id qty m total).1)
      × ((cut_ahead id qty m total).1 ≤ total)
      × All (λ e. 0 < e.1) (cut_ahead id qty m total).0
unfolding cut_ahead
cut_ahead_lem id qty [] rest total t h k = (omega arith, omega arith, tt)
cut_ahead_lem id qty (e ∷ m) rest total t h k =
    let ih = cut_ahead_lem id qty m (rest + e.1) total (omega arith) h k.1 in ground (arith, ih, k)

-- Whatever shares leave the queue, the tracked count stays that of the orders ahead, each of
-- which has shares left, and never grows.
pub on_shares_removed-IsTracked :
    (q : QueuePosition) (id qty : ℕ)
    → IsTracked q
    → IsTracked (on_shares_removed q id qty)
      × ((on_shares_removed q id qty).shares_ahead ≤ q.shares_ahead)
unfolding on_shares_removed
on_shares_removed-IsTracked q id qty v =
    let (sum, less, positive) =
      cut_ahead_lem id qty q.ahead 0 q.shares_ahead (omega (arith, v.counted))
        (omega (arith, v.counted, v.small)) v.positive in
    (
      record {
        counted = omega (arith, sum);
        small = omega (arith, sum, less, v.counted, v.small);
        positive = positive;
      },
      less,
    )

-- A tracked order that is active is at the front exactly when no share is ahead of it.
pub at_front_iff :
    (q : QueuePosition) → IsTracked q → q.active ≡ true → (at_front q ≡ true) ↔ (q.shares_ahead ≡ 0)
unfolding at_front
at_front_iff q v a = front q.ahead v.counted v.positive
  where
    front :
        (m : StdIdMap ℕ)
        → q.shares_ahead ≡ shares m
        → All (λ e. 0 < e.1) m
        → ((q.active && is_empty m) ≡ true) ↔ (q.shares_ahead ≡ 0)
    front [] c k = (λ _. c, λ _. rw a)
    front (e ∷ m) c k = (λ h. ground arith, λ h. absurd (omega (arith, k.0)))

-- A fill is at most the print and takes exactly itself from what remains; an order with nothing
-- left is inactive, and one with something left keeps its state and took the whole print.
pub take_fill_lem :
    (q : QueuePosition) (print_qty : ℕ)
    → let (q', fill) = take_fill q print_qty in
      (fill ≤ print_qty)
      × (q'.remaining + fill ≡ q.remaining)
      × (q'.remaining ≡ 0 → q'.active ≡ false)
      × (0 < q'.remaining → (q'.active ≡ q.active) × (fill ≡ print_qty))
unfolding take_fill
take_fill_lem q print_qty =
    (ground arith, ground arith, λ h. ground arith, λ h. (ground arith, ground arith))
