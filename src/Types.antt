-- ===== src/Types.antt =====
-- include/pricetime/types.hpp and the result codes of book.hpp.
-- `Price` is an int64 that the book only compares, so it is an integer; a `Qty` is a number below
-- 2 ^ 32, an `OrderId` one below 2 ^ 64 and a `ParticipantId` one below 2 ^ 16.
use pricetime.Common.{ℕ, ℤ}

pub data Side : Type 0 where
  bid ask : Side

pub data TimeInForce : Type 0 where
  good_till_cancel immediate_or_cancel fill_or_kill : TimeInForce

abbrev pub opposite : Side → Side
opposite bid = ask
opposite ask = bid

-- The links of the intrusive queue are the order's place in its level's list.
pub record Order : Type 0 where
  pub id : ℕ
  pub price : ℤ
  pub qty : ℕ
  pub side : Side
  pub participant : ℕ

pub record Execution : Type 0 where
  pub resting_id : ℕ
  pub aggressor_id : ℕ
  pub price : ℤ
  pub qty : ℕ

pub data Result : Type 0 where
  ok : Result
  rejected_bad_id rejected_bad_qty rejected_bad_price : Result
  rejected_duplicate_id rejected_unknown_id rejected_no_liquidity : Result

pub data SelfTradePolicy : Type 0 where
  off cancel_resting cancel_aggressor cancel_both : SelfTradePolicy
