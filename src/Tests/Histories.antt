-- ===== src/Tests/Histories.antt =====
-- The properties of sequences of operations on the book and of requests to the engine, at short ones.
use pricetime.Common.{List, ◌++◌, false, ◌≤◌, inl, ℕ, ◌≡◌, refl, pos, [], ◌∷◌, true, some, arith}
use pricetime.Types.{bid, ask, Result}
use pricetime.Book.{Book, Outcome, add_limit_as, cancel, consume, replace}
use pricetime.Types.{Execution}
use pricetime.Book.{empty_book}
use pricetime.Book.Invariant.{resting}
use pricetime.Book.Sound.{IsSound}
use pricetime.Book.Uncrossed.{IsUncrossed}
use pricetime.Book.History
use pricetime.Book.History.{Reach, next, limit, Reach-IsSound, Reach-answers, Reach-IsUncrossed}
use pricetime.Symbol.{from_text}
use pricetime.Wire.{Request, Response}
use pricetime.Wire
use pricetime.Engine.{Engine, handle}
use pricetime.Engine.Answers.{fill_responses}
use pricetime.Engine.Service.{opened, operation, Served-answers}

-- A bid, an ask that it meets in part, and the book between and behind them.
abbrev bid_entered : Book
bid_entered = (add_limit_as empty_book 7 1 bid (pos 10) 100).0

abbrev ask_entered : Book
ask_entered = (add_limit_as bid_entered 8 2 ask (pos 10) 40).0

two_entered : Reach false 2 ask_entered
two_entered =
    next (next History.start (limit 7 1 bid (pos 10) 100 (omega arith)))
      (limit 8 2 ask (pos 10) 40 (omega arith))

Reach-IsSound_example : IsSound ask_entered × (resting ask_entered ≤ 2)
Reach-IsSound_example = Reach-IsSound two_entered (omega arith)

Reach-answers_example :
    ((r : Outcome) × (cancel ask_entered 1 ≡ some r))
    × ((r : Book × Result × ℕ) × (consume ask_entered 1 30 true ≡ some r))
    × ((r : Outcome) × (replace ask_entered 1 3 (pos 11) 30 ≡ some r))
Reach-answers_example = Reach-answers two_entered (omega arith) 1 3 (pos 11) 30 true (omega arith)

Reach-IsUncrossed_example : IsUncrossed ask_entered
Reach-IsUncrossed_example = Reach-IsUncrossed two_entered (omega arith)

abbrev engine : Engine
engine = record {
  book = empty_book;
  match_number = 0;
  responses = 0;
  executions = 0;
  q_out = [];
  q_md = [];
  md_enabled = true;
  symbol = from_text (b'A' ∷ []);
}

abbrev request : Request
request = record {
  kind = Wire.enter;
  side = 0;
  qty = 30;
  price = pos 12;
  id = 4;
  new_id = 0;
  client_ts = 99;
}

Served-answers_example :
    let e = record engine { book = empty_book } in
    (e' : Engine) × (r : Response) × (xs : List Execution) × (handle e 5 request ≡ some e')
    × (operation e.book request ≡ some (e'.book, xs))
    × (r.client_ts ≡ 99)
    × (e'.q_out ≡ e.q_out ++ r ∷ fill_responses request xs)
    × IsUncrossed e'.book
Served-answers_example =
    Served-answers {e0 = engine} 5 request opened (omega arith) (omega arith) (inl refl)
