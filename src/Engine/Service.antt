-- ===== src/Engine/Service.antt =====
-- The match thread of include/pricetime/engine.hpp over a sequence of requests.
use mathlib.Core.Option
use pricetime.Common.{
  ℕ, suc, ◌+◌, ◌<◌, ◌≡◌, ◌⊎◌, inl, inr, refl, ap, sym, ◌∙◌, subst, List, [], ◌∷◌, ◌++◌, false, ◌==◌,
  if◌then◌else◌, Option, none, some, u32, arith, eq_of_some,
}
use pricetime.Types.{Execution}
use pricetime.Book.{
  Book, Outcome, empty_book, add_limit_as, add_limit, cancel, reduce_resting, replace,
}
use pricetime.Book.History.{
  Step, limit, canceled, consumed, replaced, Reach, start, next, Reach-answers, Reach-IsUncrossed,
}
use pricetime.Book.Uncrossed.{IsUncrossed}
use pricetime.Wire.{Request, Response}
use pricetime.Wire
use pricetime.Engine.{
  Engine, handle_enter, handle_cancel, handle_reduce, handle_replace, handle, side_of_byte,
}
use pricetime.Engine.Answers.{
  Answers, handle_enter-Answers, handle_cancel-Answers, handle_reduce-Answers,
  handle_replace-Answers, fill_responses,
}

-- The operation that a request asks for: the book after it, and its fills.
unfoldable pub operation : Book → Request → Option (Book × List Execution)
operation b req =
    if req.kind == Wire.enter
    then some (without_code (add_limit b req.id (side_of_byte req.side) req.price req.qty))
    else if req.kind == Wire.cancel
    then Option.map (λ r. (r.0, [])) (cancel b req.id)
    else if req.kind == Wire.reduce
    then Option.map (λ r. (r.0, [])) (reduce_resting b req.id req.qty)
    else if req.kind == Wire.replace
    then Option.map without_code (replace b req.id req.new_id req.price req.qty)
    else none
  where
    without_code : Outcome → Book × List Execution
    without_code (b', r, xs) = (b', xs)

abbrev pub IsKnown : Request → Type 0
IsKnown req =
    (req.kind ≡ Wire.enter)
    ⊎ (req.kind ≡ Wire.cancel)
    ⊎ (req.kind ≡ Wire.reduce)
    ⊎ (req.kind ≡ Wire.replace)

-- A request is handled: its operation on the book, and its responses.
pub record Handled (e : Engine) (ts : ℕ) (req : Request) : Type 0 where
  pub after : Engine
  pub runs : handle e ts req ≡ some after
  pub book : Book
  pub fills : List Execution
  pub operated : operation e.book req ≡ some (book, fills)
  pub step : Step false e.book book
  pub answers : Answers e after req book fills

handle-Handled :
    (e : Engine) (ts : ℕ) (req : Request) (m : ℕ)
    → Reach false m e.book
    → m + 2 < u32
    → req.qty < u32
    → IsKnown req
    → Handled e ts req
unfolding handle operation
handle-Handled e ts req m reached few small (inl k) =
    let o = add_limit_as e.book 0 req.id (side_of_byte req.side) req.price req.qty in
    record {
      after = handle_enter e ts req o;
      runs = rw k refl;
      operated = rw k refl;
      book = o.0;
      step = limit 0 req.id (side_of_byte req.side) req.price req.qty small;
      fills = o.2;
      answers = handle_enter-Answers e ts req o;
    }
handle-Handled e ts req m reached few small (inr (inl k)) =
    let ((o, run), _, _) =
      Reach-answers reached few req.id req.new_id req.price req.qty false small in
    record {
      after = handle_cancel e ts req o;
      runs = rw (k, run) refl;
      operated = rw (k, run) refl;
      book = o.0;
      step = canceled req.id run;
      fills = [];
      answers = handle_cancel-Answers e ts req o;
    }
handle-Handled e ts req m reached few small (inr (inr (inl k))) =
    let (_, (o, run), _) =
      Reach-answers reached few req.id req.new_id req.price req.qty false small in
    record {
      after = handle_reduce e ts req o;
      runs = rw (k, run) refl;
      operated = rw (k, run) refl;
      book = o.0;
      step = consumed req.id req.qty false run;
      fills = [];
      answers = handle_reduce-Answers e ts req o;
    }
handle-Handled e ts req m reached few small (inr (inr (inr k))) =
    let (_, _, (o, run)) =
      Reach-answers reached few req.id req.new_id req.price req.qty false small in
    record {
      after = handle_replace e ts req o;
      runs = rw (k, run) refl;
      operated = rw (k, run) refl;
      book = o.0;
      step = replaced req.id req.new_id req.price req.qty small run;
      fills = o.2;
      answers = handle_replace-Answers e ts req o;
    }

-- The engine after `n` requests of the known kinds, from one with an empty book.
pub data Served (e0 : Engine) : ℕ → Engine → Type 0 where
  opened : Served e0 0 (record e0 { book = empty_book })
  serve :
      {n : ℕ} {e e' : Engine} (ts : ℕ) (req : Request)
      → Served e0 n e
      → req.qty < u32
      → IsKnown req
      → handle e ts req ≡ some e'
      → Served e0 (suc n) e'

pub Served-Reach :
    {e0 : Engine} {n : ℕ} {e : Engine} → Served e0 n e → n + 2 < u32 → Reach false n e.book
unfolding Answers
Served-Reach opened few = start
Served-Reach (serve {n} {e} ts req served small known run) few =
    let reached = Served-Reach served (omega (arith, few)) in
    let h = handle-Handled e ts req n reached (omega (arith, few)) small known in
    let same = eq_of_some (sym h.runs ∙ run) in
    subst (λ b. Reach false (suc n) b) (sym h.answers.2.book ∙ ap (λ a. a.book) same)
      (next reached h.step)

-- After `n` requests of known kinds with uint32 quantities on an engine with an empty book, with
-- `n + 2` below 2 ^ 32, the next such request is handled: the book and the fills are those of
-- the operation that it asks for, the responses sent are one with the request's timestamp and
-- then two for each fill in their order, and the book is not crossed.
pub Served-answers :
    {e0 : Engine} {n : ℕ} {e : Engine} (ts : ℕ) (req : Request)
    → Served e0 n e
    → n + 2 < u32
    → req.qty < u32
    → IsKnown req
    → (e' : Engine) × (r : Response) × (xs : List Execution) × (handle e ts req ≡ some e')
      × (operation e.book req ≡ some (e'.book, xs))
      × (r.client_ts ≡ req.client_ts)
      × (e'.q_out ≡ e.q_out ++ r ∷ fill_responses req xs)
      × IsUncrossed e'.book
unfolding Answers
Served-answers {e0} {n} {e} ts req served few small known =
    let reached = Served-Reach served few in
    let h = handle-Handled e ts req n reached few small known in
    let (r, stamped, sends) = h.answers in
    (
      h.after,
      r,
      h.fills,
      h.runs,
      h.operated ∙ ap (λ b. some (b, h.fills)) (sym sends.book),
      stamped,
      sends.sent,
      subst IsUncrossed (sym sends.book)
          (Reach-IsUncrossed (next reached h.step) (omega (arith, few))),
    )
