-- ===== src/Engine/Answers.antt =====
-- The responses of the handlers of include/pricetime/engine.hpp.
use pricetime.Common.{
  ℕ, ◌≡◌, refl, ap, sym, ◌∙◌, List, [], ◌∷◌, ◌++◌, append_assoc, append-nil, Bool, true, false,
  ◌&&◌, if◌then◌else◌,
}
use pricetime.Types.{Execution, Result}
use pricetime.Book.{Book, Outcome}
use pricetime.Itch.Writer.{Writer}
use pricetime.Wire.{Request, Response}
use pricetime.Engine.{
  Engine, executed, push_response, respond, md_push, report_fill, report_fills, handle_enter,
  handle_cancel, handle_reduce, handle_replace,
}

-- The two answers to each fill: to the order that came, and to the order that rested.
abbrev pub fill_responses : Request → List Execution → List Response
fill_responses req [] = []
fill_responses req (x ∷ xs) =
    let fill : Response = record {
      kind = executed;
      code = 0;
      qty = x.qty;
      price = x.price;
      id = x.aggressor_id;
      peer = x.resting_id;
      client_ts = req.client_ts;
    } in
    fill ∷ record fill { id = x.resting_id; peer = x.aggressor_id } ∷ fill_responses req xs

-- The book is left alone, and these responses are sent.
pub record Sends (e e' : Engine) (rs : List Response) : Type 0 where
  pub book : e'.book ≡ e.book
  pub sent : e'.q_out ≡ e.q_out ++ rs

Sends-trans :
    (a b c : Engine) (rs ss : List Response) → Sends a b rs → Sends b c ss → Sends a c (rs ++ ss)
Sends-trans a b c rs ss v w = record {
  book = w.book ∙ v.book;
  sent = w.sent ∙ ap (λ q. q ++ ss) v.sent ∙ append_assoc a.q_out rs ss;
}

then_md : (a e : Engine) (rs : List Response) (w : Writer) → Sends a e rs → Sends a (md_push e w) rs
unfolding md_push
then_md a e rs w v = if_md (e.md_enabled && _)
  where
    if_md : (b : Bool) → Sends a (if b then record e { q_md = e.q_md ++ w.buf ∷ [] } else e) rs
    if_md true = record { book = v.book; sent = v.sent }
    if_md false = v

Sends-if :
    (a e e' : Engine) (rs : List Response) (b : Bool)
    → Sends a e rs
    → Sends a e' rs
    → Sends a (if b then e else e') rs
Sends-if a e e' rs true v w = v
Sends-if a e e' rs false v w = w

report_fill-Sends :
    (e : Engine) (ts : ℕ) (req : Request) (x : Execution)
    → Sends e (report_fill e ts req x) (fill_responses req (x ∷ []))
unfolding report_fill
report_fill-Sends e ts req x =
    then_md e _ (fill_responses req (x ∷ [])) _
      (record { book = refl; sent = append_assoc e.q_out (_ ∷ []) (_ ∷ []) })

report_fills-Sends :
    (e : Engine) (ts : ℕ) (req : Request) (xs : List Execution)
    → Sends e (report_fills e ts req xs) (fill_responses req xs)
unfolding report_fills
report_fills-Sends e ts req [] = record { book = refl; sent = sym (append-nil e.q_out) }
report_fills-Sends e ts req (x ∷ xs) =
    Sends-trans e (report_fill e ts req x) (report_fills (report_fill e ts req x) ts req xs)
      (fill_responses req (x ∷ [])) (fill_responses req xs) (report_fill-Sends e ts req x)
      (report_fills-Sends (report_fill e ts req x) ts req xs)

-- A request is answered by one response of its own, and by two for each of these fills.
unfoldable pub Answers : Engine → Engine → Request → Book → List Execution → Type 0
Answers e e' req b xs =
    (r : Response) × (r.client_ts ≡ req.client_ts)
    × Sends (record e { book = b }) e' (r ∷ fill_responses req xs)

-- The fills behind the request's own response.
fills_behind :
    (e : Engine) (ts : ℕ) (req : Request) (b : Book) (r : Response) (xs : List Execution)
    → Sends
        (record e { book = b })
        (report_fills (push_response (record e { book = b }) r) ts req xs)
        (r ∷ fill_responses req xs)
fills_behind e ts req b r xs =
    let e0 : Engine = record e { book = b } in
    let e1 = push_response e0 r in
    Sends-trans e0 e1 (report_fills e1 ts req xs) (r ∷ []) (fill_responses req xs)
      (record { book = refl; sent = refl }) (report_fills-Sends e1 ts req xs)

pub handle_enter-Answers :
    (e : Engine) (ts : ℕ) (req : Request) (o : Outcome)
    → Answers e (handle_enter e ts req o) req o.0 o.2
unfolding Answers handle_enter respond
handle_enter-Answers e ts req (b, r, xs) =
    let behind = fills_behind e ts req b _ xs in
    (_, refl, Sends-if _ _ _ _ _ (then_md _ _ _ _ behind) behind)

-- A response without fills.
response_of :
    (e : Engine) (b : Book) (r : Response)
    → Sends (record e { book = b }) (push_response (record e { book = b }) r) (r ∷ [])
response_of e b r = record { book = refl; sent = refl }

pub handle_cancel-Answers :
    (e : Engine) (ts : ℕ) (req : Request) (o : Outcome)
    → Answers e (handle_cancel e ts req o) req o.0 []
unfolding Answers handle_cancel respond
handle_cancel-Answers e ts req (b, r, xs) =
    let own = response_of e b _ in (_, refl, Sends-if _ _ _ _ _ (then_md _ _ _ _ own) own)

pub handle_reduce-Answers :
    (e : Engine) (ts : ℕ) (req : Request) (o : Book × Result × ℕ)
    → Answers e (handle_reduce e ts req o) req o.0 []
unfolding Answers handle_reduce respond
handle_reduce-Answers e ts req (b, r, removed) =
    let own = response_of e b _ in (_, refl, Sends-if _ _ _ _ _ (then_md _ _ _ _ own) own)

pub handle_replace-Answers :
    (e : Engine) (ts : ℕ) (req : Request) (o : Outcome)
    → Answers e (handle_replace e ts req o) req o.0 o.2
unfolding Answers handle_replace respond
handle_replace-Answers e ts req (b, r, xs) =
    let behind = fills_behind e ts req b _ xs in
    (
      _,
      refl,
      Sends-if _ _ _ _ _ (Sends-if _ _ _ _ _ (then_md _ _ _ _ behind) (then_md _ _ _ _ behind))
          behind,
    )
