-- ===== src/Engine/Published.antt =====
-- What an engine of include/pricetime/engine.hpp has pushed to its market-data queue.
use pricetime.Common.{
  ℕ, ◌<◌, ◌≡◌, refl, ap, sym, ◌∙◌, subst, List, [], ◌∷◌, ◌++◌, append_assoc, append-nil, true, ltb,
  ◌&&◌, if◌then◌else◌, some, arith, length, u32, u64, All, All-append,
}
use pricetime.Types.{Execution}
use pricetime.Symbol.{Symbol}
use pricetime.Book.{Book}
use pricetime.Book.Messages.{FeedMessage, executed, execution_messages}
use pricetime.Itch.Writer.{Writer}
use pricetime.Itch.RoundTrip.{u48}
use pricetime.Wire.{Request}
use pricetime.Engine.{Engine, md_push, report_fill, report_fills}
use pricetime.Engine.Messages.{
  read_all, read_all-append, IsAbout, IsSmall, IsMessage, order_executed-IsMessage,
}

-- Behind what a queue held, an engine with this book has published these messages.
pub record Publishes (stock : Symbol) (b : Book) (q : List (List ℕ)) (e : Engine)
    (xs : List FeedMessage) : Type 0 where
  pub book : e.book ≡ b
  pub enabled : e.md_enabled ≡ true
  pub numbered : e.match_number < u64
  pub messages : List (List ℕ)
  pub pushed : e.q_md ≡ q ++ messages
  pub read : read_all messages ≡ some xs
  pub symbol : e.symbol ≡ stock
  pub about : All (IsAbout stock) messages
  pub small : All IsSmall xs

md_push-on :
    (e : Engine) (w : Writer)
    → e.md_enabled ≡ true
    → ltb (length w.buf) 65 ≡ true
    → md_push e w ≡ record e { q_md = e.q_md ++ w.buf ∷ [] }
unfolding md_push
md_push-on e w on fits =
    ap (λ c. if c then record e { q_md = e.q_md ++ w.buf ∷ [] } else e)
      (ap (λ c. c && ltb (length w.buf) 65) on ∙ fits)

pub md_push-Publishes :
    (stock : Symbol) (b : Book) (q : List (List ℕ)) (e : Engine) (w : Writer)
    (xs : List FeedMessage) (x : FeedMessage)
    → Publishes stock b q e xs
    → IsMessage stock w.buf x
    → Publishes stock b q (md_push e w) (xs ++ x ∷ [])
unfolding read_all
md_push-Publishes stock b q e w xs x v m =
    subst (λ e'. Publishes stock b q e' (xs ++ x ∷ [])) (sym (md_push-on e w v.enabled m.fits))
      (record {
        book = v.book;
        enabled = v.enabled;
        numbered = v.numbered;
        messages = v.messages ++ w.buf ∷ [];
        pushed = ap (λ bs. bs ++ w.buf ∷ []) v.pushed ∙ append_assoc q v.messages (w.buf ∷ []);
        read = read_all-append v.messages (w.buf ∷ []) xs (x ∷ []) v.read (rw m.says refl);
        symbol = v.symbol;
        about = All-append (IsAbout stock) v.messages (w.buf ∷ []) v.about (m.names, tt);
        small = All-append IsSmall xs (x ∷ []) v.small (m.small, tt);
      })

-- A fill whose numbers the message has room for.
abbrev pub IsPublic : Execution → Type 0
IsPublic x = (x.qty < u32) × (x.resting_id < u64)

pub report_fill-Publishes :
    (stock : Symbol) (b : Book) (q : List (List ℕ)) (e : Engine) (ts : ℕ) (req : Request)
    (x : Execution) (xs : List FeedMessage)
    → ts < u48
    → IsPublic x
    → Publishes stock b q e xs
    → Publishes stock b q (report_fill e ts req x) (xs ++ executed x.resting_id x.qty ∷ [])
unfolding report_fill
report_fill-Publishes stock b q e ts req x xs h p v =
    md_push-Publishes stock b q _ _ xs _
      (record {
        book = v.book;
        enabled = v.enabled;
        numbered = omega arith;
        messages = v.messages;
        pushed = v.pushed;
        read = v.read;
        symbol = v.symbol;
        about = v.about;
        small = v.small;
      })
      (order_executed-IsMessage ts stock h x.resting_id x.qty _ p.1 p.0 (omega arith))

pub report_fills-Publishes :
    (stock : Symbol) (b : Book) (q : List (List ℕ)) (e : Engine) (ts : ℕ) (req : Request)
    (fills : List Execution) (xs : List FeedMessage)
    → ts < u48
    → All IsPublic fills
    → Publishes stock b q e xs
    → Publishes stock b q (report_fills e ts req fills) (xs ++ execution_messages fills)
unfolding report_fills
report_fills-Publishes stock b q e ts req [] xs h p v =
    subst (Publishes stock b q e) (sym (append-nil xs)) v
report_fills-Publishes stock b q e ts req (x ∷ fills) xs h p v =
    subst (Publishes stock b q (report_fills (report_fill e ts req x) ts req fills))
      (append_assoc xs (executed x.resting_id x.qty ∷ []) (execution_messages fills))
      (report_fills-Publishes stock b q (report_fill e ts req x) ts req fills
        (xs ++ executed x.resting_id x.qty ∷ []) h p.1
        (report_fill-Publishes stock b q e ts req x xs h p.0 v))
