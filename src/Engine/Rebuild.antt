-- ===== src/Engine/Rebuild.antt =====
-- From include/pricetime/engine.hpp to include/pricetime/itch_replay.hpp: what a replayer makes of
-- everything that the engine has published.
use pricetime.Common.{
  ℕ, ◌+◌, ◌<◌, ◌≡◌, refl, ap, sym, ◌∙◌, subst, List, [], ◌∷◌, Option-cases, none, some, inl, inr,
  arith, u32, eq_of_some, All, length, drop,
}
use pricetime.IdMap.{find}
use pricetime.Symbol.{Symbol, bits}
use pricetime.Book.{Book, empty_book}
use pricetime.Book.Same.{SameOrders}
use pricetime.Book.Messages.{FeedMessage, take, take_all}
use pricetime.MultiBook.{no_books, with_book}
use pricetime.Engine.{Engine}
use pricetime.Engine.Messages.{read_message, read_all, IsAbout, IsSmall}
use pricetime.Engine.Integrity.{Serves, IsFresh, Serves-Reads}
use pricetime.Replay.{Replayer, then_apply, replay}
use pricetime.Replay.Books.{IsRouted, no_books-IsRouted}
use pricetime.Replay.Follow.{Carries, Tracks, with_book-absent}
use pricetime.Replay.Mirror.{payload-IsApplied}

-- The messages of the queue without their lengths, as the datagrams carry them.
abbrev pub payloads : List (List ℕ) → List (List ℕ)
payloads [] = []
payloads (b ∷ bs) = drop 2 b ∷ payloads bs

-- The messages of one symbol are applied one after another, as they are taken.
replay-Tracks :
    (stock : Symbol) (bs : List (List ℕ)) (n : ℕ) (r : Replayer) (b b' : Book)
    (xs : List FeedMessage)
    → read_all bs ≡ some xs
    → All (IsAbout stock) bs
    → All IsSmall xs
    → take_all xs b ≡ some b'
    → Tracks (bits stock) r b
    → IsRouted n r.books
    → n + length bs + 1 < u32
    → (r' : Replayer) × (replay (payloads bs) r ≡ some r') × Tracks (bits stock) r' b'
unfolding read_all take_all replay
replay-Tracks stock [] n r b b' xs read about small taken v w few = (
  r,
  refl,
  subst (Tracks (bits stock) r) (eq_of_some (ap (λ ys. take_all ys b) (eq_of_some read) ∙ taken)) v,
)
replay-Tracks stock (m ∷ bs) n r b b' xs read about small taken v w few =
    elim (Option-cases (read_message m)) [
      | inl lost ↦ absurd (let z : none ≡ some xs = rw lost at read in cc)
      | inr (x, says) ↦ elim (Option-cases (read_all bs)) [
        | inl lost ↦ absurd (let z : none ≡ some xs = rw (says, lost) at read in cc)
        | inr (ys, rest) ↦
            let same : x ∷ ys ≡ xs = eq_of_some (rw (says, rest) at read) in
            let smalls = subst (All IsSmall) (sym same) small in
            let takes : take_all (x ∷ ys) b ≡ some b' = ap (λ zs. take_all zs b) same ∙ taken in
            elim (Option-cases (take b x)) [
              | inl stuck ↦ absurd (let z : none ≡ some b' = rw stuck at takes in cc)
              | inr (c, one) ↦
                  let k =
                    payload-IsApplied stock n r b (drop 2 m) (length (drop 2 m)) v w
                      (omega (arith, few)) x says about.0 c one smalls.0 in
                  let (r', runs, tracks) =
                    replay-Tracks stock bs (n + 1) k.after c b' ys rest about.1 smalls.1
                      (rw one at takes) k.tracks k.routed (omega (arith, few)) in
                  (r', ap (λ o. then_apply o (replay (payloads bs))) k.runs ∙ runs, tracks)
            ]
      ]
    ]

-- A replayer that has seen nothing and tracks every symbol.
pub record IsNew (r : Replayer) : Type 0 where
  pub books : r.books ≡ no_books
  pub all : r.filter ≡ []

no_books-Carries : (s : ℕ) → Carries s no_books empty_book
unfolding find
no_books-Carries s = record { book = with_book-absent s no_books refl; owner = λ i. refl }

IsNew-Tracks : (s : ℕ) (r : Replayer) → IsNew r → Tracks s r empty_book × IsRouted 0 r.books
IsNew-Tracks s r v = (
  record {
    all = v.all;
    books = subst (λ m. Carries s m empty_book) (sym v.books) (no_books-Carries s);
  },
  subst (IsRouted 0) (sym v.books) no_books-IsRouted,
)

-- After `n` requests of known kinds, whose numbers have room in the messages, on an engine with
-- an empty book and a market-data queue that is on and empty, with `n + 1` and the number of
-- messages plus one below 2 ^ 32: a new replayer that tracks every symbol applies all the
-- messages on the queue, and its book for the engine's symbol then has the engine's levels, with
-- their orders and aggregates, and the engine's index of orders.
pub replay-Serves :
    {e0 : Engine} {n : ℕ} {e : Engine} (r : Replayer)
    → IsFresh e0
    → Serves e0 n e
    → n + 1 < u32
    → length e.q_md + 1 < u32
    → IsNew r
    → (r' : Replayer) × (b : Book) × (replay (payloads e.q_md) r ≡ some r')
      × (find (with_book r'.books (bits e0.symbol)).books (bits e0.symbol) ≡ some b)
      × SameOrders b e.book
replay-Serves {e0} {n} {e} r fresh served few short new =
    let k = Serves-Reads fresh served few in
    let (tracks, routed) = IsNew-Tracks (bits e0.symbol) r new in
    let (r', runs, after) =
      replay-Tracks e0.symbol e.q_md 0 r empty_book k.mirror k.messages k.read k.about k.small
        k.taken tracks routed (omega (arith, short)) in
    (r', k.mirror, runs, after.books.book, k.same)
