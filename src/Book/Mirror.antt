-- ===== src/Book/Mirror.antt =====
-- A second book that takes the executions of a match as include/pricetime/itch_replay.hpp does, one
-- `execute_resting` after another.
use pricetime.Common.{
  ℕ, ◌-◌, ◌<◌, ◌≡◌, ◌≢◌, refl, ap, sym, ◌∙◌, subst, List, [], ◌∷◌, ◌++◌, append_assoc,
  nil_of_length, Bool, true, false, inl, inr, Bool-cases, ltb, ◌==◌, Option, none, some, arith,
  add_u64, ℤ, All, length, ==_refl, eq_of_some, Option-cases,
}
use pricetime.Types.{Side, opposite, Order, Execution, Result}
use pricetime.IdMap.{StdIdMap, find, erase, find-erase}
use pricetime.IdMap.Agree.{Indexes, Indexes-head}
use pricetime.Level.{Level, without, reduced}
use pricetime.Level.Tally.{IsLevel, reduced-IsLevel, filled-IsLevel}
use pricetime.Matching.{Handle, Aggressor, Flow, own, trade, match_level, match_levels}
use pricetime.Matching.Rule.{match_level_inv, match_levels_inv}
use pricetime.LadderMap.Sides.{IsActive}
use pricetime.Matching.Entries.{handle_at, queue_entries, entries}
use pricetime.Book.{Book, levels, execute_resting}
use pricetime.Book.Front.{back, IsFront, front_part, front_whole}

abbrev pub after_one :
    {A : Type 0} → Option (Book × Result × A) → (Book → Option Book) → Option Book
after_one none next = none
after_one (some r) next = next r.0

unfoldable pub execute_all : List Execution → Book → Option Book
execute_all [] m = some m
execute_all (x ∷ xs) m = after_one (execute_resting m x.resting_id x.qty) (execute_all xs)

-- An execution is applied behind the others.
pub execute_all-append :
    (xs : List Execution) (x : Execution) (m m' : Book) (r : Book × Result × ℕ)
    → execute_all xs m ≡ some m'
    → execute_resting m' x.resting_id x.qty ≡ some r
    → execute_all (xs ++ x ∷ []) m ≡ some r.0
unfolding execute_all
execute_all-append [] x m m' r e k =
    ap (λ (o : Option (Book × Result × ℕ)). after_one o some)
      (subst (λ b. execute_resting b x.resting_id x.qty ≡ some r) (sym (eq_of_some e)) k)
execute_all-append (y ∷ xs) x m m' r e k =
    elim (Option-cases (execute_resting m y.resting_id y.qty)) [
      | inl stuck ↦ absurd (let z : none ≡ some m' = rw stuck at e in cc)
      | inr (one, answers) ↦ rw answers (execute_all-append xs x one.0 m' r (rw answers at e) k)
    ]

-- What a second book may hold besides: `hide` leaves out of its index what the first book does not
-- have, and `Q` is what the executions keep of it.
pub record Hides (hide : StdIdMap Handle → StdIdMap Handle) (Q : StdIdMap Handle → Type 0)
    : Type 0 where
  pub finds :
      (m : StdIdMap Handle) (i : ℕ) (h : Handle) → find (hide m) i ≡ some h → find m i ≡ some h
  pub erases : (m : StdIdMap Handle) (i : ℕ) → hide (erase m i) ≡ erase (hide m) i
  pub keeps :
      (m : StdIdMap Handle) (i : ℕ) (h : Handle) → find (hide m) i ≡ some h → Q m → Q (erase m i)

-- Nothing is hidden.
pub shows_all : Hides (λ m. m) (λ _. Unit)
shows_all = record { finds = λ m i h e. e; erases = λ m i. refl; keeps = λ m i h e q. tt }

erase_comm : (m : StdIdMap Handle) (i j : ℕ) → erase (erase m j) i ≡ erase (erase m i) j
unfolding erase
erase_comm [] i j = refl
erase_comm (e ∷ m) i j = ground (arith, erase_comm m i j)

-- One order is hidden, and its entry stays.
pub hides_one : (old : ℕ) (k : Handle) → Hides (λ m. erase m old) (λ m. find m old ≡ some k)
hides_one old k = record {
  finds = λ m i h e. ground (arith, find-erase m old i);
  erases = λ m i. erase_comm m old i;
  keeps = λ m i h e q. ground (arith, find-erase m old i, find-erase m i old);
}

module _ (hide : StdIdMap Handle → StdIdMap Handle) (Q : StdIdMap Handle → Type 0)
    (hides : Hides hide Q) where
  -- The second book after the executions of a flow: on the side that is walked it has these levels.
  pub record IsMirror (m0 : Book) (s : Side) (ls : List Level) (f : Flow) : Type 0 where
    pub book : Book
    pub runs : execute_all f.execs m0 ≡ some book
    pub near : levels book s ≡ ls
    pub far : levels book (opposite s) ≡ levels m0 (opposite s)
    pub orders : hide book.orders ≡ f.orders
    pub kept : Q book.orders

  IsMirror-near :
      (m0 : Book) (s : Side) (ls ls' : List Level) (f : Flow)
      → ls ≡ ls'
      → IsMirror m0 s ls f
      → IsMirror m0 s ls' f
  IsMirror-near m0 s ls ls' f e v = subst (λ x. IsMirror m0 s x f) e v

  module _ (m0 : Book) (s : Side) (a : Aggressor) (others : StdIdMap Handle) (ls : List Level) where
    record Turned (l : Level) (f : Flow) : Type 0 where
      level : IsLevel s l
      index : Indexes f.orders (queue_entries s l.price l.queue ++ others)
      mirror : IsMirror m0 s (back l ls) f

    module _ (o : Order) (rest : List Order) (l : Level) (f : Flow) (e : l.queue ≡ o ∷ rest)
        (t : Turned l f) where
      held : find (hide t.mirror.book.orders) o.id ≡ some (handle_at s l.price)
      unfolding find
      held = rw t.mirror.orders (t.index.agree o.id ∙ rw (e, ==_refl o.id) refl)

      front : IsFront t.mirror.book s l ls o rest
      front =
          let some_order : (l.order_count == 0) ≡ false =
            ground (arith, t.level.counted, ap length e) in
          record {
            near = t.mirror.near ∙ rw some_order refl;
            queue = e;
            level = t.level;
            found = hides.finds t.mirror.book.orders o.id _ held;
          }

      head_gone : Indexes (erase f.orders o.id) (queue_entries s l.price rest ++ others)
      head_gone =
          Indexes-head f.orders (queue_entries s l.price rest ++ others) o.id (handle_at s l.price)
            (subst (λ q. Indexes f.orders (queue_entries s l.price q ++ others)) e t.index)

      -- The flow after a fill.
      after : ℕ → Flow
      after fill = record f {
        left = f.left - fill;
        counters = record (f.counters) { traded_qty = add_u64 f.counters.traded_qty fill };
        execs =
            f.execs
            ++ record { resting_id = o.id; aggressor_id = a.id; price = l.price; qty = fill } ∷ [];
      }

      part-Turned :
          (fill : ℕ)
          → 0 < fill
          → fill < o.qty
          → Turned (reduced l fill (record o { qty = o.qty - fill } ∷ rest)) (after fill)
      unfolding after
      part-Turned fill some_fill less =
          let (r, runs, near, far, orders) =
            front_part t.mirror.book s l ls o rest front fill true some_fill less in
          let some_order : (l.order_count == 0) ≡ false =
            ground (arith, t.level.counted, ap length e) in
          record {
            level = reduced-IsLevel {s = s} l o rest e fill less t.level;
            index = subst (λ q. Indexes f.orders (queue_entries s l.price q ++ others)) e t.index;
            mirror = record {
              book = r.0;
              runs = execute_all-append f.execs _ m0 t.mirror.book r t.mirror.runs runs;
              near = near ∙ rw some_order refl;
              far = far ∙ t.mirror.far;
              orders = ap hide orders ∙ t.mirror.orders;
              kept = subst Q (sym orders) t.mirror.kept;
            };
          }

      whole-Turned :
          Turned
            (without (reduced l o.qty rest) 0 rest)
            (record (after o.qty) { orders = erase f.orders o.id })
      unfolding after
      whole-Turned =
          let (r, runs, near, far, orders) = front_whole t.mirror.book s l ls o rest front true in
          record {
            level = filled-IsLevel {s = s} l o rest e o.qty refl t.level;
            index = head_gone;
            mirror = record {
              book = r.0;
              runs = execute_all-append f.execs _ m0 t.mirror.book r t.mirror.runs runs;
              near = near;
              far = far ∙ t.mirror.far;
              orders =
                  ap hide orders
                  ∙ hides.erases t.mirror.book.orders o.id
                  ∙ ap (λ os. erase os o.id) t.mirror.orders;
              kept =
                  subst Q (sym orders) (hides.keeps t.mirror.book.orders o.id _ held t.mirror.kept);
            };
          }

      trade-Turned : f.left ≢ 0 → Turned (trade a o rest l f).0.0 (trade a o rest l f).0.1
      unfolding trade after
      trade-Turned z = elim (Bool-cases (ltb f.left o.qty)) [
        | inl less ↦
            let some_left : (o.qty - f.left == 0) ≡ false = ground (arith, less) in
            rw (less, some_left) (part-Turned f.left (ground (arith, z)) (ground (arith, less)))
        | inr all ↦
            let gone : (o.qty - o.qty == 0) ≡ true = ground arith in rw (all, gone) whole-Turned
      ]

    -- Without a participant no order of the book is the aggressor's own.
    match_level-Turned :
        a.actor ≡ 0
        → (l : Level) (f : Flow) → Turned l f
        → Turned (match_level a l.queue l f).0 (match_level a l.queue l f).1
    unfolding own
    match_level-Turned nobody l f =
        match_level_inv Turned a
          (record {
            prevents = λ o rest l' f' e h t. absurd (ground (arith, h, nobody));
            trades = λ o rest l' f' e h z t. trade-Turned o rest l' f' e t z;
          })
          l.queue l f refl

  module _ (m0 : Book) (s : Side) (a : Aggressor) (others : StdIdMap Handle) where
    pub record MirrorsAll (ls : List Level) (f : Flow) : Type 0 where
      pub active : All (IsActive s) ls
      pub index : Indexes f.orders (entries s ls ++ others)
      pub mirror : IsMirror m0 s ls f

    walked :
        a.actor ≡ 0
        → (l : Level) (ls : List Level) (f : Flow) → MirrorsAll (l ∷ ls) f
        → Turned m0 s a
            (entries s ls ++ others)
            ls
            (match_level a l.queue l f).0
            (match_level a l.queue l f).1
    walked nobody l ls f k =
        let some_order : (l.order_count == 0) ≡ false =
          ground (arith, k.active.0.0.counted, k.active.0.1) in
        match_level-Turned m0 s a (entries s ls ++ others) ls nobody l f (record {
          level = k.active.0.0;
          index =
              rw (sym (append_assoc (queue_entries s l.price l.queue) (entries s ls) others))
                k.index;
          mirror = IsMirror-near m0 s _ _ _ (rw some_order refl) k.mirror;
        })

    pub match_levels-MirrorsAll :
        a.actor ≡ 0
        → (crosses : ℤ → Bool) (ls : List Level) (f : Flow) → MirrorsAll ls f
        → MirrorsAll (match_levels a crosses ls f).0 (match_levels a crosses ls f).1
    match_levels-MirrorsAll nobody crosses = match_levels_inv MirrorsAll a crosses (record {
      empties = λ l ls f _ z k.
          let t = walked nobody l ls f k in
          let gone : ((match_level a l.queue l f).0.order_count == 0) ≡ true = ground (arith, z) in
          let none_left : (match_level a l.queue l f).0.queue ≡ [] =
            nil_of_length (match_level a l.queue l f).0.queue (omega (arith, t.level.counted, z)) in
          record {
            active = k.active.1;
            index = rw none_left at t.index;
            mirror = IsMirror-near m0 s _ _ _ (rw gone refl) t.mirror;
          };
      stays = λ l ls f _ z k.
          let t = walked nobody l ls f k in
          let stays : ((match_level a l.queue l f).0.order_count == 0) ≡ false =
            ground (arith, z) in
          record {
            active = ((t.level, omega (arith, t.level.counted, z)), k.active.1);
            index =
                rw
                  (append_assoc
                    (queue_entries s (match_level a l.queue l f).0.price
                      (match_level a l.queue l f).0.queue)
                    (entries s ls) others)
                  t.index;
            mirror = IsMirror-near m0 s _ _ _ (rw stays refl) t.mirror;
          };
    })
