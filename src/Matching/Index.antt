-- ===== src/Matching/Index.antt =====
-- The matching loop of include/pricetime/book.hpp and the id map: whatever leaves the levels leaves
-- the map, and nothing else does.
use pricetime.Common.{
  nil_of_length, ℕ, ◌≡◌, refl, sym, ◌∙◌, subst, ℤ, List, [], ◌∷◌, ◌++◌, append_assoc, none, Bool,
  Bool-cases, inl, inr, ◌==◌, ltb, ◌-◌, if◌then◌else◌, arith, All,
}
use pricetime.Types.{Side, Order}
use pricetime.IdMap.{StdIdMap, find, erase, find-erase}
use pricetime.IdMap.Agree.{Indexes, Indexes-head}
use pricetime.Level.{Level}
use pricetime.Level.Tally.{IsLevel}
use pricetime.LadderMap.Sides.{IsActive}
use pricetime.Matching.{
  Handle, Aggressor, Flow, kills_resting, kills_aggressor, prevent, trade, match_level,
  match_levels,
}
use pricetime.Matching.Rule.{match_level_inv, match_levels_inv}
use pricetime.Matching.Fills.{match_level-Keeps}
use pricetime.Matching.Entries.{handle_at, queue_entries, entries}

erase-fresh : (m : StdIdMap Handle) (k i : ℕ) → find m i ≡ none → find (erase m k) i ≡ none
erase-fresh m k i e =
    rw (find-erase m k i, e)
      (elim (Bool-cases (k == i)) [ inl here ↦ rw here refl | inr other ↦ rw other refl ])

-- `fresh` is an id that no resting order has; `others` are the entries of the rest of the book.
module _ (s : Side) (a : Aggressor) (fresh : ℕ) where
  record IndexedLevel (p : ℤ) (others : StdIdMap Handle) (l : Level) (f : Flow) : Type 0 where
    price : l.price ≡ p
    index : Indexes f.orders (queue_entries s p l.queue ++ others)
    unused : find f.orders fresh ≡ none

  module _ (p : ℤ) (others : StdIdMap Handle) (o : Order) (rest : List Order) (l : Level) (f : Flow)
      (e : l.queue ≡ o ∷ rest) (k : IndexedLevel p others l f) where
    head_gone : Indexes (erase f.orders o.id) (queue_entries s p rest ++ others)
    head_gone =
        Indexes-head f.orders (queue_entries s p rest ++ others) o.id (handle_at s p)
          (subst (λ q. Indexes f.orders (queue_entries s p q ++ others)) e k.index)

    dropped :
        {l' : Level} {f' : Flow}
        → l'.price ≡ l.price
        → l'.queue ≡ rest
        → f'.orders ≡ erase f.orders o.id
        → IndexedLevel p others l' f'
    dropped {l'} {f'} same_price same_queue same_orders = record {
      price = same_price ∙ k.price;
      index = rw (same_queue, same_orders) head_gone;
      unused = rw same_orders (erase-fresh f.orders o.id fresh k.unused);
    }

    prevent-Indexed : IndexedLevel p others (prevent a o rest l f).0.0 (prevent a o rest l f).0.1
    unfolding prevent
    prevent-Indexed = elim (Bool-cases (kills_resting a.policy)) [
      | inl kill ↦ elim (Bool-cases (kills_aggressor a.policy)) [
        | inl both ↦ rw (kill, both) (dropped refl refl refl)
        | inr one ↦ rw (kill, one) (dropped refl refl refl)
      ]
      | inr keep ↦ elim (Bool-cases (kills_aggressor a.policy)) [
        | inl both ↦
            rw (keep, both) (record { price = k.price; index = k.index; unused = k.unused })
        | inr one ↦ rw (keep, one) (record { price = k.price; index = k.index; unused = k.unused })
      ]
    ]

    trade-Indexed : IndexedLevel p others (trade a o rest l f).0.0 (trade a o rest l f).0.1
    unfolding trade
    trade-Indexed = elim (Bool-cases (o.qty - (if ltb f.left o.qty then f.left else o.qty) == 0)) [
      | inl gone ↦ rw gone (dropped refl refl refl)
      | inr some_left ↦ rw some_left (record {
        price = k.price;
        index = subst (λ q. Indexes f.orders (queue_entries s p q ++ others)) e k.index;
        unused = k.unused;
      })
    ]

  match_level-Indexed :
      (others : StdIdMap Handle) (l : Level) (f : Flow)
      → IndexedLevel l.price others l f
      → IndexedLevel l.price others (match_level a l.queue l f).0 (match_level a l.queue l f).1
  match_level-Indexed others l f =
      match_level_inv (IndexedLevel l.price others) a
        (record {
          prevents = λ o rest l' f' e _ k. prevent-Indexed l.price others o rest l' f' e k;
          trades = λ o rest l' f' e _ _ k. trade-Indexed l.price others o rest l' f' e k;
        })
        l.queue l f refl

  -- The whole side that is walked, and the other one.
  pub record Indexed (others : StdIdMap Handle) (ls : List Level) (f : Flow) : Type 0 where
    pub active : All (IsActive s) ls
    pub index : Indexes f.orders (entries s ls ++ others)
    pub unused : find f.orders fresh ≡ none

  walked :
      {others : StdIdMap Handle} (l : Level) (ls : List Level) (f : Flow)
      → Indexed others (l ∷ ls) f
      → IndexedLevel l.price
          (entries s ls ++ others)
          (match_level a l.queue l f).0
          (match_level a l.queue l f).1
  walked {others} l ls f q = match_level-Indexed (entries s ls ++ others) l f (record {
    price = refl;
    index = rw (sym (append_assoc (queue_entries s l.price l.queue) (entries s ls) others)) q.index;
    unused = q.unused;
  })

  -- A level that counts no order holds none.
  emptied :
      (l : Level) (f : Flow)
      → IsLevel s l
      → (match_level a l.queue l f).0.order_count ≡ 0
      → (match_level a l.queue l f).0.queue ≡ []
  emptied l f v z =
      let k = match_level-Keeps s _ a l f (record { level = v; weighs = refl }) in
      nil_of_length (match_level a l.queue l f).0.queue (omega (arith, k.level.counted))

  pub match_levels-Indexed :
      (others : StdIdMap Handle) (crosses : ℤ → Bool) (ls : List Level) (f : Flow)
      → Indexed others ls f
      → Indexed others (match_levels a crosses ls f).0 (match_levels a crosses ls f).1
  match_levels-Indexed others crosses = match_levels_inv (Indexed others) a crosses (record {
    empties = λ l ls f _ z q.
        let r = walked l ls f q in
        record {
          active = q.active.1;
          index =
              subst
                (λ (os : List Order).
                  Indexes (match_level a l.queue l f).1.orders
                    (queue_entries s l.price os ++ (entries s ls ++ others)))
                (emptied l f q.active.0.0 z) r.index;
          unused = r.unused;
        };
    stays = λ l ls f _ z q.
        let r = walked l ls f q in
        let v = match_level-Keeps s _ a l f (record { level = q.active.0.0; weighs = refl }) in
        record {
          active = ((v.level, omega (arith, v.level.counted)), q.active.1);
          index =
              rw
                (
                  r.price,
                  append_assoc (queue_entries s l.price (match_level a l.queue l f).0.queue)
                      (entries s ls) others,
                )
                r.index;
          unused = r.unused;
        };
  })
