-- ===== src/Book/Index.antt =====
-- The id map of include/pricetime/book.hpp against the orders that rest on the two sides.
use pricetime.Common.{
  ℕ, ◌≡◌, refl, ap, sym, ◌∙◌, subst, List, [], ◌∷◌, ◌++◌, append_assoc, Bool, true, false, inl, inr,
  arith, ℤ, none, some, eq_of_some, Option-cases,
}
use pricetime.Types.{Side, bid, ask, opposite, Order}
use pricetime.IdMap.{StdIdMap, find, erase, insert}
use pricetime.IdMap.Agree.{
  count-append, Indexes, Indexes-swap, Indexes-erase, Indexes-insert, erase-append, erase-absent,
  find-append_some, find-append_none,
}
use pricetime.Level.{Level, find_in, remove, reduce}
use pricetime.Level.Tally.{remove-IsLevel}
use pricetime.LadderMap.{level_at, put_level, rest_in, settle}
use pricetime.Matching.{Handle, match_levels}
use pricetime.Matching.Entries.{handle_at, entries}
use pricetime.Matching.Index.{match_levels-Indexed}
use pricetime.Book.{
  Book, empty_book, levels, with_levels, count_taken, rest, match_book, unrest, deref,
}
use pricetime.Book.Entries.{
  rest_in-Inserted, count-entries, settle-entries, reduce-entries, find-entries,
}
use pricetime.Book.Invariant.{IsBook}
use pricetime.Book.Removal.{IsResting, IsLinked}

-- The map finds exactly the orders that rest, each under its level, and no id rests twice.
abbrev pub IsIndexed : Book → Type 0
IsIndexed b = Indexes b.orders (entries bid b.bids ++ entries ask b.asks)

pub empty_book-IsIndexed : IsIndexed empty_book
empty_book-IsIndexed = record { agree = λ i. refl; once = λ i. omega arith }

-- The same with one side first.
abbrev pub Sided : Side → StdIdMap Handle → List Level → List Level → Type 0
Sided s m near far = Indexes m (entries s near ++ entries (opposite s) far)

pub sided :
    (s : Side) (b : Book) → IsIndexed b → Sided s b.orders (levels b s) (levels b (opposite s))
sided bid b v = v
sided ask b v = Indexes-swap b.orders (entries bid b.bids) (entries ask b.asks) v

unsided :
    (s : Side) (b : Book) (m : StdIdMap Handle) (near : List Level)
    → Sided s m near (levels b (opposite s))
    → IsIndexed (record (with_levels b s near) { orders = m })
unsided bid b m near v = v
unsided ask b m near v = Indexes-swap m (entries ask near) (entries bid b.bids) v

pub rest-IsIndexed :
    (b : Book) (id : ℕ) (side : Side) (price : ℤ) (qty actor : ℕ)
    → find b.orders id ≡ none
    → IsIndexed b
    → IsIndexed (rest b id side price qty actor)
unfolding rest
rest-IsIndexed b id s price qty actor unused v =
    let o : Order = record { id = id; price = price; qty = qty; side = s; participant = actor } in
    let e : ℕ × Handle = (id, handle_at s price) in
    let far = entries (opposite s) (levels b (opposite s)) in
    let i = rest_in-Inserted s price o (levels b s) in
    let old : Indexes b.orders (i.before ++ (i.after ++ far)) =
      subst (Indexes b.orders) (ap (λ m. m ++ far) i.old ∙ append_assoc i.before i.after far)
        (sided s b v) in
    let new = Indexes-insert b.orders i.before (i.after ++ far) id (handle_at s price) unused old in
    unsided s b (insert b.orders id (handle_at s price)).0 (rest_in s price o (levels b s)) (
      subst (Indexes (insert b.orders id (handle_at s price)).0)
        (sym (append_assoc i.before (e ∷ i.after) far) ∙ ap (λ m. m ++ far) (sym i.new)) new)

-- A match keeps the map right, and an unused id unused.
pub match_book-IsIndexed :
    (b : Book) (id actor : ℕ) (side : Side) (cross : ℤ → Bool) (qty due : ℕ)
    → find b.orders id ≡ none
    → IsBook due b
    → IsIndexed b
    → IsIndexed (match_book b id actor side cross qty).0
      × (find (match_book b id actor side cross qty).0.orders id ≡ none)
unfolding match_book
match_book-IsIndexed b id actor bid cross qty due unused v w =
    let r =
      match_levels-Indexed ask (record { id = id; actor = actor; policy = b.stp }) id
        (entries bid b.bids) cross b.asks
        (record { left = qty; orders = b.orders; counters = b.counters; execs = [] })
        (record { active = v.asks.active; index = sided ask b w; unused = unused }) in
    (
      unsided ask b _
          (match_levels (record { id = id; actor = actor; policy = b.stp }) cross b.asks
            (record { left = qty; orders = b.orders; counters = b.counters; execs = [] })).0
          r.index,
      r.unused,
    )
match_book-IsIndexed b id actor ask cross qty due unused v w =
    let r =
      match_levels-Indexed bid (record { id = id; actor = actor; policy = b.stp }) id
        (entries ask b.asks) cross b.bids
        (record { left = qty; orders = b.orders; counters = b.counters; execs = [] })
        (record { active = v.bids.active; index = w; unused = unused }) in
    (r.index, r.unused)

-- Taking a resting order out takes its entry out.
pub unrest-IsIndexed :
    (b : Book) (l : Level) (o : Order)
    → IsResting b (l, o)
    → IsIndexed b
    → IsIndexed (unrest b (l, o))
unfolding unrest remove
unrest-IsIndexed b l o r v =
    let s = o.side in
    let near = entries s (levels b s) in
    let far = entries (opposite s) (levels b (opposite s)) in
    let ix = sided s b v in
    let sum = count-append near far o.id in
    let mine = count-entries s l.price o.id (levels b s) l o r.level r.order in
    let (sound, _, _) = remove-IsLevel l o r.order r.sound in
    let near' : entries s (settle (remove l o) (levels b s)) ≡ erase near o.id =
      settle-entries s l (remove l o) o o.id (levels b s) r.level r.order refl sound.counted
        (omega (arith, ix.once o.id, sum)) in
    let far' : erase far o.id ≡ far =
      erase-absent far o.id (omega (arith, ix.once o.id, sum, mine)) in
    let parts : erase (near ++ far) o.id ≡ entries s (settle (remove l o) (levels b s)) ++ far =
      erase-append near far o.id
      ∙ ap (λ m. m ++ erase far o.id) (sym near')
      ∙ ap (λ m. entries s (settle (remove l o) (levels b s)) ++ m) far' in
    unsided s b (erase b.orders o.id) (settle (remove l o) (levels b s))
      (subst (Indexes (erase b.orders o.id)) parts (Indexes-erase b.orders (near ++ far) o.id ix))

-- Nor does the map depend on the counters.
pub count_taken-IsIndexed :
    (x : Bool) (q : ℕ) (b : Book) → IsIndexed b → IsIndexed (count_taken x q b)
count_taken-IsIndexed true q b v = v
count_taken-IsIndexed false q b v = v

-- A reduced order keeps its entry.
pub reduce-IsIndexed :
    (b : Book) (l : Level) (o : Order) (s : Side) (d : ℕ)
    → level_at l.price (levels b s) ≡ some l
    → IsIndexed b
    → IsIndexed (with_levels b s (put_level l.price (reduce l o d) (levels b s)))
reduce-IsIndexed b l o bid d e v =
    subst (λ m. Indexes b.orders (m ++ entries ask b.asks))
      (sym (reduce-entries bid l o d b.bids e)) v
reduce-IsIndexed b l o ask d e v =
    subst (λ m. Indexes b.orders (entries bid b.bids ++ m))
      (sym (reduce-entries ask l o d b.asks e)) v

deref-some :
    (b : Book) (id : ℕ) (h : Handle) (s : Side) (l : Level) (o : Order)
    → h.side ≡ s
    → level_at h.price (levels b s) ≡ some l
    → find_in id l.queue ≡ some o
    → deref b id h ≡ some (l, o)
unfolding deref
deref-some b id h s l o e level held =
    let there : level_at h.price (levels b h.side) ≡ some l =
      subst (λ x. level_at h.price (levels b x) ≡ some l) (sym e) level in
    rw (there, held, deref) refl

-- The map does not dangle.
pub IsLinked-of : (b : Book) (id due : ℕ) → IsBook due b → IsIndexed b → IsLinked b id
IsLinked-of b id due v w h found =
    let there : find (entries bid b.bids ++ entries ask b.asks) id ≡ some h =
      sym (w.agree id) ∙ found in
    elim (Option-cases (find (entries bid b.bids) id)) [
      | inr (h', at_bid) ↦
          let same : h' ≡ h = eq_of_some (
            sym (find-append_some (entries bid b.bids) (entries ask b.asks) id h' at_bid)
            ∙ there) in
          let (mine, (l, level, (o, held))) =
            find-entries bid id h b.bids (at_bid ∙ ap some same) v.bids.sorted in
          ((l, o), deref-some b id h _ l o mine level held)
      | inl absent ↦
          let at_ask : find (entries ask b.asks) id ≡ some h =
            sym (find-append_none (entries bid b.bids) (entries ask b.asks) id absent) ∙ there in
          let (mine, (l, level, (o, held))) = find-entries ask id h b.asks at_ask v.asks.sorted in
          ((l, o), deref-some b id h _ l o mine level held)
    ]
