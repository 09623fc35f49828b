-- ===== src/Replay/Total.antt =====
-- include/pricetime/itch_replay.hpp on arbitrary messages: no handler meets a pointer that dangles.
use pricetime.Common.{
  ℕ, zero, suc, ◌+◌, ◌≤◌, ◌<◌, ◌≡◌, refl, ap, ◌∙◌, subst, List, [], ◌∷◌, Option, Option-cases, none,
  some, Bool, true, false, inl, inr, ◌==◌, ◌||◌, add_u64, arith, u32, All, length, get_or,
}
use pricetime.Types.{Order}
use pricetime.IdMap.{find}
use pricetime.Symbol.{bits}
use pricetime.Book.{Book, Outcome, find_order, insert_passive, consume, cancel}
use pricetime.Book.Invariant.{resting}
use pricetime.Book.Entry.{on_ok_inv, if_inv}
use pricetime.Book.Index.{IsLinked-of}
use pricetime.Book.Removal.{lookup-answers}
use pricetime.Book.Sound.{
  IsSound, insert_passive-Grown, consume-Grown, cancel-Grown, cancel_open-Grown,
}
use pricetime.MultiBook.{book_for_order, with_book, put_book, forget_order}
use pricetime.Itch.{
  AddOrder, OrderExecuted, OrderCancel, OrderDelete, OrderReplace, be32, decode_add_order,
  decode_order_executed, decode_order_cancel, decode_order_delete, decode_order_replace,
  decode_system_event, be48,
}
use pricetime.Replay.{
  Replayer, stamp, tracked, routed, count_unknown, forget_if_gone, after_taken, on_add, on_executed,
  on_cancel, on_delete, replace_in, on_replace, apply, then_apply, replay,
}
use pricetime.Replay.Books.{
  IsRouted, IsRouted-more, with_book-IsRouted, put_book-IsRouted, note_order-IsRouted,
  forget_order-IsRouted,
}

-- An answer, after which the books are sound.
abbrev pub Routes : ℕ → Option Replayer → Type 0
Routes n o = (r : Replayer) × (o ≡ some r) × IsRouted n r.books

find_order-answers :
    (b : Book) (id : ℕ) → IsSound b → (o : Option Order) × (find_order b id ≡ some o)
unfolding find_order
find_order-answers b id v =
    let (o, run, _) =
      lookup-answers (λ (_ : Option Order). Unit) b id none (λ e. some e.1)
        (IsLinked-of b id 0 v.book v.index) v.book tt (λ e k i. tt) in
    (o, run)

forget_if_gone-Routes :
    (n id ts : ℕ) (o : Option Order) (r : Replayer)
    → IsRouted n r.books
    → Routes n (forget_if_gone id ts (some o) r)
forget_if_gone-Routes n id ts (some o) r v = (r, refl, v)
forget_if_gone-Routes n id ts none r v = (_, refl, forget_order-IsRouted n r.books id v)

-- A cancel leaves no more orders than there were.
cancel-shrinks :
    (b : Book) (id : ℕ)
    → IsSound b
    → (o : Outcome) × (cancel b id ≡ some o) × (IsSound o.0 × (resting o.0 ≤ resting b))
unfolding cancel
cancel-shrinks b id v =
    lookup-answers (λ (o : Outcome). IsSound o.0 × (resting o.0 ≤ resting b)) b id _ _
      (IsLinked-of b id 0 v.book v.index) v.book (v, omega arith)
      (λ e k _. (let (g, fewer) = cancel_open-Grown b v e k in (g.sound, omega (arith, fewer))))

module _ (n : ℕ) (r : Replayer) (v : IsRouted n r.books) where
  owner :
      (id s : ℕ) → book_for_order r.books id ≡ some s → (b : Book) × (find r.books.books s ≡ some b)
  unfolding book_for_order
  owner id s known = v.owned id s known

  routed-Routes :
      (id k : ℕ) (next : ℕ → Book → Option Replayer)
      → IsRouted k r.books
      → ((s : ℕ) (b : Book) → find r.books.books s ≡ some b → Routes k (next s b))
      → Routes k (routed r id next)
  routed-Routes id k next w h = elim (Option-cases (book_for_order r.books id)) [
    | inl unknown ↦ rw (unknown, routed) (count_unknown r, refl, w)
    | inr (s, known) ↦ let (b, there) = owner id s known in rw (known, there, routed) (h s b there)
  ]

  room : (s : ℕ) (b : Book) → find r.books.books s ≡ some b → n + 2 < u32 → resting b + 1 < u32
  room s b there few = let (_, held) = v.sound s b there in omega (arith, few, held)

  -- The book after an operation is written back.
  after-Routed :
      (s : ℕ) (b b' : Book)
      → IsSound b'
      → resting b' ≤ resting b + 1
      → find r.books.books s ≡ some b
      → IsRouted (n + 1) (put_book r.books s b') × (find (put_book r.books s b').books s ≡ some b')
  after-Routed s b b' k few there =
      let (_, held) = v.sound s b there in
      put_book-IsRouted (n + 1) r.books s b' k (omega (arith, held, few))
        (IsRouted-more n r.books v)

  taken-Routes :
      (s id asked ts : ℕ) (x : Bool) (b : Book)
      → find r.books.books s ≡ some b
      → Routes (n + 1) (elim (consume b id asked x) [
        | none ↦ none
        | some answer ↦ after_taken r s id asked ts x answer
      ])
  unfolding after_taken
  taken-Routes s id asked ts x b there =
      let (a, runs, g) = consume-Grown b (v.sound s b there).0 id asked x in
      let (o, found) = find_order-answers a.0 id g.sound in
      rw (runs, found)
        (forget_if_gone-Routes (n + 1) id ts o _ (after-Routed s b a.0 g.sound g.room there).0)

-- Before the first change a handler only stamps the time.
module _ (n : ℕ) (r : Replayer) (v : IsRouted n r.books) (few : n + 2 < u32) where
  pub on_executed-Routes : (m : OrderExecuted) → Routes (n + 1) (on_executed r m)
  unfolding on_executed
  on_executed-Routes m =
      routed-Routes n (stamp r m.timestamp) v m.reference (n + 1) _ (IsRouted-more n r.books v)
        (λ s b there.
          taken-Routes n (stamp r m.timestamp) v s m.reference m.shares m.timestamp true b there)

  pub on_cancel-Routes : (m : OrderCancel) → Routes (n + 1) (on_cancel r m)
  unfolding on_cancel
  on_cancel-Routes m =
      routed-Routes n (stamp r m.timestamp) v m.reference (n + 1) _ (IsRouted-more n r.books v)
        (λ s b there.
          taken-Routes n (stamp r m.timestamp) v s m.reference m.shares m.timestamp false b there)

  pub on_delete-Routes : (m : OrderDelete) → Routes (n + 1) (on_delete r m)
  unfolding on_delete
  on_delete-Routes m =
      routed-Routes n (stamp r m.timestamp) v m.reference (n + 1) _ (IsRouted-more n r.books v)
        (λ s b there.
          let (o, runs, g) = cancel-Grown b (v.sound s b there).0 m.reference in
          rw runs (
            _,
            refl,
            forget_order-IsRouted (n + 1) _ m.reference
                (after-Routed n (stamp r m.timestamp) v s b o.0 g.sound g.room there).0,
          ))

  pub on_add-Routes : (m : AddOrder) → m.shares < u32 → Routes (n + 1) (on_add r m)
  unfolding on_add
  on_add-Routes m small =
      let s = bits m.symbol in
      let (w, (b, there)) = with_book-IsRouted n r.books s v in
      let (k, held) = w.sound s b there in
      let g =
        insert_passive-Grown b m.reference m.side m.price m.shares small (omega (arith, few, held))
          k in
      let o = insert_passive b m.reference m.side m.price m.shares in
      let (put, stays) =
        put_book-IsRouted (n + 1) (with_book r.books s) s o.0 g.sound (omega (arith, held, g.room))
          (IsRouted-more n (with_book r.books s) w) in
      if_inv (Routes (n + 1)) (tracked (stamp r m.timestamp) m.symbol) _ _
        (rw there (
          _,
          refl,
          on_ok_inv (λ (x : Replayer). IsRouted (n + 1) x.books) o.1 _ _
              (λ _.
                note_order-IsRouted (n + 1) (put_book (with_book r.books s) s o.0) m.reference s o.0
                  stays put)
              (λ _. IsRouted-more n (with_book r.books s) w),
        ))
        (_, refl, IsRouted-more n r.books v)

  -- The replacement rests in a sound book, from which the old order has gone.
  replace_in-IsRouted :
      (m : OrderReplace) (s : ℕ) (o : Order) (b : Book)
      → m.shares < u32
      → IsSound b
      → resting b ≤ n
      → IsRouted (n + 1) (replace_in (stamp r m.timestamp) m s o b).books
  unfolding replace_in
  replace_in-IsRouted m s o b small k held =
      let (put, _) = put_book-IsRouted n r.books s b k held v in
      let gone = forget_order-IsRouted n (put_book r.books s b) m.original_reference put in
      let books = forget_order (put_book r.books s b) m.original_reference in
      let g =
        insert_passive-Grown b m.new_reference o.side m.price m.shares small
          (omega (arith, few, held)) k in
      let a = insert_passive b m.new_reference o.side m.price m.shares in
      let (again, stays) =
        put_book-IsRouted (n + 1) books s a.0 g.sound (omega (arith, held, g.room))
          (IsRouted-more n books gone) in
      on_ok_inv (λ (x : Replayer). IsRouted (n + 1) x.books) a.1 _ _
        (λ _. note_order-IsRouted (n + 1) (put_book books s a.0) m.new_reference s a.0 stays again)
        (λ _. IsRouted-more n books gone)

  pub on_replace-Routes : (m : OrderReplace) → m.shares < u32 → Routes (n + 1) (on_replace r m)
  unfolding on_replace
  on_replace-Routes m small =
      routed-Routes n (stamp r m.timestamp) v m.original_reference (n + 1) _
        (IsRouted-more n r.books v)
        (λ s b there.
          let (k, held) = v.sound s b there in
          let (o, found) = find_order-answers b m.original_reference k in
          elim (Option-cases o) [
            | inl absent ↦ rw (found, absent) (_, refl, IsRouted-more n r.books v)
            | inr (original, present) ↦
                let (c, runs, (sound, fewer)) = cancel-shrinks b m.original_reference k in
                rw (found, present, runs)
                  (
                    _,
                    refl,
                    replace_in-IsRouted m s original c.0 small sound (omega (arith, held, fewer)),
                  )
          ])

get_or-byte : (p : List ℕ) (i : ℕ) → All (λ x. x < 256) p → get_or p i 0 < 256
get_or-byte [] i h = omega arith
get_or-byte (x ∷ p) zero h = h.0
get_or-byte (x ∷ p) (suc i) h = get_or-byte p i h.1

be32-u32 : (p : List ℕ) (i : ℕ) → All (λ x. x < 256) p → be32 p i < u32
be32-u32 p i h = omega (
  arith,
  get_or-byte p i h,
  get_or-byte p (i + 1) h,
  get_or-byte p (i + 2) h,
  get_or-byte p (i + 3) h,
)

-- The quantities of decoded messages are uint32.
shares-u32 :
    (p : List ℕ)
    → All (λ x. x < 256) p
    → ((decode_add_order p).shares < u32) × ((decode_order_replace p).shares < u32)
unfolding decode_add_order decode_order_replace
shares-u32 p h = (be32-u32 p 20 h, be32-u32 p 27 h)

-- A message of bytes, whatever they say, is applied.
pub apply-Routes :
    (n : ℕ) (r : Replayer) (msg : List ℕ) (len : ℕ)
    → IsRouted n r.books
    → n + 2 < u32
    → All (λ x. x < 256) msg
    → Routes (n + 1) (apply r msg len)
unfolding apply
apply-Routes n r msg len v few bytes =
    let (adds, replaces) = shares-u32 msg bytes in
    let counted : Replayer = record r {
      stats = record (r.stats) {
        messages = add_u64 r.stats.messages 1;
        bytes = add_u64 r.stats.bytes len;
      };
    } in
    let type : ℕ = get_or msg 0 0 in
    let ev = decode_system_event msg in
    let keep : (x : Replayer) → IsRouted (n + 1) x.books → Routes (n + 1) (some x) =
      λ x w. (x, refl, w) in
    let same = IsRouted-more n r.books v in
    if_inv (Routes (n + 1)) (type == b'A' || type == b'F') _ _
      (on_add-Routes n counted v few (decode_add_order msg) adds)
      (if_inv (Routes (n + 1)) (type == b'E' || type == b'C') _ _
        (on_executed-Routes n counted v few (decode_order_executed msg))
        (if_inv (Routes (n + 1)) (type == b'X') _ _
          (on_cancel-Routes n counted v few (decode_order_cancel msg))
          (if_inv (Routes (n + 1)) (type == b'D') _ _
            (on_delete-Routes n counted v few (decode_order_delete msg))
            (if_inv (Routes (n + 1)) (type == b'U') _ _
              (on_replace-Routes n counted v few (decode_order_replace msg) replaces)
              (if_inv (Routes (n + 1)) (type == b'P') _ _
                (keep
                  (record counted {
                    stats = record (counted.stats) {
                      trades = add_u64 counted.stats.trades 1;
                      last_timestamp = be48 msg 5;
                    };
                  })
                  same)
                (if_inv (Routes (n + 1)) (type == b'S') _ _
                  (keep
                    (record counted {
                      stats = record (counted.stats) {
                        session_state = ev.event;
                        last_timestamp = ev.timestamp;
                      };
                    })
                    same)
                  (keep counted same)))))))

-- Whatever bytes the messages consist of, a replayer whose books are sound with at most `n`
-- orders each, and whose owners all have books, applies them all, as long as `n`, their number
-- and one are together below 2 ^ 32; the books are sound after it, and every owner has a book.
pub replay-Routes :
    (n : ℕ) (r : Replayer) (msgs : List (List ℕ))
    → IsRouted n r.books
    → n + length msgs + 1 < u32
    → All (All (λ x. x < 256)) msgs
    → Routes (n + length msgs) (replay msgs r)
unfolding replay
replay-Routes n r [] v few bytes = (r, refl, subst (λ k. IsRouted k r.books) (omega arith) v)
replay-Routes n r (msg ∷ msgs) v few bytes =
    let (r', runs, w) = apply-Routes n r msg (length msg) v (omega (arith, few)) bytes.0 in
    let (r'', rest, x) = replay-Routes (n + 1) r' msgs w (omega (arith, few)) bytes.1 in
    (
      r'',
      ap (λ o. then_apply o (replay msgs)) runs ∙ rest,
      subst (λ k. IsRouted k r''.books) (omega arith) x,
    )
