-- ===== src/Tests/Rebuilds.antt =====
-- The feed that the engine publishes, and the replayer that reads it, at a short history.
use pricetime.Common.{
  ℕ, ◌+◌, ◌≡◌, refl, List, [], ◌∷◌, ◌++◌, some, true, inl, pos, arith, length, false, ◌==◌,
  if◌then◌else◌,
}
use pricetime.IdMap.{find, insert, erase}
use pricetime.Types.{bid, ask, ok}
use pricetime.Symbol.{from_text, bits}
use pricetime.Book.{
  Book, empty_book, add_limit, add_limit_as, validate, enter_limit, match_book, rest, count_added,
}
use pricetime.Book.Same.{SameOrders, SameOrders-refl}
use pricetime.Itch.Writer.{add_order, order_executed}
use pricetime.LadderMap.{rest_in, get_or_create, level_at, put_level}
use pricetime.Level.{push_back}
use pricetime.Matching.{match_levels, match_level, own, trade, crosses}
use pricetime.MultiBook.{no_books, with_book}
use pricetime.Wire.{Request}
use pricetime.Wire
use pricetime.Engine.{
  Engine, handle_enter, side_of_byte, respond, report_fills, report_fill, md_push,
}
use pricetime.Engine.Feed.{Fits}
use pricetime.Engine.Integrity.{Serves, first, further, IsFresh, handle-enter, Reads, Serves-Reads}
use pricetime.Engine.Rebuild.{payloads, replay-Serves}
use pricetime.Replay.{Replayer, ReplayStats, Event, on_added, on_removed, replay}
use pricetime.Replay.Books.{no_books-IsRouted}
use pricetime.Replay.Total.{Routes, replay-Routes}
use pricetime.Book.History
use pricetime.Book.History.{Reach, next, limit, Reach-IsSound}
use pricetime.Book.Sound.{IsSound}
use pricetime.Book.Messages.{take_all, execution_messages, added_message, enter_limit-Same}
use pricetime.Engine.Drain.{
  Drain, Drains, start, pushes, finishes, polls, new_drain, poll, poll_at, push, finish, Empties,
  Accounts, stopped,
}
use pricetime.Engine.Drain.Losing.{Drains-loses}
use pricetime.Engine.Datagrams.{new_thread, md_loop, receive, receive-md_loop}
use pricetime.Mold.Blocks.{numbered}
use pricetime.StatsObserver.{
  StatsObserver, new_observer, observe_all, value_or, replace_seen, count_add,
}
use pricetime.StatsObserver.Lifetimes.{IsTallied, observed-IsTallied}
use pricetime.StatsObserver.Replaces.{counters_at, replace_seen-counters}
use pricetime.Cli
use pricetime.Cli.{parse_symbols, joined, parse_symbols-joined}

abbrev fresh_engine : Engine
fresh_engine = record {
  book = empty_book;
  match_number = 0;
  responses = 0;
  executions = 0;
  q_out = [];
  q_md = [];
  md_enabled = true;
  symbol = from_text (b'A' ∷ []);
}

abbrev enter_bid : Request
enter_bid = record {
  kind = Wire.enter;
  side = 0;
  qty = 100;
  price = pos 12;
  id = 4;
  new_id = 0;
  client_ts = 99;
}

abbrev enter_ask : Request
enter_ask = record {
  kind = Wire.enter;
  side = 1;
  qty = 30;
  price = pos 11;
  id = 5;
  new_id = 0;
  client_ts = 100;
}

abbrev entered : Engine → ℕ → Request → Engine
entered e ts req =
    handle_enter e ts req (add_limit e.book req.id (side_of_byte req.side) req.price req.qty)

abbrev bid_rests : Engine
bid_rests = entered fresh_engine 7 enter_bid

abbrev bid_hit : Engine
bid_hit = entered bid_rests 9 enter_ask

is_fresh : IsFresh fresh_engine
is_fresh = record { enabled = refl; numbered = omega arith; quiet = refl }

bid-Fits : Fits 7 enter_bid
bid-Fits = record {
  stamped = omega arith;
  id = omega arith;
  new_id = omega arith;
  qty = omega arith;
  cents = 12;
  price = refl;
  priced = omega arith;
}

ask-Fits : Fits 9 enter_ask
ask-Fits = record {
  stamped = omega arith;
  id = omega arith;
  new_id = omega arith;
  qty = omega arith;
  cents = 11;
  price = refl;
  priced = omega arith;
}

two_served : Serves fresh_engine 2 bid_hit
two_served =
    further 9 enter_ask
      (further 7 enter_bid first bid-Fits (inl refl) (handle-enter fresh_engine 7 enter_bid refl))
      ask-Fits (inl refl) (handle-enter bid_rests 9 enter_ask refl)

two_published : length bid_hit.q_md ≡ 2
unfolding handle_enter respond report_fills report_fill md_push add_limit_as validate enter_limit
    match_book match_levels match_level own trade rest rest_in get_or_create level_at put_level
    push_back find insert erase add_order order_executed from_text
two_published = refl

Serves-Reads_example : Reads fresh_engine.symbol bid_hit
Serves-Reads_example = Serves-Reads is_fresh two_served (omega arith)

abbrev no_stats : ReplayStats
no_stats = record {
  messages = 0;
  bytes = 0;
  adds = 0;
  executions = 0;
  cancels = 0;
  deletes = 0;
  replaces = 0;
  trades = 0;
  skipped_symbol = 0;
  unknown_reference = 0;
  clamped = 0;
  shares_added = 0;
  shares_executed = 0;
  last_timestamp = 0;
  session_state = 0;
}

abbrev new_replayer : Replayer
new_replayer = record { books = no_books; filter = []; stats = no_stats; events = [] }

replay-Serves_example :
    (r : Replayer) × (b : Book) × (replay (payloads bid_hit.q_md) new_replayer ≡ some r)
    × (find (with_book r.books (bits fresh_engine.symbol)).books (bits fresh_engine.symbol)
        ≡ some b)
    × SameOrders b bid_hit.book
replay-Serves_example =
    replay-Serves new_replayer is_fresh two_served (omega arith) (omega (arith, two_published))
      (record { books = refl; all = refl })

-- A delete of an order that nobody knows, and one byte.
abbrev two_messages : List (List ℕ)
two_messages = (b'D' ∷ 0 ∷ 1 ∷ 0 ∷ 0 ∷ 7 ∷ []) ∷ (b'U' ∷ []) ∷ []

replay-Routes_example : Routes 2 (replay two_messages new_replayer)
replay-Routes_example = replay-Routes 0 new_replayer two_messages no_books-IsRouted (omega arith) (
  (omega arith, (omega arith, (omega arith, (omega arith, (omega arith, (omega arith, tt)))))),
  ((omega arith, tt), tt),
)

-- A bid, and an ask that it meets.
abbrev one_bid : Book
one_bid = (add_limit empty_book 1 bid (pos 10) 100).0

one_bid-IsSound : IsSound one_bid
one_bid-IsSound =
    (Reach-IsSound {feed = false} (next History.start (limit 0 1 bid (pos 10) 100 (omega arith)))
      (omega arith)).0

ask_valid : validate one_bid 2 40 ≡ ok
unfolding add_limit_as validate enter_limit match_book match_levels match_level rest rest_in
    get_or_create level_at put_level push_back find insert
ask_valid = refl

enter_limit-Same_example :
    let r = match_book (count_added one_bid 40) 2 0 ask (crosses ask (pos 9)) 40 in
    (m : Book) × (take_all (execution_messages r.2 ++ added_message 2 ask (pos 9) r.1) one_bid
      ≡ some m)
    × SameOrders m (enter_limit one_bid 0 2 ask (pos 9) 40).0
enter_limit-Same_example =
    enter_limit-Same one_bid one_bid 2 ask (pos 9) 40 one_bid-IsSound.book one_bid-IsSound.index
      ask_valid (SameOrders-refl one_bid)

-- A sampled order and its removal, with an order between them that is not sampled.
abbrev three_events : List Event
three_events =
    on_added 64 (from_text (b'A' ∷ [])) bid (pos 10) 100 5000
    ∷ on_added 65 (from_text (b'A' ∷ [])) bid (pos 10) 100 5001
    ∷ on_removed 64 6000
    ∷ []

observed-IsTallied_example : IsTallied (observe_all new_observer three_events) 3
observed-IsTallied_example =
    observed-IsTallied three_events (omega arith) (omega arith, (omega arith, (omega arith, tt)))

abbrev one_owner : StatsObserver
one_owner = record new_observer { owner = (64, 7) ∷ [] }

replace_seen-counters_example :
    let owner = value_or (find one_owner.owner 64) 0 in
    counters_at (replace_seen one_owner 64 66 100 9000) 7 ≡ (
      if owner == 0
      then counters_at one_owner 7
      else if owner == 7
      then count_add (counters_at one_owner 7)
      else counters_at one_owner 7)
replace_seen-counters_example = replace_seen-counters one_owner 64 66 100 9000 7

-- "A,,B"
parse_symbols-joined_example :
    parse_symbols (joined (b'A' ∷ []) ([] ∷ (b'B' ∷ []) ∷ []))
    ≡ Cli.entered (b'A' ∷ []) ([] ∷ (b'B' ∷ []) ∷ [])
parse_symbols-joined_example =
    parse_symbols-joined (b'A' ∷ []) ([] ∷ (b'B' ∷ []) ∷ []) ((refl, refl), tt)
      (tt, (((refl, refl), tt), tt))

-- Two pushes, of which the thread handles the first before the flag is set.
abbrev pushed_twice : Drain ℕ
pushed_twice = poll (finish (push 6 (poll (push 5 new_drain))))

Drains-loses_example :
    Accounts pushed_twice.lost pushed_twice.handled pushed_twice.queue pushed_twice.sent
    × Empties pushed_twice.place pushed_twice.done pushed_twice.queue
    × ((d : Drain ℕ) × Drains d × (d.place ≡ stopped) × (d.sent ≡ 9 ∷ []) × (d.handled ≡ []))
unfolding poll poll_at push finish
Drains-loses_example =
    Drains-loses 9 (polls (finishes (pushes 6 (polls (pushes 5 start refl)) refl)))

-- Two framed messages of one byte, and a socket that fails.
abbrev two_framed : List (List ℕ)
two_framed = (0 ∷ 1 ∷ b'A' ∷ []) ∷ (0 ∷ 1 ∷ b'D' ∷ []) ∷ []

receive-md_loop_example :
    let t = md_loop (λ pkt. false) true two_framed new_thread in
    (receive t.packets ≡ (numbered 1 (payloads two_framed), true)) × (t.seq ≡ 1 + length two_framed)
receive-md_loop_example =
    receive-md_loop (λ pkt. false) two_framed (omega arith)
      ((omega arith, omega arith), ((omega arith, omega arith), tt))
