-- ===== src/StatsObserver.antt =====
-- src/tools/book_stats.cpp: the observer that collects the statistics of a replay. Its calls are the
-- events of the replayer; the maps are association lists, and `[]` creates a zero.
pub mod Lifetimes
pub mod Replaces
use pricetime.Common.{
  ℕ, ◌-◌, ◌%◌, List, [], ◌∷◌, ◌++◌, Bool, true, false, Option, none, some, ltb, ◌==◌, if◌then◌else◌,
  add_u64,
}
use pricetime.Symbol.{bits}
use pricetime.IdMap.{StdIdMap, find, insert, erase}
use pricetime.Replay.{Event, on_added, on_replaced, on_reduced, on_removed}

pub record SymbolCounters : Type 0 where
  pub adds : ℕ
  pub removes : ℕ
  pub executions : ℕ

abbrev pub no_counters : SymbolCounters
no_counters = record { adds = 0; removes = 0; executions = 0 }

-- `lifetime_hist_` has one bucket for each bound of `kLifetime`.
pub record StatsObserver : Type 0 where
  pub symbols : StdIdMap SymbolCounters
  pub size_hist : StdIdMap ℕ
  pub birth : StdIdMap ℕ
  pub owner : StdIdMap ℕ
  pub lifetimes : List ℕ
  pub lifetime_hist : List ℕ
  pub lifetime_total : ℕ
  pub lifetime_n : ℕ
  pub adds : ℕ
  pub removes : ℕ
  pub executions : ℕ
  pub replaces : ℕ
  pub total_added_shares : ℕ
  pub executed_shares : ℕ

-- The upper bounds of the buckets in nanoseconds, the last of which is `~0ull`.
abbrev pub upper_ns : List ℕ
upper_ns =
    1000 ∷ 10000 ∷ 100000 ∷ 1000000 ∷ 10000000 ∷ 100000000 ∷ 1000000000 ∷ 10000000000 ∷ 60000000000
    ∷ 600000000000 ∷ 0xffffffffffffffff ∷ []

abbrev pub lifetime_sample : ℕ
lifetime_sample = 64

abbrev pub new_observer : StatsObserver
new_observer = record {
  symbols = [];
  size_hist = [];
  birth = [];
  owner = [];
  lifetimes = [];
  lifetime_hist = 0 ∷ 0 ∷ 0 ∷ 0 ∷ 0 ∷ 0 ∷ 0 ∷ 0 ∷ 0 ∷ 0 ∷ 0 ∷ [];
  lifetime_total = 0;
  lifetime_n = 0;
  adds = 0;
  removes = 0;
  executions = 0;
  replaces = 0;
  total_added_shares = 0;
  executed_shares = 0;
}

-- `m[k] = v`
unfoldable pub assign : {V : Type 0} → StdIdMap V → ℕ → V → StdIdMap V
assign m k v = (insert (erase m k) k v).0

abbrev pub value_or : {V : Type 0} → Option V → V → V
value_or none d = d
value_or (some v) d = v

abbrev pub count_add : SymbolCounters → SymbolCounters
count_add c = record c { adds = add_u64 c.adds 1 }

abbrev count_remove : SymbolCounters → SymbolCounters
count_remove c = record c { removes = add_u64 c.removes 1 }

abbrev count_execution : SymbolCounters → SymbolCounters
count_execution c = record c { executions = add_u64 c.executions 1 }

-- `++sym_[bits]` for one of its counters.
unfoldable pub at_symbol : StatsObserver → ℕ → (SymbolCounters → SymbolCounters) → StatsObserver
at_symbol o s f = record o {
  symbols = assign o.symbols s (f (value_or (find o.symbols s) no_counters));
}

-- What is done for an entry that `find` may give.
abbrev pub if_found : Option ℕ → StatsObserver → (ℕ → StatsObserver) → StatsObserver
if_found none absent found = absent
if_found (some x) absent found = found x

-- What an add and a replace count alike.
unfoldable pub count_new : StatsObserver → ℕ → ℕ → ℕ → StatsObserver
count_new o id qty ts = record o {
  size_hist = assign o.size_hist qty (add_u64 (value_or (find o.size_hist qty) 0) 1);
  total_added_shares = add_u64 o.total_added_shares qty;
  adds = add_u64 o.adds 1;
  birth = if id % lifetime_sample == 0 then assign o.birth id ts else o.birth;
}

unfoldable pub add_seen : StatsObserver → ℕ → ℕ → ℕ → ℕ → StatsObserver
unfolding at_symbol count_new
add_seen o id s qty ts =
    let o1 = count_new (at_symbol o s count_add) id qty ts in
    record o1 { owner = assign o1.owner id s }

-- The new reference is attributed to the symbol of the old one, whose entries stay.
unfoldable pub replace_seen : StatsObserver → ℕ → ℕ → ℕ → ℕ → StatsObserver
unfolding at_symbol count_new
replace_seen o old_id new_id qty ts =
    let s = value_or (find o.owner old_id) 0 in
    let o1 = at_symbol o s count_add in
    let o2 = if s == 0 then o else record o1 { owner = assign o1.owner new_id s } in
    let o3 = count_new o2 new_id qty ts in record o3 { replaces = add_u64 o3.replaces 1 }

unfoldable pub reduce_seen : StatsObserver → ℕ → ℕ → Bool → StatsObserver
unfolding at_symbol
reduce_seen o id qty false = o
reduce_seen o id qty true =
    let o1 = if_found (find o.owner id) o (λ s. at_symbol o s count_execution) in
    record o1 {
      executed_shares = add_u64 o1.executed_shares qty;
      executions = add_u64 o1.executions 1;
    }

-- The first bucket whose bound is above the lifetime.
unfoldable pub bump : ℕ → List ℕ → List ℕ → List ℕ
bump life [] hist = hist
bump life (u ∷ us) [] = []
bump life (u ∷ us) (h ∷ hist) = if ltb life u then add_u64 h 1 ∷ hist else h ∷ bump life us hist

unfoldable pub record_lifetime : StatsObserver → ℕ → StatsObserver
record_lifetime o life = record o {
  lifetime_total = add_u64 o.lifetime_total life;
  lifetime_n = add_u64 o.lifetime_n 1;
  lifetimes = o.lifetimes ++ life ∷ [];
  lifetime_hist = bump life upper_ns o.lifetime_hist;
}

-- A timestamp before the birth is dropped, and the birth is erased in any case.
unfoldable pub count_removal : StatsObserver → ℕ → StatsObserver
unfolding at_symbol
count_removal o id =
    let o1 =
      if_found (find o.owner id) o
        (λ s. (let c = at_symbol o s count_remove in record c { owner = erase c.owner id })) in
    record o1 { removes = add_u64 o1.removes 1 }

unfoldable pub remove_seen : StatsObserver → ℕ → ℕ → StatsObserver
unfolding count_removal record_lifetime
remove_seen o id ts =
    let o1 = count_removal o id in
    if_found (find o1.birth id) o1 (λ born.
      (let o2 = if ltb ts born then o1 else record_lifetime o1 (ts - born) in
        record o2 { birth = erase o2.birth id }))

-- The observer's method for a call of the replayer.
unfoldable pub observe_event : StatsObserver → Event → StatsObserver
unfolding add_seen replace_seen reduce_seen remove_seen
observe_event o (on_added id symbol side price qty ts) = add_seen o id (bits symbol) qty ts
observe_event o (on_replaced old_id new_id price qty ts) = replace_seen o old_id new_id qty ts
observe_event o (on_reduced id qty executed ts) = reduce_seen o id qty executed
observe_event o (on_removed id ts) = remove_seen o id ts

unfoldable pub observe_all : StatsObserver → List Event → StatsObserver
unfolding observe_event
observe_all o [] = o
observe_all o (e ∷ es) = observe_all (observe_event o e) es
