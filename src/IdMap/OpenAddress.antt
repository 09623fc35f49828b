-- ===== src/IdMap/OpenAddress.antt =====
-- include/pricetime/id_map.hpp, `OpenAddressMap`: linear probing with backward-shift deletion. The
-- capacity is a power of two, so `& mask_` is the remainder by it. Each probe loop has fuel, which
-- one turn round the table exhausts; `none` means that the source's loop would not end.
use Prim.Native.Nat.{bit_xor}
use pricetime.Common.{
  ℕ, zero, suc, ◌+◌, ◌-◌, ◌*◌, ◌/◌, ◌%◌, ◌^◌, List, [], ◌∷◌, Bool, true, false, Option, none, some,
  ltb, leb, ◌==◌, if◌then◌else◌, length, get_or, set, replicate, u64,
}

pub record Slot (V : Type 0) : Type 0 where
  pub key : ℕ
  pub value : Option V

abbrev pub empty_slot : {V : Type 0} → Slot V
empty_slot = record { key = 0; value = none }

pub record OpenAddressMap (V : Type 0) : Type 0 where
  pub slots : List (Slot V)
  pub size : ℕ

abbrev pub initial_capacity : ℕ
initial_capacity = 1024

-- splitmix64's finalizer.
unfoldable pub hash : ℕ → ℕ
hash id =
    let z0 = (id + 0x9E3779B97F4A7C15) % u64 in
    let z1 = bit_xor z0 (z0 / 2 ^ 30) * 0xBF58476D1CE4E5B9 % u64 in
    let z2 = bit_xor z1 (z1 / 2 ^ 27) * 0x94D049BB133111EB % u64 in bit_xor z2 (z2 / 2 ^ 31)

-- The capacity that `reserve` asks for.
unfoldable pub want_loop : ℕ → ℕ → ℕ → Option ℕ
want_loop zero want n = none
want_loop (suc fuel) want n =
    let more = want_loop fuel (want * 2) n in if ltb (want * 7) (n * 10) then more else some want

module _ {V : Type 0} where
  abbrev pub slot_at : List (Slot V) → ℕ → Slot V
  slot_at slots i = get_or slots i empty_slot

  abbrev pub home : List (Slot V) → ℕ → ℕ
  home slots id = hash id % length slots

  abbrev pub next : List (Slot V) → ℕ → ℕ
  next slots i = (i + 1) % length slots

  -- The slot where a probe for `id` ends: its own, or the first empty one.
  unfoldable pub probe : ℕ → List (Slot V) → ℕ → ℕ → Option ℕ
  probe zero slots id i = none
  probe (suc fuel) slots id i =
      let further = probe fuel slots id (next slots i) in
      let key = (slot_at slots i).key in
      if key == id then some i else if key == 0 then some i else further

  unfoldable pub find : OpenAddressMap V → ℕ → Option (Option V)
  unfolding probe
  find m id = elim (probe (length m.slots) m.slots id (home m.slots id)) [
    | none ↦ none
    | some i ↦ let s = slot_at m.slots i in some (if s.key == id then s.value else none)
  ]

  -- The first empty slot, for an entry that a rehash moves.
  unfoldable pub probe_empty : ℕ → List (Slot V) → ℕ → Option ℕ
  probe_empty zero slots i = none
  probe_empty (suc fuel) slots i =
      let further = probe_empty fuel slots (next slots i) in
      if (slot_at slots i).key == 0 then some i else further

  unfoldable pub move_all : List (Slot V) → List (Slot V) → Option (List (Slot V))
  unfolding probe_empty
  move_all [] fresh = some fresh
  move_all (s ∷ old) fresh =
      let target = probe_empty (length fresh) fresh (home fresh s.key) in
      let i : ℕ = elim target [ none ↦ 0 | some j ↦ j ] in
      let rest = move_all old (if s.key == 0 then fresh else set fresh i s) in
      if s.key == 0 then rest else elim target [ none ↦ none | some j ↦ rest ]

  unfoldable pub rehash : OpenAddressMap V → ℕ → Option (OpenAddressMap V)
  unfolding move_all
  rehash m new_cap = elim (move_all m.slots (replicate new_cap empty_slot)) [
    | none ↦ none
    | some slots ↦ some (record m { slots = slots })
  ]

  unfoldable pub new_map : OpenAddressMap V
  new_map = record { slots = replicate initial_capacity empty_slot; size = 0 }

  -- Writes the entry where the probe has ended.
  abbrev insert_at : OpenAddressMap V → ℕ → V → ℕ → OpenAddressMap V × Bool
  insert_at m id v i =
      if (slot_at m.slots i).key == 0
      then (
        record { slots = set m.slots i (record { key = id; value = some v }); size = m.size + 1 },
        true,
      )
      else (m, false)

  -- The table that `insert` probes: doubled if the load would pass 70%.
  abbrev grown : OpenAddressMap V → Option (OpenAddressMap V)
  grown m =
      if leb (length m.slots * 7) ((m.size + 1) * 10) then rehash m (length m.slots * 2) else some m

  unfoldable pub insert : OpenAddressMap V → ℕ → V → Option (OpenAddressMap V × Bool)
  unfolding rehash probe
  insert m id v = elim (grown m) [
    | none ↦ none
    | some g ↦ elim (probe (length g.slots) g.slots id (home g.slots id)) [
      | none ↦ none
      | some i ↦ some (insert_at g id v i)
    ]
  ]

  -- `(a - b) & mask_`
  abbrev pub offset : List (Slot V) → ℕ → ℕ → ℕ
  offset slots a b = (a + length slots - b) % length slots

  -- Algorithm R from a hole at `i`, which is clear, with the scan at `j`: an entry that stays
  -- reachable moves back into the hole and leaves one of its own.
  unfoldable pub shift : ℕ → List (Slot V) → ℕ → ℕ → Option (List (Slot V))
  shift zero slots i j = none
  shift (suc fuel) slots i j =
      let j' = next slots j in
      let s = slot_at slots j' in
      let k = home slots s.key in
      let moves = leb (offset slots i k) (offset slots j' k) in
      let rest =
        shift fuel (if moves then set (set slots i s) j' empty_slot else slots)
          (if moves then j' else i) j' in
      if s.key == 0 then some slots else rest

  unfoldable pub erase_at : OpenAddressMap V → ℕ → Option (OpenAddressMap V)
  unfolding shift
  erase_at m i = elim (shift (length m.slots) (set m.slots i empty_slot) i i) [
    | none ↦ none
    | some slots ↦ some (record { slots = slots; size = m.size - 1 })
  ]

  unfoldable pub erase : OpenAddressMap V → ℕ → Option (OpenAddressMap V × Bool)
  unfolding erase_at probe
  erase m id = elim (probe (length m.slots) m.slots id (home m.slots id)) [
    | none ↦ none
    | some i ↦
        if (slot_at m.slots i).key == id
        then elim (erase_at m i) [ none ↦ none | some m' ↦ some (m', true) ]
        else some (m, false)
  ]

  unfoldable pub reserve : OpenAddressMap V → ℕ → Option (OpenAddressMap V)
  unfolding want_loop rehash
  reserve m n = elim (want_loop (n * 10 + 1) initial_capacity n) [
    | none ↦ none
    | some want ↦ if ltb (length m.slots) want then rehash m want else some m
  ]
