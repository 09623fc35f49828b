-- ===== src/Cli.antt =====
-- src/tools/cli.hpp: the helpers of the command-line tools. Text is a list of bytes; the decimal digits
-- of `std::to_string` are an argument, and the terminating zero is the end of the list or a zero.
use pricetime.Common.{
  ℕ, zero, suc, ◌-◌, ◌≡◌, ap, sym, ◌∙◌, List, [], ◌∷◌, ◌++◌, append_assoc, append-nil, true, false,
  ◌==◌, if◌then◌else◌, All, length,
}
use pricetime.Symbol.{Symbol, from_text}

abbrev comma : ℕ
comma = b','

unfoldable insert_text : ℕ → ℕ → List ℕ → List ℕ
insert_text zero c s = c ∷ s
insert_text (suc i) c [] = c ∷ []
insert_text (suc i) c (x ∷ s) = x ∷ insert_text i c s

-- The loop from position `i` down by threes while it is positive. The fuel is the position.
unfoldable insert_commas : ℕ → ℕ → List ℕ → List ℕ
unfolding insert_text
insert_commas zero i s = s
insert_commas (suc fuel) i s =
    let next = insert_commas fuel (i - 3) (insert_text i comma s) in if i == 0 then s else next

-- `commas` of the digits of a number.
unfoldable pub commas : List ℕ → List ℕ
unfolding insert_commas
commas s = insert_commas (length s) (length s - 3) s

-- An entry that is not empty is a symbol.
abbrev flush : List ℕ → List Symbol → List Symbol
flush [] out = out
flush (c ∷ cur) out = from_text (c ∷ cur) ∷ out

-- The loop over the characters, with the entry read so far.
unfoldable parse_from : List ℕ → List ℕ → List Symbol
parse_from cur [] = flush cur []
parse_from cur (c ∷ csv) = elim (c == comma) [
  | true ↦ flush cur (parse_from [] csv)
  | false ↦ elim (c == 0) [ true ↦ flush cur [] | false ↦ parse_from (cur ++ c ∷ []) csv ]
]

unfoldable pub parse_symbols : List ℕ → List Symbol
unfolding parse_from
parse_symbols csv = parse_from [] csv

-- A character of an entry.
abbrev pub IsPlain : ℕ → Type 0
IsPlain c = ((c == b',') ≡ false) × ((c == 0) ≡ false)

-- Entries with commas between them.
unfoldable pub joined : List ℕ → List (List ℕ) → List ℕ
joined name [] = name
joined name (next ∷ names) = name ++ b',' ∷ joined next names

-- The symbols of the entries that are not empty.
unfoldable pub entered : List ℕ → List (List ℕ) → List Symbol
entered name [] = flush name []
entered name (next ∷ names) = flush name (entered next names)

parse_last : (cur name : List ℕ) → All IsPlain name → parse_from cur name ≡ flush (cur ++ name) []
unfolding parse_from
parse_last cur [] h = ap (λ n. flush n []) (sym (append-nil cur))
parse_last cur (c ∷ name) h =
    rw (h.0.0, h.0.1, parse_from)
      (parse_last (cur ++ c ∷ []) name h.1 ∙ ap (λ n. flush n []) (append_assoc cur (c ∷ []) name))

parse_entry :
    (cur name csv : List ℕ)
    → All IsPlain name
    → parse_from cur (name ++ b',' ∷ csv) ≡ flush (cur ++ name) (parse_from [] csv)
unfolding parse_from
parse_entry cur [] csv h = ap (λ n. flush n (parse_from [] csv)) (sym (append-nil cur))
parse_entry cur (c ∷ name) csv h =
    rw (h.0.0, h.0.1, parse_from)
      (parse_entry (cur ++ c ∷ []) name csv h.1
        ∙ ap (λ n. flush n (parse_from [] csv)) (append_assoc cur (c ∷ []) name))

-- A list of entries without commas and zeros, written with commas between them, is parsed to the
-- symbols of its entries in their order, the empty ones skipped.
pub parse_symbols-joined :
    (name : List ℕ) (names : List (List ℕ))
    → All IsPlain name
    → All (All IsPlain) names
    → parse_symbols (joined name names) ≡ entered name names
unfolding parse_symbols joined entered
parse_symbols-joined name [] h k = parse_last [] name h
parse_symbols-joined name (next ∷ names) h k =
    parse_entry [] name (joined next names) h
    ∙ ap (flush name) (parse_symbols-joined next names k.0 k.1)
