-- ===== src/MultiBook.antt =====
-- include/pricetime/multi_book.hpp: the books of all symbols and the index from order ids to them.
-- A pointer to a book is its symbol's image, since books are neither moved nor removed.
use pricetime.Common.{ℕ, [], Option, length}
use pricetime.IdMap.{StdIdMap, find, insert, erase}
use pricetime.Book.{Book, empty_book}

pub record MultiBook : Type 0 where
  pub books : StdIdMap Book
  pub owner : StdIdMap ℕ

abbrev pub no_books : MultiBook
no_books = record { books = []; owner = [] }

-- `book`: the books with one for the symbol, which is created on first sight.
unfoldable pub with_book : MultiBook → ℕ → MultiBook
with_book m s = record m { books = (insert m.books s empty_book).0 }

-- Writes through the reference to a book that is there.
unfoldable pub put_book : MultiBook → ℕ → Book → MultiBook
put_book m s b = record m { books = (insert (erase m.books s) s b).0 }

-- The owner of an order, with its book.
unfoldable pub book_for_order : MultiBook → ℕ → Option ℕ
book_for_order m id = find m.owner id

unfoldable pub note_order : MultiBook → ℕ → ℕ → MultiBook
note_order m id s = record m { owner = (insert m.owner id s).0 }

unfoldable pub forget_order : MultiBook → ℕ → MultiBook
forget_order m id = record m { owner = erase m.owner id }

abbrev pub tracked_orders : MultiBook → ℕ
tracked_orders m = length m.owner

abbrev pub symbol_count : MultiBook → ℕ
symbol_count m = length m.books
