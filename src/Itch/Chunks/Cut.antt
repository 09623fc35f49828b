-- ===== src/Itch/Chunks/Cut.antt =====
-- Where `for_each_framed_message` of include/pricetime/itch_reader.hpp stops, and more bytes behind it.
use pricetime.Common.{
  ℕ, ◌+◌, ◌-◌, ◌≤◌, ◌<◌, ◌≡◌, ◌⊎◌, refl, List, [], ◌∷◌, ◌++◌, Bool-cases, inl, inr, ltb, ◌==◌,
  length, arith, length-append,
}
use pricetime.Itch.{be16}
use pricetime.Itch.Reader.{
  ReadResult, at, ok, truncated_prefix, truncated_message, length_mismatch, zero_length, stopped,
  visit,
}
use pricetime.Itch.Visits.{get_or-append}

pub data Stop (bytes : List ℕ) (r : ReadResult) : Type 0 where
  at_end : bytes ≡ [] → r ≡ at ok 0 0 → Stop bytes r
  cut_prefix : 0 < length bytes → length bytes < 2 → r ≡ at truncated_prefix 0 0 → Stop bytes r
  cut_message :
      2 ≤ length bytes
      → length bytes < 2 + be16 bytes 0
      → r ≡ record (at truncated_message 0 0) { declared_length = be16 bytes 0 }
      → Stop bytes r
  fatal :
      ((more : List ℕ) → visit (bytes ++ more) ≡ stopped r)
      → (r.status ≡ zero_length) ⊎ (r.status ≡ length_mismatch)
      → Stop bytes r

pub visit-Stop : (bytes : List ℕ) (r : ReadResult) → visit bytes ≡ stopped r → Stop bytes r
unfolding visit
visit-Stop [] r e = at_end refl (ground (arith, e))
visit-Stop (x ∷ []) r e = cut_prefix (omega arith) (omega arith) (ground (arith, e))
visit-Stop (x ∷ y ∷ body) r e =
    let bytes = x ∷ y ∷ body in
    elim (Bool-cases (be16 bytes 0 == 0)) [
      | inl empty ↦ fatal (λ more. ground (arith, e, empty)) (inl (ground (arith, e, empty)))
      | inr filled ↦ elim (Bool-cases (ltb (length bytes - 2) (be16 bytes 0))) [
        | inl cut ↦ cut_message (omega arith) (ground (arith, cut)) (ground (arith, e, filled, cut))
        | inr whole ↦
            let len = be16 bytes 0 in
            fatal
              (λ more.
                let total = length-append body more in
                let first = get_or-append body more (ground (arith, filled, whole)) in
                rw first (ground (arith, e, total, filled, whole)))
              (inr (ground (arith, e, filled, whole)))
      ]
    ]

pub be16-append : (xs ys : List ℕ) → 2 ≤ length xs → be16 (xs ++ ys) 0 ≡ be16 xs 0
be16-append [] ys h = absurd (omega arith)
be16-append (x ∷ []) ys h = absurd (omega arith)
be16-append (x ∷ y ∷ xs) ys h = refl
