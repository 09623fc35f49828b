-- ===== src/Spsc/Ring.antt =====
-- Positions on the ring of include/pricetime/spsc_queue.hpp, and the slots that are in use.
use native.Mathlib.Nat.{add-mod_right, mod-eq_of_lt, mod_self}
use pricetime.Common.{
  ℕ, zero, suc, ◌+◌, ◌-◌, ◌%◌, ◌≤◌, ◌<◌, ◌≡◌, ◌≢◌, refl, sym, ◌∙◌, subst, List, [], ◌∷◌, ◌++◌,
  Bool-cases, inl, inr, some, leb, ◌==◌, if◌then◌else◌, length, set, arith,
}
use pricetime.Spsc.{slot}

-- The next position on a ring of `n` slots.
abbrev pub succ_on : ℕ → ℕ → ℕ
succ_on n i = if i + 1 == n then 0 else i + 1

-- How far `b` is behind `a`.
abbrev pub dist : ℕ → ℕ → ℕ → ℕ
dist n a b = if leb b a then a - b else a + n - b

pub succ_on_mod : (n i : ℕ) → i < n → (i + 1) % n ≡ succ_on n i
succ_on_mod n i h = elim (Bool-cases (i + 1 == n)) [
  | inl wraps ↦ let e : i + 1 ≡ n = ground arith in rw (wraps, e) (mod_self n)
  | inr inside ↦ rw inside (mod-eq_of_lt (ground arith))
]

pub succ_on-lt : (n i : ℕ) → i < n → succ_on n i < n
succ_on-lt n i h = ground arith

pub dist_succ_left :
    (n a b : ℕ) → a < n → b < n → succ_on n a ≢ b → dist n (succ_on n a) b ≡ dist n a b + 1
dist_succ_left n a b h k d = ground arith

pub dist_succ_right : (n a b : ℕ) → a < n → b < n → a ≢ b → dist n a (succ_on n b) + 1 ≡ dist n a b
dist_succ_right n a b h k d = ground arith

pub dist-lt : (n a b : ℕ) → a < n → b < n → dist n a b < n
dist-lt n a b h k = ground arith

pub dist-zero : (n a b : ℕ) → a < n → b < n → dist n a b ≡ 0 → a ≡ b
dist-zero n a b h k e = ground arith

pub apart_of_dist : (n a b : ℕ) → 0 < dist n a b → a ≢ b
apart_of_dist n a b h e = ground arith

pub dist_full : (n a b : ℕ) → a < n → succ_on n a ≡ b → dist n a b + 1 ≡ n
dist_full n a b h e = ground arith

pub dist_self : (n a : ℕ) → dist n a a ≡ 0
dist_self n a = ground arith

pub slot-set_same :
    {A : Type 0} (xs : List A) (i : ℕ) (v : A) → i < length xs → slot (set xs i v) i ≡ some v
slot-set_same [] i v h = absurd (omega arith)
slot-set_same (x ∷ xs) zero v h = refl
slot-set_same (x ∷ xs) (suc i) v h = slot-set_same xs i v (omega arith)

slot-set_other :
    {A : Type 0} (xs : List A) (i j : ℕ) (v : A) → i ≢ j → slot (set xs i v) j ≡ slot xs j
slot-set_other [] i j v h = refl
slot-set_other (x ∷ xs) zero zero v h = absurd (h refl)
slot-set_other (x ∷ xs) zero (suc j) v h = refl
slot-set_other (x ∷ xs) (suc i) zero v h = refl
slot-set_other (x ∷ xs) (suc i) (suc j) v h = slot-set_other xs i j v (λ e. h (omega (arith, e)))

module _ {A : Type 0} (n : ℕ) where
  -- The values in the slots from a position on.
  abbrev pub Holds : List A → ℕ → List A → Type 0
  Holds slots i [] = Unit
  Holds slots i (x ∷ xs) = (slot slots i ≡ some x) × Holds slots (succ_on n i) xs

  -- A write outside the slots in use.
  pub Holds-set :
      (slots : List A) (i j : ℕ) (v : A) (xs : List A)
      → i < n
      → j < n
      → length xs ≤ dist n j i
      → Holds slots i xs
      → Holds (set slots j v) i xs
  Holds-set slots i j v [] h k room held = tt
  Holds-set slots i j v (x ∷ xs) h k room held =
      let apart : j ≢ i = apart_of_dist n j i (omega (arith, room)) in
      (
        slot-set_other slots j i v apart ∙ held.0,
        Holds-set slots (succ_on n i) j v xs (succ_on-lt n i h) k
            (omega (arith, dist_succ_right n j i k h apart, room)) held.1,
      )

  -- A value behind the slots in use.
  pub Holds-append :
      (slots : List A) (i j : ℕ) (v : A) (xs : List A)
      → i < n
      → j < n
      → length xs ≡ dist n j i
      → Holds slots i xs
      → slot slots j ≡ some v
      → Holds slots i (xs ++ v ∷ [])
  Holds-append slots i j v [] h k room held e =
      (subst (λ m. slot slots m ≡ some v) (dist-zero n j i k h (sym room)) e, tt)
  Holds-append slots i j v (x ∷ xs) h k room held e =
      let apart : j ≢ i = apart_of_dist n j i (omega (arith, room)) in
      (
        held.0,
        Holds-append slots (succ_on n i) j v xs (succ_on-lt n i h) k
            (omega (arith, dist_succ_right n j i k h apart, room)) held.1 e,
      )

-- `(head - tail) & mask_`
pub dist_mod : (n a b : ℕ) → a < n → b < n → (a + n - b) % n ≡ dist n a b
dist_mod n a b h k = elim (Bool-cases (leb b a)) [
  | inl later ↦
      let e : a + n - b ≡ a - b + n = ground arith in
      rw (later, e) (add-mod_right (a - b) n ∙ mod-eq_of_lt (omega (arith, h)))
  | inr wrapped ↦ rw wrapped (mod-eq_of_lt (ground arith))
]
