-- ===== src/Spsc/Doubling.antt =====
-- The loop of `round_up_pow2` of include/pricetime/spsc_queue.hpp, on a size_t of 64 bits.
use native.Mathlib.Nat.{pow-suc, pow-le-pow_right}
use pricetime.Common.{
  ℕ, zero, suc, ◌+◌, ◌*◌, ◌^◌, ◌%◌, ◌<◌, u64, none, ◌≤◌, ◌≡◌, refl, sym, ◌∙◌, subst, true, false,
  Bool-cases, inl, inr, some, ltb, arith, eq_of_some,
}
use pricetime.Spsc.{round_up_pow2}

doubled : (k : ℕ) → k < 63 → 2 ^ k * 2 % u64 ≡ 2 ^ suc k
doubled k h =
    let e : 2 ^ suc k ≡ 2 ^ k * 2 = pow-suc 2 k in
    let two : 0 < 2 = omega arith in
    let below : suc k ≤ 63 = omega arith in
    let bound : 2 ^ suc k ≤ 2 ^ 63 = pow-le-pow_right two below in omega (arith, e, bound)

-- Doubling, with the rounds that are left as fuel.
pub round_up_pow2-answers :
    (fuel k n : ℕ)
    → k + fuel ≡ 63
    → n ≤ 2 ^ 63
    → (m : ℕ) × (round_up_pow2 (suc fuel) (2 ^ k) n ≡ some (2 ^ m)) × (n ≤ 2 ^ m)
unfolding round_up_pow2
round_up_pow2-answers zero k n h b =
    let last : k ≡ 63 = omega arith in
    let wide : ltb (2 ^ k) n ≡ false = rw last (ground arith) in (k, rw wide refl, rw last b)
round_up_pow2-answers (suc rest) k n h b = elim (Bool-cases (ltb (2 ^ k) n)) [
  | inl short ↦
      let (m, answers, wide) = round_up_pow2-answers rest (suc k) n (omega arith) b in
      let e = doubled k (omega arith) in
      (m, rw short (subst (λ p. round_up_pow2 (suc rest) p n ≡ some (2 ^ m)) (sym e) answers), wide)
  | inr wide ↦ (k, rw wide refl, ground (arith, wide))
]

-- Once `p` has wrapped to 0, it stays there.
round_up_pow2-stuck : (fuel n : ℕ) → 0 < n → round_up_pow2 fuel 0 n ≡ none
unfolding round_up_pow2
round_up_pow2-stuck zero n h = refl
round_up_pow2-stuck (suc fuel) n h =
    let short : ltb 0 n ≡ true = ground arith in rw (short, round_up_pow2-stuck fuel n h) refl

-- Above the largest power of two the loop comes to 0.
pub round_up_pow2-endless :
    (fuel k n : ℕ) → k ≤ 63 → 2 ^ 63 < n → round_up_pow2 fuel (2 ^ k) n ≡ none
unfolding round_up_pow2
round_up_pow2-endless zero k n h b = refl
round_up_pow2-endless (suc fuel) k n h b =
    let two : 0 < 2 = omega arith in
    let bound : 2 ^ k ≤ 2 ^ 63 = pow-le-pow_right two h in
    let short : ltb (2 ^ k) n ≡ true = ground (arith, bound) in
    elim (Bool-cases (ltb k 63)) [
      | inl more ↦
          let e = doubled k (ground (arith, more)) in
          rw short (rw e (round_up_pow2-endless fuel (suc k) n (ground (arith, more)) b))
      | inr last ↦
          let e : k ≡ 63 = ground (arith, last) in
          rw short (rw e (round_up_pow2-stuck fuel n (omega arith)))
    ]

-- What the loop ends with is a power of two.
pub round_up_pow2-power :
    (fuel k n p : ℕ) → k ≤ 63 → round_up_pow2 fuel (2 ^ k) n ≡ some p → (m : ℕ) × (p ≡ 2 ^ m)
unfolding round_up_pow2
round_up_pow2-power zero k n p h e = absurd (cc)
round_up_pow2-power (suc fuel) k n p h e = elim (Bool-cases (ltb (2 ^ k) n)) [
  | inl short ↦ elim (Bool-cases (ltb k 63)) [
    | inl more ↦
        let twice = doubled k (ground (arith, more)) in
        round_up_pow2-power fuel (suc k) n p (ground (arith, more))
          (subst (λ q. round_up_pow2 fuel q n ≡ some p) twice (rw short at e))
    | inr last ↦
        let top : k ≡ 63 = ground (arith, last) in
        let wrapped : 2 ^ k * 2 % u64 ≡ 0 = rw top refl in
        let on = subst (λ q. round_up_pow2 fuel q n ≡ some p) wrapped (rw short at e) in
        absurd (let z = sym (round_up_pow2-stuck fuel n (ground (arith, short))) ∙ on in cc)
  ]
  | inr wide ↦ (k, eq_of_some (sym (rw wide at e)))
]
