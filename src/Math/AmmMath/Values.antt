-- ===== src/Math/AmmMath/Values.antt =====
-- What the functions of src/math/amm_math.rs return on every branch: no product or sum overflows
-- on u64 arguments, so the results are those of exact arithmetic.
use native.Mathlib.Nat.{div-le_of_le-mul, mul-le-mul, mul-le-mul_left}
use drfraudsworth_jupiter_ad.Prelude.{
  ℕ, ◌+◌, ◌-◌, ◌*◌, ◌/◌, ◌^◌, ◌≤◌, ◌<◌, ◌≡◌, none, some, arith, leb, ◌==◌, if◌then◌else◌,
}
use drfraudsworth_jupiter_ad.Words.{IsU64}
use drfraudsworth_jupiter_ad.Math.AmmMath.{
  calculate_effective_input, calculate_swap_output, verify_k_invariant,
}

-- A product of two u64 fits a u128.
u64_product : (a b : ℕ) → a < 2 ^ 64 → b < 2 ^ 64 → a * b < 2 ^ 128
u64_product a b ha hb =
    let ha' : a ≤ 2 ^ 64 - 1 = omega arith in
    let hb' : b ≤ 2 ^ 64 - 1 = omega arith in omega (arith, mul-le-mul ha' hb')

-- The fee is refused exactly above 10,000 bps; below, the result is exact and at most the input.
pub effective_input_value :
    (amount fee : ℕ)
    → IsU64 amount
    → calculate_effective_input amount fee
      ≡ (if leb fee 10_000 then some (amount * (10_000 - fee) / 10_000) else none)
unfolding calculate_effective_input
effective_input_value amount fee h = ground (arith, u64_product amount (10_000 - fee) h)

pub effective_input-le : (amount fee : ℕ) → amount * (10_000 - fee) / 10_000 ≤ amount
effective_input-le amount fee =
    let factor : 10_000 - fee ≤ 10_000 = omega arith in omega (arith, mul-le-mul_left amount factor)

-- A quotient r * e / (i + e) of a part is at most r.
pub quotient-le : (i r e : ℕ) → r * e / (i + e) ≤ r
quotient-le i r e =
    let part : e ≤ i + e = omega arith in
    let le : r * e ≤ (i + e) * r = omega (arith, mul-le-mul_left r part) in
    div-le_of_le-mul (i + e) le

-- The output is refused exactly on an empty denominator; otherwise it is the exact quotient.
pub swap_output_value :
    (r_in r_out e : ℕ)
    → IsU64 r_in
    → IsU64 r_out
    → IsU64 e
    → calculate_swap_output r_in r_out e
      ≡ (if r_in + e == 0 then none else some (r_out * e / (r_in + e)))
unfolding calculate_swap_output
swap_output_value r_in r_out e hi ho he =
    ground (arith, u64_product r_out e ho he, quotient-le r_in r_out e)

-- The two products fit, so the check compares them exactly.
pub k_invariant_value :
    (r_in r_out r_in' r_out' : ℕ)
    → IsU64 r_in
    → IsU64 r_out
    → IsU64 r_in'
    → IsU64 r_out'
    → verify_k_invariant r_in r_out r_in' r_out' ≡ some (leb (r_in * r_out) (r_in' * r_out'))
unfolding verify_k_invariant
k_invariant_value r_in r_out r_in' r_out' h₁ h₂ h₃ h₄ =
    ground (arith, u64_product r_in r_out h₁ h₂, u64_product r_in' r_out' h₃ h₄)
