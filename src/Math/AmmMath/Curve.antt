-- ===== src/Math/AmmMath/Curve.antt =====
-- The constant-product curve of src/math/amm_math.rs: rounding, the invariant k, monotonicity and
-- the absence of a profit by swapping back.
use native.Mathlib.Nat.{
  mul-le-mul_left, mul-le-mul_right, div-mul-le_self, lt-div-mul-add, div-le_of_le-mul,
  le-div_iff_mul-le,
}
use drfraudsworth_jupiter_ad.Prelude.{
  ℕ, ◌+◌, ◌-◌, ◌*◌, ◌/◌, ◌≤◌, ◌<◌, ◌≡◌, ◌↔◌, ap, true, some, arith, le→leb,
}
use drfraudsworth_jupiter_ad.Words.{IsU64}
use drfraudsworth_jupiter_ad.Math.AmmMath.{
  calculate_effective_input, calculate_swap_output, verify_k_invariant,
}
use drfraudsworth_jupiter_ad.Math.AmmMath.Values.{
  effective_input_value, effective_input-le, swap_output_value, k_invariant_value, quotient-le,
}

-- The output o takes at most what the input e brought: d is what is left of the output reserve.
pub curve_le : (r_in d o e : ℕ) → o * (r_in + e) ≤ (o + d) * e → r_in * o ≤ e * d
curve_le r_in d o e h = omega arith

k_le :
    (r_in d o e amount : ℕ) → e ≤ amount → r_in * o ≤ e * d → r_in * (o + d) ≤ (r_in + amount) * d
k_le r_in d o e amount le h = omega (arith, mul-le-mul_right d le)

pub mono_le : (i r o e t : ℕ) → o * (i + e) ≤ r * e → o ≤ r → o * (i + (e + t)) ≤ r * (e + t)
mono_le i r o e t h le = omega (arith, mul-le-mul_right t le)

back_le : (r_in d o e e' : ℕ) → r_in * o ≤ e * d → e' ≤ o → (r_in + e) * e' ≤ (d + e') * e
back_le r_in d o e e' h le = omega (arith, mul-le-mul_left r_in le)

pub quotient_mono : (i r e e' : ℕ) → 0 < i + e → e ≤ e' → r * e / (i + e) ≤ r * e' / (i + e')
quotient_mono i r e e' pos le =
    let pos' : 0 < i + e' = omega arith in
    let split : e + (e' - e) ≡ e' = omega arith in
    (le-div_iff_mul-le pos').1 (
      rw split at (
        mono_le i r (r * e / (i + e)) e (e' - e) (div-mul-le_self (r * e) (i + e))
          (quotient-le i r e)))

-- Inversion of a returned output.
swap_output_some :
    (r_in r_out e : ℕ) {o : ℕ}
    → IsU64 r_in
    → IsU64 r_out
    → IsU64 e
    → calculate_swap_output r_in r_out e ≡ some o
    → (0 < r_in + e) × (o ≡ r_out * e / (r_in + e))
swap_output_some r_in r_out e hi ho he h = ground (arith, swap_output_value r_in r_out e hi ho he)

effective_input_some :
    (amount fee : ℕ) {e : ℕ}
    → IsU64 amount
    → calculate_effective_input amount fee ≡ some e
    → (fee ≤ 10_000) × (e ≡ amount * (10_000 - fee) / 10_000) × (e ≤ amount)
effective_input_some amount fee h e =
    ground (arith, effective_input_value amount fee h, effective_input-le amount fee)

-- On u64 reserves and a u64 input that are not both empty, the swap returns an output o, which is
-- the exact product r_out * e / (r_in + e) rounded down, and which the output reserve covers.
pub swap_output_floor :
    (r_in r_out e : ℕ)
    → IsU64 r_in
    → IsU64 r_out
    → IsU64 e
    → 0 < r_in + e
    → (o : ℕ) × (calculate_swap_output r_in r_out e ≡ some o)
      × (o * (r_in + e) ≤ r_out * e)
      × (r_out * e < (o + 1) * (r_in + e))
      × (o ≤ r_out)
swap_output_floor r_in r_out e hi ho he pos = (
  r_out * e / (r_in + e),
  ground (arith, swap_output_value r_in r_out e hi ho he),
  div-mul-le_self (r_out * e) (r_in + e),
  omega (arith, lt-div-mul-add {a = r_out * e} pos),
  quotient-le r_in r_out e,
)

k_iff : (r_in d o e : ℕ) → (r_in * (o + d) ≤ (r_in + e) * d) ↔ (o * (r_in + e) ≤ (o + d) * e)
k_iff r_in d o e = ((λ h. omega arith), λ h. omega arith)

-- An output of the output reserve keeps the product of the reserves, against the input that reaches
-- the curve, exactly where it is at most what the swap returns: the swap pays out the greatest
-- output that the invariant allows.
pub swap_output_greatest :
    (r_in r_out e o' : ℕ) {o : ℕ}
    → IsU64 r_in
    → IsU64 r_out
    → IsU64 e
    → calculate_swap_output r_in r_out e ≡ some o
    → o' ≤ r_out
    → (r_in * r_out ≤ (r_in + e) * (r_out - o')) ↔ (o' ≤ o)
swap_output_greatest r_in r_out e o' {o} hi ho he h le =
    let (pos, out) = swap_output_some r_in r_out e hi ho he h in
    let split : o' + (r_out - o') ≡ r_out = omega arith in
    let product : (r_in * r_out ≤ (r_in + e) * (r_out - o')) ↔ (o' * (r_in + e) ≤ r_out * e) =
      rw split at (k_iff r_in (r_out - o') o' e) in
    let quotient : (o' ≤ r_out * e / (r_in + e)) ↔ (o' * (r_in + e) ≤ r_out * e) =
      le-div_iff_mul-le pos in
    ((λ k. rw out (quotient.1 (product.0 k))), λ small. product.1 (quotient.0 (rw out at small)))

-- A swap of `amount` under any fee never lowers the product of the reserves: the check that the
-- on-chain program makes after the swap passes, where the new input reserve is still a u64.
pub swap_keeps_k :
    (r_in r_out amount fee : ℕ) {e o : ℕ}
    → IsU64 r_in
    → IsU64 r_out
    → IsU64 (r_in + amount)
    → calculate_effective_input amount fee ≡ some e
    → calculate_swap_output r_in r_out e ≡ some o
    → verify_k_invariant r_in r_out (r_in + amount) (r_out - o) ≡ some true
swap_keeps_k r_in r_out amount fee {e} {o} hi ho hn he hs =
    let (_, _, le) = effective_input_some amount fee (omega arith) he in
    let (pos, out) = swap_output_some r_in r_out e hi ho (omega arith) hs in
    let o-le : o ≤ r_out = omega (arith, out, quotient-le r_in r_out e) in
    let split : o + (r_out - o) ≡ r_out = omega arith in
    let floor : o * (r_in + e) ≤ (o + (r_out - o)) * e =
      rw (split, out) (div-mul-le_self (r_out * e) (r_in + e)) in
    let k : r_in * (o + (r_out - o)) ≤ (r_in + amount) * (r_out - o) =
      k_le r_in (r_out - o) o e amount le (curve_le r_in (r_out - o) o e floor) in
    rw (k_invariant_value r_in r_out (r_in + amount) (r_out - o) hi ho hn (omega arith))
      (ap some (le→leb _ _ (rw split at k)))

-- More input never buys less.
swap_output_mono :
    (r_in r_out e e' : ℕ) {o o' : ℕ}
    → IsU64 r_in
    → IsU64 r_out
    → IsU64 e'
    → e ≤ e'
    → calculate_swap_output r_in r_out e ≡ some o
    → calculate_swap_output r_in r_out e' ≡ some o'
    → o ≤ o'
swap_output_mono r_in r_out e e' hi ho he le h h' =
    let (pos, out) = swap_output_some r_in r_out e hi ho (omega arith) h in
    let (_, out') = swap_output_some r_in r_out e' hi ho he h' in
    omega (arith, out, out', quotient_mono r_in r_out e e' pos le)

-- Swapping the whole output back, against the reserves that the swap left, returns at most the
-- input, whatever fee the second swap takes.
pub swap_back_no_profit :
    (r_in r_out e fee : ℕ) {o e' back : ℕ}
    → IsU64 r_out
    → IsU64 (r_in + e)
    → calculate_swap_output r_in r_out e ≡ some o
    → calculate_effective_input o fee ≡ some e'
    → calculate_swap_output (r_out - o) (r_in + e) e' ≡ some back
    → back ≤ e
swap_back_no_profit r_in r_out e fee {o} {e'} {back} ho hn h he h' =
    let (pos, out) = swap_output_some r_in r_out e (omega arith) ho (omega arith) h in
    let o-le : o ≤ r_out = omega (arith, out, quotient-le r_in r_out e) in
    let (_, _, le) = effective_input_some o fee (omega arith) he in
    let (_, out') = swap_output_some (r_out - o) (r_in + e) e' (omega arith) hn (omega arith) h' in
    let split : o + (r_out - o) ≡ r_out = omega arith in
    let floor : o * (r_in + e) ≤ (o + (r_out - o)) * e =
      rw (split, out) (div-mul-le_self (r_out * e) (r_in + e)) in
    let small : (r_in + e) * e' ≤ (r_out - o + e') * e =
      back_le r_in (r_out - o) o e e' (curve_le r_in (r_out - o) o e floor) le in
    rw out' (div-le_of_le-mul (r_out - o + e') small)
