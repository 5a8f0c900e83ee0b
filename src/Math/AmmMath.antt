-- ===== src/Math/AmmMath.antt =====
-- src/math/amm_math.rs: the LP fee, the constant-product output and the check of the invariant.
-- Reserves and amounts are u64, the intermediate products u128.
pub mod Values
pub mod Curve
mod Tests
use drfraudsworth_jupiter_ad.Prelude.{ℕ, Bool, Option, none, some, leb, ◌==◌, if◌then◌else◌, ◌>>=?◌}
use drfraudsworth_jupiter_ad.Words.{
  checked_add, checked_mul, checked_sub, checked_div, u64_try_from,
}

unfoldable pub calculate_effective_input : ℕ → ℕ → Option ℕ
calculate_effective_input amount_in fee_bps = checked_sub 10_000 fee_bps >>=? λ fee_factor.
    checked_mul 128 amount_in fee_factor >>=? λ product. checked_div product 10_000

unfoldable pub calculate_swap_output : ℕ → ℕ → ℕ → Option ℕ
calculate_swap_output reserve_in reserve_out effective_input =
    checked_mul 128 reserve_out effective_input >>=? λ numerator.
    checked_add 128 reserve_in effective_input >>=? λ denominator.
    if denominator == 0
    then none
    else (checked_div numerator denominator >>=? λ output. u64_try_from output)

unfoldable pub verify_k_invariant : ℕ → ℕ → ℕ → ℕ → Option Bool
verify_k_invariant reserve_in_before reserve_out_before reserve_in_after reserve_out_after =
    checked_mul 128 reserve_in_before reserve_out_before >>=? λ k_before.
    checked_mul 128 reserve_in_after reserve_out_after >>=? λ k_after. some (leb k_before k_after)
