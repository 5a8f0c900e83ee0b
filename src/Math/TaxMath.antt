-- ===== src/Math/TaxMath.antt =====
-- src/math/tax_math.rs: the tax on an amount, and its split over staking, carnage and treasury.
pub mod Shares
mod Tests
use drfraudsworth_jupiter_ad.Prelude.{ℕ, Option, none, some, ltb, if◌then◌else◌, ◌>>=?◌}
use drfraudsworth_jupiter_ad.Words.{checked_mul, checked_sub, checked_div, u64_try_from}

unfoldable pub calculate_tax : ℕ → ℕ → Option ℕ
calculate_tax amount_lamports tax_bps =
    if ltb 10_000 tax_bps
    then none
    else (checked_mul 128 amount_lamports tax_bps >>=? λ product.
        checked_div product 10_000 >>=? λ tax. u64_try_from tax)

abbrev pub staking_bps : ℕ
staking_bps = 7_100

abbrev pub carnage_bps : ℕ
carnage_bps = 2_400

abbrev pub bps_denom : ℕ
bps_denom = 10_000

-- (staking, carnage, treasury).
unfoldable pub split_distribution : ℕ → Option (ℕ × ℕ × ℕ)
split_distribution total_tax =
    if ltb total_tax 4
    then some (total_tax, 0, 0)
    else (checked_mul 128 total_tax staking_bps >>=? λ staking_product.
        checked_div staking_product bps_denom >>=? λ staking_u128.
        u64_try_from staking_u128 >>=? λ staking.
        checked_mul 128 total_tax carnage_bps >>=? λ carnage_product.
        checked_div carnage_product bps_denom >>=? λ carnage_u128.
        u64_try_from carnage_u128 >>=? λ carnage. checked_sub total_tax staking >>=? λ rest.
        checked_sub rest carnage >>=? λ treasury. some (staking, carnage, treasury))
