-- ===== src/Runs/Math.antt =====
-- The theorems on src/math at concrete amounts.
use drfraudsworth_jupiter_ad.Prelude.{
  ℕ, ◌+◌, ◌-◌, ◌*◌, ◌≤◌, ◌<◌, ◌≡◌, ◌↔◌, inr, refl, true, some, arith,
}
use drfraudsworth_jupiter_ad.Addresses.{crime_mint, fraud_mint, profit_mint}
use drfraudsworth_jupiter_ad.Math.AmmMath.{
  calculate_effective_input, calculate_swap_output, verify_k_invariant,
}
use drfraudsworth_jupiter_ad.Math.AmmMath.Curve.{swap_keeps_k, swap_output_greatest}
use drfraudsworth_jupiter_ad.Math.TaxMath.{calculate_tax, split_distribution}
use drfraudsworth_jupiter_ad.Math.TaxMath.Shares.{tax_then_split}
use drfraudsworth_jupiter_ad.Math.VaultMath.{compute_vault_output}
use drfraudsworth_jupiter_ad.Math.VaultMath.Conversion.{faction_round_trip}

effective_990 : calculate_effective_input 1_000 100 ≡ some 990
unfolding calculate_effective_input
effective_990 = refl

output_1980 : calculate_swap_output 1_000_000 2_000_000 990 ≡ some 1_978
unfolding calculate_swap_output
output_1980 = refl

swap_keeps_k_example : verify_k_invariant 1_000_000 2_000_000 1_001_000 1_998_022 ≡ some true
swap_keeps_k_example =
    swap_keeps_k 1_000_000 2_000_000 1_000 100 (omega arith) (omega arith) (omega arith)
      effective_990 output_1980

tax_400 : calculate_tax 10_000 400 ≡ some 400
unfolding calculate_tax
tax_400 = refl

tax_then_split_example :
    (400 ≤ 10_000)
    × (400 * 10_000 ≤ 10_000 * 400)
    × (10_000 * 400 < (400 + 1) * 10_000)
    × ((staking : ℕ) × (carnage : ℕ) × (treasury : ℕ) × (split_distribution 400
          ≡ some (staking, carnage, treasury))
        × (staking + carnage + treasury ≡ 400))
tax_then_split_example = tax_then_split 10_000 400 (omega arith) tax_400

crime_123 : compute_vault_output crime_mint profit_mint 12_345 ≡ some 123
unfolding compute_vault_output
crime_123 = refl

faction_round_trip_example :
    (back : ℕ) × (compute_vault_output profit_mint fraud_mint 123 ≡ some back)
    × (back ≤ 12_345)
    × (12_345 < back + 100)
faction_round_trip_example =
    faction_round_trip crime_mint fraud_mint 12_345 (omega arith) (inr refl) crime_123

swap_output_greatest_example :
    (1_000_000 * 2_000_000 ≤ (1_000_000 + 990) * (2_000_000 - 1_978)) ↔ (1_978 ≤ 1_978)
swap_output_greatest_example =
    swap_output_greatest 1_000_000 2_000_000 990 1_978 (omega arith) (omega arith) (omega arith)
      output_1980 (omega arith)
