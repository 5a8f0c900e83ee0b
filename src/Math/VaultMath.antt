-- ===== src/Math/VaultMath.antt =====
-- src/math/vault_math.rs: the fixed-rate conversion between CRIME or FRAUD and PROFIT.
pub mod Conversion
mod Tests
use drfraudsworth_jupiter_ad.Prelude.{
  ℕ, ◌/◌, Bool, ◌&&◌, ◌||◌, Option, none, some, ◌==◌, if◌then◌else◌,
}
use drfraudsworth_jupiter_ad.Words.{checked_mul}
use drfraudsworth_jupiter_ad.Pubkey.{Pubkey}
use drfraudsworth_jupiter_ad.Constants.{conversion_rate}
use drfraudsworth_jupiter_ad.Addresses.{crime_mint, fraud_mint, profit_mint}

unfoldable pub compute_vault_output : Pubkey → Pubkey → ℕ → Option ℕ
compute_vault_output input_mint output_mint amount_in =
    let is_input_crime_or_fraud = input_mint == crime_mint || input_mint == fraud_mint in
    let is_output_profit = output_mint == profit_mint in
    let is_input_profit = input_mint == profit_mint in
    let is_output_crime_or_fraud = output_mint == crime_mint || output_mint == fraud_mint in
    let out = amount_in / conversion_rate in
    if amount_in == 0
    then none
    else if input_mint == output_mint
    then none
    else if is_input_crime_or_fraud && is_output_profit
    then (if out == 0 then none else some out)
    else if is_input_profit && is_output_crime_or_fraud
    then checked_mul 64 amount_in conversion_rate
    else none
