-- ===== src/VaultAmm/Labels.antt =====
-- The labels of src/vault_amm.rs.
use Prim.Native.String.{String, ◌++◌}
use drfraudsworth_jupiter_ad.Prelude.{◌==◌, if◌then◌else◌}
use drfraudsworth_jupiter_ad.Pubkey.{Pubkey}
use drfraudsworth_jupiter_ad.Addresses.{crime_mint, fraud_mint, profit_mint}

unfoldable pub mint_name : Pubkey → String
mint_name mint =
    if mint == crime_mint
    then "CRIME"
    else if mint == fraud_mint
    then "FRAUD"
    else if mint == profit_mint
    then "PROFIT"
    else "UNKNOWN"

unfoldable pub format_label : Pubkey → Pubkey → String
format_label input_mint output_mint =
    mint_name input_mint ++ ("/" ++ (mint_name output_mint ++ " Vault"))
