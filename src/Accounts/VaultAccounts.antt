-- ===== src/Accounts/VaultAccounts.antt =====
-- src/accounts/vault_accounts.rs: the account list of `convert_v2`.
pub mod Shape
pub mod Transfers
mod Tests
use drfraudsworth_jupiter_ad.Prelude.{
  ℕ, true, false, Option, none, some, List, [], ◌∷◌, ◌++◌, ◌==◌, if◌then◌else◌, ◌>>=?◌,
}
use drfraudsworth_jupiter_ad.Pubkey.{Pubkey}
use drfraudsworth_jupiter_ad.Solana.{AccountMeta, writable, readonly, Derivation}
use drfraudsworth_jupiter_ad.Addresses.{
  crime_mint, fraud_mint, profit_mint, token_2022_program_id, vault_config_pda, vault_crime,
  vault_fraud, vault_profit,
}
use drfraudsworth_jupiter_ad.Accounts.HookAccounts.{hook_metas_for_mint}

-- The source panics on any other mint: `none`.
unfoldable pub vault_token_account : Pubkey → Option Pubkey
vault_token_account mint =
    if mint == crime_mint
    then some vault_crime
    else if mint == fraud_mint
    then some vault_fraud
    else if mint == profit_mint
    then some vault_profit
    else none

-- The 9 named accounts.
abbrev pub convert_named :
    Pubkey → Pubkey → Pubkey → Pubkey → Pubkey → Pubkey → Pubkey → List AccountMeta
convert_named user user_input_ata user_output_ata input_mint output_mint vault_input vault_output =
    readonly user true
    ∷ readonly vault_config_pda false
    ∷ writable user_input_ata false
    ∷ writable user_output_ata false
    ∷ readonly input_mint false
    ∷ readonly output_mint false
    ∷ writable vault_input false
    ∷ writable vault_output false
    ∷ readonly token_2022_program_id false
    ∷ []

unfoldable pub build_vault_account_metas :
    Derivation → Pubkey → Pubkey → Pubkey → Pubkey → Pubkey → Option (List AccountMeta)
build_vault_account_metas d user user_input_ata user_output_ata input_mint output_mint =
    vault_token_account input_mint >>=? λ vault_input.
    vault_token_account output_mint >>=? λ vault_output. some (
      convert_named user user_input_ata user_output_ata input_mint output_mint vault_input
        vault_output
      ++ (hook_metas_for_mint d input_mint user_input_ata vault_input
          ++ hook_metas_for_mint d output_mint vault_output user_output_ata))
