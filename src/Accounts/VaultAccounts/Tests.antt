-- ===== src/Accounts/VaultAccounts/Tests.antt =====
-- The unit tests of src/accounts/vault_accounts.rs, on whatever keys they make up.
use drfraudsworth_jupiter_ad.Prelude.{◌≡◌, refl, true, false, some, length, UnwrappedSome}
use drfraudsworth_jupiter_ad.Pubkey.{Pubkey}
use drfraudsworth_jupiter_ad.Addresses.{
  crime_mint, fraud_mint, profit_mint, vault_config_pda, vault_crime, vault_fraud, vault_profit,
  token_2022_program_id,
}
use drfraudsworth_jupiter_ad.Solana.{Derivation, key_at, signer_at, writable_at}
use drfraudsworth_jupiter_ad.Accounts.HookAccounts.{hook_metas_for_mint}
use drfraudsworth_jupiter_ad.Accounts.VaultAccounts.{build_vault_account_metas, vault_token_account}

abbrev VaultMetasHas9NamedPlus8Hooks : Type 0
VaultMetasHas9NamedPlus8Hooks =
    (d : Derivation) (user user_input user_output : Pubkey)
    → UnwrappedSome (build_vault_account_metas d user user_input user_output crime_mint profit_mint)
        λ metas. length metas ≡ 17

abbrev VaultAccountOrderingCorrect : Type 0
VaultAccountOrderingCorrect =
    (d : Derivation) (user user_input user_output : Pubkey)
    → UnwrappedSome (build_vault_account_metas d user user_input user_output crime_mint profit_mint)
        λ metas.
          (key_at metas 0 ≡ some user)
          × (signer_at metas 0 ≡ some true)
          × (key_at metas 1 ≡ some vault_config_pda)
          × (writable_at metas 1 ≡ some false)
          × (key_at metas 2 ≡ some user_input)
          × (writable_at metas 2 ≡ some true)
          × (key_at metas 4 ≡ some crime_mint)
          × (writable_at metas 4 ≡ some false)
          × (key_at metas 5 ≡ some profit_mint)
          × (key_at metas 6 ≡ some vault_crime)
          × (writable_at metas 6 ≡ some true)
          × (key_at metas 7 ≡ some vault_profit)
          × (writable_at metas 7 ≡ some true)
          × (key_at metas 8 ≡ some token_2022_program_id)

abbrev VaultTokenAccountCrime : Type 0
VaultTokenAccountCrime = vault_token_account crime_mint ≡ some vault_crime

abbrev VaultTokenAccountFraud : Type 0
VaultTokenAccountFraud = vault_token_account fraud_mint ≡ some vault_fraud

abbrev VaultTokenAccountProfit : Type 0
VaultTokenAccountProfit = vault_token_account profit_mint ≡ some vault_profit

abbrev ProfitToCrimeHasCorrectVaults : Type 0
ProfitToCrimeHasCorrectVaults =
    (d : Derivation) (user user_input user_output : Pubkey)
    → UnwrappedSome (build_vault_account_metas d user user_input user_output profit_mint crime_mint)
        λ metas. (key_at metas 6 ≡ some vault_profit) × (key_at metas 7 ≡ some vault_crime)

-- These tests pass.
tests_hold :
    VaultMetasHas9NamedPlus8Hooks × VaultAccountOrderingCorrect × VaultTokenAccountCrime
    × VaultTokenAccountFraud × VaultTokenAccountProfit × ProfitToCrimeHasCorrectVaults
unfolding build_vault_account_metas vault_token_account hook_metas_for_mint
tests_hold = (
  (λ d user user_input user_output. refl),
  (λ d user user_input user_output.
      (refl, refl, refl, refl, refl, refl, refl, refl, refl, refl, refl, refl, refl, refl)),
  refl,
  refl,
  refl,
  (λ d user user_input user_output. (refl, refl)),
)
