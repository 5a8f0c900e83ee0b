-- ===== src/Accounts/SolPoolAccounts/Tests.antt =====
-- The unit tests of src/accounts/sol_pool_accounts.rs, on whatever keys they make up.
use drfraudsworth_jupiter_ad.Prelude.{◌≡◌, refl, true, false, some, length, Unwrapped, is_err}
use drfraudsworth_jupiter_ad.Pubkey.{Pubkey}
use drfraudsworth_jupiter_ad.Solana.{Derivation, key_at, signer_at, writable_at, new_unique}
use drfraudsworth_jupiter_ad.Addresses.{
  amm_program_id, transfer_hook_program_id, staking_program_id, crime_mint, fraud_mint, native_mint,
  epoch_state_pda, swap_authority_pda, wsol_intermediary_pda, crime_sol_pool, fraud_sol_pool,
  crime_hook_meta, spl_token_program_id, token_2022_program_id,
}
use drfraudsworth_jupiter_ad.Constants.{lp_fee_bps}
use drfraudsworth_jupiter_ad.State.PoolState.{ParsedPoolState, token_mint, sol_and_token_vaults}
use drfraudsworth_jupiter_ad.Accounts.HookAccounts.{hook_metas_for_mint}
use drfraudsworth_jupiter_ad.Accounts.SolPoolAccounts.{
  build_buy_account_metas, build_sell_account_metas, build_buy_account_metas_generic,
  build_sell_account_metas_generic, build_wsol_intermediary_metas, resolve_sides, known_pool_state,
  pool_addresses,
}

-- The two tests' pool of CRIME on side a and another mint on side b.
abbrev crime_on_a : Pubkey → Pubkey → Pubkey → ParsedPoolState
crime_on_a mint_b vault_a vault_b = record {
  mint_a = crime_mint;
  mint_b = mint_b;
  vault_a = vault_a;
  vault_b = vault_b;
  reserve_a = 0;
  reserve_b = 0;
  lp_fee_bps = lp_fee_bps;
  initialized = true;
  locked = false;
  bump = 0;
  vault_a_bump = 0;
  vault_b_bump = 0;
  token_program_a = token_2022_program_id;
  token_program_b = spl_token_program_id;
}

abbrev BuyMetasHas20NamedAccounts : Type 0
BuyMetasHas20NamedAccounts =
    (d : Derivation) (user wsol token : Pubkey)
    → Unwrapped (build_buy_account_metas d user wsol token true) λ metas.
      (length metas ≡ 24)
      × (key_at metas 0 ≡ some user)
      × (signer_at metas 0 ≡ some true)
      × (writable_at metas 0 ≡ some true)
      × (key_at metas 1 ≡ some epoch_state_pda)
      × (writable_at metas 1 ≡ some false)
      × (key_at metas 15 ≡ some amm_program_id)
      × (key_at metas 19 ≡ some staking_program_id)

abbrev SellMetasHas21NamedAccounts : Type 0
SellMetasHas21NamedAccounts =
    (d : Derivation) (user wsol token : Pubkey)
    → Unwrapped (build_sell_account_metas d user token wsol true) λ metas.
      (length metas ≡ 25)
      × (key_at metas 15 ≡ some wsol_intermediary_pda)
      × (writable_at metas 15 ≡ some true)
      × (key_at metas 16 ≡ some amm_program_id)
      × (key_at metas 20 ≡ some staking_program_id)

abbrev CrimePoolUsesCrimeAddresses : Type 0
CrimePoolUsesCrimeAddresses =
    (d : Derivation) (user wsol token : Pubkey)
    → Unwrapped (build_buy_account_metas d user wsol token true)
        λ metas. (key_at metas 4 ≡ some crime_sol_pool) × (key_at metas 8 ≡ some crime_mint)

abbrev FraudPoolUsesFraudAddresses : Type 0
FraudPoolUsesFraudAddresses =
    (d : Derivation) (user wsol token : Pubkey)
    → Unwrapped (build_buy_account_metas d user wsol token false)
        λ metas. (key_at metas 4 ≡ some fraud_sol_pool) × (key_at metas 8 ≡ some fraud_mint)

abbrev BuyHookAccountsAtEnd : Type 0
BuyHookAccountsAtEnd =
    (d : Derivation) (user wsol token : Pubkey)
    → Unwrapped (build_buy_account_metas d user wsol token true) λ metas.
      (key_at metas 20 ≡ some crime_hook_meta) × (key_at metas 23 ≡ some transfer_hook_program_id)

abbrev SellSwapAuthorityIsMutable : Type 0
SellSwapAuthorityIsMutable =
    (d : Derivation) (user wsol token : Pubkey)
    → Unwrapped (build_sell_account_metas d user token wsol true)
        λ metas. (key_at metas 2 ≡ some swap_authority_pda) × (writable_at metas 2 ≡ some true)

abbrev BuySwapAuthorityIsReadonly : Type 0
BuySwapAuthorityIsReadonly =
    (d : Derivation) (user wsol token : Pubkey)
    → Unwrapped (build_buy_account_metas d user wsol token true)
        λ metas. (key_at metas 2 ≡ some swap_authority_pda) × (writable_at metas 2 ≡ some false)

abbrev GenericBuilderHandlesReversedPoolOrientation : Type 0
GenericBuilderHandlesReversedPoolOrientation =
    (d : Derivation) (user wsol token_ata pool_key vault_a vault_b : Pubkey)
    → Unwrapped
        (build_buy_account_metas_generic d user wsol token_ata pool_key
          (crime_on_a native_mint vault_a vault_b))
        λ metas.
          (length metas ≡ 24)
          × (key_at metas 7 ≡ some crime_mint)
          × (key_at metas 8 ≡ some native_mint)
          × (key_at metas 9 ≡ some token_ata)
          × (key_at metas 10 ≡ some wsol)
          × (key_at metas 16 ≡ some token_2022_program_id)
          × (key_at metas 17 ≡ some spl_token_program_id)
          × (key_at metas 20 ≡ some crime_hook_meta)

abbrev GenericBuilderRejectsNonSolPool : Type 0
GenericBuilderRejectsNonSolPool =
    (d : Derivation) (user wsol token_ata pool_key vault_a vault_b : Pubkey)
    → is_err (
        build_buy_account_metas_generic d user wsol token_ata pool_key
          (crime_on_a (new_unique 1) vault_a vault_b))
      ≡ true

-- These tests pass.
tests_hold :
    BuyMetasHas20NamedAccounts × SellMetasHas21NamedAccounts × CrimePoolUsesCrimeAddresses
    × FraudPoolUsesFraudAddresses × BuyHookAccountsAtEnd × SellSwapAuthorityIsMutable
    × BuySwapAuthorityIsReadonly × GenericBuilderHandlesReversedPoolOrientation
    × GenericBuilderRejectsNonSolPool
unfolding build_buy_account_metas build_sell_account_metas build_buy_account_metas_generic
    build_sell_account_metas_generic build_wsol_intermediary_metas resolve_sides known_pool_state
    pool_addresses hook_metas_for_mint token_mint sol_and_token_vaults
tests_hold = (
  (λ d user wsol token. (refl, refl, refl, refl, refl, refl, refl, refl)),
  (λ d user wsol token. (refl, refl, refl, refl, refl)),
  (λ d user wsol token. (refl, refl)),
  (λ d user wsol token. (refl, refl)),
  (λ d user wsol token. (refl, refl)),
  (λ d user wsol token. (refl, refl)),
  (λ d user wsol token. (refl, refl)),
  (λ d user wsol token_ata pool_key vault_a vault_b.
      (refl, refl, refl, refl, refl, refl, refl, refl)),
  (λ d user wsol token_ata pool_key vault_a vault_b. refl),
)
