-- ===== src/Accounts/SolPoolAccounts.antt =====
-- src/accounts/sol_pool_accounts.rs: the account lists of the SOL lanes of the Tax program.
pub mod Shape
pub mod Sides
mod Tests
use drfraudsworth_jupiter_ad.Prelude.{
  ℕ, Bool, true, false, not, List, [], ◌∷◌, ◌++◌, ◌==◌, if◌then◌else◌, Result, ok, Error, ◌>>=◌,
  ok_or,
}
use drfraudsworth_jupiter_ad.Pubkey.{Pubkey}
use drfraudsworth_jupiter_ad.Solana.{AccountMeta, writable, readonly, Derivation}
use drfraudsworth_jupiter_ad.Constants.{lp_fee_bps}
use drfraudsworth_jupiter_ad.Addresses.{
  amm_program_id, carnage_sol_vault_pda, crime_mint, crime_sol_pool, crime_sol_vault_a,
  crime_sol_vault_b, epoch_state_pda, escrow_vault_pda, fraud_mint, fraud_sol_pool,
  fraud_sol_vault_a, fraud_sol_vault_b, native_mint, spl_token_program_id, stake_pool_pda,
  staking_program_id, swap_authority_pda, system_program_id, tax_authority_pda,
  token_2022_program_id, treasury, wsol_intermediary_pda,
}
use drfraudsworth_jupiter_ad.Accounts.HookAccounts.{hook_metas_for_mint}
use drfraudsworth_jupiter_ad.State.PoolState.{ParsedPoolState, token_mint, sol_and_token_vaults}

pub record PoolSides : Type 0 where
  pub token_mint : Pubkey
  pub token_vault : Pubkey
  pub token_on_a : Bool

unfoldable pub resolve_sides : ParsedPoolState → Result PoolSides
resolve_sides pool = do
  mint ← ok_or (token_mint pool) Error.not_sol_pool
  let (_, vault) = sol_and_token_vaults pool
  ok (record {
    token_mint = mint;
    token_vault = vault;
    token_on_a = not (pool.mint_a == native_mint);
  })

-- The user's accounts in the order of the pool's sides.
abbrev user_atas : Bool → Pubkey → Pubkey → Pubkey × Pubkey
user_atas token_on_a user_token_ata user_sol_ata =
    if token_on_a then (user_token_ata, user_sol_ata) else (user_sol_ata, user_token_ata)

-- The 20 named accounts of SwapSolBuy.
abbrev buy_named : Pubkey → Pubkey → Pubkey → Pubkey → ParsedPoolState → List AccountMeta
buy_named user user_ata_a user_ata_b pool_key pool =
    writable user true
    ∷ readonly epoch_state_pda false
    ∷ readonly swap_authority_pda false
    ∷ readonly tax_authority_pda false
    ∷ writable pool_key false
    ∷ writable pool.vault_a false
    ∷ writable pool.vault_b false
    ∷ readonly pool.mint_a false
    ∷ readonly pool.mint_b false
    ∷ writable user_ata_a false
    ∷ writable user_ata_b false
    ∷ writable stake_pool_pda false
    ∷ writable escrow_vault_pda false
    ∷ writable carnage_sol_vault_pda false
    ∷ writable treasury false
    ∷ readonly amm_program_id false
    ∷ readonly pool.token_program_a false
    ∷ readonly pool.token_program_b false
    ∷ readonly system_program_id false
    ∷ readonly staking_program_id false
    ∷ []

-- The 21 named accounts of SwapSolSell and SwapSolBuyWsol.
abbrev intermediary_named : Pubkey → Pubkey → Pubkey → Pubkey → ParsedPoolState → List AccountMeta
intermediary_named user user_ata_a user_ata_b pool_key pool =
    readonly user true
    ∷ readonly epoch_state_pda false
    ∷ writable swap_authority_pda false
    ∷ readonly tax_authority_pda false
    ∷ writable pool_key false
    ∷ writable pool.vault_a false
    ∷ writable pool.vault_b false
    ∷ readonly pool.mint_a false
    ∷ readonly pool.mint_b false
    ∷ writable user_ata_a false
    ∷ writable user_ata_b false
    ∷ writable stake_pool_pda false
    ∷ writable escrow_vault_pda false
    ∷ writable carnage_sol_vault_pda false
    ∷ writable treasury false
    ∷ writable wsol_intermediary_pda false
    ∷ readonly amm_program_id false
    ∷ readonly pool.token_program_a false
    ∷ readonly pool.token_program_b false
    ∷ readonly system_program_id false
    ∷ readonly staking_program_id false
    ∷ []

module _ (d : Derivation) where
  unfoldable pub build_buy_account_metas_generic :
      Pubkey → Pubkey → Pubkey → Pubkey → ParsedPoolState → Result (List AccountMeta)
  build_buy_account_metas_generic user user_sol_ata user_token_ata pool_key pool = do
    sides ← resolve_sides pool
    let (user_ata_a, user_ata_b) = user_atas sides.token_on_a user_token_ata user_sol_ata
    ok (
        buy_named user user_ata_a user_ata_b pool_key pool
        ++ hook_metas_for_mint d sides.token_mint sides.token_vault user_token_ata)

  unfoldable pub build_wsol_intermediary_metas :
      Pubkey → Pubkey → Pubkey → Pubkey → ParsedPoolState → Bool → Result (List AccountMeta)
  build_wsol_intermediary_metas user user_token_ata user_sol_ata pool_key pool is_buy = do
    sides ← resolve_sides pool
    let (user_ata_a, user_ata_b) = user_atas sides.token_on_a user_token_ata user_sol_ata
    let hooks =
        if is_buy
        then hook_metas_for_mint d sides.token_mint sides.token_vault user_token_ata
        else hook_metas_for_mint d sides.token_mint user_token_ata sides.token_vault
    ok (intermediary_named user user_ata_a user_ata_b pool_key pool ++ hooks)

  unfoldable pub build_sell_account_metas_generic :
      Pubkey → Pubkey → Pubkey → Pubkey → ParsedPoolState → Result (List AccountMeta)
  build_sell_account_metas_generic user user_token_ata user_sol_ata pool_key pool =
      build_wsol_intermediary_metas user user_token_ata user_sol_ata pool_key pool false

  unfoldable pub build_buy_wsol_account_metas_generic :
      Pubkey → Pubkey → Pubkey → Pubkey → ParsedPoolState → Result (List AccountMeta)
  build_buy_wsol_account_metas_generic user user_sol_ata user_token_ata pool_key pool =
      build_wsol_intermediary_metas user user_token_ata user_sol_ata pool_key pool true

-- (pool, vault_a, vault_b, token_mint).
unfoldable pub pool_addresses : Bool → Pubkey × Pubkey × Pubkey × Pubkey
pool_addresses true = (crime_sol_pool, crime_sol_vault_a, crime_sol_vault_b, crime_mint)
pool_addresses false = (fraud_sol_pool, fraud_sol_vault_a, fraud_sol_vault_b, fraud_mint)

unfoldable pub known_pool_state : Bool → Pubkey × ParsedPoolState
unfolding pool_addresses
known_pool_state is_crime =
    let (pool, vault_a, vault_b, mint) = pool_addresses is_crime in
    (
      pool,
      record {
        mint_a = native_mint;
        mint_b = mint;
        vault_a = vault_a;
        vault_b = vault_b;
        reserve_a = 0;
        reserve_b = 0;
        lp_fee_bps = lp_fee_bps;
        initialized = true;
        locked = false;
        bump = 0;
        vault_a_bump = 0;
        vault_b_bump = 0;
        token_program_a = spl_token_program_id;
        token_program_b = token_2022_program_id;
      },
    )

-- The constant-based builders. The source unwraps with `expect`: an error is its panic.
module _ (d : Derivation) where
  unfoldable pub build_buy_account_metas :
      Pubkey → Pubkey → Pubkey → Bool → Result (List AccountMeta)
  unfolding known_pool_state
  build_buy_account_metas user user_wsol_ata user_token_ata is_crime =
      let (pool_key, pool) = known_pool_state is_crime in
      build_buy_account_metas_generic d user user_wsol_ata user_token_ata pool_key pool

  unfoldable pub build_buy_wsol_account_metas :
      Pubkey → Pubkey → Pubkey → Bool → Result (List AccountMeta)
  unfolding known_pool_state
  build_buy_wsol_account_metas user user_wsol_ata user_token_ata is_crime =
      let (pool_key, pool) = known_pool_state is_crime in
      build_buy_wsol_account_metas_generic d user user_wsol_ata user_token_ata pool_key pool

  unfoldable pub build_sell_account_metas :
      Pubkey → Pubkey → Pubkey → Bool → Result (List AccountMeta)
  unfolding known_pool_state
  build_sell_account_metas user user_token_ata user_wsol_ata is_crime =
      let (pool_key, pool) = known_pool_state is_crime in
      build_sell_account_metas_generic d user user_token_ata user_wsol_ata pool_key pool
