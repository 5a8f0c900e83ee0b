-- ===== src/Accounts/SplPoolAccounts.antt =====
-- src/accounts/spl_pool_accounts.rs: the account lists of the SPL lanes of the Tax program.
pub mod Shape
pub mod Sides
mod Tests
use drfraudsworth_jupiter_ad.Prelude.{
  ℕ, Bool, true, false, not, ◌&&◌, ◌||◌, List, [], ◌∷◌, ◌++◌, ◌==◌, bool_ne, if◌then◌else◌, Result,
  ok, Error, ◌>>=◌, ◌>>◌, bail_if,
}
use drfraudsworth_jupiter_ad.Pubkey.{Pubkey}
use drfraudsworth_jupiter_ad.Solana.{AccountMeta, writable, readonly, Derivation}
use drfraudsworth_jupiter_ad.Addresses.{
  amm_program_id, crime_mint, epoch_state_pda, fraud_mint, spl_token_program_id, swap_authority_pda,
  tax_program_id, token_2022_program_id,
}
use drfraudsworth_jupiter_ad.Accounts.HookAccounts.{hook_metas_for_mint}
use drfraudsworth_jupiter_ad.State.PoolState.{ParsedPoolState}

-- `b"sweep_authority"`.
abbrev pub sweep_authority_seed : List ℕ
sweep_authority_seed =
    b's' ∷ b'w' ∷ b'e' ∷ b'e' ∷ b'p' ∷ b'_' ∷ b'a' ∷ b'u' ∷ b't' ∷ b'h' ∷ b'o' ∷ b'r' ∷ b'i' ∷ b't'
    ∷ b'y' ∷ []

pub record FactionPoolSides : Type 0 where
  pub faction_mint : Pubkey
  pub quote_mint : Pubkey
  pub faction_vault : Pubkey
  pub faction_is_a : Bool
  pub quote_token_program : Pubkey

-- The five values behind `if a_is_faction`.
abbrev pub sides_of : ParsedPoolState → Bool → FactionPoolSides
sides_of pool true = record {
  faction_mint = pool.mint_a;
  quote_mint = pool.mint_b;
  faction_vault = pool.vault_a;
  faction_is_a = true;
  quote_token_program = pool.token_program_b;
}
sides_of pool false = record {
  faction_mint = pool.mint_b;
  quote_mint = pool.mint_a;
  faction_vault = pool.vault_b;
  faction_is_a = false;
  quote_token_program = pool.token_program_a;
}

unfoldable pub resolve_faction_sides : ParsedPoolState → Result FactionPoolSides
resolve_faction_sides pool = do
  let a_is_faction = pool.mint_a == crime_mint || pool.mint_a == fraud_mint
  let b_is_faction = pool.mint_b == crime_mint || pool.mint_b == fraud_mint
  bail_if (not (bool_ne a_is_faction b_is_faction)) Error.not_one_faction
  let sides = sides_of pool a_is_faction
  bail_if
      (not (sides.quote_token_program == spl_token_program_id)
        && not (sides.quote_token_program == token_2022_program_id))
      Error.unsupported_quote_program
  ok sides

-- The 17 named accounts of the SPL buy.
abbrev buy_named :
    Pubkey
    → Pubkey
    → Pubkey
    → Pubkey
    → Pubkey
    → Pubkey
    → ParsedPoolState
    → FactionPoolSides
    → List AccountMeta
buy_named user user_a user_b sweep_authority sweep_ata pool_key pool sides =
    readonly user true
    ∷ readonly epoch_state_pda false
    ∷ writable pool_key false
    ∷ writable pool.vault_a false
    ∷ writable pool.vault_b false
    ∷ readonly pool.mint_a false
    ∷ readonly pool.mint_b false
    ∷ writable user_a false
    ∷ writable user_b false
    ∷ readonly swap_authority_pda false
    ∷ readonly sweep_authority false
    ∷ readonly sides.quote_mint false
    ∷ writable sweep_ata false
    ∷ readonly sides.quote_token_program false
    ∷ readonly pool.token_program_a false
    ∷ readonly pool.token_program_b false
    ∷ readonly amm_program_id false
    ∷ []

-- The 18 named accounts of the SPL sell.
abbrev sell_named :
    Pubkey
    → Pubkey
    → Pubkey
    → Pubkey
    → Pubkey
    → Pubkey
    → Pubkey
    → ParsedPoolState
    → FactionPoolSides
    → List AccountMeta
sell_named user user_a user_b sweep_authority sweep_ata user_quote pool_key pool sides =
    readonly user true
    ∷ readonly epoch_state_pda false
    ∷ writable pool_key false
    ∷ writable pool.vault_a false
    ∷ writable pool.vault_b false
    ∷ readonly pool.mint_a false
    ∷ readonly pool.mint_b false
    ∷ writable user_a false
    ∷ writable user_b false
    ∷ readonly swap_authority_pda false
    ∷ readonly sweep_authority false
    ∷ readonly sides.quote_mint false
    ∷ writable sweep_ata false
    ∷ writable user_quote false
    ∷ readonly sides.quote_token_program false
    ∷ readonly pool.token_program_a false
    ∷ readonly pool.token_program_b false
    ∷ readonly amm_program_id false
    ∷ []

-- The accounts of the sides a and b, given that of the faction and that of the quote.
abbrev by_side : Bool → Pubkey → Pubkey → Pubkey × Pubkey
by_side faction_is_a faction quote = if faction_is_a then (faction, quote) else (quote, faction)

module _ (d : Derivation) where
  open d use {find_program_address, associated_token_address}

  unfoldable pub sweep_accounts : ParsedPoolState → Result (Pubkey × Pubkey)
  sweep_accounts pool = do
    sides ← resolve_faction_sides pool
    let (authority, _) = find_program_address (sweep_authority_seed ∷ []) tax_program_id
    ok (authority, associated_token_address authority sides.quote_mint sides.quote_token_program)

  unfoldable pub build_buy_account_metas_generic :
      Pubkey → Pubkey → Pubkey → Pubkey → ParsedPoolState → Result (List AccountMeta)
  build_buy_account_metas_generic user user_quote user_faction pool_key pool = do
    sides ← resolve_faction_sides pool
    (sweep_authority, sweep_ata) ← sweep_accounts pool
    let (user_a, user_b) = by_side sides.faction_is_a user_faction user_quote
    ok (
        buy_named user user_a user_b sweep_authority sweep_ata pool_key pool sides
        ++ hook_metas_for_mint d sides.faction_mint sides.faction_vault user_faction)

  unfoldable pub build_sell_account_metas_generic :
      Pubkey → Pubkey → Pubkey → Pubkey → ParsedPoolState → Result (List AccountMeta)
  build_sell_account_metas_generic user user_faction user_quote pool_key pool = do
    sides ← resolve_faction_sides pool
    (sweep_authority, sweep_ata) ← sweep_accounts pool
    let (user_a, user_b) = by_side sides.faction_is_a user_faction sweep_ata
    ok (
        sell_named user user_a user_b sweep_authority sweep_ata user_quote pool_key pool sides
        ++ hook_metas_for_mint d sides.faction_mint user_faction sides.faction_vault)
