-- ===== src/Accounts/SplPoolAccounts/Tests.antt =====
-- The unit tests of src/accounts/spl_pool_accounts.rs, in both orientations of a pool and on whatever
-- accounts they make up.
use drfraudsworth_jupiter_ad.Prelude.{
  ◌≡◌, refl, Bool, true, false, some, length, Unwrapped, if◌then◌else◌,
}
use drfraudsworth_jupiter_ad.Pubkey.{Pubkey}
use drfraudsworth_jupiter_ad.Solana.{Derivation, key_at, new_unique}
use drfraudsworth_jupiter_ad.Addresses.{
  crime_mint, crime_hook_meta, spl_token_program_id, token_2022_program_id,
}
use drfraudsworth_jupiter_ad.State.PoolState.{ParsedPoolState}
use drfraudsworth_jupiter_ad.Accounts.HookAccounts.{hook_metas_for_mint}
use drfraudsworth_jupiter_ad.Accounts.SplPoolAccounts.{
  build_buy_account_metas_generic, build_sell_account_metas_generic, resolve_faction_sides,
  sweep_accounts,
}

-- A pool of CRIME and another mint.
abbrev pool_of : Bool → Pubkey → Pubkey → ParsedPoolState
pool_of faction_is_a vault_a vault_b = record {
  mint_a = if faction_is_a then crime_mint else new_unique 1;
  mint_b = if faction_is_a then new_unique 1 else crime_mint;
  vault_a = vault_a;
  vault_b = vault_b;
  reserve_a = 10;
  reserve_b = 20;
  lp_fee_bps = 100;
  initialized = true;
  locked = false;
  bump = 1;
  vault_a_bump = 2;
  vault_b_bump = 3;
  token_program_a = if faction_is_a then token_2022_program_id else spl_token_program_id;
  token_program_b = if faction_is_a then spl_token_program_id else token_2022_program_id;
}

-- The bodies of the loops over the orientations.
abbrev BuyLayoutMatches :
    Derivation → Bool → Pubkey → Pubkey → Pubkey → Pubkey → Pubkey → Pubkey → Type 0
BuyLayoutMatches d reversed user quote faction key vault_a vault_b =
    let pool = pool_of reversed vault_a vault_b in
    Unwrapped (build_buy_account_metas_generic d user quote faction key pool) λ metas.
      Unwrapped (resolve_faction_sides pool) λ sides.
        (length metas ≡ 21)
        × (key_at metas 0 ≡ some user)
        × (key_at metas 11 ≡ some sides.quote_mint)
        × (key_at metas 17 ≡ some crime_hook_meta)
        × (key_at metas 7 ≡ some (if reversed then faction else quote))
        × (key_at metas 8 ≡ some (if reversed then quote else faction))

abbrev SellUsesSweep :
    Derivation → Bool → Pubkey → Pubkey → Pubkey → Pubkey → Pubkey → Pubkey → Type 0
SellUsesSweep d faction_is_a user faction destination key vault_a vault_b =
    let pool = pool_of faction_is_a vault_a vault_b in
    Unwrapped (build_sell_account_metas_generic d user faction destination key pool) λ metas.
      Unwrapped (sweep_accounts d pool) λ (authority, sweep).
        (length metas ≡ 22)
        × (key_at metas 13 ≡ some destination)
        × (key_at metas 7 ≡ some (if faction_is_a then faction else sweep))
        × (key_at metas 8 ≡ some (if faction_is_a then sweep else faction))

abbrev BuyLayoutMatchesAnchorOrderInBothOrientations : Type 0
BuyLayoutMatchesAnchorOrderInBothOrientations =
    (d : Derivation) (user quote faction key vault_a vault_b : Pubkey)
    → (BuyLayoutMatches d false user quote faction key vault_a vault_b)
      × (BuyLayoutMatches d true user quote faction key vault_a vault_b)

abbrev SellUsesSweepInQuoteSlotAndSeparateDestination : Type 0
SellUsesSweepInQuoteSlotAndSeparateDestination =
    (d : Derivation) (user destination faction key vault_a vault_b : Pubkey)
    → (SellUsesSweep d false user faction destination key vault_a vault_b)
      × (SellUsesSweep d true user faction destination key vault_a vault_b)

-- These tests pass.
tests_hold :
    BuyLayoutMatchesAnchorOrderInBothOrientations × SellUsesSweepInQuoteSlotAndSeparateDestination
unfolding build_buy_account_metas_generic build_sell_account_metas_generic resolve_faction_sides
    sweep_accounts hook_metas_for_mint
tests_hold = (
  (λ d user quote faction key vault_a vault_b.
      ((refl, refl, refl, refl, refl, refl), (refl, refl, refl, refl, refl, refl))),
  (λ d user destination faction key vault_a vault_b.
      ((refl, refl, refl, refl), (refl, refl, refl, refl))),
)
