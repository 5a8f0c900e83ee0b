-- ===== src/State/PoolState/Sides.antt =====
-- The orientation helpers of src/state/pool_state.rs agree with one another, and do not depend on
-- which side of the pool SOL is.
use drfraudsworth_jupiter_ad.Prelude.{◌≡◌, ◌≢◌, ◌⊎◌, true, none, some, arith}
use drfraudsworth_jupiter_ad.Addresses.{native_mint}
use drfraudsworth_jupiter_ad.State.PoolState.{
  ParsedPoolState, is_sol_pool, token_mint, sol_and_token_reserves, sol_and_token_vaults,
}

-- The same pool with its sides exchanged.
abbrev pub mirror : ParsedPoolState → ParsedPoolState
mirror pool = record pool {
  mint_a = pool.mint_b;
  mint_b = pool.mint_a;
  vault_a = pool.vault_b;
  vault_b = pool.vault_a;
  reserve_a = pool.reserve_b;
  reserve_b = pool.reserve_a;
  vault_a_bump = pool.vault_b_bump;
  vault_b_bump = pool.vault_a_bump;
  token_program_a = pool.token_program_b;
  token_program_b = pool.token_program_a;
}

-- Where a token mint is found, exactly one side is SOL, and mint, reserves and vaults are taken
-- from the same orientation; a pool with no token mint is no SOL pool.
token_mint_orientation :
    (pool : ParsedPoolState)
    → ((token_mint pool ≡ none) × (is_sol_pool pool ≢ true))
      ⊎ ((is_sol_pool pool ≡ true)
          × (pool.mint_a ≡ native_mint)
          × (token_mint pool ≡ some pool.mint_b)
          × (pool.mint_b ≢ native_mint)
          × (sol_and_token_reserves pool ≡ (pool.reserve_a, pool.reserve_b))
          × (sol_and_token_vaults pool ≡ (pool.vault_a, pool.vault_b)))
      ⊎ ((is_sol_pool pool ≡ true)
          × (pool.mint_b ≡ native_mint)
          × (token_mint pool ≡ some pool.mint_a)
          × (pool.mint_a ≢ native_mint)
          × (sol_and_token_reserves pool ≡ (pool.reserve_b, pool.reserve_a))
          × (sol_and_token_vaults pool ≡ (pool.vault_b, pool.vault_a)))
unfolding token_mint is_sol_pool sol_and_token_reserves sol_and_token_vaults
token_mint_orientation pool = ground arith

-- The helpers answer alike for a SOL pool and for the same pool with its sides exchanged.
sides-mirror :
    (pool : ParsedPoolState)
    → is_sol_pool pool ≡ true
    → (is_sol_pool (mirror pool) ≡ true)
      × (token_mint (mirror pool) ≡ token_mint pool)
      × (sol_and_token_reserves (mirror pool) ≡ sol_and_token_reserves pool)
      × (sol_and_token_vaults (mirror pool) ≡ sol_and_token_vaults pool)
unfolding token_mint is_sol_pool sol_and_token_reserves sol_and_token_vaults
sides-mirror pool h = (ground arith, ground arith, ground arith, ground arith)
