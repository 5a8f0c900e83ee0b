-- ===== src/State/PoolState.antt =====
-- src/state/pool_state.rs: the parser of the AMM's PoolState account and its orientation helpers.
pub mod Layout
pub mod Outcome
pub mod Parser
pub mod Sides
pub mod Tests
use drfraudsworth_jupiter_ad.Prelude.{
  ℕ, Bool, not, ◌&&◌, bool_ne, [], ◌∷◌, Option, none, some, List, length, ◌==◌, if◌then◌else◌,
  Result, ok, err, Error, ◌>>=◌, ◌>>◌, bail_if,
}
use drfraudsworth_jupiter_ad.Words.{from_le_bytes, bytes_eq}
use drfraudsworth_jupiter_ad.Pubkey.{Pubkey}
use drfraudsworth_jupiter_ad.Addresses.{native_mint}
use drfraudsworth_jupiter_ad.Constants.{pool_state_discriminator}
use drfraudsworth_jupiter_ad.State.Reader.{byte_at, slice, pubkey_at, u64_at, bool_byte}

abbrev pub pool_state_len : ℕ
pool_state_len = 224

pub record ParsedPoolState : Type 0 where
  pub mint_a : Pubkey
  pub mint_b : Pubkey
  pub vault_a : Pubkey
  pub vault_b : Pubkey
  pub reserve_a : ℕ
  pub reserve_b : ℕ
  pub lp_fee_bps : ℕ
  pub initialized : Bool
  pub locked : Bool
  pub bump : ℕ
  pub vault_a_bump : ℕ
  pub vault_b_bump : ℕ
  pub token_program_a : Pubkey
  pub token_program_b : Pubkey

unfoldable pub from_bytes : List ℕ → Result ParsedPoolState
from_bytes bytes = do
  bail_if (not (length bytes == pool_state_len)) Error.length_mismatch
  bail_if (not (bytes_eq (slice bytes 0 8) pool_state_discriminator)) Error.discriminator_mismatch
  mint_a ← pubkey_at bytes 9 41
  mint_b ← pubkey_at bytes 41 73
  vault_a ← pubkey_at bytes 73 105
  vault_b ← pubkey_at bytes 105 137
  reserve_a ← u64_at bytes 137 145
  reserve_b ← u64_at bytes 145 153
  initialized ← bool_byte (byte_at bytes 155)
  locked ← bool_byte (byte_at bytes 156)
  token_program_a ← pubkey_at bytes 160 192
  token_program_b ← pubkey_at bytes 192 224
  ok (record {
    mint_a = mint_a;
    mint_b = mint_b;
    vault_a = vault_a;
    vault_b = vault_b;
    reserve_a = reserve_a;
    reserve_b = reserve_b;
    lp_fee_bps = from_le_bytes (byte_at bytes 153 ∷ byte_at bytes 154 ∷ []);
    initialized = initialized;
    locked = locked;
    bump = byte_at bytes 157;
    vault_a_bump = byte_at bytes 158;
    vault_b_bump = byte_at bytes 159;
    token_program_a = token_program_a;
    token_program_b = token_program_b;
  })

-- The methods of `ParsedPoolState`.
unfoldable pub is_sol_pool : ParsedPoolState → Bool
is_sol_pool pool = bool_ne (pool.mint_a == native_mint) (pool.mint_b == native_mint)

unfoldable pub token_mint : ParsedPoolState → Option Pubkey
token_mint pool =
    if (pool.mint_a == native_mint) && not (pool.mint_b == native_mint)
    then some pool.mint_b
    else if (pool.mint_b == native_mint) && not (pool.mint_a == native_mint)
    then some pool.mint_a
    else none

unfoldable pub sol_and_token_reserves : ParsedPoolState → ℕ × ℕ
sol_and_token_reserves pool =
    if pool.mint_a == native_mint
    then (pool.reserve_a, pool.reserve_b)
    else (pool.reserve_b, pool.reserve_a)

unfoldable pub sol_and_token_vaults : ParsedPoolState → Pubkey × Pubkey
sol_and_token_vaults pool =
    if pool.mint_a == native_mint
    then (pool.vault_a, pool.vault_b)
    else (pool.vault_b, pool.vault_a)
