-- ===== src/State/PoolState/Tests.antt =====
-- The unit tests of src/state/pool_state.rs. The one on the hash of the discriminator is left out: the
-- hash is a library's.
use drfraudsworth_jupiter_ad.Prelude.{
  ℕ, ◌-◌, ◌≡◌, refl, true, false, none, some, List, [], ◌∷◌, ◌==◌, replicate, copy_from_slice, err,
  Error, Unwrapped, is_err, if◌then◌else◌,
}
use drfraudsworth_jupiter_ad.Pubkey.{Pubkey, as_ref, try_from}
use drfraudsworth_jupiter_ad.Solana.{new_unique}
use drfraudsworth_jupiter_ad.Words.{
  to_le_bytes, from_le_bytes, to_be_bytes, from_be_bytes, bytes_eq,
}
use drfraudsworth_jupiter_ad.State.Reader.{pubkey_at, u64_at, bool_byte}
use drfraudsworth_jupiter_ad.Addresses.{native_mint, spl_token_program_id, token_2022_program_id}
use drfraudsworth_jupiter_ad.State.Reader.{byte_at}
use drfraudsworth_jupiter_ad.Constants.{pool_state_discriminator}
use drfraudsworth_jupiter_ad.State.PoolState.{
  pool_state_len, from_bytes, is_sol_pool, token_mint, sol_and_token_reserves, sol_and_token_vaults,
}

-- The bytes of a pool's account with every field that is parsed.
abbrev token_program_for : Pubkey → Pubkey
token_program_for mint = if mint == native_mint then spl_token_program_id else token_2022_program_id

abbrev pub mock_pool_state : Pubkey → Pubkey → Pubkey → Pubkey → ℕ → ℕ → ℕ → List ℕ
mock_pool_state mint_a mint_b vault_a vault_b reserve_a reserve_b lp_fee_bps =
    let bytes = replicate pool_state_len 0 in
    let bytes = copy_from_slice bytes 0 pool_state_discriminator in
    let bytes = copy_from_slice bytes 8 (0 ∷ []) in
    let bytes = copy_from_slice bytes 9 (as_ref mint_a) in
    let bytes = copy_from_slice bytes 41 (as_ref mint_b) in
    let bytes = copy_from_slice bytes 73 (as_ref vault_a) in
    let bytes = copy_from_slice bytes 105 (as_ref vault_b) in
    let bytes = copy_from_slice bytes 137 (to_le_bytes 8 reserve_a) in
    let bytes = copy_from_slice bytes 145 (to_le_bytes 8 reserve_b) in
    let bytes = copy_from_slice bytes 153 (to_le_bytes 2 lp_fee_bps) in
    let bytes = copy_from_slice bytes 155 (1 ∷ []) in
    let bytes = copy_from_slice bytes 156 (0 ∷ []) in
    let bytes = copy_from_slice bytes 157 (254 ∷ []) in
    let bytes = copy_from_slice bytes 158 (253 ∷ []) in
    let bytes = copy_from_slice bytes 159 (252 ∷ []) in
    let bytes = copy_from_slice bytes 160 (as_ref (token_program_for mint_a)) in
    copy_from_slice bytes 192 (as_ref (token_program_for mint_b))

-- The keys that the tests make up.
abbrev token : Pubkey
token = new_unique 1

abbrev va : Pubkey
va = new_unique 2

abbrev vb : Pubkey
vb = new_unique 3

abbrev ParseNormalOrderSolPool : Type 0
ParseNormalOrderSolPool =
    Unwrapped (from_bytes (mock_pool_state native_mint token va vb 100_000_000 500_000_000 100))
      λ parsed.
        (parsed.mint_a ≡ native_mint)
        × (parsed.mint_b ≡ token)
        × (parsed.vault_a ≡ va)
        × (parsed.vault_b ≡ vb)
        × (parsed.reserve_a ≡ 100_000_000)
        × (parsed.reserve_b ≡ 500_000_000)
        × (parsed.lp_fee_bps ≡ 100)
        × (parsed.initialized ≡ true)
        × (parsed.locked ≡ false)
        × (parsed.token_program_a ≡ spl_token_program_id)
        × (parsed.token_program_b ≡ token_2022_program_id)
        × (is_sol_pool parsed ≡ true)
        × (token_mint parsed ≡ some token)
        × (sol_and_token_reserves parsed ≡ (100_000_000, 500_000_000))
        × (sol_and_token_vaults parsed ≡ (va, vb))

abbrev ParseReversedOrderPool : Type 0
ParseReversedOrderPool =
    Unwrapped (from_bytes (mock_pool_state token native_mint va vb 500_000_000 100_000_000 100))
      λ parsed.
        (is_sol_pool parsed ≡ true)
        × (token_mint parsed ≡ some token)
        × (sol_and_token_reserves parsed ≡ (100_000_000, 500_000_000))
        × (sol_and_token_vaults parsed ≡ (vb, va))

abbrev NonSolPoolHasNoTokenMint : Type 0
NonSolPoolHasNoTokenMint =
    Unwrapped (from_bytes (mock_pool_state (new_unique 4) (new_unique 5) va vb 1 1 100))
      λ parsed. (is_sol_pool parsed ≡ false) × (token_mint parsed ≡ none)

abbrev RejectTooShort : Type 0
RejectTooShort = is_err (from_bytes (replicate 100 0)) ≡ true

abbrev RejectWrongDiscriminator : Type 0
RejectWrongDiscriminator =
    let bytes = mock_pool_state native_mint token va vb 1 1 100 in
    from_bytes (copy_from_slice bytes 0 ((0xff - byte_at bytes 0) ∷ []))
    ≡ err Error.discriminator_mismatch

abbrev LpFeeParsedCorrectly : Type 0
LpFeeParsedCorrectly =
    Unwrapped (from_bytes (mock_pool_state native_mint token va vb 1 1 50))
      λ parsed. parsed.lp_fee_bps ≡ 50

-- These tests pass.
tests_hold :
    ParseNormalOrderSolPool × ParseReversedOrderPool × NonSolPoolHasNoTokenMint × RejectTooShort
    × RejectWrongDiscriminator × LpFeeParsedCorrectly
unfolding from_bytes is_sol_pool token_mint sol_and_token_reserves sol_and_token_vaults to_le_bytes
    from_le_bytes to_be_bytes from_be_bytes as_ref try_from pubkey_at u64_at bool_byte bytes_eq
tests_hold = (
  (refl, refl, refl, refl, refl, refl, refl, refl, refl, refl, refl, refl, refl, refl, refl),
  (refl, refl, refl, refl),
  (refl, refl),
  refl,
  refl,
  refl,
)
