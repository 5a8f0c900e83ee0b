-- ===== src/SolPoolAmm/Discovery.antt =====
-- tests/pool_discovery_properties.rs: the account of a canonical pool of a faction token and another
-- mint, as the test writes it, and what src/sol_pool_amm.rs makes of it.
pub mod Admission
pub mod Shapes
use drfraudsworth_jupiter_ad.Prelude.{
  ℕ, ◌≡◌, ◌≢◌, ◌⊎◌, ◌<◌, refl, subst, sym, ◌∙◌, Bool, true, false, not, ◌&&◌, inl, inr, none, some,
  List, [], ◌∷◌, Bool-cases, arith, ltb, leb, ◌==◌, if◌then◌else◌, replicate, copy_from_slice,
  false-bail_if, ok->>=, ok, err, Error, Result,
}
use drfraudsworth_jupiter_ad.Words.{IsU64, to_le_bytes, to_be_bytes}
use drfraudsworth_jupiter_ad.Pubkey.{Pubkey, IsPubkey, as_ref, bytes_ge}
use drfraudsworth_jupiter_ad.Solana.{Derivation}
use drfraudsworth_jupiter_ad.Jupiter.{KeyedAccount}
use drfraudsworth_jupiter_ad.Addresses.{
  amm_program_id, native_mint, spl_token_program_id, token_2022_program_id, crime_mint, fraud_mint,
}
use drfraudsworth_jupiter_ad.Constants.{pool_state_discriminator}
use drfraudsworth_jupiter_ad.State.PoolState
use drfraudsworth_jupiter_ad.State.PoolState.{ParsedPoolState}
use drfraudsworth_jupiter_ad.State.PoolState.Layout.{IsValid, to_bytes}
use drfraudsworth_jupiter_ad.State.PoolState.Parser.{from_bytes-to_bytes}
use drfraudsworth_jupiter_ad.State.Reader.Pieces.{of_bool}
use drfraudsworth_jupiter_ad.SolPoolAmm.{
  SolPoolAmm, FactionRole, crime, fraud, from_mint, from_keyed_account, admit, check_programs,
  check_wsol, pool_pda, get_reserve_mints,
}
use drfraudsworth_jupiter_ad.SolPoolAmm.Refresh.Identity.{
  IsFresh, mint_of, from_mint-mint_of, from_mint-none, keys_order,
}

-- The mints and the token programs of the two sides, in byte order.
unfoldable pub sides : Pubkey → Pubkey → Pubkey → Pubkey × Pubkey × Pubkey × Pubkey
sides quote faction quote_program =
    if ltb quote faction
    then (quote, faction, quote_program, token_2022_program_id)
    else (faction, quote, token_2022_program_id, quote_program)

-- The account's data; the two vaults are keys that the test makes up.
unfoldable pub pool_data : Pubkey × Pubkey × Pubkey × Pubkey → Pubkey → Pubkey → ℕ → ℕ → List ℕ
pool_data (mint_a, mint_b, token_program_a, token_program_b) vault_a vault_b reserve_a reserve_b =
    let bytes = replicate 224 0 in
    let bytes = copy_from_slice bytes 0 pool_state_discriminator in
    let bytes = copy_from_slice bytes 9 (as_ref mint_a) in
    let bytes = copy_from_slice bytes 41 (as_ref mint_b) in
    let bytes = copy_from_slice bytes 73 (as_ref vault_a) in
    let bytes = copy_from_slice bytes 105 (as_ref vault_b) in
    let bytes = copy_from_slice bytes 137 (to_le_bytes 8 reserve_a) in
    let bytes = copy_from_slice bytes 145 (to_le_bytes 8 reserve_b) in
    let bytes = copy_from_slice bytes 153 (to_le_bytes 2 100) in
    let bytes = copy_from_slice bytes 155 (1 ∷ []) in
    let bytes = copy_from_slice bytes 160 (as_ref token_program_a) in
    copy_from_slice bytes 192 (as_ref token_program_b)

-- The test's `keyed`: an account of the AMM program.
abbrev pub keyed_pool : Pubkey → List ℕ → KeyedAccount
keyed_pool key bytes = record {
  key = key;
  account = record { bytes = bytes; owner = amm_program_id };
  params = none;
}

-- The program of the quote side.
abbrev pub quote_program : Bool → Pubkey
quote_program quote_is_token_2022 =
    if quote_is_token_2022 then token_2022_program_id else spl_token_program_id

-- The account of a canonical pool of a faction token and another mint, at the PDA of its mints.
unfoldable pub canonical_pool :
    Derivation → FactionRole → Pubkey → Bool → Pubkey → Pubkey → ℕ → ℕ → KeyedAccount
unfolding sides
canonical_pool d role quote quote_is_token_2022 vault_a vault_b reserve_a reserve_b =
    let s = sides quote (mint_of role) (quote_program quote_is_token_2022) in
    keyed_pool (pool_pda d s.0 s.1) (pool_data s vault_a vault_b reserve_a reserve_b)
