-- ===== src/SolPoolAmm/Tests.antt =====
-- The unit tests of src/sol_pool_amm.rs on the trait's answers and on the construction, for any
-- derivation of addresses.
use drfraudsworth_jupiter_ad.Prelude.{
  ℕ, ◌≡◌, refl, Bool, true, false, none, some, List, [], ◌∷◌, ◌==◌, length, get_elem?, replicate,
  Result, ok, err, Error, Unwrapped, UnwrappedSome, arith, if◌then◌else◌,
}
use drfraudsworth_jupiter_ad.Pubkey.{Pubkey, as_ref, try_from, bytes_ge}
use drfraudsworth_jupiter_ad.Solana.{Derivation, new_unique}
use drfraudsworth_jupiter_ad.Words.{
  to_le_bytes, from_le_bytes, to_be_bytes, from_be_bytes, bytes_eq,
}
use drfraudsworth_jupiter_ad.State.Reader.{pubkey_at, u64_at, bool_byte}
use drfraudsworth_jupiter_ad.Addresses.{
  amm_program_id, tax_program_id, crime_mint, fraud_mint, native_mint, epoch_state_pda,
  crime_sol_pool,
}
use drfraudsworth_jupiter_ad.Jupiter.{KeyedAccount}
use drfraudsworth_jupiter_ad.State.PoolState.{ParsedPoolState, token_mint}
use drfraudsworth_jupiter_ad.SolPoolAmm.{
  from_mint, new_for_testing, reserves, get_reserve_mints, get_accounts_to_update, program_id,
  from_keyed_account, pool_seed, admit, check_programs, check_wsol, pool_pda,
}
use drfraudsworth_jupiter_ad.State.PoolState
use drfraudsworth_jupiter_ad.State.PoolState.Tests.{mock_pool_state}
use drfraudsworth_jupiter_ad.Accounts.SolPoolAccounts.{known_pool_state, pool_addresses}
use drfraudsworth_jupiter_ad.SolPoolAmm.Traits.{label, program_id_to_labels}

abbrev keyed_account : Pubkey → List ℕ → Pubkey → KeyedAccount
keyed_account key bytes owner = record {
  key = key;
  account = record { bytes = bytes; owner = owner };
  params = none;
}

-- The bytes of a pool of WSOL and CRIME, in the orientation of the main network.
abbrev crime_shaped_data : List ℕ
crime_shaped_data =
    mock_pool_state native_mint crime_mint (new_unique 2) (new_unique 3) 100_000_000_000
      100_000_000_000 100

-- The bytes 0xfe and 0xff, 32 times.
abbrev unknown : Pubkey
unknown = from_be_bytes (replicate 32 0xfe)

abbrev spl_quote : Pubkey
spl_quote = from_be_bytes (replicate 32 0xff)

-- `mints.contains(&mint)`.
abbrev contains : List Pubkey → Pubkey → Bool
contains [] mint = false
contains (m ∷ mints) mint = if m == mint then true else contains mints mint

-- `PoolState::from_bytes(..).unwrap()` on bytes that parse.
abbrev pda_of : Derivation → Result ParsedPoolState → Pubkey
pda_of d (ok pool) =
    (d.find_program_address (pool_seed ∷ as_ref pool.mint_a ∷ as_ref pool.mint_b ∷ [])
      amm_program_id).0
pda_of d (err e) = 0

-- A key equals itself.
same_key : (key : Pubkey) → (key == key) ≡ true
same_key key = ground arith

abbrev canonical_key : Derivation → List ℕ → Pubkey
canonical_key d bytes = pda_of d (PoolState.from_bytes bytes)

module _ (d : Derivation) where
  abbrev LabelIsDrFraudsworth : Type 0
  LabelIsDrFraudsworth =
      UnwrappedSome (new_for_testing true 1 1 400 1_400) λ amm. label amm ≡ "Dr Fraudsworth"

  abbrev DiscoveryUsesAmmProgramWhileExecutionUsesTaxProgram : Type 0
  DiscoveryUsesAmmProgramWhileExecutionUsesTaxProgram =
      UnwrappedSome (new_for_testing true 1 1 400 1_400) λ amm.
        (program_id_to_labels ≡ (amm_program_id, "Dr Fraudsworth") ∷ [])
        × (program_id amm ≡ tax_program_id)

  abbrev ReserveMintsCorrect : Type 0
  ReserveMintsCorrect =
      ((UnwrappedSome (new_for_testing true 1 1 400 1_400)
        λ amm. get_reserve_mints amm ≡ native_mint ∷ crime_mint ∷ []))
      × ((UnwrappedSome (new_for_testing false 1 1 400 1_400)
          λ amm. get_reserve_mints amm ≡ native_mint ∷ fraud_mint ∷ []))

  abbrev AccountsToUpdateIncludesPoolAndEpoch : Type 0
  AccountsToUpdateIncludesPoolAndEpoch = UnwrappedSome (new_for_testing true 1 1 400 1_400) λ amm.
      (length (get_accounts_to_update amm) ≡ 2)
      × (get_elem? (get_accounts_to_update amm) 0 ≡ some crime_sol_pool)
      × (get_elem? (get_accounts_to_update amm) 1 ≡ some epoch_state_pda)

  abbrev FromKeyedAccountAcceptsUnregisteredCanonicalPool : Type 0
  FromKeyedAccountAcceptsUnregisteredCanonicalPool =
      Unwrapped
        (from_keyed_account d
          (keyed_account (canonical_key d (crime_shaped_data)) (crime_shaped_data) amm_program_id))
        λ amm.
          (amm.key ≡ canonical_key d crime_shaped_data)
          × (get_reserve_mints amm ≡ native_mint ∷ crime_mint ∷ [])

  abbrev FromKeyedAccountAcceptsBothFactionTokens : Type 0
  FromKeyedAccountAcceptsBothFactionTokens =
      ((Unwrapped
        (from_keyed_account d (
          keyed_account
            (canonical_key d
              (mock_pool_state native_mint crime_mint (new_unique 2) (new_unique 3) 1 1 100))
            (mock_pool_state native_mint crime_mint (new_unique 2) (new_unique 3) 1 1 100)
            amm_program_id))
        λ amm. contains (get_reserve_mints amm) crime_mint ≡ true))
      × ((Unwrapped
          (from_keyed_account d (
            keyed_account
              (canonical_key d
                (mock_pool_state native_mint fraud_mint (new_unique 2) (new_unique 3) 1 1 100))
              (mock_pool_state native_mint fraud_mint (new_unique 2) (new_unique 3) 1 1 100)
              amm_program_id))
          λ amm. contains (get_reserve_mints amm) fraud_mint ≡ true))

  abbrev FromKeyedAccountRejectsWrongOwner : Type 0
  FromKeyedAccountRejectsWrongOwner =
      from_keyed_account d (keyed_account (new_unique 4) (crime_shaped_data) (new_unique 5))
      ≡ err Error.not_amm_owned

  abbrev FromKeyedAccountRejectsUnsupportedTokenMint : Type 0
  FromKeyedAccountRejectsUnsupportedTokenMint =
      let bytes =
        if bytes_ge (as_ref unknown) (as_ref native_mint)
        then mock_pool_state native_mint unknown (new_unique 2) (new_unique 3) 1 1 100
        else mock_pool_state unknown native_mint (new_unique 2) (new_unique 3) 1 1 100 in
      from_keyed_account d (keyed_account (canonical_key d (bytes)) (bytes) amm_program_id)
      ≡ err Error.not_one_faction

  abbrev FromKeyedAccountRejectsNonSolPool : Type 0
  FromKeyedAccountRejectsNonSolPool =
      let bytes =
        if bytes_ge (as_ref fraud_mint) (as_ref crime_mint)
        then mock_pool_state crime_mint fraud_mint (new_unique 2) (new_unique 3) 1 1 100
        else mock_pool_state fraud_mint crime_mint (new_unique 2) (new_unique 3) 1 1 100 in
      from_keyed_account d (keyed_account (canonical_key d (bytes)) (bytes) amm_program_id)
      ≡ err Error.not_one_faction

  abbrev FromKeyedAccountRejectsBadDiscriminator : Type 0
  FromKeyedAccountRejectsBadDiscriminator =
      from_keyed_account d (keyed_account (new_unique 4) (replicate 224 0) amm_program_id)
      ≡ err Error.discriminator_mismatch

  abbrev FromKeyedAccountSplQuoteWithFactionOnAConstructs : Type 0
  FromKeyedAccountSplQuoteWithFactionOnAConstructs =
      let bytes = mock_pool_state crime_mint spl_quote (new_unique 2) (new_unique 3) 777 555 100 in
      Unwrapped
        (from_keyed_account d (keyed_account (canonical_key d (bytes)) (bytes) amm_program_id))
        λ amm. (get_reserve_mints amm ≡ spl_quote ∷ crime_mint ∷ []) × (reserves amm ≡ (555, 777))

  -- These tests pass.
  tests_hold_1 :
      LabelIsDrFraudsworth × DiscoveryUsesAmmProgramWhileExecutionUsesTaxProgram
      × ReserveMintsCorrect × AccountsToUpdateIncludesPoolAndEpoch
      × FromKeyedAccountAcceptsUnregisteredCanonicalPool × FromKeyedAccountAcceptsBothFactionTokens
      × FromKeyedAccountRejectsWrongOwner × FromKeyedAccountRejectsUnsupportedTokenMint
      × FromKeyedAccountRejectsNonSolPool × FromKeyedAccountRejectsBadDiscriminator
  unfolding new_for_testing known_pool_state pool_addresses token_mint from_mint get_reserve_mints
      get_accounts_to_update program_id from_keyed_account PoolState.from_bytes admit check_programs
      check_wsol pool_pda bytes_ge reserves to_le_bytes from_le_bytes to_be_bytes from_be_bytes
      as_ref try_from pubkey_at u64_at bool_byte bytes_eq
  tests_hold_1 = (
    refl,
    (refl, refl),
    (refl, refl),
    (refl, refl, refl),
    rw (same_key (canonical_key d crime_shaped_data)) (refl, refl),
    (
      rw
          (same_key (
            canonical_key d
              (mock_pool_state native_mint crime_mint (new_unique 2) (new_unique 3) 1 1 100)))
          refl,
      rw
          (same_key (
            canonical_key d
              (mock_pool_state native_mint fraud_mint (new_unique 2) (new_unique 3) 1 1 100)))
          refl,
    ),
    refl,
    rw
        (same_key (
          canonical_key d
            (mock_pool_state native_mint unknown (new_unique 2) (new_unique 3) 1 1 100)))
        refl,
    rw
        (same_key (
          canonical_key d
            (mock_pool_state crime_mint fraud_mint (new_unique 2) (new_unique 3) 1 1 100)))
        refl,
    refl,
  )

  -- This test passes.
  tests_hold_2 : FromKeyedAccountSplQuoteWithFactionOnAConstructs
  unfolding new_for_testing known_pool_state pool_addresses token_mint from_mint get_reserve_mints
      get_accounts_to_update program_id from_keyed_account PoolState.from_bytes admit check_programs
      check_wsol pool_pda bytes_ge reserves to_le_bytes from_le_bytes to_be_bytes from_be_bytes
      as_ref try_from pubkey_at u64_at bool_byte bytes_eq
  tests_hold_2 =
      rw
        (same_key (
          canonical_key d
            (mock_pool_state crime_mint spl_quote (new_unique 2) (new_unique 3) 777 555 100)))
        (refl, refl)
