-- ===== src/VaultAmm/Tests.antt =====
-- The unit tests of src/vault_amm.rs, for any decimals and any derivation of addresses, with distinct
-- synthetic keys where a test is about that.
use drfraudsworth_jupiter_ad.Prelude.{
  ℕ, ◌≡◌, ◌≢◌, refl, true, none, some, List, [], ◌∷◌, ◌==◌, length, get_elem?, replicate, Unwrapped,
  UnwrappedSome, is_ok, is_err, arith, All, if◌then◌else◌,
}
use drfraudsworth_jupiter_ad.Pubkey.{Pubkey, as_ref, try_from}
use drfraudsworth_jupiter_ad.Solana.{Derivation, new_unique}
use drfraudsworth_jupiter_ad.Addresses.{
  conversion_vault_program_id, crime_mint, fraud_mint, profit_mint, vault_config_pda, vault_crime,
  vault_profit, crime_sol_pool, fraud_sol_pool, token_2022_program_id,
}
use drfraudsworth_jupiter_ad.Jupiter.{
  AccountMap, QuoteParams, Decimals, SwapMode, exact_in, exact_out,
}
use drfraudsworth_jupiter_ad.Words.{to_le_bytes, from_le_bytes, to_be_bytes, from_be_bytes}
use drfraudsworth_jupiter_ad.State.Reader.{pubkey_at, u64_at}
use drfraudsworth_jupiter_ad.Math.VaultMath.{compute_vault_output}
use drfraudsworth_jupiter_ad.State.TokenAccount.{parse_token_account_amount}
use drfraudsworth_jupiter_ad.State.TokenAccount.Tests.{mock_token_account}
use drfraudsworth_jupiter_ad.VaultAmm.{
  derive_synthetic_key, vault_for_mint, conversion_output_vault, instance_of, instances_of,
  known_instances, keys_of, known_sol_pool_keys, all_pool_keys, new_for_testing, get_reserve_mints,
  get_accounts_to_update, underlying_liquidities, update, refreshed_balance, set_balance,
  validate_mint_pair, quote,
}
use drfraudsworth_jupiter_ad.VaultAmm.Edges.{HasDistinctKeys}
use drfraudsworth_jupiter_ad.VaultAmm.Labels.{format_label, mint_name}
use drfraudsworth_jupiter_ad.VaultAmm.Traits.{label, program_id, unidirectional}

abbrev request : ℕ → Pubkey → Pubkey → SwapMode → QuoteParams
request amount input_mint output_mint swap_mode = record {
  amount = amount;
  input_mint = input_mint;
  output_mint = output_mint;
  swap_mode = swap_mode;
}

-- No two keys are the same: the two loops over the indices.
abbrev AllDistinct : List Pubkey → Type 0
AllDistinct [] = Unit {0}
AllDistinct (key ∷ keys) = All (λ other. key ≢ other) keys × AllDistinct keys

-- A filled configuration, and the vault's account of PROFIT with a balance of 500.
abbrev account_map : AccountMap
account_map key =
    if key == vault_config_pda
    then some (record { bytes = replicate 9 1; owner = conversion_vault_program_id })
    else if key == vault_profit
    then some (record {
      bytes = mock_token_account profit_mint (new_unique 1) 500;
      owner = token_2022_program_id;
    })
    else none

vaults_differ : vault_profit ∷ [] ≢ vault_crime ∷ []
vaults_differ e = let h : vault_profit ≡ vault_crime = cc in omega arith

module _ {Decimal : Type 0} (dec : Decimals Decimal) (d : Derivation) where
  abbrev CrimeToProfitQuote : Type 0
  CrimeToProfitQuote = UnwrappedSome (known_instances d) λ instances.
      UnwrappedSome (get_elem? instances 0) λ (key, amm).
        Unwrapped (quote dec amm (request 10_000 crime_mint profit_mint exact_in)) λ quote.
          (quote.out_amount ≡ 100) × (quote.fee_amount ≡ 0) × (quote.fee_pct ≡ dec.zero_decimal)

  abbrev ProfitToFraudQuote : Type 0
  ProfitToFraudQuote = UnwrappedSome (known_instances d) λ instances.
      UnwrappedSome (get_elem? instances 3) λ (key, amm).
        Unwrapped (quote dec amm (request 50 profit_mint fraud_mint exact_in))
          λ quote. (quote.out_amount ≡ 5_000) × (quote.fee_amount ≡ 0)

  abbrev SmallInputCrimeToProfitErrors : Type 0
  SmallInputCrimeToProfitErrors = UnwrappedSome (known_instances d) λ instances.
      UnwrappedSome (get_elem? instances 0)
        λ (key, amm). is_err (quote dec amm (request 99 crime_mint profit_mint exact_in)) ≡ true

  abbrev KnownInstancesReturns4 : Type 0
  KnownInstancesReturns4 =
      HasDistinctKeys d
      → UnwrappedSome (known_instances d)
          λ instances. (length instances ≡ 4) × (AllDistinct (keys_of d instances))

  abbrev KnownSolPoolKeysReturns2 : Type 0
  KnownSolPoolKeysReturns2 =
      (length (known_sol_pool_keys d) ≡ 2)
      × (get_elem? (known_sol_pool_keys d) 0 ≡ some crime_sol_pool)
      × (get_elem? (known_sol_pool_keys d) 1 ≡ some fraud_sol_pool)

  abbrev AllPoolKeysReturns6 : Type 0
  AllPoolKeysReturns6 = UnwrappedSome (all_pool_keys d) λ keys.
      UnwrappedSome (known_instances d) λ instances.
        (length keys ≡ 6)
        × (get_elem? keys 0 ≡ some crime_sol_pool)
        × (get_elem? keys 1 ≡ some fraud_sol_pool)
        × (get_elem? keys 2 ≡ get_elem? (keys_of d instances) 0)
        × (get_elem? keys 3 ≡ get_elem? (keys_of d instances) 1)
        × (get_elem? keys 4 ≡ get_elem? (keys_of d instances) 2)
        × (get_elem? keys 5 ≡ get_elem? (keys_of d instances) 3)

  abbrev SyntheticKeysAreDeterministic : Type 0
  SyntheticKeysAreDeterministic =
      derive_synthetic_key d crime_mint profit_mint ≡ derive_synthetic_key d crime_mint profit_mint

  abbrev ReverseDirectionHasDifferentKey : Type 0
  ReverseDirectionHasDifferentKey =
      HasDistinctKeys d
      → derive_synthetic_key d crime_mint profit_mint
        ≢ derive_synthetic_key d profit_mint crime_mint

  abbrev VaultAmmIsUnidirectional : Type 0
  VaultAmmIsUnidirectional =
      UnwrappedSome (known_instances d)
        λ instances. UnwrappedSome (get_elem? instances 0) λ (key, amm). unidirectional amm ≡ true

  abbrev LabelIsDrFraudsworthVault : Type 0
  LabelIsDrFraudsworthVault = UnwrappedSome (known_instances d) λ instances.
      UnwrappedSome (get_elem? instances 0) λ (key, amm). label amm ≡ "Dr Fraudsworth Vault"

  abbrev ProgramIdIsVault : Type 0
  ProgramIdIsVault = UnwrappedSome (known_instances d) λ instances.
      UnwrappedSome (get_elem? instances 0)
        λ (key, amm). program_id amm ≡ conversion_vault_program_id

  abbrev ReserveMintsMatchDirection : Type 0
  ReserveMintsMatchDirection =
      ((UnwrappedSome (known_instances d) λ instances.
        UnwrappedSome (get_elem? instances 0)
          λ (key, amm). get_reserve_mints amm ≡ crime_mint ∷ profit_mint ∷ []))
      × ((UnwrappedSome (known_instances d) λ instances.
          UnwrappedSome (get_elem? instances 3)
            λ (key, amm). get_reserve_mints amm ≡ profit_mint ∷ fraud_mint ∷ []))

  abbrev ExactOutNotSupported : Type 0
  ExactOutNotSupported = UnwrappedSome (known_instances d) λ instances.
      UnwrappedSome (get_elem? instances 0) λ (key, amm).
        is_err (quote dec amm (request 10_000 crime_mint profit_mint exact_out)) ≡ true

  abbrev WrongInputMintErrors : Type 0
  WrongInputMintErrors = UnwrappedSome (known_instances d) λ instances.
      UnwrappedSome (get_elem? instances 0)
        λ (key, amm). is_err (quote dec amm (request 10_000 fraud_mint profit_mint exact_in)) ≡ true

  abbrev AccountsToUpdateHasConfigAndOutputVault : Type 0
  AccountsToUpdateHasConfigAndOutputVault =
      ((UnwrappedSome (known_instances d) λ instances.
        UnwrappedSome (get_elem? instances 0)
          λ (key, amm). get_accounts_to_update amm ≡ vault_config_pda ∷ vault_profit ∷ []))
      × ((UnwrappedSome (known_instances d) λ instances.
          UnwrappedSome (get_elem? instances 2)
            λ (key, amm). get_accounts_to_update amm ≡ vault_config_pda ∷ vault_crime ∷ []))

  abbrev QuoteCappedAtOutputVaultBalance : Type 0
  QuoteCappedAtOutputVaultBalance = UnwrappedSome (new_for_testing d crime_mint profit_mint) λ amm.
      (is_err (
          quote dec (record amm { output_vault_balance = 100 })
            (request 20_000 crime_mint profit_mint exact_in))
        ≡ true)
      × ((Unwrapped
          (quote dec (record amm { output_vault_balance = 200 })
            (request 20_000 crime_mint profit_mint exact_in))
          λ quote. quote.out_amount ≡ 200))

  abbrev ProfitOutputsShareUnderlyingLiquidity : Type 0
  ProfitOutputsShareUnderlyingLiquidity = UnwrappedSome (known_instances d) λ instances.
      UnwrappedSome (get_elem? instances 0) λ (key, crime_to_profit).
        UnwrappedSome (get_elem? instances 1) λ (key, fraud_to_profit).
          UnwrappedSome (get_elem? instances 2) λ (key, profit_to_crime).
            (underlying_liquidities crime_to_profit ≡ underlying_liquidities fraud_to_profit)
            × (underlying_liquidities crime_to_profit ≢ underlying_liquidities profit_to_crime)

  abbrev UpdateRefreshesOutputVaultBalance : Type 0
  UpdateRefreshesOutputVaultBalance =
      UnwrappedSome (new_for_testing d crime_mint profit_mint) λ amm.
        let (later, result) = update amm account_map in
        (is_ok result ≡ true)
        × (is_err (quote dec later (request 60_000 crime_mint profit_mint exact_in)) ≡ true)
        × (is_ok (quote dec later (request 40_000 crime_mint profit_mint exact_in)) ≡ true)

  -- These tests pass.
  tests_hold_1 :
      CrimeToProfitQuote × ProfitToFraudQuote × SmallInputCrimeToProfitErrors
      × KnownInstancesReturns4 × KnownSolPoolKeysReturns2 × AllPoolKeysReturns6
      × SyntheticKeysAreDeterministic × ReverseDirectionHasDifferentKey × VaultAmmIsUnidirectional
      × LabelIsDrFraudsworthVault
  unfolding known_instances instances_of derive_synthetic_key vault_for_mint conversion_output_vault
      instance_of all_pool_keys new_for_testing get_reserve_mints get_accounts_to_update
      underlying_liquidities update refreshed_balance set_balance validate_mint_pair quote
      compute_vault_output parse_token_account_amount as_ref to_be_bytes from_be_bytes to_le_bytes
      from_le_bytes try_from pubkey_at u64_at format_label mint_name
  tests_hold_1 = (
    (refl, refl, refl),
    (refl, refl),
    refl,
    (λ h. (
      refl,
      (
        (h.crime_fraud, (h.crime_from, (h.crime_to_fraud, tt))),
        ((h.fraud_to_crime, (h.fraud_from, tt)), ((h.from_from, tt), (tt, tt))),
      ),
    )),
    (refl, refl, refl),
    (refl, refl, refl, refl, refl, refl, refl),
    refl,
    (λ h. h.crime_from),
    refl,
    refl,
  )

  -- These tests pass.
  tests_hold_2 :
      ProgramIdIsVault × ReserveMintsMatchDirection × ExactOutNotSupported × WrongInputMintErrors
      × AccountsToUpdateHasConfigAndOutputVault × QuoteCappedAtOutputVaultBalance
      × ProfitOutputsShareUnderlyingLiquidity × UpdateRefreshesOutputVaultBalance
  unfolding known_instances instances_of derive_synthetic_key vault_for_mint conversion_output_vault
      instance_of all_pool_keys new_for_testing get_reserve_mints get_accounts_to_update
      underlying_liquidities update refreshed_balance set_balance validate_mint_pair quote
      compute_vault_output parse_token_account_amount as_ref to_be_bytes from_be_bytes to_le_bytes
      from_le_bytes try_from pubkey_at u64_at format_label mint_name
  tests_hold_2 = (
    refl,
    (refl, refl),
    refl,
    refl,
    (refl, refl),
    (refl, refl),
    (refl, vaults_differ),
    (refl, refl, refl),
  )
