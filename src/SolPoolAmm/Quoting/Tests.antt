-- ===== src/SolPoolAmm/Quoting/Tests.antt =====
-- The unit tests of src/sol_pool_amm.rs on quotes, with whatever decimals and mint library. A shared
-- clock begins at slot 0.
use drfraudsworth_jupiter_ad.Prelude.{
  ℕ, ◌≡◌, refl, true, false, none, ltb, leb, err, Error, Unwrapped, UnwrappedSome, is_ok, is_err,
}
use drfraudsworth_jupiter_ad.Pubkey.{Pubkey}
use drfraudsworth_jupiter_ad.Addresses.{crime_mint, fraud_mint, native_mint}
use drfraudsworth_jupiter_ad.Jupiter.{
  AccountMap, QuoteParams, Decimals, SwapMode, exact_in, exact_out,
}
use drfraudsworth_jupiter_ad.State.PoolState.{token_mint}
use drfraudsworth_jupiter_ad.SolPoolAmm.{
  from_mint, new_for_testing, is_active, reserves, validate_mint_pair,
}
use drfraudsworth_jupiter_ad.SolPoolAmm.Quoting.{
  quote, quote_buy, quote_sell, quote_after_tax, total_buy_fee_pct, total_sell_fee_pct,
}
use drfraudsworth_jupiter_ad.State.MintState.{MintLibrary}
use drfraudsworth_jupiter_ad.Accounts.SolPoolAccounts.{known_pool_state, pool_addresses}
use drfraudsworth_jupiter_ad.Math.AmmMath.{calculate_effective_input, calculate_swap_output}
use drfraudsworth_jupiter_ad.Math.TaxMath.{calculate_tax}
use drfraudsworth_jupiter_ad.SolPoolAmm.Refresh.{update, with_pool, refresh_pool}

abbrev request : ℕ → Pubkey → Pubkey → SwapMode → QuoteParams
request amount input_mint output_mint swap_mode = record {
  amount = amount;
  input_mint = input_mint;
  output_mint = output_mint;
  swap_mode = swap_mode;
}

-- `AccountMap::default()`.
abbrev no_accounts : AccountMap
no_accounts key = none

module _ {Mint Decimal : Type 0} (lib : MintLibrary Mint) (dec : Decimals Decimal) where
  open dec use {from_u32, divide}

  abbrev BuyQuoteAppliesTaxBeforeSwap : Type 0
  BuyQuoteAppliesTaxBeforeSwap =
      UnwrappedSome (new_for_testing true 100_000_000_000 100_000_000_000 400 1_400) λ amm.
        Unwrapped (quote dec 0 amm (request 1_000_000_000 native_mint crime_mint exact_in)) λ quote.
          (ltb 0 quote.out_amount ≡ true)
          × (ltb quote.out_amount 1_000_000_000 ≡ true)
          × (leb 40_000_000 quote.fee_amount ≡ true)
          × (quote.in_amount ≡ 1_000_000_000)
          × (quote.fee_mint ≡ native_mint)

  abbrev SellQuoteAppliesTaxAfterSwap : Type 0
  SellQuoteAppliesTaxAfterSwap =
      UnwrappedSome (new_for_testing true 100_000_000_000 100_000_000_000 400 1_400) λ amm.
        Unwrapped (quote dec 0 amm (request 1_000_000_000 crime_mint native_mint exact_in)) λ quote.
          (ltb 0 quote.out_amount ≡ true)
          × (quote.fee_mint ≡ native_mint)
          × (ltb 0 quote.fee_amount ≡ true)

  abbrev BuyZeroInputReturnsZeroOutput : Type 0
  BuyZeroInputReturnsZeroOutput =
      UnwrappedSome (new_for_testing true 100_000_000_000 100_000_000_000 400 1_400) λ amm.
        Unwrapped (quote dec 0 amm (request 0 native_mint crime_mint exact_in))
          λ quote. quote.out_amount ≡ 0

  abbrev SellZeroSolReservesReturnsZeroOutput : Type 0
  SellZeroSolReservesReturnsZeroOutput =
      UnwrappedSome (new_for_testing true 0 100_000_000_000 400 1_400) λ amm.
        Unwrapped (quote dec 0 amm (request 1_000_000_000 crime_mint native_mint exact_in))
          λ quote. quote.out_amount ≡ 0

  abbrev SellZeroTokenReservesErrors : Type 0
  SellZeroTokenReservesErrors =
      UnwrappedSome (new_for_testing true 100_000_000_000 0 400 1_400) λ amm.
        is_ok (quote dec 0 amm (request 1_000_000_000 crime_mint native_mint exact_in)) ≡ true

  abbrev ExactOutNotSupported : Type 0
  ExactOutNotSupported =
      UnwrappedSome (new_for_testing true 100_000_000_000 100_000_000_000 400 1_400) λ amm.
        is_err (quote dec 0 amm (request 1_000_000_000 native_mint crime_mint exact_out)) ≡ true

  abbrev QuoteRefusedWhileManualPauseIsActive : Type 0
  QuoteRefusedWhileManualPauseIsActive =
      UnwrappedSome (new_for_testing true 100_000_000_000 100_000_000_000 400 1_400) λ amm.
        (quote dec 0 (record amm { trading_paused = true })
            (request 1_000_000_000 native_mint crime_mint exact_in)
          ≡ err Error.inactive)
        × (is_ok (
              quote dec 0 (record amm { trading_paused = false })
                (request 1_000_000_000 native_mint crime_mint exact_in))
            ≡ true)

  abbrev PauseEndSlotBoundaryIsInclusive : Type 0
  PauseEndSlotBoundaryIsInclusive =
      UnwrappedSome (new_for_testing true 100_000_000_000 100_000_000_000 400 1_400) λ amm.
        let amm = record amm { pause_end_slot = 500 } in
        (is_active 499 amm ≡ false)
        × (is_err (quote dec 499 amm (request 1_000_000 native_mint crime_mint exact_in)) ≡ true)
        × (is_active 500 amm ≡ true)
        × (is_ok (quote dec 500 amm (request 1_000_000 native_mint crime_mint exact_in)) ≡ true)

  abbrev LockedPoolIsInactive : Type 0
  LockedPoolIsInactive =
      UnwrappedSome (new_for_testing true 1 1 400 1_400)
        λ amm. is_active 0 (record amm { pool = record amm.pool { locked = true } }) ≡ false

  abbrev FailedRefreshDeactivatesPreviouslyFreshState : Type 0
  FailedRefreshDeactivatesPreviouslyFreshState =
      UnwrappedSome (new_for_testing true 1 1 400 1_400) λ amm.
        let (later, result) = update lib amm no_accounts in
        (is_active 0 amm ≡ true) × (is_err result ≡ true) × (is_active 0 later ≡ false)

  abbrev QuoteRejectsMismatchedMintPair : Type 0
  QuoteRejectsMismatchedMintPair =
      UnwrappedSome (new_for_testing true 100_000_000_000 100_000_000_000 400 1_400) λ amm.
        (is_err (quote dec 0 amm (request 1_000_000_000 fraud_mint native_mint exact_in)) ≡ true)
        × (is_err (quote dec 0 amm (request 1_000_000_000 native_mint fraud_mint exact_in)) ≡ true)

  abbrev FeePctMatchesCombinedBps : Type 0
  FeePctMatchesCombinedBps =
      UnwrappedSome (new_for_testing true 100_000_000_000 100_000_000_000 400 1_400) λ amm.
        ((Unwrapped (quote dec 0 amm (request 1_000_000_000 native_mint crime_mint exact_in))
          λ quote. quote.fee_pct ≡ divide (from_u32 500) (from_u32 10_000)))
        × ((Unwrapped (quote dec 0 amm (request 1_000_000_000 crime_mint native_mint exact_in))
            λ quote. quote.fee_pct ≡ divide (from_u32 1_500) (from_u32 10_000)))

  abbrev BuyQuoteHighTaxStillWorks : Type 0
  BuyQuoteHighTaxStillWorks =
      UnwrappedSome (new_for_testing true 100_000_000_000 100_000_000_000 5_000 5_000) λ amm.
        Unwrapped (quote dec 0 amm (request 1_000_000_000 native_mint crime_mint exact_in))
          λ quote. (ltb 0 quote.out_amount ≡ true) × (leb 500_000_000 quote.fee_amount ≡ true)

  -- These tests pass.
  tests_hold_1 :
      BuyQuoteAppliesTaxBeforeSwap × SellQuoteAppliesTaxAfterSwap × BuyZeroInputReturnsZeroOutput
      × SellZeroSolReservesReturnsZeroOutput × SellZeroTokenReservesErrors × ExactOutNotSupported
      × QuoteRefusedWhileManualPauseIsActive × PauseEndSlotBoundaryIsInclusive
      × LockedPoolIsInactive × FailedRefreshDeactivatesPreviouslyFreshState
  unfolding new_for_testing known_pool_state pool_addresses token_mint from_mint quote quote_buy
      quote_sell quote_after_tax is_active reserves validate_mint_pair calculate_tax
      calculate_effective_input calculate_swap_output total_buy_fee_pct total_sell_fee_pct update
      with_pool refresh_pool
  tests_hold_1 = (
    (refl, refl, refl, refl, refl),
    (refl, refl, refl),
    refl,
    refl,
    refl,
    refl,
    (refl, refl),
    (refl, refl, refl, refl),
    refl,
    (refl, refl, refl),
  )

  -- These tests pass.
  tests_hold_2 :
      QuoteRejectsMismatchedMintPair × FeePctMatchesCombinedBps × BuyQuoteHighTaxStillWorks
  unfolding new_for_testing known_pool_state pool_addresses token_mint from_mint quote quote_buy
      quote_sell quote_after_tax is_active reserves validate_mint_pair calculate_tax
      calculate_effective_input calculate_swap_output total_buy_fee_pct total_sell_fee_pct update
      with_pool refresh_pool
  tests_hold_2 = ((refl, refl), (refl, refl), (refl, refl))
