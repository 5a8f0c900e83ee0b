-- ===== src/VaultAmm/MintPairs.antt =====
-- tests/vault_mint_pair.rs: the integration tests of the pairs that src/vault_amm.rs converts, for any
-- decimals and any derivation of addresses. The text of a Pubkey and its parser are the library's,
-- of which the tests rely on no more than that a text is parsed back.
use Prim.Native.String.{String}
use text.Mathlib.Text.{◌==◌ as str_eq}
use drfraudsworth_jupiter_ad.Prelude.{
  ℕ, ◌≡◌, refl, true, Option, some, none, [], ◌∷◌, All, if◌then◌else◌, Unwrapped, UnwrappedSome,
  is_ok, is_err, ok, ok_or, Error, ◌>>=◌,
}
use drfraudsworth_jupiter_ad.Pubkey.{Pubkey}
use drfraudsworth_jupiter_ad.Solana.{Derivation, new_unique}
use drfraudsworth_jupiter_ad.Addresses.{
  conversion_vault_program_id, crime_mint, fraud_mint, profit_mint,
}
use drfraudsworth_jupiter_ad.Jupiter.{KeyedAccount, QuoteParams, Decimals, SwapParams, exact_in}
use drfraudsworth_jupiter_ad.Words.{u64_max}
use drfraudsworth_jupiter_ad.Math.VaultMath.{compute_vault_output}
use drfraudsworth_jupiter_ad.VaultAmm.{
  from_keyed_account, keyed, from_params, new_for_testing, quote, get_swap_and_account_metas,
  vault_for_mint, conversion_output_vault, instance_of, validate_mint_pair,
}
use drfraudsworth_jupiter_ad.VaultAmm.Labels.{format_label}

abbrev request : ℕ → Pubkey → Pubkey → QuoteParams
request amount input_mint output_mint = record {
  amount = amount;
  input_mint = input_mint;
  output_mint = output_mint;
  swap_mode = exact_in;
}

-- A swap whose accounts the test makes up.
abbrev swap_request : Pubkey → Pubkey → SwapParams
swap_request source_mint destination_mint = record {
  swap_mode = exact_in;
  source_mint = source_mint;
  destination_mint = destination_mint;
  source_token_account = new_unique 3;
  destination_token_account = new_unique 4;
  token_transfer_authority = new_unique 1;
}

module _ {Decimal : Type 0} (dec : Decimals Decimal) (d : Derivation) (to_string : Pubkey → String)
    (parse_pubkey : String → Option Pubkey) where
  abbrev keyed_vault : Pubkey → Pubkey → KeyedAccount
  keyed_vault input_mint output_mint = record {
    key = new_unique 1;
    account = record { bytes = []; owner = conversion_vault_program_id };
    params = some λ name.
        if str_eq name "input_mint"
        then some (to_string input_mint)
        else if str_eq name "output_mint"
        then some (to_string output_mint)
        else none;
  }

  abbrev Accepted : Pubkey × Pubkey → Type 0
  Accepted (input_mint, output_mint) =
      UnwrappedSome (from_keyed_account d parse_pubkey (keyed_vault input_mint output_mint))
        λ result. is_ok result ≡ true

  abbrev Rejected : Pubkey × Pubkey → Type 0
  Rejected (input_mint, output_mint) =
      UnwrappedSome (from_keyed_account d parse_pubkey (keyed_vault input_mint output_mint))
        λ result. is_err result ≡ true

  abbrev ParamsAcceptOnlyOnChainConversionEdges : Type 0
  ParamsAcceptOnlyOnChainConversionEdges =
      ((mint : Pubkey) → parse_pubkey (to_string mint) ≡ some mint)
      → All Accepted (
          (crime_mint, profit_mint)
          ∷ (fraud_mint, profit_mint)
          ∷ (profit_mint, crime_mint)
          ∷ (profit_mint, fraud_mint)
          ∷ [])
        × All Rejected (
            (crime_mint, fraud_mint)
            ∷ (fraud_mint, crime_mint)
            ∷ (crime_mint, crime_mint)
            ∷ (profit_mint, profit_mint)
            ∷ [])

  abbrev QuoteRejectsWrongOutputMint : Type 0
  QuoteRejectsWrongOutputMint =
      UnwrappedSome (new_for_testing d crime_mint profit_mint)
        λ amm. is_err (quote dec amm (request 10_000 crime_mint fraud_mint)) ≡ true

  abbrev AccountBuilderRejectsWrongDestinationMint : Type 0
  AccountBuilderRejectsWrongDestinationMint =
      UnwrappedSome (new_for_testing d crime_mint profit_mint) λ amm.
        UnwrappedSome (get_swap_and_account_metas d amm (swap_request crime_mint fraud_mint))
          λ result. is_err result ≡ true

  abbrev Composes : Pubkey × Pubkey → Type 0
  Composes (source_mint, destination_mint) =
      UnwrappedSome (new_for_testing d source_mint profit_mint) λ into_profit.
        Unwrapped (quote dec into_profit (request 10_000 source_mint profit_mint)) λ first_leg.
          UnwrappedSome (new_for_testing d profit_mint destination_mint) λ out_of_profit.
            Unwrapped
              (quote dec out_of_profit (request first_leg.out_amount profit_mint destination_mint))
              λ second_leg. (first_leg.out_amount ≡ 100) × (second_leg.out_amount ≡ 10_000)

  abbrev CrossFactionRoutesComposeThroughProfit : Type 0
  CrossFactionRoutesComposeThroughProfit =
      All Composes ((crime_mint, fraud_mint) ∷ (fraud_mint, crime_mint) ∷ [])

  -- The construction by the parameters of the tests.
  keyed_vault_value :
      (input output : Pubkey)
      → ((mint : Pubkey) → parse_pubkey (to_string mint) ≡ some mint)
      → from_keyed_account d parse_pubkey (keyed_vault input output)
        ≡ some (do
          output_vault ← ok_or (conversion_output_vault input output) Error.unsupported_direction
          ok (record {
            key = new_unique 1;
            input_mint = input;
            output_mint = output;
            label_suffix = format_label input output;
            output_vault = output_vault;
            output_vault_balance = u64_max;
          }))
  unfolding from_keyed_account keyed from_params
  keyed_vault_value input output read_back = rw (read_back input, read_back output) refl

  -- These tests pass.
  tests_hold :
      ParamsAcceptOnlyOnChainConversionEdges × QuoteRejectsWrongOutputMint
      × AccountBuilderRejectsWrongDestinationMint × CrossFactionRoutesComposeThroughProfit
  unfolding new_for_testing conversion_output_vault vault_for_mint instance_of quote
      validate_mint_pair get_swap_and_account_metas compute_vault_output
  tests_hold = (
    (λ read_back. (
      (
        rw (keyed_vault_value crime_mint profit_mint read_back) refl,
        (
          rw (keyed_vault_value fraud_mint profit_mint read_back) refl,
          (
            rw (keyed_vault_value profit_mint crime_mint read_back) refl,
            (rw (keyed_vault_value profit_mint fraud_mint read_back) refl, tt),
          ),
        ),
      ),
      (
        rw (keyed_vault_value crime_mint fraud_mint read_back) refl,
        (
          rw (keyed_vault_value fraud_mint crime_mint read_back) refl,
          (
            rw (keyed_vault_value crime_mint crime_mint read_back) refl,
            (rw (keyed_vault_value profit_mint profit_mint read_back) refl, tt),
          ),
        ),
      ),
    )),
    refl,
    refl,
    ((refl, refl), ((refl, refl), tt)),
  )
