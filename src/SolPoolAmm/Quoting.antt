-- ===== src/SolPoolAmm/Quoting.antt =====
-- `quote` of src/sol_pool_amm.rs, with the buy and the sell. The decimals of the fee percentage are
-- rust_decimal's: a parameter.
pub mod Values
pub mod Answers
pub mod Rates
pub mod Gates
pub mod Economics
pub mod Orientation
pub mod Reference
mod Tests
use drfraudsworth_jupiter_ad.Prelude.{
  ℕ, ◌+◌, Bool, true, false, not, Option, none, some, ◌==◌, if◌then◌else◌, Result, ok, err, Error,
  ◌>>=◌, ◌>>◌, bail_if, ok_or, unwrap_or,
}
use drfraudsworth_jupiter_ad.Words.{checked_add, checked_sub, saturating_sub, as_u64}
use drfraudsworth_jupiter_ad.Jupiter.{SwapMode, exact_in, exact_out, QuoteParams, Decimals, Quote}
use drfraudsworth_jupiter_ad.Math.AmmMath.{calculate_effective_input, calculate_swap_output}
use drfraudsworth_jupiter_ad.Math.TaxMath.{calculate_tax}
use drfraudsworth_jupiter_ad.SolPoolAmm.{SolPoolAmm, is_active, reserves, validate_mint_pair}

abbrev pub is_exact_out : SwapMode → Bool
is_exact_out exact_out = true
is_exact_out exact_in = false

module _ {Decimal : Type 0} (dec : Decimals Decimal) where
  open dec use {from_u32, divide}

  unfoldable pub total_buy_fee_pct : SolPoolAmm → Decimal
  total_buy_fee_pct amm =
      let total_bps = amm.pool.lp_fee_bps + amm.buy_tax_bps in
      divide (from_u32 total_bps) (from_u32 10_000)

  unfoldable pub total_sell_fee_pct : SolPoolAmm → Decimal
  total_sell_fee_pct amm =
      let total_bps = amm.pool.lp_fee_bps + amm.sell_tax_bps in
      divide (from_u32 total_bps) (from_u32 10_000)

  -- The part of the buy behind the tax.
  unfoldable pub quote_after_tax : SolPoolAmm → ℕ → ℕ → ℕ → Result (Quote Decimal)
  quote_after_tax amm amount_in tax quote_to_swap = do
    effective_input ←
        ok_or (calculate_effective_input quote_to_swap amm.pool.lp_fee_bps) Error.input_overflow
    out_amount ←
        ok_or (calculate_swap_output (reserves amm).0 (reserves amm).1 effective_input)
          Error.swap_overflow
    let lp_fee_quote = saturating_sub quote_to_swap (as_u64 effective_input)
    ok (record {
      in_amount = amount_in;
      out_amount = out_amount;
      fee_amount = unwrap_or (checked_add 64 tax lp_fee_quote) tax;
      fee_mint = amm.quote_mint;
      fee_pct = total_buy_fee_pct amm;
    })

  -- The quote of an input that the tax takes whole.
  abbrev pub all_tax : SolPoolAmm → ℕ → ℕ → Quote Decimal
  all_tax amm amount_in tax = record {
    in_amount = amount_in;
    out_amount = 0;
    fee_amount = tax;
    fee_mint = amm.quote_mint;
    fee_pct = total_buy_fee_pct amm;
  }

  unfoldable pub quote_buy : SolPoolAmm → ℕ → Result (Quote Decimal)
  quote_buy amm amount_in = do
    tax ← ok_or (calculate_tax amount_in amm.buy_tax_bps) Error.tax_overflow
    quote_to_swap ← ok_or (checked_sub amount_in tax) Error.tax_exceeds_input
    if quote_to_swap == 0
        then ok (all_tax amm amount_in tax)
        else quote_after_tax amm amount_in tax quote_to_swap

  unfoldable pub quote_sell : SolPoolAmm → ℕ → Result (Quote Decimal)
  quote_sell amm amount_in = do
    effective_input ←
        ok_or (calculate_effective_input amount_in amm.pool.lp_fee_bps) Error.input_overflow
    gross_quote ←
        ok_or (calculate_swap_output (reserves amm).1 (reserves amm).0 effective_input)
          Error.swap_overflow
    tax ← ok_or (calculate_tax gross_quote amm.sell_tax_bps) Error.tax_overflow
    net_quote ← ok_or (checked_sub gross_quote tax) Error.tax_exceeds_output
    ok (record {
      in_amount = amount_in;
      out_amount = net_quote;
      fee_amount = tax;
      fee_mint = amm.quote_mint;
      fee_pct = total_sell_fee_pct amm;
    })

  -- At the slot that the shared clock shows.
  unfoldable pub quote : ℕ → SolPoolAmm → QuoteParams → Result (Quote Decimal)
  quote slot amm params = do
    bail_if (is_exact_out params.swap_mode) Error.exact_out
    let is_buy = params.input_mint == amm.quote_mint
    validate_mint_pair amm params.input_mint params.output_mint is_buy
    bail_if (not (is_active slot amm)) Error.inactive
    if is_buy then quote_buy amm params.amount else quote_sell amm params.amount
