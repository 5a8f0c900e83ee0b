-- ===== src/SolPoolAmm/Quoting/Values.antt =====
-- What `quote_buy` and `quote_sell` of src/sol_pool_amm.rs return on every branch, in exact
-- arithmetic.
use native.Mathlib.Nat.{mul-le-mul_left}
use drfraudsworth_jupiter_ad.Prelude.{
  ℕ, ◌+◌, ◌-◌, ◌*◌, ◌/◌, ◌≤◌, ◌≡◌, arith, ◌==◌, leb, ok, err, Error, if◌then◌else◌,
}
use drfraudsworth_jupiter_ad.Words.{IsU64}
use drfraudsworth_jupiter_ad.Jupiter.{Decimals, Quote}
use drfraudsworth_jupiter_ad.Math.AmmMath.Values.{
  effective_input_value, effective_input-le, swap_output_value, quotient-le,
}
use drfraudsworth_jupiter_ad.Math.TaxMath.Shares.{tax_value}
use drfraudsworth_jupiter_ad.SolPoolAmm.{SolPoolAmm, reserves}
use drfraudsworth_jupiter_ad.SolPoolAmm.Quoting.{
  quote_after_tax, all_tax, quote_buy, quote_sell, total_buy_fee_pct, total_sell_fee_pct,
}

-- Exact shares and swaps, rounded down.
abbrev pub tax_of : ℕ → ℕ → ℕ
tax_of amount bps = amount * bps / 10_000

abbrev pub after_fee : ℕ → ℕ → ℕ
after_fee amount fee = amount * (10_000 - fee) / 10_000

abbrev pub swapped : ℕ → ℕ → ℕ → ℕ
swapped reserve_in reserve_out e = reserve_out * e / (reserve_in + e)

-- The reserves are u64 numbers.
abbrev pub HasU64Reserves : SolPoolAmm → Type 0
HasU64Reserves amm = IsU64 amm.pool.reserve_a × IsU64 amm.pool.reserve_b

pub reserves-IsU64 :
    (amm : SolPoolAmm) → HasU64Reserves amm → IsU64 (reserves amm).0 × IsU64 (reserves amm).1
unfolding reserves
reserves-IsU64 amm (ha, hb) = (ground arith, ground arith)

pub tax_le : (amount bps : ℕ) → bps ≤ 10_000 → tax_of amount bps ≤ amount
tax_le amount bps h = omega (arith, mul-le-mul_left amount h)

module _ {Decimal : Type 0} (dec : Decimals Decimal) where
  -- The quote of a buy of which e reaches the curve.
  abbrev pub bought : SolPoolAmm → ℕ → ℕ → Quote Decimal
  bought amm amount e = record {
    in_amount = amount;
    out_amount = swapped (reserves amm).0 (reserves amm).1 e;
    fee_amount = amount - e;
    fee_mint = amm.quote_mint;
    fee_pct = total_buy_fee_pct dec amm;
  }

  after_tax_value :
      (amm : SolPoolAmm) (amount tax : ℕ)
      → HasU64Reserves amm
      → IsU64 amount
      → tax ≤ amount
      → quote_after_tax dec amm amount tax (amount - tax) ≡ (
          if leb amm.pool.lp_fee_bps 10_000
          then (if (reserves amm).0 + after_fee (amount - tax) amm.pool.lp_fee_bps == 0
              then err Error.swap_overflow
              else ok (bought amm amount (after_fee (amount - tax) amm.pool.lp_fee_bps)))
          else err Error.input_overflow)
  unfolding quote_after_tax
  after_tax_value amm amount tax hr h le =
      let (h0, h1) = reserves-IsU64 amm hr in
      ground (
        arith,
        effective_input_value (amount - tax) amm.pool.lp_fee_bps,
        effective_input-le (amount - tax) amm.pool.lp_fee_bps,
        swap_output_value (reserves amm).0 (reserves amm).1
            (after_fee (amount - tax) amm.pool.lp_fee_bps) h0 h1,
      )

  -- On u64 reserves and a u64 amount the buy fails on a tax above 10,000 bps; otherwise an input
  -- that the tax takes whole buys nothing; otherwise it fails on an LP fee above 10,000 bps and on
  -- an empty denominator; and otherwise what is left behind the tax and the fee is swapped exactly,
  -- and the rest of the input is the quoted fee.
  pub quote_buy_value :
      (amm : SolPoolAmm) (amount : ℕ)
      → HasU64Reserves amm
      → IsU64 amount
      → quote_buy dec amm amount ≡ (
          if leb amm.buy_tax_bps 10_000
          then (if amount - tax_of amount amm.buy_tax_bps == 0
              then ok (all_tax dec amm amount amount)
              else if leb amm.pool.lp_fee_bps 10_000
              then (if (reserves amm).0
                      + after_fee (amount - tax_of amount amm.buy_tax_bps) amm.pool.lp_fee_bps
                    == 0
                  then err Error.swap_overflow
                  else ok (
                      bought amm amount
                        (after_fee (amount - tax_of amount amm.buy_tax_bps) amm.pool.lp_fee_bps)))
              else err Error.input_overflow)
          else err Error.tax_overflow)
  unfolding quote_buy
  quote_buy_value amm amount hr h = ground (
    arith,
    tax_value amount amm.buy_tax_bps h,
    tax_le amount amm.buy_tax_bps,
    after_tax_value amm amount (tax_of amount amm.buy_tax_bps) hr h,
  )

  -- The quote of a sale of which e reaches the curve.
  abbrev pub sold : SolPoolAmm → ℕ → ℕ → Quote Decimal
  sold amm amount e =
      let gross = swapped (reserves amm).1 (reserves amm).0 e in
      record {
        in_amount = amount;
        out_amount = gross - tax_of gross amm.sell_tax_bps;
        fee_amount = tax_of gross amm.sell_tax_bps;
        fee_mint = amm.quote_mint;
        fee_pct = total_sell_fee_pct dec amm;
      }

  -- On u64 reserves and a u64 amount the sale fails on an LP fee above 10,000 bps, then on an empty
  -- denominator, then on a tax above 10,000 bps; otherwise the amount behind the LP fee is swapped
  -- exactly, and the tax on the gross output is the quoted fee and is missing from the net output.
  pub quote_sell_value :
      (amm : SolPoolAmm) (amount : ℕ)
      → HasU64Reserves amm
      → IsU64 amount
      → quote_sell dec amm amount ≡ (
          if leb amm.pool.lp_fee_bps 10_000
          then (if (reserves amm).1 + after_fee amount amm.pool.lp_fee_bps == 0
              then err Error.swap_overflow
              else if leb amm.sell_tax_bps 10_000
              then ok (sold amm amount (after_fee amount amm.pool.lp_fee_bps))
              else err Error.tax_overflow)
          else err Error.input_overflow)
  unfolding quote_sell
  quote_sell_value amm amount hr h =
      let (h0, h1) = reserves-IsU64 amm hr in
      let gross =
        swapped (reserves amm).1 (reserves amm).0 (after_fee amount amm.pool.lp_fee_bps) in
      ground (
        arith,
        effective_input_value amount amm.pool.lp_fee_bps h,
        effective_input-le amount amm.pool.lp_fee_bps,
        swap_output_value (reserves amm).1 (reserves amm).0 (after_fee amount amm.pool.lp_fee_bps)
            h1 h0,
        quotient-le (reserves amm).1 (reserves amm).0 (after_fee amount amm.pool.lp_fee_bps),
        tax_value gross amm.sell_tax_bps,
        tax_le gross amm.sell_tax_bps,
      )
