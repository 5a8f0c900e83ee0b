-- ===== src/SolPoolAmm/Quoting/Orientation.antt =====
-- The quotes of src/sol_pool_amm.rs do not depend on which side of the pool the quote mint is.
use drfraudsworth_jupiter_ad.Prelude.{ℕ, ◌≡◌, ◌≢◌, ◌⊎◌, refl, arith}
use drfraudsworth_jupiter_ad.Jupiter.{QuoteParams, Decimals}
use drfraudsworth_jupiter_ad.State.PoolState.Sides.{mirror}
use drfraudsworth_jupiter_ad.SolPoolAmm.{
  SolPoolAmm, reserves, is_active, validate_mint_pair, quote_token_program,
}
use drfraudsworth_jupiter_ad.SolPoolAmm.Quoting.{
  quote, quote_buy, quote_sell, quote_after_tax, total_buy_fee_pct, total_sell_fee_pct,
}

-- The adapter of the same pool with its sides exchanged.
abbrev pub mirrored : SolPoolAmm → SolPoolAmm
mirrored amm = record amm { pool = mirror amm.pool }

-- The quote mint is on one side of the pool alone.
abbrev pub HasOneQuoteSide : SolPoolAmm → Type 0
HasOneQuoteSide amm =
    ((amm.pool.mint_a ≡ amm.quote_mint) × (amm.pool.mint_b ≢ amm.quote_mint))
    ⊎ ((amm.pool.mint_b ≡ amm.quote_mint) × (amm.pool.mint_a ≢ amm.quote_mint))

reserves-mirrored :
    (amm : SolPoolAmm) → HasOneQuoteSide amm → reserves (mirrored amm) ≡ reserves amm
unfolding reserves
reserves-mirrored amm h = ground arith

program-mirrored :
    (amm : SolPoolAmm)
    → HasOneQuoteSide amm
    → quote_token_program (mirrored amm) ≡ quote_token_program amm
unfolding quote_token_program
program-mirrored amm h = ground arith

module _ {Decimal : Type 0} (dec : Decimals Decimal) where
  -- Where the quote mint is on one side of the pool alone, exchanging the sides of the pool, with
  -- their reserves, vaults and programs, changes neither a quote of either direction, nor an error,
  -- nor the token program that the quote mint is validated under.
  pub quote-mirrored :
      (slot : ℕ) (amm : SolPoolAmm) (params : QuoteParams)
      → HasOneQuoteSide amm
      → (quote dec slot (mirrored amm) params ≡ quote dec slot amm params)
        × (quote_token_program (mirrored amm) ≡ quote_token_program amm)
  unfolding quote quote_buy quote_sell quote_after_tax is_active validate_mint_pair
      total_buy_fee_pct total_sell_fee_pct
  quote-mirrored slot amm params h = (rw (reserves-mirrored amm h) refl, program-mirrored amm h)
