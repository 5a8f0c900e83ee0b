-- ===== src/SolPoolAmm/Swapping.antt =====
-- `get_swap_and_account_metas` of src/sol_pool_amm.rs: the lane of the requested pair and its
-- account list.
pub mod Lanes
pub mod Metas
use drfraudsworth_jupiter_ad.Prelude.{
  Bool, List, ◌==◌, Result, ok, Error, ◌>>=◌, ◌>>◌, bail_if, ok_or,
}
use drfraudsworth_jupiter_ad.Solana.{AccountMeta, Derivation}
use drfraudsworth_jupiter_ad.Jupiter.{SwapParams, SwapAndAccountMetas, token_swap}
use drfraudsworth_jupiter_ad.Instruction.{
  TaxSwapLane, sol_buy, sol_buy_wsol, sol_sell, spl_buy, spl_sell, for_mints,
}
use drfraudsworth_jupiter_ad.Accounts.SolPoolAccounts
use drfraudsworth_jupiter_ad.Accounts.SplPoolAccounts
use drfraudsworth_jupiter_ad.SolPoolAmm.{SolPoolAmm, validate_mint_pair}
use drfraudsworth_jupiter_ad.SolPoolAmm.Quoting.{is_exact_out}

module _ (d : Derivation) where
  -- The `match` on the lane.
  unfoldable pub lane_metas : TaxSwapLane → SolPoolAmm → SwapParams → Result (List AccountMeta)
  lane_metas sol_buy_wsol amm params =
      SolPoolAccounts.build_buy_wsol_account_metas_generic d params.token_transfer_authority
        params.source_token_account params.destination_token_account amm.key amm.pool
  lane_metas sol_buy amm params =
      SolPoolAccounts.build_buy_account_metas_generic d params.token_transfer_authority
        params.source_token_account params.destination_token_account amm.key amm.pool
  lane_metas sol_sell amm params =
      SolPoolAccounts.build_sell_account_metas_generic d params.token_transfer_authority
        params.source_token_account params.destination_token_account amm.key amm.pool
  lane_metas spl_buy amm params =
      SplPoolAccounts.build_buy_account_metas_generic d params.token_transfer_authority
        params.source_token_account params.destination_token_account amm.key amm.pool
  lane_metas spl_sell amm params =
      SplPoolAccounts.build_sell_account_metas_generic d params.token_transfer_authority
        params.source_token_account params.destination_token_account amm.key amm.pool

  unfoldable pub get_swap_and_account_metas : SolPoolAmm → SwapParams → Result SwapAndAccountMetas
  get_swap_and_account_metas amm params = do
    bail_if (is_exact_out params.swap_mode) Error.exact_out
    let is_buy = params.source_mint == amm.quote_mint
    validate_mint_pair amm params.source_mint params.destination_mint is_buy
    lane ←
        ok_or (for_mints amm.quote_mint amm.faction_mint params.source_mint params.destination_mint)
          Error.unsupported_pair
    account_metas ← lane_metas lane amm params
    ok (record { swap = token_swap; account_metas = account_metas })
