-- ===== src/Accounts/SolPoolAccounts/Sides.antt =====
-- The account lists of src/accounts/sol_pool_accounts.rs line up with the pool.
use drfraudsworth_jupiter_ad.Prelude.{refl, true, false, inl, inr}
use drfraudsworth_jupiter_ad.Pubkey.{Pubkey}
use drfraudsworth_jupiter_ad.Solana.{Derivation}
use drfraudsworth_jupiter_ad.State.PoolState.{ParsedPoolState, token_mint, sol_and_token_vaults}
use drfraudsworth_jupiter_ad.Accounts.HookAccounts.{hook_metas_for_mint}
use drfraudsworth_jupiter_ad.Accounts.Alignment.{LinesUp, line_up}
use drfraudsworth_jupiter_ad.Accounts.SolPoolAccounts.{
  resolve_sides, build_wsol_intermediary_metas, build_buy_account_metas_generic,
  build_buy_wsol_account_metas_generic, build_sell_account_metas_generic,
}
use drfraudsworth_jupiter_ad.Accounts.SolPoolAccounts.Shape.{IsSolPool}

-- On every SOL pool of a faction, with SOL on either side, the lists of the buy, of the buy that
-- wraps WSOL and of the sale line up with the pool: behind 20, 21 and 21 named accounts.
pub sol_metas_sides :
    (d : Derivation) (user user_sol user_token key : Pubkey) (pool : ParsedPoolState)
    → IsSolPool pool
    → LinesUp d true 5 20 pool
        (user_token, user_sol)
        (build_buy_account_metas_generic d user user_sol user_token key pool)
      × LinesUp d true 5 21 pool
          (user_token, user_sol)
          (build_buy_wsol_account_metas_generic d user user_sol user_token key pool)
      × LinesUp d false 5 21 pool
          (user_token, user_sol)
          (build_sell_account_metas_generic d user user_token user_sol key pool)
unfolding build_buy_account_metas_generic build_buy_wsol_account_metas_generic
    build_sell_account_metas_generic build_wsol_intermediary_metas hook_metas_for_mint resolve_sides
    token_mint sol_and_token_vaults
sol_metas_sides d user user_sol user_token key pool p = elim p [
  | inl (n, inl f) ↦
      rw (n, f)
        (
          line_up (inl (refl, refl)) (inr (refl, refl, refl, refl)) refl refl,
          line_up (inl (refl, refl)) (inr (refl, refl, refl, refl)) refl refl,
          line_up (inl (refl, refl)) (inr (refl, refl, refl, refl)) refl refl,
        )
  | inl (n, inr f) ↦
      rw (n, f)
        (
          line_up (inr (refl, refl)) (inr (refl, refl, refl, refl)) refl refl,
          line_up (inr (refl, refl)) (inr (refl, refl, refl, refl)) refl refl,
          line_up (inr (refl, refl)) (inr (refl, refl, refl, refl)) refl refl,
        )
  | inr (inl f, n) ↦
      rw (n, f)
        (
          line_up (inl (refl, refl)) (inl (refl, refl, refl, refl)) refl refl,
          line_up (inl (refl, refl)) (inl (refl, refl, refl, refl)) refl refl,
          line_up (inl (refl, refl)) (inl (refl, refl, refl, refl)) refl refl,
        )
  | inr (inr f, n) ↦
      rw (n, f)
        (
          line_up (inr (refl, refl)) (inl (refl, refl, refl, refl)) refl refl,
          line_up (inr (refl, refl)) (inl (refl, refl, refl, refl)) refl refl,
          line_up (inr (refl, refl)) (inl (refl, refl, refl, refl)) refl refl,
        )
]
