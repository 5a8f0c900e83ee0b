-- ===== src/Accounts/SplPoolAccounts/Sides.antt =====
-- The account lists of src/accounts/spl_pool_accounts.rs line up with the pool.
use drfraudsworth_jupiter_ad.Prelude.{
  ◌≡◌, ◌⊎◌, refl, arith, true, false, inl, inr, List, [], ◌∷◌, take, drop, ok,
}
use drfraudsworth_jupiter_ad.Pubkey.{Pubkey}
use drfraudsworth_jupiter_ad.Solana.{AccountMeta, Derivation, writable}
use drfraudsworth_jupiter_ad.State.PoolState.{ParsedPoolState}
use drfraudsworth_jupiter_ad.Math.VaultMath.Conversion.{IsFaction}
use drfraudsworth_jupiter_ad.Accounts.HookAccounts.{hook_metas_for_mint}
use drfraudsworth_jupiter_ad.Accounts.Alignment.{LinesUp, line_up}
use drfraudsworth_jupiter_ad.Accounts.SplPoolAccounts.{
  sides_of, resolve_faction_sides, sweep_accounts, build_buy_account_metas_generic,
  build_sell_account_metas_generic,
}
use drfraudsworth_jupiter_ad.Accounts.SplPoolAccounts.Shape.{IsFactionPool}

resolved_side :
    (pool : ParsedPoolState)
    → IsFactionPool pool
    → (IsFaction pool.mint_a × (resolve_faction_sides pool ≡ ok (sides_of pool true)))
      ⊎ (IsFaction pool.mint_b × (resolve_faction_sides pool ≡ ok (sides_of pool false)))
unfolding resolve_faction_sides
resolved_side pool p = elim p [
  | inl (f, crime, fraud, program) ↦ inl (f, ground arith)
  | inr (crime, fraud, f, program) ↦ inr (f, ground arith)
]

-- A sale's list names the sweep's account and the user's quote account, in this order, behind the
-- quote mint.
abbrev pub PaysThrough : List AccountMeta → Pubkey → Pubkey → Type 0
PaysThrough metas sweep user_quote =
    take 2 (drop 12 metas) ≡ writable sweep false ∷ writable user_quote false ∷ []

-- On every pool of one faction, on either side, the lists of the buy and of the sale line up with
-- the pool, behind 17 and 18 named accounts; the buy spends from the user's quote account, and the
-- sale swaps into the sweep's account of the quote mint and names the user's quote account next to
-- it.
pub spl_metas_sides :
    (d : Derivation) (user user_quote user_faction key : Pubkey) (pool : ParsedPoolState)
    → IsFactionPool pool
    → (sweep : Pubkey × Pubkey) × (sweep_accounts d pool ≡ ok sweep)
      × LinesUp d true 3 17 pool
          (user_faction, user_quote)
          (build_buy_account_metas_generic d user user_quote user_faction key pool)
      × LinesUp d false 3 18 pool
          (user_faction, sweep.1)
          (build_sell_account_metas_generic d user user_faction user_quote key pool)
      × ((metas : List AccountMeta) × (build_sell_account_metas_generic d user user_faction
              user_quote key pool
            ≡ ok metas)
          × PaysThrough metas sweep.1 user_quote)
unfolding build_buy_account_metas_generic build_sell_account_metas_generic sweep_accounts
    hook_metas_for_mint
spl_metas_sides d user user_quote user_faction key pool p = elim (resolved_side pool p) [
  | inl (inl f, sides) ↦
      rw (sides, f)
        (
          _,
          refl,
          line_up (inl (refl, refl)) (inl (refl, refl, refl, refl)) refl refl,
          line_up (inl (refl, refl)) (inl (refl, refl, refl, refl)) refl refl,
          (_, refl, refl),
        )
  | inl (inr f, sides) ↦
      rw (sides, f)
        (
          _,
          refl,
          line_up (inr (refl, refl)) (inl (refl, refl, refl, refl)) refl refl,
          line_up (inr (refl, refl)) (inl (refl, refl, refl, refl)) refl refl,
          (_, refl, refl),
        )
  | inr (inl f, sides) ↦
      rw (sides, f)
        (
          _,
          refl,
          line_up (inl (refl, refl)) (inr (refl, refl, refl, refl)) refl refl,
          line_up (inl (refl, refl)) (inr (refl, refl, refl, refl)) refl refl,
          (_, refl, refl),
        )
  | inr (inr f, sides) ↦
      rw (sides, f)
        (
          _,
          refl,
          line_up (inr (refl, refl)) (inr (refl, refl, refl, refl)) refl refl,
          line_up (inr (refl, refl)) (inr (refl, refl, refl, refl)) refl refl,
          (_, refl, refl),
        )
]
