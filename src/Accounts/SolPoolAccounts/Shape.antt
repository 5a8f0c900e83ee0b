-- ===== src/Accounts/SolPoolAccounts/Shape.antt =====
-- The shape of the account lists of src/accounts/sol_pool_accounts.rs.
use drfraudsworth_jupiter_ad.Prelude.{
  ℕ, ◌≡◌, ◌⊎◌, refl, inl, inr, List, [], ◌∷◌, length, Result, ok,
}
use drfraudsworth_jupiter_ad.Pubkey.{Pubkey}
use drfraudsworth_jupiter_ad.Solana.{AccountMeta, Derivation, signers}
use drfraudsworth_jupiter_ad.Addresses.{native_mint}
use drfraudsworth_jupiter_ad.Math.VaultMath.Conversion.{IsFaction}
use drfraudsworth_jupiter_ad.State.PoolState.{ParsedPoolState, token_mint}
use drfraudsworth_jupiter_ad.Accounts.HookAccounts.{hook_metas_for_mint}
use drfraudsworth_jupiter_ad.Accounts.SolPoolAccounts.{
  PoolSides, resolve_sides, build_wsol_intermediary_metas, build_buy_account_metas_generic,
  build_buy_wsol_account_metas_generic, build_sell_account_metas_generic,
}

-- A list of this length that this user alone signs.
abbrev pub Shaped : Result (List AccountMeta) → Pubkey → ℕ → Type 0
Shaped built user count =
    (metas : List AccountMeta) × (built ≡ ok metas)
    × (length metas ≡ count)
    × (signers metas ≡ user ∷ [])

-- A SOL pool of a faction, one way or the other.
abbrev pub IsSolPool : ParsedPoolState → Type 0
IsSolPool pool =
    ((pool.mint_a ≡ native_mint) × IsFaction pool.mint_b)
    ⊎ (IsFaction pool.mint_a × (pool.mint_b ≡ native_mint))

-- The sides that such a pool resolves to hold the faction mint.
sol_sides :
    (pool : ParsedPoolState)
    → IsSolPool pool
    → (sides : PoolSides) × (resolve_sides pool ≡ ok sides) × IsFaction sides.token_mint
unfolding resolve_sides token_mint
sol_sides pool p = elim p [
  | inl (n, inl f) ↦ rw (n, f) (_, refl, inl refl)
  | inl (n, inr f) ↦ rw (n, f) (_, refl, inr refl)
  | inr (inl f, n) ↦ rw (n, f) (_, refl, inl refl)
  | inr (inr f, n) ↦ rw (n, f) (_, refl, inr refl)
]

-- On every SOL pool of a faction the buy has 24 accounts, the buy that wraps WSOL and the sale have
-- 25, and the user alone signs each.
pub sol_metas_shape :
    (d : Derivation) (user user_sol user_token key : Pubkey) (pool : ParsedPoolState)
    → IsSolPool pool
    → Shaped (build_buy_account_metas_generic d user user_sol user_token key pool) user 24
      × Shaped (build_buy_wsol_account_metas_generic d user user_sol user_token key pool) user 25
      × Shaped (build_sell_account_metas_generic d user user_token user_sol key pool) user 25
unfolding build_buy_account_metas_generic build_buy_wsol_account_metas_generic
    build_sell_account_metas_generic build_wsol_intermediary_metas hook_metas_for_mint
sol_metas_shape d user user_sol user_token key pool p =
    let (sides, resolved, faction) = sol_sides pool p in
    elim faction [
      | inl f ↦
          rw (resolved, f) ((_, refl, refl, refl), (_, refl, refl, refl), (_, refl, refl, refl))
      | inr f ↦
          rw (resolved, f) ((_, refl, refl, refl), (_, refl, refl, refl), (_, refl, refl, refl))
    ]
