-- ===== src/Accounts/SplPoolAccounts/Shape.antt =====
-- The shape of the account lists of src/accounts/spl_pool_accounts.rs.
use drfraudsworth_jupiter_ad.Prelude.{◌≡◌, ◌≢◌, ◌⊎◌, ◌↔◌, refl, true, false, arith, inl, inr, ok}
use drfraudsworth_jupiter_ad.Pubkey.{Pubkey}
use drfraudsworth_jupiter_ad.Solana.{Derivation}
use drfraudsworth_jupiter_ad.Addresses.{
  crime_mint, fraud_mint, spl_token_program_id, token_2022_program_id,
}
use drfraudsworth_jupiter_ad.Math.VaultMath.Conversion.{IsFaction}
use drfraudsworth_jupiter_ad.State.PoolState.{ParsedPoolState}
use drfraudsworth_jupiter_ad.Accounts.HookAccounts.{hook_metas_for_mint}
use drfraudsworth_jupiter_ad.Accounts.SplPoolAccounts.{
  FactionPoolSides, sides_of, resolve_faction_sides, sweep_accounts,
  build_buy_account_metas_generic, build_sell_account_metas_generic,
}
use drfraudsworth_jupiter_ad.Accounts.SolPoolAccounts.Shape.{Shaped}

-- The token programs that a pool may use.
abbrev pub IsTokenProgram : Pubkey → Type 0
IsTokenProgram program = (program ≡ spl_token_program_id) ⊎ (program ≡ token_2022_program_id)

-- Exactly one side is a faction's, and the other's token program is supported.
abbrev pub IsFactionPool : ParsedPoolState → Type 0
IsFactionPool pool =
    (IsFaction pool.mint_a
      × (pool.mint_b ≢ crime_mint)
      × (pool.mint_b ≢ fraud_mint)
      × IsTokenProgram pool.token_program_b)
    ⊎ ((pool.mint_a ≢ crime_mint)
        × (pool.mint_a ≢ fraud_mint)
        × IsFaction pool.mint_b
        × IsTokenProgram pool.token_program_a)

-- The sides that a pool resolves to: the faction's mint and vault, and the quote's mint and program.
abbrev pub ResolvesTo : ParsedPoolState → FactionPoolSides → Type 0
ResolvesTo pool sides =
    ((sides.faction_is_a ≡ true)
      × (sides.faction_mint ≡ pool.mint_a)
      × (sides.faction_vault ≡ pool.vault_a)
      × (sides.quote_mint ≡ pool.mint_b)
      × (sides.quote_token_program ≡ pool.token_program_b)
      × IsFaction pool.mint_a)
    ⊎ ((sides.faction_is_a ≡ false)
        × (sides.faction_mint ≡ pool.mint_b)
        × (sides.faction_vault ≡ pool.vault_b)
        × (sides.quote_mint ≡ pool.mint_a)
        × (sides.quote_token_program ≡ pool.token_program_a)
        × IsFaction pool.mint_b)

-- The faction side of a pool is resolved exactly where one side alone is a faction's and the
-- other's token program is supported, and then to that side's mint and vault and the other's mint
-- and program.
pub faction_sides_iff :
    (pool : ParsedPoolState) (sides : FactionPoolSides)
    → (resolve_faction_sides pool ≡ ok sides) ↔ (IsFactionPool pool × ResolvesTo pool sides)
unfolding resolve_faction_sides
faction_sides_iff pool sides = ((λ h. (ground arith, ground arith)), λ (p, r). ground arith)

resolves :
    (pool : ParsedPoolState)
    → IsFactionPool pool
    → (sides : FactionPoolSides) × (resolve_faction_sides pool ≡ ok sides)
      × IsFaction sides.faction_mint
unfolding resolve_faction_sides
resolves pool p = elim p [
  | inl (f, crime, fraud, program) ↦ (sides_of pool true, ground arith, f)
  | inr (crime, fraud, f, program) ↦ (sides_of pool false, ground arith, f)
]

-- On every pool of one faction the buy has 21 accounts and the sale 22, and the user alone signs.
pub spl_metas_shape :
    (d : Derivation) (user user_quote user_faction key : Pubkey) (pool : ParsedPoolState)
    → IsFactionPool pool
    → Shaped (build_buy_account_metas_generic d user user_quote user_faction key pool) user 21
      × Shaped (build_sell_account_metas_generic d user user_faction user_quote key pool) user 22
unfolding build_buy_account_metas_generic build_sell_account_metas_generic sweep_accounts
    hook_metas_for_mint
spl_metas_shape d user user_quote user_faction key pool p =
    let (sides, resolved, faction) = resolves pool p in
    elim faction [
      | inl f ↦ rw (resolved, f) ((_, refl, refl, refl), (_, refl, refl, refl))
      | inr f ↦ rw (resolved, f) ((_, refl, refl, refl), (_, refl, refl, refl))
    ]
