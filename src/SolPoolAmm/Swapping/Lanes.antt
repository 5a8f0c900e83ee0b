-- ===== src/SolPoolAmm/Swapping/Lanes.antt =====
-- The lane of a request of src/sol_pool_amm.rs, and the pools that its builder takes.
use drfraudsworth_jupiter_ad.Prelude.{
  ◌≡◌, ◌≢◌, ◌⊎◌, ◌==◌, if◌then◌else◌, sym, arith, inl, inr, some, List, ok,
}
use drfraudsworth_jupiter_ad.Solana.{AccountMeta, Derivation}
use drfraudsworth_jupiter_ad.Jupiter.{SwapParams, exact_in, token_swap}
use drfraudsworth_jupiter_ad.Addresses.{native_mint}
use drfraudsworth_jupiter_ad.Math.VaultMath.Conversion.{IsFaction}
use drfraudsworth_jupiter_ad.Instruction.{
  TaxSwapLane, sol_buy_wsol, sol_sell, spl_buy, spl_sell, for_mints,
}
use drfraudsworth_jupiter_ad.Accounts.SolPoolAccounts.Shape.{IsSolPool}
use drfraudsworth_jupiter_ad.Accounts.SplPoolAccounts.Shape.{IsFactionPool}
use drfraudsworth_jupiter_ad.SolPoolAmm.{SolPoolAmm, validate_mint_pair}
use drfraudsworth_jupiter_ad.SolPoolAmm.Refresh.Identity.{IsCanonical, mint_of}
use drfraudsworth_jupiter_ad.SolPoolAmm.Swapping.{lane_metas, get_swap_and_account_metas}

-- A request of the pool's pair, as a buy and as a sale.
abbrev pub Buys : SolPoolAmm → SwapParams → Type 0
Buys amm params =
    (params.source_mint ≡ amm.quote_mint) × (params.destination_mint ≡ amm.faction_mint)

abbrev pub Sells : SolPoolAmm → SwapParams → Type 0
Sells amm params =
    (params.source_mint ≡ amm.faction_mint) × (params.destination_mint ≡ amm.quote_mint)

mint_of-IsFaction :
    (amm : SolPoolAmm) → amm.faction_mint ≡ mint_of amm.faction → IsFaction amm.faction_mint
mint_of-IsFaction amm h = ground arith

pub canonical-IsFactionPool :
    (d : Derivation) (amm : SolPoolAmm) → IsCanonical d amm → IsFactionPool amm.pool
canonical-IsFactionPool d amm c = elim c.sides [
  | inl (f, q, o) ↦
      let side = mint_of-IsFaction amm o.role in
      inl (
        ground arith,
        rw (sym q) o.quote_not_crime,
        rw (sym q) o.quote_not_fraud,
        o.quote_supported,
      )
  | inr (f, q, o) ↦
      let side = mint_of-IsFaction amm o.role in
      inr (
        rw (sym q) o.quote_not_crime,
        rw (sym q) o.quote_not_fraud,
        ground arith,
        o.quote_supported,
      )
]

pub canonical-IsSolPool :
    (d : Derivation) (amm : SolPoolAmm)
    → amm.quote_mint ≡ native_mint
    → IsCanonical d amm
    → IsSolPool amm.pool
canonical-IsSolPool d amm n c = elim c.sides [
  | inl (f, q, o) ↦ let side = mint_of-IsFaction amm o.role in inr (ground arith, ground arith)
  | inr (f, q, o) ↦ let side = mint_of-IsFaction amm o.role in inl (ground arith, ground arith)
]

pub canonical_mints :
    (d : Derivation) (amm : SolPoolAmm) → IsCanonical d amm → amm.quote_mint ≢ amm.faction_mint
canonical_mints d amm c = elim c.sides [
  | inl (f, q, o) ↦ λ h. ground (arith, c.ordered)
  | inr (f, q, o) ↦ λ h. ground (arith, c.ordered)
]

-- The lane of a buy and of a sale.
pub buy_lane :
    (amm : SolPoolAmm) (params : SwapParams)
    → Buys amm params
    → for_mints amm.quote_mint amm.faction_mint params.source_mint params.destination_mint
      ≡ some (if amm.quote_mint == native_mint then sol_buy_wsol else spl_buy)
unfolding for_mints
buy_lane amm params pair = ground arith

pub sell_lane :
    (amm : SolPoolAmm) (params : SwapParams)
    → amm.quote_mint ≢ amm.faction_mint
    → Sells amm params
    → for_mints amm.quote_mint amm.faction_mint params.source_mint params.destination_mint
      ≡ some (if amm.quote_mint == native_mint then sol_sell else spl_sell)
unfolding for_mints
sell_lane amm params ne pair = ground arith

pub swap_value :
    (d : Derivation) (amm : SolPoolAmm) (params : SwapParams) (lane : TaxSwapLane)
    (metas : List AccountMeta)
    → params.swap_mode ≡ exact_in
    → amm.quote_mint ≢ amm.faction_mint
    → Buys amm params ⊎ Sells amm params
    → for_mints amm.quote_mint amm.faction_mint params.source_mint params.destination_mint
      ≡ some lane
    → lane_metas d lane amm params ≡ ok metas
    → get_swap_and_account_metas d amm params
      ≡ ok (record { swap = token_swap; account_metas = metas })
unfolding get_swap_and_account_metas validate_mint_pair
swap_value d amm params lane metas mode ne pair chosen built = rw (chosen, built) (ground arith)
