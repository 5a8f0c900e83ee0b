-- ===== src/Instruction/Lanes.antt =====
-- Which lane `for_mints` selects.
use drfraudsworth_jupiter_ad.Prelude.{◌≡◌, ◌≢◌, ◌⊎◌, ◌↔◌, some, arith}
use drfraudsworth_jupiter_ad.Pubkey.{Pubkey}
use drfraudsworth_jupiter_ad.Addresses.{native_mint}
use drfraudsworth_jupiter_ad.Instruction.{
  TaxSwapLane, sol_buy, sol_buy_wsol, sol_sell, spl_buy, spl_sell, for_mints,
}

-- The quote WSOL takes the SOL lanes, every other quote the SPL lanes.
abbrev IsLaneFor : Pubkey → TaxSwapLane → TaxSwapLane → TaxSwapLane → Type 0
IsLaneFor quote sol spl lane =
    ((quote ≡ native_mint) × (lane ≡ sol)) ⊎ ((quote ≢ native_mint) × (lane ≡ spl))

-- The lane that an ordered pair of mints calls for: a buy gives the quote for the faction token, a
-- sell gives the faction token for another mint, the quote.
abbrev pub CallsFor : Pubkey → Pubkey → Pubkey → Pubkey → TaxSwapLane → Type 0
CallsFor quote faction input output lane =
    ((input ≡ quote) × (output ≡ faction) × IsLaneFor quote sol_buy_wsol spl_buy lane)
    ⊎ ((input ≡ faction)
        × (output ≡ quote)
        × (faction ≢ quote)
        × IsLaneFor quote sol_sell spl_sell lane)

-- The lane that is selected is exactly the one that the pair calls for, and no lane is selected for
-- any other pair. The legacy lane `sol_buy` is never selected.
pub for_mints_iff :
    (quote faction input output : Pubkey) (lane : TaxSwapLane)
    → ((for_mints quote faction input output ≡ some lane)
        ↔ CallsFor quote faction input output lane)
      × (for_mints quote faction input output ≢ some sol_buy)
unfolding for_mints
for_mints_iff quote faction input output lane =
    ((λ h. ground arith, λ c. ground arith), λ h. ground arith)
