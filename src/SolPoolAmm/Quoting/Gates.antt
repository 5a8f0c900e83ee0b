-- ===== src/SolPoolAmm/Quoting/Gates.antt =====
-- When `quote` of src/sol_pool_amm.rs answers: its gates, in the order in which the refreshes and
-- the slots of the clock open and close them.
use drfraudsworth_jupiter_ad.Prelude.{
  ℕ, ◌≤◌, ◌≡◌, ◌≢◌, ◌⊎◌, ◌↔◌, true, false, arith, ok, err, Error,
}
use drfraudsworth_jupiter_ad.Solana.{Derivation}
use drfraudsworth_jupiter_ad.Jupiter.{
  AccountMap, KeyedAccount, QuoteParams, Decimals, Quote, exact_in,
}
use drfraudsworth_jupiter_ad.State.MintState.{MintLibrary}
use drfraudsworth_jupiter_ad.SolPoolAmm.{
  SolPoolAmm, is_active, validate_mint_pair, from_keyed_account,
}
use drfraudsworth_jupiter_ad.SolPoolAmm.Refresh.{update}
use drfraudsworth_jupiter_ad.SolPoolAmm.Refresh.Failure.{failed_update}
use drfraudsworth_jupiter_ad.SolPoolAmm.Refresh.Identity.{from_keyed_account-IsFresh}
use drfraudsworth_jupiter_ad.SolPoolAmm.Quoting.{quote, quote_buy, quote_sell}

-- A refreshed adapter of an initialized and unlocked pool, in an initialized epoch that has not
-- paused trading and whose pause has ended by the slot.
pub record IsOpen (slot : ℕ) (amm : SolPoolAmm) : Type 0 where
  pub pool_initialized : amm.pool.initialized ≡ true
  pub pool_unlocked : amm.pool.locked ≡ false
  pub epoch_initialized : amm.epoch_initialized ≡ true
  pub refreshed : amm.state_refreshed ≡ true
  pub not_paused : amm.trading_paused ≡ false
  pub pause_over : amm.pause_end_slot ≤ slot

active-IsOpen : (slot : ℕ) (amm : SolPoolAmm) → is_active slot amm ≡ true → IsOpen slot amm
unfolding is_active
active-IsOpen slot amm h = record {
  pool_initialized = ground arith;
  pool_unlocked = ground arith;
  epoch_initialized = ground arith;
  refreshed = ground arith;
  not_paused = ground arith;
  pause_over = ground arith;
}

IsOpen-active : (slot : ℕ) (amm : SolPoolAmm) → IsOpen slot amm → is_active slot amm ≡ true
unfolding is_active
IsOpen-active slot amm o = ground (
  arith, o.pool_initialized, o.pool_unlocked, o.epoch_initialized, o.refreshed, o.not_paused,
  o.pause_over,
)

active_later :
    (slot slot' : ℕ) (amm : SolPoolAmm)
    → slot ≤ slot'
    → is_active slot amm ≡ true
    → is_active slot' amm ≡ true
unfolding is_active
active_later slot slot' amm le h = ground arith

-- The pair is the pool's, in the direction of a buy or of a sell.
abbrev pub IsBuyOf : SolPoolAmm → QuoteParams → Type 0
IsBuyOf amm params = (params.input_mint ≡ amm.quote_mint) × (params.output_mint ≡ amm.faction_mint)

abbrev pub IsSellOf : SolPoolAmm → QuoteParams → Type 0
IsSellOf amm params =
    (params.input_mint ≢ amm.quote_mint)
    × (params.input_mint ≡ amm.faction_mint)
    × (params.output_mint ≡ amm.quote_mint)

module _ {Decimal : Type 0} (dec : Decimals Decimal) where
  quote_ok :
      (slot : ℕ) (amm : SolPoolAmm) (params : QuoteParams) {q : Quote Decimal}
      → quote dec slot amm params ≡ ok q
      → (params.swap_mode ≡ exact_in)
        × (is_active slot amm ≡ true)
        × ((IsBuyOf amm params × (quote_buy dec amm params.amount ≡ ok q))
            ⊎ (IsSellOf amm params × (quote_sell dec amm params.amount ≡ ok q)))
  unfolding quote validate_mint_pair
  quote_ok slot amm params h = ground arith

  ok_quote :
      (slot : ℕ) (amm : SolPoolAmm) (params : QuoteParams) (q : Quote Decimal)
      → params.swap_mode ≡ exact_in
      → is_active slot amm ≡ true
      → (IsBuyOf amm params × (quote_buy dec amm params.amount ≡ ok q))
        ⊎ (IsSellOf amm params × (quote_sell dec amm params.amount ≡ ok q))
      → quote dec slot amm params ≡ ok q
  unfolding quote validate_mint_pair
  ok_quote slot amm params q mode active side = ground arith

  -- At a slot the adapter quotes q exactly where the request is ExactIn, trading is open at that
  -- slot, the pair is the pool's, and q is the buy's or the sell's own answer for the direction.
  pub quote_iff :
      (slot : ℕ) (amm : SolPoolAmm) (params : QuoteParams) (q : Quote Decimal)
      → (quote dec slot amm params ≡ ok q) ↔ (
          (params.swap_mode ≡ exact_in)
          × IsOpen slot amm
          × ((IsBuyOf amm params × (quote_buy dec amm params.amount ≡ ok q))
              ⊎ (IsSellOf amm params × (quote_sell dec amm params.amount ≡ ok q))))
  quote_iff slot amm params q = (
    (λ h.
        let (mode, active, side) = quote_ok slot amm params h in
        (mode, active-IsOpen slot amm active, side)),
    λ (mode, o, side). ok_quote slot amm params q mode (IsOpen-active slot amm o) side,
  )

  -- A request that is quoted at a slot gets the same quote at every later slot, until a refresh.
  pub quote_later :
      (slot slot' : ℕ) (amm : SolPoolAmm) (params : QuoteParams) {q : Quote Decimal}
      → slot ≤ slot'
      → quote dec slot amm params ≡ ok q
      → quote dec slot' amm params ≡ ok q
  quote_later slot slot' amm params {q} le h =
      let (mode, active, side) = quote_ok slot amm params h in
      ok_quote slot' amm params q mode (active_later slot slot' amm le active) side

  closed_quote :
      (slot : ℕ) (amm : SolPoolAmm) (params : QuoteParams) (q : Quote Decimal)
      → amm.state_refreshed ≡ false
      → quote dec slot amm params ≢ ok q
  closed_quote slot amm params q closed h =
      let (_, active, _) = quote_ok slot amm params h in let o = active-IsOpen slot amm active in cc

  -- An adapter that no refresh has reached since its construction quotes nothing, at any slot.
  pub new_adapter_closed :
      (d : Derivation) (keyed : KeyedAccount) (slot : ℕ) (params : QuoteParams) (q : Quote Decimal)
      {amm : SolPoolAmm}
      → from_keyed_account d keyed ≡ ok amm
      → quote dec slot amm params ≢ ok q
  new_adapter_closed d keyed slot params q {amm} h =
      closed_quote slot amm params q (from_keyed_account-IsFresh d keyed h).not_refreshed

  -- An adapter whose last refresh failed quotes nothing, at any slot.
  pub failed_update_closed :
      {Mint : Type 0} (lib : MintLibrary Mint) (amm : SolPoolAmm) (accounts : AccountMap) (slot : ℕ)
      (params : QuoteParams) (q : Quote Decimal) {amm' : SolPoolAmm} {e : Error}
      → update lib amm accounts ≡ (amm', err e)
      → quote dec slot amm' params ≢ ok q
  failed_update_closed lib amm accounts slot params q {amm'} h =
      closed_quote slot amm' params q (failed_update lib amm accounts h).0
