-- ===== src/SolPoolAmm/Lifecycle/Liveness.antt =====
-- A refresh of src/sol_pool_amm.rs from a tradable pool opens the adapter's quotes.
use drfraudsworth_jupiter_ad.Prelude.{ℕ, ◌≤◌, ◌<◌, ◌≡◌, ◌⊎◌, inl, inr, refl, true, false, arith, ok}
use drfraudsworth_jupiter_ad.Words.{IsU64}
use drfraudsworth_jupiter_ad.Jupiter.{AccountMap, QuoteParams, Decimals, Quote, exact_in}
use drfraudsworth_jupiter_ad.State.PoolState.{ParsedPoolState}
use drfraudsworth_jupiter_ad.State.EpochState.{ParsedEpochState}
use drfraudsworth_jupiter_ad.State.MintState.{MintLibrary}
use drfraudsworth_jupiter_ad.SolPoolAmm.{SolPoolAmm, reserves}
use drfraudsworth_jupiter_ad.SolPoolAmm.Refresh.{update, set_epoch}
use drfraudsworth_jupiter_ad.SolPoolAmm.Refresh.Accounts.{
  PoolShows, EpochShows, QuoteMintFits, TaxesOf,
}
use drfraudsworth_jupiter_ad.SolPoolAmm.Refresh.Outcome.{
  refreshed_with, refreshed_with-IsRefreshed, TaxesOf-set_epoch, successful_update_iff,
}
use drfraudsworth_jupiter_ad.SolPoolAmm.Quoting.{quote}
use drfraudsworth_jupiter_ad.SolPoolAmm.Quoting.Gates.{IsOpen, IsBuyOf, IsSellOf, quote_iff}
use drfraudsworth_jupiter_ad.SolPoolAmm.Quoting.Economics.{quotes_total}

-- A pool that trades: initialized, unlocked, with filled u64 reserves and a fee that is a share.
pub record IsTradable (pool : ParsedPoolState) : Type 0 where
  pub initialized : pool.initialized ≡ true
  pub unlocked : pool.locked ≡ false
  pub fee : pool.lp_fee_bps ≤ 10_000
  pub filled_a : 0 < pool.reserve_a
  pub filled_b : 0 < pool.reserve_b
  pub u64_a : IsU64 pool.reserve_a
  pub u64_b : IsU64 pool.reserve_b

-- An epoch in which trading goes on at a slot, with taxes that are shares.
pub record IsTrading (slot : ℕ) (epoch : ParsedEpochState) : Type 0 where
  pub initialized : epoch.initialized ≡ true
  pub not_paused : epoch.trading_paused ≡ false
  pub pause_over : epoch.pause_end_slot ≤ slot
  pub crime_buy : epoch.crime_buy_tax_bps ≤ 10_000
  pub crime_sell : epoch.crime_sell_tax_bps ≤ 10_000
  pub fraud_buy : epoch.fraud_buy_tax_bps ≤ 10_000
  pub fraud_sell : epoch.fraud_sell_tax_bps ≤ 10_000

filled_reserves :
    (amm : SolPoolAmm) → IsTradable amm.pool → (0 < (reserves amm).0) × (0 < (reserves amm).1)
unfolding reserves
filled_reserves amm t =
    (ground (arith, t.filled_a, t.filled_b), ground (arith, t.filled_a, t.filled_b))

taxes_shares :
    (slot : ℕ) (epoch : ParsedEpochState) (amm : SolPoolAmm)
    → IsTrading slot epoch
    → TaxesOf epoch amm
    → (amm.buy_tax_bps ≤ 10_000) × (amm.sell_tax_bps ≤ 10_000)
taxes_shares slot epoch amm e t =
    (ground (arith, e.crime_buy, e.fraud_buy), ground (arith, e.crime_sell, e.fraud_sell))

module _ {Decimal : Type 0} (dec : Decimals Decimal) where
  -- An open adapter of filled reserves and rates that are shares answers its own pair.
  open_quotes :
      (slot : ℕ) (amm : SolPoolAmm) (params : QuoteParams)
      → IsOpen slot amm
      → IsTradable amm.pool
      → (amm.buy_tax_bps ≤ 10_000) × (amm.sell_tax_bps ≤ 10_000)
      → params.swap_mode ≡ exact_in
      → IsBuyOf amm params ⊎ IsSellOf amm params
      → IsU64 params.amount
      → (q : Quote Decimal) × (quote dec slot amm params ≡ ok q)
  open_quotes slot amm params o t (buy, sell) mode pair h =
      let (filled, filled') = filled_reserves amm t in
      let ((b, bought), (s, sold)) =
        quotes_total dec amm params.amount (t.u64_a, t.u64_b) h filled filled' t.fee buy sell in
      elim pair [
        | inl side ↦ (b, (quote_iff dec slot amm params b).1 (mode, o, inl (side, bought)))
        | inr side ↦ (s, (quote_iff dec slot amm params s).1 (mode, o, inr (side, sold)))
      ]

  module _ {Mint : Type 0} (lib : MintLibrary Mint) where
    refreshed_with-IsOpen :
        (slot : ℕ) (amm : SolPoolAmm) (pool : ParsedPoolState) (epoch : ParsedEpochState)
        → IsTradable pool
        → IsTrading slot epoch
        → IsOpen slot (refreshed_with lib amm pool epoch)
    unfolding set_epoch
    refreshed_with-IsOpen slot amm pool epoch t e = record {
      pool_initialized = t.initialized;
      pool_unlocked = t.unlocked;
      epoch_initialized = e.initialized;
      refreshed = refl;
      not_paused = e.not_paused;
      pause_over = e.pause_over;
    }

    -- Whatever state an adapter is in, also behind a failed refresh: where the accounts show a
    -- tradable pool of its identity, an epoch in which trading goes on at the slot and a fitting
    -- quote mint, the refresh succeeds, and the adapter that it leaves quotes every ExactIn request
    -- of the pair for a u64 amount.
    pub refresh_opens :
        (slot : ℕ) (amm : SolPoolAmm) (accounts : AccountMap) (params : QuoteParams)
        (pool : ParsedPoolState) (epoch : ParsedEpochState)
        → PoolShows amm accounts pool
        → EpochShows accounts epoch
        → QuoteMintFits lib amm accounts
        → IsTradable pool
        → IsTrading slot epoch
        → params.swap_mode ≡ exact_in
        → IsBuyOf amm params ⊎ IsSellOf amm params
        → IsU64 params.amount
        → (amm' : SolPoolAmm) × (update lib amm accounts ≡ (amm', ok tt))
          × ((q : Quote Decimal) × (quote dec slot amm' params ≡ ok q))
    unfolding set_epoch
    refresh_opens slot amm accounts params pool epoch p e fits t trading mode pair h =
        let amm' = refreshed_with lib amm pool epoch in
        (
          amm',
          (successful_update_iff lib amm accounts amm').1
              (refreshed_with-IsRefreshed lib amm accounts pool epoch p e fits),
          open_quotes slot amm' params (refreshed_with-IsOpen slot amm pool epoch t trading) t
              (taxes_shares slot epoch amm' trading (TaxesOf-set_epoch lib amm pool epoch)) mode
              pair h,
        )
