-- ===== src/SolPoolAmm/Refresh/Outcome.antt =====
-- What `update` of src/sol_pool_amm.rs leaves behind when it succeeds.
use drfraudsworth_jupiter_ad.Prelude.{◌≡◌, ◌↔◌, refl, sym, true, false, arith, Result, ok, err, ◌∙◌}
use drfraudsworth_jupiter_ad.Jupiter.{AccountMap}
use drfraudsworth_jupiter_ad.State.PoolState.{ParsedPoolState}
use drfraudsworth_jupiter_ad.State.EpochState.{ParsedEpochState, get_tax_bps}
use drfraudsworth_jupiter_ad.State.MintState.{MintLibrary}
use drfraudsworth_jupiter_ad.SolPoolAmm.{SolPoolAmm, is_crime, quote_token_program}
use drfraudsworth_jupiter_ad.SolPoolAmm.Refresh.{
  refresh_pool, refresh_epoch, set_epoch, refresh_quote_mint, finish, with_epoch, with_pool, update,
}
use drfraudsworth_jupiter_ad.SolPoolAmm.Refresh.Accounts.{
  SamePool, SameIdentity, same_fields, PoolShows, EpochShows, refresh_pool-PoolShows,
  PoolShows-refresh_pool, refresh_epoch-EpochShows, EpochShows-refresh_epoch, TaxesOf,
  QuoteMintFits, IsRefreshed, QuoteMintFits-iff,
}

module _ {Mint : Type 0} (lib : MintLibrary Mint) where
  abbrev pub refreshed_with : SolPoolAmm → ParsedPoolState → ParsedEpochState → SolPoolAmm
  refreshed_with amm pool epoch = record (set_epoch amm epoch) {
    pool = pool;
    state_refreshed = true;
  }

  -- The three last steps of a refresh, by their results.
  finish_ok :
      (amm : SolPoolAmm) (pool : ParsedPoolState) (r : Result (Unit {0})) {amm' : SolPoolAmm}
      → finish lib amm pool r ≡ (amm', ok tt)
      → (r ≡ ok tt) × (amm' ≡ record amm { pool = pool; state_refreshed = true })
  unfolding finish
  finish_ok amm pool (ok _) h = (refl, cc)
  finish_ok amm pool (err e) h = cc

  with_epoch_ok :
      (amm : SolPoolAmm) (accounts : AccountMap) (pool : ParsedPoolState)
      (r : Result ParsedEpochState) {amm' : SolPoolAmm}
      → with_epoch lib amm accounts pool r ≡ (amm', ok tt)
      → (epoch : ParsedEpochState) × (r ≡ ok epoch)
        × (refresh_quote_mint lib (set_epoch amm epoch) accounts ≡ ok tt)
        × (amm' ≡ refreshed_with amm pool epoch)
  unfolding with_epoch
  with_epoch_ok amm accounts pool (ok epoch) h =
      let (fits, eq) = finish_ok (set_epoch amm epoch) pool _ h in (epoch, refl, fits, eq)
  with_epoch_ok amm accounts pool (err e) h = cc

  with_pool_ok :
      (amm : SolPoolAmm) (accounts : AccountMap) (r : Result ParsedPoolState) {amm' : SolPoolAmm}
      → with_pool lib amm accounts r ≡ (amm', ok tt)
      → (pool : ParsedPoolState) × (r ≡ ok pool)
        × (epoch : ParsedEpochState) × (refresh_epoch accounts ≡ ok epoch)
        × (refresh_quote_mint lib (set_epoch amm epoch) accounts ≡ ok tt)
        × (amm' ≡ refreshed_with amm pool epoch)
  unfolding with_pool
  with_pool_ok amm accounts (ok pool) h =
      let (epoch, shown, fits, eq) = with_epoch_ok amm accounts pool (refresh_epoch accounts) h in
      (pool, refl, epoch, shown, fits, eq)
  with_pool_ok amm accounts (err e) h = cc

  SameIdentity-of :
      (amm : SolPoolAmm) (pool : ParsedPoolState) (epoch : ParsedEpochState)
      → SamePool amm.pool pool
      → SameIdentity amm (refreshed_with amm pool epoch)
  unfolding set_epoch
  SameIdentity-of amm pool epoch same = same_fields amm _ refl refl refl refl same

  pub TaxesOf-set_epoch :
      (amm : SolPoolAmm) (pool : ParsedPoolState) (epoch : ParsedEpochState)
      → TaxesOf epoch (refreshed_with amm pool epoch)
  unfolding set_epoch is_crime get_tax_bps
  TaxesOf-set_epoch amm pool epoch = ground arith

  quote_mint_same :
      (amm : SolPoolAmm) (accounts : AccountMap) (epoch : ParsedEpochState)
      → refresh_quote_mint lib (set_epoch (record amm { state_refreshed = false }) epoch) accounts
        ≡ refresh_quote_mint lib amm accounts
  unfolding set_epoch refresh_quote_mint quote_token_program
  quote_mint_same amm accounts epoch = refl

  refresh_pool_same :
      (amm : SolPoolAmm) (accounts : AccountMap)
      → refresh_pool (record amm { state_refreshed = false }) accounts ≡ refresh_pool amm accounts
  unfolding refresh_pool
  refresh_pool_same amm accounts = refl

  refreshed_same :
      (amm : SolPoolAmm) (pool : ParsedPoolState) (epoch : ParsedEpochState)
      → refreshed_with (record amm { state_refreshed = false }) pool epoch
        ≡ refreshed_with amm pool epoch
  unfolding set_epoch is_crime
  refreshed_same amm pool epoch = refl

  pub refreshed_with-IsRefreshed :
      (amm : SolPoolAmm) (accounts : AccountMap) (pool : ParsedPoolState) (epoch : ParsedEpochState)
      → PoolShows amm accounts pool
      → EpochShows accounts epoch
      → QuoteMintFits lib amm accounts
      → IsRefreshed lib amm accounts (refreshed_with amm pool epoch)
  unfolding set_epoch
  refreshed_with-IsRefreshed amm accounts pool epoch p e q = record {
    same = SameIdentity-of amm pool epoch p.same;
    pool_shows = p;
    epoch = epoch;
    epoch_shows = e;
    taxes = TaxesOf-set_epoch amm pool epoch;
    pause_end = refl;
    paused = refl;
    epoch_initialized = refl;
    quote_mint_fits = q;
    refreshed = refl;
  }

  update-IsRefreshed :
      (amm : SolPoolAmm) (accounts : AccountMap) {amm' : SolPoolAmm}
      → update lib amm accounts ≡ (amm', ok tt)
      → IsRefreshed lib amm accounts amm'
  unfolding update
  update-IsRefreshed amm accounts h =
      let (pool, hp, epoch, he, hq, eq) =
        with_pool_ok (record amm { state_refreshed = false }) accounts _ h in
      let fits =
        (QuoteMintFits-iff lib amm accounts).0 (sym (quote_mint_same amm accounts epoch) ∙ hq) in
      rw (eq, refreshed_same amm pool epoch)
        (refreshed_with-IsRefreshed amm accounts pool epoch
          (refresh_pool-PoolShows amm accounts (sym (refresh_pool_same amm accounts) ∙ hp))
          (refresh_epoch-EpochShows accounts he) fits)

  IsRefreshed-value :
      (amm : SolPoolAmm) (accounts : AccountMap) (amm' : SolPoolAmm)
      (r : IsRefreshed lib amm accounts amm')
      → refreshed_with amm amm'.pool r.epoch ≡ amm'
  unfolding set_epoch is_crime get_tax_bps
  IsRefreshed-value amm accounts amm' r = ground (
    arith, r.same.key, r.same.faction_mint, r.same.quote_mint, r.same.faction, r.taxes, r.pause_end,
    r.paused, r.epoch_initialized, r.refreshed,
  )

  IsRefreshed-update :
      (amm : SolPoolAmm) (accounts : AccountMap) (amm' : SolPoolAmm)
      → IsRefreshed lib amm accounts amm'
      → update lib amm accounts ≡ (amm', ok tt)
  unfolding update with_pool with_epoch finish
  IsRefreshed-update amm accounts amm' r =
      rw
        (
          refresh_pool_same amm accounts,
          PoolShows-refresh_pool amm accounts r.pool_shows,
          EpochShows-refresh_epoch accounts r.epoch_shows,
          quote_mint_same amm accounts r.epoch,
          (QuoteMintFits-iff lib amm accounts).1 r.quote_mint_fits,
          refreshed_same amm amm'.pool r.epoch,
          IsRefreshed-value amm accounts amm' r,
        )
        refl

  -- A refresh succeeds with an adapter exactly where both accounts are listed, owned by their
  -- programs and well formed, the pool's identity is unchanged and the quote mint preserves
  -- amounts; the adapter then shows that pool and that epoch, and is marked as refreshed.
  pub successful_update_iff :
      (amm : SolPoolAmm) (accounts : AccountMap) (amm' : SolPoolAmm)
      → (update lib amm accounts ≡ (amm', ok tt)) ↔ IsRefreshed lib amm accounts amm'
  successful_update_iff amm accounts amm' =
      ((λ h. update-IsRefreshed amm accounts h), λ r. IsRefreshed-update amm accounts amm' r)
