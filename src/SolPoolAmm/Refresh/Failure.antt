-- ===== src/SolPoolAmm/Refresh/Failure.antt =====
-- What `update` of src/sol_pool_amm.rs leaves behind when it fails.
use drfraudsworth_jupiter_ad.Prelude.{◌≡◌, ◌⊎◌, false, inl, inr, Result, ok, err, Error}
use drfraudsworth_jupiter_ad.Jupiter.{AccountMap}
use drfraudsworth_jupiter_ad.State.PoolState.{ParsedPoolState}
use drfraudsworth_jupiter_ad.State.EpochState.{ParsedEpochState}
use drfraudsworth_jupiter_ad.State.MintState.{MintLibrary}
use drfraudsworth_jupiter_ad.SolPoolAmm.{SolPoolAmm}
use drfraudsworth_jupiter_ad.SolPoolAmm.Refresh.{
  refresh_epoch, set_epoch, finish, with_epoch, with_pool, update,
}
use drfraudsworth_jupiter_ad.SolPoolAmm.Refresh.Accounts.{
  SameIdentity, SameIdentity-refl, SameIdentity-epoch,
}

module _ {Mint : Type 0} (lib : MintLibrary Mint) where
  -- Where a step fails, the adapter has at most the epoch's fields changed.
  finish_err :
      (amm : SolPoolAmm) (pool : ParsedPoolState) (r : Result (Unit {0})) {amm' : SolPoolAmm}
      {e : Error}
      → finish lib amm pool r ≡ (amm', err e)
      → amm' ≡ amm
  unfolding finish
  finish_err amm pool (ok _) h = cc
  finish_err amm pool (err e) h = cc

  with_epoch_err :
      (amm : SolPoolAmm) (accounts : AccountMap) (pool : ParsedPoolState)
      (r : Result ParsedEpochState) {amm' : SolPoolAmm} {e : Error}
      → with_epoch lib amm accounts pool r ≡ (amm', err e)
      → (amm' ≡ amm) ⊎ ((epoch : ParsedEpochState) × (amm' ≡ set_epoch amm epoch))
  unfolding with_epoch
  with_epoch_err amm accounts pool (ok epoch) h =
      inr (epoch, finish_err (set_epoch amm epoch) pool _ h)
  with_epoch_err amm accounts pool (err e) h = inl cc

  with_pool_err :
      (amm : SolPoolAmm) (accounts : AccountMap) (r : Result ParsedPoolState) {amm' : SolPoolAmm}
      {e : Error}
      → with_pool lib amm accounts r ≡ (amm', err e)
      → (amm' ≡ amm) ⊎ ((epoch : ParsedEpochState) × (amm' ≡ set_epoch amm epoch))
  unfolding with_pool
  with_pool_err amm accounts (ok pool) h =
      with_epoch_err amm accounts pool (refresh_epoch accounts) h
  with_pool_err amm accounts (err e) h = inl cc

  -- A refresh that fails leaves the adapter marked as not refreshed, with the pool state and the
  -- identity that it had.
  pub failed_update :
      (amm : SolPoolAmm) (accounts : AccountMap) {amm' : SolPoolAmm} {e : Error}
      → update lib amm accounts ≡ (amm', err e)
      → (amm'.state_refreshed ≡ false) × (amm'.pool ≡ amm.pool) × SameIdentity amm amm'
  unfolding update set_epoch
  failed_update amm accounts h =
      elim (with_pool_err (record amm { state_refreshed = false }) accounts _ h) [
        | inl eq ↦ (cc, cc, rw eq (SameIdentity-refl amm false))
        | inr (epoch, eq) ↦ (cc, cc, rw eq (SameIdentity-epoch amm epoch))
      ]
