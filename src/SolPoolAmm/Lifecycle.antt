-- ===== src/SolPoolAmm/Lifecycle.antt =====
-- The life of an adapter of src/sol_pool_amm.rs with its aggregator: constructed from an account,
-- refreshed from account maps, each refresh successful or not, while the clock goes on.
pub mod Liveness
pub mod Execution
use drfraudsworth_jupiter_ad.Prelude.{
  ℕ, ◌≤◌, ◌<◌, ◌≡◌, ◌⊎◌, refl, sym, ◌∙◌, Bool, true, false, List, [], ◌∷◌, All, arith, Result, ok,
  err, Error,
}
use drfraudsworth_jupiter_ad.Words.{IsByte}
use drfraudsworth_jupiter_ad.Solana.{Derivation}
use drfraudsworth_jupiter_ad.Jupiter.{
  Account, AccountMap, KeyedAccount, QuoteParams, Decimals, Quote,
}
use drfraudsworth_jupiter_ad.Jupiter.Life.{
  Life, Step, tick, refresh, fail, Reach, born, reach_keeps,
}
use drfraudsworth_jupiter_ad.Addresses.{amm_program_id, epoch_program_id, epoch_state_pda}
use drfraudsworth_jupiter_ad.State.PoolState.{ParsedPoolState}
use drfraudsworth_jupiter_ad.State.EpochState.{ParsedEpochState}
use drfraudsworth_jupiter_ad.State.MintState.{MintLibrary}
use drfraudsworth_jupiter_ad.SolPoolAmm.{SolPoolAmm, from_keyed_account}
use drfraudsworth_jupiter_ad.SolPoolAmm.Refresh.{update}
use drfraudsworth_jupiter_ad.SolPoolAmm.Refresh.Identity.{
  IsCanonical, IsAdmitted, from_keyed_account_iff,
}
use drfraudsworth_jupiter_ad.SolPoolAmm.Refresh.Accounts.{
  SameIdentity, Owned, EpochShows, TaxesOf, IsRefreshed,
}
use drfraudsworth_jupiter_ad.SolPoolAmm.Refresh.Outcome.{successful_update_iff}
use drfraudsworth_jupiter_ad.SolPoolAmm.Refresh.Failure.{failed_update}
use drfraudsworth_jupiter_ad.SolPoolAmm.Refresh.Invariant.{SameIdentity-IsCanonical}
use drfraudsworth_jupiter_ad.SolPoolAmm.Quoting.{quote}
use drfraudsworth_jupiter_ad.SolPoolAmm.Quoting.Gates.{IsOpen, quote_iff}
use drfraudsworth_jupiter_ad.State.PoolState

-- What quotes of the adapter stand on: the AMM program's account at its key holds its pool, the
-- epoch program's account holds an epoch, and the taxes and gates are that epoch's.
pub record IsBacked (accounts : AccountMap) (amm : SolPoolAmm) : Type 0 where
  pub pool_account : Account
  pub pool_owned : Owned accounts amm.key amm_program_id pool_account
  pub pool_parsed : PoolState.from_bytes pool_account.bytes ≡ ok amm.pool
  pub epoch : ParsedEpochState
  pub epoch_shows : EpochShows accounts epoch
  pub taxes : TaxesOf epoch amm
  pub pause_end : amm.pause_end_slot ≡ epoch.pause_end_slot
  pub paused : amm.trading_paused ≡ epoch.trading_paused
  pub epoch_initialized : amm.epoch_initialized ≡ epoch.initialized

-- The adapter shows the accounts of its last refresh, and where that failed or there was none it is
-- not refreshed.
abbrev pub IsCurrent : List (AccountMap × Bool) → SolPoolAmm → Type 0
IsCurrent ((accounts, true) ∷ older) amm = IsBacked accounts amm
IsCurrent _ amm = amm.state_refreshed ≡ false

module _ {Mint : Type 0} (lib : MintLibrary Mint) where
  -- What holds all along: the pool is the constructed one's, and the adapter shows its source.
  pub record IsSound (d : Derivation) (key : ℕ) (life : Life SolPoolAmm) : Type 0 where
    pub canonical : IsCanonical d life.amm
    pub key_same : life.amm.key ≡ key
    pub current : IsCurrent life.history life.amm

  IsRefreshed-IsBacked :
      {amm amm' : SolPoolAmm} {accounts : AccountMap}
      → IsRefreshed lib amm accounts amm'
      → IsBacked accounts amm'
  IsRefreshed-IsBacked r = record {
    pool_account = r.pool_shows.account;
    pool_owned = rw r.same.key r.pool_shows.owned;
    pool_parsed = r.pool_shows.parsed;
    epoch = r.epoch;
    epoch_shows = r.epoch_shows;
    taxes = r.taxes;
    pause_end = r.pause_end;
    paused = r.paused;
    epoch_initialized = r.epoch_initialized;
  }

  Step-IsSound :
      (d : Derivation) (key : ℕ) {now later : Life SolPoolAmm}
      → Step (update lib) now later
      → IsSound d key now
      → IsSound d key later
  Step-IsSound d key (tick slot le) s = record {
    canonical = s.canonical;
    key_same = s.key_same;
    current = s.current;
  }
  Step-IsSound d key {now} (refresh accounts amm h) s =
      let r = (successful_update_iff lib now.amm accounts amm).0 h in
      record {
        canonical = SameIdentity-IsCanonical d now.amm amm r.same s.canonical;
        key_same = r.same.key ∙ s.key_same;
        current = IsRefreshed-IsBacked r;
      }
  Step-IsSound d key {now} (fail accounts amm e h) s =
      let (stale, _, same) = failed_update lib now.amm accounts h in
      record {
        canonical = SameIdentity-IsCanonical d now.amm amm same s.canonical;
        key_same = same.key ∙ s.key_same;
        current = stale;
      }

  -- Every life that began with a construction is sound.
  pub Reach-born :
      (d : Derivation) (keyed : KeyedAccount) (slot : ℕ) {amm : SolPoolAmm} {now : Life SolPoolAmm}
      → All IsByte keyed.account.bytes
      → from_keyed_account d keyed ≡ ok amm
      → Reach (update lib) (born slot amm) now
      → IsSound d keyed.key now
  Reach-born d keyed slot {amm} all h r =
      let a = (from_keyed_account_iff d keyed amm all).0 h in
      reach_keeps (update lib) (IsSound d keyed.key) (λ _ _ step s. Step-IsSound d keyed.key step s)
        (record { canonical = a.canonical; key_same = a.key_same; current = a.fresh.not_refreshed })
        r

  current_source :
      (history : List (AccountMap × Bool)) (amm : SolPoolAmm)
      → IsCurrent history amm
      → amm.state_refreshed ≡ true
      → (accounts : AccountMap) × (older : List (AccountMap × Bool)) × (history
          ≡ (accounts, true) ∷ older)
        × IsBacked accounts amm
  current_source [] amm c h = cc
  current_source ((accounts, false) ∷ older) amm c h = cc
  current_source ((accounts, true) ∷ older) amm c h = (accounts, older, refl, c)

  -- Whatever refreshes have succeeded or failed since an adapter was constructed from an account of
  -- bytes, and however far the clock went on: what it quotes then is for the constructed pool, which
  -- is canonical, after a last refresh that succeeded, with the pool and the taxes that the accounts
  -- of that refresh show, while trading is open by them at the slot.
  pub quote-IsBacked :
      {Decimal : Type 0} (dec : Decimals Decimal) (d : Derivation) (keyed : KeyedAccount) (slot : ℕ)
      (params : QuoteParams) (q : Quote Decimal) {amm : SolPoolAmm} {now : Life SolPoolAmm}
      → All IsByte keyed.account.bytes
      → from_keyed_account d keyed ≡ ok amm
      → Reach (update lib) (born slot amm) now
      → quote dec now.slot now.amm params ≡ ok q
      → IsCanonical d now.amm
        × (now.amm.key ≡ keyed.key)
        × IsOpen now.slot now.amm
        × ((accounts : AccountMap) × (older : List (AccountMap × Bool)) × (now.history
              ≡ (accounts, true) ∷ older)
            × IsBacked accounts now.amm)
  quote-IsBacked dec d keyed slot params q {amm} {now} all h r quoted =
      let s = Reach-born d keyed slot all h r in
      let (_, open_now, _) = (quote_iff dec now.slot now.amm params q).0 quoted in
      (
        s.canonical,
        s.key_same,
        open_now,
        current_source now.history now.amm s.current open_now.refreshed,
      )
