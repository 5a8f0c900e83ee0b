-- ===== src/SolPoolAmm/Refresh.antt =====
-- `update` of src/sol_pool_amm.rs. The method writes to `self` as it goes, so a failed refresh leaves
-- a changed adapter behind: it returns the adapter together with its result.
pub mod Identity
pub mod Accounts
pub mod Outcome
pub mod Failure
pub mod Invariant
pub mod Frame
use drfraudsworth_jupiter_ad.Prelude.{
  ℕ, Bool, true, false, not, ◌||◌, Option, ◌==◌, if◌then◌else◌, Result, ok, err, Error, ◌>>=◌, ◌>>◌,
  bail_if, ok_or,
}
use drfraudsworth_jupiter_ad.Pubkey.{Pubkey}
use drfraudsworth_jupiter_ad.Jupiter.{Account, AccountMap}
use drfraudsworth_jupiter_ad.Addresses.{
  amm_program_id, epoch_program_id, epoch_state_pda, native_mint,
}
use drfraudsworth_jupiter_ad.State.PoolState
use drfraudsworth_jupiter_ad.State.PoolState.{ParsedPoolState}
use drfraudsworth_jupiter_ad.State.EpochState
use drfraudsworth_jupiter_ad.State.EpochState.{ParsedEpochState, get_tax_bps}
use drfraudsworth_jupiter_ad.State.MintState.{MintLibrary, validate_quote_mint}
use drfraudsworth_jupiter_ad.SolPoolAmm.{SolPoolAmm, is_crime, quote_token_program}

-- A fresh pool state shows another mint, vault or token program than the adapter was built from.
unfoldable pub identity_changed : ParsedPoolState → ParsedPoolState → Bool
identity_changed fresh pool =
    not (fresh.mint_a == pool.mint_a)
    || (not (fresh.mint_b == pool.mint_b)
        || (not (fresh.vault_a == pool.vault_a)
            || (not (fresh.vault_b == pool.vault_b)
                || (not (fresh.token_program_a == pool.token_program_a)
                    || not (fresh.token_program_b == pool.token_program_b)))))

-- The pool account: its owner, its bytes, its unchanged identity.
unfoldable pub refresh_pool : SolPoolAmm → AccountMap → Result ParsedPoolState
refresh_pool amm accounts = do
  account ← ok_or (accounts amm.key) Error.missing_account
  bail_if (not (account.owner == amm_program_id)) Error.wrong_owner
  pool ← PoolState.from_bytes account.bytes
  bail_if (identity_changed pool amm.pool) Error.identity_changed
  ok pool

-- The epoch account: its owner and its bytes.
unfoldable pub refresh_epoch : AccountMap → Result ParsedEpochState
refresh_epoch accounts = do
  account ← ok_or (accounts epoch_state_pda) Error.missing_account
  bail_if (not (account.owner == epoch_program_id)) Error.wrong_owner
  EpochState.from_bytes account.bytes

-- The fields that the epoch sets.
unfoldable pub set_epoch : SolPoolAmm → ParsedEpochState → SolPoolAmm
set_epoch amm epoch = record amm {
  buy_tax_bps = get_tax_bps epoch (is_crime amm) true;
  sell_tax_bps = get_tax_bps epoch (is_crime amm) false;
  pause_end_slot = epoch.pause_end_slot;
  trading_paused = epoch.trading_paused;
  epoch_initialized = epoch.initialized;
}

module _ {Mint : Type 0} (lib : MintLibrary Mint) where
  -- The quote mint, unless it is WSOL.
  unfoldable pub refresh_quote_mint : SolPoolAmm → AccountMap → Result (Unit {0})
  refresh_quote_mint amm accounts =
      if not (amm.quote_mint == native_mint)
      then (ok_or (accounts amm.quote_mint) Error.missing_account >>= λ account.
          validate_quote_mint lib account.bytes account.owner (quote_token_program amm))
      else ok tt

  -- The last step, behind the epoch's fields.
  unfoldable pub finish :
      SolPoolAmm → ParsedPoolState → Result (Unit {0}) → SolPoolAmm × Result (Unit {0})
  finish amm pool (err e) = (amm, err e)
  finish amm pool (ok _) = (record amm { pool = pool; state_refreshed = true }, ok tt)

  unfoldable pub with_epoch :
      SolPoolAmm
      → AccountMap
      → ParsedPoolState
      → Result ParsedEpochState
      → SolPoolAmm × Result (Unit {0})
  with_epoch amm accounts pool (err e) = (amm, err e)
  with_epoch amm accounts pool (ok epoch) =
      let amm' = set_epoch amm epoch in finish amm' pool (refresh_quote_mint amm' accounts)

  unfoldable pub with_pool :
      SolPoolAmm → AccountMap → Result ParsedPoolState → SolPoolAmm × Result (Unit {0})
  with_pool amm accounts (err e) = (amm, err e)
  with_pool amm accounts (ok pool) = with_epoch amm accounts pool (refresh_epoch accounts)

  unfoldable pub update : SolPoolAmm → AccountMap → SolPoolAmm × Result (Unit {0})
  update amm accounts =
      let amm' = record amm { state_refreshed = false } in
      with_pool amm' accounts (refresh_pool amm' accounts)
