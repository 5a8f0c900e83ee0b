-- ===== src/Runs/Lives.antt =====
-- The theorems on the lives of the two adapters: construction, refreshes, failures and quotes.
use drfraudsworth_jupiter_ad.Prelude.{
  ◌≡◌, ◌⊎◌, refl, ok, err, Error, ℕ, some, inl, All, arith, ◌==◌, if◌then◌else◌, Bool, true, List,
  [], ◌∷◌,
}
use drfraudsworth_jupiter_ad.Words.{
  IsByte, from_le_bytes, bytes_eq, from_be_bytes, to_be_bytes, to_le_bytes,
}
use drfraudsworth_jupiter_ad.Jupiter.{AccountMap, Quote}
use drfraudsworth_jupiter_ad.State.PoolState.Parser.{from_bytes_iff}
use drfraudsworth_jupiter_ad.SolPoolAmm.{
  SolPoolAmm, is_active, validate_mint_pair, get_accounts_to_update, quote_token_program, is_crime,
}
use drfraudsworth_jupiter_ad.SolPoolAmm.Refresh.Identity.{IsCanonical}
use drfraudsworth_jupiter_ad.SolPoolAmm.Refresh.Frame.{AgreeAt, Listed, update_frame}
use drfraudsworth_jupiter_ad.SolPoolAmm.Quoting.{quote}
use drfraudsworth_jupiter_ad.SolPoolAmm.Quoting.Gates.{IsOpen}
use drfraudsworth_jupiter_ad.SolPoolAmm.Quoting.Orientation.{mirrored, quote-mirrored}
use drfraudsworth_jupiter_ad.SolPoolAmm.Lifecycle.{IsBacked, quote-IsBacked}
use drfraudsworth_jupiter_ad.Jupiter.Life.{Life, Reach, here, next, tick, refresh, born}
use drfraudsworth_jupiter_ad.SolPoolAmm.Lifecycle.Liveness.{refresh_opens}
use drfraudsworth_jupiter_ad.SolPoolAmm.Lifecycle.Execution.{Executes, quote_executable}
use drfraudsworth_jupiter_ad.Runs.Pools.{keyed, admitted, swap_request}
use drfraudsworth_jupiter_ad.Runs.Quotes.{bought_10000, request, buy_10000}
use drfraudsworth_jupiter_ad.Runs.States.{crime_pool-bytes, crime_pool-IsValid, crime_pool-Layout}
use drfraudsworth_jupiter_ad.Pubkey.{try_from, as_ref}
use drfraudsworth_jupiter_ad.State.PoolState.Layout.{to_bytes}
use drfraudsworth_jupiter_ad.State.Reader.Pieces.{of_bool}
use drfraudsworth_jupiter_ad.State.EpochState.{get_tax_bps, ParsedEpochState}
use drfraudsworth_jupiter_ad.State.Reader.{pubkey_at, u64_at, bool_byte}
use drfraudsworth_jupiter_ad.SolPoolAmm.Refresh.{
  update, with_pool, with_epoch, finish, refresh_pool, refresh_epoch, refresh_quote_mint, set_epoch,
  identity_changed,
}
use drfraudsworth_jupiter_ad.Runs.Data.{
  sums, naturals, classic_only, crime_pool, live_adapter, new_adapter, listed, epoch, pool_account,
  epoch_account, epoch_bytes, pool_key, are_bytes-All,
}
use drfraudsworth_jupiter_ad.State.PoolState
use drfraudsworth_jupiter_ad.State.EpochState

epoch_parsed : EpochState.from_bytes epoch_bytes ≡ ok epoch
unfolding EpochState.from_bytes u64_at bool_byte from_le_bytes bytes_eq
epoch_parsed = refl

refreshed : update classic_only new_adapter listed ≡ (live_adapter, ok tt)
unfolding update with_pool with_epoch finish refresh_pool refresh_epoch refresh_quote_mint set_epoch
    identity_changed get_tax_bps is_crime PoolState.from_bytes EpochState.from_bytes pubkey_at
    u64_at bool_byte from_le_bytes bytes_eq try_from from_be_bytes to_bytes as_ref to_be_bytes
    to_le_bytes of_bool
refreshed = refl

-- Constructed at slot 50, refreshed, and asked at slot 77.
abbrev live : Life SolPoolAmm
live = record { slot = 77; amm = live_adapter; history = (listed, true) ∷ [] }

lived : Reach (update classic_only) (born 50 new_adapter) live
lived = next (next here (refresh listed live_adapter refreshed)) (tick 77 (omega arith))

at_77 : quote naturals 77 live_adapter request ≡ ok bought_10000
unfolding quote validate_mint_pair is_active
at_77 = buy_10000

bytes : All IsByte pool_account.bytes
bytes = are_bytes-All pool_account.bytes crime_pool-bytes

quote-IsBacked_example :
    IsCanonical sums live_adapter
    × (pool_key ≡ pool_key)
    × IsOpen 77 live_adapter
    × ((accounts : AccountMap) × (older : List (AccountMap × Bool)) × ((listed, true) ∷ []
          ≡ (accounts, true) ∷ older)
        × IsBacked accounts live_adapter)
quote-IsBacked_example =
    quote-IsBacked classic_only naturals sums keyed 50 request bought_10000 bytes admitted lived
      at_77

quote_executable_example : Executes sums live_adapter swap_request
quote_executable_example =
    quote_executable classic_only naturals sums keyed 50 request swap_request bought_10000 bytes
      admitted lived at_77 (record { source = refl; destination = refl; mode = refl })

pool_parsed : PoolState.from_bytes pool_account.bytes ≡ ok crime_pool
pool_parsed =
    (from_bytes_iff pool_account.bytes crime_pool bytes).1 (crime_pool-Layout, crime_pool-IsValid)

refresh_opens_example :
    (amm' : SolPoolAmm) × (update classic_only new_adapter listed ≡ (amm', ok tt))
    × ((q : Quote ℕ) × (quote naturals 77 amm' request ≡ ok q))
unfolding from_be_bytes as_ref to_be_bytes
refresh_opens_example =
    refresh_opens naturals classic_only 77 new_adapter listed request crime_pool epoch
      (record {
        account = pool_account;
        owned = (refl, refl);
        parsed = pool_parsed;
        same = record {
          mint_a = refl;
          mint_b = refl;
          vault_a = refl;
          vault_b = refl;
          token_program_a = refl;
          token_program_b = refl;
        };
      })
      (record { account = epoch_account; owned = (refl, refl); parsed = epoch_parsed }) (inl refl)
      (record {
        initialized = refl;
        unlocked = refl;
        fee = omega arith;
        filled_a = omega arith;
        filled_b = omega arith;
        u64_a = omega arith;
        u64_b = omega arith;
      })
      (record {
        initialized = refl;
        not_paused = refl;
        pause_over = omega arith;
        crime_buy = omega arith;
        crime_sell = omega arith;
        fraud_buy = omega arith;
        fraud_sell = omega arith;
      })
      refl (inl (refl, refl)) (omega arith)

-- A map that lists another account as well.
abbrev more_listed : AccountMap
more_listed key = if key == 5 then some pool_account else listed key

agreed : All (AgreeAt listed more_listed) (get_accounts_to_update new_adapter)
unfolding get_accounts_to_update from_be_bytes as_ref to_be_bytes
agreed = (refl, (refl, tt))

update_frame_example :
    (update classic_only new_adapter listed ≡ update classic_only new_adapter more_listed)
    × (All (Listed listed) (get_accounts_to_update new_adapter)
        ⊎ ((e : Error) × ((update classic_only new_adapter listed).1 ≡ err e)))
update_frame_example = update_frame classic_only new_adapter listed more_listed agreed

quote-mirrored_example :
    (quote naturals 77 (mirrored live_adapter) request ≡ quote naturals 77 live_adapter request)
    × (quote_token_program (mirrored live_adapter) ≡ quote_token_program live_adapter)
quote-mirrored_example =
    quote-mirrored naturals 77 live_adapter request (inl (refl, λ h. ground arith))
