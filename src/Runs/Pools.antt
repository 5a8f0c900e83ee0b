-- ===== src/Runs/Pools.antt =====
-- The theorems on the construction, the refresh and the account lists of src/sol_pool_amm.rs at the
-- WSOL/CRIME pool.
use drfraudsworth_jupiter_ad.Prelude.{
  ℕ, ◌≡◌, ◌≢◌, ◌⊎◌, ◌↔◌, refl, false, none, ok, err, Error, inl, inr, arith, true,
}
use drfraudsworth_jupiter_ad.Jupiter.{KeyedAccount, Quote, QuoteParams, SwapParams, exact_in}
use drfraudsworth_jupiter_ad.Addresses.{native_mint, profit_mint, crime_mint, treasury}
use drfraudsworth_jupiter_ad.SolPoolAmm.{SolPoolAmm, crime, from_keyed_account, pool_pda}
use drfraudsworth_jupiter_ad.Solana.{new_unique}
use drfraudsworth_jupiter_ad.SolPoolAmm.Discovery.{canonical_pool}
use drfraudsworth_jupiter_ad.SolPoolAmm.Refresh.{refresh_pool, update, with_pool}
use drfraudsworth_jupiter_ad.SolPoolAmm.Refresh.Identity.{
  IsAdmitted, IsCanonical, from_keyed_account_iff,
}
use drfraudsworth_jupiter_ad.SolPoolAmm.Refresh.Accounts.{IsRefreshed, SameIdentity}
use drfraudsworth_jupiter_ad.SolPoolAmm.Refresh.Outcome.{successful_update_iff}
use drfraudsworth_jupiter_ad.SolPoolAmm.Refresh.Failure.{failed_update}
use drfraudsworth_jupiter_ad.SolPoolAmm.Quoting.{quote}
use drfraudsworth_jupiter_ad.SolPoolAmm.Quoting.Gates.{failed_update_closed}
use drfraudsworth_jupiter_ad.SolPoolAmm.Swapping.Lanes.{Buys, Sells}
use drfraudsworth_jupiter_ad.SolPoolAmm.Swapping.Metas.{AnswersBuy, AnswersSell, swap_metas_total}
use drfraudsworth_jupiter_ad.Runs.Data.{
  sums, naturals, classic_only, crime_pool, live_adapter, new_adapter, listed, nothing,
  pool_account, pool_key, are_bytes-All,
}
use drfraudsworth_jupiter_ad.Runs.States.{crime_pool-bytes, crime_pool-IsValid, crime_pool-Layout}

abbrev pub keyed : KeyedAccount
keyed = record { key = pool_key; account = pool_account; params = none }

pub live-IsCanonical : IsCanonical sums live_adapter
unfolding pool_pda
live-IsCanonical = record {
  ordered = omega arith;
  key_pda = refl;
  sides = inr (
    refl,
    refl,
    record {
      role = refl;
      quote_not_crime = λ h. ground arith;
      quote_not_fraud = λ h. ground arith;
      faction_token_2022 = refl;
      quote_supported = inl refl;
      wsol_classic = inr refl;
    },
  );
}

new-IsCanonical : IsCanonical sums new_adapter
unfolding pool_pda
new-IsCanonical = record {
  ordered = omega arith;
  key_pda = refl;
  sides = inr (
    refl,
    refl,
    record {
      role = refl;
      quote_not_crime = λ h. ground arith;
      quote_not_fraud = λ h. ground arith;
      faction_token_2022 = refl;
      quote_supported = inl refl;
      wsol_classic = inr refl;
    },
  );
}

from_keyed_account_iff_example :
    (from_keyed_account sums keyed ≡ ok new_adapter) ↔ IsAdmitted sums keyed new_adapter
from_keyed_account_iff_example =
    from_keyed_account_iff sums keyed new_adapter
      (are_bytes-All pool_account.bytes crime_pool-bytes)

pub admitted : from_keyed_account sums keyed ≡ ok new_adapter
admitted =
    (from_keyed_account_iff sums keyed new_adapter
        (are_bytes-All pool_account.bytes crime_pool-bytes)).1
      (record {
        owned = refl;
        key_same = refl;
        holds = crime_pool-Layout;
        valid = crime_pool-IsValid;
        initialized = refl;
        canonical = new-IsCanonical;
        fresh = record {
          buy_tax = refl;
          sell_tax = refl;
          pause_end = refl;
          not_paused = refl;
          epoch_unknown = refl;
          not_refreshed = refl;
        };
      })

abbrev request : QuoteParams
request = record {
  amount = 10_000;
  input_mint = native_mint;
  output_mint = crime_mint;
  swap_mode = exact_in;
}

abbrev some_quote : Quote ℕ
some_quote = record {
  in_amount = 10_000;
  out_amount = 1;
  fee_amount = 0;
  fee_mint = native_mint;
  fee_pct = 0;
}

successful_update_iff_example :
    (update classic_only new_adapter listed ≡ (live_adapter, ok tt))
    ↔ IsRefreshed classic_only new_adapter listed live_adapter
successful_update_iff_example = successful_update_iff classic_only new_adapter listed live_adapter

-- A refresh whose accounts are missing.
unlisted :
    update classic_only live_adapter nothing
    ≡ (record live_adapter { state_refreshed = false }, err Error.missing_account)
unfolding update with_pool refresh_pool
unlisted = refl

failed_update_example :
    (false ≡ false)
    × (crime_pool ≡ crime_pool)
    × SameIdentity live_adapter (record live_adapter { state_refreshed = false })
failed_update_example = failed_update classic_only live_adapter nothing unlisted

failed_update_closed_example :
    quote naturals 99 (record live_adapter { state_refreshed = false }) request ≢ ok some_quote
failed_update_closed_example =
    failed_update_closed naturals classic_only live_adapter nothing 99 request some_quote unlisted

abbrev pub swap_request : SwapParams
swap_request = record {
  swap_mode = exact_in;
  source_mint = native_mint;
  destination_mint = crime_mint;
  source_token_account = 11;
  destination_token_account = 12;
  token_transfer_authority = treasury;
}

swap_metas_total_example :
    (Buys live_adapter swap_request × AnswersBuy sums live_adapter swap_request)
    ⊎ (Sells live_adapter swap_request × AnswersSell sums live_adapter swap_request)
swap_metas_total_example =
    swap_metas_total sums live_adapter swap_request live-IsCanonical refl (inl (refl, refl))

-- The pool of PROFIT, under Token-2022, and CRIME.
abbrev profit_pool : KeyedAccount
profit_pool = canonical_pool sums crime profit_mint true (new_unique 1) (new_unique 2) 1_000 2_000
