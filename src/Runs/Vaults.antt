-- ===== src/Runs/Vaults.antt =====
-- The theorems on src/vault_amm.rs at the CRIME to PROFIT conversion.
use Prim.Native.String.{String}
use text.Mathlib.Text.{◌==◌ as str_eq}
use drfraudsworth_jupiter_ad.VaultAmm.{
  refreshed_balance, set_balance, validate_mint_pair, VaultAmm, derive_synthetic_key,
  from_keyed_account, get_accounts_len, get_swap_and_account_metas, instance_of, quote, update,
}
use drfraudsworth_jupiter_ad.State.TokenAccount.{parse_token_account_amount}
use drfraudsworth_jupiter_ad.State.Reader.{pubkey_at, u64_at}
use drfraudsworth_jupiter_ad.Pubkey.{try_from, Pubkey, as_ref}
use drfraudsworth_jupiter_ad.Words.{from_le_bytes, from_be_bytes, to_be_bytes}
use drfraudsworth_jupiter_ad.Math.VaultMath.{compute_vault_output}
use drfraudsworth_jupiter_ad.Prelude.{
  ◌++◌, Option, err, Error, ◌==◌, if◌then◌else◌, ◌≤◌, ◌≡◌, ◌↔◌, refl, none, some, List, [], ◌∷◌,
  length, ok, inl, arith, true, false,
}
use drfraudsworth_jupiter_ad.Jupiter.{
  Account, AccountMap, Params, QuoteParams, SwapParams, exact_in, token_swap,
}
use drfraudsworth_jupiter_ad.Addresses.{
  vault_config_pda, crime_mint, profit_mint, vault_profit, treasury,
}
use drfraudsworth_jupiter_ad.VaultAmm.Execution.{vault_quote_executable}
use drfraudsworth_jupiter_ad.VaultAmm.Lifecycle.{CoveredBy, vault_quote_covered}
use drfraudsworth_jupiter_ad.Jupiter.Life.{Life, Reach, here, next, refresh, fail, born}
use drfraudsworth_jupiter_ad.VaultAmm.Requests.{
  Requests, IsRequested, conversion_at, with_params, IsRequested-iff, requested_same,
}
use drfraudsworth_jupiter_ad.Solana.{AccountMeta, signers}
use drfraudsworth_jupiter_ad.Math.VaultMath.Conversion.{Converts}
use drfraudsworth_jupiter_ad.VaultAmm.Labels.{format_label}
use drfraudsworth_jupiter_ad.VaultAmm.Edges.{HasDistinctKeys, bare, known_key_resolves}
use drfraudsworth_jupiter_ad.VaultAmm.Answers.{IsPairOf, free_quote, conversion_quote_iff}
use drfraudsworth_jupiter_ad.Runs.Data.{sums, naturals, listed, pool_account}

abbrev crime_to_profit : VaultAmm
crime_to_profit = record {
  key = 5;
  input_mint = crime_mint;
  output_mint = profit_mint;
  label_suffix = "CRIME/PROFIT Vault";
  output_vault = vault_profit;
  output_vault_balance = 1_000;
}

abbrev request : QuoteParams
request = record {
  amount = 12_345;
  input_mint = crime_mint;
  output_mint = profit_mint;
  swap_mode = exact_in;
}

abbrev swap_request : SwapParams
swap_request = record {
  swap_mode = exact_in;
  source_mint = crime_mint;
  destination_mint = profit_mint;
  source_token_account = 11;
  destination_token_account = 12;
  token_transfer_authority = treasury;
}

conversion_quote_iff_example :
    (quote naturals crime_to_profit request ≡ ok (free_quote naturals crime_to_profit 12_345 123))
    ↔ ((exact_in ≡ exact_in)
        × IsPairOf crime_to_profit crime_mint profit_mint
        × Converts crime_mint profit_mint 12_345 123
        × (123 ≤ 1_000))
conversion_quote_iff_example = conversion_quote_iff naturals crime_to_profit request 123

pub sums-HasDistinctKeys : HasDistinctKeys sums
unfolding derive_synthetic_key as_ref from_be_bytes to_be_bytes
sums-HasDistinctKeys = record {
  crime_fraud = λ h. ground arith;
  crime_from = λ h. ground arith;
  crime_to_fraud = λ h. ground arith;
  fraud_to_crime = λ h. ground arith;
  fraud_from = λ h. ground arith;
  from_from = λ h. ground arith;
}

known_key_resolves_example :
    from_keyed_account sums
      (λ text. none)
      (bare sums (λ text. none) (derive_synthetic_key sums crime_mint profit_mint) pool_account)
    ≡ some (
        ok (
          instance_of sums crime_mint profit_mint
            (format_label crime_mint profit_mint)
            vault_profit))
known_key_resolves_example =
    known_key_resolves sums (λ text. none) pool_account crime_mint profit_mint vault_profit
      sums-HasDistinctKeys (inl (inl refl, refl, refl))

-- The vault's configuration, and its account of PROFIT with a balance of 9.
abbrev config_account : Account
config_account = record { bytes = 1 ∷ []; owner = 7 }

abbrev vault_account : Account
vault_account = record {
  bytes = as_ref profit_mint ++ (as_ref 5 ++ (9 ∷ 0 ∷ 0 ∷ 0 ∷ 0 ∷ 0 ∷ 0 ∷ 0 ∷ []));
  owner = 8;
}

abbrev vault_listed : AccountMap
vault_listed key =
    if key == vault_config_pda
    then some config_account
    else if key == vault_profit
    then some vault_account
    else none

abbrev refreshed : VaultAmm
refreshed = record crime_to_profit { output_vault_balance = 9 }

refresh_to_9 : update crime_to_profit vault_listed ≡ (refreshed, ok tt)
unfolding update set_balance refreshed_balance parse_token_account_amount as_ref to_be_bytes
    pubkey_at try_from from_be_bytes u64_at from_le_bytes
refresh_to_9 = refl

refresh_fails : update refreshed listed ≡ (refreshed, err Error.missing_account)
unfolding update set_balance refreshed_balance from_be_bytes as_ref to_be_bytes
refresh_fails = refl

-- A refresh, and another that fails.
abbrev life : Life VaultAmm
life = record { slot = 3; amm = refreshed; history = (listed, false) ∷ (vault_listed, true) ∷ [] }

lived : Reach update (born 3 crime_to_profit) life
lived =
    next (next here (refresh vault_listed refreshed refresh_to_9))
      (fail listed refreshed Error.missing_account refresh_fails)

abbrev small_request : QuoteParams
small_request = record request { amount = 999 }

quoted_9 : quote naturals refreshed small_request ≡ ok (free_quote naturals refreshed 999 9)
unfolding quote validate_mint_pair compute_vault_output
quoted_9 = refl

vault_quote_covered_example :
    (refreshed ≡ record crime_to_profit { output_vault_balance = 9 })
    × CoveredBy 1_000 ((listed, false) ∷ (vault_listed, true) ∷ []) refreshed 9
vault_quote_covered_example =
    vault_quote_covered naturals crime_to_profit small_request (free_quote naturals refreshed 999 9)
      3 lived quoted_9

-- Parameters that name the two mints of the conversion by the texts "a" and "b".
abbrev named : Params
named name =
    if str_eq name "input_mint"
    then some "a"
    else if str_eq name "output_mint"
    then some "b"
    else none

abbrev texts : String → Option Pubkey
texts text =
    if str_eq text "a" then some crime_mint else if str_eq text "b" then some profit_mint else none

named-Requests : Requests sums texts named crime_mint profit_mint vault_profit
named-Requests = record {
  input_named = ("a", refl, refl);
  output_named = ("b", refl, refl);
  edge = inl (inl refl, refl, refl);
}

IsRequested-iff_example :
    (from_keyed_account sums texts (with_params sums texts 5 pool_account named)
      ≡ some (ok (conversion_at sums texts 5 crime_mint profit_mint vault_profit)))
    ↔ IsRequested sums texts 5 named
        (conversion_at sums texts 5 crime_mint profit_mint vault_profit)
IsRequested-iff_example =
    IsRequested-iff sums texts 5 pool_account named
      (conversion_at sums texts 5 crime_mint profit_mint vault_profit)

-- The adapter that the parameters name, behind the refreshes above.
abbrev requested : VaultAmm
requested = conversion_at sums texts 5 crime_mint profit_mint vault_profit

abbrev requested_refreshed : VaultAmm
requested_refreshed = record requested { output_vault_balance = 9 }

requested_account :
    from_keyed_account sums texts (with_params sums texts 5 pool_account named)
    ≡ some (ok requested)
requested_account =
    (IsRequested-iff sums texts 5 pool_account named requested).1
      (crime_mint, profit_mint, vault_profit, named-Requests, refl)

refresh_requested : update requested vault_listed ≡ (requested_refreshed, ok tt)
unfolding update set_balance refreshed_balance parse_token_account_amount as_ref to_be_bytes
    pubkey_at try_from from_be_bytes u64_at from_le_bytes instance_of
refresh_requested = refl

quoted_requested :
    quote naturals requested_refreshed small_request
    ≡ ok (free_quote naturals requested_refreshed 999 9)
unfolding quote validate_mint_pair compute_vault_output instance_of
quoted_requested = refl

vault_quote_executable_example :
    (metas : List AccountMeta) × (get_swap_and_account_metas sums requested_refreshed swap_request
      ≡ some (ok (record { swap = token_swap; account_metas = metas })))
    × (length metas ≡ get_accounts_len requested_refreshed)
    × (signers metas ≡ treasury ∷ [])
vault_quote_executable_example =
    vault_quote_executable naturals sums texts (with_params sums texts 5 pool_account named) 3
      requested small_request (free_quote naturals requested_refreshed 999 9) swap_request
      requested_account (next here (refresh vault_listed requested_refreshed refresh_requested))
      quoted_requested refl refl

requested_same_example :
    from_keyed_account sums texts
      (with_params sums texts (derive_synthetic_key sums crime_mint profit_mint) pool_account named)
    ≡ from_keyed_account sums texts
        (bare sums texts (derive_synthetic_key sums crime_mint profit_mint) vault_account)
requested_same_example =
    requested_same sums texts pool_account vault_account named crime_mint profit_mint vault_profit
      sums-HasDistinctKeys named-Requests
