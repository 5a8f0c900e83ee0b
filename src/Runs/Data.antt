-- ===== src/Runs/Data.antt =====
-- Concrete accounts and adapters: the WSOL/CRIME pool of the source with reserves of its own, an
-- epoch, and the libraries' functions.
use drfraudsworth_jupiter_ad.Prelude.{
  ℕ, zero, suc, ◌+◌, ◌*◌, ◌≡◌, Bool, true, false, ◌&&◌, none, some, List, [], ◌∷◌, ◌++◌, All, ltb,
  ◌==◌, arith, if◌then◌else◌,
}
use drfraudsworth_jupiter_ad.Words.{IsByte, from_be_bytes}
use drfraudsworth_jupiter_ad.Pubkey.{Pubkey, as_ref}
use drfraudsworth_jupiter_ad.Solana.{Derivation}
use drfraudsworth_jupiter_ad.Jupiter.{Account, AccountMap, Decimals}
use drfraudsworth_jupiter_ad.Addresses.{
  amm_program_id, epoch_program_id, epoch_state_pda, native_mint, crime_mint, crime_sol_vault_a,
  crime_sol_vault_b, spl_token_program_id, token_2022_program_id,
}
use drfraudsworth_jupiter_ad.State.PoolState.{ParsedPoolState}
use drfraudsworth_jupiter_ad.State.PoolState.Layout.{to_bytes}
use drfraudsworth_jupiter_ad.State.EpochState.{ParsedEpochState}
use drfraudsworth_jupiter_ad.State.MintState.{MintLibrary}
use drfraudsworth_jupiter_ad.SolPoolAmm.{SolPoolAmm, crime, pool_seed}

-- A derivation that adds up its seeds with weights.
abbrev weigh : List (List ℕ) → ℕ
weigh [] = 0
weigh (seed ∷ seeds) = from_be_bytes seed + 3 * weigh seeds

abbrev pub sums : Derivation
sums = record {
  find_program_address = λ seeds program. (weigh seeds, 255);
  associated_token_address = λ wallet mint program. wallet + 3 * mint;
}

-- Percentages as their basis points.
abbrev pub naturals : Decimals ℕ
naturals = record { from_u32 = λ n. n; divide = λ a b. a; zero_decimal = 0 }

-- A library whose mints are their bytes: every classic mint unpacks and no other does.
abbrev pub classic_only : MintLibrary (List ℕ)
classic_only = record {
  classic_unpacks = λ bytes. true;
  unpack = λ bytes. none;
  get_extension_types = λ mint. none;
  get_transfer_fee_config = λ mint. none;
  get_hook_program_id = λ mint. none;
  get_default_account_state = λ mint. none;
  get_paused = λ mint. none;
  initialized_state = 1;
}

abbrev pub crime_pool : ParsedPoolState
crime_pool = record {
  mint_a = native_mint;
  mint_b = crime_mint;
  vault_a = crime_sol_vault_a;
  vault_b = crime_sol_vault_b;
  reserve_a = 1_000_000;
  reserve_b = 50_000_000;
  lp_fee_bps = 100;
  initialized = true;
  locked = false;
  bump = 254;
  vault_a_bump = 253;
  vault_b_bump = 252;
  token_program_a = spl_token_program_id;
  token_program_b = token_2022_program_id;
}

abbrev zeros : ℕ → List ℕ
zeros zero = []
zeros (suc n) = 0 ∷ zeros n

abbrev pub epoch : ParsedEpochState
epoch = record {
  crime_buy_tax_bps = 400;
  crime_sell_tax_bps = 1_400;
  fraud_buy_tax_bps = 1_100;
  fraud_sell_tax_bps = 300;
  pause_end_slot = 77;
  trading_paused = false;
  initialized = true;
}

abbrev pub epoch_bytes : List ℕ
epoch_bytes =
    (0xbf ∷ 0x3f ∷ 0x8b ∷ 0xed ∷ 0x90 ∷ 0x0c ∷ 0xdf ∷ 0xd2 ∷ [])
    ++ (zeros 25
        ++ ((144 ∷ 1 ∷ 120 ∷ 5 ∷ 76 ∷ 4 ∷ 44 ∷ 1 ∷ [])
            ++ (zeros 65
                ++ ((77 ∷ 0 ∷ 0 ∷ 0 ∷ 0 ∷ 0 ∷ 0 ∷ 0 ∷ 0 ∷ []) ++ (zeros 55 ++ (1 ∷ 0 ∷ []))))))

abbrev pub pool_key : Pubkey
pool_key =
    (sums.find_program_address (pool_seed ∷ as_ref native_mint ∷ as_ref crime_mint ∷ [])
      amm_program_id).0

-- The adapter at its construction, and behind a refresh.
abbrev pub new_adapter : SolPoolAmm
new_adapter = record {
  key = pool_key;
  pool = crime_pool;
  faction_mint = crime_mint;
  quote_mint = native_mint;
  faction = crime;
  buy_tax_bps = 0;
  sell_tax_bps = 0;
  pause_end_slot = 0;
  trading_paused = false;
  epoch_initialized = false;
  state_refreshed = false;
}

abbrev pub live_adapter : SolPoolAmm
live_adapter = record new_adapter {
  buy_tax_bps = 400;
  sell_tax_bps = 1_400;
  pause_end_slot = 77;
  epoch_initialized = true;
  state_refreshed = true;
}

abbrev pub pool_account : Account
pool_account = record { bytes = to_bytes 0 crime_pool; owner = amm_program_id }

abbrev pub epoch_account : Account
epoch_account = record { bytes = epoch_bytes; owner = epoch_program_id }

-- The two accounts of a refresh, and a map that lists nothing.
abbrev pub listed : AccountMap
listed key =
    if key == pool_key
    then some pool_account
    else if key == epoch_state_pda
    then some epoch_account
    else none

abbrev pub nothing : AccountMap
nothing key = none

-- A list of bytes, by a test.
abbrev pub are_bytes : List ℕ → Bool
are_bytes [] = true
are_bytes (b ∷ bytes) = ltb b 256 && are_bytes bytes

pub are_bytes-All : (bytes : List ℕ) → are_bytes bytes ≡ true → All IsByte bytes
are_bytes-All [] h = tt
are_bytes-All (b ∷ bytes) h = (ground arith, are_bytes-All bytes (ground arith))
