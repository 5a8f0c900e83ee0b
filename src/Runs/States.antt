-- ===== src/Runs/States.antt =====
-- The theorems on src/state and src/accounts at concrete accounts.
use drfraudsworth_jupiter_ad.Prelude.{inr, some, List, ◌≡◌, ◌↔◌, refl, true, false, ok, inl, arith}
use drfraudsworth_jupiter_ad.Pubkey.{Pubkey}
use drfraudsworth_jupiter_ad.Solana.{AccountMeta}
use drfraudsworth_jupiter_ad.Addresses.{profit_mint, crime_mint, spl_token_program_id, treasury}
use drfraudsworth_jupiter_ad.Accounts.Alignment.{LinesUp}
use drfraudsworth_jupiter_ad.Accounts.SolPoolAccounts.Sides.{sol_metas_sides}
use drfraudsworth_jupiter_ad.Accounts.SplPoolAccounts.{
  sweep_accounts, sides_of, resolve_faction_sides,
}
use drfraudsworth_jupiter_ad.Accounts.SplPoolAccounts.Sides.{PaysThrough, spl_metas_sides}
use drfraudsworth_jupiter_ad.Accounts.VaultAccounts.{build_vault_account_metas}
use drfraudsworth_jupiter_ad.Accounts.VaultAccounts.Transfers.{KeptIn, Transfers, vault_metas_sides}
use drfraudsworth_jupiter_ad.Words.{IsU64, to_le_bytes, to_be_bytes}
use drfraudsworth_jupiter_ad.State.Reader.Pieces.{of_bool}
use drfraudsworth_jupiter_ad.State.PoolState.Layout.{to_bytes}
use drfraudsworth_jupiter_ad.State.PoolState.Parser.{from_bytes_iff, from_bytes-to_bytes}
use drfraudsworth_jupiter_ad.State.EpochState.Parser.{epoch_from_bytes_iff}
use drfraudsworth_jupiter_ad.State.TokenAccount.{parse_token_account_amount}
use drfraudsworth_jupiter_ad.State.TokenAccount.Parser.{Holds, parse_iff}
use drfraudsworth_jupiter_ad.State.MintState.{validate_quote_mint}
use drfraudsworth_jupiter_ad.State.MintState.Policy.{IsAdmissible, validate_quote_mint_iff}
use drfraudsworth_jupiter_ad.Runs.Data.{
  sums, classic_only, crime_pool, epoch, epoch_bytes, pool_account, pool_key, are_bytes,
  are_bytes-All,
}
use drfraudsworth_jupiter_ad.Accounts.SplPoolAccounts
use drfraudsworth_jupiter_ad.State.PoolState
use drfraudsworth_jupiter_ad.State.PoolState.Layout as PoolLayout
use drfraudsworth_jupiter_ad.State.EpochState
use drfraudsworth_jupiter_ad.State.EpochState.Layout as EpochLayout
use drfraudsworth_jupiter_ad.Accounts.SolPoolAccounts

pub crime_pool-IsValid : PoolLayout.IsValid crime_pool
crime_pool-IsValid = record {
  mint_a = omega arith;
  mint_b = omega arith;
  vault_a = omega arith;
  vault_b = omega arith;
  reserve_a = omega arith;
  reserve_b = omega arith;
  lp_fee_bps = omega arith;
  bump = omega arith;
  vault_a_bump = omega arith;
  vault_b_bump = omega arith;
  token_program_a = omega arith;
  token_program_b = omega arith;
}

from_bytes-to_bytes_example : PoolState.from_bytes (to_bytes 0 crime_pool) ≡ ok crime_pool
from_bytes-to_bytes_example = from_bytes-to_bytes 0 crime_pool crime_pool-IsValid

pub crime_pool-bytes : are_bytes pool_account.bytes ≡ true
unfolding to_bytes to_be_bytes to_le_bytes of_bool
crime_pool-bytes = refl

from_bytes_iff_example :
    (PoolState.from_bytes pool_account.bytes ≡ ok crime_pool)
    ↔ (PoolLayout.Layout pool_account.bytes crime_pool × PoolLayout.IsValid crime_pool)
from_bytes_iff_example =
    from_bytes_iff pool_account.bytes crime_pool (are_bytes-All pool_account.bytes crime_pool-bytes)

pub crime_pool-Layout : PoolLayout.Layout pool_account.bytes crime_pool
crime_pool-Layout =
    let all = are_bytes-All pool_account.bytes crime_pool-bytes in
    ((from_bytes_iff pool_account.bytes crime_pool all).0
      (from_bytes-to_bytes 0 crime_pool crime_pool-IsValid)).0

epoch_from_bytes_iff_example :
    (EpochState.from_bytes epoch_bytes ≡ ok epoch)
    ↔ (EpochLayout.Layout epoch_bytes epoch × EpochLayout.IsValid epoch)
epoch_from_bytes_iff_example =
    epoch_from_bytes_iff epoch_bytes epoch (are_bytes-All epoch_bytes refl)

parse_iff_example :
    (parse_token_account_amount epoch_bytes crime_mint ≡ ok 0)
    ↔ (Holds epoch_bytes crime_mint 0 × IsU64 0)
parse_iff_example =
    parse_iff epoch_bytes crime_mint 0 (are_bytes-All epoch_bytes refl) (omega arith)

validate_quote_mint_iff_example :
    (validate_quote_mint classic_only epoch_bytes spl_token_program_id spl_token_program_id ≡ ok tt)
    ↔ IsAdmissible classic_only epoch_bytes spl_token_program_id spl_token_program_id
validate_quote_mint_iff_example =
    validate_quote_mint_iff classic_only epoch_bytes spl_token_program_id spl_token_program_id

sol_metas_sides_example :
    LinesUp sums true 5 20 crime_pool
      (12, 11)
      (SolPoolAccounts.build_buy_account_metas_generic sums treasury 11 12 pool_key crime_pool)
    × LinesUp sums true 5 21 crime_pool
        (12, 11)
        (SolPoolAccounts.build_buy_wsol_account_metas_generic sums treasury 11 12 pool_key
          crime_pool)
    × LinesUp sums false 5 21 crime_pool
        (12, 11)
        (SolPoolAccounts.build_sell_account_metas_generic sums treasury 12 11 pool_key crime_pool)
sol_metas_sides_example =
    sol_metas_sides sums treasury 11 12 pool_key crime_pool (inl (refl, inl refl))

spl_metas_sides_example :
    (sweep : Pubkey × Pubkey) × (sweep_accounts sums crime_pool ≡ ok sweep)
    × LinesUp sums true 3 17 crime_pool
        (12, 11)
        (SplPoolAccounts.build_buy_account_metas_generic sums treasury 11 12 pool_key crime_pool)
    × LinesUp sums false 3 18 crime_pool
        (12, sweep.1)
        (SplPoolAccounts.build_sell_account_metas_generic sums treasury 12 11 pool_key crime_pool)
    × ((metas : List AccountMeta) × (SplPoolAccounts.build_sell_account_metas_generic sums treasury
            12 11 pool_key crime_pool
          ≡ ok metas)
        × PaysThrough metas sweep.1 11)
spl_metas_sides_example =
    spl_metas_sides sums treasury 11 12 pool_key crime_pool
      (inr ((λ h. ground arith), (λ h. ground arith), inl refl, inl refl))

vault_metas_sides_example :
    (metas : List AccountMeta) × (build_vault_account_metas sums treasury 11 12 crime_mint
        profit_mint
      ≡ some metas)
    × (vault_in : Pubkey) × (list_in : Pubkey) × KeptIn crime_mint vault_in list_in
    × (vault_out : Pubkey) × (list_out : Pubkey) × KeptIn profit_mint vault_out list_out
    × Transfers sums metas
        (crime_mint, vault_in, list_in)
        (profit_mint, vault_out, list_out)
        (11, 12)
vault_metas_sides_example =
    vault_metas_sides sums treasury 11 12 crime_mint profit_mint (inl refl) (inr (inr refl))
