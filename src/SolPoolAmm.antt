-- ===== src/SolPoolAmm.antt =====
-- src/sol_pool_amm.rs: the adapter of a faction pool, its construction and its admission gates. The
-- shared clock is read at each call: its slot is an argument. `Refresh` models `update`, `Quoting`
-- the quotes and `Swapping` the account lists.
pub mod Refresh
pub mod Quoting
pub mod Swapping
pub mod Lifecycle
pub mod Traits
pub mod Discovery
mod Tests
use drfraudsworth_jupiter_ad.Prelude.{
  ℕ, Bool, true, false, not, ◌&&◌, Option, none, some, List, [], ◌∷◌, leb, ◌==◌, if◌then◌else◌,
  Result, ok, err, Error, ◌>>=◌, ◌>>◌, bail_if, ◌>>=?◌,
}
use drfraudsworth_jupiter_ad.Pubkey.{Pubkey, as_ref, bytes_ge}
use drfraudsworth_jupiter_ad.Solana.{Derivation}
use drfraudsworth_jupiter_ad.Jupiter.{KeyedAccount}
use drfraudsworth_jupiter_ad.Addresses.{
  amm_program_id, crime_mint, fraud_mint, native_mint, epoch_state_pda, spl_token_program_id,
  token_2022_program_id, tax_program_id,
}
use drfraudsworth_jupiter_ad.State.PoolState
use drfraudsworth_jupiter_ad.State.PoolState.{ParsedPoolState, token_mint}
use drfraudsworth_jupiter_ad.Accounts.SolPoolAccounts.{known_pool_state}

pub data FactionRole : Type 0 where
  crime fraud : FactionRole

unfoldable pub from_mint : Pubkey → Option FactionRole
from_mint mint =
    if mint == crime_mint then some crime else if mint == fraud_mint then some fraud else none

pub record SolPoolAmm : Type 0 where
  pub key : Pubkey
  pub pool : ParsedPoolState
  pub faction_mint : Pubkey
  pub quote_mint : Pubkey
  pub faction : FactionRole
  pub buy_tax_bps : ℕ
  pub sell_tax_bps : ℕ
  pub pause_end_slot : ℕ
  pub trading_paused : Bool
  pub epoch_initialized : Bool
  pub state_refreshed : Bool

-- `b"pool"`.
abbrev pub pool_seed : List ℕ
pool_seed = b'p' ∷ b'o' ∷ b'o' ∷ b'l' ∷ []

-- The loop over the token programs of the two sides.
unfoldable pub check_programs : List Pubkey → Result (Unit {0})
check_programs [] = ok tt
check_programs (program ∷ programs) = do
  bail_if (not (program == spl_token_program_id) && not (program == token_2022_program_id))
      Error.unsupported_token_program
  check_programs programs

-- (faction_mint, quote_mint, faction, faction_program) by the roles of the two mints.
abbrev pub orient :
    ParsedPoolState
    → Option FactionRole
    → Option FactionRole
    → Result (Pubkey × Pubkey × FactionRole × Pubkey)
orient pool (some role) none = ok (pool.mint_a, pool.mint_b, role, pool.token_program_a)
orient pool none (some role) = ok (pool.mint_b, pool.mint_a, role, pool.token_program_b)
orient pool _ _ = err Error.not_one_faction

-- WSOL is a classic SPL mint.
unfoldable pub check_wsol : ParsedPoolState → Pubkey → Result (Unit {0})
check_wsol pool quote_mint =
    let quote_program =
      if pool.mint_a == quote_mint then pool.token_program_a else pool.token_program_b in
    if quote_mint == native_mint
    then bail_if (not (quote_program == spl_token_program_id)) Error.wsol_not_classic
    else ok tt

-- The canonical PDA of a pool of two mints.
unfoldable pub pool_pda : Derivation → Pubkey → Pubkey → Pubkey
pool_pda d mint_a mint_b =
    (d.find_program_address (pool_seed ∷ as_ref mint_a ∷ as_ref mint_b ∷ []) amm_program_id).0

-- The construction behind the parser.
unfoldable pub admit : Derivation → Pubkey → ParsedPoolState → Result SolPoolAmm
admit d key pool = do
  bail_if (not pool.initialized) Error.uninitialized
  bail_if (bytes_ge (as_ref pool.mint_a) (as_ref pool.mint_b)) Error.not_canonical_order
  bail_if (not (key == pool_pda d pool.mint_a pool.mint_b)) Error.not_canonical_pda
  check_programs (pool.token_program_a ∷ pool.token_program_b ∷ [])
  (faction_mint, quote_mint, faction, faction_program) ←
      orient pool (from_mint pool.mint_a) (from_mint pool.mint_b)
  bail_if (not (faction_program == token_2022_program_id)) Error.faction_not_token_2022
  check_wsol pool quote_mint
  ok (record {
    key = key;
    pool = pool;
    faction_mint = faction_mint;
    quote_mint = quote_mint;
    faction = faction;
    buy_tax_bps = 0;
    sell_tax_bps = 0;
    pause_end_slot = 0;
    trading_paused = false;
    epoch_initialized = false;
    state_refreshed = false;
  })

unfoldable pub from_keyed_account : Derivation → KeyedAccount → Result SolPoolAmm
from_keyed_account d keyed = do
  bail_if (not (keyed.account.owner == amm_program_id)) Error.not_amm_owned
  pool ← PoolState.from_bytes keyed.account.bytes
  admit d keyed.key pool

-- The accessors of the trait.
unfoldable pub program_id : SolPoolAmm → Pubkey
program_id amm = tax_program_id

unfoldable pub get_reserve_mints : SolPoolAmm → List Pubkey
get_reserve_mints amm = amm.quote_mint ∷ amm.faction_mint ∷ []

unfoldable pub get_accounts_to_update : SolPoolAmm → List Pubkey
get_accounts_to_update amm =
    if not (amm.quote_mint == native_mint)
    then amm.key ∷ epoch_state_pda ∷ amm.quote_mint ∷ []
    else amm.key ∷ epoch_state_pda ∷ []

unfoldable pub get_accounts_len : SolPoolAmm → ℕ
get_accounts_len amm = 25

-- At the slot that the shared clock shows.
unfoldable pub is_active : ℕ → SolPoolAmm → Bool
is_active slot amm =
    amm.pool.initialized
    && (not amm.pool.locked
        && (amm.epoch_initialized
            && (amm.state_refreshed && (not amm.trading_paused && leb amm.pause_end_slot slot))))

unfoldable pub is_crime : SolPoolAmm → Bool
is_crime amm = elim amm.faction [ crime ↦ true | fraud ↦ false ]

-- (quote_reserve, faction_reserve).
unfoldable pub reserves : SolPoolAmm → ℕ × ℕ
reserves amm =
    if amm.pool.mint_a == amm.quote_mint
    then (amm.pool.reserve_a, amm.pool.reserve_b)
    else (amm.pool.reserve_b, amm.pool.reserve_a)

unfoldable pub quote_token_program : SolPoolAmm → Pubkey
quote_token_program amm =
    if amm.pool.mint_a == amm.quote_mint then amm.pool.token_program_a else amm.pool.token_program_b

unfoldable pub validate_mint_pair : SolPoolAmm → Pubkey → Pubkey → Bool → Result (Unit {0})
validate_mint_pair amm input output is_buy =
    let matches =
      if is_buy
      then input == amm.quote_mint && output == amm.faction_mint
      else input == amm.faction_mint && output == amm.quote_mint in
    if matches then ok tt else err Error.mint_pair

-- The constructor for tests and examples; `none` is the panic of an `expect`.
unfoldable pub new_for_testing : Bool → ℕ → ℕ → ℕ → ℕ → Option SolPoolAmm
unfolding known_pool_state token_mint from_mint
new_for_testing crime_pool reserve_sol reserve_token buy_tax sell_tax =
    let (key, known) = known_pool_state crime_pool in
    let pool = record known { reserve_a = reserve_sol; reserve_b = reserve_token } in
    token_mint pool >>=? λ mint. from_mint mint >>=? λ role. some (record {
      key = key;
      pool = pool;
      faction_mint = mint;
      quote_mint = native_mint;
      faction = role;
      buy_tax_bps = buy_tax;
      sell_tax_bps = sell_tax;
      pause_end_slot = 0;
      trading_paused = false;
      epoch_initialized = true;
      state_refreshed = true;
    })
