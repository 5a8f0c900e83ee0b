-- ===== src/SolPoolAmm/Refresh/Accounts.antt =====
-- What a refresh of src/sol_pool_amm.rs reads from its accounts, and what it may not change.
use drfraudsworth_jupiter_ad.Prelude.{
  Bool, ◌≡◌, ◌≢◌, ◌⊎◌, ◌↔◌, refl, true, false, not, some, arith, ◌==◌, ok, Error, >>=-eq-ok,
  bail_if-ok, ok_or_ok, ok_or, ok->>=, false-bail_if, ◌∙◌,
}
use drfraudsworth_jupiter_ad.Pubkey.{Pubkey}
use drfraudsworth_jupiter_ad.Jupiter.{Account, AccountMap}
use drfraudsworth_jupiter_ad.Addresses.{
  amm_program_id, epoch_program_id, epoch_state_pda, native_mint,
}
use drfraudsworth_jupiter_ad.State.PoolState
use drfraudsworth_jupiter_ad.State.PoolState.{ParsedPoolState}
use drfraudsworth_jupiter_ad.State.EpochState
use drfraudsworth_jupiter_ad.State.EpochState.{ParsedEpochState, get_tax_bps}
use drfraudsworth_jupiter_ad.State.MintState.{MintLibrary, validate_quote_mint}
use drfraudsworth_jupiter_ad.SolPoolAmm.{SolPoolAmm, crime, fraud, quote_token_program}
use drfraudsworth_jupiter_ad.SolPoolAmm.Refresh.{
  identity_changed, refresh_pool, refresh_epoch, set_epoch, refresh_quote_mint,
}

-- Two pool states of the same mints, vaults and token programs.
pub record SamePool (pool pool' : ParsedPoolState) : Type 0 where
  pub mint_a : pool'.mint_a ≡ pool.mint_a
  pub mint_b : pool'.mint_b ≡ pool.mint_b
  pub vault_a : pool'.vault_a ≡ pool.vault_a
  pub vault_b : pool'.vault_b ≡ pool.vault_b
  pub token_program_a : pool'.token_program_a ≡ pool.token_program_a
  pub token_program_b : pool'.token_program_b ≡ pool.token_program_b

-- Two adapters of the same pool.
pub record SameIdentity (amm amm' : SolPoolAmm) : Type 0 where
  pub key : amm'.key ≡ amm.key
  pub faction_mint : amm'.faction_mint ≡ amm.faction_mint
  pub quote_mint : amm'.quote_mint ≡ amm.quote_mint
  pub faction : amm'.faction ≡ amm.faction
  pub pool : SamePool amm.pool amm'.pool

-- The account that a map lists at an address is a program's.
abbrev pub Owned : AccountMap → Pubkey → Pubkey → Account → Type 0
Owned accounts key program account = (accounts key ≡ some account) × (account.owner ≡ program)

SamePool-refl : (pool : ParsedPoolState) → SamePool pool pool
SamePool-refl pool = record {
  mint_a = refl;
  mint_b = refl;
  vault_a = refl;
  vault_b = refl;
  token_program_a = refl;
  token_program_b = refl;
}

identity_same :
    (pool' pool : ParsedPoolState) → identity_changed pool' pool ≡ false → SamePool pool pool'
unfolding identity_changed
identity_same pool' pool h = record {
  mint_a = ground arith;
  mint_b = ground arith;
  vault_a = ground arith;
  vault_b = ground arith;
  token_program_a = ground arith;
  token_program_b = ground arith;
}

same_identity :
    (pool' pool : ParsedPoolState) → SamePool pool pool' → identity_changed pool' pool ≡ false
unfolding identity_changed
same_identity pool' pool s =
    ground (arith, s.mint_a, s.mint_b, s.vault_a, s.vault_b, s.token_program_a, s.token_program_b)

-- The pool account is the AMM program's and holds this pool state, of the same identity.
pub record PoolShows (amm : SolPoolAmm) (accounts : AccountMap) (pool : ParsedPoolState)
    : Type 0 where
  pub account : Account
  pub owned : Owned accounts amm.key amm_program_id account
  pub parsed : PoolState.from_bytes account.bytes ≡ ok pool
  pub same : SamePool amm.pool pool

-- The epoch account is the epoch program's and holds this epoch state.
pub record EpochShows (accounts : AccountMap) (epoch : ParsedEpochState) : Type 0 where
  pub account : Account
  pub owned : Owned accounts epoch_state_pda epoch_program_id account
  pub parsed : EpochState.from_bytes account.bytes ≡ ok epoch

owner_is : (a b : Pubkey) → not (a == b) ≡ false → a ≡ b
owner_is a b h = ground arith

is_owner : (a b : Pubkey) → a ≡ b → not (a == b) ≡ false
is_owner a b h = ground arith

pub refresh_pool-PoolShows :
    (amm : SolPoolAmm) (accounts : AccountMap) {pool : ParsedPoolState}
    → refresh_pool amm accounts ≡ ok pool
    → PoolShows amm accounts pool
unfolding refresh_pool
refresh_pool-PoolShows amm accounts h =
    let (account, listed, rest) = >>=-eq-ok (ok_or (accounts amm.key) Error.missing_account) _ h in
    let (owner, rest) = bail_if-ok _ Error.wrong_owner _ rest in
    let (pool, parsed, rest) = >>=-eq-ok (PoolState.from_bytes account.bytes) _ rest in
    let (same, done) = bail_if-ok (identity_changed pool amm.pool) Error.identity_changed _ rest in
    let eq : pool ≡ _ = cc in
    record {
      account = account;
      owned = (ok_or_ok _ _ listed, owner_is account.owner amm_program_id owner);
      parsed = rw eq at parsed;
      same = rw eq at (identity_same pool amm.pool same);
    }

pub PoolShows-refresh_pool :
    (amm : SolPoolAmm) (accounts : AccountMap) {pool : ParsedPoolState}
    → PoolShows amm accounts pool
    → refresh_pool amm accounts ≡ ok pool
unfolding refresh_pool
PoolShows-refresh_pool amm accounts {pool} s =
    let (listed, owner) = s.owned in
    rw listed (
      false-bail_if _ Error.wrong_owner _ (is_owner s.account.owner amm_program_id owner)
      ∙ ok->>= (PoolState.from_bytes s.account.bytes) _ s.parsed
          (false-bail_if _ Error.identity_changed _ (same_identity pool amm.pool s.same)))

pub refresh_epoch-EpochShows :
    (accounts : AccountMap) {epoch : ParsedEpochState}
    → refresh_epoch accounts ≡ ok epoch
    → EpochShows accounts epoch
unfolding refresh_epoch
refresh_epoch-EpochShows accounts h =
    let (account, listed, rest) =
      >>=-eq-ok (ok_or (accounts epoch_state_pda) Error.missing_account) _ h in
    let (owner, parsed) = bail_if-ok _ Error.wrong_owner _ rest in
    record {
      account = account;
      owned = (ok_or_ok _ _ listed, owner_is account.owner epoch_program_id owner);
      parsed = parsed;
    }

pub EpochShows-refresh_epoch :
    (accounts : AccountMap) {epoch : ParsedEpochState}
    → EpochShows accounts epoch
    → refresh_epoch accounts ≡ ok epoch
unfolding refresh_epoch
EpochShows-refresh_epoch accounts s =
    let (listed, owner) = s.owned in
    rw listed (
      false-bail_if _ Error.wrong_owner _ (is_owner s.account.owner epoch_program_id owner)
      ∙ s.parsed)

-- The fees of an epoch for a faction.
abbrev pub TaxesOf : ParsedEpochState → SolPoolAmm → Type 0
TaxesOf epoch amm =
    ((amm.faction ≡ crime)
      × (amm.buy_tax_bps ≡ epoch.crime_buy_tax_bps)
      × (amm.sell_tax_bps ≡ epoch.crime_sell_tax_bps))
    ⊎ ((amm.faction ≡ fraud)
        × (amm.buy_tax_bps ≡ epoch.fraud_buy_tax_bps)
        × (amm.sell_tax_bps ≡ epoch.fraud_sell_tax_bps))

pub same_fields :
    (amm amm' : SolPoolAmm)
    → amm'.key ≡ amm.key
    → amm'.faction_mint ≡ amm.faction_mint
    → amm'.quote_mint ≡ amm.quote_mint
    → amm'.faction ≡ amm.faction
    → SamePool amm.pool amm'.pool
    → SameIdentity amm amm'
same_fields amm amm' k f q r p = record {
  key = k;
  faction_mint = f;
  quote_mint = q;
  faction = r;
  pool = p;
}

pub SameIdentity-refl :
    (amm : SolPoolAmm) (flag : Bool) → SameIdentity amm (record amm { state_refreshed = flag })
SameIdentity-refl amm flag = same_fields amm _ refl refl refl refl (SamePool-refl amm.pool)

pub SameIdentity-epoch :
    (amm : SolPoolAmm) (epoch : ParsedEpochState)
    → SameIdentity amm (set_epoch (record amm { state_refreshed = false }) epoch)
unfolding set_epoch
SameIdentity-epoch amm epoch = same_fields amm _ refl refl refl refl (SamePool-refl amm.pool)

module _ {Mint : Type 0} (lib : MintLibrary Mint) where
  -- The quote mint is WSOL, or its account is listed and preserves amounts under its token program.
  abbrev pub QuoteMintFits : SolPoolAmm → AccountMap → Type 0
  QuoteMintFits amm accounts =
      (amm.quote_mint ≡ native_mint)
      ⊎ ((amm.quote_mint ≢ native_mint)
          × (account : Account) × (accounts amm.quote_mint ≡ some account)
          × (validate_quote_mint lib account.bytes account.owner (quote_token_program amm) ≡ ok tt))

  -- The adapter amm' is amm after a refresh from these accounts: the same identity, the pool state
  -- and the epoch that the two owned accounts hold, the epoch's taxes for the faction, refreshed.
  pub record IsRefreshed (amm : SolPoolAmm) (accounts : AccountMap) (amm' : SolPoolAmm)
      : Type 0 where
    pub same : SameIdentity amm amm'
    pub pool_shows : PoolShows amm accounts amm'.pool
    pub epoch : ParsedEpochState
    pub epoch_shows : EpochShows accounts epoch
    pub taxes : TaxesOf epoch amm'
    pub pause_end : amm'.pause_end_slot ≡ epoch.pause_end_slot
    pub paused : amm'.trading_paused ≡ epoch.trading_paused
    pub epoch_initialized : amm'.epoch_initialized ≡ epoch.initialized
    pub quote_mint_fits : QuoteMintFits amm accounts
    pub refreshed : amm'.state_refreshed ≡ true

  pub QuoteMintFits-iff :
      (amm : SolPoolAmm) (accounts : AccountMap)
      → (refresh_quote_mint lib amm accounts ≡ ok tt) ↔ QuoteMintFits amm accounts
  unfolding refresh_quote_mint
  QuoteMintFits-iff amm accounts = ((λ h. ground arith), λ f. ground arith)
  -- The adapter that a refresh of this pool and this epoch leaves.
