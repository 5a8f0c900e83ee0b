-- ===== src/SolPoolAmm/Refresh/Identity.antt =====
-- The identity of an adapter: what its construction establishes and no refresh changes.
use drfraudsworth_jupiter_ad.Prelude.{
  ◌<◌, ◌≡◌, ◌≢◌, ◌⊎◌, ◌↔◌, refl, subst, true, false, not, inl, inr, none, some, All, arith, leb,
  ◌==◌, ◌∙◌, false-bail_if, ok->>=, ok, Error, >>=-eq-ok, bail_if-ok,
}
use drfraudsworth_jupiter_ad.Words.{IsByte}
use drfraudsworth_jupiter_ad.Pubkey.{Pubkey, as_ref, bytes_ge}
use drfraudsworth_jupiter_ad.Pubkey.Order.{bytes_ge-as_ref}
use drfraudsworth_jupiter_ad.Solana.{Derivation}
use drfraudsworth_jupiter_ad.Jupiter.{KeyedAccount}
use drfraudsworth_jupiter_ad.Addresses.{
  amm_program_id, native_mint, spl_token_program_id, token_2022_program_id, crime_mint, fraud_mint,
}
use drfraudsworth_jupiter_ad.State.PoolState
use drfraudsworth_jupiter_ad.State.PoolState.{ParsedPoolState}
use drfraudsworth_jupiter_ad.State.PoolState.Layout.{IsValid, Layout}
use drfraudsworth_jupiter_ad.State.PoolState.Parser.{from_bytes-Layout, Layout-from_bytes}
use drfraudsworth_jupiter_ad.SolPoolAmm.{
  SolPoolAmm, FactionRole, crime, fraud, from_mint, from_keyed_account, admit, check_programs,
  check_wsol, pool_pda,
}

-- The mint of a role.
abbrev pub mint_of : FactionRole → Pubkey
mint_of crime = crime_mint
mint_of fraud = fraud_mint

abbrev IsSupported : Pubkey → Type 0
IsSupported program = (program ≡ spl_token_program_id) ⊎ (program ≡ token_2022_program_id)

-- One side of a pool holds the faction token under Token-2022; the other holds a mint of neither
-- faction under a supported token program, which for WSOL is the classic one.
pub record IsOriented (faction_program quote_program : Pubkey) (amm : SolPoolAmm) : Type 0 where
  pub role : amm.faction_mint ≡ mint_of amm.faction
  pub quote_not_crime : amm.quote_mint ≢ crime_mint
  pub quote_not_fraud : amm.quote_mint ≢ fraud_mint
  pub faction_token_2022 : faction_program ≡ token_2022_program_id
  pub quote_supported : IsSupported quote_program
  pub wsol_classic : (amm.quote_mint ≢ native_mint) ⊎ (quote_program ≡ spl_token_program_id)

-- The adapter of a canonical pool: its mints are in byte order, its key is their PDA, and it is
-- oriented one way or the other.
pub record IsCanonical (d : Derivation) (amm : SolPoolAmm) : Type 0 where
  pub ordered : amm.pool.mint_a < amm.pool.mint_b
  pub key_pda : amm.key ≡ pool_pda d amm.pool.mint_a amm.pool.mint_b
  pub sides :
      ((amm.faction_mint ≡ amm.pool.mint_a)
        × (amm.quote_mint ≡ amm.pool.mint_b)
        × IsOriented amm.pool.token_program_a amm.pool.token_program_b amm)
      ⊎ ((amm.faction_mint ≡ amm.pool.mint_b)
          × (amm.quote_mint ≡ amm.pool.mint_a)
          × IsOriented amm.pool.token_program_b amm.pool.token_program_a amm)

admit-IsCanonical :
    (d : Derivation) (key : Pubkey) (pool : ParsedPoolState) {amm : SolPoolAmm}
    → bytes_ge (as_ref pool.mint_a) (as_ref pool.mint_b) ≡ leb pool.mint_b pool.mint_a
    → admit d key pool ≡ ok amm
    → IsCanonical d amm
unfolding admit check_programs check_wsol from_mint
admit-IsCanonical d key pool order h = ground arith

-- An adapter on which no refresh has succeeded.
pub record IsFresh (amm : SolPoolAmm) : Type 0 where
  pub buy_tax : amm.buy_tax_bps ≡ 0
  pub sell_tax : amm.sell_tax_bps ≡ 0
  pub pause_end : amm.pause_end_slot ≡ 0
  pub not_paused : amm.trading_paused ≡ false
  pub epoch_unknown : amm.epoch_initialized ≡ false
  pub not_refreshed : amm.state_refreshed ≡ false

-- The account is the AMM program's, and holds the initialized pool of a fresh canonical adapter.
pub record IsAdmitted (d : Derivation) (keyed : KeyedAccount) (amm : SolPoolAmm) : Type 0 where
  pub owned : keyed.account.owner ≡ amm_program_id
  pub key_same : amm.key ≡ keyed.key
  pub holds : Layout keyed.account.bytes amm.pool
  pub valid : IsValid amm.pool
  pub initialized : amm.pool.initialized ≡ true
  pub canonical : IsCanonical d amm
  pub fresh : IsFresh amm

admit_fields :
    (d : Derivation) (key : Pubkey) (pool : ParsedPoolState) {amm : SolPoolAmm}
    → admit d key pool ≡ ok amm
    → (amm.key ≡ key) × (amm.pool ≡ pool) × (pool.initialized ≡ true) × IsFresh amm
unfolding admit check_programs check_wsol from_mint
admit_fields d key pool h = ground arith

pub keys_order :
    (pool : ParsedPoolState)
    → IsValid pool
    → bytes_ge (as_ref pool.mint_a) (as_ref pool.mint_b) ≡ leb pool.mint_b pool.mint_a
keys_order pool v = bytes_ge-as_ref pool.mint_a pool.mint_b v.mint_a v.mint_b

owner_same : (a b : Pubkey) → not (a == b) ≡ false → a ≡ b
owner_same a b h = ground arith

owner_test : (a b : Pubkey) → a ≡ b → not (a == b) ≡ false
owner_test a b h = ground arith

from_keyed_account-IsAdmitted :
    (d : Derivation) (keyed : KeyedAccount) {amm : SolPoolAmm}
    → All IsByte keyed.account.bytes
    → from_keyed_account d keyed ≡ ok amm
    → IsAdmitted d keyed amm
unfolding from_keyed_account
from_keyed_account-IsAdmitted d keyed all h =
    let (owned, rest) = bail_if-ok _ Error.not_amm_owned _ h in
    let (pool, parsed, admitted) = >>=-eq-ok (PoolState.from_bytes keyed.account.bytes) _ rest in
    let (layout, valid) = from_bytes-Layout keyed.account.bytes all parsed in
    let (key, same, initialized, fresh) = admit_fields d keyed.key pool admitted in
    record {
      owned = owner_same keyed.account.owner amm_program_id owned;
      key_same = key;
      holds = rw same layout;
      valid = rw same valid;
      initialized = rw same initialized;
      canonical = admit-IsCanonical d keyed.key pool (keys_order pool valid) admitted;
      fresh = fresh;
    }

pub from_mint-mint_of : (role : FactionRole) → from_mint (mint_of role) ≡ some role
unfolding from_mint
from_mint-mint_of crime = refl
from_mint-mint_of fraud = refl

pub from_mint-none : (mint : Pubkey) → mint ≢ crime_mint → mint ≢ fraud_mint → from_mint mint ≡ none
unfolding from_mint
from_mint-none mint h h' = ground arith

IsCanonical-admit :
    (d : Derivation) (amm : SolPoolAmm)
    → bytes_ge (as_ref amm.pool.mint_a) (as_ref amm.pool.mint_b)
      ≡ leb amm.pool.mint_b amm.pool.mint_a
    → amm.pool.initialized ≡ true
    → IsCanonical d amm
    → IsFresh amm
    → admit d amm.key amm.pool ≡ ok amm
unfolding admit check_programs check_wsol
IsCanonical-admit d amm order init c f = elim c.sides [
  | inl (fa, qb, o) ↦
      let a : from_mint amm.pool.mint_a ≡ some amm.faction =
        ground (arith, from_mint-mint_of amm.faction) in
      let b : from_mint amm.pool.mint_b ≡ none = ground (arith, from_mint-none amm.pool.mint_b) in
      ground (arith, c.ordered, c.key_pda)
  | inr (fb, qa, o) ↦
      let a : from_mint amm.pool.mint_a ≡ none = ground (arith, from_mint-none amm.pool.mint_a) in
      let b : from_mint amm.pool.mint_b ≡ some amm.faction =
        ground (arith, from_mint-mint_of amm.faction) in
      ground (arith, c.ordered, c.key_pda)
]

IsAdmitted-from_keyed_account :
    (d : Derivation) (keyed : KeyedAccount) (amm : SolPoolAmm)
    → IsAdmitted d keyed amm
    → from_keyed_account d keyed ≡ ok amm
unfolding from_keyed_account
IsAdmitted-from_keyed_account d keyed amm a =
    let parsed : PoolState.from_bytes keyed.account.bytes ≡ ok amm.pool =
      Layout-from_bytes keyed.account.bytes amm.pool a.valid a.holds in
    let admitted : admit d keyed.key amm.pool ≡ ok amm =
      subst (λ k. admit d k amm.pool ≡ ok amm) a.key_same
        (IsCanonical-admit d amm (keys_order amm.pool a.valid) a.initialized a.canonical a.fresh) in
    false-bail_if _ Error.not_amm_owned _ (owner_test keyed.account.owner amm_program_id a.owned)
    ∙ ok->>= (PoolState.from_bytes keyed.account.bytes) (admit d keyed.key) parsed admitted

-- On an account of bytes, the construction succeeds with an adapter exactly where the account is
-- the AMM program's, holds an initialized pool whose key is the PDA of its mints in byte order, one
-- side is a faction token under Token-2022 and the other a mint of neither faction under a
-- supported program (classic for WSOL), and the adapter is that pool's, with nothing refreshed.
pub from_keyed_account_iff :
    (d : Derivation) (keyed : KeyedAccount) (amm : SolPoolAmm)
    → All IsByte keyed.account.bytes
    → (from_keyed_account d keyed ≡ ok amm) ↔ IsAdmitted d keyed amm
from_keyed_account_iff d keyed amm all = (
  (λ h. from_keyed_account-IsAdmitted d keyed all h),
  λ a. IsAdmitted-from_keyed_account d keyed amm a,
)

-- What a construction returns is fresh.
pub from_keyed_account-IsFresh :
    (d : Derivation) (keyed : KeyedAccount) {amm : SolPoolAmm}
    → from_keyed_account d keyed ≡ ok amm
    → IsFresh amm
unfolding from_keyed_account
from_keyed_account-IsFresh d keyed h =
    let (_, rest) = bail_if-ok _ Error.not_amm_owned _ h in
    let (pool, _, admitted) = >>=-eq-ok (PoolState.from_bytes keyed.account.bytes) _ rest in
    (admit_fields d keyed.key pool admitted).3
