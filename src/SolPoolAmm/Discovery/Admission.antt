-- ===== src/SolPoolAmm/Discovery/Admission.antt =====
-- What src/sol_pool_amm.rs makes of a canonical pool, by the side of its faction token.
use drfraudsworth_jupiter_ad.Prelude.{
  ℕ, ◌≡◌, ◌≢◌, ◌⊎◌, ◌<◌, refl, subst, sym, ◌∙◌, Bool, true, false, not, ◌&&◌, inl, inr, none, some,
  [], ◌∷◌, Bool-cases, ==→eq, arith, leb, ◌==◌, if◌then◌else◌, ok, err, Error, Result,
}
use drfraudsworth_jupiter_ad.Words.{to_le_bytes, to_be_bytes}
use drfraudsworth_jupiter_ad.Pubkey.{Pubkey, as_ref, bytes_ge}
use drfraudsworth_jupiter_ad.Solana.{Derivation}
use drfraudsworth_jupiter_ad.Addresses.{
  native_mint, spl_token_program_id, token_2022_program_id, crime_mint, fraud_mint,
}
use drfraudsworth_jupiter_ad.State.PoolState.{ParsedPoolState}
use drfraudsworth_jupiter_ad.State.PoolState.Layout.{to_bytes}
use drfraudsworth_jupiter_ad.State.Reader.Pieces.{of_bool}
use drfraudsworth_jupiter_ad.SolPoolAmm.{
  SolPoolAmm, FactionRole, from_mint, admit, check_programs, check_wsol, pool_pda,
  get_reserve_mints,
}
use drfraudsworth_jupiter_ad.SolPoolAmm.Refresh.Identity.{
  IsFresh, mint_of, from_mint-mint_of, from_mint-none,
}
use drfraudsworth_jupiter_ad.SolPoolAmm.Discovery.{pool_data, quote_program}

-- The pool that the data hold.
abbrev pub pool_of : Pubkey × Pubkey × Pubkey × Pubkey → Pubkey → Pubkey → ℕ → ℕ → ParsedPoolState
pool_of (mint_a, mint_b, token_program_a, token_program_b) vault_a vault_b reserve_a reserve_b =
    record {
      mint_a = mint_a;
      mint_b = mint_b;
      vault_a = vault_a;
      vault_b = vault_b;
      reserve_a = reserve_a;
      reserve_b = reserve_b;
      lp_fee_bps = 100;
      initialized = true;
      locked = false;
      bump = 0;
      vault_a_bump = 0;
      vault_b_bump = 0;
      token_program_a = token_program_a;
      token_program_b = token_program_b;
    }

-- A fresh adapter of a pool.
abbrev pub fresh_adapter : Pubkey → FactionRole → Pubkey → ParsedPoolState → SolPoolAmm
fresh_adapter key role quote pool = record {
  key = key;
  pool = pool;
  faction_mint = mint_of role;
  quote_mint = quote;
  faction = role;
  buy_tax_bps = 0;
  sell_tax_bps = 0;
  pause_end_slot = 0;
  trading_paused = false;
  epoch_initialized = false;
  state_refreshed = false;
}

pub pool_data-to_bytes :
    (s : Pubkey × Pubkey × Pubkey × Pubkey) (vault_a vault_b : Pubkey) (reserve_a reserve_b : ℕ)
    → pool_data s vault_a vault_b reserve_a reserve_b
      ≡ to_bytes 0 (pool_of s vault_a vault_b reserve_a reserve_b)
unfolding pool_data to_bytes as_ref to_be_bytes to_le_bytes of_bool
pool_data-to_bytes s vault_a vault_b reserve_a reserve_b = refl

pub lt→leb : {a b : ℕ} → a < b → leb b a ≡ false
lt→leb h = ground arith

abbrev pub IsProgram : Pubkey → Type 0
IsProgram program = (program ≡ spl_token_program_id) ⊎ (program ≡ token_2022_program_id)

-- What the construction makes of the pool, by its quote side.
unfoldable pub answer : Pubkey → FactionRole → Pubkey → Pubkey → ParsedPoolState → Result SolPoolAmm
answer key role quote program pool =
    if quote == native_mint && not (program == spl_token_program_id)
    then err Error.wsol_not_classic
    else ok (fresh_adapter key role quote pool)

module _ (d : Derivation) (key : Pubkey) (pool : ParsedPoolState) (role : FactionRole)
    (init : pool.initialized ≡ true)
    (order : bytes_ge (as_ref pool.mint_a) (as_ref pool.mint_b) ≡ false)
    (pda : key ≡ pool_pda d pool.mint_a pool.mint_b) where
  pub admit_faction_b :
      pool.mint_b ≡ mint_of role
      → pool.mint_a ≢ crime_mint
      → pool.mint_a ≢ fraud_mint
      → IsProgram pool.token_program_a
      → pool.token_program_b ≡ token_2022_program_id
      → admit d key pool ≡ answer key role pool.mint_a pool.token_program_a pool
  unfolding admit check_programs check_wsol answer
  admit_faction_b same not_crime not_fraud known p22 =
      let a : from_mint pool.mint_a ≡ none = from_mint-none pool.mint_a not_crime not_fraud in
      let b : from_mint pool.mint_b ≡ some role =
        subst (λ m. from_mint m ≡ some role) (sym same) (from_mint-mint_of role) in
      ground arith

  pub admit_faction_a :
      pool.mint_a ≡ mint_of role
      → pool.mint_b ≢ crime_mint
      → pool.mint_b ≢ fraud_mint
      → IsProgram pool.token_program_b
      → pool.token_program_a ≡ token_2022_program_id
      → pool.mint_a ≢ pool.mint_b
      → admit d key pool ≡ answer key role pool.mint_b pool.token_program_b pool
  unfolding admit check_programs check_wsol answer
  admit_faction_a same not_crime not_fraud known p22 apart =
      let a : from_mint pool.mint_a ≡ some role =
        subst (λ m. from_mint m ≡ some role) (sym same) (from_mint-mint_of role) in
      let b : from_mint pool.mint_b ≡ none = from_mint-none pool.mint_b not_crime not_fraud in
      ground arith

fresh_adapter-IsFresh :
    (key : Pubkey) (role : FactionRole) (quote : Pubkey) (pool : ParsedPoolState)
    → IsFresh (fresh_adapter key role quote pool)
fresh_adapter-IsFresh key role quote pool = record {
  buy_tax = refl;
  sell_tax = refl;
  pause_end = refl;
  not_paused = refl;
  epoch_unknown = refl;
  not_refreshed = refl;
}

pub answered :
    (key : Pubkey) (role : FactionRole) (quote : Pubkey) (quote_is_token_2022 : Bool)
    (pool : ParsedPoolState) {found : Result SolPoolAmm}
    → found ≡ answer key role quote (quote_program quote_is_token_2022) pool
    → ((quote ≡ native_mint) × (quote_is_token_2022 ≡ true) × (found ≡ err Error.wsol_not_classic))
      ⊎ ((amm : SolPoolAmm) × (found ≡ ok amm)
          × (amm.key ≡ key)
          × IsFresh amm
          × (get_reserve_mints amm ≡ quote ∷ mint_of role ∷ []))
unfolding answer get_reserve_mints
answered key role quote true pool h = elim (Bool-cases (quote == native_mint)) [
  | inl same ↦ inl (==→eq _ _ same, refl, h ∙ rw same)
  | inr other ↦
      let amm = fresh_adapter key role quote pool in
      inr (amm, h ∙ rw other, refl, fresh_adapter-IsFresh key role quote pool, refl)
]
answered key role quote false pool h =
    let amm = fresh_adapter key role quote pool in
    inr (amm, h ∙ ground arith, refl, fresh_adapter-IsFresh key role quote pool, refl)
