-- ===== src/State/PoolState/Parser.antt =====
-- The parser of src/state/pool_state.rs accepts exactly the accounts of the layout, and reads the
-- pool that they hold.
use drfraudsworth_jupiter_ad.Prelude.{
  ℕ, ◌≡◌, ◌↔◌, refl, subst, sym, ◌∙◌, Bool, true, inl, inr, List, length, All, arith, ok,
}
use drfraudsworth_jupiter_ad.Words.{
  IsByte, bytes_eq, bytes_eq→eq, bytes_eq_refl, to_le_bytes, to_be_bytes, from_le_bytes-lt,
  to_le_bytes-from_le_bytes,
}
use drfraudsworth_jupiter_ad.Constants.{pool_state_discriminator}
use drfraudsworth_jupiter_ad.State.Reader.{byte_at, slice}
use drfraudsworth_jupiter_ad.State.Reader.Pieces.{
  slice-from_be, slice-from_le, slice_two, key_of, word_of, byte_at-lt, bool_byte-of_bool, of_bool,
}
use drfraudsworth_jupiter_ad.State.PoolState.{ParsedPoolState, from_bytes}
use drfraudsworth_jupiter_ad.State.PoolState.Layout.{IsValid, Layout, to_bytes}
use drfraudsworth_jupiter_ad.State.PoolState.Outcome.{
  fields, flags, flags_ok, from_bytes_cases, from_bytes-flags,
}

module _ (bytes : List ℕ) (whole : length bytes ≡ 224) (all : All IsByte bytes) where
  fields-IsValid : (i l : Bool) → IsValid (fields bytes i l)
  fields-IsValid i l = record {
    mint_a = (slice-from_be bytes 9 41 32 refl (omega arith) all).1;
    mint_b = (slice-from_be bytes 41 73 32 refl (omega arith) all).1;
    vault_a = (slice-from_be bytes 73 105 32 refl (omega arith) all).1;
    vault_b = (slice-from_be bytes 105 137 32 refl (omega arith) all).1;
    reserve_a = (slice-from_le bytes 137 145 8 refl (omega arith) all).1;
    reserve_b = (slice-from_le bytes 145 153 8 refl (omega arith) all).1;
    lp_fee_bps = from_le_bytes-lt _ (byte_at-lt bytes 153 all, (byte_at-lt bytes 154 all, tt));
    bump = byte_at-lt bytes 157 all;
    vault_a_bump = byte_at-lt bytes 158 all;
    vault_b_bump = byte_at-lt bytes 159 all;
    token_program_a = (slice-from_be bytes 160 192 32 refl (omega arith) all).1;
    token_program_b = (slice-from_be bytes 192 224 32 refl (omega arith) all).1;
  }

  fields-Layout :
      (i l : Bool)
      → bytes_eq (slice bytes 0 8) pool_state_discriminator ≡ true
      → byte_at bytes 155 ≡ of_bool i
      → byte_at bytes 156 ≡ of_bool l
      → Layout bytes (fields bytes i l)
  fields-Layout i l h hi hl = record {
    whole = whole;
    discriminator = bytes_eq→eq _ _ h;
    mint_a = (slice-from_be bytes 9 41 32 refl (omega arith) all).0;
    mint_b = (slice-from_be bytes 41 73 32 refl (omega arith) all).0;
    vault_a = (slice-from_be bytes 73 105 32 refl (omega arith) all).0;
    vault_b = (slice-from_be bytes 105 137 32 refl (omega arith) all).0;
    reserve_a = (slice-from_le bytes 137 145 8 refl (omega arith) all).0;
    reserve_b = (slice-from_le bytes 145 153 8 refl (omega arith) all).0;
    lp_fee_bps =
        slice_two bytes 153 (omega arith)
        ∙ sym (
            to_le_bytes-from_le_bytes _ (byte_at-lt bytes 153 all, (byte_at-lt bytes 154 all, tt)));
    initialized = hi;
    locked = hl;
    bump = refl;
    vault_a_bump = refl;
    vault_b_bump = refl;
    token_program_a = (slice-from_be bytes 160 192 32 refl (omega arith) all).0;
    token_program_b = (slice-from_be bytes 192 224 32 refl (omega arith) all).0;
  }

-- What the parser accepts is an account of the layout.
pub from_bytes-Layout :
    (bytes : List ℕ) {pool : ParsedPoolState}
    → All IsByte bytes
    → from_bytes bytes ≡ ok pool
    → Layout bytes pool × IsValid pool
from_bytes-Layout bytes {pool} all h = elim (from_bytes_cases bytes) [
  | inl e ↦ cc
  | inr (inl e) ↦ cc
  | inr (inr (whole, same, e)) ↦
      let (i, l, hi, hl, path) = flags_ok bytes (sym e ∙ h) in
      subst (λ p. Layout bytes p × IsValid p) path
        (fields-Layout bytes whole all i l same hi hl, fields-IsValid bytes whole all i l)
]

Layout-fields :
    (bytes : List ℕ) (pool : ParsedPoolState)
    → Layout bytes pool
    → IsValid pool
    → fields bytes pool.initialized pool.locked ≡ pool
Layout-fields bytes pool l v = λ i. record {
  mint_a = key_of _ _ l.mint_a v.mint_a i;
  mint_b = key_of _ _ l.mint_b v.mint_b i;
  vault_a = key_of _ _ l.vault_a v.vault_a i;
  vault_b = key_of _ _ l.vault_b v.vault_b i;
  reserve_a = word_of _ 8 _ l.reserve_a v.reserve_a i;
  reserve_b = word_of _ 8 _ l.reserve_b v.reserve_b i;
  lp_fee_bps =
      word_of _ 2 _ (sym (slice_two bytes 153 (omega (arith, l.whole))) ∙ l.lp_fee_bps) v.lp_fee_bps
        i;
  initialized = pool.initialized;
  locked = pool.locked;
  bump = l.bump i;
  vault_a_bump = l.vault_a_bump i;
  vault_b_bump = l.vault_b_bump i;
  token_program_a = key_of _ _ l.token_program_a v.token_program_a i;
  token_program_b = key_of _ _ l.token_program_b v.token_program_b i;
}

flags-Layout :
    (bytes : List ℕ) (pool : ParsedPoolState)
    → Layout bytes pool
    → IsValid pool
    → flags bytes ≡ ok pool
unfolding flags
flags-Layout bytes pool l v =
    simp (l.initialized, l.locked, bool_byte-of_bool, Layout-fields bytes pool l v)

-- Every account of the layout is accepted.
pub Layout-from_bytes :
    (bytes : List ℕ) (pool : ParsedPoolState)
    → IsValid pool
    → Layout bytes pool
    → from_bytes bytes ≡ ok pool
Layout-from_bytes bytes pool v l =
    from_bytes-flags bytes l.whole (rw l.discriminator (bytes_eq_refl pool_state_discriminator))
    ∙ flags-Layout bytes pool l v

-- On an account of bytes the parser returns a pool exactly where the account has the layout and
-- holds that pool, with every field within its type.
pub from_bytes_iff :
    (bytes : List ℕ) (pool : ParsedPoolState)
    → All IsByte bytes
    → (from_bytes bytes ≡ ok pool) ↔ (Layout bytes pool × IsValid pool)
from_bytes_iff bytes pool all =
    ((λ h. from_bytes-Layout bytes all h), λ (l, v). Layout-from_bytes bytes pool v l)

to_bytes-Layout : (pool_type : ℕ) (pool : ParsedPoolState) → Layout (to_bytes pool_type pool) pool
unfolding to_bytes to_be_bytes to_le_bytes
to_bytes-Layout pool_type pool = record {
  whole = refl;
  discriminator = refl;
  mint_a = refl;
  mint_b = refl;
  vault_a = refl;
  vault_b = refl;
  reserve_a = refl;
  reserve_b = refl;
  lp_fee_bps = refl;
  initialized = refl;
  locked = refl;
  bump = refl;
  vault_a_bump = refl;
  vault_b_bump = refl;
  token_program_a = refl;
  token_program_b = refl;
}

-- A valid pool is read back from its account, whatever the pool type.
pub from_bytes-to_bytes :
    (pool_type : ℕ) (pool : ParsedPoolState)
    → IsValid pool
    → from_bytes (to_bytes pool_type pool) ≡ ok pool
from_bytes-to_bytes pool_type pool v =
    Layout-from_bytes (to_bytes pool_type pool) pool v (to_bytes-Layout pool_type pool)
