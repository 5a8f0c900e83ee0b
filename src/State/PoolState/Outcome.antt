-- ===== src/State/PoolState/Outcome.antt =====
-- What the parser of src/state/pool_state.rs returns on every input: two checks, then the fields, of
-- which only the two flags can still fail.
use drfraudsworth_jupiter_ad.Prelude.{
  ℕ, ◌≡◌, ◌≢◌, ◌⊎◌, refl, sym, ◌∙◌, Bool, true, false, inl, inr, Bool-cases, List, [], ◌∷◌, length,
  arith, ◌==◌, ==→eq, Result, ok, err, Error, ◌>>=◌, >>=-eq-ok,
}
use drfraudsworth_jupiter_ad.Words.{from_le_bytes, from_be_bytes, bytes_eq}
use drfraudsworth_jupiter_ad.Constants.{pool_state_discriminator}
use drfraudsworth_jupiter_ad.State.Reader.{byte_at, slice, bool_byte}
use drfraudsworth_jupiter_ad.State.Reader.Pieces.{
  pubkey_at_value, u64_at_value, bool_byte_ok, of_bool,
}
use drfraudsworth_jupiter_ad.State.PoolState.{ParsedPoolState, from_bytes}

-- The pool that 224 bytes hold, under the two flags.
abbrev pub fields : List ℕ → Bool → Bool → ParsedPoolState
fields bytes initialized locked = record {
  mint_a = from_be_bytes (slice bytes 9 41);
  mint_b = from_be_bytes (slice bytes 41 73);
  vault_a = from_be_bytes (slice bytes 73 105);
  vault_b = from_be_bytes (slice bytes 105 137);
  reserve_a = from_le_bytes (slice bytes 137 145);
  reserve_b = from_le_bytes (slice bytes 145 153);
  lp_fee_bps = from_le_bytes (byte_at bytes 153 ∷ byte_at bytes 154 ∷ []);
  initialized = initialized;
  locked = locked;
  bump = byte_at bytes 157;
  vault_a_bump = byte_at bytes 158;
  vault_b_bump = byte_at bytes 159;
  token_program_a = from_be_bytes (slice bytes 160 192);
  token_program_b = from_be_bytes (slice bytes 192 224);
}

-- Behind the two checks only the flags can fail.
unfoldable pub flags : List ℕ → Result ParsedPoolState
flags bytes = do
  initialized ← bool_byte (byte_at bytes 155)
  locked ← bool_byte (byte_at bytes 156)
  ok (fields bytes initialized locked)

pub from_bytes-flags :
    (bytes : List ℕ)
    → length bytes ≡ 224
    → bytes_eq (slice bytes 0 8) pool_state_discriminator ≡ true
    → from_bytes bytes ≡ flags bytes
unfolding from_bytes flags
from_bytes-flags bytes whole h = simp (
  whole,
  h,
  pubkey_at_value bytes 9 41 refl (omega arith),
  pubkey_at_value bytes 41 73 refl (omega arith),
  pubkey_at_value bytes 73 105 refl (omega arith),
  pubkey_at_value bytes 105 137 refl (omega arith),
  u64_at_value bytes 137 145 refl (omega arith),
  u64_at_value bytes 145 153 refl (omega arith),
  pubkey_at_value bytes 160 192 refl (omega arith),
  pubkey_at_value bytes 192 224 refl (omega arith),
)

from_bytes-length :
    (bytes : List ℕ) → (length bytes == 224) ≡ false → from_bytes bytes ≡ err Error.length_mismatch
unfolding from_bytes
from_bytes-length bytes h = rw h

from_bytes_discriminator :
    (bytes : List ℕ)
    → (length bytes == 224) ≡ true
    → bytes_eq (slice bytes 0 8) pool_state_discriminator ≡ false
    → from_bytes bytes ≡ err Error.discriminator_mismatch
unfolding from_bytes
from_bytes_discriminator bytes h h' = rw (h, h')

-- The outcome on every input.
pub from_bytes_cases :
    (bytes : List ℕ)
    → (from_bytes bytes ≡ err Error.length_mismatch)
      ⊎ (from_bytes bytes ≡ err Error.discriminator_mismatch)
      ⊎ ((length bytes ≡ 224)
          × (bytes_eq (slice bytes 0 8) pool_state_discriminator ≡ true)
          × (from_bytes bytes ≡ flags bytes))
from_bytes_cases bytes = elim (Bool-cases (length bytes == 224)) [
  | inr wrong ↦ inl (from_bytes-length bytes wrong)
  | inl right ↦ elim (Bool-cases (bytes_eq (slice bytes 0 8) pool_state_discriminator)) [
    | inr other ↦ inr (inl (from_bytes_discriminator bytes right other))
    | inl same ↦
        let whole = ==→eq _ _ right in inr (inr (whole, same, from_bytes-flags bytes whole same))
  ]
]

pub flags_ok :
    (bytes : List ℕ) {pool : ParsedPoolState}
    → flags bytes ≡ ok pool
    → (i : Bool) × (l : Bool) × (byte_at bytes 155 ≡ of_bool i)
      × (byte_at bytes 156 ≡ of_bool l)
      × (fields bytes i l ≡ pool)
unfolding flags
flags_ok bytes h =
    let (i, ei, rest) = >>=-eq-ok _ _ h in
    let (l, el, done) = >>=-eq-ok _ _ rest in (i, l, bool_byte_ok _ ei, bool_byte_ok _ el, cc)

flags-ne-bad_slice : (bytes : List ℕ) → flags bytes ≢ err Error.bad_slice
unfolding flags bool_byte
flags-ne-bad_slice bytes = ground arith

-- No range of an account is too short for its field: the parser never fails on a slice.
pub from_bytes-ne-bad_slice : (bytes : List ℕ) → from_bytes bytes ≢ err Error.bad_slice
from_bytes-ne-bad_slice bytes = elim (from_bytes_cases bytes) [
  | inl e ↦ λ h. cc
  | inr (inl e) ↦ λ h. cc
  | inr (inr (_, _, e)) ↦ λ h. flags-ne-bad_slice bytes (sym e ∙ h)
]
