-- ===== src/State/EpochState/Outcome.antt =====
-- What the parser of src/state/epoch_state.rs returns on every input: two checks, then the fields, of
-- which only the two flags can still fail.
use drfraudsworth_jupiter_ad.Prelude.{
  ℕ, ◌≡◌, ◌≢◌, ◌⊎◌, refl, sym, ◌∙◌, Bool, true, false, inl, inr, Bool-cases, List, [], ◌∷◌, length,
  arith, ◌==◌, ==→eq, Result, ok, err, Error, ◌>>=◌, >>=-eq-ok,
}
use drfraudsworth_jupiter_ad.Words.{from_le_bytes, bytes_eq}
use drfraudsworth_jupiter_ad.Constants.{epoch_state_discriminator}
use drfraudsworth_jupiter_ad.State.Reader.{byte_at, slice, bool_byte}
use drfraudsworth_jupiter_ad.State.Reader.Pieces.{u64_at_value, bool_byte_ok, of_bool}
use drfraudsworth_jupiter_ad.State.EpochState.{ParsedEpochState, from_bytes}

-- The epoch that 172 bytes hold, under the two flags.
abbrev pub fields : List ℕ → Bool → Bool → ParsedEpochState
fields bytes trading_paused initialized = record {
  crime_buy_tax_bps = from_le_bytes (byte_at bytes 33 ∷ byte_at bytes 34 ∷ []);
  crime_sell_tax_bps = from_le_bytes (byte_at bytes 35 ∷ byte_at bytes 36 ∷ []);
  fraud_buy_tax_bps = from_le_bytes (byte_at bytes 37 ∷ byte_at bytes 38 ∷ []);
  fraud_sell_tax_bps = from_le_bytes (byte_at bytes 39 ∷ byte_at bytes 40 ∷ []);
  pause_end_slot = from_le_bytes (slice bytes 106 114);
  trading_paused = trading_paused;
  initialized = initialized;
}

-- Behind the two checks only the flags can fail.
unfoldable pub flags : List ℕ → Result ParsedEpochState
flags bytes = do
  trading_paused ← bool_byte (byte_at bytes 114)
  initialized ← bool_byte (byte_at bytes 170)
  ok (fields bytes trading_paused initialized)

pub from_bytes-flags :
    (bytes : List ℕ)
    → length bytes ≡ 172
    → bytes_eq (slice bytes 0 8) epoch_state_discriminator ≡ true
    → from_bytes bytes ≡ flags bytes
unfolding from_bytes flags
from_bytes-flags bytes whole h = simp (whole, h, u64_at_value bytes 106 114 refl (omega arith))

from_bytes-length :
    (bytes : List ℕ) → (length bytes == 172) ≡ false → from_bytes bytes ≡ err Error.length_mismatch
unfolding from_bytes
from_bytes-length bytes h = rw h

from_bytes_discriminator :
    (bytes : List ℕ)
    → (length bytes == 172) ≡ true
    → bytes_eq (slice bytes 0 8) epoch_state_discriminator ≡ false
    → from_bytes bytes ≡ err Error.discriminator_mismatch
unfolding from_bytes
from_bytes_discriminator bytes h h' = rw (h, h')

-- The outcome on every input.
pub from_bytes_cases :
    (bytes : List ℕ)
    → (from_bytes bytes ≡ err Error.length_mismatch)
      ⊎ (from_bytes bytes ≡ err Error.discriminator_mismatch)
      ⊎ ((length bytes ≡ 172)
          × (bytes_eq (slice bytes 0 8) epoch_state_discriminator ≡ true)
          × (from_bytes bytes ≡ flags bytes))
from_bytes_cases bytes = elim (Bool-cases (length bytes == 172)) [
  | inr wrong ↦ inl (from_bytes-length bytes wrong)
  | inl right ↦ elim (Bool-cases (bytes_eq (slice bytes 0 8) epoch_state_discriminator)) [
    | inr other ↦ inr (inl (from_bytes_discriminator bytes right other))
    | inl same ↦
        let whole = ==→eq _ _ right in inr (inr (whole, same, from_bytes-flags bytes whole same))
  ]
]

pub flags_ok :
    (bytes : List ℕ) {epoch : ParsedEpochState}
    → flags bytes ≡ ok epoch
    → (i : Bool) × (l : Bool) × (byte_at bytes 114 ≡ of_bool i)
      × (byte_at bytes 170 ≡ of_bool l)
      × (fields bytes i l ≡ epoch)
unfolding flags
flags_ok bytes h =
    let (i, ei, rest) = >>=-eq-ok _ _ h in
    let (l, el, done) = >>=-eq-ok _ _ rest in (i, l, bool_byte_ok _ ei, bool_byte_ok _ el, cc)

flags-ne-bad_slice : (bytes : List ℕ) → flags bytes ≢ err Error.bad_slice
unfolding flags bool_byte
flags-ne-bad_slice bytes = ground arith

-- No range of an account is too short for its field: the parser never fails on a slice.
pub from_bytes-ne-bad_slice : (bytes : List ℕ) → from_bytes bytes ≢ err Error.bad_slice
from_bytes-ne-bad_slice bytes = elim (from_bytes_cases bytes) [
  | inl e ↦ λ h. cc
  | inr (inl e) ↦ λ h. cc
  | inr (inr (_, _, e)) ↦ λ h. flags-ne-bad_slice bytes (sym e ∙ h)
]
