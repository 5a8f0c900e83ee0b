-- ===== src/State/EpochState.antt =====
-- src/state/epoch_state.rs: the parser of the EpochState account and the choice of a tax rate.
pub mod Layout
pub mod Outcome
pub mod Parser
mod Tests
use drfraudsworth_jupiter_ad.Prelude.{
  ℕ, ◌+◌, Bool, true, false, not, List, [], ◌∷◌, length, take, ◌==◌, Result, ok, Error, ◌>>=◌, ◌>>◌,
  bail_if,
}
use drfraudsworth_jupiter_ad.Words.{from_le_bytes, bytes_eq}
use drfraudsworth_jupiter_ad.Constants.{
  epoch_state_discriminator, pause_end_slot_offset, trading_paused_offset, epoch_initialized_offset,
}
use drfraudsworth_jupiter_ad.State.Reader.{byte_at, slice, u64_at, bool_byte}

abbrev pub min_len : ℕ
min_len = 172

pub record ParsedEpochState : Type 0 where
  pub crime_buy_tax_bps : ℕ
  pub crime_sell_tax_bps : ℕ
  pub fraud_buy_tax_bps : ℕ
  pub fraud_sell_tax_bps : ℕ
  pub pause_end_slot : ℕ
  pub trading_paused : Bool
  pub initialized : Bool

unfoldable pub from_bytes : List ℕ → Result ParsedEpochState
from_bytes bytes = do
  bail_if (not (length bytes == min_len)) Error.length_mismatch
  bail_if (not (bytes_eq (slice bytes 0 8) epoch_state_discriminator)) Error.discriminator_mismatch
  pause_end_slot ← u64_at bytes pause_end_slot_offset (pause_end_slot_offset + 8)
  trading_paused ← bool_byte (byte_at bytes trading_paused_offset)
  initialized ← bool_byte (byte_at bytes epoch_initialized_offset)
  ok (record {
    crime_buy_tax_bps = from_le_bytes (byte_at bytes 33 ∷ byte_at bytes 34 ∷ []);
    crime_sell_tax_bps = from_le_bytes (byte_at bytes 35 ∷ byte_at bytes 36 ∷ []);
    fraud_buy_tax_bps = from_le_bytes (byte_at bytes 37 ∷ byte_at bytes 38 ∷ []);
    fraud_sell_tax_bps = from_le_bytes (byte_at bytes 39 ∷ byte_at bytes 40 ∷ []);
    pause_end_slot = pause_end_slot;
    trading_paused = trading_paused;
    initialized = initialized;
  })

unfoldable pub get_tax_bps : ParsedEpochState → Bool → Bool → ℕ
get_tax_bps epoch true true = epoch.crime_buy_tax_bps
get_tax_bps epoch true false = epoch.crime_sell_tax_bps
get_tax_bps epoch false true = epoch.fraud_buy_tax_bps
get_tax_bps epoch false false = epoch.fraud_sell_tax_bps

-- `b"account:EpochState"`.
abbrev pub account_name : List ℕ
account_name =
    b'a' ∷ b'c' ∷ b'c' ∷ b'o' ∷ b'u' ∷ b'n' ∷ b't' ∷ b':' ∷ b'E' ∷ b'p' ∷ b'o' ∷ b'c' ∷ b'h' ∷ b'S'
    ∷ b't' ∷ b'a' ∷ b't' ∷ b'e' ∷ []

-- The hash is a library's: a parameter.
unfoldable pub compute_epoch_state_discriminator : (List ℕ → List ℕ) → List ℕ
compute_epoch_state_discriminator sha256 = take 8 (sha256 account_name)
