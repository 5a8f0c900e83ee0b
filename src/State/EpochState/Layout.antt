-- ===== src/State/EpochState/Layout.antt =====
-- The byte layout of the EpochState account, from the table at the head of
-- src/state/epoch_state.rs and the pause offsets of src/constants.rs.
use drfraudsworth_jupiter_ad.Prelude.{ℕ, ◌≡◌, List, [], ◌∷◌, length}
use drfraudsworth_jupiter_ad.Words.{IsU16, IsU64, to_le_bytes}
use drfraudsworth_jupiter_ad.State.Reader.{byte_at, slice}
use drfraudsworth_jupiter_ad.State.Reader.Pieces.{of_bool}
use drfraudsworth_jupiter_ad.State.EpochState.{ParsedEpochState}

-- The fields lie in their types.
pub record IsValid (epoch : ParsedEpochState) : Type 0 where
  pub crime_buy_tax_bps : IsU16 epoch.crime_buy_tax_bps
  pub crime_sell_tax_bps : IsU16 epoch.crime_sell_tax_bps
  pub fraud_buy_tax_bps : IsU16 epoch.fraud_buy_tax_bps
  pub fraud_sell_tax_bps : IsU16 epoch.fraud_sell_tax_bps
  pub pause_end_slot : IsU64 epoch.pause_end_slot

-- The bytes hold the epoch. What lies between the fields is free.
pub record Layout (bytes : List ℕ) (epoch : ParsedEpochState) : Type 0 where
  pub whole : length bytes ≡ 172
  pub discriminator : slice bytes 0 8 ≡ 0xbf ∷ 0x3f ∷ 0x8b ∷ 0xed ∷ 0x90 ∷ 0x0c ∷ 0xdf ∷ 0xd2 ∷ []
  pub crime_buy_tax_bps : slice bytes 33 35 ≡ to_le_bytes 2 epoch.crime_buy_tax_bps
  pub crime_sell_tax_bps : slice bytes 35 37 ≡ to_le_bytes 2 epoch.crime_sell_tax_bps
  pub fraud_buy_tax_bps : slice bytes 37 39 ≡ to_le_bytes 2 epoch.fraud_buy_tax_bps
  pub fraud_sell_tax_bps : slice bytes 39 41 ≡ to_le_bytes 2 epoch.fraud_sell_tax_bps
  pub pause_end_slot : slice bytes 106 114 ≡ to_le_bytes 8 epoch.pause_end_slot
  pub trading_paused : byte_at bytes 114 ≡ of_bool epoch.trading_paused
  pub initialized : byte_at bytes 170 ≡ of_bool epoch.initialized
