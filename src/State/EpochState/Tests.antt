-- ===== src/State/EpochState/Tests.antt =====
-- The unit tests of src/state/epoch_state.rs. The one on the hash of the discriminator is left out: the
-- hash is a library's.
use drfraudsworth_jupiter_ad.Prelude.{
  ℕ, ◌≡◌, refl, true, false, List, [], ◌∷◌, length, replicate, copy_from_slice, Unwrapped, is_err,
}
use drfraudsworth_jupiter_ad.Words.{to_le_bytes, from_le_bytes, bytes_eq}
use drfraudsworth_jupiter_ad.State.Reader.{u64_at, bool_byte}
use drfraudsworth_jupiter_ad.Constants.{
  epoch_state_discriminator, pause_end_slot_offset, trading_paused_offset, epoch_initialized_offset,
}
use drfraudsworth_jupiter_ad.State.EpochState.{from_bytes, get_tax_bps, min_len}

-- The bytes of an initialized epoch with these tax rates.
abbrev mock_epoch_state : ℕ → ℕ → ℕ → ℕ → List ℕ
mock_epoch_state crime_buy crime_sell fraud_buy fraud_sell =
    let bytes = replicate min_len 0 in
    let bytes = copy_from_slice bytes 0 epoch_state_discriminator in
    let bytes = copy_from_slice bytes 33 (to_le_bytes 2 crime_buy) in
    let bytes = copy_from_slice bytes 35 (to_le_bytes 2 crime_sell) in
    let bytes = copy_from_slice bytes 37 (to_le_bytes 2 fraud_buy) in
    let bytes = copy_from_slice bytes 39 (to_le_bytes 2 fraud_sell) in
    copy_from_slice bytes epoch_initialized_offset (1 ∷ [])

abbrev pause_slot : ℕ
pause_slot = 0xabcdef0123456789

-- An epoch that has paused trading.
abbrev paused_epoch : List ℕ
paused_epoch =
    let bytes = mock_epoch_state 100 1_100 1_100 100 in
    let bytes = copy_from_slice bytes pause_end_slot_offset (to_le_bytes 8 pause_slot) in
    copy_from_slice bytes trading_paused_offset (1 ∷ [])

-- An account of the development network, its hexadecimal text as bytes.
abbrev devnet_snapshot : List ℕ
devnet_snapshot =
    191 ∷ 63 ∷ 139 ∷ 237 ∷ 144 ∷ 12 ∷ 223 ∷ 210 ∷ 241 ∷ 254 ∷ 15 ∷ 28 ∷ 0 ∷ 0 ∷ 0 ∷ 0 ∷ 59 ∷ 33 ∷ 0
    ∷ 0 ∷ 203 ∷ 89 ∷ 113 ∷ 28 ∷ 0 ∷ 0 ∷ 0 ∷ 0 ∷ 0 ∷ 44 ∷ 1 ∷ 176 ∷ 4 ∷ 44 ∷ 1 ∷ 176 ∷ 4 ∷ 176 ∷ 4
    ∷ 44 ∷ 1 ∷ 24 ∷ 90 ∷ 113 ∷ 28 ∷ 0 ∷ 0 ∷ 0 ∷ 0 ∷ 0 ∷ 1 ∷ 192 ∷ 174 ∷ 100 ∷ 142 ∷ 211 ∷ 198 ∷ 130
    ∷ 224 ∷ 74 ∷ 237 ∷ 110 ∷ 231 ∷ 157 ∷ 91 ∷ 123 ∷ 38 ∷ 38 ∷ 17 ∷ 221 ∷ 116 ∷ 202 ∷ 220 ∷ 207 ∷ 146
    ∷ 156 ∷ 217 ∷ 66 ∷ 94 ∷ 13 ∷ 51 ∷ 255 ∷ 147 ∷ 0 ∷ 1 ∷ 0 ∷ 9 ∷ 62 ∷ 113 ∷ 28 ∷ 0 ∷ 0 ∷ 0 ∷ 0 ∷ 15
    ∷ 61 ∷ 113 ∷ 28 ∷ 0 ∷ 0 ∷ 0 ∷ 0 ∷ 49 ∷ 33 ∷ 0 ∷ 0 ∷ 0 ∷ 0 ∷ 0 ∷ 0 ∷ 0 ∷ 0 ∷ 0 ∷ 0 ∷ 0 ∷ 0 ∷ 0
    ∷ 0 ∷ 0 ∷ 0 ∷ 0 ∷ 0 ∷ 0 ∷ 0 ∷ 0 ∷ 0 ∷ 0 ∷ 0 ∷ 0 ∷ 0 ∷ 0 ∷ 0 ∷ 0 ∷ 0 ∷ 0 ∷ 0 ∷ 0 ∷ 0 ∷ 0 ∷ 0 ∷ 0
    ∷ 0 ∷ 0 ∷ 0 ∷ 0 ∷ 0 ∷ 0 ∷ 0 ∷ 0 ∷ 0 ∷ 0 ∷ 0 ∷ 0 ∷ 0 ∷ 0 ∷ 0 ∷ 0 ∷ 0 ∷ 0 ∷ 0 ∷ 0 ∷ 0 ∷ 0 ∷ 0 ∷ 0
    ∷ 0 ∷ 0 ∷ 0 ∷ 0 ∷ 0 ∷ 1 ∷ 255 ∷ []

abbrev ParseKnownTaxRates : Type 0
ParseKnownTaxRates = Unwrapped (from_bytes (mock_epoch_state 400 1_400 1_400 400)) λ parsed.
    (parsed.crime_buy_tax_bps ≡ 400)
    × (parsed.crime_sell_tax_bps ≡ 1_400)
    × (parsed.fraud_buy_tax_bps ≡ 1_400)
    × (parsed.fraud_sell_tax_bps ≡ 400)

abbrev GetTaxBpsAllDirections : Type 0
GetTaxBpsAllDirections = Unwrapped (from_bytes (mock_epoch_state 300 1_200 1_500 500)) λ parsed.
    (get_tax_bps parsed true true ≡ 300)
    × (get_tax_bps parsed true false ≡ 1_200)
    × (get_tax_bps parsed false true ≡ 1_500)
    × (get_tax_bps parsed false false ≡ 500)

abbrev RejectTooShort : Type 0
RejectTooShort = is_err (from_bytes (replicate 100 0)) ≡ true

abbrev PauseFieldsReadExactOffsets : Type 0
PauseFieldsReadExactOffsets =
    ((Unwrapped (from_bytes paused_epoch) λ parsed.
      (parsed.pause_end_slot ≡ pause_slot)
      × (parsed.trading_paused ≡ true)
      × (parsed.initialized ≡ true)))
    × (is_err (from_bytes (copy_from_slice paused_epoch trading_paused_offset (2 ∷ []))) ≡ true)

abbrev ParseGateActiveDevnetSnapshot : Type 0
ParseGateActiveDevnetSnapshot =
    (length devnet_snapshot ≡ 172)
    × ((Unwrapped (from_bytes (devnet_snapshot)) λ parsed.
        (parsed.crime_buy_tax_bps ≡ 300)
        × (parsed.crime_sell_tax_bps ≡ 1_200)
        × (parsed.fraud_buy_tax_bps ≡ 1_200)
        × (parsed.fraud_sell_tax_bps ≡ 300)
        × (parsed.pause_end_slot ≡ 0)
        × (parsed.trading_paused ≡ false)
        × (parsed.initialized ≡ true)))

abbrev RejectBadDiscriminator : Type 0
RejectBadDiscriminator =
    is_err (from_bytes (copy_from_slice (replicate min_len 0) 0 (replicate 8 0xff))) ≡ true

-- These tests pass.
tests_hold :
    ParseKnownTaxRates × GetTaxBpsAllDirections × RejectTooShort × PauseFieldsReadExactOffsets
    × ParseGateActiveDevnetSnapshot × RejectBadDiscriminator
unfolding from_bytes get_tax_bps to_le_bytes from_le_bytes u64_at bool_byte bytes_eq
tests_hold = (
  (refl, refl, refl, refl),
  (refl, refl, refl, refl),
  refl,
  ((refl, refl, refl), refl),
  (refl, (refl, refl, refl, refl, refl, refl, refl)),
  refl,
)
