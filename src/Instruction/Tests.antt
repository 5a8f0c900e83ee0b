-- ===== src/Instruction/Tests.antt =====
-- The unit tests of src/instruction.rs. The one on the hashes of the discriminators is left out: the
-- hash is a library's.
use drfraudsworth_jupiter_ad.Prelude.{
  ℕ, ◌≡◌, ◌≢◌, refl, true, false, none, some, List, [], ◌∷◌, length, get_elem?, take, drop, arith,
  All, if◌then◌else◌,
}
use drfraudsworth_jupiter_ad.Pubkey.{Pubkey}
use drfraudsworth_jupiter_ad.Addresses.{native_mint}
use drfraudsworth_jupiter_ad.Words.{to_le_bytes}
use drfraudsworth_jupiter_ad.Constants.{convert_v2_discriminator}
use drfraudsworth_jupiter_ad.Instruction.{
  TaxSwapLane, sol_buy, sol_buy_wsol, sol_sell, spl_buy, spl_sell, encode, discriminator,
  has_faction_witness, for_mints, encode_exact, encode_delta, encode_convert,
}

-- The lanes with their discriminators.
abbrev vectors : List (TaxSwapLane × List ℕ)
vectors =
    (sol_buy, 158 ∷ 213 ∷ 169 ∷ 65 ∷ 11 ∷ 116 ∷ 176 ∷ 25 ∷ [])
    ∷ (sol_buy_wsol, 10 ∷ 131 ∷ 6 ∷ 8 ∷ 42 ∷ 57 ∷ 81 ∷ 88 ∷ [])
    ∷ (sol_sell, 136 ∷ 242 ∷ 218 ∷ 149 ∷ 17 ∷ 222 ∷ 250 ∷ 240 ∷ [])
    ∷ (spl_buy, 145 ∷ 254 ∷ 202 ∷ 19 ∷ 150 ∷ 31 ∷ 185 ∷ 146 ∷ [])
    ∷ (spl_sell, 250 ∷ 17 ∷ 196 ∷ 68 ∷ 180 ∷ 202 ∷ 218 ∷ 155 ∷ [])
    ∷ []

-- The body of the loop over the vectors.
abbrev HasStableOrder : TaxSwapLane × List ℕ → Type 0
HasStableOrder (lane, expected) =
    let encoded = encode lane 0x0102030405060708 0x1112131415161718 true in
    (take 8 encoded ≡ expected)
    × (take 8 (drop 8 encoded) ≡ to_le_bytes 8 0x0102030405060708)
    × (take 8 (drop 16 encoded) ≡ to_le_bytes 8 0x1112131415161718)
    × (if has_faction_witness lane then drop 24 encoded ≡ 1 ∷ [] else length encoded ≡ 24)

abbrev InstructionDataHasStableArgumentOrder : Type 0
InstructionDataHasStableArgumentOrder = All HasStableOrder vectors

abbrev SolLaneEncodesFactionBoolean : Type 0
SolLaneEncodesFactionBoolean =
    (get_elem? (encode sol_buy 1 2 true) 24 ≡ some 1)
    × (get_elem? (encode sol_sell 1 2 false) 24 ≡ some 0)
    × (length (encode sol_buy_wsol 1 2 true) ≡ 24)

abbrev LaneSelectionIsExplicitForSolSplAndDirection : Type 0
LaneSelectionIsExplicitForSolSplAndDirection =
    (faction spl_quote : Pubkey)
    → native_mint ≢ faction
    → spl_quote ≢ native_mint
    → spl_quote ≢ faction
    → (for_mints native_mint faction native_mint faction ≡ some sol_buy_wsol)
      × (for_mints native_mint faction faction native_mint ≡ some sol_sell)
      × (for_mints spl_quote faction spl_quote faction ≡ some spl_buy)
      × (for_mints spl_quote faction faction spl_quote ≡ some spl_sell)
      × (for_mints spl_quote faction faction faction ≡ none)

abbrev VaultConvertV2EncodesExactAndDeltaModes : Type 0
VaultConvertV2EncodesExactAndDeltaModes =
    (take 8 (encode_exact 11 22) ≡ convert_v2_discriminator)
    × (take 8 (drop 8 (encode_exact 11 22)) ≡ to_le_bytes 8 11)
    × (take 8 (drop 16 (encode_exact 11 22)) ≡ to_le_bytes 8 22)
    × (take 8 (drop 24 (encode_exact 11 22)) ≡ to_le_bytes 8 0)
    × (take 8 (drop 8 (encode_delta 33 44)) ≡ to_le_bytes 8 0)
    × (take 8 (drop 16 (encode_delta 33 44)) ≡ to_le_bytes 8 33)
    × (take 8 (drop 24 (encode_delta 33 44)) ≡ to_le_bytes 8 44)

-- These tests pass.
tests_hold :
    InstructionDataHasStableArgumentOrder × SolLaneEncodesFactionBoolean
    × LaneSelectionIsExplicitForSolSplAndDirection × VaultConvertV2EncodesExactAndDeltaModes
unfolding encode encode_exact encode_delta encode_convert discriminator has_faction_witness
    for_mints to_le_bytes
tests_hold = (
  (
    (refl, refl, refl, refl),
    (
      (refl, refl, refl, refl),
      ((refl, refl, refl, refl), ((refl, refl, refl, refl), ((refl, refl, refl, refl), tt))),
    ),
  ),
  (refl, refl, refl),
  (λ faction spl_quote h h₁ h₂.
      (ground arith, ground arith, ground arith, ground arith, ground arith)),
  (refl, refl, refl, refl, refl, refl, refl),
)
