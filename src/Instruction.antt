-- ===== src/Instruction.antt =====
-- src/instruction.rs: the choice of the Tax entrypoint and the bytes of the Tax and the Conversion
-- Vault instructions.
pub mod Lanes
pub mod Decode
mod Tests
use drfraudsworth_jupiter_ad.Prelude.{
  ℕ, Bool, true, false, ◌&&◌, Option, none, some, List, [], ◌∷◌, ◌++◌, ◌==◌, if◌then◌else◌,
}
use drfraudsworth_jupiter_ad.Words.{to_le_bytes}
use drfraudsworth_jupiter_ad.Pubkey.{Pubkey}
use drfraudsworth_jupiter_ad.Addresses.{native_mint}
use drfraudsworth_jupiter_ad.Constants.{
  swap_sol_buy_discriminator, swap_sol_buy_wsol_discriminator, swap_sol_sell_discriminator,
  swap_spl_buy_discriminator, swap_spl_sell_discriminator, convert_v2_discriminator,
}

pub data TaxSwapLane : Type 0 where
  sol_buy sol_buy_wsol sol_sell spl_buy spl_sell : TaxSwapLane

-- The `match` of `for_mints` on (input is the quote, output is the faction).
abbrev lane_of : Bool → Bool → Bool → Bool → Option TaxSwapLane
lane_of true true is_sol reversed = some (if is_sol then sol_buy_wsol else spl_buy)
lane_of false false is_sol reversed =
    if reversed then some (if is_sol then sol_sell else spl_sell) else none
lane_of _ _ is_sol reversed = none

unfoldable pub for_mints : Pubkey → Pubkey → Pubkey → Pubkey → Option TaxSwapLane
for_mints quote_mint faction_mint input_mint output_mint =
    let is_sol = quote_mint == native_mint in
    lane_of (input_mint == quote_mint) (output_mint == faction_mint) is_sol
      (input_mint == faction_mint && output_mint == quote_mint)

unfoldable pub has_faction_witness : TaxSwapLane → Bool
has_faction_witness sol_buy = true
has_faction_witness sol_sell = true
has_faction_witness _ = false

unfoldable pub discriminator : TaxSwapLane → List ℕ
discriminator sol_buy = swap_sol_buy_discriminator
discriminator sol_buy_wsol = swap_sol_buy_wsol_discriminator
discriminator sol_sell = swap_sol_sell_discriminator
discriminator spl_buy = swap_spl_buy_discriminator
discriminator spl_sell = swap_spl_sell_discriminator

-- `u8::from(b)`.
abbrev pub u8_from : Bool → ℕ
u8_from true = 1
u8_from false = 0

unfoldable pub encode : TaxSwapLane → ℕ → ℕ → Bool → List ℕ
unfolding has_faction_witness discriminator
encode lane amount_in minimum_output is_crime =
    let args = discriminator lane ++ (to_le_bytes 8 amount_in ++ to_le_bytes 8 minimum_output) in
    if has_faction_witness lane then args ++ (u8_from is_crime ∷ []) else args

-- `VaultConvertV2::encode`.
unfoldable pub encode_convert : ℕ → ℕ → ℕ → List ℕ
encode_convert amount_in minimum_output pre_balance =
    convert_v2_discriminator
    ++ (to_le_bytes 8 amount_in ++ (to_le_bytes 8 minimum_output ++ to_le_bytes 8 pre_balance))

unfoldable pub encode_exact : ℕ → ℕ → List ℕ
unfolding encode_convert
encode_exact amount_in minimum_output = encode_convert amount_in minimum_output 0

unfoldable pub encode_delta : ℕ → ℕ → List ℕ
unfolding encode_convert
encode_delta minimum_output pre_balance = encode_convert 0 minimum_output pre_balance
