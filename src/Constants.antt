-- ===== src/Constants.antt =====
-- src/constants.rs: fees, rates, discriminators and the offsets of the pause fields.
use drfraudsworth_jupiter_ad.Prelude.{ℕ, List, [], ◌∷◌}

abbrev pub lp_fee_bps : ℕ
lp_fee_bps = 100

abbrev pub conversion_rate : ℕ
conversion_rate = 100

abbrev pub epoch_state_discriminator : List ℕ
epoch_state_discriminator = 0xbf ∷ 0x3f ∷ 0x8b ∷ 0xed ∷ 0x90 ∷ 0x0c ∷ 0xdf ∷ 0xd2 ∷ []

abbrev pub pool_state_discriminator : List ℕ
pool_state_discriminator = 0xf7 ∷ 0xed ∷ 0xe3 ∷ 0xf5 ∷ 0xd7 ∷ 0xc3 ∷ 0xde ∷ 0x46 ∷ []

abbrev pub pause_end_slot_offset : ℕ
pause_end_slot_offset = 106

abbrev pub trading_paused_offset : ℕ
trading_paused_offset = 114

abbrev pub epoch_initialized_offset : ℕ
epoch_initialized_offset = 170

abbrev pub swap_sol_buy_discriminator : List ℕ
swap_sol_buy_discriminator = 158 ∷ 213 ∷ 169 ∷ 65 ∷ 11 ∷ 116 ∷ 176 ∷ 25 ∷ []

abbrev pub swap_sol_sell_discriminator : List ℕ
swap_sol_sell_discriminator = 136 ∷ 242 ∷ 218 ∷ 149 ∷ 17 ∷ 222 ∷ 250 ∷ 240 ∷ []

abbrev pub swap_spl_buy_discriminator : List ℕ
swap_spl_buy_discriminator = 145 ∷ 254 ∷ 202 ∷ 19 ∷ 150 ∷ 31 ∷ 185 ∷ 146 ∷ []

abbrev pub swap_spl_sell_discriminator : List ℕ
swap_spl_sell_discriminator = 250 ∷ 17 ∷ 196 ∷ 68 ∷ 180 ∷ 202 ∷ 218 ∷ 155 ∷ []

abbrev pub swap_sol_buy_wsol_discriminator : List ℕ
swap_sol_buy_wsol_discriminator = 10 ∷ 131 ∷ 6 ∷ 8 ∷ 42 ∷ 57 ∷ 81 ∷ 88 ∷ []

abbrev pub convert_v2_discriminator : List ℕ
convert_v2_discriminator = 2 ∷ 169 ∷ 12 ∷ 141 ∷ 64 ∷ 38 ∷ 20 ∷ 20 ∷ []
