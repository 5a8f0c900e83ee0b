-- ===== src/Runs/Instructions.antt =====
-- The theorems on src/instruction.rs at concrete requests.
use drfraudsworth_jupiter_ad.Prelude.{◌≡◌, ◌≢◌, ◌↔◌, true, some, arith}
use drfraudsworth_jupiter_ad.Addresses.{native_mint, crime_mint}
use drfraudsworth_jupiter_ad.Instruction.{sol_buy, sol_sell, for_mints, encode}
use drfraudsworth_jupiter_ad.Instruction.Lanes.{CallsFor, for_mints_iff}
use drfraudsworth_jupiter_ad.Instruction.Decode.{decode, sent_witness, decode-encode}

for_mints_iff_example :
    ((for_mints native_mint crime_mint crime_mint native_mint ≡ some sol_sell)
      ↔ CallsFor native_mint crime_mint crime_mint native_mint sol_sell)
    × (for_mints native_mint crime_mint crime_mint native_mint ≢ some sol_buy)
for_mints_iff_example = for_mints_iff native_mint crime_mint crime_mint native_mint sol_sell

decode-encode_example :
    decode (encode sol_buy 1_000 950 true) ≡ some (sol_buy, 1_000, 950, sent_witness sol_buy true)
decode-encode_example = decode-encode sol_buy 1_000 950 true (omega arith) (omega arith)
