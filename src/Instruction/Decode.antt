-- ===== src/Instruction/Decode.antt =====
-- The byte layouts of src/instruction.rs, as a decoder written from the Anchor ABI: an 8-byte
-- discriminator, the arguments as little-endian u64, and for two lanes the byte `is_crime`.
use drfraudsworth_jupiter_ad.Prelude.{
  ℕ, ◌≡◌, ap, ◌&&◌, Bool, true, false, Option, none, some, List, [], ◌∷◌, arith, ◌==◌,
  if◌then◌else◌, ◌>>=?◌, length, take, drop,
}
use drfraudsworth_jupiter_ad.Words.{
  IsU64, to_le_bytes, from_le_bytes, from_le_bytes-to_le_bytes, bytes_eq,
}
use drfraudsworth_jupiter_ad.Instruction.{
  TaxSwapLane, sol_buy, sol_buy_wsol, sol_sell, spl_buy, spl_sell, encode, encode_convert,
  encode_exact, encode_delta,
}

u64_from : List ℕ → ℕ → ℕ
u64_from bytes at = from_le_bytes (take 8 (drop at bytes))

lane_from : List ℕ → Option TaxSwapLane
lane_from d =
    if bytes_eq d (158 ∷ 213 ∷ 169 ∷ 65 ∷ 11 ∷ 116 ∷ 176 ∷ 25 ∷ [])
    then some sol_buy
    else if bytes_eq d (10 ∷ 131 ∷ 6 ∷ 8 ∷ 42 ∷ 57 ∷ 81 ∷ 88 ∷ [])
    then some sol_buy_wsol
    else if bytes_eq d (136 ∷ 242 ∷ 218 ∷ 149 ∷ 17 ∷ 222 ∷ 250 ∷ 240 ∷ [])
    then some sol_sell
    else if bytes_eq d (145 ∷ 254 ∷ 202 ∷ 19 ∷ 150 ∷ 31 ∷ 185 ∷ 146 ∷ [])
    then some spl_buy
    else if bytes_eq d (250 ∷ 17 ∷ 196 ∷ 68 ∷ 180 ∷ 202 ∷ 218 ∷ 155 ∷ [])
    then some spl_sell
    else none

abbrev bool_from : ℕ → Option Bool
bool_from b = if b == 0 then some false else if b == 1 then some true else none

-- The byte behind the arguments: required on the legacy SOL lanes, refused on the others.
witness_from : TaxSwapLane → List ℕ → Option (Option Bool)
witness_from sol_buy (b ∷ []) = bool_from b >>=? λ w. some (some w)
witness_from sol_sell (b ∷ []) = bool_from b >>=? λ w. some (some w)
witness_from sol_buy_wsol [] = some none
witness_from spl_buy [] = some none
witness_from spl_sell [] = some none
witness_from _ _ = none

-- The lane, `amount_in`, `minimum_output` and the witness that an instruction's bytes carry.
pub decode : List ℕ → Option (TaxSwapLane × ℕ × ℕ × Option Bool)
unfolding lane_from witness_from u64_from
decode bytes = lane_from (take 8 bytes) >>=? λ lane.
    witness_from lane (drop 24 bytes) >>=? λ witness.
    some (lane, u64_from bytes 8, u64_from bytes 16, witness)

-- The witness that reaches the chain.
pub sent_witness : TaxSwapLane → Bool → Option Bool
sent_witness sol_buy is_crime = some is_crime
sent_witness sol_sell is_crime = some is_crime
sent_witness _ is_crime = none

-- Every encoded Tax instruction decodes to the lane and the u64 arguments that were encoded, with
-- the faction witness on the legacy SOL lanes alone.
pub decode-encode :
    (lane : TaxSwapLane) (amount minimum : ℕ) (is_crime : Bool)
    → IsU64 amount
    → IsU64 minimum
    → decode (encode lane amount minimum is_crime)
      ≡ some (lane, amount, minimum, sent_witness lane is_crime)
unfolding decode encode sent_witness bytes_eq to_le_bytes
decode-encode sol_buy amount minimum is_crime ha hm =
    ground (arith, from_le_bytes-to_le_bytes 8 amount ha, from_le_bytes-to_le_bytes 8 minimum hm)
decode-encode _ amount minimum is_crime ha hm =
    ground (arith, from_le_bytes-to_le_bytes 8 amount ha, from_le_bytes-to_le_bytes 8 minimum hm)

-- The arguments `amount_in`, `minimum_output` and `pre_balance` of a `convert_v2` instruction.
pub decode_convert : List ℕ → Option (ℕ × ℕ × ℕ)
unfolding u64_from
decode_convert bytes =
    if bytes_eq (take 8 bytes) (2 ∷ 169 ∷ 12 ∷ 141 ∷ 64 ∷ 38 ∷ 20 ∷ 20 ∷ []) && (length bytes == 32)
    then some (u64_from bytes 8, u64_from bytes 16, u64_from bytes 24)
    else none

decode_convert-encode_convert :
    (amount minimum pre_balance : ℕ)
    → IsU64 amount
    → IsU64 minimum
    → IsU64 pre_balance
    → decode_convert (encode_convert amount minimum pre_balance)
      ≡ some (amount, minimum, pre_balance)
unfolding decode_convert encode_convert bytes_eq to_le_bytes
decode_convert-encode_convert amount minimum pre_balance ha hm hp = ground (
  arith,
  from_le_bytes-to_le_bytes 8 amount ha,
  from_le_bytes-to_le_bytes 8 minimum hm,
  from_le_bytes-to_le_bytes 8 pre_balance hp,
)

-- An exact conversion carries its amount and no pre-balance; a delta conversion carries its
-- pre-balance and no amount.
pub decode_convert_modes :
    (amount minimum pre_balance : ℕ)
    → IsU64 amount
    → IsU64 minimum
    → IsU64 pre_balance
    → (decode_convert (encode_exact amount minimum) ≡ some (amount, minimum, 0))
      × (decode_convert (encode_delta minimum pre_balance) ≡ some (0, minimum, pre_balance))
unfolding encode_exact encode_delta
decode_convert_modes amount minimum pre_balance ha hm hp = (
  decode_convert-encode_convert amount minimum 0 ha hm (omega arith),
  decode_convert-encode_convert 0 minimum pre_balance (omega arith) hm hp,
)

-- The bytes of an exact conversion are those of a delta conversion only where both carry nothing:
-- a zero amount against a zero pre-balance, at the same minimum.
pub modes_distinct :
    (amount minimum minimum' pre_balance : ℕ)
    → IsU64 amount
    → IsU64 minimum
    → IsU64 minimum'
    → IsU64 pre_balance
    → encode_exact amount minimum ≡ encode_delta minimum' pre_balance
    → (amount ≡ 0) × (minimum ≡ minimum') × (pre_balance ≡ 0)
modes_distinct amount minimum minimum' pre_balance ha hm hm' hp same =
    let exact = (decode_convert_modes amount minimum 0 ha hm (omega arith)).0 in
    let delta = (decode_convert_modes 0 minimum' pre_balance (omega arith) hm' hp).1 in
    ground (arith, exact, delta, ap decode_convert same)
