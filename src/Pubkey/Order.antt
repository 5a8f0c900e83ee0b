-- ===== src/Pubkey/Order.antt =====
-- The representation of a key: its bytes determine it, and their order is the numeric order.
use native.Mathlib.Nat.{mod-lt, mod-eq_of_lt, mul-le-mul_right}
use drfraudsworth_jupiter_ad.Prelude.{
  ℕ, zero, suc, ◌+◌, ◌*◌, ◌/◌, ◌%◌, ◌^◌, ◌<◌, ◌≡◌, ◌∙◌, arith, leb, ok,
}
use drfraudsworth_jupiter_ad.Words.{
  to_be_bytes, length-to_be_bytes, from_be_bytes-to_be_bytes, low_bytes_suc, pow-pos,
}
use drfraudsworth_jupiter_ad.Pubkey.{Pubkey, IsPubkey, as_ref, try_from, bytes_ge}

digit_lt : (a b p r s : ℕ) → a < b → r < p → a * p + r < b * p + s
digit_lt a b p r s h hr = omega (arith, mul-le-mul_right p h)

bytes_ge-to_be_bytes :
    (n x y : ℕ) → bytes_ge (to_be_bytes n x) (to_be_bytes n y) ≡ leb (y % 256 ^ n) (x % 256 ^ n)
unfolding bytes_ge to_be_bytes
bytes_ge-to_be_bytes zero x y = ground arith
bytes_ge-to_be_bytes (suc n) x y =
    let p : ℕ = 256 ^ n in
    let dx : ℕ = x / p % 256 in
    let dy : ℕ = y / p % 256 in
    ground (
      arith,
      bytes_ge-to_be_bytes n x y,
      low_bytes_suc n x,
      low_bytes_suc n y,
      mod-lt x (pow-pos n),
      mod-lt y (pow-pos n),
      digit_lt dx dy p (x % p) (y % p),
      digit_lt dy dx p (y % p) (x % p),
    )

-- `a.as_ref() >= b.as_ref()` on two keys is the order of the numbers.
pub bytes_ge-as_ref :
    (a b : Pubkey) → IsPubkey a → IsPubkey b → bytes_ge (as_ref a) (as_ref b) ≡ leb b a
unfolding as_ref
bytes_ge-as_ref a b ha hb = bytes_ge-to_be_bytes 32 a b ∙ rw (mod-eq_of_lt ha, mod-eq_of_lt hb)

-- A key is read back from its bytes.
try_from-as_ref : (k : Pubkey) → IsPubkey k → try_from (as_ref k) ≡ ok k
unfolding try_from as_ref
try_from-as_ref k h =
    ground (arith, length-to_be_bytes 32 k, from_be_bytes-to_be_bytes 32 k, mod-eq_of_lt h)
