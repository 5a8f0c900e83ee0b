-- ===== src/Pubkey.antt =====
-- `solana_sdk::pubkey::Pubkey`: 32 bytes, held as the big-endian number of those bytes. Equality of
-- keys is equality of the numbers; `as_ref` gives the bytes back, and their lexicographic order is
-- the order of the numbers.
pub mod Order
use drfraudsworth_jupiter_ad.Prelude.{
  ℕ, zero, suc, ◌+◌, ◌*◌, ◌/◌, ◌%◌, ◌^◌, ◌<◌, ◌≡◌, refl, Bool, true, false, List, [], ◌∷◌, arith,
  length, ltb, leb, ◌==◌, if◌then◌else◌, Result, ok, err, Error,
}
use drfraudsworth_jupiter_ad.Words.{to_be_bytes, from_be_bytes}

abbrev pub Pubkey : Type 0
Pubkey = ℕ

-- The keys that exist: the numbers of 32 bytes.
abbrev pub IsPubkey : Pubkey → Type 0
IsPubkey k = k < 256 ^ 32

unfoldable pub as_ref : Pubkey → List ℕ
as_ref k = to_be_bytes 32 k

-- `Pubkey::try_from(slice)`: an error unless the slice has 32 bytes.
unfoldable pub try_from : List ℕ → Result Pubkey
try_from bytes = if length bytes == 32 then ok (from_be_bytes bytes) else err Error.bad_slice

-- `a >= b` on byte slices, lexicographically.
unfoldable pub bytes_ge : List ℕ → List ℕ → Bool
bytes_ge [] [] = true
bytes_ge [] (y ∷ ys) = false
bytes_ge (x ∷ xs) [] = true
bytes_ge (x ∷ xs) (y ∷ ys) = let rest = bytes_ge xs ys in if x == y then rest else ltb y x
