-- ===== src/State/Reader.antt =====
-- How the parsers of src/state/ read a byte slice: indexing, ranges, keys and little-endian words.
pub mod Pieces
use drfraudsworth_jupiter_ad.Prelude.{
  ℕ, ◌-◌, Bool, true, false, List, get_or, take, drop, length, ◌==◌, if◌then◌else◌, Result, ok, err,
  Error,
}
use drfraudsworth_jupiter_ad.Words.{from_le_bytes}
use drfraudsworth_jupiter_ad.Pubkey.{Pubkey, try_from}

-- `data[i]`. Every parser checks the length first, so an index out of range, where Rust panics, is
-- never read.
abbrev pub byte_at : List ℕ → ℕ → ℕ
byte_at bytes i = get_or bytes i 0

-- `data[a..b]`.
abbrev pub slice : List ℕ → ℕ → ℕ → List ℕ
slice bytes a b = take (b - a) (drop a bytes)

-- `Pubkey::try_from(&data[a..b])` with its error mapped.
unfoldable pub pubkey_at : List ℕ → ℕ → ℕ → Result Pubkey
pubkey_at bytes a b = try_from (slice bytes a b)

-- `u64::from_le_bytes(data[a..b].try_into()?)`: an error unless the range has 8 bytes.
unfoldable pub u64_at : List ℕ → ℕ → ℕ → Result ℕ
u64_at bytes a b =
    if length (slice bytes a b) == 8
    then ok (from_le_bytes (slice bytes a b))
    else err Error.bad_slice

-- The `match` on a byte that stands for a bool.
unfoldable pub bool_byte : ℕ → Result Bool
bool_byte b = if b == 0 then ok false else if b == 1 then ok true else err Error.bad_bool_byte
