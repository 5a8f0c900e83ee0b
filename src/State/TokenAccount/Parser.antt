-- ===== src/State/TokenAccount/Parser.antt =====
-- The balance parser of src/state/token_account.rs against the base layout of a token account.
use drfraudsworth_jupiter_ad.Prelude.{
  ℕ, ◌≤◌, ◌≡◌, ◌↔◌, refl, not, List, length, All, arith, ltb, ◌==◌, if◌then◌else◌, ok, err, Error,
}
use drfraudsworth_jupiter_ad.Words.{
  IsByte, IsU64, from_le_bytes, from_be_bytes, to_le_bytes, to_be_bytes,
}
use drfraudsworth_jupiter_ad.Pubkey.{Pubkey, IsPubkey}
use drfraudsworth_jupiter_ad.State.Reader.{slice}
use drfraudsworth_jupiter_ad.State.Reader.Pieces.{
  pubkey_at_value, u64_at_value, slice-from_be, slice-from_le, key_of, word_of,
}
use drfraudsworth_jupiter_ad.State.TokenAccount.{parse_token_account_amount}

-- A token account of a mint with a balance: at least 72 bytes, the mint first, the amount at 64.
pub record Holds (bytes : List ℕ) (mint : Pubkey) (amount : ℕ) : Type 0 where
  pub enough : 72 ≤ length bytes
  pub mint_bytes : slice bytes 0 32 ≡ to_be_bytes 32 mint
  pub amount_bytes : slice bytes 64 72 ≡ to_le_bytes 8 amount

parse_value :
    (bytes : List ℕ) (mint : Pubkey)
    → parse_token_account_amount bytes mint ≡ (
        if ltb (length bytes) 72
        then err Error.length_mismatch
        else if not (from_be_bytes (slice bytes 0 32) == mint)
        then err Error.mint_mismatch
        else ok (from_le_bytes (slice bytes 64 72)))
unfolding parse_token_account_amount
parse_value bytes mint =
    ground (arith, pubkey_at_value bytes 0 32 refl, u64_at_value bytes 64 72 refl)

parse_ok :
    (bytes : List ℕ) (mint : Pubkey) {amount : ℕ}
    → parse_token_account_amount bytes mint ≡ ok amount
    → (72 ≤ length bytes)
      × (from_be_bytes (slice bytes 0 32) ≡ mint)
      × (from_le_bytes (slice bytes 64 72) ≡ amount)
parse_ok bytes mint h = ground (arith, parse_value bytes mint)

parse-Holds :
    (bytes : List ℕ) (mint : Pubkey) {amount : ℕ}
    → All IsByte bytes
    → parse_token_account_amount bytes mint ≡ ok amount
    → Holds bytes mint amount × IsU64 amount
parse-Holds bytes mint all h =
    let (enough, m, a) = parse_ok bytes mint h in
    let (key, _) = slice-from_be bytes 0 32 32 refl (omega arith) all in
    let (word, fits) = slice-from_le bytes 64 72 8 refl (omega arith) all in
    (
      record { enough = enough; mint_bytes = rw m at key; amount_bytes = rw a at word },
      rw a at fits,
    )

Holds-parse :
    (bytes : List ℕ) (mint : Pubkey) (amount : ℕ)
    → IsPubkey mint
    → Holds bytes mint amount
    → IsU64 amount
    → parse_token_account_amount bytes mint ≡ ok amount
Holds-parse bytes mint amount hm c ha = ground (
  arith,
  parse_value bytes mint,
  key_of (slice bytes 0 32) mint c.mint_bytes hm,
  word_of (slice bytes 64 72) 8 amount c.amount_bytes ha,
)

-- A balance is returned exactly for the accounts that hold it, as a u64, under the expected mint:
-- an account of any other mint, or a shorter one, is refused.
pub parse_iff :
    (bytes : List ℕ) (mint : Pubkey) (amount : ℕ)
    → All IsByte bytes
    → IsPubkey mint
    → (parse_token_account_amount bytes mint ≡ ok amount) ↔ (Holds bytes mint amount × IsU64 amount)
parse_iff bytes mint amount all hm =
    (parse-Holds bytes mint all, λ c. Holds-parse bytes mint amount hm c.0 c.1)
