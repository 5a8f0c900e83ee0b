-- ===== src/State/TokenAccount.antt =====
-- src/state/token_account.rs: the balance of a token account, with the check of its mint.
pub mod Parser
pub mod Tests
use drfraudsworth_jupiter_ad.Prelude.{
  ℕ, not, List, length, ltb, ◌==◌, Result, Error, ◌>>=◌, ◌>>◌, bail_if,
}
use drfraudsworth_jupiter_ad.Pubkey.{Pubkey}
use drfraudsworth_jupiter_ad.State.Reader.{pubkey_at, u64_at}

abbrev pub min_len : ℕ
min_len = 72

unfoldable pub parse_token_account_amount : List ℕ → Pubkey → Result ℕ
parse_token_account_amount bytes expected_mint = do
  bail_if (ltb (length bytes) min_len) Error.length_mismatch
  mint ← pubkey_at bytes 0 32
  bail_if (not (mint == expected_mint)) Error.mint_mismatch
  u64_at bytes 64 72
