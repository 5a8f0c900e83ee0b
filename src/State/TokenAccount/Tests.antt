-- ===== src/State/TokenAccount/Tests.antt =====
-- The unit tests of src/state/token_account.rs.
use drfraudsworth_jupiter_ad.Prelude.{
  ℕ, ◌≡◌, refl, true, List, [], ◌∷◌, replicate, copy_from_slice, ok, err, Error, is_err,
}
use drfraudsworth_jupiter_ad.Pubkey.{Pubkey, as_ref, try_from}
use drfraudsworth_jupiter_ad.Solana.{new_unique}
use drfraudsworth_jupiter_ad.Words.{to_le_bytes, from_le_bytes, to_be_bytes, from_be_bytes}
use drfraudsworth_jupiter_ad.State.Reader.{pubkey_at, u64_at}
use drfraudsworth_jupiter_ad.State.TokenAccount.{parse_token_account_amount}

-- The bytes of a token account without extensions.
abbrev pub mock_token_account : Pubkey → Pubkey → ℕ → List ℕ
mock_token_account mint owner amount =
    let bytes = replicate 165 0 in
    let bytes = copy_from_slice bytes 0 (as_ref mint) in
    let bytes = copy_from_slice bytes 32 (as_ref owner) in
    let bytes = copy_from_slice bytes 64 (to_le_bytes 8 amount) in
    copy_from_slice bytes 108 (1 ∷ [])

abbrev ParsesAmount : Type 0
ParsesAmount =
    parse_token_account_amount
      (mock_token_account (new_unique 1) (new_unique 2) 851_612_811_341_341) (new_unique 1)
    ≡ ok 851_612_811_341_341

abbrev RejectsWrongMint : Type 0
RejectsWrongMint =
    parse_token_account_amount (mock_token_account (new_unique 1) (new_unique 2) 1) (new_unique 3)
    ≡ err Error.mint_mismatch

abbrev RejectsShortData : Type 0
RejectsShortData = is_err (parse_token_account_amount (replicate 40 0) (new_unique 1)) ≡ true

-- These tests pass.
tests_hold : ParsesAmount × RejectsWrongMint × RejectsShortData
unfolding parse_token_account_amount as_ref to_be_bytes to_le_bytes from_le_bytes from_be_bytes
    pubkey_at u64_at try_from
tests_hold = (refl, refl, refl)
