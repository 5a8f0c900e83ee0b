-- ===== src/Accounts/HookAccounts.antt =====
-- src/accounts/hook_accounts.rs: the four extra accounts of a transfer of a hooked mint.
mod Tests
use drfraudsworth_jupiter_ad.Prelude.{ℕ, false, List, [], ◌∷◌, ◌==◌, if◌then◌else◌}
use drfraudsworth_jupiter_ad.Pubkey.{Pubkey, as_ref}
use drfraudsworth_jupiter_ad.Solana.{AccountMeta, readonly, Derivation}
use drfraudsworth_jupiter_ad.Addresses.{
  native_mint, crime_mint, fraud_mint, profit_mint, crime_hook_meta, fraud_hook_meta,
  profit_hook_meta, transfer_hook_program_id,
}

-- `b"whitelist"`.
abbrev pub whitelist_seed : List ℕ
whitelist_seed = b'w' ∷ b'h' ∷ b'i' ∷ b't' ∷ b'e' ∷ b'l' ∷ b'i' ∷ b's' ∷ b't' ∷ []

module _ (d : Derivation) where
  open d use {find_program_address}

  -- The whitelist PDA of a token account.
  unfoldable pub whitelist_pda : Pubkey → Pubkey
  whitelist_pda account =
      (find_program_address (whitelist_seed ∷ as_ref account ∷ []) transfer_hook_program_id).0

  -- The list behind the choice of the ExtraAccountMetaList PDA.
  abbrev pub hook_metas : Pubkey → Pubkey → Pubkey → List AccountMeta
  hook_metas meta_list source dest =
      readonly meta_list false
      ∷ readonly (whitelist_pda source) false
      ∷ readonly (whitelist_pda dest) false
      ∷ readonly transfer_hook_program_id false
      ∷ []

  unfoldable pub hook_metas_for_mint : Pubkey → Pubkey → Pubkey → List AccountMeta
  hook_metas_for_mint mint source_token_account dest_token_account =
      if mint == native_mint
      then []
      else if mint == crime_mint
      then hook_metas crime_hook_meta source_token_account dest_token_account
      else if mint == fraud_mint
      then hook_metas fraud_hook_meta source_token_account dest_token_account
      else if mint == profit_mint
      then hook_metas profit_hook_meta source_token_account dest_token_account
      else []
