-- ===== src/Accounts/VaultAccounts/Shape.antt =====
-- The shape of the account list of src/accounts/vault_accounts.rs.
use drfraudsworth_jupiter_ad.Prelude.{◌≡◌, ◌⊎◌, refl, inl, inr, some, List, [], ◌∷◌, length}
use drfraudsworth_jupiter_ad.Pubkey.{Pubkey}
use drfraudsworth_jupiter_ad.Solana.{AccountMeta, Derivation, signers}
use drfraudsworth_jupiter_ad.Addresses.{crime_mint, fraud_mint, profit_mint}
use drfraudsworth_jupiter_ad.Accounts.HookAccounts.{hook_metas_for_mint}
use drfraudsworth_jupiter_ad.Accounts.VaultAccounts.{vault_token_account, build_vault_account_metas}

-- The three mints of the protocol.
abbrev pub IsProtocol : Pubkey → Type 0
IsProtocol mint = (mint ≡ crime_mint) ⊎ (mint ≡ fraud_mint) ⊎ (mint ≡ profit_mint)

-- A conversion between two protocol mints has 17 accounts, of which the user alone signs.
pub vault_metas_shape :
    (d : Derivation) (user user_input user_output input output : Pubkey)
    → IsProtocol input
    → IsProtocol output
    → (metas : List AccountMeta) × (build_vault_account_metas d user user_input user_output input
          output
        ≡ some metas)
      × (length metas ≡ 17)
      × (signers metas ≡ user ∷ [])
unfolding build_vault_account_metas vault_token_account hook_metas_for_mint
vault_metas_shape d user user_input user_output input output hi ho = elim hi [
  | inl i ↦ elim ho [
    | inl o ↦ rw (i, o) (_, refl, refl, refl)
    | inr (inl o) ↦ rw (i, o) (_, refl, refl, refl)
    | inr (inr o) ↦ rw (i, o) (_, refl, refl, refl)
  ]
  | inr (inl i) ↦ elim ho [
    | inl o ↦ rw (i, o) (_, refl, refl, refl)
    | inr (inl o) ↦ rw (i, o) (_, refl, refl, refl)
    | inr (inr o) ↦ rw (i, o) (_, refl, refl, refl)
  ]
  | inr (inr i) ↦ elim ho [
    | inl o ↦ rw (i, o) (_, refl, refl, refl)
    | inr (inl o) ↦ rw (i, o) (_, refl, refl, refl)
    | inr (inr o) ↦ rw (i, o) (_, refl, refl, refl)
  ]
]
