-- ===== src/Accounts/VaultAccounts/Transfers.antt =====
-- The two transfers of a conversion in the account list of src/accounts/vault_accounts.rs.
use drfraudsworth_jupiter_ad.Prelude.{
  ◌≡◌, ◌⊎◌, refl, false, inl, inr, some, List, [], ◌∷◌, ◌++◌, take, drop,
}
use drfraudsworth_jupiter_ad.Pubkey.{Pubkey}
use drfraudsworth_jupiter_ad.Solana.{AccountMeta, Derivation, writable, readonly}
use drfraudsworth_jupiter_ad.Addresses.{
  crime_mint, fraud_mint, profit_mint, crime_hook_meta, fraud_hook_meta, profit_hook_meta,
  vault_crime, vault_fraud, vault_profit,
}
use drfraudsworth_jupiter_ad.Accounts.HookAccounts.{hook_metas, hook_metas_for_mint}
use drfraudsworth_jupiter_ad.Accounts.VaultAccounts.{
  convert_named, vault_token_account, build_vault_account_metas,
}
use drfraudsworth_jupiter_ad.Accounts.VaultAccounts.Shape.{IsProtocol}

-- A protocol mint with the vault's account of it and the list of its hook's extra accounts.
abbrev pub KeptIn : Pubkey → Pubkey → Pubkey → Type 0
KeptIn mint vault meta_list =
    ((mint ≡ crime_mint) × (vault ≡ vault_crime) × (meta_list ≡ crime_hook_meta))
    ⊎ ((mint ≡ fraud_mint) × (vault ≡ vault_fraud) × (meta_list ≡ fraud_hook_meta))
    ⊎ ((mint ≡ profit_mint) × (vault ≡ vault_profit) × (meta_list ≡ profit_hook_meta))

-- What the builder makes of a protocol mint.
record IsHooked (d : Derivation) (mint : Pubkey) : Type 0 where
  pub vault : Pubkey
  pub meta_list : Pubkey
  pub kept : KeptIn mint vault meta_list
  pub account : vault_token_account mint ≡ some vault
  pub hooks :
      (from to : Pubkey) → hook_metas_for_mint d mint from to ≡ hook_metas d meta_list from to

protocol-IsHooked : (d : Derivation) (mint : Pubkey) → IsProtocol mint → IsHooked d mint
unfolding vault_token_account hook_metas_for_mint
protocol-IsHooked d mint p = elim p [
  | inl h ↦ record {
    vault = vault_crime;
    meta_list = crime_hook_meta;
    kept = inl (h, refl, refl);
    account = rw h refl;
    hooks = λ from to. rw h refl;
  }
  | inr (inl h) ↦ record {
    vault = vault_fraud;
    meta_list = fraud_hook_meta;
    kept = inr (inl (h, refl, refl));
    account = rw h refl;
    hooks = λ from to. rw h refl;
  }
  | inr (inr h) ↦ record {
    vault = vault_profit;
    meta_list = profit_hook_meta;
    kept = inr (inr (h, refl, refl));
    account = rw h refl;
    hooks = λ from to. rw h refl;
  }
]

-- The accounts of the two transfers, and behind the named accounts the hook's: the input moves from
-- the user to the vault's account of it, and the output from the vault's account of it to the user.
abbrev pub Transfers :
    Derivation
    → List AccountMeta
    → Pubkey × Pubkey × Pubkey
    → Pubkey × Pubkey × Pubkey
    → Pubkey × Pubkey
    → Type 0
Transfers d metas (input, vault_in, list_in) (output, vault_out, list_out) (user_in, user_out) =
    (take 6 (drop 2 metas)
      ≡ writable user_in false
        ∷ writable user_out false
        ∷ readonly input false
        ∷ readonly output false
        ∷ writable vault_in false
        ∷ writable vault_out false
        ∷ [])
    × (drop 9 metas
        ≡ hook_metas d list_in user_in vault_in ++ hook_metas d list_out vault_out user_out)

-- A conversion between two protocol mints lists the vault's accounts of the two mints, next to the
-- user's, and then the hook's accounts of its two transfers, each with its mint's own list: the
-- input from the user into the vault, and the output from the vault to the user.
pub vault_metas_sides :
    (d : Derivation) (user user_in user_out input output : Pubkey)
    → IsProtocol input
    → IsProtocol output
    → (metas : List AccountMeta) × (build_vault_account_metas d user user_in user_out input output
        ≡ some metas)
      × (vault_in : Pubkey) × (list_in : Pubkey) × KeptIn input vault_in list_in
      × (vault_out : Pubkey) × (list_out : Pubkey) × KeptIn output vault_out list_out
      × Transfers d metas
          (input, vault_in, list_in)
          (output, vault_out, list_out)
          (user_in, user_out)
unfolding build_vault_account_metas
vault_metas_sides d user user_in user_out input output hi ho =
    let i = protocol-IsHooked d input hi in
    let o = protocol-IsHooked d output ho in
    (
      convert_named user user_in user_out input output i.vault o.vault
          ++ (hook_metas d i.meta_list user_in i.vault
              ++ hook_metas d o.meta_list o.vault user_out),
      rw (i.account, o.account, i.hooks user_in i.vault, o.hooks o.vault user_out) refl,
      i.vault,
      i.meta_list,
      i.kept,
      o.vault,
      o.meta_list,
      o.kept,
      (refl, refl),
    )
