-- ===== src/VaultAmm/Edges.antt =====
-- The four conversions of src/vault_amm.rs and the ways to an adapter of one.
use Prim.Native.String.{String}
use drfraudsworth_jupiter_ad.Prelude.{
  ◌≡◌, ◌≢◌, ◌⊎◌, ◌↔◌, refl, arith, inl, inr, Option, none, some, [], ◌∷◌, Result, ok,
}
use drfraudsworth_jupiter_ad.Pubkey.{Pubkey}
use drfraudsworth_jupiter_ad.Solana.{Derivation}
use drfraudsworth_jupiter_ad.Jupiter.{Account, KeyedAccount}
use drfraudsworth_jupiter_ad.Addresses.{
  crime_mint, fraud_mint, profit_mint, vault_crime, vault_fraud, vault_profit,
}
use drfraudsworth_jupiter_ad.VaultAmm.{
  VaultAmm, derive_synthetic_key, vault_for_mint, conversion_output_vault, instance_of,
  instances_of, known_instances, find_instance, from_keyed_account, keyed,
}
use drfraudsworth_jupiter_ad.VaultAmm.Labels.{mint_name, format_label}

-- The four edges with the vault that pays out.
abbrev pub IsEdge : Pubkey → Pubkey → Pubkey → Type 0
IsEdge input output vault =
    (((input ≡ crime_mint) ⊎ (input ≡ fraud_mint))
      × (output ≡ profit_mint)
      × (vault ≡ vault_profit))
    ⊎ ((input ≡ profit_mint)
        × (((output ≡ crime_mint) × (vault ≡ vault_crime))
            ⊎ ((output ≡ fraud_mint) × (vault ≡ vault_fraud))))

-- The conversion of a pair is supported, and pays out of this vault, exactly where it is one of
-- the four edges.
pub conversion_output_vault_iff :
    (input output vault : Pubkey)
    → (conversion_output_vault input output ≡ some vault) ↔ IsEdge input output vault
unfolding conversion_output_vault vault_for_mint
conversion_output_vault_iff input output vault = ((λ h. ground arith), λ e. ground arith)

-- An adapter of an edge.
pub record IsConversion (amm : VaultAmm) : Type 0 where
  pub edge : IsEdge amm.input_mint amm.output_mint amm.output_vault

-- The keys of the four pairs differ, as the addresses of different seeds do.
pub record HasDistinctKeys (d : Derivation) : Type 0 where
  pub crime_fraud :
      derive_synthetic_key d crime_mint profit_mint ≢ derive_synthetic_key d fraud_mint profit_mint
  pub crime_from :
      derive_synthetic_key d crime_mint profit_mint ≢ derive_synthetic_key d profit_mint crime_mint
  pub crime_to_fraud :
      derive_synthetic_key d crime_mint profit_mint ≢ derive_synthetic_key d profit_mint fraud_mint
  pub fraud_to_crime :
      derive_synthetic_key d fraud_mint profit_mint ≢ derive_synthetic_key d profit_mint crime_mint
  pub fraud_from :
      derive_synthetic_key d fraud_mint profit_mint ≢ derive_synthetic_key d profit_mint fraud_mint
  pub from_from :
      derive_synthetic_key d profit_mint crime_mint ≢ derive_synthetic_key d profit_mint fraud_mint

-- The four instances.
pub known_instances_value :
    (d : Derivation)
    → known_instances d
      ≡ some (
          (
            derive_synthetic_key d crime_mint profit_mint,
            instance_of d crime_mint profit_mint "CRIME/PROFIT Vault" vault_profit,
          )
          ∷ (
            derive_synthetic_key d fraud_mint profit_mint,
            instance_of d fraud_mint profit_mint "FRAUD/PROFIT Vault" vault_profit,
          )
          ∷ (
            derive_synthetic_key d profit_mint crime_mint,
            instance_of d profit_mint crime_mint "PROFIT/CRIME Vault" vault_crime,
          )
          ∷ (
            derive_synthetic_key d profit_mint fraud_mint,
            instance_of d profit_mint fraud_mint "PROFIT/FRAUD Vault" vault_fraud,
          )
          ∷ [])
unfolding known_instances instances_of vault_for_mint
known_instances_value d = refl

-- The search among four distinct keys.
find_four :
    (d : Derivation) (k₁ k₂ k₃ k₄ : Pubkey) (a₁ a₂ a₃ a₄ : VaultAmm)
    → k₁ ≢ k₂
    → k₁ ≢ k₃
    → k₁ ≢ k₄
    → k₂ ≢ k₃
    → k₂ ≢ k₄
    → k₃ ≢ k₄
    → let found : Pubkey → Result VaultAmm =
        λ k. find_instance d k ((k₁, a₁) ∷ (k₂, a₂) ∷ (k₃, a₃) ∷ (k₄, a₄) ∷ []) in
      (found k₁ ≡ ok a₁) × (found k₂ ≡ ok a₂) × (found k₃ ≡ ok a₃) × (found k₄ ≡ ok a₄)
unfolding find_instance
find_four d k₁ k₂ k₃ k₄ a₁ a₂ a₃ a₄ h₁₂ h₁₃ h₁₄ h₂₃ h₂₄ h₃₄ =
    (ground arith, ground arith, ground arith, ground arith)

module _ (d : Derivation) (parse_pubkey : String → Option Pubkey) where
  -- The account of a key without parameters.
  abbrev pub bare : Pubkey → Account → KeyedAccount
  bare key account = record { key = key; account = account; params = none }

  -- Where the keys of the four pairs differ, an account without parameters whose key is that of an
  -- edge is resolved to the adapter of that edge, with its vault and its label.
  pub known_key_resolves :
      (account : Account) (input output vault : Pubkey)
      → HasDistinctKeys d
      → IsEdge input output vault
      → from_keyed_account d parse_pubkey (bare (derive_synthetic_key d input output) account)
        ≡ some (ok (instance_of d input output (format_label input output) vault))
  unfolding from_keyed_account keyed format_label mint_name
  known_key_resolves account input output vault k e =
      let (f₁, f₂, f₃, f₄) =
        find_four d _ _ _ _ (instance_of d crime_mint profit_mint "CRIME/PROFIT Vault" vault_profit)
          (instance_of d fraud_mint profit_mint "FRAUD/PROFIT Vault" vault_profit)
          (instance_of d profit_mint crime_mint "PROFIT/CRIME Vault" vault_crime)
          (instance_of d profit_mint fraud_mint "PROFIT/FRAUD Vault" vault_fraud) k.crime_fraud
          k.crime_from k.crime_to_fraud k.fraud_to_crime k.fraud_from k.from_from in
      elim e [
        | inl (inl i, o, v) ↦ rw (known_instances_value d, i, o, v, f₁) refl
        | inl (inr i, o, v) ↦ rw (known_instances_value d, i, o, v, f₂) refl
        | inr (i, inl (o, v)) ↦ rw (known_instances_value d, i, o, v, f₃) refl
        | inr (i, inr (o, v)) ↦ rw (known_instances_value d, i, o, v, f₄) refl
      ]
