-- ===== src/VaultAmm/Execution.antt =====
-- What the adapter of src/vault_amm.rs quotes it can also execute, from its construction on.
use Prim.Native.String.{String}
use drfraudsworth_jupiter_ad.Prelude.{
  ℕ, ◌≡◌, refl, sym, subst, ◌∙◌, arith, inl, inr, Option, none, some, ◌>>=?◌, List, [], ◌∷◌, length,
  Result, ok,
}
use drfraudsworth_jupiter_ad.Pubkey.{Pubkey}
use drfraudsworth_jupiter_ad.Solana.{AccountMeta, Derivation, signers}
use drfraudsworth_jupiter_ad.Jupiter.{
  Params, KeyedAccount, QuoteParams, Decimals, Quote, SwapParams, token_swap,
}
use drfraudsworth_jupiter_ad.Jupiter.Life.{Life, Reach, born}
use drfraudsworth_jupiter_ad.Addresses.{
  crime_mint, fraud_mint, profit_mint, vault_crime, vault_fraud, vault_profit,
}
use drfraudsworth_jupiter_ad.VaultAmm.{
  VaultAmm, from_keyed_account, keyed, find_instance, instance_of, update, quote,
  validate_mint_pair, get_swap_and_account_metas, get_accounts_len,
}
use drfraudsworth_jupiter_ad.VaultAmm.Edges.{IsEdge, IsConversion, known_instances_value}
use drfraudsworth_jupiter_ad.VaultAmm.Requests.{from_params-IsRequested}
use drfraudsworth_jupiter_ad.VaultAmm.Answers.{IsPairOf, vault_swap_total}
use drfraudsworth_jupiter_ad.VaultAmm.Lifecycle.{vault_quote_covered}

some_inj : {x y : Result VaultAmm} → some x ≡ some y → x ≡ y
some_inj h = cc

module _ (d : Derivation) (parse_pubkey : String → Option Pubkey) where
  find_instance-IsConversion :
      (key k₁ k₂ k₃ k₄ : Pubkey) (a₁ a₂ a₃ a₄ : VaultAmm) {amm : VaultAmm}
      → IsConversion a₁
      → IsConversion a₂
      → IsConversion a₃
      → IsConversion a₄
      → find_instance d key ((k₁, a₁) ∷ (k₂, a₂) ∷ (k₃, a₃) ∷ (k₄, a₄) ∷ []) ≡ ok amm
      → IsConversion amm
  unfolding find_instance
  find_instance-IsConversion key k₁ k₂ k₃ k₄ a₁ a₂ a₃ a₄ c₁ c₂ c₃ c₄ h = ground arith

  -- Whatever the construction returns is the adapter of an edge.
  keyed-IsConversion :
      (key : Pubkey) (params : Option Params) {amm : VaultAmm}
      → keyed d parse_pubkey key params ≡ some (ok amm)
      → IsConversion amm
  unfolding keyed instance_of
  keyed-IsConversion key none {amm} h =
      find_instance-IsConversion key _ _ _ _
        (instance_of d crime_mint profit_mint "CRIME/PROFIT Vault" vault_profit)
        (instance_of d fraud_mint profit_mint "FRAUD/PROFIT Vault" vault_profit)
        (instance_of d profit_mint crime_mint "PROFIT/CRIME Vault" vault_crime)
        (instance_of d profit_mint fraud_mint "PROFIT/FRAUD Vault" vault_fraud)
        (record { edge = inl (inl refl, refl, refl) })
        (record { edge = inl (inr refl, refl, refl) })
        (record { edge = inr (refl, inl (refl, refl)) })
        (record { edge = inr (refl, inr (refl, refl)) })
        (some_inj (
          subst (λ k. (k >>=? λ instances. some (find_instance d key instances)) ≡ some (ok amm))
            (known_instances_value d) h))
  keyed-IsConversion key (some params) h =
      let (input, output, vault, r, same) =
        from_params-IsRequested d parse_pubkey key params (some_inj h) in
      record { edge = rw same r.edge }

quote_pair :
    {Decimal : Type 0} (dec : Decimals Decimal) (amm : VaultAmm) (params : QuoteParams)
    {q : Quote Decimal}
    → quote dec amm params ≡ ok q
    → IsPairOf amm params.input_mint params.output_mint
unfolding quote validate_mint_pair
quote_pair dec amm params h = ground arith

-- Whatever an adapter that was constructed from an account, with parameters or by its key, quotes
-- behind refreshes that succeeded or failed, it has a swap for: a request for the same pair in
-- either mode is answered without a panic by as many accounts as announced, which the transfer
-- authority alone signs.
pub vault_quote_executable :
    {Decimal : Type 0} (dec : Decimals Decimal) (d : Derivation)
    (parse_pubkey : String → Option Pubkey) (keyed_account : KeyedAccount) (slot : ℕ)
    (built : VaultAmm) {now : Life VaultAmm} (params : QuoteParams) (q : Quote Decimal)
    (swap : SwapParams)
    → from_keyed_account d parse_pubkey keyed_account ≡ some (ok built)
    → Reach update (born slot built) now
    → quote dec now.amm params ≡ ok q
    → swap.source_mint ≡ params.input_mint
    → swap.destination_mint ≡ params.output_mint
    → (metas : List AccountMeta) × (get_swap_and_account_metas d now.amm swap
        ≡ some (ok (record { swap = token_swap; account_metas = metas })))
      × (length metas ≡ get_accounts_len now.amm)
      × (signers metas ≡ swap.token_transfer_authority ∷ [])
unfolding from_keyed_account
vault_quote_executable dec d parse_pubkey account slot built {now} params q swap h r quoted from
      to =
    let c = keyed-IsConversion d parse_pubkey account.key account.params h in
    let (same, _) = vault_quote_covered dec built params q slot r quoted in
    let (input, output) = quote_pair dec now.amm params quoted in
    vault_swap_total d now.amm swap
      (subst (λ a. IsEdge a.input_mint a.output_mint a.output_vault) (sym same) c.edge)
      (from ∙ input, to ∙ output)
