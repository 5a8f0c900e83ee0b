-- ===== src/VaultAmm/Answers.antt =====
-- What the adapter of src/vault_amm.rs answers: its quotes, refreshes and account lists.
use drfraudsworth_jupiter_ad.Prelude.{
  ℕ, ◌≤◌, ◌≡◌, ◌≢◌, ◌↔◌, refl, false, arith, some, List, [], ◌∷◌, length, Result, ok, err, Error,
  ok_or, ok_or_ok, >>=-eq-ok, bail_if-ok, false-bail_if, ◌∙◌,
}
use drfraudsworth_jupiter_ad.Pubkey.{Pubkey}
use drfraudsworth_jupiter_ad.Solana.{AccountMeta, Derivation, signers}
use drfraudsworth_jupiter_ad.Jupiter.{
  Account, AccountMap, QuoteParams, Decimals, Quote, SwapParams, exact_in, token_swap,
}
use drfraudsworth_jupiter_ad.Addresses.{vault_config_pda}
use drfraudsworth_jupiter_ad.Math.VaultMath.{compute_vault_output}
use drfraudsworth_jupiter_ad.Math.VaultMath.Conversion.{Converts, vault_output_iff}
use drfraudsworth_jupiter_ad.State.TokenAccount.{parse_token_account_amount}
use drfraudsworth_jupiter_ad.Accounts.VaultAccounts.Shape.{IsProtocol, vault_metas_shape}
use drfraudsworth_jupiter_ad.VaultAmm.Edges.{IsEdge}
use drfraudsworth_jupiter_ad.VaultAmm.{
  VaultAmm, quote, validate_mint_pair, update, set_balance, refreshed_balance, is_empty,
  get_swap_and_account_metas, swap_metas, get_accounts_len,
}

-- The pair of a request is the adapter's.
abbrev pub IsPairOf : VaultAmm → Pubkey → Pubkey → Type 0
IsPairOf amm input output = (input ≡ amm.input_mint) × (output ≡ amm.output_mint)

module _ {Decimal : Type 0} (dec : Decimals Decimal) where
  -- The quote of a conversion of n into m: no fee.
  abbrev pub free_quote : VaultAmm → ℕ → ℕ → Quote Decimal
  free_quote amm n m = record {
    in_amount = n;
    out_amount = m;
    fee_amount = 0;
    fee_mint = amm.input_mint;
    fee_pct = dec.zero_decimal;
  }

  value_of :
      (amm : VaultAmm) (params : QuoteParams) (m : ℕ)
      → (quote dec amm params ≡ ok (free_quote amm params.amount m)) ↔ (
          (params.swap_mode ≡ exact_in)
          × IsPairOf amm params.input_mint params.output_mint
          × (compute_vault_output amm.input_mint amm.output_mint params.amount ≡ some m)
          × (m ≤ amm.output_vault_balance))
  unfolding quote validate_mint_pair
  value_of amm params m = ((λ h. ground arith), λ c. ground arith)

  -- The adapter quotes m, free of fees, exactly where the request is ExactIn and of its pair, the
  -- vault converts the amount into m, and its balance covers m.
  pub conversion_quote_iff :
      (amm : VaultAmm) (params : QuoteParams) (m : ℕ)
      → (quote dec amm params ≡ ok (free_quote amm params.amount m)) ↔ (
          (params.swap_mode ≡ exact_in)
          × IsPairOf amm params.input_mint params.output_mint
          × Converts amm.input_mint amm.output_mint params.amount m
          × (m ≤ amm.output_vault_balance))
  conversion_quote_iff amm params m =
      let conv = vault_output_iff amm.input_mint amm.output_mint params.amount m in
      (
        (λ h.
            let (mode, pair, out, le) = (value_of amm params m).0 h in
            (mode, pair, conv.0 out, le)),
        λ (mode, pair, c, le). (value_of amm params m).1 (mode, pair, conv.1 c, le),
      )

  -- Whatever the adapter quotes is a free quote of the amount.
  quote_free :
      (amm : VaultAmm) (params : QuoteParams) {q : Quote Decimal}
      → quote dec amm params ≡ ok q
      → q ≡ free_quote amm params.amount q.out_amount
  unfolding quote validate_mint_pair
  quote_free amm params h = ground arith

-- The two accounts of a refresh: a configuration that is not empty, and a vault account that the
-- parser reads this balance of the output mint from.
pub record BalanceShows (amm : VaultAmm) (accounts : AccountMap) (balance : ℕ) : Type 0 where
  pub config : Account
  pub config_listed : accounts vault_config_pda ≡ some config
  pub config_filled : config.bytes ≢ []
  pub vault : Account
  pub vault_listed : accounts amm.output_vault ≡ some vault
  pub parsed : parse_token_account_amount vault.bytes amm.output_mint ≡ ok balance

not_empty : (bytes : List ℕ) → is_empty bytes ≡ false → bytes ≢ []
not_empty [] h = cc
not_empty (b ∷ bytes) h = λ e. cc

empty_not : (bytes : List ℕ) → bytes ≢ [] → is_empty bytes ≡ false
empty_not [] h = absurd (h refl)
empty_not (b ∷ bytes) h = refl

set_ok :
    (amm : VaultAmm) (r : Result ℕ) (balance : ℕ)
    → set_balance amm r ≡ (record amm { output_vault_balance = balance }, ok tt)
    → r ≡ ok balance
unfolding set_balance
set_ok amm (ok b) balance h = ground arith
set_ok amm (err e) balance h = cc

set_value :
    (amm : VaultAmm) (balance : ℕ)
    → set_balance amm (ok balance) ≡ (record amm { output_vault_balance = balance }, ok tt)
unfolding set_balance
set_value amm balance = refl

set_err :
    (amm : VaultAmm) (r : Result ℕ) {amm' : VaultAmm} {e : Error}
    → set_balance amm r ≡ (amm', err e)
    → (amm' ≡ amm) × (r ≡ err e)
unfolding set_balance
set_err amm (ok b) h = (cc, cc)
set_err amm (err e) h = (cc, cc)

balance_iff :
    (amm : VaultAmm) (accounts : AccountMap) (balance : ℕ)
    → (refreshed_balance amm accounts ≡ ok balance) ↔ BalanceShows amm accounts balance
unfolding refreshed_balance
balance_iff amm accounts balance = (
  (λ h.
      let (config, listed, rest) =
        >>=-eq-ok (ok_or (accounts vault_config_pda) Error.missing_account) _ h in
      let (filled, rest) = bail_if-ok (is_empty config.bytes) Error.empty_config _ rest in
      let (vault, vault_listed, parsed) =
        >>=-eq-ok (ok_or (accounts amm.output_vault) Error.missing_account) _ rest in
      record {
        config = config;
        config_listed = ok_or_ok _ _ listed;
        config_filled = not_empty config.bytes filled;
        vault = vault;
        vault_listed = ok_or_ok _ _ vault_listed;
        parsed = parsed;
      }),
  λ s. rw s.config_listed (
      false-bail_if _ Error.empty_config _ (empty_not s.config.bytes s.config_filled)
      ∙ rw s.vault_listed s.parsed),
)

-- A refresh sets the balance to a number, and nothing else, exactly where the configuration is not
-- empty and the output vault's account parses to that number.
pub vault_update_iff :
    (amm : VaultAmm) (accounts : AccountMap) (balance : ℕ)
    → (update amm accounts ≡ (record amm { output_vault_balance = balance }, ok tt))
      ↔ BalanceShows amm accounts balance
unfolding update
vault_update_iff amm accounts balance =
    let shows = balance_iff amm accounts balance in
    (
      (λ h. shows.0 (set_ok amm (refreshed_balance amm accounts) balance h)),
      λ s. rw (shows.1 s) (set_value amm balance),
    )

-- A refresh that fails leaves the adapter as it was: its quotes are those of the last balance.
pub failed_vault_update :
    (amm : VaultAmm) (accounts : AccountMap) {amm' : VaultAmm} {e : Error}
    → update amm accounts ≡ (amm', err e)
    → (amm' ≡ amm) × (refreshed_balance amm accounts ≡ err e)
unfolding update
failed_vault_update amm accounts h = set_err amm (refreshed_balance amm accounts) h

IsEdge-IsProtocol :
    (input output vault : Pubkey) → IsEdge input output vault → IsProtocol input × IsProtocol output
IsEdge-IsProtocol input output vault e = (ground arith, ground arith)

-- The adapter of an edge answers every request of its pair, without a panic, with as many accounts
-- as it announces, of which the transfer authority alone signs.
pub vault_swap_total :
    (d : Derivation) (amm : VaultAmm) (params : SwapParams)
    → IsEdge amm.input_mint amm.output_mint amm.output_vault
    → IsPairOf amm params.source_mint params.destination_mint
    → (metas : List AccountMeta) × (get_swap_and_account_metas d amm params
        ≡ some (ok (record { swap = token_swap; account_metas = metas })))
      × (length metas ≡ get_accounts_len amm)
      × (signers metas ≡ params.token_transfer_authority ∷ [])
unfolding get_swap_and_account_metas swap_metas validate_mint_pair get_accounts_len
vault_swap_total d amm params e (i, o) =
    let (hi, ho) = IsEdge-IsProtocol amm.input_mint amm.output_mint amm.output_vault e in
    let (metas, built, count, signed) =
      vault_metas_shape d params.token_transfer_authority params.source_token_account
        params.destination_token_account amm.input_mint amm.output_mint hi ho in
    (metas, rw built (ground arith), count, signed)
