-- ===== src/State/MintState/Policy.antt =====
-- The quote-mint policy of src/state/mint_state.rs: what an accepted mint is.
use drfraudsworth_jupiter_ad.Prelude.{
  ℕ, ◌≡◌, ◌⊎◌, ◌↔◌, true, false, inl, inr, none, some, List, arith, ok, >>=-eq-ok, ok_or_ok, ok_or,
  Error,
}
use drfraudsworth_jupiter_ad.Pubkey.{Pubkey}
use drfraudsworth_jupiter_ad.Addresses.{spl_token_program_id, token_2022_program_id}
use drfraudsworth_jupiter_ad.State.MintState.{
  TransferFee, TransferFeeConfig, ExtensionType, transfer_fee_config, non_transferable,
  default_account_state, pausable, MintLibrary, contains, check_transfer_fee, check_default_state,
  check_pausable, check_extensions, check_token_2022, validate_quote_mint,
}

abbrev IsZero : TransferFee → Type 0
IsZero fee = (fee.transfer_fee_basis_points ≡ 0) × (fee.maximum_fee ≡ 0)

module _ {Mint : Type 0} (lib : MintLibrary Mint) where
  open lib use {
    classic_unpacks, unpack, get_extension_types, get_transfer_fee_config, get_hook_program_id,
    get_default_account_state, get_paused, initialized_state,
  }

  -- Each extension is absent, or present in a state in which the mint moves nominal amounts.
  abbrev TakesNoFee : Mint → List ExtensionType → Type 0
  TakesNoFee mint extensions =
      (contains extensions transfer_fee_config ≡ false)
      ⊎ ((fees : TransferFeeConfig) × (get_transfer_fee_config mint ≡ some fees)
          × IsZero fees.older_transfer_fee
          × IsZero fees.newer_transfer_fee)

  abbrev OpensAccounts : Mint → List ExtensionType → Type 0
  OpensAccounts mint extensions =
      (contains extensions default_account_state ≡ false)
      ⊎ (get_default_account_state mint ≡ some initialized_state)

  abbrev IsRunning : Mint → List ExtensionType → Type 0
  IsRunning mint extensions =
      (contains extensions pausable ≡ false) ⊎ (get_paused mint ≡ some false)

  abbrev PreservesAmounts : Mint → List ExtensionType → Type 0
  PreservesAmounts mint extensions =
      TakesNoFee mint extensions
      × (get_hook_program_id mint ≡ none)
      × (contains extensions non_transferable ≡ false)
      × OpensAccounts mint extensions
      × IsRunning mint extensions

  -- The quote mints of the policy: classic SPL mints, and Token-2022 mints that take no fee now or
  -- later, run no hook, are transferable, open their accounts initialized and are not paused.
  abbrev pub IsAdmissible : List ℕ → Pubkey → Pubkey → Type 0
  IsAdmissible bytes owner program =
      (owner ≡ program)
      × (((owner ≡ spl_token_program_id) × (classic_unpacks bytes ≡ true))
          ⊎ ((owner ≡ token_2022_program_id)
              × ((mint : Mint) × (extensions : List ExtensionType) × (unpack bytes ≡ some mint)
                  × (get_extension_types mint ≡ some extensions)
                  × PreservesAmounts mint extensions)))

  check_transfer_fee_iff :
      (mint : Mint)
      → (check_transfer_fee lib mint ≡ ok tt) ↔ (
          (fees : TransferFeeConfig) × (get_transfer_fee_config mint ≡ some fees)
          × IsZero fees.older_transfer_fee
          × IsZero fees.newer_transfer_fee)
  unfolding check_transfer_fee
  check_transfer_fee_iff mint = (λ h. ground arith, λ c. ground arith)

  check_default_state_iff :
      (mint : Mint)
      → (check_default_state lib mint ≡ ok tt)
        ↔ (get_default_account_state mint ≡ some initialized_state)
  unfolding check_default_state
  check_default_state_iff mint = (λ h. ground arith, λ c. ground arith)

  check_pausable_iff :
      (mint : Mint) → (check_pausable lib mint ≡ ok tt) ↔ (get_paused mint ≡ some false)
  unfolding check_pausable
  check_pausable_iff mint = (λ h. ground arith, λ c. ground arith)

  check_extensions_iff :
      (mint : Mint) (extensions : List ExtensionType)
      → (check_extensions lib mint extensions ≡ ok tt) ↔ PreservesAmounts mint extensions
  unfolding check_extensions
  check_extensions_iff mint extensions = (
    (λ h. ground (
      arith,
      (check_transfer_fee_iff mint).0,
      (check_default_state_iff mint).0,
      (check_pausable_iff mint).0,
    )),
    (λ c. ground (
      arith,
      (check_transfer_fee_iff mint).1,
      (check_default_state_iff mint).1,
      (check_pausable_iff mint).1,
    )),
  )

  token_2022-IsAdmissible :
      (bytes : List ℕ)
      → check_token_2022 lib bytes ≡ ok tt
      → (mint : Mint) × (extensions : List ExtensionType) × (unpack bytes ≡ some mint)
        × (get_extension_types mint ≡ some extensions)
        × PreservesAmounts mint extensions
  unfolding check_token_2022
  token_2022-IsAdmissible bytes h =
      let (mint, em, rest) = >>=-eq-ok (ok_or (unpack bytes) Error.invalid_mint) _ h in
      let (extensions, ee, done) =
        >>=-eq-ok (ok_or (get_extension_types mint) Error.invalid_extensions) _ rest in
      (
        mint,
        extensions,
        ok_or_ok _ Error.invalid_mint em,
        ok_or_ok _ Error.invalid_extensions ee,
        (check_extensions_iff mint extensions).0 done,
      )

  token_2022-accepted :
      (bytes : List ℕ) (mint : Mint) (extensions : List ExtensionType)
      → unpack bytes ≡ some mint
      → get_extension_types mint ≡ some extensions
      → PreservesAmounts mint extensions
      → check_token_2022 lib bytes ≡ ok tt
  unfolding check_token_2022
  token_2022-accepted bytes mint extensions em ee h =
      rw (em, ee) ((check_extensions_iff mint extensions).1 h)

  validate_quote_mint-IsAdmissible :
      (bytes : List ℕ) (owner program : Pubkey)
      → validate_quote_mint lib bytes owner program ≡ ok tt
      → IsAdmissible bytes owner program
  unfolding validate_quote_mint
  validate_quote_mint-IsAdmissible bytes owner program h =
      ground (arith, token_2022-IsAdmissible bytes)

  IsAdmissible-validate_quote_mint :
      (bytes : List ℕ) (owner program : Pubkey)
      → IsAdmissible bytes owner program
      → validate_quote_mint lib bytes owner program ≡ ok tt
  unfolding validate_quote_mint
  IsAdmissible-validate_quote_mint bytes owner program (same, inl (classic, unpacks)) = ground arith
  IsAdmissible-validate_quote_mint bytes owner program (same, inr (new, (mint, exts, em, ee, h))) =
      ground (arith, token_2022-accepted bytes mint exts em ee h)

  -- A quote mint is accepted exactly where it is admissible.
  pub validate_quote_mint_iff :
      (bytes : List ℕ) (owner program : Pubkey)
      → (validate_quote_mint lib bytes owner program ≡ ok tt) ↔ IsAdmissible bytes owner program
  validate_quote_mint_iff bytes owner program = (
    validate_quote_mint-IsAdmissible bytes owner program,
    IsAdmissible-validate_quote_mint bytes owner program,
  )
