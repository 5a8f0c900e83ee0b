-- ===== src/State/MintState/Tests.antt =====
-- The unit tests of src/state/mint_state.rs, for any library of mints and any bytes of which it answers
-- what the test packs into them.
use drfraudsworth_jupiter_ad.Prelude.{
  ℕ, ◌≡◌, ◌≢◌, refl, Bool, true, false, Option, none, some, List, [], ◌∷◌, ◌++◌, ◌==◌, ok, err,
  Error, is_err, is_some, arith,
}
use drfraudsworth_jupiter_ad.Pubkey.{Pubkey}
use drfraudsworth_jupiter_ad.Addresses.{spl_token_program_id, token_2022_program_id}
use drfraudsworth_jupiter_ad.State.MintState.{
  TransferFee, TransferFeeConfig, ExtensionType, transfer_fee_config, non_transferable,
  default_account_state, pausable, other, MintLibrary, schedule_is_zero, contains,
  check_transfer_fee, check_default_state, check_pausable, check_extensions, check_token_2022,
  validate_quote_mint,
}

same_state : (state : ℕ) → (state == state) ≡ true
same_state state = ground arith

other_state : (state state' : ℕ) → state ≢ state' → (state == state') ≡ false
other_state state state' ne = ground arith

-- A schedule from its basis points and its maximum fee.
abbrev transfer_fee : ℕ × ℕ → TransferFee
transfer_fee (bps, maximum_fee) = record {
  transfer_fee_basis_points = bps;
  maximum_fee = maximum_fee;
}

abbrev or_zero : Option (ℕ × ℕ) → ℕ × ℕ
or_zero none = (0, 0)
or_zero (some fee) = fee

-- The types of the extensions that are packed. A transfer hook has the type number 14.
abbrev pushed : Bool → ExtensionType → List ExtensionType
pushed true extension = extension ∷ []
pushed false extension = []

abbrev fees_of : Option (ℕ × ℕ) → Option (ℕ × ℕ) → Option TransferFeeConfig
fees_of none none = none
fees_of older newer = some (record {
  older_transfer_fee = transfer_fee (or_zero older);
  newer_transfer_fee = transfer_fee (or_zero newer);
})

module _ {Mint : Type 0} (lib : MintLibrary Mint) where
  -- What the library answers of the bytes of a Token-2022 mint.
  record Packed (types : List ExtensionType) (fees : Option TransferFeeConfig)
      (hook : Option Pubkey) (state : Option ℕ) (paused : Option Bool) (bytes : List ℕ)
      : Type 0 where
    pub mint : Mint
    pub unpacks : lib.unpack bytes ≡ some mint
    pub types_read : lib.get_extension_types mint ≡ some types
    pub fees_read : lib.get_transfer_fee_config mint ≡ fees
    pub hook_read : lib.get_hook_program_id mint ≡ hook
    pub state_read : lib.get_default_account_state mint ≡ state
    pub paused_read : lib.get_paused mint ≡ paused

  abbrev Token2022Mint : Option (ℕ × ℕ) → Option (ℕ × ℕ) → Option Pubkey → Bool → List ℕ → Type 0
  Token2022Mint older newer hook include_hook bytes =
      Packed
        (pushed (is_some (fees_of older newer)) transfer_fee_config
          ++ pushed include_hook (other 14))
        (fees_of older newer) hook none none bytes

  abbrev TransferGateMint : Option ℕ → Option Bool → Bool → List ℕ → Type 0
  TransferGateMint state paused non_transferable? bytes =
      Packed
        (pushed (is_some state) default_account_state
          ++ (pushed (is_some paused) pausable ++ pushed non_transferable? non_transferable))
        none none state paused bytes

  -- The body of the loop over the fees.
  abbrev RejectsFees : Option (ℕ × ℕ) → Option (ℕ × ℕ) → Type 0
  RejectsFees older newer =
      (bytes : List ℕ)
      → Token2022Mint older newer none false bytes
      → validate_quote_mint lib bytes token_2022_program_id token_2022_program_id
        ≡ err Error.nonzero_fee

  abbrev ClassicInitializedMintIsAccepted : Type 0
  ClassicInitializedMintIsAccepted =
      (bytes : List ℕ)
      → lib.classic_unpacks bytes ≡ true
      → validate_quote_mint lib bytes spl_token_program_id spl_token_program_id ≡ ok tt

  abbrev OwnerMustMatchPoolState : Type 0
  OwnerMustMatchPoolState =
      is_err (validate_quote_mint lib [] token_2022_program_id spl_token_program_id) ≡ true

  abbrev Token2022WithoutAmountChangingExtensionsIsAccepted : Type 0
  Token2022WithoutAmountChangingExtensionsIsAccepted =
      (bytes : List ℕ)
      → Token2022Mint none none none false bytes
      → validate_quote_mint lib bytes token_2022_program_id token_2022_program_id ≡ ok tt

  abbrev ZeroCurrentAndScheduledTransferFeesAreAccepted : Type 0
  ZeroCurrentAndScheduledTransferFeesAreAccepted =
      (bytes : List ℕ)
      → Token2022Mint (some (0, 0)) (some (0, 0)) none false bytes
      → validate_quote_mint lib bytes token_2022_program_id token_2022_program_id ≡ ok tt

  abbrev EveryNonzeroTransferFeeComponentIsRejected : Type 0
  EveryNonzeroTransferFeeComponentIsRejected =
      (RejectsFees (some (1, 0)) (some (0, 0)))
      × (RejectsFees (some (0, 1)) (some (0, 0)))
      × (RejectsFees (some (0, 0)) (some (1, 0)))
      × (RejectsFees (some (0, 0)) (some (0, 1)))

  abbrev ArmedQuoteHookIsRejectedButUnarmedExtensionIsAccepted : Type 0
  ArmedQuoteHookIsRejectedButUnarmedExtensionIsAccepted =
      (((bytes : List ℕ)
        → Token2022Mint none none none true bytes
        → validate_quote_mint lib bytes token_2022_program_id token_2022_program_id ≡ ok tt))
      × (((bytes : List ℕ) (program : Pubkey)
          → Token2022Mint none none (some program) true bytes
          → validate_quote_mint lib bytes token_2022_program_id token_2022_program_id
            ≡ err Error.armed_hook))

  abbrev TransferableProfilesAcceptInitializedAndUnpausedMints : Type 0
  TransferableProfilesAcceptInitializedAndUnpausedMints =
      (bytes : List ℕ)
      → TransferGateMint (some lib.initialized_state) (some false) false bytes
      → validate_quote_mint lib bytes token_2022_program_id token_2022_program_id ≡ ok tt

  abbrev BlockedTransferProfilesAreRejected : Type 0
  BlockedTransferProfilesAreRejected =
      (bytes : List ℕ) (frozen : ℕ)
      → frozen ≢ lib.initialized_state
      → ((TransferGateMint (some frozen) none false bytes
          → validate_quote_mint lib bytes token_2022_program_id token_2022_program_id
            ≡ err Error.default_state_frozen))
        × ((TransferGateMint none (some true) false bytes
            → validate_quote_mint lib bytes token_2022_program_id token_2022_program_id
              ≡ err Error.mint_paused))
        × ((TransferGateMint none none true bytes
            → validate_quote_mint lib bytes token_2022_program_id token_2022_program_id
              ≡ err Error.non_transferable))

  -- These tests pass.
  tests_hold :
      ClassicInitializedMintIsAccepted × OwnerMustMatchPoolState
      × Token2022WithoutAmountChangingExtensionsIsAccepted
      × ZeroCurrentAndScheduledTransferFeesAreAccepted × EveryNonzeroTransferFeeComponentIsRejected
      × ArmedQuoteHookIsRejectedButUnarmedExtensionIsAccepted
      × TransferableProfilesAcceptInitializedAndUnpausedMints × BlockedTransferProfilesAreRejected
  unfolding validate_quote_mint check_token_2022 check_extensions check_transfer_fee
      check_default_state check_pausable schedule_is_zero contains
  tests_hold = (
    (λ bytes h. rw h refl),
    refl,
    (λ bytes p. rw (p.unpacks, p.types_read, p.hook_read) refl),
    (λ bytes p. rw (p.unpacks, p.types_read, p.fees_read, p.hook_read) refl),
    (
      (λ bytes p. rw (p.unpacks, p.types_read, p.fees_read) refl),
      (λ bytes p. rw (p.unpacks, p.types_read, p.fees_read) refl),
      (λ bytes p. rw (p.unpacks, p.types_read, p.fees_read) refl),
      (λ bytes p. rw (p.unpacks, p.types_read, p.fees_read) refl),
    ),
    (
      (λ bytes p. rw (p.unpacks, p.types_read, p.hook_read) refl),
      λ bytes program p. rw (p.unpacks, p.types_read, p.hook_read) refl,
    ),
    (λ bytes p.
        rw
          (
            p.unpacks,
            p.types_read,
            p.hook_read,
            p.state_read,
            p.paused_read,
            same_state lib.initialized_state,
          )
          refl),
    (λ bytes frozen ne. (
      (λ p.
          rw
            (
              p.unpacks,
              p.types_read,
              p.hook_read,
              p.state_read,
              other_state frozen lib.initialized_state ne,
            )
            refl),
      (λ p. rw (p.unpacks, p.types_read, p.hook_read, p.paused_read) refl),
      λ p. rw (p.unpacks, p.types_read, p.hook_read) refl,
    )),
  )
