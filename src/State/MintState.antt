-- ===== src/State/MintState.antt =====
-- src/state/mint_state.rs: which quote mints preserve amounts. The unpacking of a mint and of its
-- Token-2022 extensions is spl_token's and spl_token_2022's: a parameter.
pub mod Policy
mod Tests
use drfraudsworth_jupiter_ad.Prelude.{
  ℕ, Bool, true, false, not, ◌&&◌, ◌||◌, Option, none, some, List, [], ◌∷◌, ◌==◌, if◌then◌else◌,
  Result, ok, err, Error, ◌>>=◌, ◌>>◌, bail_if, ok_or,
}
use drfraudsworth_jupiter_ad.Pubkey.{Pubkey}
use drfraudsworth_jupiter_ad.Addresses.{spl_token_program_id, token_2022_program_id}

-- `spl_token_2022::extension::transfer_fee`.
pub record TransferFee : Type 0 where
  pub transfer_fee_basis_points : ℕ
  pub maximum_fee : ℕ

pub record TransferFeeConfig : Type 0 where
  pub older_transfer_fee : TransferFee
  pub newer_transfer_fee : TransferFee

-- The extension types that the policy names, and any other by its number.
pub data ExtensionType : Type 0 where
  transfer_fee_config non_transferable default_account_state pausable : ExtensionType
  other : ℕ → ExtensionType

-- What spl_token and spl_token_2022 answer about the bytes of a mint: whether a classic mint
-- unpacks, a Token-2022 mint with its list of extension types, each extension (`none` is an error),
-- the program of the transfer hook, and `AccountState::Initialized as u8`.
pub record MintLibrary (Mint : Type 0) : Type 0 where
  pub classic_unpacks : List ℕ → Bool
  pub unpack : List ℕ → Option Mint
  pub get_extension_types : Mint → Option (List ExtensionType)
  pub get_transfer_fee_config : Mint → Option TransferFeeConfig
  pub get_hook_program_id : Mint → Option Pubkey
  pub get_default_account_state : Mint → Option ℕ
  pub get_paused : Mint → Option Bool
  pub initialized_state : ℕ

unfoldable pub schedule_is_zero : TransferFee → Bool
schedule_is_zero schedule = schedule.transfer_fee_basis_points == 0 && schedule.maximum_fee == 0

-- `==` on the types that are searched for.
abbrev pub same_type : ExtensionType → ExtensionType → Bool
same_type transfer_fee_config transfer_fee_config = true
same_type non_transferable non_transferable = true
same_type default_account_state default_account_state = true
same_type pausable pausable = true
same_type (other m) (other n) = m == n
same_type _ _ = false

unfoldable pub contains : List ExtensionType → ExtensionType → Bool
contains [] e = false
contains (x ∷ xs) e = same_type x e || contains xs e

module _ {Mint : Type 0} (lib : MintLibrary Mint) where
  open lib use {
    classic_unpacks, unpack, get_extension_types, get_transfer_fee_config, get_hook_program_id,
    get_default_account_state, get_paused, initialized_state,
  }

  -- The transfer-fee extension, where there is one.
  unfoldable pub check_transfer_fee : Mint → Result (Unit {0})
  unfolding schedule_is_zero
  check_transfer_fee mint = do
    fees ← ok_or (get_transfer_fee_config mint) Error.invalid_fee_config
    bail_if
        (not (schedule_is_zero fees.older_transfer_fee)
          || not (schedule_is_zero fees.newer_transfer_fee))
        Error.nonzero_fee

  unfoldable pub check_default_state : Mint → Result (Unit {0})
  check_default_state mint = do
    state ← ok_or (get_default_account_state mint) Error.invalid_default_state
    bail_if (not (state == initialized_state)) Error.default_state_frozen

  unfoldable pub check_pausable : Mint → Result (Unit {0})
  check_pausable mint = do
    paused ← ok_or (get_paused mint) Error.invalid_pausable
    bail_if paused Error.mint_paused

  abbrev is_some : Option Pubkey → Bool
  is_some none = false
  is_some (some _) = true

  -- The gates behind the unpacking of a Token-2022 mint.
  unfoldable pub check_extensions : Mint → List ExtensionType → Result (Unit {0})
  check_extensions mint extensions = do
    if contains extensions transfer_fee_config then check_transfer_fee mint else ok tt
    bail_if (is_some (get_hook_program_id mint)) Error.armed_hook
    bail_if (contains extensions non_transferable) Error.non_transferable
    if contains extensions default_account_state then check_default_state mint else ok tt
    if contains extensions pausable then check_pausable mint else ok tt

  unfoldable pub check_token_2022 : List ℕ → Result (Unit {0})
  check_token_2022 bytes = do
    mint ← ok_or (unpack bytes) Error.invalid_mint
    extensions ← ok_or (get_extension_types mint) Error.invalid_extensions
    check_extensions mint extensions

  unfoldable pub validate_quote_mint : List ℕ → Pubkey → Pubkey → Result (Unit {0})
  validate_quote_mint bytes owner expected_program = do
    bail_if (not (owner == expected_program)) Error.wrong_mint_owner
    if owner == spl_token_program_id
        then (if classic_unpacks bytes then ok tt else err Error.invalid_classic_mint)
        else (bail_if (not (owner == token_2022_program_id)) Error.unsupported_mint_owner
            >> check_token_2022 bytes)
