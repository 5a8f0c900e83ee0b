-- ===== src/VaultAmm.antt =====
-- src/vault_amm.rs: the adapter of one directed conversion of the vault. Where the
-- source panics (`expect`), the answer is `none`.
pub mod Labels
pub mod Edges
pub mod Answers
pub mod Requests
pub mod Lifecycle
pub mod Execution
pub mod Traits
mod Tests
mod MintPairs
use Prim.Native.String.{String}
use drfraudsworth_jupiter_ad.Prelude.{
  ℕ, Bool, true, false, not, ◌&&◌, ◌||◌, Option, none, some, List, [], ◌∷◌, ◌++◌, ltb, ◌==◌,
  if◌then◌else◌, Result, ok, err, Error, ◌>>=◌, ◌>>◌, bail_if, ok_or, ◌>>=?◌,
}
use drfraudsworth_jupiter_ad.Words.{u64_max}
use drfraudsworth_jupiter_ad.Pubkey.{Pubkey, as_ref}
use drfraudsworth_jupiter_ad.Solana.{Derivation}
use drfraudsworth_jupiter_ad.Jupiter.{
  AccountMap, Params, KeyedAccount, QuoteParams, Decimals, Quote, SwapParams, SwapAndAccountMetas,
  token_swap,
}
use drfraudsworth_jupiter_ad.Addresses.{
  conversion_vault_program_id, crime_mint, crime_sol_pool, fraud_mint, fraud_sol_pool, profit_mint,
  vault_config_pda, vault_crime, vault_fraud, vault_profit,
}
use drfraudsworth_jupiter_ad.State.TokenAccount.{parse_token_account_amount}
use drfraudsworth_jupiter_ad.Math.VaultMath.{compute_vault_output}
use drfraudsworth_jupiter_ad.Accounts.VaultAccounts.{build_vault_account_metas}
use drfraudsworth_jupiter_ad.VaultAmm.Labels.{format_label}
use drfraudsworth_jupiter_ad.SolPoolAmm.Quoting.{is_exact_out}

pub record VaultAmm : Type 0 where
  pub key : Pubkey
  pub input_mint : Pubkey
  pub output_mint : Pubkey
  pub label_suffix : String
  pub output_vault : Pubkey
  pub output_vault_balance : ℕ

-- `b"jup_vault"`.
abbrev pub jup_vault_seed : List ℕ
jup_vault_seed = b'j' ∷ b'u' ∷ b'p' ∷ b'_' ∷ b'v' ∷ b'a' ∷ b'u' ∷ b'l' ∷ b't' ∷ []

unfoldable pub derive_synthetic_key : Derivation → Pubkey → Pubkey → Pubkey
derive_synthetic_key d input_mint output_mint =
    (d.find_program_address (jup_vault_seed ∷ as_ref input_mint ∷ as_ref output_mint ∷ [])
      conversion_vault_program_id).0

unfoldable pub vault_for_mint : Pubkey → Option Pubkey
vault_for_mint mint =
    if mint == crime_mint
    then some vault_crime
    else if mint == fraud_mint
    then some vault_fraud
    else if mint == profit_mint
    then some vault_profit
    else none

-- The panic of its `expect` is `none` as well: a supported output is a protocol mint.
unfoldable pub conversion_output_vault : Pubkey → Pubkey → Option Pubkey
conversion_output_vault input_mint output_mint =
    let into_profit =
      (input_mint == crime_mint || input_mint == fraud_mint) && output_mint == profit_mint in
    let from_profit =
      input_mint == profit_mint && (output_mint == crime_mint || output_mint == fraud_mint) in
    if into_profit || from_profit then vault_for_mint output_mint else none

module _ (d : Derivation) where
  -- The instance of a pair, with the balance uncapped.
  unfoldable pub instance_of : Pubkey → Pubkey → String → Pubkey → VaultAmm
  instance_of input output label output_vault = record {
    key = derive_synthetic_key d input output;
    input_mint = input;
    output_mint = output;
    label_suffix = label;
    output_vault = output_vault;
    output_vault_balance = u64_max;
  }

  -- The `map` over the pairs.
  unfoldable pub instances_of : List (Pubkey × Pubkey × String) → Option (List (Pubkey × VaultAmm))
  instances_of [] = some []
  instances_of ((input, output, label) ∷ pairs) =
      let rest = instances_of pairs in
      vault_for_mint output >>=? λ output_vault. rest >>=? λ instances. some (
        (derive_synthetic_key d input output, instance_of input output label output_vault)
        ∷ instances)

  abbrev pub known_pairs : List (Pubkey × Pubkey × String)
  known_pairs =
      (crime_mint, profit_mint, "CRIME/PROFIT Vault")
      ∷ (fraud_mint, profit_mint, "FRAUD/PROFIT Vault")
      ∷ (profit_mint, crime_mint, "PROFIT/CRIME Vault")
      ∷ (profit_mint, fraud_mint, "PROFIT/FRAUD Vault")
      ∷ []

  unfoldable pub known_instances : Option (List (Pubkey × VaultAmm))
  known_instances = instances_of known_pairs

  -- The fallback's loop.
  unfoldable pub find_instance : Pubkey → List (Pubkey × VaultAmm) → Result VaultAmm
  find_instance key [] = err Error.unknown_key
  find_instance key ((k, found) ∷ instances) =
      let rest = find_instance key instances in if k == key then ok found else rest

  module _ (parse_pubkey : String → Option Pubkey) where
    -- The branch of an account with parameters.
    unfoldable pub from_params : Pubkey → Params → Result VaultAmm
    from_params key params = do
      input_mint_str ← ok_or (params "input_mint") Error.missing_input_mint
      output_mint_str ← ok_or (params "output_mint") Error.missing_output_mint
      input_mint ← ok_or (parse_pubkey input_mint_str) Error.invalid_input_mint
      output_mint ← ok_or (parse_pubkey output_mint_str) Error.invalid_output_mint
      output_vault ←
          ok_or (conversion_output_vault input_mint output_mint) Error.unsupported_direction
      ok (record {
        key = key;
        input_mint = input_mint;
        output_mint = output_mint;
        label_suffix = format_label input_mint output_mint;
        output_vault = output_vault;
        output_vault_balance = u64_max;
      })

    unfoldable pub keyed : Pubkey → Option Params → Option (Result VaultAmm)
    keyed key (some params) = some (from_params key params)
    keyed key none = known_instances >>=? λ instances. some (find_instance key instances)

    unfoldable pub from_keyed_account : KeyedAccount → Option (Result VaultAmm)
    from_keyed_account keyed_account = keyed keyed_account.key keyed_account.params

  unfoldable pub new_for_testing : Pubkey → Pubkey → Option VaultAmm
  new_for_testing input_mint output_mint =
      conversion_output_vault input_mint output_mint >>=? λ output_vault.
      some (instance_of input_mint output_mint (format_label input_mint output_mint) output_vault)

  -- The keys of the pools for the discovery.
  abbrev pub keys_of : List (Pubkey × VaultAmm) → List Pubkey
  keys_of [] = []
  keys_of ((key, _) ∷ instances) = key ∷ keys_of instances

  abbrev pub known_sol_pool_keys : List Pubkey
  known_sol_pool_keys = crime_sol_pool ∷ fraud_sol_pool ∷ []

  unfoldable pub all_pool_keys : Option (List Pubkey)
  all_pool_keys = known_instances >>=? λ instances. some (known_sol_pool_keys ++ keys_of instances)

-- The accessors of the trait.
unfoldable pub get_reserve_mints : VaultAmm → List Pubkey
get_reserve_mints amm = amm.input_mint ∷ amm.output_mint ∷ []

unfoldable pub get_accounts_to_update : VaultAmm → List Pubkey
get_accounts_to_update amm = vault_config_pda ∷ amm.output_vault ∷ []

unfoldable pub get_accounts_len : VaultAmm → ℕ
get_accounts_len amm = 17

unfoldable pub underlying_liquidities : VaultAmm → List Pubkey
underlying_liquidities amm = amm.output_vault ∷ []

abbrev pub is_empty : List ℕ → Bool
is_empty [] = true
is_empty (_ ∷ _) = false

-- The balance that a refresh reads.
unfoldable pub refreshed_balance : VaultAmm → AccountMap → Result ℕ
refreshed_balance amm accounts = do
  config ← ok_or (accounts vault_config_pda) Error.missing_account
  bail_if (is_empty config.bytes) Error.empty_config
  vault ← ok_or (accounts amm.output_vault) Error.missing_account
  parse_token_account_amount vault.bytes amm.output_mint

-- The assignment, behind every check.
unfoldable pub set_balance : VaultAmm → Result ℕ → VaultAmm × Result (Unit {0})
set_balance amm (ok balance) = (record amm { output_vault_balance = balance }, ok tt)
set_balance amm (err e) = (amm, err e)

unfoldable pub update : VaultAmm → AccountMap → VaultAmm × Result (Unit {0})
update amm accounts = set_balance amm (refreshed_balance amm accounts)

unfoldable pub validate_mint_pair : VaultAmm → Pubkey → Pubkey → Result (Unit {0})
validate_mint_pair amm input output =
    bail_if (not (input == amm.input_mint) || not (output == amm.output_mint)) Error.mint_pair

module _ {Decimal : Type 0} (dec : Decimals Decimal) where
  unfoldable pub quote : VaultAmm → QuoteParams → Result (Quote Decimal)
  quote amm params = do
    bail_if (is_exact_out params.swap_mode) Error.exact_out
    validate_mint_pair amm params.input_mint params.output_mint
    out_amount ←
        ok_or (compute_vault_output amm.input_mint amm.output_mint params.amount)
          Error.conversion_failed
    bail_if (ltb amm.output_vault_balance out_amount) Error.insufficient_liquidity
    ok (record {
      in_amount = params.amount;
      out_amount = out_amount;
      fee_amount = 0;
      fee_mint = amm.input_mint;
      fee_pct = dec.zero_decimal;
    })

module _ (d : Derivation) where
  -- The account list, or the panic of a mint that is not the protocol's.
  unfoldable pub swap_metas : VaultAmm → SwapParams → Option SwapAndAccountMetas
  swap_metas amm params =
      build_vault_account_metas d params.token_transfer_authority params.source_token_account
        params.destination_token_account amm.input_mint amm.output_mint
      >>=? λ account_metas. some (record { swap = token_swap; account_metas = account_metas })

  abbrev pub behind :
      Result (Unit {0}) → Option SwapAndAccountMetas → Option (Result SwapAndAccountMetas)
  behind (err e) metas = some (err e)
  behind (ok _) metas = metas >>=? λ m. some (ok m)

  unfoldable pub get_swap_and_account_metas :
      VaultAmm → SwapParams → Option (Result SwapAndAccountMetas)
  get_swap_and_account_metas amm params =
      behind (validate_mint_pair amm params.source_mint params.destination_mint)
        (swap_metas amm params)
