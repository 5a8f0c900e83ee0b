-- ===== src/Jupiter.antt =====
-- What the adapter takes from jupiter_amm_interface, rust_decimal and serde_json: the data that
-- crosses the `Amm` trait, the decimals of a fee percentage, and what the parameters of a keyed
-- account answer.
pub mod Life
use Prim.Native.String.{String}
use drfraudsworth_jupiter_ad.Prelude.{ℕ, Option, List}
use drfraudsworth_jupiter_ad.Pubkey.{Pubkey}
use drfraudsworth_jupiter_ad.Solana.{AccountMeta}

-- The data and the owner of an account.
pub record Account : Type 0 where
  pub bytes : List ℕ
  pub owner : Pubkey

-- An `AccountMap`, as `try_get_account_data_and_owner` answers for each address: `none` is its
-- error. `try_get_account_data` answers with the data alone.
abbrev pub AccountMap : Type 0
AccountMap = Pubkey → Option Account

-- `params.get(name).and_then(|v| v.as_str())` for each name.
abbrev pub Params : Type 0
Params = String → Option String

pub record KeyedAccount : Type 0 where
  pub key : Pubkey
  pub account : Account
  pub params : Option Params

pub data SwapMode : Type 0 where
  exact_in exact_out : SwapMode

pub record QuoteParams : Type 0 where
  pub amount : ℕ
  pub input_mint : Pubkey
  pub output_mint : Pubkey
  pub swap_mode : SwapMode

-- `rust_decimal::Decimal`.
pub record Decimals (Decimal : Type 0) : Type 0 where
  pub from_u32 : ℕ → Decimal
  pub divide : Decimal → Decimal → Decimal
  pub zero_decimal : Decimal

pub record Quote (Decimal : Type 0) : Type 0 where
  pub in_amount : ℕ
  pub out_amount : ℕ
  pub fee_amount : ℕ
  pub fee_mint : Pubkey
  pub fee_pct : Decimal

pub record SwapParams : Type 0 where
  pub swap_mode : SwapMode
  pub source_mint : Pubkey
  pub destination_mint : Pubkey
  pub source_token_account : Pubkey
  pub destination_token_account : Pubkey
  pub token_transfer_authority : Pubkey

-- The one swap that the adapter names.
pub data Swap : Type 0 where
  token_swap : Swap

pub record SwapAndAccountMetas : Type 0 where
  pub swap : Swap
  pub account_metas : List AccountMeta
