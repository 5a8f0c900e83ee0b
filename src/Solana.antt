-- ===== src/Solana.antt =====
-- What the adapter takes from solana_sdk and spl_associated_token_account: the metas of an
-- instruction's accounts, and the two address derivations, which are parameters.
use drfraudsworth_jupiter_ad.Prelude.{
  ℕ, ◌*◌, ◌^◌, Bool, true, false, Option, none, some, List, [], ◌∷◌, get_elem?,
}
use drfraudsworth_jupiter_ad.Pubkey.{Pubkey}

-- `solana_sdk::instruction::AccountMeta`.
pub record AccountMeta : Type 0 where
  pub pubkey : Pubkey
  pub is_signer : Bool
  pub is_writable : Bool

-- `AccountMeta::new` and `AccountMeta::new_readonly`.
abbrev pub writable : Pubkey → Bool → AccountMeta
writable key signer = record { pubkey = key; is_signer = signer; is_writable = true }

abbrev pub readonly : Pubkey → Bool → AccountMeta
readonly key signer = record { pubkey = key; is_signer = signer; is_writable = false }

-- `Pubkey::find_program_address(seeds, program)` with its bump, and
-- `get_associated_token_address_with_program_id(wallet, mint, program)`.
pub record Derivation : Type 0 where
  pub find_program_address : List (List ℕ) → Pubkey → Pubkey × ℕ
  pub associated_token_address : Pubkey → Pubkey → Pubkey → Pubkey

-- The signers of a list.
abbrev pub signers : List AccountMeta → List Pubkey
signers [] = []
signers (meta ∷ metas) = elim meta.is_signer [
  | true ↦ meta.pubkey ∷ signers metas
  | false ↦ signers metas
]

-- `metas[i].pubkey`, `metas[i].is_signer` and `metas[i].is_writable`; `none` is out of range.
abbrev pub key_at : List AccountMeta → ℕ → Option Pubkey
key_at metas i = elim (get_elem? metas i) [ none ↦ none | some meta ↦ some meta.pubkey ]

abbrev pub signer_at : List AccountMeta → ℕ → Option Bool
signer_at metas i = elim (get_elem? metas i) [ none ↦ none | some meta ↦ some meta.is_signer ]

abbrev pub writable_at : List AccountMeta → ℕ → Option Bool
writable_at metas i = elim (get_elem? metas i) [ none ↦ none | some meta ↦ some meta.is_writable ]

-- The keys that `Pubkey::new_unique()` makes, by its counter, of which the code relies on no more
-- than that they differ.
abbrev pub new_unique : ℕ → Pubkey
new_unique i = i * 256 ^ 24
