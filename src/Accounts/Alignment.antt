-- ===== src/Accounts/Alignment.antt =====
-- What it means that an account list of src/accounts/ lines up with a pool of a faction: its vaults,
-- mints and user accounts with the pool's sides, and the transfer hook's accounts with the transfer.
use drfraudsworth_jupiter_ad.Prelude.{
  refl, ℕ, ◌≡◌, ◌⊎◌, Bool, false, List, [], ◌∷◌, take, drop, if◌then◌else◌, Result, ok,
}
use drfraudsworth_jupiter_ad.Pubkey.{Pubkey}
use drfraudsworth_jupiter_ad.Solana.{AccountMeta, Derivation, writable, readonly}
use drfraudsworth_jupiter_ad.Addresses.{crime_mint, fraud_mint, crime_hook_meta, fraud_hook_meta}
use drfraudsworth_jupiter_ad.State.PoolState.{ParsedPoolState}
use drfraudsworth_jupiter_ad.Accounts.HookAccounts.{hook_metas}

-- A faction's mint with the account that lists the extra accounts of its hook.
abbrev pub HookOf : Pubkey → Pubkey → Type 0
HookOf mint meta_list =
    ((mint ≡ crime_mint) × (meta_list ≡ crime_hook_meta))
    ⊎ ((mint ≡ fraud_mint) × (meta_list ≡ fraud_hook_meta))

-- The two vaults, the two mints and the user's two accounts at a position, each pair in the order of
-- the pool's sides a and b.
abbrev pub SidesAt : ℕ → List AccountMeta → ParsedPoolState → Pubkey → Pubkey → Type 0
SidesAt position metas pool user_a user_b =
    take 6 (drop position metas)
    ≡ writable pool.vault_a false
      ∷ writable pool.vault_b false
      ∷ readonly pool.mint_a false
      ∷ readonly pool.mint_b false
      ∷ writable user_a false
      ∷ writable user_b false
      ∷ []

-- The mint and the vault are those of one side, where the user's account is that of the faction.
abbrev pub OnSide : ParsedPoolState → Pubkey → Pubkey → Pubkey × Pubkey → Pubkey × Pubkey → Type 0
OnSide pool mint vault (user_faction, user_other) (user_a, user_b) =
    ((pool.mint_a ≡ mint)
      × (pool.vault_a ≡ vault)
      × (user_a ≡ user_faction)
      × (user_b ≡ user_other))
    ⊎ ((pool.mint_b ≡ mint)
        × (pool.vault_b ≡ vault)
        × (user_b ≡ user_faction)
        × (user_a ≡ user_other))

-- A built list lines up: the sides stand at the position, with the user's faction account on the
-- side of the faction mint, and the list ends, behind its named accounts, in the hook's accounts of
-- the transfer of the faction token: from the pool's vault to the user on a buy, and from the user
-- to the pool's vault on a sale.
pub record LinesUp (d : Derivation) (is_buy : Bool) (position named : ℕ) (pool : ParsedPoolState)
    (users : Pubkey × Pubkey) (built : Result (List AccountMeta)) : Type 0 where
  pub metas : List AccountMeta
  pub is_built : built ≡ ok metas
  pub mint : Pubkey
  pub vault : Pubkey
  pub meta_list : Pubkey
  pub hook_of : HookOf mint meta_list
  pub ordered : Pubkey × Pubkey
  pub on_side : OnSide pool mint vault users ordered
  pub sides_at : SidesAt position metas pool ordered.0 ordered.1
  pub hooks : drop named metas ≡ (
      if is_buy then hook_metas d meta_list vault users.0 else hook_metas d meta_list users.0 vault)

-- A list that was built, with what stands in it.
pub line_up :
    {d : Derivation} {is_buy : Bool} {position named : ℕ} {pool : ParsedPoolState}
    {users : Pubkey × Pubkey} {metas : List AccountMeta} {mint vault meta_list : Pubkey}
    {ordered : Pubkey × Pubkey}
    → HookOf mint meta_list
    → OnSide pool mint vault users ordered
    → SidesAt position metas pool ordered.0 ordered.1
    → drop named metas ≡ (
        if is_buy
        then hook_metas d meta_list vault users.0
        else hook_metas d meta_list users.0 vault)
    → LinesUp d is_buy position named pool users (ok metas)
line_up {metas} {mint} {vault} {meta_list} {ordered} hook side sides hooks = record {
  metas = metas;
  is_built = refl;
  mint = mint;
  vault = vault;
  meta_list = meta_list;
  hook_of = hook;
  ordered = ordered;
  on_side = side;
  sides_at = sides;
  hooks = hooks;
}
