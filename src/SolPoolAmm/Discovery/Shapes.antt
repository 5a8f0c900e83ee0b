-- ===== src/SolPoolAmm/Discovery/Shapes.antt =====
-- The discovery of the canonical pools of tests/pool_discovery_properties.rs: src/sol_pool_amm.rs admits
-- every one of them but WSOL under Token-2022.
use drfraudsworth_jupiter_ad.Prelude.{ℕ, ◌≡◌, Bool}
use drfraudsworth_jupiter_ad.Words.{IsU64}
use drfraudsworth_jupiter_ad.Pubkey.{Pubkey, IsPubkey}
use drfraudsworth_jupiter_ad.Solana.{Derivation}
use drfraudsworth_jupiter_ad.SolPoolAmm.{SolPoolAmm, FactionRole, from_keyed_account, pool_pda}
use drfraudsworth_jupiter_ad.SolPoolAmm.Discovery.{pool_data, keyed_pool, quote_program}
use drfraudsworth_jupiter_ad.SolPoolAmm.Discovery.Admission.{pool_of, answer}

module _ (d : Derivation) (role : FactionRole) (quote : Pubkey) (quote_is_token_2022 : Bool)
    (vault_a vault_b : Pubkey) (reserve_a reserve_b : ℕ) (quote_key : IsPubkey quote)
    (vault_a_key : IsPubkey vault_a) (vault_b_key : IsPubkey vault_b)
    (reserve_a_u64 : IsU64 reserve_a) (reserve_b_u64 : IsU64 reserve_b) where
  abbrev Discovers : Pubkey × Pubkey × Pubkey × Pubkey → Type 0
  Discovers s =
      from_keyed_account d
        (keyed_pool (pool_pda d s.0 s.1) (pool_data s vault_a vault_b reserve_a reserve_b))
      ≡ answer (pool_pda d s.0 s.1) role quote (quote_program quote_is_token_2022)
          (pool_of s vault_a vault_b reserve_a reserve_b)
