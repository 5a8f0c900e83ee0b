-- ===== src/State/PoolState/Layout.antt =====
-- The byte layout of the PoolState account, from the table at the head of
-- src/state/pool_state.rs: an independent description of what the parser accepts.
use drfraudsworth_jupiter_ad.Prelude.{ℕ, ◌≡◌, List, [], ◌∷◌, ◌++◌, length}
use drfraudsworth_jupiter_ad.Words.{IsU8, IsU16, IsU64, to_le_bytes, to_be_bytes}
use drfraudsworth_jupiter_ad.Pubkey.{IsPubkey}
use drfraudsworth_jupiter_ad.State.Reader.{byte_at, slice}
use drfraudsworth_jupiter_ad.State.Reader.Pieces.{of_bool}
use drfraudsworth_jupiter_ad.State.PoolState.{ParsedPoolState}

-- The fields lie in their types.
pub record IsValid (pool : ParsedPoolState) : Type 0 where
  pub mint_a : IsPubkey pool.mint_a
  pub mint_b : IsPubkey pool.mint_b
  pub vault_a : IsPubkey pool.vault_a
  pub vault_b : IsPubkey pool.vault_b
  pub reserve_a : IsU64 pool.reserve_a
  pub reserve_b : IsU64 pool.reserve_b
  pub lp_fee_bps : IsU16 pool.lp_fee_bps
  pub bump : IsU8 pool.bump
  pub vault_a_bump : IsU8 pool.vault_a_bump
  pub vault_b_bump : IsU8 pool.vault_b_bump
  pub token_program_a : IsPubkey pool.token_program_a
  pub token_program_b : IsPubkey pool.token_program_b

-- The bytes hold the pool. Byte 8, the pool type, is free.
pub record Layout (bytes : List ℕ) (pool : ParsedPoolState) : Type 0 where
  pub whole : length bytes ≡ 224
  pub discriminator : slice bytes 0 8 ≡ 0xf7 ∷ 0xed ∷ 0xe3 ∷ 0xf5 ∷ 0xd7 ∷ 0xc3 ∷ 0xde ∷ 0x46 ∷ []
  pub mint_a : slice bytes 9 41 ≡ to_be_bytes 32 pool.mint_a
  pub mint_b : slice bytes 41 73 ≡ to_be_bytes 32 pool.mint_b
  pub vault_a : slice bytes 73 105 ≡ to_be_bytes 32 pool.vault_a
  pub vault_b : slice bytes 105 137 ≡ to_be_bytes 32 pool.vault_b
  pub reserve_a : slice bytes 137 145 ≡ to_le_bytes 8 pool.reserve_a
  pub reserve_b : slice bytes 145 153 ≡ to_le_bytes 8 pool.reserve_b
  pub lp_fee_bps : slice bytes 153 155 ≡ to_le_bytes 2 pool.lp_fee_bps
  pub initialized : byte_at bytes 155 ≡ of_bool pool.initialized
  pub locked : byte_at bytes 156 ≡ of_bool pool.locked
  pub bump : byte_at bytes 157 ≡ pool.bump
  pub vault_a_bump : byte_at bytes 158 ≡ pool.vault_a_bump
  pub vault_b_bump : byte_at bytes 159 ≡ pool.vault_b_bump
  pub token_program_a : slice bytes 160 192 ≡ to_be_bytes 32 pool.token_program_a
  pub token_program_b : slice bytes 192 224 ≡ to_be_bytes 32 pool.token_program_b

-- The account that holds a pool, with its pool type.
unfoldable pub to_bytes : ℕ → ParsedPoolState → List ℕ
to_bytes pool_type pool =
    (0xf7 ∷ 0xed ∷ 0xe3 ∷ 0xf5 ∷ 0xd7 ∷ 0xc3 ∷ 0xde ∷ 0x46 ∷ pool_type ∷ [])
    ++ (to_be_bytes 32 pool.mint_a
        ++ (to_be_bytes 32 pool.mint_b
            ++ (to_be_bytes 32 pool.vault_a
                ++ (to_be_bytes 32 pool.vault_b
                    ++ (to_le_bytes 8 pool.reserve_a
                        ++ (to_le_bytes 8 pool.reserve_b
                            ++ (to_le_bytes 2 pool.lp_fee_bps
                                ++ ((of_bool pool.initialized
                                      ∷ of_bool pool.locked
                                      ∷ pool.bump
                                      ∷ pool.vault_a_bump
                                      ∷ pool.vault_b_bump
                                      ∷ [])
                                    ++ (to_be_bytes 32 pool.token_program_a
                                        ++ to_be_bytes 32 pool.token_program_b)))))))))
