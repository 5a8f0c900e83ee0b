-- ===== src/Accounts/HookAccounts/Tests.antt =====
-- The unit tests of src/accounts/hook_accounts.rs, on whatever keys they make up.
use drfraudsworth_jupiter_ad.Prelude.{◌≡◌, ◌≢◌, refl, false, some, [], length, arith}
use drfraudsworth_jupiter_ad.Pubkey.{Pubkey}
use drfraudsworth_jupiter_ad.Addresses.{
  transfer_hook_program_id, crime_mint, fraud_mint, profit_mint, native_mint, crime_hook_meta,
  fraud_hook_meta, profit_hook_meta,
}
use drfraudsworth_jupiter_ad.Solana.{Derivation, key_at, signer_at, writable_at}
use drfraudsworth_jupiter_ad.Accounts.HookAccounts.{hook_metas_for_mint, whitelist_pda}

abbrev NativeMintReturnsEmpty : Type 0
NativeMintReturnsEmpty =
    (d : Derivation) (src dst : Pubkey) → hook_metas_for_mint d native_mint src dst ≡ []

abbrev CrimeMintReturns4Metas : Type 0
CrimeMintReturns4Metas =
    (d : Derivation) (src dst : Pubkey)
    → (length (hook_metas_for_mint d crime_mint src dst) ≡ 4)
      × (key_at (hook_metas_for_mint d crime_mint src dst) 0 ≡ some crime_hook_meta)
      × (signer_at (hook_metas_for_mint d crime_mint src dst) 0 ≡ some false)
      × (writable_at (hook_metas_for_mint d crime_mint src dst) 0 ≡ some false)
      × (key_at (hook_metas_for_mint d crime_mint src dst) 3 ≡ some transfer_hook_program_id)
      × (signer_at (hook_metas_for_mint d crime_mint src dst) 3 ≡ some false)
      × (writable_at (hook_metas_for_mint d crime_mint src dst) 3 ≡ some false)

abbrev FraudMintReturns4Metas : Type 0
FraudMintReturns4Metas =
    (d : Derivation) (src dst : Pubkey)
    → (length (hook_metas_for_mint d fraud_mint src dst) ≡ 4)
      × (key_at (hook_metas_for_mint d fraud_mint src dst) 0 ≡ some fraud_hook_meta)

abbrev ProfitMintReturns4Metas : Type 0
ProfitMintReturns4Metas =
    (d : Derivation) (src dst : Pubkey)
    → (length (hook_metas_for_mint d profit_mint src dst) ≡ 4)
      × (key_at (hook_metas_for_mint d profit_mint src dst) 0 ≡ some profit_hook_meta)

abbrev UnknownMintReturnsEmpty : Type 0
UnknownMintReturnsEmpty =
    (d : Derivation) (unknown src dst : Pubkey)
    → unknown ≢ native_mint
    → unknown ≢ crime_mint
    → unknown ≢ fraud_mint
    → unknown ≢ profit_mint
    → hook_metas_for_mint d unknown src dst ≡ []

abbrev WhitelistPdasAreDeterministic : Type 0
WhitelistPdasAreDeterministic =
    (d : Derivation) (src dst : Pubkey)
    → (key_at (hook_metas_for_mint d crime_mint src dst) 1 ≡ some (whitelist_pda d src))
      × (key_at (hook_metas_for_mint d crime_mint src dst) 2 ≡ some (whitelist_pda d dst))

abbrev DifferentAccountsProduceDifferentWhitelistPdas : Type 0
DifferentAccountsProduceDifferentWhitelistPdas =
    (d : Derivation) (src1 dst1 src2 dst2 : Pubkey)
    → whitelist_pda d src1 ≢ whitelist_pda d src2
    → whitelist_pda d dst1 ≢ whitelist_pda d dst2
    → (key_at (hook_metas_for_mint d crime_mint src1 dst1) 1
        ≢ key_at (hook_metas_for_mint d crime_mint src2 dst2) 1)
      × (key_at (hook_metas_for_mint d crime_mint src1 dst1) 2
          ≢ key_at (hook_metas_for_mint d crime_mint src2 dst2) 2)

-- These tests pass.
tests_hold :
    NativeMintReturnsEmpty × CrimeMintReturns4Metas × FraudMintReturns4Metas
    × ProfitMintReturns4Metas × UnknownMintReturnsEmpty × WhitelistPdasAreDeterministic
    × DifferentAccountsProduceDifferentWhitelistPdas
unfolding hook_metas_for_mint
tests_hold = (
  (λ d src dst. refl),
  (λ d src dst. (refl, refl, refl, refl, refl, refl, refl)),
  (λ d src dst. (refl, refl)),
  (λ d src dst. (refl, refl)),
  (λ d unknown src dst h h₁ h₂ h₃. ground arith),
  (λ d src dst. (refl, refl)),
  (λ d src1 dst1 src2 dst2 ne ne₁. ((λ e. ne cc), λ e. ne₁ cc)),
)
