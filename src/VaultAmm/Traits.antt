-- ===== src/VaultAmm/Traits.antt =====
-- The constant answers of the adapter of src/vault_amm.rs to the trait that it implements.
use Prim.Native.String.{String}
use drfraudsworth_jupiter_ad.Prelude.{Bool, true, false, List, [], ◌∷◌}
use drfraudsworth_jupiter_ad.Pubkey.{Pubkey}
use drfraudsworth_jupiter_ad.Addresses.{conversion_vault_program_id, transfer_hook_program_id}
use drfraudsworth_jupiter_ad.VaultAmm.{VaultAmm}

abbrev pub label : VaultAmm → String
label amm = "Dr Fraudsworth Vault"

abbrev pub program_id : VaultAmm → Pubkey
program_id amm = conversion_vault_program_id

abbrev pub supports_exact_out : VaultAmm → Bool
supports_exact_out amm = false

abbrev pub unidirectional : VaultAmm → Bool
unidirectional amm = true

abbrev pub program_dependencies : VaultAmm → List (Pubkey × String)
program_dependencies amm = (transfer_hook_program_id, "transfer-hook") ∷ []
