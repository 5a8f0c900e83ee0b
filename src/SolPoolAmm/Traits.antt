-- ===== src/SolPoolAmm/Traits.antt =====
-- The constant answers of the adapter of src/sol_pool_amm.rs to the traits that it implements.
use Prim.Native.String.{String}
use drfraudsworth_jupiter_ad.Prelude.{Bool, false, List, [], ◌∷◌}
use drfraudsworth_jupiter_ad.Pubkey.{Pubkey}
use drfraudsworth_jupiter_ad.Addresses.{
  amm_program_id, staking_program_id, transfer_hook_program_id,
}
use drfraudsworth_jupiter_ad.SolPoolAmm.{SolPoolAmm}

-- Of `AmmProgramIdToLabel`.
abbrev pub program_id_to_labels : List (Pubkey × String)
program_id_to_labels = (amm_program_id, "Dr Fraudsworth") ∷ []

abbrev pub label : SolPoolAmm → String
label amm = "Dr Fraudsworth"

abbrev pub supports_exact_out : SolPoolAmm → Bool
supports_exact_out amm = false

abbrev pub program_dependencies : SolPoolAmm → List (Pubkey × String)
program_dependencies amm =
    (amm_program_id, "amm")
    ∷ (staking_program_id, "staking")
    ∷ (transfer_hook_program_id, "transfer-hook")
    ∷ []
