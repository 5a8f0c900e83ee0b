-- ===== src/Math/AmmMath/Tests.antt =====
-- The unit tests of src/math/amm_math.rs.
use drfraudsworth_jupiter_ad.Prelude.{
  ◌+◌, ◌*◌, ◌/◌, ◌≡◌, refl, true, false, none, some, ltb, leb, UnwrappedSome, is_some,
}
use drfraudsworth_jupiter_ad.Words.{u64_max}
use drfraudsworth_jupiter_ad.Math.AmmMath.{
  calculate_effective_input, calculate_swap_output, verify_k_invariant,
}

abbrev Fee100bpsOn1000 : Type 0
Fee100bpsOn1000 = calculate_effective_input 1_000 100 ≡ some 990

abbrev Fee50bpsOn1000 : Type 0
Fee50bpsOn1000 = calculate_effective_input 1_000 50 ≡ some 995

abbrev FeeZeroBps : Type 0
FeeZeroBps = calculate_effective_input 1_000 0 ≡ some 1_000

abbrev Fee10000Bps : Type 0
Fee10000Bps = calculate_effective_input 1_000 10_000 ≡ some 0

abbrev FeeOver10000Bps : Type 0
FeeOver10000Bps = calculate_effective_input 1_000 10_001 ≡ none

abbrev FeeOnZeroAmount : Type 0
FeeOnZeroAmount = calculate_effective_input 0 100 ≡ some 0

abbrev FeeOnOne : Type 0
FeeOnOne = calculate_effective_input 1 100 ≡ some 0

abbrev FeeOnU64Max : Type 0
FeeOnU64Max =
    (is_some (calculate_effective_input u64_max 100) ≡ true)
    × (calculate_effective_input u64_max 100 ≡ some (u64_max * 9_900 / 10_000))

abbrev SwapEqualReserves1m : Type 0
SwapEqualReserves1m = calculate_swap_output 1_000_000 1_000_000 1_000 ≡ some 999

abbrev SwapZeroEffectiveInput : Type 0
SwapZeroEffectiveInput = calculate_swap_output 1_000_000 1_000_000 0 ≡ some 0

abbrev SwapZeroReserveOut : Type 0
SwapZeroReserveOut = calculate_swap_output 1_000_000 0 1_000 ≡ some 0

abbrev SwapZeroReserveInZeroEffective : Type 0
SwapZeroReserveInZeroEffective = calculate_swap_output 0 1_000_000 0 ≡ none

abbrev SwapZeroReserveInNonzeroEffective : Type 0
SwapZeroReserveInNonzeroEffective = calculate_swap_output 0 1_000_000 1_000 ≡ some 1_000_000

abbrev SwapLargeInputRelativeToReserve : Type 0
SwapLargeInputRelativeToReserve =
    UnwrappedSome (calculate_swap_output 1_000 1_000 1_000_000_000)
      λ output. ltb output 1_000 ≡ true

abbrev SwapU64MaxReservesSmallInput : Type 0
SwapU64MaxReservesSmallInput =
    UnwrappedSome (calculate_swap_output u64_max u64_max 1_000) λ output. leb output 1_000 ≡ true

abbrev SwapOutputCannotExceedU64 : Type 0
SwapOutputCannotExceedU64 = calculate_swap_output 0 u64_max (u64_max + 1) ≡ some u64_max

abbrev KValidSwap : Type 0
KValidSwap = verify_k_invariant 1_000_000 1_000_000 1_001_000 999_001 ≡ some true

abbrev KInvalidSwap : Type 0
KInvalidSwap = verify_k_invariant 1_000_000 1_000_000 1_001_000 998_000 ≡ some false

abbrev KEqualReserves : Type 0
KEqualReserves = verify_k_invariant 1_000_000 1_000_000 1_000_000 1_000_000 ≡ some true

-- These tests pass.
tests_hold_1 :
    Fee100bpsOn1000 × Fee50bpsOn1000 × FeeZeroBps × Fee10000Bps × FeeOver10000Bps × FeeOnZeroAmount
    × FeeOnOne × FeeOnU64Max × SwapEqualReserves1m × SwapZeroEffectiveInput
unfolding calculate_effective_input calculate_swap_output verify_k_invariant
tests_hold_1 = (refl, refl, refl, refl, refl, refl, refl, (refl, refl), refl, refl)

-- These tests pass.
tests_hold_2 :
    SwapZeroReserveOut × SwapZeroReserveInZeroEffective × SwapZeroReserveInNonzeroEffective
    × SwapLargeInputRelativeToReserve × SwapU64MaxReservesSmallInput × SwapOutputCannotExceedU64
    × KValidSwap × KInvalidSwap × KEqualReserves
unfolding calculate_effective_input calculate_swap_output verify_k_invariant
tests_hold_2 = (refl, refl, refl, refl, refl, refl, refl, refl, refl)
