-- ===== src/Math/TaxMath/Tests.antt =====
-- The unit tests of src/math/tax_math.rs.
use drfraudsworth_jupiter_ad.Prelude.{ℕ, ◌+◌, ◌≡◌, refl, none, some, UnwrappedSome, ◌>>=?◌}
use drfraudsworth_jupiter_ad.Words.{u64_max, checked_add}
use drfraudsworth_jupiter_ad.Math.TaxMath.{calculate_tax, split_distribution}

-- The body of the loop over the totals.
abbrev SumsToTotal : ℕ → Type 0
SumsToTotal total =
    UnwrappedSome (split_distribution total)
      λ (staking, carnage, treasury). staking + carnage + treasury ≡ total

abbrev Tax4pctOn1Sol : Type 0
Tax4pctOn1Sol = calculate_tax 1_000_000_000 400 ≡ some 40_000_000

abbrev Tax14pctOn1Sol : Type 0
Tax14pctOn1Sol = calculate_tax 1_000_000_000 1_400 ≡ some 140_000_000

abbrev Tax4pctOn100Lamports : Type 0
Tax4pctOn100Lamports = calculate_tax 100 400 ≡ some 4

abbrev Tax4pctRoundsDown : Type 0
Tax4pctRoundsDown = calculate_tax 10 400 ≡ some 0

abbrev Tax100pctOnMax : Type 0
Tax100pctOnMax = calculate_tax u64_max 10_000 ≡ some u64_max

abbrev TaxInvalidBpsOver10000 : Type 0
TaxInvalidBpsOver10000 = calculate_tax 1_000_000_000 10_001 ≡ none

abbrev TaxZeroInput : Type 0
TaxZeroInput = calculate_tax 0 400 ≡ some 0

abbrev TaxZeroBps : Type 0
TaxZeroBps = calculate_tax 1_000_000_000 0 ≡ some 0

abbrev TaxMaxValidBps : Type 0
TaxMaxValidBps = calculate_tax 1_000 10_000 ≡ some 1_000

abbrev Tax1BpsOnLargeAmount : Type 0
Tax1BpsOnLargeAmount = calculate_tax 1_000_000_000_000 1 ≡ some 100_000_000

abbrev Split100Lamports : Type 0
Split100Lamports = split_distribution 100 ≡ some (71, 24, 5)

abbrev Split1000Lamports : Type 0
Split1000Lamports = split_distribution 1_000 ≡ some (710, 240, 50)

abbrev Split10LamportsWithRemainder : Type 0
Split10LamportsWithRemainder = split_distribution 10 ≡ some (7, 2, 1)

abbrev SplitMicroTax3Lamports : Type 0
SplitMicroTax3Lamports = split_distribution 3 ≡ some (3, 0, 0)

abbrev SplitMicroTax1Lamport : Type 0
SplitMicroTax1Lamport = split_distribution 1 ≡ some (1, 0, 0)

abbrev SplitZeroTax : Type 0
SplitZeroTax = split_distribution 0 ≡ some (0, 0, 0)

abbrev SplitMaxU64 : Type 0
SplitMaxU64 = UnwrappedSome (split_distribution u64_max) λ (staking, carnage, treasury).
    (checked_add 64 staking carnage >>=? λ s. checked_add 64 s treasury) ≡ some u64_max

abbrev Split4LamportsBoundary : Type 0
Split4LamportsBoundary = split_distribution 4 ≡ some (2, 0, 2)

abbrev Split5Lamports : Type 0
Split5Lamports = split_distribution 5 ≡ some (3, 1, 1)

abbrev SplitInvariantSumEqualsTotal : Type 0
SplitInvariantSumEqualsTotal =
    (SumsToTotal 0)
    × (SumsToTotal 1)
    × (SumsToTotal 2)
    × (SumsToTotal 3)
    × (SumsToTotal 4)
    × (SumsToTotal 5)
    × (SumsToTotal 10)
    × (SumsToTotal 99)
    × (SumsToTotal 100)
    × (SumsToTotal 101)
    × (SumsToTotal 1_000)
    × (SumsToTotal 10_000)
    × (SumsToTotal 1_000_000)

-- These tests pass.
tests_hold_1 :
    Tax4pctOn1Sol × Tax14pctOn1Sol × Tax4pctOn100Lamports × Tax4pctRoundsDown × Tax100pctOnMax
    × TaxInvalidBpsOver10000 × TaxZeroInput × TaxZeroBps × TaxMaxValidBps × Tax1BpsOnLargeAmount
unfolding calculate_tax split_distribution
tests_hold_1 = (refl, refl, refl, refl, refl, refl, refl, refl, refl, refl)

-- These tests pass.
tests_hold_2 :
    Split100Lamports × Split1000Lamports × Split10LamportsWithRemainder × SplitMicroTax3Lamports
    × SplitMicroTax1Lamport × SplitZeroTax × SplitMaxU64 × Split4LamportsBoundary × Split5Lamports
    × SplitInvariantSumEqualsTotal
unfolding calculate_tax split_distribution
tests_hold_2 = (
  refl,
  refl,
  refl,
  refl,
  refl,
  refl,
  refl,
  refl,
  refl,
  (refl, refl, refl, refl, refl, refl, refl, refl, refl, refl, refl, refl, refl),
)
