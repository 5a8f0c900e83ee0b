-- ===== src/Math/VaultMath/Tests.antt =====
-- The unit tests of src/math/vault_math.rs.
use drfraudsworth_jupiter_ad.Prelude.{◌*◌, ◌/◌, ◌≡◌, refl, none, some}
use drfraudsworth_jupiter_ad.Words.{u64_max}
use drfraudsworth_jupiter_ad.Addresses.{crime_mint, fraud_mint, profit_mint}
use drfraudsworth_jupiter_ad.Math.VaultMath.{compute_vault_output}

abbrev CrimeToProfit : Type 0
CrimeToProfit = compute_vault_output crime_mint profit_mint 10_000 ≡ some 100

abbrev FraudToProfit : Type 0
FraudToProfit = compute_vault_output fraud_mint profit_mint 10_000 ≡ some 100

abbrev ProfitToCrime : Type 0
ProfitToCrime = compute_vault_output profit_mint crime_mint 100 ≡ some 10_000

abbrev ProfitToFraud : Type 0
ProfitToFraud = compute_vault_output profit_mint fraud_mint 100 ≡ some 10_000

abbrev CrimeToFraudNotSupported : Type 0
CrimeToFraudNotSupported = compute_vault_output crime_mint fraud_mint 1_000 ≡ none

abbrev FraudToCrimeNotSupported : Type 0
FraudToCrimeNotSupported = compute_vault_output fraud_mint crime_mint 1_000 ≡ none

abbrev SameMintNotSupported : Type 0
SameMintNotSupported = compute_vault_output crime_mint crime_mint 1_000 ≡ none

abbrev ZeroAmount : Type 0
ZeroAmount = compute_vault_output crime_mint profit_mint 0 ≡ none

abbrev CrimeToProfitDustTooSmall : Type 0
CrimeToProfitDustTooSmall = compute_vault_output crime_mint profit_mint 99 ≡ none

abbrev ProfitToCrimeOverflow : Type 0
ProfitToCrimeOverflow = compute_vault_output profit_mint crime_mint (u64_max / 50) ≡ none

abbrev ProfitToCrimeMaxSafe : Type 0
ProfitToCrimeMaxSafe =
    compute_vault_output profit_mint crime_mint (u64_max / 100) ≡ some (u64_max / 100 * 100)

-- These tests pass.
tests_hold_1 :
    CrimeToProfit × FraudToProfit × ProfitToCrime × ProfitToFraud × CrimeToFraudNotSupported
    × FraudToCrimeNotSupported × SameMintNotSupported × ZeroAmount × CrimeToProfitDustTooSmall
    × ProfitToCrimeOverflow
unfolding compute_vault_output
tests_hold_1 = (refl, refl, refl, refl, refl, refl, refl, refl, refl, refl)

-- This test passes.
tests_hold_2 : ProfitToCrimeMaxSafe
unfolding compute_vault_output
tests_hold_2 = refl
