-- ===== src/Math/VaultMath/Conversion.antt =====
-- The conversion of src/math/vault_math.rs: its four edges, and what a way there and back returns.
use drfraudsworth_jupiter_ad.Prelude.{ℕ, ◌+◌, ◌*◌, ◌/◌, ◌^◌, ◌≤◌, ◌<◌, ◌≡◌, ◌⊎◌, ◌↔◌, some, arith}
use drfraudsworth_jupiter_ad.Words.{IsU64}
use drfraudsworth_jupiter_ad.Pubkey.{Pubkey}
use drfraudsworth_jupiter_ad.Addresses.{crime_mint, fraud_mint, profit_mint}
use drfraudsworth_jupiter_ad.Math.VaultMath.{compute_vault_output}

-- A mint of one of the two factions.
abbrev pub IsFaction : Pubkey → Type 0
IsFaction mint = (mint ≡ crime_mint) ⊎ (mint ≡ fraud_mint)

-- The conversions that the vault promises: a hundredth of a faction token rounded down where that
-- is not nothing, and a hundred for each PROFIT where that fits a u64.
abbrev pub Converts : Pubkey → Pubkey → ℕ → ℕ → Type 0
Converts a b n m =
    (IsFaction a × (b ≡ profit_mint) × (m ≡ n / 100) × (0 < m))
    ⊎ ((a ≡ profit_mint) × IsFaction b × (m ≡ n * 100) × (0 < n) × (m < 2 ^ 64))

-- The function returns m for n exactly where the vault converts n into m.
pub vault_output_iff :
    (a b : Pubkey) (n m : ℕ) → (compute_vault_output a b n ≡ some m) ↔ Converts a b n m
unfolding compute_vault_output
vault_output_iff a b n m = ((λ h. ground arith), (λ c. ground arith))

-- PROFIT that is converted into a faction token and back is the same amount.
pub profit_round_trip :
    (faction : Pubkey) (n : ℕ) {m : ℕ}
    → compute_vault_output profit_mint faction n ≡ some m
    → compute_vault_output faction profit_mint m ≡ some n
unfolding compute_vault_output
profit_round_trip faction n h = ground arith

-- A u64 amount of a faction token that is converted into PROFIT can be converted on, into either
-- faction token; it comes to at most the amount, and less than 100 is lost.
pub faction_round_trip :
    (from to : Pubkey) (n : ℕ) {m : ℕ}
    → IsU64 n
    → IsFaction to
    → compute_vault_output from profit_mint n ≡ some m
    → (back : ℕ) × (compute_vault_output profit_mint to m ≡ some back)
      × (back ≤ n)
      × (n < back + 100)
unfolding compute_vault_output
faction_round_trip from to n {m} hn hto h = (m * 100, ground arith, ground arith, ground arith)
