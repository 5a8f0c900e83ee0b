-- ===== src/Math/TaxMath/Shares.antt =====
-- The tax and its shares on every u64 amount.
use native.Mathlib.Nat.{mul-le-mul_left}
use drfraudsworth_jupiter_ad.Prelude.{
  ℕ, ◌+◌, ◌-◌, ◌*◌, ◌/◌, ◌≤◌, ◌<◌, ◌≡◌, none, some, arith, inl, inr, Bool-cases, leb, if◌then◌else◌,
}
use drfraudsworth_jupiter_ad.Words.{IsU64}
use drfraudsworth_jupiter_ad.Math.TaxMath.{calculate_tax, split_distribution}

tax_product : (amount bps : ℕ) → bps ≤ 10_000 → amount * bps ≤ amount * 10_000
tax_product amount bps h = mul-le-mul_left amount h

-- The tax is refused exactly above 10,000 bps, and otherwise is exact.
pub tax_value :
    (amount bps : ℕ)
    → IsU64 amount
    → calculate_tax amount bps ≡ (if leb bps 10_000 then some (amount * bps / 10_000) else none)
unfolding calculate_tax
tax_value amount bps h = ground (arith, tax_product amount bps)

tax_some :
    (amount bps : ℕ) {t : ℕ}
    → IsU64 amount
    → calculate_tax amount bps ≡ some t
    → (bps ≤ 10_000) × (t ≡ amount * bps / 10_000) × (t ≤ amount)
tax_some amount bps h e = ground (arith, tax_value amount bps h, tax_product amount bps)

-- The shares of a u64 tax: below 4 lamports all is staking, else 71% and 24% rounded down.
split_value :
    (total : ℕ)
    → IsU64 total
    → split_distribution total ≡ (
        if leb 4 total
        then some (
          total * 7_100 / 10_000,
          total * 2_400 / 10_000,
          total - total * 7_100 / 10_000 - total * 2_400 / 10_000,
        )
        else some (total, 0, 0))
unfolding split_distribution
split_value total h = ground arith

-- On every u64 tax the split returns three shares that add up to the tax; the treasury gets at
-- least its 5% rounded down, and at most 2 lamports of dust above it.
pub split_conserves :
    (total : ℕ)
    → IsU64 total
    → (staking : ℕ) × (carnage : ℕ) × (treasury : ℕ) × (split_distribution total
        ≡ some (staking, carnage, treasury))
      × (staking + carnage + treasury ≡ total)
      × (total * 500 / 10_000 ≤ treasury)
      × (treasury ≤ total * 500 / 10_000 + 2)
split_conserves total h = elim (Bool-cases (leb 4 total)) [
  | inl enough ↦ (
    total * 7_100 / 10_000,
    total * 2_400 / 10_000,
    total - total * 7_100 / 10_000 - total * 2_400 / 10_000,
    rw (split_value total h, enough),
    omega arith,
    omega arith,
    omega arith,
  )
  | inr few ↦ (total, 0, 0, rw (split_value total h, few), omega arith, ground arith, omega arith)
]

-- A tax that is levied on a u64 amount never exceeds it, is the rate's share of the amount rounded
-- down to a lamport, and is distributed without loss.
pub tax_then_split :
    (amount bps : ℕ) {t : ℕ}
    → IsU64 amount
    → calculate_tax amount bps ≡ some t
    → (t ≤ amount)
      × (t * 10_000 ≤ amount * bps)
      × (amount * bps < (t + 1) * 10_000)
      × ((staking : ℕ) × (carnage : ℕ) × (treasury : ℕ) × (split_distribution t
            ≡ some (staking, carnage, treasury))
          × (staking + carnage + treasury ≡ t))
tax_then_split amount bps {t} h e =
    let (_, value, le) = tax_some amount bps h e in
    let (staking, carnage, treasury, split, whole, _, _) = split_conserves t (omega arith) in
    (le, omega arith, omega arith, (staking, carnage, treasury, split, whole))
