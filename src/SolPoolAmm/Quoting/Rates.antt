-- ===== src/SolPoolAmm/Quoting/Rates.antt =====
-- The arithmetic behind the quotes of src/sol_pool_amm.rs: shares, prices and the ways to a quote.
use native.Mathlib.Nat.{mul-le-mul_left, mul-le-mul_right}
use drfraudsworth_jupiter_ad.Prelude.{
  ℕ, ◌+◌, ◌-◌, ◌*◌, ◌≤◌, ◌<◌, ◌≡◌, arith, ◌==◌, leb, Result, ok, err, Error, if◌then◌else◌,
  Bool-cases, inl, inr,
}
use drfraudsworth_jupiter_ad.Math.AmmMath.Curve.{mono_le, curve_le}
use drfraudsworth_jupiter_ad.SolPoolAmm.Quoting.Values.{tax_of, after_fee}

-- A smaller input e of a swap at most at the price of a larger amount.
pub price_le :
    (i r e amount o : ℕ) → o * (i + e) ≤ r * e → e ≤ amount → o ≤ r → o * (i + amount) ≤ r * amount
price_le i r e amount o h le out =
    let split : e + (amount - e) ≡ amount = omega arith in
    rw split at (mono_le i r o e (amount - e) h out)

rest_more : (n d bps : ℕ) → bps ≤ 10_000 → n - tax_of n bps ≤ n + d - tax_of (n + d) bps
rest_more n d bps h = omega (arith, mul-le-mul_left d h, mul-le-mul_left n h)

-- What is left behind a share does not fall when the whole grows.
pub rest_mono : (n n' bps : ℕ) → bps ≤ 10_000 → n ≤ n' → n - tax_of n bps ≤ n' - tax_of n' bps
rest_mono n n' bps h le =
    let split : n + (n' - n) ≡ n' = omega arith in rw split at (rest_more n (n' - n) bps h)

pub fee_mono : (n n' fee : ℕ) → n ≤ n' → after_fee n fee ≤ after_fee n' fee
fee_mono n n' fee le = omega (arith, mul-le-mul_right (10_000 - fee) le)

back_le :
    (r_in d e o a r e' : ℕ)
    → r_in * o ≤ e * d
    → e ≤ a
    → e' ≤ o
    → r ≤ r_in + a
    → r * e' ≤ (d + e') * a
back_le r_in d e o a r e' h e-le e'-le r-le =
    omega (arith, mul-le-mul_right e' r-le, mul-le-mul_left r_in e'-le, mul-le-mul_right d e-le)

-- A swap back against at most r_in + a and what the first swap left returns at most a.
pub return_le :
    (r_in r_out e o a r e' : ℕ)
    → o * (r_in + e) ≤ r_out * e
    → o ≤ r_out
    → e ≤ a
    → e' ≤ o
    → r ≤ r_in + a
    → r * e' ≤ (r_out - o + e') * a
return_le r_in r_out e o a r e' floor o-le e-le e'-le r-le =
    let split : o + (r_out - o) ≡ r_out = omega arith in
    let floor' : o * (r_in + e) ≤ (o + (r_out - o)) * e = rw split floor in
    back_le r_in (r_out - o) e o a r e' (curve_le r_in (r_out - o) o e floor') e-le e'-le r-le

pub total_buy :
    {A : Type 0} (bps fee left below : ℕ) (whole part : A) {r : Result A}
    → bps ≤ 10_000
    → fee ≤ 10_000
    → 0 < below
    → r ≡ (
        if leb bps 10_000
        then (if left == 0
            then ok whole
            else if leb fee 10_000
            then (if below == 0 then err Error.swap_overflow else ok part)
            else err Error.input_overflow)
        else err Error.tax_overflow)
    → (q : A) × (r ≡ ok q)
total_buy bps fee left below whole part hb hf pos eq = elim (Bool-cases (left == 0)) [
  | inl empty ↦ (whole, ground arith)
  | inr full ↦ (part, ground arith)
]

pub total_sell :
    {A : Type 0} (bps fee below : ℕ) (net : A) {r : Result A}
    → bps ≤ 10_000
    → fee ≤ 10_000
    → 0 < below
    → r ≡ (
        if leb fee 10_000
        then (if below == 0
            then err Error.swap_overflow
            else if leb bps 10_000
            then ok net
            else err Error.tax_overflow)
        else err Error.input_overflow)
    → (q : A) × (r ≡ ok q)
total_sell bps fee below net hb hf pos eq = (net, ground arith)
