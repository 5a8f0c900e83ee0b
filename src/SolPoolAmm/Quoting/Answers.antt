-- ===== src/SolPoolAmm/Quoting/Answers.antt =====
-- The fields of what `quote_buy` and `quote_sell` of src/sol_pool_amm.rs answer.
use drfraudsworth_jupiter_ad.Prelude.{
  ℕ, ◌+◌, ◌-◌, ◌*◌, ◌/◌, ◌≤◌, ◌<◌, ◌≡◌, ◌⊎◌, inl, inr, sym, ◌∙◌, refl, arith, ◌==◌, leb, ok, err,
  Error, if◌then◌else◌,
}
use drfraudsworth_jupiter_ad.Words.{IsU64}
use drfraudsworth_jupiter_ad.Jupiter.{Decimals, Quote}
use drfraudsworth_jupiter_ad.Math.AmmMath.Values.{effective_input-le}
use drfraudsworth_jupiter_ad.SolPoolAmm.{SolPoolAmm, reserves}
use drfraudsworth_jupiter_ad.SolPoolAmm.Quoting.{quote_buy, quote_sell, all_tax}
use drfraudsworth_jupiter_ad.SolPoolAmm.Quoting.Values.{
  tax_of, after_fee, swapped, HasU64Reserves, bought, sold, tax_le, quote_buy_value,
  quote_sell_value,
}

pub zero_div : (i r : ℕ) → r * 0 / (i + 0) ≡ 0
zero_div i r = omega arith

-- The part of a buy that reaches the curve.
abbrev pub buy_input : SolPoolAmm → ℕ → ℕ
buy_input amm amount = after_fee (amount - tax_of amount amm.buy_tax_bps) amm.pool.lp_fee_bps

-- The inversion of a buy's answer.
ok_cases :
    {A : Type 0} (bps fee left below : ℕ) {whole part q : A}
    → (if leb bps 10_000
        then (if left == 0
            then ok whole
            else if leb fee 10_000
            then (if below == 0 then err Error.swap_overflow else ok part)
            else err Error.input_overflow)
        else err Error.tax_overflow)
      ≡ ok q
    → (bps ≤ 10_000) × (((left ≡ 0) × (q ≡ whole)) ⊎ ((0 < below) × (q ≡ part)))
ok_cases bps fee left below h = ground arith

-- The inversion of a sale's.
ok_value :
    {A : Type 0} (bps fee below : ℕ) {net q : A}
    → (if leb fee 10_000
        then (if below == 0
            then err Error.swap_overflow
            else if leb bps 10_000
            then ok net
            else err Error.tax_overflow)
        else err Error.input_overflow)
      ≡ ok q
    → (bps ≤ 10_000) × (0 < below) × (q ≡ net)
ok_value bps fee below h = ground arith

module _ {Decimal : Type 0} (dec : Decimals Decimal) where
  buy_cases :
      (amm : SolPoolAmm) (amount : ℕ) {q : Quote Decimal}
      → HasU64Reserves amm
      → IsU64 amount
      → quote_buy dec amm amount ≡ ok q
      → (amm.buy_tax_bps ≤ 10_000)
        × (((amount - tax_of amount amm.buy_tax_bps ≡ 0) × (q ≡ all_tax dec amm amount amount))
            ⊎ ((0 < (reserves amm).0 + buy_input amm amount)
                × (q ≡ bought dec amm amount (buy_input amm amount))))
  buy_cases amm amount hr h eq =
      ok_cases amm.buy_tax_bps amm.pool.lp_fee_bps _ _
        (sym (quote_buy_value dec amm amount hr h) ∙ eq)

  sell_cases :
      (amm : SolPoolAmm) (amount : ℕ) {q : Quote Decimal}
      → HasU64Reserves amm
      → IsU64 amount
      → quote_sell dec amm amount ≡ ok q
      → (amm.sell_tax_bps ≤ 10_000)
        × (0 < (reserves amm).1 + after_fee amount amm.pool.lp_fee_bps)
        × (q ≡ sold dec amm amount (after_fee amount amm.pool.lp_fee_bps))
  sell_cases amm amount hr h eq =
      ok_value amm.sell_tax_bps amm.pool.lp_fee_bps _
        (sym (quote_sell_value dec amm amount hr h) ∙ eq)

  zero_swapped :
      (i r amount fee : ℕ)
      → amount ≡ 0
      → (after_fee amount fee ≡ 0) × (swapped i r (after_fee amount fee) ≡ 0)
  zero_swapped i r amount fee h =
      let none_left : after_fee amount fee ≡ 0 = omega (arith, effective_input-le amount fee) in
      (none_left, rw none_left (zero_div i r))

  -- A buy's answer by its fields: what is behind the fee is swapped.
  pub buy_answer :
      (amm : SolPoolAmm) (amount : ℕ) {q : Quote Decimal}
      → HasU64Reserves amm
      → IsU64 amount
      → quote_buy dec amm amount ≡ ok q
      → (amm.buy_tax_bps ≤ 10_000)
        × (q.in_amount ≡ amount)
        × (q.fee_mint ≡ amm.quote_mint)
        × (q.fee_amount ≤ amount)
        × (amount - q.fee_amount ≡ buy_input amm amount)
        × (q.out_amount ≡ swapped (reserves amm).0 (reserves amm).1 (buy_input amm amount))
  buy_answer amm amount hr h eq =
      let (tax, side) = buy_cases amm amount hr h eq in
      elim side [
        | inl (left, eq) ↦
            let (empty, out) =
              zero_swapped (reserves amm).0 (reserves amm).1
                (amount - tax_of amount amm.buy_tax_bps) amm.pool.lp_fee_bps left in
            (
              tax,
              rw eq refl,
              rw eq refl,
              rw eq (omega arith),
              rw (eq, empty) (omega arith),
              rw (eq, out) refl,
            )
        | inr (pos, eq) ↦
            let le =
              effective_input-le (amount - tax_of amount amm.buy_tax_bps) amm.pool.lp_fee_bps in
            (
              tax,
              rw eq refl,
              rw eq refl,
              rw eq (omega arith),
              rw eq (omega (arith, le)),
              rw eq refl,
            )
      ]

  -- A sale's answer by its fields: the gross output is what the amount behind the LP fee swaps to.
  pub sell_answer :
      (amm : SolPoolAmm) (amount : ℕ) {q : Quote Decimal}
      → HasU64Reserves amm
      → IsU64 amount
      → quote_sell dec amm amount ≡ ok q
      → (q.in_amount ≡ amount)
        × (q.fee_mint ≡ amm.quote_mint)
        × (0 < (reserves amm).1 + after_fee amount amm.pool.lp_fee_bps)
        × (q.out_amount + q.fee_amount
            ≡ swapped (reserves amm).1 (reserves amm).0 (after_fee amount amm.pool.lp_fee_bps))
        × (amm.sell_tax_bps ≤ 10_000)
        × (q.fee_amount ≡ tax_of (q.out_amount + q.fee_amount) amm.sell_tax_bps)
  sell_answer amm amount hr h eq =
      let (tax, pos, eq) = sell_cases amm amount hr h eq in
      let gross =
        swapped (reserves amm).1 (reserves amm).0 (after_fee amount amm.pool.lp_fee_bps) in
      let whole : gross - tax_of gross amm.sell_tax_bps + tax_of gross amm.sell_tax_bps ≡ gross =
        omega (arith, tax_le gross amm.sell_tax_bps tax) in
      (rw eq refl, rw eq refl, pos, rw eq whole, tax, rw (eq, whole) refl)
