-- ===== src/SolPoolAmm/Quoting/Economics.antt =====
-- What the quotes of src/sol_pool_amm.rs promise a trader and the pool: bounds by the reserves,
-- totality, monotonicity, and no profit from buying and selling back.
use native.Mathlib.Nat.{div-mul-le_self, div-le_of_le-mul}
use drfraudsworth_jupiter_ad.Prelude.{ℕ, zero, suc, ◌+◌, ◌-◌, ◌*◌, ◌/◌, ◌≤◌, ◌<◌, ◌≡◌, arith, ok}
use drfraudsworth_jupiter_ad.Words.{IsU64}
use drfraudsworth_jupiter_ad.Jupiter.{Decimals, Quote}
use drfraudsworth_jupiter_ad.Math.AmmMath.Values.{effective_input-le, quotient-le}
use drfraudsworth_jupiter_ad.Math.AmmMath.Curve.{quotient_mono}
use drfraudsworth_jupiter_ad.SolPoolAmm.{SolPoolAmm, reserves}
use drfraudsworth_jupiter_ad.SolPoolAmm.Quoting.{quote_buy, quote_sell}
use drfraudsworth_jupiter_ad.SolPoolAmm.Quoting.Values.{
  after_fee, swapped, HasU64Reserves, reserves-IsU64, quote_buy_value, quote_sell_value,
}
use drfraudsworth_jupiter_ad.SolPoolAmm.Quoting.Answers.{
  zero_div, buy_input, buy_answer, sell_answer,
}
use drfraudsworth_jupiter_ad.SolPoolAmm.Quoting.Rates.{
  price_le, rest_mono, fee_mono, return_le, total_buy, total_sell,
}

out_of_reserve :
    (amm : SolPoolAmm) (out : ℕ) → HasU64Reserves amm → out ≤ (reserves amm).1 → IsU64 out
out_of_reserve amm out hr le = let (_, h) = reserves-IsU64 amm hr in omega arith

-- Where nothing reaches the curve nothing is paid out, whatever the reserves are.
swapped_mono : (i r e e' : ℕ) → e ≤ e' → swapped i r e ≤ swapped i r e'
swapped_mono i r zero e' le = rw (zero_div i r) (omega arith)
swapped_mono i r (suc e) e' le = quotient_mono i r (suc e) e' (omega arith) le

module _ {Decimal : Type 0} (dec : Decimals Decimal) where
  -- On u64 reserves and a u64 amount, a quoted buy reports its input, and at most that as its fee in
  -- the quote mint; it pays out what the faction reserve covers, at a price not below the pool's for
  -- what is behind the fee.
  pub buy_bounds :
      (amm : SolPoolAmm) (amount : ℕ) {q : Quote Decimal}
      → HasU64Reserves amm
      → IsU64 amount
      → quote_buy dec amm amount ≡ ok q
      → (q.in_amount ≡ amount)
        × (q.fee_mint ≡ amm.quote_mint)
        × (q.fee_amount ≤ amount)
        × (q.out_amount ≤ (reserves amm).1)
        × (q.out_amount * ((reserves amm).0 + (amount - q.fee_amount))
            ≤ (reserves amm).1 * (amount - q.fee_amount))
  buy_bounds amm amount hr h eq =
      let (_, ins, mint, fee, input, out) = buy_answer dec amm amount hr h eq in
      let e = buy_input amm amount in
      (
        ins,
        mint,
        fee,
        rw out (quotient-le (reserves amm).0 (reserves amm).1 e),
        rw (input, out) (div-mul-le_self ((reserves amm).1 * e) ((reserves amm).0 + e)),
      )

  -- On u64 reserves and a u64 amount, a quoted sale reports its input, and its fee is in the quote
  -- mint. It pays out, with its tax, what the quote reserve covers; the tax is the rate's share of
  -- the output before the tax, rounded down, and is the reported fee; the price before the tax is
  -- not above the pool's for the whole amount.
  pub sell_bounds :
      (amm : SolPoolAmm) (amount : ℕ) {q : Quote Decimal}
      → HasU64Reserves amm
      → IsU64 amount
      → quote_sell dec amm amount ≡ ok q
      → (q.in_amount ≡ amount)
        × (q.fee_mint ≡ amm.quote_mint)
        × (q.out_amount + q.fee_amount ≤ (reserves amm).0)
        × (q.fee_amount ≡ (q.out_amount + q.fee_amount) * amm.sell_tax_bps / 10_000)
        × ((q.out_amount + q.fee_amount) * ((reserves amm).1 + amount) ≤ (reserves amm).0 * amount)
  sell_bounds amm amount {q} hr h eq =
      let (ins, mint, _, gross, _, tax) = sell_answer dec amm amount hr h eq in
      let e = after_fee amount amm.pool.lp_fee_bps in
      (
        ins,
        mint,
        rw gross (quotient-le (reserves amm).1 (reserves amm).0 e),
        tax,
        rw gross (
            price_le (reserves amm).1 (reserves amm).0 e amount _
              (div-mul-le_self ((reserves amm).0 * e) ((reserves amm).1 + e))
              (effective_input-le amount amm.pool.lp_fee_bps)
              (quotient-le (reserves amm).1 (reserves amm).0 e)),
      )

  -- On u64 reserves that are not empty and rates of at most 10,000 bps, every u64 amount is quoted
  -- in both directions.
  pub quotes_total :
      (amm : SolPoolAmm) (amount : ℕ)
      → HasU64Reserves amm
      → IsU64 amount
      → 0 < (reserves amm).0
      → 0 < (reserves amm).1
      → amm.pool.lp_fee_bps ≤ 10_000
      → amm.buy_tax_bps ≤ 10_000
      → amm.sell_tax_bps ≤ 10_000
      → ((q : Quote Decimal) × (quote_buy dec amm amount ≡ ok q))
        × ((q : Quote Decimal) × (quote_sell dec amm amount ≡ ok q))
  quotes_total amm amount hr h pos0 pos1 fee buy sell = (
    total_buy _ _ _ _ _ _ buy fee (omega arith) (quote_buy_value dec amm amount hr h),
    total_sell _ _ _ _ sell fee (omega arith) (quote_sell_value dec amm amount hr h),
  )

  -- On u64 reserves and u64 amounts, a quoted buy pays out no less than a smaller one.
  pub buy_mono :
      (amm : SolPoolAmm) (amount amount' : ℕ) {q q' : Quote Decimal}
      → HasU64Reserves amm
      → IsU64 amount'
      → amount ≤ amount'
      → quote_buy dec amm amount ≡ ok q
      → quote_buy dec amm amount' ≡ ok q'
      → q.out_amount ≤ q'.out_amount
  buy_mono amm amount amount' hr h le eq eq' =
      let (tax, _, _, _, _, out) = buy_answer dec amm amount hr (omega arith) eq in
      let (_, _, _, _, _, out') = buy_answer dec amm amount' hr h eq' in
      rw (out, out')
        (swapped_mono (reserves amm).0 (reserves amm).1 (buy_input amm amount)
          (buy_input amm amount')
          (fee_mono _ _ amm.pool.lp_fee_bps (rest_mono amount amount' amm.buy_tax_bps tax le)))

  -- On u64 reserves and u64 amounts, a quoted sale pays out no less than a smaller one.
  pub sell_mono :
      (amm : SolPoolAmm) (amount amount' : ℕ) {q q' : Quote Decimal}
      → HasU64Reserves amm
      → IsU64 amount'
      → amount ≤ amount'
      → quote_sell dec amm amount ≡ ok q
      → quote_sell dec amm amount' ≡ ok q'
      → q.out_amount ≤ q'.out_amount
  sell_mono amm amount amount' {q} {q'} hr h le eq eq' =
      let (_, _, pos, gross, bps, tax) = sell_answer dec amm amount hr (omega arith) eq in
      let (_, _, _, gross', _, tax') = sell_answer dec amm amount' hr h eq' in
      let more : q.out_amount + q.fee_amount ≤ q'.out_amount + q'.fee_amount =
        rw (gross, gross')
          (quotient_mono (reserves amm).1 (reserves amm).0 _ _ pos
            (fee_mono amount amount' amm.pool.lp_fee_bps le)) in
      omega (arith, rest_mono _ _ amm.sell_tax_bps bps more)

  -- Selling what a buy paid out returns at most the amount that was paid, where the buy took its
  -- output from the faction reserve and left at most its input in the quote reserve, and whatever
  -- the rates of the sale are.
  pub buy_then_sell :
      (amm amm' : SolPoolAmm) (amount : ℕ) {q q' : Quote Decimal}
      → HasU64Reserves amm
      → HasU64Reserves amm'
      → IsU64 amount
      → quote_buy dec amm amount ≡ ok q
      → (reserves amm').0 ≤ (reserves amm).0 + amount
      → (reserves amm').1 ≡ (reserves amm).1 - q.out_amount
      → quote_sell dec amm' q.out_amount ≡ ok q'
      → q'.out_amount ≤ amount
  buy_then_sell amm amm' amount {q} {q'} hr hr' h eq left0 left1 eq' =
      let (_, _, _, covered, price-le) = buy_bounds amm amount hr h eq in
      let out-IsU64 : IsU64 q.out_amount = out_of_reserve amm q.out_amount hr covered in
      let (_, _, _, back, _, _) = sell_answer dec amm' q.out_amount hr' out-IsU64 eq' in
      let e' = after_fee q.out_amount amm'.pool.lp_fee_bps in
      let small : (reserves amm').0 * e' ≤ ((reserves amm').1 + e') * amount = rw left1 (
        return_le (reserves amm).0 (reserves amm).1 (amount - q.fee_amount) q.out_amount amount
          (reserves amm').0 e' price-le covered (omega arith)
          (effective_input-le q.out_amount amm'.pool.lp_fee_bps) left0) in
      let all : q'.out_amount + q'.fee_amount ≤ amount =
        rw back (div-le_of_le-mul ((reserves amm').1 + e') small) in
      omega arith
