-- ===== src/SolPoolAmm/Quoting/Reference.antt =====
-- tests/test_quoting_extended.rs: the reference that the quotes of src/sol_pool_amm.rs are sampled
-- against there, and that they agree with it.
use drfraudsworth_jupiter_ad.Prelude.{
  ℕ, ◌≤◌, ◌<◌, ◌≡◌, ap, subst, sym, ◌∙◌, Bool-cases, inl, inr, false, ◌==◌, ==→eq, Option, some,
  if◌then◌else◌, arith, ok, unwrap_or, ◌>>=?◌,
}
use drfraudsworth_jupiter_ad.Words.{IsU64, checked_sub, saturating_sub}
use drfraudsworth_jupiter_ad.Jupiter.{Decimals, Quote}
use drfraudsworth_jupiter_ad.Math.AmmMath.{calculate_effective_input, calculate_swap_output}
use drfraudsworth_jupiter_ad.Math.AmmMath.Values.{effective_input-le}
use drfraudsworth_jupiter_ad.Math.TaxMath.{calculate_tax}
use drfraudsworth_jupiter_ad.SolPoolAmm.{SolPoolAmm, reserves}
use drfraudsworth_jupiter_ad.SolPoolAmm.Quoting.{quote_buy, quote_sell, quote_after_tax}
use drfraudsworth_jupiter_ad.SolPoolAmm.Quoting.Values.{HasU64Reserves, after_fee, swapped}
use drfraudsworth_jupiter_ad.SolPoolAmm.Quoting.Answers.{
  buy_input, buy_answer, sell_answer, zero_div,
}
use drfraudsworth_jupiter_ad.SolPoolAmm.Quoting.Economics.{quotes_total}

-- `none` is a panic of an `unwrap`.
unfoldable pub reference_buy_output : ℕ → ℕ → ℕ → ℕ → ℕ → Option ℕ
reference_buy_output reserve_sol reserve_token amount_in buy_tax_bps lp_fee_bps =
    if amount_in == 0
    then some 0
    else (calculate_tax amount_in buy_tax_bps >>=? λ tax.
        checked_sub amount_in tax >>=? λ sol_to_swap.
        if sol_to_swap == 0
        then some 0
        else (calculate_effective_input sol_to_swap lp_fee_bps >>=? λ effective.
            some (unwrap_or (calculate_swap_output reserve_sol reserve_token effective) 0)))

unfoldable pub reference_sell_output : ℕ → ℕ → ℕ → ℕ → ℕ → Option ℕ
reference_sell_output reserve_sol reserve_token amount_in sell_tax_bps lp_fee_bps =
    if amount_in == 0
    then some 0
    else (calculate_effective_input amount_in lp_fee_bps >>=? λ effective.
        let gross_sol = unwrap_or (calculate_swap_output reserve_token reserve_sol effective) 0 in
        calculate_tax gross_sol sell_tax_bps >>=? λ tax. some (saturating_sub gross_sol tax))

module _ {Decimal : Type 0} (dec : Decimals Decimal) where
  buy_reference :
      (amm : SolPoolAmm) (amount : ℕ) {q : Quote Decimal}
      → (amount == 0) ≡ false
      → quote_buy dec amm amount ≡ ok q
      → reference_buy_output
          (reserves amm).0
          (reserves amm).1
          amount
          amm.buy_tax_bps
          amm.pool.lp_fee_bps
        ≡ some q.out_amount
  unfolding quote_buy quote_after_tax reference_buy_output
  buy_reference amm amount pos h = ground arith

  sell_reference :
      (amm : SolPoolAmm) (amount : ℕ) {q : Quote Decimal}
      → (amount == 0) ≡ false
      → quote_sell dec amm amount ≡ ok q
      → reference_sell_output
          (reserves amm).0
          (reserves amm).1
          amount
          amm.sell_tax_bps
          amm.pool.lp_fee_bps
        ≡ some q.out_amount
  unfolding quote_sell reference_sell_output
  sell_reference amm amount pos h = ground arith

  buy_nothing :
      (amm : SolPoolAmm) {q : Quote Decimal}
      → HasU64Reserves amm
      → quote_buy dec amm 0 ≡ ok q
      → q.out_amount ≡ 0
  buy_nothing amm hr h =
      let (_, _, _, _, rest, out) = buy_answer dec amm 0 hr (omega arith) h in
      let empty : buy_input amm 0 ≡ 0 = omega (arith, rest) in
      out ∙ rw empty (zero_div (reserves amm).0 (reserves amm).1)

  sell_nothing :
      (amm : SolPoolAmm) {q : Quote Decimal}
      → HasU64Reserves amm
      → quote_sell dec amm 0 ≡ ok q
      → q.out_amount ≡ 0
  sell_nothing amm hr h =
      let (_, _, _, gross, _, _) = sell_answer dec amm 0 hr (omega arith) h in
      let empty : after_fee 0 amm.pool.lp_fee_bps ≡ 0 =
        omega (arith, effective_input-le 0 amm.pool.lp_fee_bps) in
      let none_out : swapped (reserves amm).1 (reserves amm).0 (after_fee 0 amm.pool.lp_fee_bps)
          ≡ 0 =
        rw empty (zero_div (reserves amm).1 (reserves amm).0) in
      omega (arith, gross ∙ none_out)

  -- On u64 reserves that are not empty and rates of at most 10,000 bps, a u64 amount is quoted in
  -- both directions with the output of the reference, which does not panic.
  pub reference_same :
      (amm : SolPoolAmm) (amount : ℕ)
      → HasU64Reserves amm
      → IsU64 amount
      → 0 < (reserves amm).0
      → 0 < (reserves amm).1
      → amm.pool.lp_fee_bps ≤ 10_000
      → amm.buy_tax_bps ≤ 10_000
      → amm.sell_tax_bps ≤ 10_000
      → ((q : Quote Decimal) × (quote_buy dec amm amount ≡ ok q)
          × (reference_buy_output
                (reserves amm).0
                (reserves amm).1
                amount
                amm.buy_tax_bps
                amm.pool.lp_fee_bps
              ≡ some q.out_amount))
        × ((q : Quote Decimal) × (quote_sell dec amm amount ≡ ok q)
            × (reference_sell_output
                  (reserves amm).0
                  (reserves amm).1
                  amount
                  amm.sell_tax_bps
                  amm.pool.lp_fee_bps
                ≡ some q.out_amount))
  unfolding reference_buy_output reference_sell_output
  reference_same amm amount hr h pos0 pos1 fee buy sell =
      let ((q, bought), (q', sold)) = quotes_total dec amm amount hr h pos0 pos1 fee buy sell in
      elim (Bool-cases (amount == 0)) [
        | inr some_in ↦ (
          (q, bought, buy_reference amm amount some_in bought),
          (q', sold, sell_reference amm amount some_in sold),
        )
        | inl none_in ↦
            let zero_in : amount ≡ 0 = ==→eq _ _ none_in in
            (
              (
                q,
                bought,
                rw none_in (
                    ap some (
                      sym (
                        buy_nothing amm hr
                          (subst (λ n. quote_buy dec amm n ≡ ok q) zero_in bought)))),
              ),
              (
                q',
                sold,
                rw none_in (
                    ap some (
                      sym (
                        sell_nothing amm hr
                          (subst (λ n. quote_sell dec amm n ≡ ok q') zero_in sold)))),
              ),
            )
      ]
