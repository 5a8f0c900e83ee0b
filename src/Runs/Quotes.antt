-- ===== src/Runs/Quotes.antt =====
-- The theorems on the quotes of src/sol_pool_amm.rs at a refreshed WSOL/CRIME pool.
use drfraudsworth_jupiter_ad.Prelude.{
  ℕ, ◌+◌, ◌-◌, ◌*◌, ◌/◌, ◌≤◌, ◌<◌, ◌≡◌, ◌⊎◌, ◌↔◌, refl, leb, ◌==◌, if◌then◌else◌, some, ok, err,
  Error, arith,
}
use drfraudsworth_jupiter_ad.Jupiter.{QuoteParams, Quote, exact_in}
use drfraudsworth_jupiter_ad.Addresses.{native_mint, crime_mint}
use drfraudsworth_jupiter_ad.Math.AmmMath.{calculate_effective_input, calculate_swap_output}
use drfraudsworth_jupiter_ad.Math.TaxMath.{calculate_tax}
use drfraudsworth_jupiter_ad.SolPoolAmm.{SolPoolAmm, reserves}
use drfraudsworth_jupiter_ad.SolPoolAmm.Quoting.{
  all_tax, quote, quote_after_tax, quote_buy, quote_sell, total_buy_fee_pct, total_sell_fee_pct,
}
use drfraudsworth_jupiter_ad.SolPoolAmm.Quoting.Values.{
  after_fee, bought, sold, tax_of, quote_buy_value, quote_sell_value,
}
use drfraudsworth_jupiter_ad.SolPoolAmm.Quoting.Gates.{IsOpen, IsBuyOf, IsSellOf, quote_iff}
use drfraudsworth_jupiter_ad.SolPoolAmm.Quoting.Economics.{
  buy_bounds, sell_bounds, buy_mono, sell_mono, buy_then_sell,
}
use drfraudsworth_jupiter_ad.SolPoolAmm.Quoting.Reference.{
  reference_buy_output, reference_sell_output, reference_same,
}
use drfraudsworth_jupiter_ad.Runs.Data.{naturals, crime_pool, live_adapter}

-- Two buys and two sales.
abbrev pub bought_10000 : Quote ℕ
bought_10000 = record {
  in_amount = 10_000;
  out_amount = 470_726;
  fee_amount = 496;
  fee_mint = native_mint;
  fee_pct = 500;
}

abbrev bought_20000 : Quote ℕ
bought_20000 = record {
  in_amount = 20_000;
  out_amount = 932_671;
  fee_amount = 992;
  fee_mint = native_mint;
  fee_pct = 500;
}

abbrev sold_400000 : Quote ℕ
sold_400000 = record {
  in_amount = 400_000;
  out_amount = 6_758;
  fee_amount = 1_099;
  fee_mint = native_mint;
  fee_pct = 1_500;
}

abbrev sold_500000 : Quote ℕ
sold_500000 = record {
  in_amount = 500_000;
  out_amount = 8_430;
  fee_amount = 1_372;
  fee_mint = native_mint;
  fee_pct = 1_500;
}

-- The adapter behind the first buy, and the sale of what it paid out.
abbrev after_buy : SolPoolAmm
after_buy = record live_adapter {
  pool = record crime_pool { reserve_a = 1_009_600; reserve_b = 49_529_274 };
}

abbrev sold_back : Quote ℕ
sold_back = record {
  in_amount = 470_726;
  out_amount = 8_093;
  fee_amount = 1_317;
  fee_mint = native_mint;
  fee_pct = 1_500;
}

pub buy_10000 : quote_buy naturals live_adapter 10_000 ≡ ok bought_10000
unfolding quote_buy quote_after_tax calculate_tax calculate_effective_input calculate_swap_output
    reserves total_buy_fee_pct
buy_10000 = refl

buy_20000 : quote_buy naturals live_adapter 20_000 ≡ ok bought_20000
unfolding quote_buy quote_after_tax calculate_tax calculate_effective_input calculate_swap_output
    reserves total_buy_fee_pct
buy_20000 = refl

sell_400000 : quote_sell naturals live_adapter 400_000 ≡ ok sold_400000
unfolding quote_sell calculate_tax calculate_effective_input calculate_swap_output reserves
    total_sell_fee_pct
sell_400000 = refl

sell_500000 : quote_sell naturals live_adapter 500_000 ≡ ok sold_500000
unfolding quote_sell calculate_tax calculate_effective_input calculate_swap_output reserves
    total_sell_fee_pct
sell_500000 = refl

sell_back : quote_sell naturals after_buy 470_726 ≡ ok sold_back
unfolding quote_sell calculate_tax calculate_effective_input calculate_swap_output reserves
    total_sell_fee_pct
sell_back = refl

quote_reserve : (reserves after_buy).0 ≤ (reserves live_adapter).0 + 10_000
unfolding reserves
quote_reserve = omega arith

faction_reserve : (reserves after_buy).1 ≡ (reserves live_adapter).1 - 470_726
unfolding reserves
faction_reserve = refl

quote_filled : 0 < (reserves live_adapter).0
unfolding reserves
quote_filled = omega arith

faction_filled : 0 < (reserves live_adapter).1
unfolding reserves
faction_filled = omega arith

buy_then_sell_example : 8_093 ≤ 10_000
buy_then_sell_example =
    buy_then_sell naturals live_adapter after_buy 10_000 (omega arith, omega arith)
      (omega arith, omega arith) (omega arith) buy_10000 quote_reserve faction_reserve sell_back

buy_mono_example : 470_726 ≤ 932_671
buy_mono_example =
    buy_mono naturals live_adapter 10_000 20_000 (omega arith, omega arith) (omega arith)
      (omega arith) buy_10000 buy_20000

sell_mono_example : 6_758 ≤ 8_430
sell_mono_example =
    sell_mono naturals live_adapter 400_000 500_000 (omega arith, omega arith) (omega arith)
      (omega arith) sell_400000 sell_500000

buy_bounds_example :
    (bought_10000.in_amount ≡ 10_000)
    × (native_mint ≡ native_mint)
    × (496 ≤ 10_000)
    × (470_726 ≤ (reserves live_adapter).1)
    × (470_726 * ((reserves live_adapter).0 + (10_000 - 496))
        ≤ (reserves live_adapter).1 * (10_000 - 496))
buy_bounds_example =
    buy_bounds naturals live_adapter 10_000 (omega arith, omega arith) (omega arith) buy_10000

sell_bounds_example :
    (sold_400000.in_amount ≡ 400_000)
    × (native_mint ≡ native_mint)
    × (6_758 + 1_099 ≤ (reserves live_adapter).0)
    × (1_099 ≡ (6_758 + 1_099) * 1_400 / 10_000)
    × ((6_758 + 1_099) * ((reserves live_adapter).1 + 400_000)
        ≤ (reserves live_adapter).0 * 400_000)
sell_bounds_example =
    sell_bounds naturals live_adapter 400_000 (omega arith, omega arith) (omega arith) sell_400000

reference_same_example :
    ((q : Quote ℕ) × (quote_buy naturals live_adapter 10_000 ≡ ok q)
      × (reference_buy_output (reserves live_adapter).0 (reserves live_adapter).1 10_000 400 100
          ≡ some q.out_amount))
    × ((q : Quote ℕ) × (quote_sell naturals live_adapter 10_000 ≡ ok q)
        × (reference_sell_output
              (reserves live_adapter).0
              (reserves live_adapter).1
              10_000
              1_400
              100
            ≡ some q.out_amount))
reference_same_example =
    reference_same naturals live_adapter 10_000 (omega arith, omega arith) (omega arith)
      quote_filled faction_filled (omega arith) (omega arith) (omega arith)

quote_buy_value_example : quote_buy naturals live_adapter 10_000 ≡ (
    if leb 400 10_000
    then (if 10_000 - tax_of 10_000 400 == 0
        then ok (all_tax naturals live_adapter 10_000 10_000)
        else if leb 100 10_000
        then (if (reserves live_adapter).0 + after_fee (10_000 - tax_of 10_000 400) 100 == 0
            then err Error.swap_overflow
            else ok
                (bought naturals live_adapter 10_000 (after_fee (10_000 - tax_of 10_000 400) 100)))
        else err Error.input_overflow)
    else err Error.tax_overflow)
quote_buy_value_example =
    quote_buy_value naturals live_adapter 10_000 (omega arith, omega arith) (omega arith)

quote_sell_value_example : quote_sell naturals live_adapter 400_000 ≡ (
    if leb 100 10_000
    then (if (reserves live_adapter).1 + after_fee 400_000 100 == 0
        then err Error.swap_overflow
        else if leb 1_400 10_000
        then ok (sold naturals live_adapter 400_000 (after_fee 400_000 100))
        else err Error.tax_overflow)
    else err Error.input_overflow)
quote_sell_value_example =
    quote_sell_value naturals live_adapter 400_000 (omega arith, omega arith) (omega arith)

-- A request to buy, on the first slot behind the pause.
abbrev pub request : QuoteParams
request = record {
  amount = 10_000;
  input_mint = native_mint;
  output_mint = crime_mint;
  swap_mode = exact_in;
}

quote_iff_example : (quote naturals 77 live_adapter request ≡ ok bought_10000) ↔ (
    (exact_in ≡ exact_in)
    × IsOpen 77 live_adapter
    × ((IsBuyOf live_adapter request × (quote_buy naturals live_adapter 10_000 ≡ ok bought_10000))
        ⊎ (IsSellOf live_adapter request
            × (quote_sell naturals live_adapter 10_000 ≡ ok bought_10000))))
quote_iff_example = quote_iff naturals 77 live_adapter request bought_10000
