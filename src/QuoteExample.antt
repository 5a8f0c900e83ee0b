-- ===== src/QuoteExample.antt =====
-- examples/quote_example.rs: the program that shows the library's quotes and its discovery. What it
-- prints is a report; where it panics, on an `expect`, there is none.
use Prim.Native.String.{String}
use drfraudsworth_jupiter_ad.Prelude.{
  ℕ, ◌+◌, ◌≡◌, refl, true, Option, none, some, List, [], ◌∷◌, length, ◌==◌, if◌then◌else◌, Result,
  ok, err, ◌>>=?◌,
}
use drfraudsworth_jupiter_ad.Pubkey.{Pubkey}
use drfraudsworth_jupiter_ad.Solana.{Derivation}
use drfraudsworth_jupiter_ad.Jupiter.{QuoteParams, Decimals, Quote, exact_in}
use drfraudsworth_jupiter_ad.Addresses.{crime_mint, fraud_mint, native_mint, profit_mint}
use drfraudsworth_jupiter_ad.Accounts.SolPoolAccounts.{known_pool_state, pool_addresses}
use drfraudsworth_jupiter_ad.State.PoolState.{token_mint}
use drfraudsworth_jupiter_ad.Math.AmmMath.{calculate_effective_input, calculate_swap_output}
use drfraudsworth_jupiter_ad.Math.TaxMath.{calculate_tax}
use drfraudsworth_jupiter_ad.Math.VaultMath.{compute_vault_output}
use drfraudsworth_jupiter_ad.SolPoolAmm as Pool
use drfraudsworth_jupiter_ad.SolPoolAmm.{SolPoolAmm}
use drfraudsworth_jupiter_ad.SolPoolAmm.Quoting as PoolQuotes
use drfraudsworth_jupiter_ad.VaultAmm as Vault
use drfraudsworth_jupiter_ad.VaultAmm.{VaultAmm}

-- `expect`.
abbrev expect {ℓ} : {A : Type ℓ} → Result A → Option A
expect (ok a) = some a
expect (err e) = none

abbrev mint_name : Pubkey → String
mint_name mint =
    if mint == crime_mint
    then "CRIME"
    else if mint == fraud_mint
    then "FRAUD"
    else if mint == profit_mint
    then "PROFIT"
    else if mint == native_mint
    then "SOL"
    else "UNKNOWN"

-- A request for the output of this input.
abbrev request : ℕ → Pubkey → Pubkey → QuoteParams
request amount input_mint output_mint = record {
  amount = amount;
  input_mint = input_mint;
  output_mint = output_mint;
  swap_mode = exact_in;
}

-- What is printed: the four quotes, the keys of the SOL pools, the conversions by name with their
-- keys, and the number of instances.
record Report (Decimal : Type 0) : Type 0 where
  pub buy_quote : Quote Decimal
  pub sell_quote : Quote Decimal
  pub vault_quote : Quote Decimal
  pub reverse_quote : Quote Decimal
  pub sol_keys : List Pubkey
  pub conversions : List (String × String × Pubkey)
  pub total : ℕ

-- The loop over the conversions. Each adapter has two reserve mints.
abbrev names_of : List Pubkey → String × String
names_of (input ∷ output ∷ mints) = (mint_name input, mint_name output)
names_of _ = ("UNKNOWN", "UNKNOWN")

abbrev conversions_of : List (Pubkey × VaultAmm) → List (String × String × Pubkey)
conversions_of [] = []
conversions_of ((key, amm) ∷ instances) =
    let (input_name, output_name) = names_of (Vault.get_reserve_mints amm) in
    (input_name, output_name, key) ∷ conversions_of instances

module _ {Decimal : Type 0} (dec : Decimals Decimal) (d : Derivation) where
  -- The clock of an adapter that is made for testing shows slot 0.
  unfoldable main : Option (Report Decimal)
  main = Pool.new_for_testing true 50_000_000_000 500_000_000_000 400 1_400 >>=? λ sol_amm.
      expect (PoolQuotes.quote dec 0 sol_amm (request 1_000_000_000 native_mint crime_mint))
      >>=? λ buy_quote.
          expect (PoolQuotes.quote dec 0 sol_amm (request 10_000_000_000 crime_mint native_mint))
          >>=? λ sell_quote. Vault.new_for_testing d crime_mint profit_mint >>=? λ vault_amm.
              expect (Vault.quote dec vault_amm (request 100_000_000_000 crime_mint profit_mint))
              >>=? λ vault_quote.
                  Vault.new_for_testing d profit_mint fraud_mint >>=? λ reverse_vault.
                  expect
                    (Vault.quote dec reverse_vault (request 1_000_000_000 profit_mint fraud_mint))
                  >>=? λ reverse_quote. Vault.known_instances d >>=? λ vault_instances.
                      some (record {
                        buy_quote = buy_quote;
                        sell_quote = sell_quote;
                        vault_quote = vault_quote;
                        reverse_quote = reverse_quote;
                        sol_keys = Vault.known_sol_pool_keys d;
                        conversions = conversions_of vault_instances;
                        total = length (Vault.known_sol_pool_keys d) + length vault_instances;
                      })

  -- The program runs to its end, whatever the derivation: it counts six instances, converts at the
  -- rates that it prints and names each conversion by its mints.
  main_total :
      (report : Report Decimal) × (main ≡ some report)
      × (report.total ≡ 6)
      × (report.vault_quote.out_amount ≡ 1_000_000_000)
      × (report.reverse_quote.out_amount ≡ 100_000_000_000)
      × (report.conversions
          ≡ ("CRIME", "PROFIT", Vault.derive_synthetic_key d crime_mint profit_mint)
            ∷ ("FRAUD", "PROFIT", Vault.derive_synthetic_key d fraud_mint profit_mint)
            ∷ ("PROFIT", "CRIME", Vault.derive_synthetic_key d profit_mint crime_mint)
            ∷ ("PROFIT", "FRAUD", Vault.derive_synthetic_key d profit_mint fraud_mint)
            ∷ [])
  unfolding main Pool.new_for_testing PoolQuotes.quote Pool.validate_mint_pair Pool.is_active
      PoolQuotes.quote_buy calculate_tax PoolQuotes.quote_after_tax calculate_effective_input
      calculate_swap_output Pool.reserves PoolQuotes.quote_sell Vault.new_for_testing
      Vault.conversion_output_vault Vault.vault_for_mint Vault.quote Vault.validate_mint_pair
      Vault.instance_of known_pool_state pool_addresses compute_vault_output
      PoolQuotes.total_buy_fee_pct PoolQuotes.total_sell_fee_pct Pool.from_mint token_mint
      Vault.get_reserve_mints Vault.instances_of Vault.known_instances
  main_total = (_, refl, refl, refl, refl, refl)
