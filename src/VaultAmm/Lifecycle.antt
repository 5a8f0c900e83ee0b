-- ===== src/VaultAmm/Lifecycle.antt =====
-- The life of an adapter of src/vault_amm.rs with its aggregator: refreshed from account maps, each
-- refresh successful or not.
use drfraudsworth_jupiter_ad.Prelude.{
  ℕ, ◌≤◌, ◌≡◌, refl, sym, subst, ◌∙◌, ap, arith, Bool, true, false, List, [], ◌∷◌, Result, ok, err,
}
use drfraudsworth_jupiter_ad.Jupiter.{AccountMap, QuoteParams, Decimals, Quote}
use drfraudsworth_jupiter_ad.Jupiter.Life.{
  Life, Step, tick, refresh, fail, Reach, born, reach_keeps,
}
use drfraudsworth_jupiter_ad.VaultAmm.{
  VaultAmm, update, quote, set_balance, refreshed_balance, validate_mint_pair,
}
use drfraudsworth_jupiter_ad.VaultAmm.Answers.{BalanceShows, vault_update_iff, failed_vault_update}

-- Without a successful refresh the balance is that of the construction, and behind one it is what
-- the accounts of that refresh show.
abbrev pub BalanceFrom : ℕ → List (AccountMap × Bool) → VaultAmm → Type 0
BalanceFrom balance [] amm = amm.output_vault_balance ≡ balance
BalanceFrom balance ((accounts, true) ∷ older) amm =
    BalanceShows amm accounts amm.output_vault_balance
BalanceFrom balance ((accounts, false) ∷ older) amm = BalanceFrom balance older amm

-- The adapter is the constructed one but for the balance.
pub record IsSound (built : VaultAmm) (life : Life VaultAmm) : Type 0 where
  pub same : life.amm ≡ record built { output_vault_balance = life.amm.output_vault_balance }
  pub current : BalanceFrom built.output_vault_balance life.history life.amm

set_success :
    (amm : VaultAmm) (r : Result ℕ) {amm' : VaultAmm}
    → set_balance amm r ≡ (amm', ok tt)
    → amm' ≡ record amm { output_vault_balance = amm'.output_vault_balance }
unfolding set_balance
set_success amm (ok balance) h = ground arith
set_success amm (err e) h = cc

update_success :
    (amm : VaultAmm) (accounts : AccountMap) {amm' : VaultAmm}
    → update amm accounts ≡ (amm', ok tt)
    → amm' ≡ record amm { output_vault_balance = amm'.output_vault_balance }
unfolding update
update_success amm accounts h = set_success amm (refreshed_balance amm accounts) h

BalanceShows-with :
    (amm amm' : VaultAmm) (accounts : AccountMap) (shown balance : ℕ)
    → amm' ≡ record amm { output_vault_balance = balance }
    → BalanceShows amm accounts shown
    → BalanceShows amm' accounts shown
BalanceShows-with amm amm' accounts shown balance h s =
    subst (λ a. BalanceShows a accounts shown) (sym h)
      (record {
        config = s.config;
        config_listed = s.config_listed;
        config_filled = s.config_filled;
        vault = s.vault;
        vault_listed = s.vault_listed;
        parsed = s.parsed;
      })

same_as :
    (built now amm : VaultAmm)
    → amm ≡ record now { output_vault_balance = amm.output_vault_balance }
    → now ≡ record built { output_vault_balance = now.output_vault_balance }
    → amm ≡ record built { output_vault_balance = amm.output_vault_balance }
same_as built now amm h k = cc

Step-IsSound :
    (built : VaultAmm) {now later : Life VaultAmm}
    → Step update now later
    → IsSound built now
    → IsSound built later
Step-IsSound built (tick slot le) s = record { same = s.same; current = s.current }
Step-IsSound built {now} (refresh accounts amm h) s =
    let set = update_success now.amm accounts h in
    let shows =
      (vault_update_iff now.amm accounts amm.output_vault_balance).0
        (h ∙ ap (λ amm. (amm, ok tt)) set) in
    record {
      same = same_as built now.amm amm set s.same;
      current = BalanceShows-with now.amm amm accounts _ _ set shows;
    }
Step-IsSound built {now} (fail accounts amm e h) s =
    let (same, _) = failed_vault_update now.amm accounts h in
    subst (λ a. IsSound built (record now { amm = a; history = (accounts, false) ∷ now.history }))
      (sym same) (record { same = s.same; current = s.current })

born-IsSound : (built : VaultAmm) (slot : ℕ) → IsSound built (born slot built)
born-IsSound built slot = record { same = refl; current = refl }

-- What a quote promises is covered by the last balance that was read, or by the construction's.
abbrev pub CoveredBy : ℕ → List (AccountMap × Bool) → VaultAmm → ℕ → Type 0
CoveredBy balance [] amm out = out ≤ balance
CoveredBy balance ((accounts, true) ∷ older) amm out =
    (shown : ℕ) × BalanceShows amm accounts shown × (out ≤ shown)
CoveredBy balance ((accounts, false) ∷ older) amm out = CoveredBy balance older amm out

covered :
    (balance : ℕ) (history : List (AccountMap × Bool)) (amm : VaultAmm) (out : ℕ)
    → BalanceFrom balance history amm
    → out ≤ amm.output_vault_balance
    → CoveredBy balance history amm out
covered balance [] amm out b le = rw b at le
covered balance ((accounts, true) ∷ older) amm out b le = (amm.output_vault_balance, b, le)
covered balance ((accounts, false) ∷ older) amm out b le = covered balance older amm out b le

module _ {Decimal : Type 0} (dec : Decimals Decimal) where
  quote_covered :
      (amm : VaultAmm) (params : QuoteParams) {q : Quote Decimal}
      → quote dec amm params ≡ ok q
      → q.out_amount ≤ amm.output_vault_balance
  unfolding quote validate_mint_pair
  quote_covered amm params h = ground arith

  -- Whatever refreshes have succeeded or failed since its construction, the adapter is the one that
  -- was constructed but for its balance, and what it quotes is covered by the output vault's balance
  -- that the accounts of the last successful refresh show, or by the construction's balance where
  -- there was none.
  pub vault_quote_covered :
      (built : VaultAmm) (params : QuoteParams) (q : Quote Decimal) (slot : ℕ) {now : Life VaultAmm}
      → Reach update (born slot built) now
      → quote dec now.amm params ≡ ok q
      → (now.amm ≡ record built { output_vault_balance = now.amm.output_vault_balance })
        × CoveredBy built.output_vault_balance now.history now.amm q.out_amount
  vault_quote_covered built params q slot {now} r quoted =
      let s =
        reach_keeps update (IsSound built) (λ _ _ step s. Step-IsSound built step s)
          (born-IsSound built slot) r in
      (
        s.same,
        covered built.output_vault_balance now.history now.amm q.out_amount s.current
            (quote_covered now.amm params quoted),
      )
