-- ===== src/SolPoolAmm/Refresh/Invariant.antt =====
-- The invariant of the adapter: `update` of src/sol_pool_amm.rs keeps it canonical.
use drfraudsworth_jupiter_ad.Prelude.{◌≡◌, refl, sym, inl, inr, Result, ok, err, ◌∙◌, arith}
use drfraudsworth_jupiter_ad.Pubkey.{Pubkey}
use drfraudsworth_jupiter_ad.Solana.{Derivation}
use drfraudsworth_jupiter_ad.Jupiter.{AccountMap}
use drfraudsworth_jupiter_ad.State.MintState.{MintLibrary}
use drfraudsworth_jupiter_ad.SolPoolAmm.{SolPoolAmm}
use drfraudsworth_jupiter_ad.SolPoolAmm.Refresh.{update}
use drfraudsworth_jupiter_ad.SolPoolAmm.Refresh.Identity.{IsCanonical, IsOriented}
use drfraudsworth_jupiter_ad.SolPoolAmm.Refresh.Accounts.{SameIdentity}
use drfraudsworth_jupiter_ad.SolPoolAmm.Refresh.Outcome.{successful_update_iff}
use drfraudsworth_jupiter_ad.SolPoolAmm.Refresh.Failure.{failed_update}

same-IsOriented :
    (p q p' q' : Pubkey) (amm amm' : SolPoolAmm)
    → p' ≡ p
    → q' ≡ q
    → SameIdentity amm amm'
    → IsOriented p q amm
    → IsOriented p' q' amm'
same-IsOriented p q p' q' amm amm' hp hq s o = record {
  role = rw (s.faction_mint, s.faction) o.role;
  quote_not_crime = rw s.quote_mint o.quote_not_crime;
  quote_not_fraud = rw s.quote_mint o.quote_not_fraud;
  faction_token_2022 = rw hp o.faction_token_2022;
  quote_supported = rw hq o.quote_supported;
  wsol_classic = rw (s.quote_mint, hq) o.wsol_classic;
}

pub SameIdentity-IsCanonical :
    (d : Derivation) (amm amm' : SolPoolAmm)
    → SameIdentity amm amm'
    → IsCanonical d amm
    → IsCanonical d amm'
SameIdentity-IsCanonical d amm amm' s c = record {
  ordered = ground (arith, s.pool.mint_a, s.pool.mint_b, c.ordered);
  key_pda = rw (s.key, s.pool.mint_a, s.pool.mint_b) c.key_pda;
  sides = elim c.sides [
    | inl (f, q, o) ↦ inl (
      s.faction_mint ∙ f ∙ sym s.pool.mint_a,
      s.quote_mint ∙ q ∙ sym s.pool.mint_b,
      same-IsOriented _ _ _ _ amm amm' s.pool.token_program_a s.pool.token_program_b s o,
    )
    | inr (f, q, o) ↦ inr (
      s.faction_mint ∙ f ∙ sym s.pool.mint_b,
      s.quote_mint ∙ q ∙ sym s.pool.mint_a,
      same-IsOriented _ _ _ _ amm amm' s.pool.token_program_b s.pool.token_program_a s o,
    )
  ];
}

module _ {Mint : Type 0} (lib : MintLibrary Mint) where
  update_same :
      (amm : SolPoolAmm) (accounts : AccountMap) (out : SolPoolAmm × Result (Unit {0}))
      → update lib amm accounts ≡ out
      → SameIdentity amm out.0
  update_same amm accounts (amm', ok _) h = ((successful_update_iff lib amm accounts amm').0 h).same
  update_same amm accounts (amm', err e) h = (failed_update lib amm accounts h).2

  -- Whatever a refresh returns, a canonical adapter stays canonical.
  pub update-IsCanonical :
      (d : Derivation) (amm : SolPoolAmm) (accounts : AccountMap)
      → IsCanonical d amm
      → IsCanonical d (update lib amm accounts).0
  update-IsCanonical d amm accounts c =
      SameIdentity-IsCanonical d amm (update lib amm accounts).0
        (update_same amm accounts (update lib amm accounts) refl) c
