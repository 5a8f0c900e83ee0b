-- ===== src/SolPoolAmm/Swapping/Metas.antt =====
-- The account lists that `get_swap_and_account_metas` of src/sol_pool_amm.rs answers with.
use drfraudsworth_jupiter_ad.Prelude.{
  ℕ, ◌≤◌, ◌≡◌, ◌≢◌, ◌⊎◌, ◌==◌, sym, arith, inl, inr, some, List, [], ◌∷◌, length, ok, refl, Bool,
  true, false, ◌∙◌, subst, ok_inj, Bool-cases, ==→eq,
}
use drfraudsworth_jupiter_ad.Solana.{AccountMeta, Derivation, signers}
use drfraudsworth_jupiter_ad.Jupiter.{SwapParams, exact_in, token_swap}
use drfraudsworth_jupiter_ad.Addresses.{native_mint}
use drfraudsworth_jupiter_ad.Instruction.{
  TaxSwapLane, sol_buy, sol_buy_wsol, sol_sell, spl_buy, spl_sell, for_mints,
}
use drfraudsworth_jupiter_ad.Accounts.SolPoolAccounts.Shape.{Shaped, sol_metas_shape}
use drfraudsworth_jupiter_ad.Accounts.SplPoolAccounts.Shape.{spl_metas_shape}
use drfraudsworth_jupiter_ad.SolPoolAmm.{SolPoolAmm, get_accounts_len}
use drfraudsworth_jupiter_ad.SolPoolAmm.Refresh.Identity.{IsCanonical}
use drfraudsworth_jupiter_ad.SolPoolAmm.Swapping.{lane_metas, get_swap_and_account_metas}
use drfraudsworth_jupiter_ad.Pubkey.{Pubkey}
use drfraudsworth_jupiter_ad.Accounts.Alignment.{LinesUp}
use drfraudsworth_jupiter_ad.Accounts.SplPoolAccounts.{sweep_accounts}
use drfraudsworth_jupiter_ad.Accounts.SolPoolAccounts.Sides.{sol_metas_sides}
use drfraudsworth_jupiter_ad.Accounts.SplPoolAccounts.Sides.{PaysThrough, spl_metas_sides}
use drfraudsworth_jupiter_ad.SolPoolAmm.Swapping.Lanes.{
  Buys, Sells, canonical-IsFactionPool, canonical-IsSolPool, canonical_mints, buy_lane, sell_lane,
  swap_value,
}

-- The number of accounts of a lane.
abbrev pub lane_len : TaxSwapLane → ℕ
lane_len sol_buy = 24
lane_len sol_buy_wsol = 25
lane_len sol_sell = 25
lane_len spl_buy = 21
lane_len spl_sell = 22

lane_len-le : (lane : TaxSwapLane) → lane_len lane ≤ 25
lane_len-le sol_buy = omega arith
lane_len-le sol_buy_wsol = omega arith
lane_len-le sol_sell = omega arith
lane_len-le spl_buy = omega arith
lane_len-le spl_sell = omega arith

==-neq : (a b : Pubkey) → (a == b) ≡ false → a ≢ b
==-neq a b h = λ e. ground arith

-- An answer on a lane. The list has the lane's number of accounts, at most what the adapter
-- announces; the transfer authority alone signs; and it lines up with the pool, with the user's
-- faction account and the one that the other side is paid from or to.
pub record Answers (d : Derivation) (amm : SolPoolAmm) (params : SwapParams) (lane : TaxSwapLane)
    (is_buy : Bool) (position named : ℕ) (users : Pubkey × Pubkey) : Type 0 where
  pub selected :
      for_mints amm.quote_mint amm.faction_mint params.source_mint params.destination_mint
      ≡ some lane
  pub metas : List AccountMeta
  pub built :
      get_swap_and_account_metas d amm params
      ≡ ok (record { swap = token_swap; account_metas = metas })
  pub count : length metas ≡ lane_len lane
  pub announced : lane_len lane ≤ get_accounts_len amm
  pub signed : signers metas ≡ params.token_transfer_authority ∷ []
  pub lines_up : LinesUp d is_buy position named amm.pool users (ok metas)

answers :
    (d : Derivation) (amm : SolPoolAmm) (params : SwapParams) (lane : TaxSwapLane) {is_buy : Bool}
    {position named : ℕ} {users : Pubkey × Pubkey}
    → params.swap_mode ≡ exact_in
    → amm.quote_mint ≢ amm.faction_mint
    → Buys amm params ⊎ Sells amm params
    → for_mints amm.quote_mint amm.faction_mint params.source_mint params.destination_mint
      ≡ some lane
    → (shaped : Shaped
        (lane_metas d lane amm params)
        params.token_transfer_authority
        (lane_len lane))
    → LinesUp d is_buy position named amm.pool users (lane_metas d lane amm params)
    → (a : Answers d amm params lane is_buy position named users) × (a.metas ≡ shaped.0)
unfolding get_accounts_len
answers d amm params lane {is_buy} {position} {named} {users} mode ne pair chosen
      (metas, built, count, signed) lines =
    (
      record {
        selected = chosen;
        metas = metas;
        built = swap_value d amm params lane metas mode ne pair chosen built;
        count = count;
        announced = lane_len-le lane;
        signed = signed;
        lines_up = subst (LinesUp d is_buy position named amm.pool users) built lines;
      },
      refl,
    )

-- A sale on the SPL lane swaps into the sweep's account of the quote mint, and its list names that
-- account and the user's one next to it.
pub record Sweeps (d : Derivation) (amm : SolPoolAmm) (params : SwapParams) : Type 0 where
  pub sweep : Pubkey × Pubkey
  pub derived : sweep_accounts d amm.pool ≡ ok sweep
  pub answered : Answers d amm params spl_sell false 3 18 (params.source_token_account, sweep.1)
  pub pays : PaysThrough answered.metas sweep.1 params.destination_token_account

-- The answer to a buy: from the user's quote account to the user's faction account, on the WSOL lane
-- or on the SPL lane.
abbrev pub AnswersBuy : Derivation → SolPoolAmm → SwapParams → Type 0
AnswersBuy d amm params =
    let users : Pubkey × Pubkey = (params.destination_token_account, params.source_token_account) in
    ((amm.quote_mint ≡ native_mint) × Answers d amm params sol_buy_wsol true 5 21 users)
    ⊎ ((amm.quote_mint ≢ native_mint) × Answers d amm params spl_buy true 3 17 users)

-- The answer to a sale: from the user's faction account to the user's quote account.
abbrev pub AnswersSell : Derivation → SolPoolAmm → SwapParams → Type 0
AnswersSell d amm params =
    let users : Pubkey × Pubkey = (params.source_token_account, params.destination_token_account) in
    ((amm.quote_mint ≡ native_mint) × Answers d amm params sol_sell false 5 21 users)
    ⊎ ((amm.quote_mint ≢ native_mint) × Sweeps d amm params)

module _ (d : Derivation) (amm : SolPoolAmm) (params : SwapParams) (c : IsCanonical d amm)
    (mode : params.swap_mode ≡ exact_in) where
  buy_answered : Buys amm params → AnswersBuy d amm params
  unfolding lane_metas
  buy_answered pair =
      let ne = canonical_mints d amm c in
      let from = params.source_token_account in
      let to = params.destination_token_account in
      let user = params.token_transfer_authority in
      let lane = buy_lane amm params pair in
      elim (Bool-cases (amm.quote_mint == native_mint)) [
        | inl e ↦
            let pool = canonical-IsSolPool d amm (==→eq _ _ e) c in
            inl (
              ==→eq _ _ e,
              (answers d amm params sol_buy_wsol mode ne (inl pair) (rw e at lane)
                  (sol_metas_shape d user from to amm.key amm.pool pool).1
                  (sol_metas_sides d user from to amm.key amm.pool pool).1).0,
            )
        | inr e ↦
            let pool = canonical-IsFactionPool d amm c in
            inr (
              ==-neq amm.quote_mint native_mint e,
              (answers d amm params spl_buy mode ne (inl pair) (rw e at lane)
                  (spl_metas_shape d user from to amm.key amm.pool pool).0
                  (spl_metas_sides d user from to amm.key amm.pool pool).2).0,
            )
      ]

  spl_sell_answered :
      for_mints amm.quote_mint amm.faction_mint params.source_mint params.destination_mint
        ≡ some spl_sell
      → Sells amm params
      → Sweeps d amm params
  unfolding lane_metas
  spl_sell_answered lane pair =
      let from = params.source_token_account in
      let to = params.destination_token_account in
      let user = params.token_transfer_authority in
      let pool = canonical-IsFactionPool d amm c in
      let shape = (spl_metas_shape d user to from amm.key amm.pool pool).1 in
      let (sweep, derived, _, lines, (metas, built, pays)) =
        spl_metas_sides d user to from amm.key amm.pool pool in
      let (a, same) =
        answers d amm params spl_sell mode (canonical_mints d amm c) (inr pair) lane shape lines in
      record {
        sweep = sweep;
        derived = derived;
        answered = a;
        pays =
            subst (λ m. PaysThrough m sweep.1 to) (sym (same ∙ ok_inj (sym shape.1 ∙ built))) pays;
      }

  sell_answered : Sells amm params → AnswersSell d amm params
  unfolding lane_metas
  sell_answered pair =
      let ne = canonical_mints d amm c in
      let from = params.source_token_account in
      let to = params.destination_token_account in
      let user = params.token_transfer_authority in
      let lane = sell_lane amm params ne pair in
      elim (Bool-cases (amm.quote_mint == native_mint)) [
        | inl e ↦
            let pool = canonical-IsSolPool d amm (==→eq _ _ e) c in
            inl (
              ==→eq _ _ e,
              (answers d amm params sol_sell mode ne (inr pair) (rw e at lane)
                  (sol_metas_shape d user to from amm.key amm.pool pool).2
                  (sol_metas_sides d user to from amm.key amm.pool pool).2).0,
            )
        | inr e ↦ inr (==-neq amm.quote_mint native_mint e, spl_sell_answered (rw e at lane) pair)
      ]

-- A canonical adapter answers every ExactIn request of its pair. A buy is answered on the lane
-- `sol_buy_wsol` where the quote mint is WSOL and on `spl_buy` elsewhere; a sale on `sol_sell` and
-- on `spl_sell`. The list has the lane's number of accounts, at most what is announced, is signed by
-- the transfer authority alone, and lines up with the pool: each of the user's two accounts on its
-- side, and the hook's accounts in the direction of the transfer. On the lane `spl_sell` the
-- sweep's account stands in the place of the user's quote account, which is listed next to it.
pub swap_metas_total :
    (d : Derivation) (amm : SolPoolAmm) (params : SwapParams)
    → IsCanonical d amm
    → params.swap_mode ≡ exact_in
    → Buys amm params ⊎ Sells amm params
    → (Buys amm params × AnswersBuy d amm params) ⊎ (Sells amm params × AnswersSell d amm params)
swap_metas_total d amm params c mode (inl buys) = inl (buys, buy_answered d amm params c mode buys)
swap_metas_total d amm params c mode (inr sells) =
    inr (sells, sell_answered d amm params c mode sells)
