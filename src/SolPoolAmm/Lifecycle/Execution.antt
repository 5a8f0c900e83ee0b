-- ===== src/SolPoolAmm/Lifecycle/Execution.antt =====
-- What the adapter of src/sol_pool_amm.rs quotes it can also execute: `quote` and
-- `get_swap_and_account_metas` answer the same requests.
use drfraudsworth_jupiter_ad.Prelude.{
  ℕ, Bool, ◌≤◌, ◌≡◌, ◌⊎◌, inl, inr, ◌∙◌, List, [], ◌∷◌, All, length, ok,
}
use drfraudsworth_jupiter_ad.Words.{IsByte}
use drfraudsworth_jupiter_ad.Pubkey.{Pubkey}
use drfraudsworth_jupiter_ad.Solana.{AccountMeta, Derivation, signers}
use drfraudsworth_jupiter_ad.Jupiter.{
  KeyedAccount, QuoteParams, Decimals, Quote, SwapParams, exact_in, token_swap,
}
use drfraudsworth_jupiter_ad.Instruction.{TaxSwapLane}
use drfraudsworth_jupiter_ad.State.MintState.{MintLibrary}
use drfraudsworth_jupiter_ad.SolPoolAmm.{SolPoolAmm, from_keyed_account, get_accounts_len}
use drfraudsworth_jupiter_ad.SolPoolAmm.Refresh.Identity.{IsCanonical}
use drfraudsworth_jupiter_ad.SolPoolAmm.Quoting.{quote}
use drfraudsworth_jupiter_ad.SolPoolAmm.Quoting.Gates.{IsBuyOf, IsSellOf, quote_iff}
use drfraudsworth_jupiter_ad.SolPoolAmm.Swapping.{get_swap_and_account_metas}
use drfraudsworth_jupiter_ad.SolPoolAmm.Swapping.Lanes.{Buys, Sells}
use drfraudsworth_jupiter_ad.SolPoolAmm.Swapping.Metas.{Answers, swap_metas_total}
use drfraudsworth_jupiter_ad.SolPoolAmm.Lifecycle.{Reach-born}
use drfraudsworth_jupiter_ad.SolPoolAmm.Refresh.{update}
use drfraudsworth_jupiter_ad.Jupiter.Life.{Life, Reach, born}

-- The swap of a quoted request: the same pair and mode.
pub record IsSwapOf (params : QuoteParams) (swap : SwapParams) : Type 0 where
  pub source : swap.source_mint ≡ params.input_mint
  pub destination : swap.destination_mint ≡ params.output_mint
  pub mode : swap.swap_mode ≡ params.swap_mode

-- A list of accounts for a swap, no longer than announced, that its authority alone signs.
pub record Executes (d : Derivation) (amm : SolPoolAmm) (swap : SwapParams) : Type 0 where
  pub metas : List AccountMeta
  pub built :
      get_swap_and_account_metas d amm swap
      ≡ ok (record { swap = token_swap; account_metas = metas })
  pub announced : length metas ≤ get_accounts_len amm
  pub signed : signers metas ≡ swap.token_transfer_authority ∷ []

Answers-Executes :
    (d : Derivation) (amm : SolPoolAmm) (swap : SwapParams) {lane : TaxSwapLane} {is_buy : Bool}
    {position named : ℕ} {users : Pubkey × Pubkey}
    → Answers d amm swap lane is_buy position named users
    → Executes d amm swap
Answers-Executes d amm swap a = record {
  metas = a.metas;
  built = a.built;
  announced = rw a.count a.announced;
  signed = a.signed;
}

quoted_pair :
    (amm : SolPoolAmm) (params : QuoteParams) (swap : SwapParams)
    → IsSwapOf params swap
    → IsBuyOf amm params ⊎ IsSellOf amm params
    → Buys amm swap ⊎ Sells amm swap
quoted_pair amm params swap s (inl (i, o)) = inl (s.source ∙ i, s.destination ∙ o)
quoted_pair amm params swap s (inr (_, i, o)) = inr (s.source ∙ i, s.destination ∙ o)

canonical-Executes :
    (d : Derivation) (amm : SolPoolAmm) (swap : SwapParams)
    → IsCanonical d amm
    → swap.swap_mode ≡ exact_in
    → Buys amm swap ⊎ Sells amm swap
    → Executes d amm swap
canonical-Executes d amm swap c mode pair = elim (swap_metas_total d amm swap c mode pair) [
  | inl (_, inl (_, a)) ↦ Answers-Executes d amm swap a
  | inl (_, inr (_, a)) ↦ Answers-Executes d amm swap a
  | inr (_, inl (_, a)) ↦ Answers-Executes d amm swap a
  | inr (_, inr (_, s)) ↦ Answers-Executes d amm swap s.answered
]

-- However an adapter was refreshed since it was constructed from an account of bytes: a request that
-- it quotes is one that it builds the swap of, with at most the announced number of accounts, of
-- which the transfer authority alone signs.
pub quote_executable :
    {Mint Decimal : Type 0} (lib : MintLibrary Mint) (dec : Decimals Decimal) (d : Derivation)
    (keyed : KeyedAccount) (slot : ℕ) (params : QuoteParams) (swap : SwapParams) (q : Quote Decimal)
    {amm : SolPoolAmm} {now : Life SolPoolAmm}
    → All IsByte keyed.account.bytes
    → from_keyed_account d keyed ≡ ok amm
    → Reach (update lib) (born slot amm) now
    → quote dec now.slot now.amm params ≡ ok q
    → IsSwapOf params swap
    → Executes d now.amm swap
quote_executable lib dec d keyed slot params swap q {amm} {now} all h r quoted s =
    let c = (Reach-born lib d keyed slot all h r).canonical in
    let (mode, _, side) = (quote_iff dec now.slot now.amm params q).0 quoted in
    let pair : IsBuyOf now.amm params ⊎ IsSellOf now.amm params = elim side [
      | inl (b, _) ↦ inl b
      | inr (b, _) ↦ inr b
    ] in
    canonical-Executes d now.amm swap c (s.mode ∙ mode) (quoted_pair now.amm params swap s pair)
