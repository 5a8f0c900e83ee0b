-- ===== src/SolPoolAmm/Refresh/Frame.antt =====
-- The accounts that `update` of src/sol_pool_amm.rs reads against those that `get_accounts_to_update`
-- names. The method does not read the clock, so its model takes no slot: `is_active` reads it.
use drfraudsworth_jupiter_ad.Prelude.{
  ◌≡◌, ◌≢◌, ◌⊎◌, arith, Option, none, some, Error, ◌∙◌, ap, refl, true, false, not, Result, ok, err,
  All, ◌==◌, Bool-cases, inl, inr,
}
use drfraudsworth_jupiter_ad.Pubkey.{Pubkey}
use drfraudsworth_jupiter_ad.Jupiter.{Account, AccountMap}
use drfraudsworth_jupiter_ad.Addresses.{epoch_state_pda, native_mint}
use drfraudsworth_jupiter_ad.State.PoolState.{ParsedPoolState}
use drfraudsworth_jupiter_ad.State.EpochState.{ParsedEpochState}
use drfraudsworth_jupiter_ad.State.MintState.{MintLibrary}
use drfraudsworth_jupiter_ad.SolPoolAmm.{SolPoolAmm, get_accounts_to_update}
use drfraudsworth_jupiter_ad.SolPoolAmm.Refresh.Accounts.{IsRefreshed}
use drfraudsworth_jupiter_ad.SolPoolAmm.Refresh.Outcome.{successful_update_iff}
use drfraudsworth_jupiter_ad.SolPoolAmm.Refresh.{
  refresh_pool, refresh_epoch, refresh_quote_mint, set_epoch, finish, with_epoch, with_pool, update,
}

-- Two account maps answer alike at an address.
abbrev pub AgreeAt : AccountMap → AccountMap → Pubkey → Type 0
AgreeAt accounts accounts' key = accounts key ≡ accounts' key

abbrev pub Listed : AccountMap → Pubkey → Type 0
Listed accounts key = accounts key ≢ none

listed : (found : Option Account) {account : Account} → found ≡ some account → found ≢ none
listed found h = λ e. cc

other_mint : (mint : Pubkey) → mint ≢ native_mint → not (mint == native_mint) ≡ true
other_mint mint h = ground arith

result_cases : (r : Result (Unit {0})) → (r ≡ ok tt) ⊎ ((e : Error) × (r ≡ err e))
result_cases (ok tt) = inl refl
result_cases (err e) = inr (e, refl)

-- The addresses that a refresh names.
named :
    (amm : SolPoolAmm) (accounts accounts' : AccountMap)
    → All (AgreeAt accounts accounts') (get_accounts_to_update amm)
    → AgreeAt accounts accounts' amm.key
      × AgreeAt accounts accounts' epoch_state_pda
      × (not (amm.quote_mint == native_mint) ≡ true → AgreeAt accounts accounts' amm.quote_mint)
unfolding get_accounts_to_update
named amm accounts accounts' h = elim (Bool-cases (not (amm.quote_mint == native_mint))) [
  | inl e ↦ let all = rw e at h in (all.0, all.1.0, λ _. all.1.1.0)
  | inr e ↦ let all = rw e at h in (all.0, all.1.0, λ other. cc)
]

refresh_pool_frame :
    (amm : SolPoolAmm) (accounts accounts' : AccountMap)
    → AgreeAt accounts accounts' amm.key
    → refresh_pool amm accounts ≡ refresh_pool amm accounts'
unfolding refresh_pool
refresh_pool_frame amm accounts accounts' h = rw h refl

refresh_epoch_frame :
    (accounts accounts' : AccountMap)
    → AgreeAt accounts accounts' epoch_state_pda
    → refresh_epoch accounts ≡ refresh_epoch accounts'
unfolding refresh_epoch
refresh_epoch_frame accounts accounts' h = rw h refl

module _ {Mint : Type 0} (lib : MintLibrary Mint) where
  refresh_quote_mint_frame :
      (amm : SolPoolAmm) (accounts accounts' : AccountMap)
      → (not (amm.quote_mint == native_mint) ≡ true → AgreeAt accounts accounts' amm.quote_mint)
      → refresh_quote_mint lib amm accounts ≡ refresh_quote_mint lib amm accounts'
  unfolding refresh_quote_mint
  refresh_quote_mint_frame amm accounts accounts' h =
      elim (Bool-cases (not (amm.quote_mint == native_mint))) [
        | inl e ↦ rw (e, h e) refl
        | inr e ↦ rw e refl
      ]

  with_epoch_frame :
      (amm : SolPoolAmm) (accounts accounts' : AccountMap) (pool : ParsedPoolState)
      (r : Result ParsedEpochState)
      → (not (amm.quote_mint == native_mint) ≡ true → AgreeAt accounts accounts' amm.quote_mint)
      → with_epoch lib amm accounts pool r ≡ with_epoch lib amm accounts' pool r
  unfolding with_epoch set_epoch
  with_epoch_frame amm accounts accounts' pool (err e) h = refl
  with_epoch_frame amm accounts accounts' pool (ok epoch) h =
      ap (finish lib (set_epoch amm epoch) pool)
        (refresh_quote_mint_frame (set_epoch amm epoch) accounts accounts' h)

  with_pool_frame :
      (amm : SolPoolAmm) (accounts accounts' : AccountMap) (r : Result ParsedPoolState)
      → AgreeAt accounts accounts' epoch_state_pda
      → (not (amm.quote_mint == native_mint) ≡ true → AgreeAt accounts accounts' amm.quote_mint)
      → with_pool lib amm accounts r ≡ with_pool lib amm accounts' r
  unfolding with_pool
  with_pool_frame amm accounts accounts' (err e) epoch h = refl
  with_pool_frame amm accounts accounts' (ok pool) epoch h =
      with_epoch_frame amm accounts accounts' pool (refresh_epoch accounts) h
      ∙ ap (with_epoch lib amm accounts' pool) (refresh_epoch_frame accounts accounts' epoch)

  same_update :
      (amm : SolPoolAmm) (accounts accounts' : AccountMap)
      → All (AgreeAt accounts accounts') (get_accounts_to_update amm)
      → update lib amm accounts ≡ update lib amm accounts'
  unfolding update
  same_update amm accounts accounts' h =
      let (pool, epoch, quote_mint) = named amm accounts accounts' h in
      let stale = record amm { state_refreshed = false } in
      with_pool_frame stale accounts accounts' (refresh_pool stale accounts) epoch quote_mint
      ∙ ap (with_pool lib stale accounts') (refresh_pool_frame stale accounts accounts' pool)

  refreshed-Listed :
      (amm : SolPoolAmm) (accounts : AccountMap) {amm' : SolPoolAmm}
      → IsRefreshed lib amm accounts amm'
      → All (Listed accounts) (get_accounts_to_update amm)
  unfolding get_accounts_to_update
  refreshed-Listed amm accounts r =
      let pool = listed _ r.pool_shows.owned.0 in
      let epoch = listed _ r.epoch_shows.owned.0 in
      elim r.quote_mint_fits [
        | inl native ↦ rw native (pool, (epoch, tt))
        | inr (other, account, found, _) ↦
            rw (other_mint amm.quote_mint other) (pool, (epoch, (listed _ found, tt)))
      ]

  missing_fails :
      (amm : SolPoolAmm) (accounts : AccountMap)
      → All (Listed accounts) (get_accounts_to_update amm)
        ⊎ ((e : Error) × ((update lib amm accounts).1 ≡ err e))
  missing_fails amm accounts = elim (result_cases (update lib amm accounts).1) [
    | inr failed ↦ inr failed
    | inl h ↦
        let refreshed =
          (successful_update_iff lib amm accounts (update lib amm accounts).0).0
            (λ i. ((update lib amm accounts).0, h i)) in
        inl (refreshed-Listed amm accounts refreshed)
  ]

  -- On two account maps that agree at the addresses which the adapter asks for, a refresh has the
  -- same outcome and leaves the same adapter; and it fails unless every address which the adapter
  -- asks for is listed.
  pub update_frame :
      (amm : SolPoolAmm) (accounts accounts' : AccountMap)
      → All (AgreeAt accounts accounts') (get_accounts_to_update amm)
      → (update lib amm accounts ≡ update lib amm accounts')
        × (All (Listed accounts) (get_accounts_to_update amm)
            ⊎ ((e : Error) × ((update lib amm accounts).1 ≡ err e)))
  update_frame amm accounts accounts' h =
      (same_update amm accounts accounts' h, missing_fails amm accounts)
