-- ===== src/State/EpochState/Parser.antt =====
-- The parser of src/state/epoch_state.rs accepts exactly the accounts of the layout, and reads the
-- epoch that they hold.
use drfraudsworth_jupiter_ad.Prelude.{
  ℕ, ◌≡◌, ◌↔◌, ◌+◌, ◌≤◌, ◌<◌, ◌^◌, refl, subst, sym, ◌∙◌, Bool, true, suc, inl, inr, List, [], ◌∷◌,
  length, take, drop, All, arith, ok,
}
use drfraudsworth_jupiter_ad.Words.{
  IsByte, from_le_bytes, bytes_eq, bytes_eq→eq, bytes_eq_refl, to_le_bytes, from_le_bytes-lt,
  to_le_bytes-from_le_bytes,
}
use drfraudsworth_jupiter_ad.Constants.{epoch_state_discriminator}
use drfraudsworth_jupiter_ad.State.Reader.{byte_at, slice}
use drfraudsworth_jupiter_ad.State.Reader.Pieces.{
  slice-from_le, slice_two, byte_at-lt, bool_byte-of_bool, of_bool, word_of,
}
use drfraudsworth_jupiter_ad.State.EpochState.{ParsedEpochState, from_bytes}
use drfraudsworth_jupiter_ad.State.EpochState.Layout.{IsValid, Layout}
use drfraudsworth_jupiter_ad.State.EpochState.Outcome.{
  fields, flags, flags_ok, from_bytes_cases, from_bytes-flags,
}

module _ (bytes : List ℕ) (whole : length bytes ≡ 172) (all : All IsByte bytes) where
  -- A rate that is read from two bytes fits a u16, and its bytes are those two.
  rate :
      (i : ℕ)
      → i + 2 ≤ length bytes
      → (take 2 (drop i bytes)
          ≡ to_le_bytes 2 (from_le_bytes (byte_at bytes i ∷ byte_at bytes (suc i) ∷ [])))
        × (from_le_bytes (byte_at bytes i ∷ byte_at bytes (suc i) ∷ []) < 256 ^ 2)
  rate i h =
      let both : All IsByte (byte_at bytes i ∷ byte_at bytes (suc i) ∷ []) =
        (byte_at-lt bytes i all, (byte_at-lt bytes (suc i) all, tt)) in
      (
        slice_two bytes i h
            ∙ sym (to_le_bytes-from_le_bytes (byte_at bytes i ∷ byte_at bytes (suc i) ∷ []) both),
        from_le_bytes-lt (byte_at bytes i ∷ byte_at bytes (suc i) ∷ []) both,
      )

  fields-IsValid : (p i : Bool) → IsValid (fields bytes p i)
  fields-IsValid p i = record {
    crime_buy_tax_bps = (rate 33 (omega arith)).1;
    crime_sell_tax_bps = (rate 35 (omega arith)).1;
    fraud_buy_tax_bps = (rate 37 (omega arith)).1;
    fraud_sell_tax_bps = (rate 39 (omega arith)).1;
    pause_end_slot = (slice-from_le bytes 106 114 8 refl (omega arith) all).1;
  }

  fields-Layout :
      (p i : Bool)
      → bytes_eq (slice bytes 0 8) epoch_state_discriminator ≡ true
      → byte_at bytes 114 ≡ of_bool p
      → byte_at bytes 170 ≡ of_bool i
      → Layout bytes (fields bytes p i)
  fields-Layout p i h hp hi = record {
    whole = whole;
    discriminator = bytes_eq→eq _ _ h;
    crime_buy_tax_bps = (rate 33 (omega arith)).0;
    crime_sell_tax_bps = (rate 35 (omega arith)).0;
    fraud_buy_tax_bps = (rate 37 (omega arith)).0;
    fraud_sell_tax_bps = (rate 39 (omega arith)).0;
    pause_end_slot = (slice-from_le bytes 106 114 8 refl (omega arith) all).0;
    trading_paused = hp;
    initialized = hi;
  }

-- What the parser accepts is an account of the layout.
from_bytes-Layout :
    (bytes : List ℕ) {epoch : ParsedEpochState}
    → All IsByte bytes
    → from_bytes bytes ≡ ok epoch
    → Layout bytes epoch × IsValid epoch
from_bytes-Layout bytes all h = elim (from_bytes_cases bytes) [
  | inl e ↦ cc
  | inr (inl e) ↦ cc
  | inr (inr (whole, same, e)) ↦
      let (p, i, hp, hi, path) = flags_ok bytes (sym e ∙ h) in
      subst (λ q. Layout bytes q × IsValid q) path
        (fields-Layout bytes whole all p i same hp hi, fields-IsValid bytes whole all p i)
]

Layout-fields :
    (bytes : List ℕ) (epoch : ParsedEpochState)
    → Layout bytes epoch
    → IsValid epoch
    → fields bytes epoch.trading_paused epoch.initialized ≡ epoch
Layout-fields bytes epoch l v = λ i. record {
  crime_buy_tax_bps =
      word_of _ 2 _ (sym (two 33 (omega arith)) ∙ l.crime_buy_tax_bps) v.crime_buy_tax_bps i;
  crime_sell_tax_bps =
      word_of _ 2 _ (sym (two 35 (omega arith)) ∙ l.crime_sell_tax_bps) v.crime_sell_tax_bps i;
  fraud_buy_tax_bps =
      word_of _ 2 _ (sym (two 37 (omega arith)) ∙ l.fraud_buy_tax_bps) v.fraud_buy_tax_bps i;
  fraud_sell_tax_bps =
      word_of _ 2 _ (sym (two 39 (omega arith)) ∙ l.fraud_sell_tax_bps) v.fraud_sell_tax_bps i;
  pause_end_slot = word_of _ 8 _ l.pause_end_slot v.pause_end_slot i;
  trading_paused = epoch.trading_paused;
  initialized = epoch.initialized;
}
  where
    two :
        (i : ℕ) → i + 2 ≤ 172 → take 2 (drop i bytes) ≡ byte_at bytes i ∷ byte_at bytes (suc i) ∷ []
    two i h = slice_two bytes i (omega (arith, l.whole))

flags-Layout :
    (bytes : List ℕ) (epoch : ParsedEpochState)
    → Layout bytes epoch
    → IsValid epoch
    → flags bytes ≡ ok epoch
unfolding flags
flags-Layout bytes epoch l v =
    simp (l.trading_paused, l.initialized, bool_byte-of_bool, Layout-fields bytes epoch l v)

-- Every account of the layout is accepted.
Layout-from_bytes :
    (bytes : List ℕ) (epoch : ParsedEpochState)
    → IsValid epoch
    → Layout bytes epoch
    → from_bytes bytes ≡ ok epoch
Layout-from_bytes bytes epoch v l =
    from_bytes-flags bytes l.whole (rw l.discriminator (bytes_eq_refl epoch_state_discriminator))
    ∙ flags-Layout bytes epoch l v

-- On an account of bytes the parser returns an epoch exactly where the account has the layout and
-- holds that epoch, with every rate a u16 and the pause slot a u64.
pub epoch_from_bytes_iff :
    (bytes : List ℕ) (epoch : ParsedEpochState)
    → All IsByte bytes
    → (from_bytes bytes ≡ ok epoch) ↔ (Layout bytes epoch × IsValid epoch)
epoch_from_bytes_iff bytes epoch all =
    ((λ h. from_bytes-Layout bytes all h), λ (l, v). Layout-from_bytes bytes epoch v l)
