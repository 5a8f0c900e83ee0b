-- ===== src/Jupiter/Life.antt =====
-- How an aggregator drives an adapter of Jupiter's `Amm` trait: it refreshes it from account maps,
-- with or without success, while the shared clock goes on.
use drfraudsworth_jupiter_ad.Prelude.{
  ℕ, ◌≤◌, ◌≡◌, Bool, true, false, List, [], ◌∷◌, Result, ok, err, Error,
}
use drfraudsworth_jupiter_ad.Jupiter.{AccountMap}

-- An adapter at a slot of the clock, with its refreshes, the last one first, and whether they
-- succeeded.
pub record Life (Adapter : Type 0) : Type 0 where
  pub slot : ℕ
  pub amm : Adapter
  pub history : List (AccountMap × Bool)

module _ {Adapter : Type 0} where
  -- The life that begins with a construction.
  abbrev pub born : ℕ → Adapter → Life Adapter
  born slot amm = record { slot = slot; amm = amm; history = [] }

  module _ (update : Adapter → AccountMap → Adapter × Result (Unit {0})) where
    -- The clock does not go back; a refresh reads whatever accounts it is given, and what it leaves
    -- is the adapter from then on, also where it failed.
    pub data Step (life : Life Adapter) : Life Adapter → Type 0 where
      tick : (slot : ℕ) → life.slot ≤ slot → Step life (record life { slot = slot })
      refresh :
          (accounts : AccountMap) (amm : Adapter)
          → update life.amm accounts ≡ (amm, ok tt)
          → Step life (record life { amm = amm; history = (accounts, true) ∷ life.history })
      fail :
          (accounts : AccountMap) (amm : Adapter) (e : Error)
          → update life.amm accounts ≡ (amm, err e)
          → Step life (record life { amm = amm; history = (accounts, false) ∷ life.history })

    pub data Reach (life : Life Adapter) : Life Adapter → Type 0 where
      here : Reach life life
      next : {now later : Life Adapter} → Reach life now → Step now later → Reach life later

    -- What every step keeps holds of every life that begins with it.
    pub reach_keeps :
        (P : Life Adapter → Type 0)
        → ((now later : Life Adapter) → Step now later → P now → P later)
        → {life now : Life Adapter} → P life
        → Reach life now
        → P now
    reach_keeps P keeps p here = p
    reach_keeps P keeps p (next r step) = keeps _ _ step (reach_keeps P keeps p r)
