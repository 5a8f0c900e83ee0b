-- ===== src/Prelude/Results.antt =====
-- `anyhow::Result`: what fallible code returns. An error is the place that raised it; the text of
-- its message is not modelled.
use mathlib.Core.Path.{◌≡◌, refl}
use mathlib.Core.Option.{Option, none, some}
use mathlib.Core.Bool.{Bool, true, false}

pub data Error : Type 0 where
  -- state::epoch_state, state::pool_state, state::token_account, state::mint_state
  length_mismatch discriminator_mismatch bad_bool_byte bad_slice mint_mismatch : Error
  wrong_mint_owner invalid_classic_mint unsupported_mint_owner invalid_mint : Error
  invalid_extensions invalid_fee_config nonzero_fee armed_hook non_transferable : Error
  invalid_default_state default_state_frozen invalid_pausable mint_paused : Error
  -- accounts
  not_sol_pool not_one_faction unsupported_quote_program : Error
  -- sol_pool_amm
  not_amm_owned uninitialized not_canonical_order not_canonical_pda : Error
  unsupported_token_program faction_not_token_2022 wsol_not_classic : Error
  missing_account wrong_owner identity_changed : Error
  exact_out mint_pair inactive tax_overflow tax_exceeds_input input_overflow swap_overflow : Error
  tax_exceeds_output unsupported_pair : Error
  -- vault_amm
  missing_input_mint missing_output_mint invalid_input_mint invalid_output_mint : Error
  unsupported_direction unknown_key empty_config conversion_failed insufficient_liquidity : Error

pub data Result {ℓ} (A : Type ℓ) : Type ℓ where
  err : Error → Result A
  ok : A → Result A

-- `return Err(e)` under a test.
abbrev pub bail_if : Bool → Error → Result (Unit {0})
bail_if true e = err e
bail_if false e = ok tt

-- `ok_or_else`.
abbrev pub ok_or {ℓ} : {A : Type ℓ} → Option A → Error → Result A
ok_or none e = err e
ok_or (some a) e = ok a

-- `?`: the first error is returned, and what follows a value goes on with it.
infixl 5 ◌>>=◌ ◌>>◌
abbrev pub ◌>>=◌ {κ ℓ} : {B : Type κ} {A : Type ℓ} → Result B → (B → Result A) → Result A
err e >>= rest = err e
ok b >>= rest = rest b

abbrev pub ◌>>◌ {ℓ} : {A : Type ℓ} → Result (Unit {0}) → Result A → Result A
first >> rest = first >>= λ _. rest

-- `unwrap_or`.
abbrev pub unwrap_or {ℓ} : {A : Type ℓ} → Option A → A → A
unwrap_or none b = b
unwrap_or (some a) b = a

-- `?` on an `Option`.
infixl 5 ◌>>=?◌
abbrev pub ◌>>=?◌ {ℓ κ} : {A : Type ℓ} {B : Type κ} → Option A → (A → Option B) → Option B
none >>=? f = none
some a >>=? f = f a

pub ok_or_ok {ℓ} : {A : Type ℓ} (o : Option A) (e : Error) {a : A} → ok_or o e ≡ ok a → o ≡ some a
ok_or_ok none e h = cc
ok_or_ok (some a) e h = cc

pub ok_inj {ℓ} : {A : Type ℓ} {a b : A} → ok a ≡ ok b → a ≡ b
ok_inj h = cc

pub bail_if-ok {ℓ} :
    {A : Type ℓ} (b : Bool) (e : Error) (rest : Result A) {a : A}
    → (bail_if b e >> rest) ≡ ok a
    → (b ≡ false) × (rest ≡ ok a)
bail_if-ok true e rest h = cc
bail_if-ok false e rest h = (refl, h)

pub ok->>= {ℓ κ} :
    {A : Type ℓ} {B : Type κ} (m : Result A) (f : A → Result B) {a : A} {r : Result B}
    → m ≡ ok a
    → f a ≡ r
    → (m >>= f) ≡ r
ok->>= (ok a) f h k = cc
ok->>= (err e) f h k = cc

pub false-bail_if {ℓ} :
    {A : Type ℓ} (b : Bool) (e : Error) (rest : Result A) → b ≡ false → (bail_if b e >> rest) ≡ rest
false-bail_if true e rest h = cc
false-bail_if false e rest h = refl

pub >>=-eq-ok {κ ℓ} :
    {B : Type κ} {A : Type ℓ} (first : Result B) (rest : B → Result A) {result : A}
    → (first >>= rest) ≡ ok result
    → (b : B) × (first ≡ ok b) × (rest b ≡ ok result)
>>=-eq-ok (err e) rest h = cc
>>=-eq-ok (ok b) rest h = (b, refl, h)
