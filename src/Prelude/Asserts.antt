-- ===== src/Prelude/Asserts.antt =====
-- What the assertions of the Rust tests state: a result that is unwrapped, and the predicates that
-- `assert!` is called on.
use mathlib.Core.Option.{Option, none, some}
use mathlib.Core.Bool.{Bool, true, false}
use drfraudsworth_jupiter_ad.Prelude.Results.{Result, ok, err}

-- `unwrap()` or `expect(..)`, with what is asserted of the value: an error is a panic.
abbrev pub Unwrapped {ℓ} : {A : Type ℓ} → Result A → (A → Type 0) → Type 0
Unwrapped (ok a) P = P a
Unwrapped (err e) P = ⊥

abbrev pub UnwrappedSome {ℓ} : {A : Type ℓ} → Option A → (A → Type 0) → Type 0
UnwrappedSome (some a) P = P a
UnwrappedSome none P = ⊥

abbrev pub is_ok {ℓ} : {A : Type ℓ} → Result A → Bool
is_ok (ok a) = true
is_ok (err e) = false

abbrev pub is_err {ℓ} : {A : Type ℓ} → Result A → Bool
is_err (ok a) = false
is_err (err e) = true

abbrev pub is_some {ℓ} : {A : Type ℓ} → Option A → Bool
is_some (some a) = true
is_some none = false
