-- ===== src/Words.antt =====
-- The machine integers of Rust that the code uses (std): a value of a w-bit type is a number below
-- 2 ^ w, and the checked operations are written out over the width.
mod Bytes
unfoldable pub use Bytes.*
use drfraudsworth_jupiter_ad.Prelude.{
  ℕ, ◌+◌, ◌-◌, ◌*◌, ◌/◌, ◌%◌, ◌^◌, ◌<◌, Option, none, some, ltb, leb, ◌==◌, if◌then◌else◌,
}

-- The ranges of the types.
abbrev pub IsU8 : ℕ → Type 0
IsU8 x = x < 256

abbrev pub IsU16 : ℕ → Type 0
IsU16 x = x < 2 ^ 16

abbrev pub IsU64 : ℕ → Type 0
IsU64 x = x < 2 ^ 64

abbrev pub u64_max : ℕ
u64_max = 2 ^ 64 - 1

-- `a.checked_add(b)` at width w.
abbrev pub checked_add : ℕ → ℕ → ℕ → Option ℕ
checked_add w a b = if ltb (a + b) (2 ^ w) then some (a + b) else none

abbrev pub checked_mul : ℕ → ℕ → ℕ → Option ℕ
checked_mul w a b = if ltb (a * b) (2 ^ w) then some (a * b) else none

abbrev pub checked_sub : ℕ → ℕ → Option ℕ
checked_sub a b = if leb b a then some (a - b) else none

abbrev pub checked_div : ℕ → ℕ → Option ℕ
checked_div a b = if b == 0 then none else some (a / b)

-- `saturating_sub`: subtraction on ℕ stops at 0 as well.
abbrev pub saturating_sub : ℕ → ℕ → ℕ
saturating_sub a b = a - b

-- `u64::try_from(x).ok()`.
abbrev pub u64_try_from : ℕ → Option ℕ
u64_try_from x = if ltb x (2 ^ 64) then some x else none

-- `x as u64`.
abbrev pub as_u64 : ℕ → ℕ
as_u64 x = x % 2 ^ 64
