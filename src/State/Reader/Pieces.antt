-- ===== src/State/Reader/Pieces.antt =====
-- What the readers return, in both directions: the value of a range of bytes, and the bytes of a
-- value that was read.
use native.Mathlib.Nat.{mod-eq_of_lt}
use drfraudsworth_jupiter_ad.Prelude.{
  ℕ, zero, suc, ◌+◌, ◌-◌, ◌^◌, ◌≤◌, ◌<◌, ◌≡◌, refl, ap, ◌∙◌, sym, Bool, true, false, List, [], ◌∷◌,
  arith, take, drop, length, length-take, length-drop, All, ok,
}
use drfraudsworth_jupiter_ad.Words.{
  IsByte, from_le_bytes-to_le_bytes, from_be_bytes-to_be_bytes, to_le_bytes, from_le_bytes,
  to_be_bytes, from_be_bytes, to_le_bytes-from_le_bytes, from_le_bytes-lt,
  to_be_bytes-from_be_bytes, from_be_bytes-lt,
}
use drfraudsworth_jupiter_ad.Pubkey.{Pubkey, IsPubkey, try_from}
use drfraudsworth_jupiter_ad.State.Reader.{byte_at, slice, pubkey_at, u64_at, bool_byte}

All-take : (n : ℕ) (bytes : List ℕ) → All IsByte bytes → All IsByte (take n bytes)
All-take zero bytes h = tt
All-take (suc n) [] h = tt
All-take (suc n) (b ∷ bytes) (hb, h) = (hb, All-take n bytes h)

All-drop : (n : ℕ) (bytes : List ℕ) → All IsByte bytes → All IsByte (drop n bytes)
All-drop zero bytes h = h
All-drop (suc n) [] h = tt
All-drop (suc n) (b ∷ bytes) (hb, h) = All-drop n bytes h

All-slice : (bytes : List ℕ) (a b : ℕ) → All IsByte bytes → All IsByte (slice bytes a b)
All-slice bytes a b h = All-take (b - a) (drop a bytes) (All-drop a bytes h)

length-slice :
    (bytes : List ℕ) (a b : ℕ) → a ≤ b → b ≤ length bytes → length (slice bytes a b) ≡ b - a
length-slice bytes a b le h = omega (arith, length-take (b - a) (drop a bytes), length-drop a bytes)

-- A range of 32 bytes always reads as a key.
pub pubkey_at_value :
    (bytes : List ℕ) (a b : ℕ)
    → b ≡ a + 32
    → b ≤ length bytes
    → pubkey_at bytes a b ≡ ok (from_be_bytes (slice bytes a b))
unfolding pubkey_at try_from
pubkey_at_value bytes a b e h = ground (arith, length-slice bytes a b (omega arith) h)

pub u64_at_value :
    (bytes : List ℕ) (a b : ℕ)
    → b ≡ a + 8
    → b ≤ length bytes
    → u64_at bytes a b ≡ ok (from_le_bytes (slice bytes a b))
unfolding u64_at
u64_at_value bytes a b e h = ground (arith, length-slice bytes a b (omega arith) h)

-- The bytes of a range are those of the number that it reads as, which fits them.
pub slice-from_be :
    (bytes : List ℕ) (a b n : ℕ)
    → b ≡ a + n
    → b ≤ length bytes
    → All IsByte bytes
    → (slice bytes a b ≡ to_be_bytes n (from_be_bytes (slice bytes a b)))
      × (from_be_bytes (slice bytes a b) < 256 ^ n)
slice-from_be bytes a b n e h bs =
    let len : length (slice bytes a b) ≡ n =
      omega (arith, length-slice bytes a b (omega arith) h) in
    let all = All-slice bytes a b bs in
    rw (← len) (
      sym (to_be_bytes-from_be_bytes (slice bytes a b) all),
      from_be_bytes-lt (slice bytes a b) all,
    )

pub slice-from_le :
    (bytes : List ℕ) (a b n : ℕ)
    → b ≡ a + n
    → b ≤ length bytes
    → All IsByte bytes
    → (slice bytes a b ≡ to_le_bytes n (from_le_bytes (slice bytes a b)))
      × (from_le_bytes (slice bytes a b) < 256 ^ n)
slice-from_le bytes a b n e h bs =
    let len : length (slice bytes a b) ≡ n =
      omega (arith, length-slice bytes a b (omega arith) h) in
    let all = All-slice bytes a b bs in
    rw (← len) (
      sym (to_le_bytes-from_le_bytes (slice bytes a b) all),
      from_le_bytes-lt (slice bytes a b) all,
    )

-- Two bytes that are read one by one are the range of two.
pub slice_two :
    (bytes : List ℕ) (a : ℕ)
    → a + 2 ≤ length bytes
    → take 2 (drop a bytes) ≡ byte_at bytes a ∷ byte_at bytes (suc a) ∷ []
slice_two [] a h = absurd (omega arith)
slice_two (x ∷ []) a h = absurd (omega arith)
slice_two (x ∷ y ∷ bytes) zero h = refl
slice_two (x ∷ y ∷ bytes) (suc a) h = slice_two (y ∷ bytes) a (omega arith)

pub byte_at-lt : (bytes : List ℕ) (i : ℕ) → All IsByte bytes → byte_at bytes i < 256
byte_at-lt [] i h = omega arith
byte_at-lt (b ∷ bytes) zero (hb, h) = hb
byte_at-lt (b ∷ bytes) (suc i) (hb, h) = byte_at-lt bytes i h

-- The byte of a bool.
unfoldable pub of_bool : Bool → ℕ
of_bool true = 1
of_bool false = 0

pub bool_byte_ok : (b : ℕ) {v : Bool} → bool_byte b ≡ ok v → b ≡ of_bool v
unfolding bool_byte of_bool
bool_byte_ok b {v} h = ground arith

pub bool_byte-of_bool : (v : Bool) → bool_byte (of_bool v) ≡ ok v
unfolding bool_byte of_bool
bool_byte-of_bool true = refl
bool_byte-of_bool false = refl

-- The value of bytes that are known to be those of a key, or of a word.
pub key_of :
    (bytes : List ℕ) (k : Pubkey) → bytes ≡ to_be_bytes 32 k → IsPubkey k → from_be_bytes bytes ≡ k
key_of bytes k e h = ap from_be_bytes e ∙ from_be_bytes-to_be_bytes 32 k ∙ mod-eq_of_lt h

pub word_of :
    (bytes : List ℕ) (n x : ℕ) → bytes ≡ to_le_bytes n x → x < 256 ^ n → from_le_bytes bytes ≡ x
word_of bytes n x e h = ap from_le_bytes e ∙ from_le_bytes-to_le_bytes n x h
