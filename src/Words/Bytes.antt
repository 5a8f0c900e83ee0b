-- ===== src/Words/Bytes.antt =====
-- `to_le_bytes` and `from_le_bytes` at any width, and 32-byte keys as big-endian numbers.
use native.Mathlib.Nat.{
  pow-suc, mul_comm, div-add-mod', mul-le-mul_right, mod-lt, mod-eq_of_lt, add-mul-mod_self_left,
  mul-add-div_right, div-eq_of_lt,
}
use drfraudsworth_jupiter_ad.Prelude.{
  ℕ, zero, suc, ◌+◌, ◌*◌, ◌/◌, ◌%◌, ◌^◌, ◌<◌, ◌≡◌, ◌≤◌, refl, sym, ap, ◌∙◌, List, [], ◌∷◌, arith,
  length, All, Bool, true, false, ◌&&◌, ◌==◌,
}

abbrev pub IsByte : ℕ → Type 0
IsByte b = b < 256

-- The n low bytes of x, the lowest first.
unfoldable pub to_le_bytes : ℕ → ℕ → List ℕ
to_le_bytes zero x = []
to_le_bytes (suc n) x = x % 256 ∷ to_le_bytes n (x / 256)

unfoldable pub from_le_bytes : List ℕ → ℕ
from_le_bytes [] = 0
from_le_bytes (b ∷ bs) = b + 256 * from_le_bytes bs

-- The n low bytes of x, the highest first.
unfoldable pub to_be_bytes : ℕ → ℕ → List ℕ
to_be_bytes zero x = []
to_be_bytes (suc n) x = x / 256 ^ n % 256 ∷ to_be_bytes n x

unfoldable pub from_be_bytes : List ℕ → ℕ
from_be_bytes [] = 0
from_be_bytes (b ∷ bs) = b * 256 ^ length bs + from_be_bytes bs

length-to_le_bytes : (n x : ℕ) → length (to_le_bytes n x) ≡ n
unfolding to_le_bytes
length-to_le_bytes zero x = refl
length-to_le_bytes (suc n) x = omega (arith, length-to_le_bytes n (x / 256))

pub length-to_be_bytes : (n x : ℕ) → length (to_be_bytes n x) ≡ n
unfolding to_be_bytes
length-to_be_bytes zero x = refl
length-to_be_bytes (suc n) x = omega (arith, length-to_be_bytes n x)

pub from_le_bytes-to_le_bytes : (n x : ℕ) → x < 256 ^ n → from_le_bytes (to_le_bytes n x) ≡ x
unfolding to_le_bytes from_le_bytes
from_le_bytes-to_le_bytes zero x h = omega arith
from_le_bytes-to_le_bytes (suc n) x h =
    omega (arith, from_le_bytes-to_le_bytes n (x / 256) (omega (arith, pow-suc 256 n)))

pub to_le_bytes-from_le_bytes :
    (bs : List ℕ) → All IsByte bs → to_le_bytes (length bs) (from_le_bytes bs) ≡ bs
unfolding to_le_bytes from_le_bytes
to_le_bytes-from_le_bytes [] h = refl
to_le_bytes-from_le_bytes (b ∷ bs) (hb, hbs) =
    let low : (b + 256 * from_le_bytes bs) % 256 ≡ b = omega arith in
    let high : (b + 256 * from_le_bytes bs) / 256 ≡ from_le_bytes bs = omega arith in
    rw (low, high, to_le_bytes-from_le_bytes bs hbs)

pub from_le_bytes-lt : (bs : List ℕ) → All IsByte bs → from_le_bytes bs < 256 ^ length bs
unfolding from_le_bytes
from_le_bytes-lt [] h = omega arith
from_le_bytes-lt (b ∷ bs) (hb, hbs) =
    omega (arith, from_le_bytes-lt bs hbs, pow-suc 256 (length bs))

pub pow-pos : (n : ℕ) → zero < 256 ^ n
pow-pos zero = omega arith
pow-pos (suc n) = omega (arith, pow-pos n, pow-suc 256 n)

-- The digit of x at the place p, and what is below it.
mod_digit : (x p : ℕ) → zero < p → x / p % 256 * p + x % p ≡ x % (256 * p)
mod_digit x p h =
    let d = x / p % 256 in
    let a = x / p / 256 in
    let whole : x ≡ d * p + x % p + 256 * p * a =
      omega (arith, div-add-mod' x p, ap (λ (t : ℕ). t * p) (div-add-mod' (x / p) 256)) in
    let digit : d * p ≤ 255 * p = mul-le-mul_right p (omega arith) in
    let small : d * p + x % p < 256 * p = omega (arith, digit, mod-lt x h) in
    sym (
      ap (λ t. t % (256 * p)) whole
      ∙ add-mul-mod_self_left (d * p + x % p) (256 * p) a
      ∙ mod-eq_of_lt small)

-- The low n + 1 bytes of x: its digit at place n above its low n bytes.
pub low_bytes_suc : (n x : ℕ) → x % 256 ^ suc n ≡ x / 256 ^ n % 256 * 256 ^ n + x % 256 ^ n
low_bytes_suc n x = sym (
    mod_digit x (256 ^ n) (pow-pos n)
    ∙ ap (λ m. x % m) (mul_comm 256 (256 ^ n) ∙ sym (pow-suc 256 n)))

pub from_be_bytes-to_be_bytes : (n x : ℕ) → from_be_bytes (to_be_bytes n x) ≡ x % 256 ^ n
unfolding to_be_bytes from_be_bytes
from_be_bytes-to_be_bytes zero x = omega arith
from_be_bytes-to_be_bytes (suc n) x =
    rw (length-to_be_bytes, from_be_bytes-to_be_bytes n x) (sym (low_bytes_suc n x))

-- The bytes at n places do not see a multiple of 256 ^ n.
to_be_bytes-add : (n c x : ℕ) → to_be_bytes n (c * 256 ^ n + x) ≡ to_be_bytes n x
unfolding to_be_bytes
to_be_bytes-add zero c x = refl
to_be_bytes-add (suc n) c x =
    let shift : c * 256 ^ suc n + x ≡ c * 256 * 256 ^ n + x =
      omega (arith, ap (λ (t : ℕ). c * t) (pow-suc 256 n)) in
    let digit : (c * 256 * 256 ^ n + x) / 256 ^ n % 256 ≡ x / 256 ^ n % 256 =
      rw (mul-add-div_right (pow-pos n) (c * 256) x) (omega arith) in
    rw (shift, digit, to_be_bytes-add n (c * 256) x)

pub from_be_bytes-lt : (bs : List ℕ) → All IsByte bs → from_be_bytes bs < 256 ^ length bs
unfolding from_be_bytes
from_be_bytes-lt [] h = omega arith
from_be_bytes-lt (b ∷ bs) (hb, hbs) =
    let top : b * 256 ^ length bs ≤ 255 * 256 ^ length bs = mul-le-mul_right _ (omega arith) in
    omega (arith, from_be_bytes-lt bs hbs, pow-suc 256 (length bs), top)

pub to_be_bytes-from_be_bytes :
    (bs : List ℕ) → All IsByte bs → to_be_bytes (length bs) (from_be_bytes bs) ≡ bs
unfolding to_be_bytes from_be_bytes
to_be_bytes-from_be_bytes [] h = refl
to_be_bytes-from_be_bytes (b ∷ bs) (hb, hbs) =
    let n : ℕ = length bs in
    let digit : (b * 256 ^ n + from_be_bytes bs) / 256 ^ n % 256 ≡ b =
      rw
        (mul-add-div_right (pow-pos n) b (from_be_bytes bs), div-eq_of_lt (from_be_bytes-lt bs hbs))
        (omega arith) in
    rw (digit, to_be_bytes-add n b (from_be_bytes bs), to_be_bytes-from_be_bytes bs hbs)

-- Equality of byte slices.
unfoldable pub bytes_eq : List ℕ → List ℕ → Bool
bytes_eq [] [] = true
bytes_eq [] (y ∷ ys) = false
bytes_eq (x ∷ xs) [] = false
bytes_eq (x ∷ xs) (y ∷ ys) = (x == y) && bytes_eq xs ys

pub bytes_eq→eq : (xs ys : List ℕ) → bytes_eq xs ys ≡ true → xs ≡ ys
unfolding bytes_eq
bytes_eq→eq [] [] h = refl
bytes_eq→eq [] (y ∷ ys) h = cc
bytes_eq→eq (x ∷ xs) [] h = cc
bytes_eq→eq (x ∷ xs) (y ∷ ys) h = ground (arith, bytes_eq→eq xs ys)

pub bytes_eq_refl : (xs : List ℕ) → bytes_eq xs xs ≡ true
unfolding bytes_eq
bytes_eq_refl [] = refl
bytes_eq_refl (x ∷ xs) = ground (arith, bytes_eq_refl xs)
