-- ===== src/Prelude/Bits.antt =====
-- `&` and `|` as arithmetic: a low mask is a remainder, and an or of disjoint fields is a sum.
use Prim.Native.Nat.{ℕ, zero, suc, ◌+◌, ◌-◌, ◌*◌, ◌/◌, ◌%◌, ◌^◌, ◌≤◌, ◌<◌}
use Prim.Native.Nat.{min, max, digits, bit_and, bit_or, bit_and-bitwise, bit_or-bitwise}
use mathlib.Core.Path.{◌≡◌, refl, ap}
use mathlib.Core.Bool.{Bool, true, ◌&&◌}
use native.Mathlib.Omega.{arith}
use native.Mathlib.Nat.{pow-suc, one-le-pow, zero-add, suc-add}
use wasm_instrument.Prelude.Tests.{◌==◌, ==_iff, ltb, if◌then◌else◌}

-- 2 ^ (a + b), which the library lacks for the native numbers.
pub pow_add : (a b : ℕ) → 2 ^ (a + b) ≡ 2 ^ a * 2 ^ b
pow_add zero b = rw zero-add (omega arith)
pow_add (suc a) b = rw (suc-add a b, pow-suc 2 (a + b), pow-suc 2 a, pow_add a b) (omega arith)

pub pow_pos : (a : ℕ) → 0 < 2 ^ a
pow_pos a = omega (arith, one-le-pow a 2)

-- The digit recursion does not depend on its fuel once the fuel covers the number.
digits-enough :
    (z : ℕ → ℕ) (g : ℕ → ℕ → ℕ) (n m a b : ℕ) → a ≤ n → a ≤ m → digits z g n a b ≡ digits z g m a b
digits-enough z g zero zero a b p q = refl
digits-enough z g zero (suc m) zero b p q = refl
digits-enough z g (suc n) zero zero b p q = refl
digits-enough z g (suc n) (suc m) zero b p q = refl
digits-enough z g zero (suc m) (suc a) b p q = absurd (omega arith)
digits-enough z g (suc n) zero (suc a) b p q = absurd (omega arith)
digits-enough z g (suc n) (suc m) (suc a) b p q =
    omega (arith, digits-enough z g n m (suc a / 2) (b / 2) (omega arith) (omega arith))

-- One binary digit of each operation.
and_digit : (a b : ℕ) → bit_and a b ≡ 2 * bit_and (a / 2) (b / 2) + min (a % 2) (b % 2)
and_digit zero b = omega (arith, bit_and-bitwise 0 b, bit_and-bitwise 0 (b / 2))
and_digit (suc a) b =
    let half = suc a / 2 in
    omega (
      arith,
      bit_and-bitwise (suc a) b,
      bit_and-bitwise half (b / 2),
      digits-enough (λ y. 0) min a half half (b / 2) (omega arith) (omega arith),
    )

or_digit : (a b : ℕ) → bit_or a b ≡ 2 * bit_or (a / 2) (b / 2) + max (a % 2) (b % 2)
or_digit zero b = omega (arith, bit_or-bitwise 0 b, bit_or-bitwise 0 (b / 2))
or_digit (suc a) b =
    let half = suc a / 2 in
    omega (
      arith,
      bit_or-bitwise (suc a) b,
      bit_or-bitwise half (b / 2),
      digits-enough (λ y. y) max a half half (b / 2) (omega arith) (omega arith),
    )

and-zero_below : (n a : ℕ) → a ≤ n → bit_and a 0 ≡ 0
and-zero_below zero zero h = refl
and-zero_below zero (suc a) h = absurd (omega arith)
and-zero_below (suc n) a h = omega (arith, and_digit a 0, and-zero_below n (a / 2) (omega arith))

or-zero_above : (n a : ℕ) → a ≤ n → bit_or a 0 ≡ a
or-zero_above zero zero h = refl
or-zero_above zero (suc a) h = absurd (omega arith)
or-zero_above (suc n) a h = omega (arith, or_digit a 0, or-zero_above n (a / 2) (omega arith))

-- `a & (2 ^ k - 1)` keeps the k low bits.
mask_split : (k q r : ℕ) → r < 2 ^ k → bit_and (r + q * 2 ^ k) (2 ^ k - 1) ≡ r
mask_split zero q r h = omega (arith, and-zero_below (r + q * 1) (r + q * 1) (omega arith))
mask_split (suc k) q r h =
    let wide : q * 2 ^ suc k ≡ 2 * (q * 2 ^ k) =
      omega (arith, ap (λ (t : ℕ). q * t) (pow-suc 2 k)) in
    ground (
      arith,
      and_digit (r + q * 2 ^ suc k) (2 ^ suc k - 1),
      wide,
      pow-suc 2 k,
      mask_split k q (r / 2) (omega (arith, pow-suc 2 k)),
    )

pub and_mask : (k a : ℕ) → bit_and a (2 ^ k - 1) ≡ a % 2 ^ k
and_mask k a =
    let parts : a % 2 ^ k + a / 2 ^ k * 2 ^ k ≡ a = omega (arith, pow_pos k) in
    rw parts at (mask_split k (a / 2 ^ k) (a % 2 ^ k) (omega (arith, pow_pos k)))

-- `r | (x << k)` is a sum where `r` fits below bit k.
pub or_fields : (k r x : ℕ) → r < 2 ^ k → bit_or r (x * 2 ^ k) ≡ r + x * 2 ^ k
or_fields zero r x h =
    let none_below : r ≡ 0 = omega arith in rw none_below (omega (arith, bit_or-bitwise 0 (x * 1)))
or_fields (suc k) r x h =
    let wide : x * 2 ^ suc k ≡ 2 * (x * 2 ^ k) =
      omega (arith, ap (λ (t : ℕ). x * t) (pow-suc 2 k)) in
    ground (
      arith,
      or_digit r (x * 2 ^ suc k),
      wide,
      pow-suc 2 k,
      or_fields k (r / 2) x (omega (arith, pow-suc 2 k)),
    )

-- Facts about every byte, by evaluation.
unfoldable pub every_below : ℕ → (ℕ → Bool) → Bool
every_below zero p = true
every_below (suc n) p = p n && every_below n p

pub every_below_sound : (n : ℕ) (p : ℕ → Bool) (x : ℕ) → every_below n p ≡ true → x < n → p x ≡ true
unfolding every_below
every_below_sound zero p x h lt = absurd (omega arith)
every_below_sound (suc n) p x h lt = ground (arith, every_below_sound n p x)

-- The continuation bit of a byte.
high_bit_table : every_below 256 (λ b. bit_and b 0x80 == (if ltb b 128 then 0 else 128)) ≡ true
unfolding every_below
high_bit_table = refl

pub high_bit : (b : ℕ) → b < 256 → bit_and b 0x80 ≡ (if ltb b 128 then 0 else 128)
high_bit b h = (==_iff _ _).0 (every_below_sound 256 _ b high_bit_table h)

set_high_table : every_below 128 (λ b. bit_or b 0x80 == b + 128) ≡ true
unfolding every_below
set_high_table = refl

pub set_high : (b : ℕ) → b < 128 → bit_or b 0x80 ≡ b + 128
set_high b h = (==_iff _ _).0 (every_below_sound 128 _ b set_high_table h)

-- Bit 6, the sign of a final group of seven bits.
sign_bit_table : every_below 128 (λ b. bit_and b 0x40 == (if ltb b 64 then 0 else 64)) ≡ true
unfolding every_below
sign_bit_table = refl

pub sign_bit : (b : ℕ) → b < 128 → bit_and b 0x40 ≡ (if ltb b 64 then 0 else 64)
sign_bit b h = (==_iff _ _).0 (every_below_sound 128 _ b sign_bit_table h)

-- The same sum with the higher field on the left, as `(b3 << 24) | (b2 << 16)` writes it.
pub fields_or : (k x r : ℕ) → r < 2 ^ k → bit_or (x * 2 ^ k) r ≡ x * 2 ^ k + r
fields_or zero x r h =
    let none_below : r ≡ 0 = omega arith in
    rw none_below (omega (arith, or-zero_above (x * 1) (x * 1) (omega arith)))
fields_or (suc k) x r h =
    let wide : x * 2 ^ suc k ≡ 2 * (x * 2 ^ k) =
      omega (arith, ap (λ (t : ℕ). x * t) (pow-suc 2 k)) in
    ground (
      arith,
      or_digit (x * 2 ^ suc k) r,
      wide,
      pow-suc 2 k,
      fields_or k x (r / 2) (omega (arith, pow-suc 2 k)),
    )

-- Numbers of `k` bits stay so.
pub bit_or-lt : (k a b : ℕ) → a < 2 ^ k → b < 2 ^ k → bit_or a b < 2 ^ k
bit_or-lt zero a b h h' =
    let no_a : a ≡ 0 = omega arith in
    let no_b : b ≡ 0 = omega arith in rw (no_a, no_b) (omega arith)
bit_or-lt (suc k) a b h h' = omega (
  arith,
  pow-suc 2 k,
  or_digit a b,
  bit_or-lt k (a / 2) (b / 2) (omega (arith, pow-suc 2 k)) (omega (arith, pow-suc 2 k)),
)
