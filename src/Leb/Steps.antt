-- ===== src/Leb/Steps.antt =====
-- One round of the decoder, as arithmetic.
use native.Mathlib.Nat.{mod-eq_of_lt, pow-le-pow_right}
use wasm_instrument.Prelude.{
  ℕ, suc, ◌+◌, ◌*◌, ◌%◌, ◌^◌, ◌≤◌, ◌<◌, bit_and, bit_or, ◌≡◌, List, ◌∷◌, arith, true, false, lt→ltb,
}
use wasm_instrument.Prelude.Bits.{pow_add, pow_pos, and_mask, or_fields, high_bit}
use wasm_instrument.Prelude.Result.{ok}
use wasm_instrument.Leb.{good, more, finish, last_byte, decode_loop}

pub shift_lt : (w s k x : ℕ) → s + k ≤ w → x < 2 ^ k → x * 2 ^ s < 2 ^ w
shift_lt w s k x h lt =
    let room : 2 ^ (s + k) ≤ 2 ^ w = pow-le-pow_right {n = 2} (omega arith) h in
    let parts : 2 ^ (s + k) ≡ 2 ^ s * 2 ^ k = pow_add s k in
    let pos : 0 < 2 ^ s = pow_pos s in
    let scaled : suc x * 2 ^ s ≤ 2 ^ k * 2 ^ s = grind arith in omega arith

-- The bits of a group of seven that the type has room for land at `s`.
pub or_group :
    (w s k r x : ℕ)
    → s + k ≤ w
    → x < 2 ^ k
    → r < 2 ^ s
    → bit_or r (x * 2 ^ s % 2 ^ w) ≡ r + x * 2 ^ s
or_group w s k r x h lt small = rw (mod-eq_of_lt (shift_lt w s k x h lt)) (or_fields s r x small)

pub seven : (x : ℕ) → bit_and x 0x7f ≡ x % 128
seven x = and_mask 7 x

pub more_set : (x : ℕ) → x < 128 → more (x + 128) ≡ true
unfolding more
more_set x h = ground (arith, high_bit (x + 128) (omega arith))

pub more_clear : (x : ℕ) → x < 128 → more x ≡ false
unfolding more
more_clear x h = ground (arith, high_bit x (omega arith))

module _ (w mask legal : ℕ) (bytes : List ℕ) (left r s n x : ℕ) (x_fits : x < 128)
    (r_fits : r < 2 ^ s) where
  -- A byte with its high bit set, below the top of the type.
  pub decode_more :
      s + 7 ≤ w
      → decode_loop w mask legal ((x + 128) ∷ bytes) (suc left) r s n
        ≡ decode_loop w mask legal bytes left (r + x * 2 ^ s) (s + 7) (n + 1)
  unfolding decode_loop
  decode_more room =
      let fits = or_group w s 7 r x room x_fits r_fits in
      let low : bit_and (x + 128) 0x7f ≡ x = omega (arith, seven (x + 128)) in
      rw (low, fits, more_set x x_fits) (ground arith)

  -- A byte that ends the number below the top of the type.
  pub decode_stop :
      s + 7 ≤ w
      → decode_loop w mask legal (x ∷ bytes) (suc left) r s n
        ≡ ok (good (finish w mask legal (r + x * 2 ^ s) (s + 7)) (n + 1))
  unfolding decode_loop
  decode_stop room =
      let fits = or_group w s 7 r x room x_fits r_fits in
      let low : bit_and x 0x7f ≡ x = omega (arith, seven x) in
      rw (low, fits, more_clear x x_fits) (ground arith)

  -- The byte that reaches the top.
  pub decode_last :
      w < s + 7
      → decode_loop w mask legal (x ∷ bytes) (suc left) r s n
        ≡ ok (last_byte mask legal x (bit_or r (x * 2 ^ s % 2 ^ w)) (n + 1))
  unfolding decode_loop
  decode_last room =
      let low : bit_and x 0x7f ≡ x = omega (arith, seven x) in rw (low, lt→ltb w (s + 7) room)
