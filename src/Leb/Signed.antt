-- ===== src/Leb/Signed.antt =====
-- ENCODE_BODY(SIGNED) and DECODE_BODY of src/common.cpp together, at any width.
use native.Mathlib.Nat.{pow-le-pow_right, mod-eq_of_lt, pow-suc}
use wasm_instrument.Prelude.{
  ℕ, zero, suc, ◌+◌, ◌-◌, ◌*◌, ◌/◌, ◌%◌, ◌^◌, ◌≤◌, ◌<◌, bit_and, ◌≡◌, refl, ap, List, [], ◌∷◌,
  arith, true, ltb, ◌==◌, if◌then◌else◌, ◌&&◌, ltb→lt, leb, Bool-cases, inl, inr,
}
use wasm_instrument.Prelude.Bits.{pow_add, sign_bit, high_bit, set_high}
use wasm_instrument.Leb.{good, asr, last_byte}
use wasm_instrument.Leb.{more_signed, encode_signed}
use wasm_instrument.Leb.Steps.{seven}
use wasm_instrument.Leb.SignedDecode.{Yields, stop_pos, stop_neg, more_group, top_group}
use wasm_instrument.Leb.Unsigned.{next_room, regroup, next_low}

-- A w-bit pattern with w ≥ 8; a negative one is written `2 ^ w - suc c`.
module _ (w : ℕ) (wide : 256 ≤ 2 ^ w) (even : 2 ^ w ≡ 2 * 2 ^ (w - 1))
    (groups : 2 ^ w ≡ 128 * 2 ^ (w - 7)) where
  abbrev pub neg : ℕ → ℕ
  neg c = 2 ^ w - suc c

  asr_pos : (v : ℕ) → v < 2 ^ (w - 1) → asr w 7 v ≡ v / 128
  asr_pos v h = ground arith

  asr-neg : (c : ℕ) → c < 2 ^ (w - 1) → asr w 7 (neg c) ≡ neg (c / 128)
  asr-neg c h = ground arith

  low_neg : (c : ℕ) → c < 2 ^ (w - 1) → bit_and (neg c) 0x7f ≡ 127 - c % 128
  low_neg c h = omega (arith, seven (neg c))

  -- The byte is marked unless the rest is the extension of its bit 6.
  mark_pos :
      (v b : ℕ)
      → b < 128
      → v < 2 ^ (w - 1)
      → more_signed w v b ≡ (if (v == 0) && ltb b 64 then b else b + 128)
  unfolding more_signed
  mark_pos v b h top = ground (arith, sign_bit b h, set_high b h)

  mark_neg :
      (c b : ℕ)
      → b < 128
      → c < 2 ^ (w - 1)
      → more_signed w (neg c) b ≡ (if (c == 0) && leb 64 b then b else b + 128)
  unfolding more_signed
  mark_neg c b h top = ground (arith, sign_bit b h, set_high b h)

  pos_one : (n v : ℕ) → v < 64 → encode_signed w (suc n) v ≡ v ∷ []
  unfolding encode_signed
  pos_one n v h =
      rw
        (asr_pos v (omega arith), seven v, mark_pos (v / 128) (v % 128) (omega arith) (omega arith))
        (ground (arith, high_bit v (omega arith)))

  pos_next :
      (n v : ℕ)
      → 64 ≤ v
      → v < 2 ^ (w - 1)
      → encode_signed w (suc n) v ≡ (v % 128 + 128) ∷ encode_signed w n (v / 128)
  unfolding encode_signed
  pos_next n v h top =
      rw (asr_pos v top, seven v, mark_pos (v / 128) (v % 128) (omega arith) (omega arith))
        (ground (arith, high_bit (v % 128 + 128) (omega arith)))

  neg_one : (n c : ℕ) → c < 64 → encode_signed w (suc n) (neg c) ≡ (127 - c) ∷ []
  unfolding encode_signed
  neg_one n c h =
      let top : c < 2 ^ (w - 1) = omega arith in
      rw
        (
          asr-neg c top,
          low_neg c top,
          mark_neg (c / 128) (127 - c % 128) (omega arith) (omega arith),
        )
        (ground (arith, high_bit (127 - c) (omega arith)))

  neg_next :
      (n c : ℕ)
      → 64 ≤ c
      → c < 2 ^ (w - 1)
      → encode_signed w (suc n) (neg c) ≡ (127 - c % 128 + 128) ∷ encode_signed w n (neg (c / 128))
  unfolding encode_signed
  neg_next n c h top =
      rw
        (
          asr-neg c top,
          low_neg c top,
          mark_neg (c / 128) (127 - c % 128) (omega arith) (omega arith),
        )
        (ground (arith, high_bit (127 - c % 128 + 128) (omega arith)))

regroup_neg : (c p : ℕ) → suc (c / 128) * (p * 128) ≡ suc c * p + (127 - c % 128) * p
regroup_neg c p =
    let count : suc (c / 128) * 128 ≡ suc c + (127 - c % 128) = omega arith in
    omega (arith, ap (λ (t : ℕ). t * p) count)

-- The coder of a signed type of w bits, whose last byte has `suc m` of them.
module _ (w m mask legal : ℕ) (m_fits : m < 6) (wide : 256 ≤ 2 ^ w) (even : 2 ^ w ≡ 2 * 2 ^ (w - 1))
    (groups : 2 ^ w ≡ 128 * 2 ^ (w - 7)) (signed : bit_and 0x7f mask == legal ≡ true)
    (top_pos : (x u j : ℕ) → x < 2 ^ m → last_byte mask legal x u j ≡ good u j)
    (top_low : (c : ℕ) → c < 2 ^ m → (127 - c) % 2 ^ suc m ≡ 2 ^ suc m - suc c)
    (top_neg : (c u j : ℕ) → c < 2 ^ m → last_byte mask legal (127 - c) u j ≡ good u j) where
  small_top : 2 ^ m ≤ 32
  small_top = pow-le-pow_right {n = 2} (omega arith) {i = m} {j = 5} (omega arith)

  -- What is left of the number is below the sign bit.
  half_room : (k s c : ℕ) → s + (7 * k + suc m) ≡ w → c < 2 ^ (7 * k + m) → c < 2 ^ (w - 1)
  half_room k s c e h =
      let grows : 2 ^ (7 * k + m) ≤ 2 ^ (w - 1) =
        pow-le-pow_right {n = 2} (omega arith) {i = 7 * k + m} {j = w - 1} (omega arith) in
      omega arith

  pub pos-Yields :
      (k v : ℕ) (rest : List ℕ) (s r n : ℕ)
      → s + (7 * k + suc m) ≡ w
      → v < 2 ^ (7 * k + m)
      → r < 2 ^ s
      → Yields w mask legal signed (encode_signed w (suc k) v) (r + v * 2 ^ s) rest s r n
  pos-Yields zero v rest s r n e h small =
      let only : 7 * 0 + m ≡ m = omega arith in
      let fits : v < 2 ^ m = omega (arith, ap (λ (t : ℕ). 2 ^ t) only) in
      let low : v % 2 ^ suc m ≡ v = mod-eq_of_lt (omega (arith, pow-suc 2 m)) in
      let byte : v < 64 = omega (arith, small_top) in
      rw (pos_one w wide even groups 0 v byte) (
        top_group w mask legal signed v v (r + v * 2 ^ s) m rest s r n (omega arith) m_fits
          (omega arith) small low refl (λ u j. top_pos v u j fits))
  pos-Yields (suc k) v rest s r n e h small = elim (Bool-cases (ltb v 64)) [
    | inl one ↦
        rw (pos_one w wide even groups (suc k) v (ltb→lt v 64 one))
          (stop_pos w mask legal signed v rest s r n (omega arith) (ltb→lt v 64 one) small)
    | inr many ↦
        let same : r + v % 128 * 2 ^ s + v / 128 * 2 ^ (s + 7) ≡ r + v * 2 ^ s =
          rw (pow_add s 7) (regroup r v (2 ^ s)) in
        rw (pos_next w wide even groups (suc k) v (ground arith) (half_room (suc k) s v e h)) (
          more_group w mask legal signed (encode_signed w (suc k) (v / 128)) (v % 128)
            (r + v * 2 ^ s) rest s r n (omega arith) (omega arith) small
            (rw (← same) (
              pos-Yields k (v / 128) rest (s + 7) (r + v % 128 * 2 ^ s) (n + 1) (omega arith)
                (next_room v k m h) (next_low r s (v % 128) small (omega arith)))))
  ]

  -- What the top group holds of a negative number.
  neg_value :
      (s r c y : ℕ)
      → s + suc m ≡ w
      → c < 2 ^ m
      → y + suc c * 2 ^ s ≡ 2 ^ w + r
      → y ≡ r + (2 ^ suc m - suc c) * 2 ^ s
  neg_value s r c y e h val =
      let whole : 2 ^ w ≡ 2 ^ s * 2 ^ suc m = rw e at (pow_add s (suc m)) in
      let parts : 2 ^ suc m - suc c + suc c ≡ 2 ^ suc m = omega (arith, pow-suc 2 m) in
      omega (arith, ap (λ (t : ℕ). t * 2 ^ s) parts)

  pub neg-Yields :
      (k c y : ℕ) (rest : List ℕ) (s r n : ℕ)
      → s + (7 * k + suc m) ≡ w
      → c < 2 ^ (7 * k + m)
      → r < 2 ^ s
      → y + suc c * 2 ^ s ≡ 2 ^ w + r
      → Yields w mask legal signed (encode_signed w (suc k) (2 ^ w - suc c)) y rest s r n
  neg-Yields zero c y rest s r n e h small val =
      let only : 7 * 0 + m ≡ m = omega arith in
      let fits : c < 2 ^ m = omega (arith, ap (λ (t : ℕ). 2 ^ t) only) in
      let byte : c < 64 = omega (arith, small_top) in
      let last : s + suc m ≡ w = omega arith in
      rw (neg_one w wide even groups 0 c byte) (
        top_group w mask legal signed (127 - c) (2 ^ suc m - suc c) y m rest s r n last m_fits
          (omega arith) small (top_low c fits) (neg_value s r c y last fits val)
          (λ u j. top_neg c u j fits))
  neg-Yields (suc k) c y rest s r n e h small val = elim (Bool-cases (ltb c 64)) [
    | inl one ↦
        rw (neg_one w wide even groups (suc k) c (ltb→lt c 64 one))
          (stop_neg w mask legal signed c y rest s r n (omega arith) (ltb→lt c 64 one) small val)
    | inr many ↦
        rw (neg_next w wide even groups (suc k) c (ground arith) (half_room (suc k) s c e h)) (
          more_group w mask legal signed (encode_signed w (suc k) (2 ^ w - suc (c / 128)))
            (127 - c % 128) y rest s r n (omega arith) (omega arith) small
            (neg-Yields k (c / 128) y rest (s + 7) (r + (127 - c % 128) * 2 ^ s) (n + 1)
              (omega arith) (next_room c k m h) (next_low r s (127 - c % 128) small (omega arith))
              (rw (pow_add s 7, regroup_neg c (2 ^ s)) (omega arith))))
  ]
