-- ===== src/Leb/Unsigned.antt =====
-- ENCODE_BODY(UNSIGNED) and DECODE_BODY of src/common.cpp together, at any width.
use native.Mathlib.Nat.{pow-le-pow_right}
use wasm_instrument.Prelude.{
  ℕ, zero, suc, ◌+◌, ◌*◌, ◌/◌, ◌%◌, ◌^◌, ◌≤◌, ◌<◌, bit_and, ◌≡◌, refl, ap, List, [], ◌∷◌, ◌++◌,
  arith, true, false, ltb, ◌==◌, length, ltb→lt, ap₂, Bool, not, ◌&&◌, Bool-cases, inl, inr, ◌∙◌,
}
use wasm_instrument.Prelude.Bits.{pow_add, high_bit, set_high, every_below, every_below_sound}
use wasm_instrument.Prelude.Result.{ok}
use wasm_instrument.Leb.{good, finish, last_byte, decode_loop, decode_u32leb, decode_u64leb}
use wasm_instrument.Leb.{encode_unsigned, encode_u32leb, encode_u64leb}
use wasm_instrument.Leb.Steps.{more_clear, seven, or_group, decode_more, decode_stop, decode_last}

pub encode_one : (n v : ℕ) → v < 128 → encode_unsigned (suc n) v ≡ v ∷ []
unfolding encode_unsigned
encode_one n v h = ground (arith, seven v, high_bit v (omega arith))

pub encode_next :
    (n v : ℕ) → 128 ≤ v → encode_unsigned (suc n) v ≡ (v % 128 + 128) ∷ encode_unsigned n (v / 128)
unfolding encode_unsigned
encode_next n v h =
    ground
      (arith, seven v, set_high (v % 128) (omega arith), high_bit (v % 128 + 128) (omega arith))

-- The value that the groups add up to.
pub regroup : (r v p : ℕ) → r + v % 128 * p + v / 128 * (p * 128) ≡ r + v * p
regroup r v p =
    let split : (v % 128 + v / 128 * 128) * p ≡ v * p = ap (λ (t : ℕ). t * p) (omega arith) in
    omega arith

pub next_room : (v k l : ℕ) → v < 2 ^ (7 * suc k + l) → v / 128 < 2 ^ (7 * k + l)
next_room v k l h =
    let more : 7 * suc k + l ≡ 7 + (7 * k + l) = omega arith in
    omega (arith, ap (λ (t : ℕ). 2 ^ t) more, pow_add 7 (7 * k + l))

pub next_low : (r s x : ℕ) → r < 2 ^ s → x < 128 → r + x * 2 ^ s < 2 ^ (s + 7)
next_low r s x h lt =
    let top : suc x * 2 ^ s ≤ 128 * 2 ^ s = grind arith in omega (arith, pow_add s 7)

-- A coder for unsigned numbers of w bits, whose last byte has l of them.
module _ (w l mask legal : ℕ) (l_fits : l < 7) (plain : bit_and 0x7f mask == legal ≡ false)
    (top : (x y m : ℕ) → x < 2 ^ l → last_byte mask legal x y m ≡ good y m) where
  -- Decoding `bytes` at bit s, with r in the bits below, reads the number v off them.
  abbrev pub Decodes : List ℕ → ℕ → List ℕ → ℕ → ℕ → ℕ → Type 0
  Decodes bytes v rest s r n =
      (left : ℕ)
      → length bytes ≤ left
      → decode_loop w mask legal (bytes ++ rest) left r s n
        ≡ ok (good (r + v * 2 ^ s) (n + length bytes))

  finish_plain : (y s : ℕ) → finish w mask legal y s ≡ y
  unfolding finish
  finish_plain y s = rw plain

  small_group : 2 ^ l ≤ 2 ^ 7
  small_group = pow-le-pow_right {n = 2} (omega arith) {i = l} {j = 7} (omega arith)

  Decodes-last :
      (v : ℕ) (rest : List ℕ) (s r n : ℕ)
      → s + l ≡ w
      → v < 2 ^ l
      → r < 2 ^ s
      → Decodes (v ∷ []) v rest s r n
  Decodes-last v rest s r n e h small zero fits = absurd (omega arith)
  Decodes-last v rest s r n e h small (suc left) fits =
      let byte : v < 128 = omega (arith, small_group) in
      rw
        (
          decode_last w mask legal rest left r s n v byte small (omega arith),
          or_group w s l r v (omega arith) h small,
        )
        (ap ok (top v (r + v * 2 ^ s) (n + 1) h))

  Decodes-stop :
      (v : ℕ) (rest : List ℕ) (s r n : ℕ)
      → s + 7 ≤ w
      → v < 128
      → r < 2 ^ s
      → Decodes (v ∷ []) v rest s r n
  Decodes-stop v rest s r n e h small zero fits = absurd (omega arith)
  Decodes-stop v rest s r n e h small (suc left) fits =
      rw
        (decode_stop w mask legal rest left r s n v h small e, finish_plain (r + v * 2 ^ s) (s + 7))

  Decodes-more :
      (bytes : List ℕ) (v : ℕ) (rest : List ℕ) (s r n : ℕ)
      → s + 7 ≤ w
      → r < 2 ^ s
      → Decodes bytes (v / 128) rest (s + 7) (r + v % 128 * 2 ^ s) (n + 1)
      → Decodes ((v % 128 + 128) ∷ bytes) v rest s r n
  Decodes-more bytes v rest s r n e small next zero fits = absurd (omega arith)
  Decodes-more bytes v rest s r n e small next (suc left) fits =
      decode_more w mask legal (bytes ++ rest) left r s n (v % 128) (omega arith) small e
      ∙ next left (omega arith)
      ∙ ap₂ (λ y m. ok (good y m)) (rw pow_add (regroup r v (2 ^ s))) (omega arith)

  pub decodes :
      (k v : ℕ) (rest : List ℕ) (s r n : ℕ)
      → s + (7 * k + l) ≡ w
      → v < 2 ^ (7 * k + l)
      → r < 2 ^ s
      → Decodes (encode_unsigned (suc k) v) v rest s r n
  decodes zero v rest s r n e h small =
      let only : 7 * 0 + l ≡ l = omega arith in
      let fits : v < 2 ^ l = omega (arith, ap (λ (t : ℕ). 2 ^ t) only) in
      let byte : v < 128 = omega (arith, small_group) in
      rw (encode_one 0 v byte) (Decodes-last v rest s r n (omega arith) fits small)
  decodes (suc k) v rest s r n e h small = elim (Bool-cases (ltb v 128)) [
    | inl one ↦
        rw (encode_one (suc k) v (ltb→lt v 128 one))
          (Decodes-stop v rest s r n (omega arith) (ltb→lt v 128 one) small)
    | inr many ↦ rw (encode_next (suc k) v (ground arith)) (
        Decodes-more (encode_unsigned (suc k) (v / 128)) v rest s r n (omega arith) small (
          decodes k (v / 128) rest (s + 7) (r + v % 128 * 2 ^ s) (n + 1) (omega arith)
            (next_room v k l h) (next_low r s (v % 128) small (omega arith))))
  ]

-- A last byte whose upper bits are all clear, or just the legal ones, is accepted as it is.
module _ (mask legal : ℕ) where
  abbrev pub accepts : ℕ → Bool
  accepts x = let upper = bit_and x mask in not (not (upper == 0) && not (upper == legal))

  pub last_byte-accepts :
      (x y m : ℕ) → x < 128 → accepts x ≡ true → last_byte mask legal x y m ≡ good y m
  unfolding last_byte
  last_byte-accepts x y m byte table = ground (arith, more_clear x byte)

top_u32 : (x y m : ℕ) → x < 2 ^ 4 → last_byte 0xf8 0x08 x y m ≡ good y m
unfolding every_below
top_u32 x y m h =
    last_byte-accepts 0xf8 0x08 x y m (omega arith)
      (every_below_sound 16 (accepts 0xf8 0x08) x refl h)

top_u64 : (x y m : ℕ) → x < 2 ^ 1 → last_byte 0xff 0x01 x y m ≡ good y m
unfolding every_below
top_u64 x y m h =
    last_byte-accepts 0xff 0x01 x y m (omega arith)
      (every_below_sound 2 (accepts 0xff 0x01) x refl h)

-- Every number below 2 ^ 32 that is encoded as an unsigned LEB128 decodes to itself, whatever
-- bytes follow, and the decoder reports exactly the bytes that were written.
pub decode-encode_u32leb :
    (v : ℕ) (rest : List ℕ) (left : ℕ)
    → v < 2 ^ 32
    → length (encode_u32leb v) ≤ left
    → decode_u32leb (encode_u32leb v ++ rest) left ≡ ok (good v (length (encode_u32leb v)))
unfolding decode_u32leb encode_u32leb
decode-encode_u32leb v rest left h fits =
    decodes 32 4 0xf8 0x08 (omega arith) refl top_u32 4 v rest 0 0 0 refl h (omega arith) left fits
    ∙ ap₂ (λ y m. ok (good y m)) (omega arith) (omega arith)

-- The same at 64 bits.
pub decode-encode_u64leb :
    (v : ℕ) (rest : List ℕ) (left : ℕ)
    → v < 2 ^ 64
    → length (encode_u64leb v) ≤ left
    → decode_u64leb (encode_u64leb v ++ rest) left ≡ ok (good v (length (encode_u64leb v)))
unfolding decode_u64leb encode_u64leb
decode-encode_u64leb v rest left h fits =
    decodes 64 1 0xff 0x01 (omega arith) refl top_u64 9 v rest 0 0 0 refl h (omega arith) left fits
    ∙ ap₂ (λ y m. ok (good y m)) (omega arith) (omega arith)
