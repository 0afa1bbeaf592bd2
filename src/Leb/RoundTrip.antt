-- ===== src/Leb/RoundTrip.antt =====
-- The signed coders at the two types of the program.
use wasm_instrument.Prelude.{
  ℕ, suc, ◌-◌, ◌^◌, ◌≤◌, ◌<◌, ◌≡◌, refl, List, ◌++◌, arith, ltb, ltb→lt, length, ap₂, ap,
  Bool-cases, inl, inr, ◌∙◌,
}
use wasm_instrument.Prelude.Bits.{every_below, every_below_sound}
use wasm_instrument.Prelude.Result.{ok}
use wasm_instrument.Leb.{
  good, last_byte, decode_i32leb, decode_i64leb, encode_i32leb, encode_i64leb,
}
use wasm_instrument.Leb.Unsigned.{accepts, last_byte-accepts}
use wasm_instrument.Leb.Signed.{pos-Yields, neg-Yields}

pos_i32 : (x u j : ℕ) → x < 2 ^ 3 → last_byte 0xf8 0x78 x u j ≡ good u j
unfolding every_below
pos_i32 x u j h =
    last_byte-accepts 0xf8 0x78 x u j (omega arith)
      (every_below_sound 8 (accepts 0xf8 0x78) x refl h)

neg_i32 : (c u j : ℕ) → c < 2 ^ 3 → last_byte 0xf8 0x78 (127 - c) u j ≡ good u j
unfolding every_below
neg_i32 c u j h =
    last_byte-accepts 0xf8 0x78 (127 - c) u j (omega arith)
      (every_below_sound 8 (λ k. accepts 0xf8 0x78 (127 - k)) c refl h)

pos_i64 : (x u j : ℕ) → x < 2 ^ 0 → last_byte 0xff 0x7f x u j ≡ good u j
unfolding every_below
pos_i64 x u j h =
    last_byte-accepts 0xff 0x7f x u j (omega arith)
      (every_below_sound 1 (accepts 0xff 0x7f) x refl h)

neg_i64 : (c u j : ℕ) → c < 2 ^ 0 → last_byte 0xff 0x7f (127 - c) u j ≡ good u j
unfolding every_below
neg_i64 c u j h =
    last_byte-accepts 0xff 0x7f (127 - c) u j (omega arith)
      (every_below_sound 1 (λ k. accepts 0xff 0x7f (127 - k)) c refl h)

-- Every 32-bit pattern that is encoded as a signed LEB128 decodes to itself, whatever bytes
-- follow, and the decoder reports exactly the bytes that were written.
pub decode-encode_i32leb :
    (v : ℕ) (rest : List ℕ) (left : ℕ)
    → v < 2 ^ 32
    → length (encode_i32leb v) ≤ left
    → decode_i32leb (encode_i32leb v ++ rest) left ≡ ok (good v (length (encode_i32leb v)))
unfolding decode_i32leb encode_i32leb
decode-encode_i32leb v rest left h fits = elim (Bool-cases (ltb v (2 ^ 31))) [
  | inl small ↦
      pos-Yields 32 3 0xf8 0x78 (omega arith) (omega arith) refl refl refl pos_i32
        (λ c lt. omega arith) neg_i32 4 v rest 0 0 0 refl (ltb→lt v (2 ^ 31) small) (omega arith)
        left fits
      ∙ ap₂ (λ y m. ok (good y m)) (omega arith) (omega arith)
  | inr large ↦
      let c = 2 ^ 32 - 1 - v in
      let same : 2 ^ 32 - suc c ≡ v = omega arith in
      rw same at
        (neg-Yields 32 3 0xf8 0x78 (omega arith) (omega arith) refl refl refl pos_i32
          (λ c lt. omega arith) neg_i32 4 c v rest 0 0 0 refl (ground arith) (omega arith)
          (omega arith))
        left fits
      ∙ ap (λ m. ok (good v m)) (omega arith)
]

-- The same at 64 bits.
pub decode-encode_i64leb :
    (v : ℕ) (rest : List ℕ) (left : ℕ)
    → v < 2 ^ 64
    → length (encode_i64leb v) ≤ left
    → decode_i64leb (encode_i64leb v ++ rest) left ≡ ok (good v (length (encode_i64leb v)))
unfolding decode_i64leb encode_i64leb
decode-encode_i64leb v rest left h fits = elim (Bool-cases (ltb v (2 ^ 63))) [
  | inl small ↦
      pos-Yields 64 0 0xff 0x7f (omega arith) (omega arith) refl refl refl pos_i64
        (λ c lt. omega arith) neg_i64 9 v rest 0 0 0 refl (ltb→lt v (2 ^ 63) small) (omega arith)
        left fits
      ∙ ap₂ (λ y m. ok (good y m)) (omega arith) (omega arith)
  | inr large ↦
      let c = 2 ^ 64 - 1 - v in
      let same : 2 ^ 64 - suc c ≡ v = omega arith in
      rw same at
        (neg-Yields 64 0 0xff 0x7f (omega arith) (omega arith) refl refl refl pos_i64
          (λ c lt. omega arith) neg_i64 9 c v rest 0 0 0 refl (ground arith) (omega arith)
          (omega arith))
        left fits
      ∙ ap (λ m. ok (good v m)) (omega arith)
]
