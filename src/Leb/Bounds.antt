-- ===== src/Leb/Bounds.antt =====
-- How far the loops of DECODE_BODY and ENCODE_BODY of src/common.cpp go.
use wasm_instrument.Prelude.{
  ℕ, zero, suc, ◌+◌, ◌*◌, ◌/◌, ◌%◌, ◌^◌, ◌≤◌, ◌<◌, ◌≡◌, refl, List, [], ◌∷◌, arith, ltb, ltb→lt,
  length, ap, Bool-cases, inl, inr, true, false, Bool, bit_and, bit_or, if◌then◌else◌,
}
use wasm_instrument.Prelude.Result.{Result, ok}
use wasm_instrument.Leb.{
  Leb, good, bad, more, finish, last_byte, decode_loop, encode_unsigned, encode_signed,
  encode_u32leb, encode_i32leb, encode_u64leb, encode_i64leb, rounds,
}
use wasm_instrument.Leb.Unsigned.{encode_one, encode_next, next_room}

-- The bytes that a decoder says it took.
abbrev pub taken : Leb → ℕ
taken (good v n) = n
taken (bad n) = n

last_byte-taken : (mask legal b y n : ℕ) → taken (last_byte mask legal b y n) ≡ n
unfolding last_byte
last_byte-taken mask legal b y n = ground arith

-- The decoder returns, and what it took lies below `last`, in groups that the type has room for.
abbrev pub Within : ℕ → ℕ → Result Leb → Type 0
Within w last r = (d : Leb) × (r ≡ ok d) × (taken d ≤ last) × (7 * taken d ≤ w + 7)

Within-if :
    (w last : ℕ) (b : Bool) {x y : Result Leb}
    → Within w last x
    → (b ≡ false → Within w last y)
    → Within w last (if b then x else y)
Within-if w last true hx hy = hx
Within-if w last false hx hy = hy refl

Within-from :
    (w mask legal : ℕ) (bytes : List ℕ) (left r s n last : ℕ)
    → left ≤ length bytes
    → s ≡ 7 * n
    → s ≤ w
    → n + left ≤ last
    → Within w last (decode_loop w mask legal bytes left r s n)
unfolding decode_loop
Within-from w mask legal bytes zero r s n last h e room top =
    (bad n, refl, omega arith, omega arith)
Within-from w mask legal [] (suc left) r s n last h e room top = absurd (omega arith)
Within-from w mask legal (b ∷ bytes) (suc left) r s n last h e room top =
    Within-if w last (ltb w (s + 7))
      (
        last_byte mask legal b r' (n + 1),
        refl,
        omega (arith, last_byte-taken mask legal b r' (n + 1)),
        omega (arith, last_byte-taken mask legal b r' (n + 1)),
      )
      λ fits.
        Within-if w last (more b)
          (Within-from w mask legal bytes left r' (s + 7) (n + 1) last (omega arith) (omega arith)
            (ground arith) (omega arith))
          λ _. (good (finish w mask legal r' (s + 7)) (n + 1), refl, omega arith, ground arith)
  where
    r' : ℕ
    r' = bit_or r (bit_and b 0x7f * 2 ^ s % 2 ^ w)

-- A decoder whose limit lies within the memory returns. It takes at most the bytes up to the
-- limit, and at most one group of seven bits more than fit the type.
pub decode-in_bounds :
    (w mask legal : ℕ) (bytes : List ℕ) (left : ℕ)
    → left ≤ length bytes
    → Within w left (decode_loop w mask legal bytes left 0 0 0)
decode-in_bounds w mask legal bytes left h =
    Within-from w mask legal bytes left 0 0 0 left h refl (omega arith) (omega arith)

-- With the rounds that a number needs, the encoder emits the same bytes as with any more, at
-- least one and at most one for each round.
unsigned_rounds :
    (k f v : ℕ)
    → k < f
    → v < 2 ^ (7 * k + 7)
    → (encode_unsigned f v ≡ encode_unsigned (suc k) v)
      × (0 < length (encode_unsigned f v))
      × (length (encode_unsigned f v) ≤ suc k)
unsigned_rounds k zero v lt h = absurd (omega arith)
unsigned_rounds zero (suc f) v lt h =
    let byte : v < 128 = omega arith in
    rw (encode_one f v byte, encode_one 0 v byte) (refl, omega arith, omega arith)
unsigned_rounds (suc k) (suc f) v lt h = elim (Bool-cases (ltb v 128)) [
  | inl one ↦
      rw (encode_one f v (ltb→lt v 128 one), encode_one (suc k) v (ltb→lt v 128 one))
        (refl, omega arith, omega arith)
  | inr many ↦
      let rest = unsigned_rounds k f (v / 128) (omega arith) (next_room v k 7 h) in
      rw (encode_next f v (ground arith), encode_next (suc k) v (ground arith))
        (ap (◌∷◌ (v % 128 + 128)) rest.0, omega arith, omega arith)
]

-- The rounds that the model gives the encoder of a 32-bit number are enough: any more leave its
-- output as it is, which is of one to five bytes.
pub encode_u32leb-rounds :
    (v f : ℕ)
    → v < 2 ^ 32
    → rounds 32 ≤ f
    → (encode_unsigned f v ≡ encode_u32leb v)
      × (0 < length (encode_u32leb v))
      × (length (encode_u32leb v) ≤ 5)
unfolding encode_u32leb
encode_u32leb-rounds v f h enough =
    let same = (unsigned_rounds 4 f v (omega arith) (omega arith)).0 in
    let own = unsigned_rounds 4 5 v (omega arith) (omega arith) in (same, own.1, own.2)

-- The loops run at least once.
pub u32leb_pos : (v : ℕ) → 0 < length (encode_u32leb v)
unfolding encode_u32leb encode_unsigned
u32leb_pos v = omega arith

pub i32leb_pos : (v : ℕ) → 0 < length (encode_i32leb v)
unfolding encode_i32leb encode_signed
i32leb_pos v = omega arith

pub u64leb_pos : (v : ℕ) → 0 < length (encode_u64leb v)
unfolding encode_u64leb encode_unsigned
u64leb_pos v = omega arith

pub i64leb_pos : (v : ℕ) → 0 < length (encode_i64leb v)
unfolding encode_i64leb encode_signed
i64leb_pos v = omega arith
