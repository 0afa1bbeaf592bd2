-- ===== src/Leb.antt =====
-- The LEB128 coders of src/common.cpp: the loops of the macros DECODE_BODY and ENCODE_BODY, at
-- the four types that the program instantiates them with.
-- A w-bit integer is its bit pattern, a number below 2 ^ w; a signed one is in two's complement.
mod Tests
pub mod Steps
pub mod Unsigned
pub mod SignedDecode
pub mod Signed
pub mod Bounds
pub mod Values
pub mod RoundTrip
use wasm_instrument.Prelude.{
  ℕ, zero, suc, ◌+◌, ◌-◌, ◌*◌, ◌/◌, ◌%◌, ◌^◌, bit_and, bit_or, Bool, true, false, ◌&&◌, ◌||◌, not,
  List, [], ◌∷◌, ltb, ◌==◌, if◌then◌else◌,
}
use wasm_instrument.Prelude.Result.{Result, ok, undefined}

-- What a decoder hands back: `good v n` returns v with `*len = n`; `bad n` returns 0 with
-- `*len = -n`.
pub data Leb : Type 0 where
  good : ℕ → ℕ → Leb
  bad : ℕ → Leb

-- `x >> k` on a signed w-bit pattern.
abbrev pub asr : ℕ → ℕ → ℕ → ℕ
asr w k x = if ltb x (2 ^ (w - 1)) then x / 2 ^ k else x / 2 ^ k + (2 ^ w - 2 ^ (w - k))

-- MORE(b)
unfoldable pub more : ℕ → Bool
more b = not (bit_and b 0x80 == 0)

-- `((0x7F & mask) == legal) ? (result << rem) >> rem : result`
unfoldable pub finish : ℕ → ℕ → ℕ → ℕ → ℕ → ℕ
finish w mask legal result shift =
    if bit_and 0x7f mask == legal
    then asr w (w - shift) (result * 2 ^ (w - shift) % 2 ^ w)
    else result

-- The last byte that fits: `overlong` and `out of range` are errors.
pub last_byte : ℕ → ℕ → ℕ → ℕ → ℕ → Leb
last_byte mask legal b result n =
    let upper = bit_and b mask in
    if more b
    then bad n
    else if not (upper == 0) && not (upper == legal)
    then bad n
    else good result n

-- The loop of DECODE_BODY(type, mask, legal), at the width w of the type: `left` is `limit - ptr`,
-- `n` is `ptr - start`. Reading a byte that the memory does not have is undefined.
unfoldable pub decode_loop : ℕ → ℕ → ℕ → List ℕ → ℕ → ℕ → ℕ → ℕ → Result Leb
decode_loop w mask legal bytes zero result shift n = ok (bad n)
decode_loop w mask legal [] (suc left) result shift n = undefined
decode_loop w mask legal (b ∷ bytes) (suc left) result shift n =
    let result' = bit_or result (bit_and b 0x7f * 2 ^ shift % 2 ^ w) in
    let shift' = shift + 7 in
    let next = decode_loop w mask legal bytes left result' shift' (n + 1) in
    if ltb w shift'
    then ok (last_byte mask legal b result' (n + 1))
    else if more b
    then next
    else ok (good (finish w mask legal result' shift') (n + 1))

pub decode_i32leb : List ℕ → ℕ → Result Leb
decode_i32leb bytes left = decode_loop 32 0xf8 0x78 bytes left 0 0 0

unfoldable pub decode_u32leb : List ℕ → ℕ → Result Leb
decode_u32leb bytes left = decode_loop 32 0xf8 0x08 bytes left 0 0 0

pub decode_i64leb : List ℕ → ℕ → Result Leb
decode_i64leb bytes left = decode_loop 64 0xff 0x7f bytes left 0 0 0

pub decode_u64leb : List ℕ → ℕ → Result Leb
decode_u64leb bytes left = decode_loop 64 0xff 0x01 bytes left 0 0 0

-- MORE_UNSIGNED: the byte, with its high bit set when more follow.
pub more_unsigned : ℕ → ℕ → ℕ
more_unsigned val b = if not (val == 0) then bit_or b 0x80 else b

-- MORE_SIGNED at width w, where -1 is 2 ^ w - 1.
pub more_signed : ℕ → ℕ → ℕ → ℕ
more_signed w val b =
    let sign = not (bit_and b 0x40 == 0) in
    if not (((val == 0) && not sign) || ((val == (2 ^ w - 1)) && sign)) then bit_or b 0x80 else b

-- ENCODE_BODY with fuel for its rounds: `while (b & 0x80)` around the body that emits one byte.
-- A w-bit value takes at most w / 7 + 1 rounds.
pub encode_loop : (ℕ → ℕ) → (ℕ → ℕ → ℕ) → ℕ → ℕ → List ℕ
encode_loop shift_right mark zero val = []
encode_loop shift_right mark (suc rounds) val =
    let val' = shift_right val in
    let b = mark val' (bit_and val 0x7f) in
    let rest = encode_loop shift_right mark rounds val' in
    b ∷ (if bit_and b 0x80 == 0 then [] else rest)

abbrev pub rounds : ℕ → ℕ
rounds w = w / 7 + 1

unfoldable pub encode_unsigned : ℕ → ℕ → List ℕ
unfolding encode_loop more_unsigned
encode_unsigned n val = encode_loop (λ v. v / 2 ^ 7) more_unsigned n val

unfoldable pub encode_signed : ℕ → ℕ → ℕ → List ℕ
unfolding encode_loop more_signed
encode_signed w n val = encode_loop (asr w 7) (more_signed w) n val

unfoldable pub encode_i32leb : ℕ → List ℕ
encode_i32leb val = encode_signed 32 (rounds 32) val

unfoldable pub encode_u32leb : ℕ → List ℕ
encode_u32leb val = encode_unsigned (rounds 32) val

pub encode_i64leb : ℕ → List ℕ
encode_i64leb val = encode_signed 64 (rounds 64) val

pub encode_u64leb : ℕ → List ℕ
encode_u64leb val = encode_unsigned (rounds 64) val
