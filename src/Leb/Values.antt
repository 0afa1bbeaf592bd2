-- ===== src/Leb/Values.antt =====
-- The values that DECODE_BODY of src/common.cpp gives at type uint32_t.
use wasm_instrument.Prelude.{
  ℕ, zero, suc, ◌+◌, ◌*◌, ◌%◌, ◌^◌, ◌<◌, ◌≡◌, refl, List, [], ◌∷◌, arith, ltb, Bool, bit_and,
  bit_or, true, false, if◌then◌else◌,
}
use wasm_instrument.Prelude.Bits.{bit_or-lt}
use wasm_instrument.Prelude.Result.{Result, ok, throw, undefined}
use wasm_instrument.Leb.{Leb, good, bad, more, finish, last_byte, decode_loop, decode_u32leb}

-- A value that is given is below `top`.
abbrev Small : ℕ → Result Leb → Type 0
Small top (ok (good v n)) = v < top
Small top (ok (bad n)) = Unit
Small top (throw e) = Unit
Small top undefined = Unit

Small-if :
    (top : ℕ) (b : Bool) (x y : Result Leb)
    → Small top x
    → Small top y
    → Small top (if b then x else y)
Small-if top true x y hx hy = hx
Small-if top false x y hx hy = hy

last_byte-Small :
    (mask legal b r n : ℕ) → r < 2 ^ 32 → Small (2 ^ 32) (ok (last_byte mask legal b r n))
unfolding last_byte
last_byte-Small mask legal b r n h = ground arith

finish-u32 : (r s : ℕ) → finish 32 0xf8 0x08 r s ≡ r
unfolding finish
finish-u32 r s = refl

decode_loop-Small :
    (bytes : List ℕ) (left r s n : ℕ)
    → r < 2 ^ 32
    → Small (2 ^ 32) (decode_loop 32 0xf8 0x08 bytes left r s n)
unfolding decode_loop
decode_loop-Small bytes zero r s n h = tt
decode_loop-Small [] (suc left) r s n h = tt
decode_loop-Small (b ∷ bytes) (suc left) r s n h =
    let r' : ℕ = bit_or r (bit_and b 0x7f * 2 ^ s % 2 ^ 32) in
    let below : r' < 2 ^ 32 = bit_or-lt 32 r (bit_and b 0x7f * 2 ^ s % 2 ^ 32) h (omega arith) in
    Small-if (2 ^ 32) (ltb 32 (s + 7)) _ _ (last_byte-Small 0xf8 0x08 b r' (n + 1) below) (
      Small-if (2 ^ 32) (more b) _ _ (decode_loop-Small bytes left r' (s + 7) (n + 1) below)
        (rw (finish-u32 r' (s + 7)) below))

pub decode_u32leb-lt :
    (bytes : List ℕ) (left v n : ℕ) → decode_u32leb bytes left ≡ ok (good v n) → v < 2 ^ 32
unfolding decode_u32leb
decode_u32leb-lt bytes left v n e = rw e at (decode_loop-Small bytes left 0 0 0 (omega arith))
