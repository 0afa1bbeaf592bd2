-- ===== src/Witness/Codec.antt =====
-- Runs of the LEB128 coders, the readers and the opcode coder.
use wasm_instrument.Prelude.{
  ℕ, ◌+◌, ◌-◌, ◌^◌, ◌≤◌, ◌<◌, ◌≡◌, refl, List, [], ◌∷◌, ◌++◌, length, arith,
}
use wasm_instrument.Prelude.Result.{ok}
use wasm_instrument.Leb.{decode_loop, encode_unsigned, encode_u32leb}
use wasm_instrument.Leb.Bounds.{Within, decode-in_bounds, encode_u32leb-rounds}
use wasm_instrument.Buffer.{read_name}
use wasm_instrument.Buffer.Reads.{at, read_name-encode_name}
use wasm_instrument.Writer.{encode_name}
use wasm_instrument.Opcode.{read_opcode, encode_opcode}
use wasm_instrument.Opcode.Legal.{simd_legal}
use wasm_instrument.Opcode.RoundTrip.{read_opcode-encode_opcode}

decode-in_bounds_example : Within 32 2 (decode_loop 32 0xf8 0x08 (0x80 ∷ 0x80 ∷ 1 ∷ []) 2 0 0 0)
decode-in_bounds_example = decode-in_bounds 32 0xf8 0x08 (0x80 ∷ 0x80 ∷ 1 ∷ []) 2 (omega arith)

encode_u32leb-rounds_example :
    (encode_unsigned 9 (2 ^ 32 - 1) ≡ encode_u32leb (2 ^ 32 - 1))
    × (0 < length (encode_u32leb (2 ^ 32 - 1)))
    × (length (encode_u32leb (2 ^ 32 - 1)) ≤ 5)
encode_u32leb-rounds_example = encode_u32leb-rounds (2 ^ 32 - 1) 9 (omega arith) (omega arith)

read_name-encode_name_example :
    read_name
      (at (encode_name (109 ∷ 97 ∷ []) ++ 7 ∷ []) 4 (4 + length (encode_name (109 ∷ 97 ∷ [])) + 1))
    ≡ ok (
      109 ∷ 97 ∷ [],
      at
          (7 ∷ [])
          (4 + length (encode_name (109 ∷ 97 ∷ [])))
          (4 + length (encode_name (109 ∷ 97 ∷ [])) + 1),
    )
read_name-encode_name_example = read_name-encode_name (109 ∷ 97 ∷ []) (7 ∷ []) 4 1 (omega arith)

read_opcode-encode_opcode_example :
    (bytes : List ℕ) × (encode_opcode 0xfd0c ≡ ok bytes)
    × (read_opcode (at (bytes ++ 5 ∷ []) 2 (2 + length bytes + 1))
        ≡ ok (0xfd0c, at (5 ∷ []) (2 + length bytes) (2 + length bytes + 1)))
read_opcode-encode_opcode_example = read_opcode-encode_opcode 0xfd0c (5 ∷ []) 2 1 simd_legal refl
