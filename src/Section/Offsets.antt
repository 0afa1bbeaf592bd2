-- ===== src/Section/Offsets.antt =====
-- Theorems on the constant offsets of elements and data, in src/parse.cpp and src/encode.cpp.
use wasm_instrument.Prelude.{ℕ, ◌%◌, ◌^◌, ◌≡◌, ◌⊎◌, inl, inr, refl, List, ◌++◌, arith}
use wasm_instrument.Prelude.Result.{ok}
use wasm_instrument.Leb.{encode_i32leb, encode_i64leb}
use wasm_instrument.Buffer.{read_i64leb}
use wasm_instrument.Buffer.Reads.{
  Reads, Reads-pure, Reads-bind, Reads-then, read_i32leb-Reads, read_i64leb-Reads,
}
use wasm_instrument.Opcode.{read_opcode, encode_opcode}
use wasm_instrument.Opcode.Legal.{i32_const_legal, i64_const_legal, end_legal}
use wasm_instrument.Opcode.RoundTrip.{encode-read_opcode}
use wasm_instrument.Inst.Encodable.{U32}
use wasm_instrument.Section.Bodies.{offset_of, decode_const_off_expr}
use wasm_instrument.Section.Encode.{encode_offset, encode_const_off_expr}

-- The opcodes that an offset can have.
abbrev pub IsConst : ℕ → Type 0
IsConst opc = (opc ≡ 0x41) ⊎ (opc ≡ 0x42)

offset-Reads :
    (opc offset : ℕ)
    → IsConst opc
    → U32 offset
    → (bytes : List ℕ) × (encode_offset opc offset ≡ ok bytes) × Reads (offset_of opc) bytes offset
unfolding encode_offset offset_of
offset-Reads opc offset (inl is_i32) small =
    (encode_i32leb offset, rw is_i32 refl, rw is_i32 (read_i32leb-Reads offset small))
offset-Reads opc offset (inr is_i64) small =
    let same : offset % 2 ^ 32 ≡ offset = omega arith in
    (
      encode_i64leb offset,
      rw is_i64 refl,
      rw is_i64 (
          Reads-then read_i64leb _ (encode_i64leb offset) (read_i64leb-Reads offset (omega arith))
            (rw same (Reads-pure offset))),
    )

const-Reads :
    (opc : ℕ)
    → IsConst opc
    → (bytes : List ℕ) × (encode_opcode opc ≡ ok bytes) × Reads read_opcode bytes opc
const-Reads opc (inl is_i32) = rw is_i32 (encode-read_opcode 0x41 i32_const_legal refl)
const-Reads opc (inr is_i64) = rw is_i64 (encode-read_opcode 0x42 i64_const_legal refl)

-- An offset of 32 bits under either opcode is read back.
pub off_expr-Reads :
    (opc offset : ℕ)
    → IsConst opc
    → U32 offset
    → (bytes : List ℕ) × (encode_const_off_expr opc offset ≡ ok bytes)
      × Reads {A = ℕ × ℕ} decode_const_off_expr bytes (offset, opc)
unfolding encode_const_off_expr decode_const_off_expr
off_expr-Reads opc offset const small =
    let (op, op_wrote, op_reads) = const-Reads opc const in
    let (off, off_wrote, off_reads) = offset-Reads opc offset const small in
    let (end, end_wrote, end_reads) = encode-read_opcode 0x0b end_legal refl in
    (
      op ++ (off ++ end),
      rw (op_wrote, off_wrote, end_wrote) refl,
      Reads-bind read_opcode _ op (off ++ end) op_reads (
          Reads-bind (offset_of opc) _ off end off_reads
            (Reads-then read_opcode _ end end_reads (Reads-pure {A = ℕ × ℕ} (offset, opc)))),
    )
