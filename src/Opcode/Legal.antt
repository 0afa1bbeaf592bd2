-- ===== src/Opcode/Legal.antt =====
-- Opcodes that the table has, by evaluation.
use wasm_instrument.Prelude.{◌≡◌, refl, true, [], ◌∷◌}
use wasm_instrument.Prelude.Result.{ok}
use wasm_instrument.Opcode.Entry.{row, imm_i32, imm_func}
use wasm_instrument.Opcode.OneByte.{control_rows, numeric_rows}
use wasm_instrument.Opcode.Simd.{simd_rows}
use wasm_instrument.Opcode.{
  opcode_table, find_row, rows_of, is_legal, validate_op, encode_opcode, top_byte, lower_bytes,
}
use wasm_instrument.Writer.{encode_u8}
use wasm_instrument.Opcode.RoundTrip.{legal}
use wasm_instrument.Prelude.{some}

pub simd_legal : legal 0xfd0c ≡ true
unfolding legal validate_op opcode_table find_row rows_of is_legal simd_rows
simd_legal = refl

pub i32_const_legal : legal 0x41 ≡ true
unfolding legal validate_op opcode_table find_row rows_of is_legal control_rows numeric_rows
i32_const_legal = refl

pub i64_const_legal : legal 0x42 ≡ true
unfolding legal validate_op opcode_table find_row rows_of is_legal control_rows numeric_rows
i64_const_legal = refl

pub end_legal : legal 0x0b ≡ true
unfolding legal validate_op opcode_table find_row rows_of is_legal control_rows numeric_rows
end_legal = refl

pub call_legal : legal 0x10 ≡ true
unfolding legal validate_op opcode_table find_row rows_of is_legal control_rows numeric_rows
call_legal = refl

pub call_row : opcode_table 0x10 ≡ ok (some (row 0x10 "call" imm_func))
unfolding opcode_table find_row rows_of control_rows numeric_rows
call_row = refl

pub i32_const_row : opcode_table 0x41 ≡ ok (some (row 0x41 "i32.const" imm_i32))
unfolding opcode_table find_row rows_of control_rows numeric_rows
i32_const_row = refl

pub call_bytes : encode_opcode 0x10 ≡ ok (0x10 ∷ [])
unfolding encode_opcode top_byte lower_bytes validate_op opcode_table find_row rows_of is_legal
    control_rows numeric_rows encode_u8
call_bytes = refl

pub i32_const_bytes : encode_opcode 0x41 ≡ ok (0x41 ∷ [])
unfolding encode_opcode top_byte lower_bytes validate_op opcode_table find_row rows_of is_legal
    control_rows numeric_rows encode_u8
i32_const_bytes = refl
