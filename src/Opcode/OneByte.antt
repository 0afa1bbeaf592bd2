-- ===== src/Opcode/OneByte.antt =====
-- The rows of src/opcode_table.c, with the numbers of wasmops.h: the one-byte opcodes and the first
-- bytes of the longer ones.
use wasm_instrument.Prelude.{List, [], ◌∷◌}
use wasm_instrument.Opcode.Entry.{
  Row, row, illegal, imm_blockt, imm_f32, imm_f64, imm_func, imm_global, imm_i32, imm_i64,
  imm_label, imm_labels, imm_local, imm_memarg, imm_memory, imm_none, imm_refnullt, imm_sig_table,
  imm_table, imm_tag, imm_valts,
}

unfoldable pub control_rows : List Row
control_rows =
    row 0x0 "unreachable" imm_none
    ∷ row 0x1 "nop" imm_none
    ∷ row 0x2 "block" imm_blockt
    ∷ row 0x3 "loop" imm_blockt
    ∷ row 0x4 "if" imm_blockt
    ∷ row 0x5 "else" imm_none
    ∷ row 0xb "end" imm_none
    ∷ row 0xc "br" imm_label
    ∷ row 0xd "br_if" imm_label
    ∷ row 0xe "br_table" imm_labels
    ∷ row 0xf "return" imm_none
    ∷ row 0x10 "call" imm_func
    ∷ row 0x11 "call_indirect" imm_sig_table
    ∷ row 0x1a "drop" imm_none
    ∷ row 0x1b "select" imm_none
    ∷ row 0x20 "local.get" imm_local
    ∷ row 0x21 "local.set" imm_local
    ∷ row 0x22 "local.tee" imm_local
    ∷ row 0x23 "global.get" imm_global
    ∷ row 0x24 "global.set" imm_global
    ∷ row 0x29 "i64.load" imm_memarg
    ∷ row 0x2a "f32.load" imm_memarg
    ∷ row 0x28 "i32.load" imm_memarg
    ∷ row 0x2b "f64.load" imm_memarg
    ∷ row 0x2c "i32.load8_s" imm_memarg
    ∷ row 0x2d "i32.load8_u" imm_memarg
    ∷ row 0x2e "i32.load16_s" imm_memarg
    ∷ row 0x2f "i32.load16_u" imm_memarg
    ∷ row 0x30 "i64.load8_s" imm_memarg
    ∷ row 0x31 "i64.load8_u" imm_memarg
    ∷ row 0x32 "i64.load16_s" imm_memarg
    ∷ row 0x33 "i64.load16_u" imm_memarg
    ∷ row 0x34 "i64.load32_s" imm_memarg
    ∷ row 0x35 "i64.load32_u" imm_memarg
    ∷ row 0x36 "i32.store" imm_memarg
    ∷ row 0x37 "i64.store" imm_memarg
    ∷ row 0x38 "f32.store" imm_memarg
    ∷ row 0x39 "f64.store" imm_memarg
    ∷ row 0x3a "i32.store8" imm_memarg
    ∷ row 0x3b "i32.store16" imm_memarg
    ∷ row 0x3c "i64.store8" imm_memarg
    ∷ row 0x3d "i64.store16" imm_memarg
    ∷ row 0x3e "i64.store32" imm_memarg
    ∷ row 0x3f "memory.size" imm_memory
    ∷ row 0x40 "memory.grow" imm_memory
    ∷ row 0x41 "i32.const" imm_i32
    ∷ row 0x42 "i64.const" imm_i64
    ∷ row 0x43 "f32.const" imm_f32
    ∷ row 0x44 "f64.const" imm_f64
    ∷ row 0x45 "i32.eqz" imm_none
    ∷ row 0x46 "i32.eq" imm_none
    ∷ row 0x47 "i32.ne" imm_none
    ∷ row 0x48 "i32.lt_s" imm_none
    ∷ row 0x49 "i32.lt_u" imm_none
    ∷ row 0x4a "i32.gt_s" imm_none
    ∷ row 0x4b "i32.gt_u" imm_none
    ∷ row 0x4c "i32.le_s" imm_none
    ∷ row 0x4d "i32.le_u" imm_none
    ∷ row 0x4e "i32.ge_s" imm_none
    ∷ row 0x4f "i32.ge_u" imm_none
    ∷ row 0x50 "i64.eqz" imm_none
    ∷ row 0x51 "i64.eq" imm_none
    ∷ row 0x52 "i64.ne" imm_none
    ∷ row 0x53 "i64.lt_s" imm_none
    ∷ row 0x54 "i64.lt_u" imm_none
    ∷ row 0x55 "i64.gt_s" imm_none
    ∷ row 0x56 "i64.gt_u" imm_none
    ∷ row 0x57 "i64.le_s" imm_none
    ∷ row 0x58 "i64.le_u" imm_none
    ∷ row 0x59 "i64.ge_s" imm_none
    ∷ row 0x5a "i64.ge_u" imm_none
    ∷ row 0x5b "f32.eq" imm_none
    ∷ row 0x5c "f32.ne" imm_none
    ∷ row 0x5d "f32.lt" imm_none
    ∷ row 0x5e "f32.gt" imm_none
    ∷ row 0x5f "f32.le" imm_none
    ∷ row 0x60 "f32.ge" imm_none
    ∷ row 0x61 "f64.eq" imm_none
    ∷ row 0x62 "f64.ne" imm_none
    ∷ row 0x63 "f64.lt" imm_none
    ∷ row 0x64 "f64.gt" imm_none
    ∷ row 0x65 "f64.le" imm_none
    ∷ row 0x66 "f64.ge" imm_none
    ∷ row 0x67 "i32.clz" imm_none
    ∷ row 0x68 "i32.ctz" imm_none
    ∷ row 0x69 "i32.popcnt" imm_none
    ∷ row 0x6a "i32.add" imm_none
    ∷ row 0x6b "i32.sub" imm_none
    ∷ row 0x6c "i32.mul" imm_none
    ∷ row 0x6d "i32.div_s" imm_none
    ∷ row 0x6e "i32.div_u" imm_none
    ∷ row 0x6f "i32.rem_s" imm_none
    ∷ row 0x70 "i32.rem_u" imm_none
    ∷ row 0x71 "i32.and" imm_none
    ∷ row 0x72 "i32.or" imm_none
    ∷ row 0x73 "i32.xor" imm_none
    ∷ row 0x74 "i32.shl" imm_none
    ∷ row 0x75 "i32.shr_s" imm_none
    ∷ row 0x76 "i32.shr_u" imm_none
    ∷ []

unfoldable pub numeric_rows : List Row
numeric_rows =
    row 0x77 "i32.rotl" imm_none
    ∷ row 0x78 "i32.rotr" imm_none
    ∷ row 0x79 "i64.clz" imm_none
    ∷ row 0x7a "i64.ctz" imm_none
    ∷ row 0x7b "i64.popcnt" imm_none
    ∷ row 0x7c "i64.add" imm_none
    ∷ row 0x7d "i64.sub" imm_none
    ∷ row 0x7e "i64.mul" imm_none
    ∷ row 0x7f "i64.div_s" imm_none
    ∷ row 0x80 "i64.div_u" imm_none
    ∷ row 0x81 "i64.rem_s" imm_none
    ∷ row 0x82 "i64.rem_u" imm_none
    ∷ row 0x83 "i64.and" imm_none
    ∷ row 0x84 "i64.or" imm_none
    ∷ row 0x85 "i64.xor" imm_none
    ∷ row 0x86 "i64.shl" imm_none
    ∷ row 0x87 "i64.shr_s" imm_none
    ∷ row 0x88 "i64.shr_u" imm_none
    ∷ row 0x89 "i64.rotl" imm_none
    ∷ row 0x8a "i64.rotr" imm_none
    ∷ row 0x8b "f32.abs" imm_none
    ∷ row 0x8c "f32.neg" imm_none
    ∷ row 0x8d "f32.ceil" imm_none
    ∷ row 0x8e "f32.floor" imm_none
    ∷ row 0x8f "f32.trunc" imm_none
    ∷ row 0x90 "f32.nearest" imm_none
    ∷ row 0x91 "f32.sqrt" imm_none
    ∷ row 0x92 "f32.add" imm_none
    ∷ row 0x93 "f32.sub" imm_none
    ∷ row 0x94 "f32.mul" imm_none
    ∷ row 0x95 "f32.div" imm_none
    ∷ row 0x96 "f32.min" imm_none
    ∷ row 0x97 "f32.max" imm_none
    ∷ row 0x98 "f32.copysign" imm_none
    ∷ row 0x99 "f64.abs" imm_none
    ∷ row 0x9a "f64.neg" imm_none
    ∷ row 0x9b "f64.ceil" imm_none
    ∷ row 0x9c "f64.floor" imm_none
    ∷ row 0x9d "f64.trunc" imm_none
    ∷ row 0x9e "f64.nearest" imm_none
    ∷ row 0x9f "f64.sqrt" imm_none
    ∷ row 0xa0 "f64.add" imm_none
    ∷ row 0xa1 "f64.sub" imm_none
    ∷ row 0xa2 "f64.mul" imm_none
    ∷ row 0xa3 "f64.div" imm_none
    ∷ row 0xa4 "f64.min" imm_none
    ∷ row 0xa5 "f64.max" imm_none
    ∷ row 0xa6 "f64.copysign" imm_none
    ∷ row 0xa7 "i32.wrap_i64" imm_none
    ∷ row 0xa8 "i32.trunc_f32_s" imm_none
    ∷ row 0xa9 "i32.trunc_f32_u" imm_none
    ∷ row 0xaa "i32.trunc_f64_s" imm_none
    ∷ row 0xab "i32.trunc_f64_u" imm_none
    ∷ row 0xac "i64.extend_i32_s" imm_none
    ∷ row 0xad "i64.extend_i32_u" imm_none
    ∷ row 0xae "i64.trunc_f32_s" imm_none
    ∷ row 0xaf "i64.trunc_f32_u" imm_none
    ∷ row 0xb0 "i64.trunc_f64_s" imm_none
    ∷ row 0xb1 "i64.trunc_f64_u" imm_none
    ∷ row 0xb2 "f32.convert_i32_s" imm_none
    ∷ row 0xb3 "f32.convert_i32_u" imm_none
    ∷ row 0xb4 "f32.convert_i64_s" imm_none
    ∷ row 0xb5 "f32.convert_i64_u" imm_none
    ∷ row 0xb6 "f32.demote_f64" imm_none
    ∷ row 0xb7 "f64.convert_i32_s" imm_none
    ∷ row 0xb8 "f64.convert_i32_u" imm_none
    ∷ row 0xb9 "f64.convert_i64_s" imm_none
    ∷ row 0xba "f64.convert_i64_u" imm_none
    ∷ row 0xbb "f64.promote_f32" imm_none
    ∷ row 0xbc "i32.reinterpret_f32" imm_none
    ∷ row 0xbd "i64.reinterpret_f64" imm_none
    ∷ row 0xbe "f32.reinterpret_i32" imm_none
    ∷ row 0xbf "f64.reinterpret_i64" imm_none
    ∷ row 0xc0 "i32.extend8_s" imm_none
    ∷ row 0xc1 "i32.extend16_s" imm_none
    ∷ row 0xc2 "i64.extend8_s" imm_none
    ∷ row 0xc3 "i64.extend16_s" imm_none
    ∷ row 0xc4 "i64.extend32_s" imm_none
    ∷ illegal 0x6 "try" imm_blockt
    ∷ illegal 0x7 "catch" imm_tag
    ∷ illegal 0x8 "throw" imm_tag
    ∷ illegal 0x9 "rethrow" imm_none
    ∷ illegal 0x12 "return_call" imm_func
    ∷ illegal 0x13 "return_call_indirect" imm_sig_table
    ∷ illegal 0x14 "call_ref" imm_none
    ∷ illegal 0x15 "return_call_ref" imm_none
    ∷ illegal 0x18 "delegate" imm_none
    ∷ illegal 0x19 "catch_all" imm_none
    ∷ illegal 0x1c "select" imm_valts
    ∷ illegal 0x25 "table.get" imm_table
    ∷ illegal 0x26 "table.set" imm_table
    ∷ illegal 0xd0 "ref.null" imm_refnullt
    ∷ illegal 0xd1 "ref.is_null" imm_none
    ∷ illegal 0xd2 "ref.func" imm_func
    ∷ illegal 0xd3 "ref.as_non_null" imm_none
    ∷ illegal 0xd4 "br_on_null" imm_label
    ∷ illegal 0xd5 "ref.eq" imm_none
    ∷ illegal 0xd6 "br_on_non_null" imm_label
    ∷ illegal 0xfb "gc extension" imm_none
    ∷ row 0xfc "fc extension" imm_none
    ∷ row 0xfd "simd extension" imm_none
    ∷ row 0xfe "threads extension" imm_none
    ∷ []
