-- ===== src/Opcode/WideSimd.antt =====
-- The rows of src/opcode_table.c, with the numbers of wasmops.h: the opcodes behind 0xFD with two
-- more bytes.
use wasm_instrument.Prelude.{List, [], ◌∷◌}
use wasm_instrument.Opcode.Entry.{Row, row, imm_none}

unfoldable pub wide_simd_rows : List Row
wide_simd_rows =
    row 0xfd8001 "i16x8.abs" imm_none
    ∷ row 0xfd8101 "i16x8.neg" imm_none
    ∷ row 0xfd8201 "i16x8.q15mulr_sat_s" imm_none
    ∷ row 0xfd8301 "i16x8.all_true" imm_none
    ∷ row 0xfd8401 "i16x8.bitmask" imm_none
    ∷ row 0xfd8501 "i16x8.narrow_i32x4_s" imm_none
    ∷ row 0xfd8601 "i16x8.narrow_i32x4_u" imm_none
    ∷ row 0xfd8701 "i16x8.extend_low_i8x16_s" imm_none
    ∷ row 0xfd8801 "i16x8.extend_high_i8x16_s" imm_none
    ∷ row 0xfd8901 "i16x8.extend_low_i8x16_u" imm_none
    ∷ row 0xfd8a01 "i16x8.extend_high_i8x16_u" imm_none
    ∷ row 0xfd8b01 "i16x8.shl" imm_none
    ∷ row 0xfd8c01 "i16x8.shr_s" imm_none
    ∷ row 0xfd8d01 "i16x8.shr_u" imm_none
    ∷ row 0xfd8e01 "i16x8.add" imm_none
    ∷ row 0xfd8f01 "i16x8.add_sat_s" imm_none
    ∷ row 0xfd9001 "i16x8.add_sat_u" imm_none
    ∷ row 0xfd9101 "i16x8.sub" imm_none
    ∷ row 0xfd9201 "i16x8.sub_sat_s" imm_none
    ∷ row 0xfd9301 "i16x8.sub_sat_u" imm_none
    ∷ row 0xfd9401 "f64x2.nearest" imm_none
    ∷ row 0xfd9501 "i16x8.mul" imm_none
    ∷ row 0xfd9601 "i16x8.min_s" imm_none
    ∷ row 0xfd9701 "i16x8.min_u" imm_none
    ∷ row 0xfd9801 "i16x8.max_s" imm_none
    ∷ row 0xfd9901 "i16x8.max_u" imm_none
    ∷ row 0xfd9b01 "i16x8.max_u" imm_none
    ∷ row 0xfd9c01 "i16x8.extmul_low_i8x16_s" imm_none
    ∷ row 0xfd9d01 "i16x8.extmul_high_i8x16_s" imm_none
    ∷ row 0xfd9e01 "i16x8.extmul_low_i8x16_u" imm_none
    ∷ row 0xfd9f01 "i16x8.extmul_high_i8x16_u" imm_none
    ∷ row 0xfda001 "i32x4.abs" imm_none
    ∷ row 0xfda101 "i32x4.neg" imm_none
    ∷ row 0xfda301 "i32x4.all_true" imm_none
    ∷ row 0xfda401 "i32x4.bitmask" imm_none
    ∷ row 0xfda701 "i32x4.extend_low_i16x8_s" imm_none
    ∷ row 0xfda801 "i32x4.extend_high_i16x8_s" imm_none
    ∷ row 0xfda901 "i32x4.extend_low_i16x8_u" imm_none
    ∷ row 0xfdaa01 "i32x4.extend_high_i16x8_u" imm_none
    ∷ row 0xfdab01 "i32x4.shl" imm_none
    ∷ row 0xfdac01 "i32x4.shr_s" imm_none
    ∷ row 0xfdad01 "i32x4.shr_u" imm_none
    ∷ row 0xfdae01 "i32x4.add" imm_none
    ∷ row 0xfdb101 "i32x4.sub" imm_none
    ∷ row 0xfdb501 "i32x4.mul" imm_none
    ∷ row 0xfdb601 "i32x4.min_s" imm_none
    ∷ row 0xfdb701 "i32x4.min_u" imm_none
    ∷ row 0xfdb801 "i32x4.max_s" imm_none
    ∷ row 0xfdb901 "i32x4.max_u" imm_none
    ∷ row 0xfdba01 "i32x4.dot_i16x8_s" imm_none
    ∷ row 0xfdbc01 "i32x4.extmul_low_i16x8_s" imm_none
    ∷ row 0xfdbd01 "i32x4.extmul_high_i16x8_s" imm_none
    ∷ row 0xfdbe01 "i32x4.extmul_low_i16x8_u" imm_none
    ∷ row 0xfdbf01 "i32x4.extmul_high_i16x8_u" imm_none
    ∷ row 0xfdc001 "i64x2.abs" imm_none
    ∷ row 0xfdc101 "i64x2.neg" imm_none
    ∷ row 0xfdc301 "i64x2.all_true" imm_none
    ∷ row 0xfdc401 "i64x2.bitmask" imm_none
    ∷ row 0xfdc701 "i64x2.extend_low_i32x4_s" imm_none
    ∷ row 0xfdc801 "i64x2.extend_high_i32x4_s" imm_none
    ∷ row 0xfdc901 "i64x2.extend_low_i32x4_u" imm_none
    ∷ row 0xfdca01 "i64x2.extend_high_i32x4_u" imm_none
    ∷ row 0xfdcb01 "i64x2.shl" imm_none
    ∷ row 0xfdcc01 "i64x2.shr_s" imm_none
    ∷ row 0xfdcd01 "i64x2.shr_u" imm_none
    ∷ row 0xfdce01 "i64x2.add" imm_none
    ∷ row 0xfdd101 "i64x2.sub" imm_none
    ∷ row 0xfdd501 "i64x2.mul" imm_none
    ∷ row 0xfdd601 "i64x2.eq" imm_none
    ∷ row 0xfdd701 "i64x2.ne" imm_none
    ∷ row 0xfdd801 "i64x2.lt_s" imm_none
    ∷ row 0xfdd901 "i64x2.gt_s" imm_none
    ∷ row 0xfdda01 "i64x2.le_s" imm_none
    ∷ row 0xfddb01 "i64x2.ge_s" imm_none
    ∷ row 0xfddc01 "i64x2.extmul_low_i32x4_s" imm_none
    ∷ row 0xfddd01 "i64x2.extmul_high_i32x4_s" imm_none
    ∷ row 0xfdde01 "i64x2.extmul_low_i32x4_u" imm_none
    ∷ row 0xfddf01 "i64x2.extmul_high_i32x4_u" imm_none
    ∷ row 0xfde001 "f32x4.abs" imm_none
    ∷ row 0xfde101 "f32x4.neg" imm_none
    ∷ row 0xfde301 "f32x4.sqrt" imm_none
    ∷ row 0xfde401 "f32x4.add" imm_none
    ∷ row 0xfde501 "f32x4.sub" imm_none
    ∷ row 0xfde601 "f32x4.mul" imm_none
    ∷ row 0xfde701 "f32x4.div" imm_none
    ∷ row 0xfde801 "f32x4.min" imm_none
    ∷ row 0xfde901 "f32x4.max" imm_none
    ∷ row 0xfdea01 "f32x4.pmin" imm_none
    ∷ row 0xfdeb01 "f32x4.pmax" imm_none
    ∷ row 0xfdec01 "f64x2.abs" imm_none
    ∷ row 0xfded01 "f64x2.neg" imm_none
    ∷ row 0xfdef01 "f64x2.sqrt" imm_none
    ∷ row 0xfdf001 "f64x2.add" imm_none
    ∷ row 0xfdf101 "f64x2.sub" imm_none
    ∷ row 0xfdf201 "f64x2.mul" imm_none
    ∷ row 0xfdf301 "f64x2.div" imm_none
    ∷ row 0xfdf401 "f64x2.min" imm_none
    ∷ row 0xfdf501 "f64x2.max" imm_none
    ∷ row 0xfdf601 "f64x2.pmin" imm_none
    ∷ row 0xfdf701 "f64x2.pmax" imm_none
    ∷ row 0xfdf801 "i32x4.trunc_sat_f32x4_s" imm_none
    ∷ row 0xfdf901 "i32x4.trunc_sat_f32x4_u" imm_none
    ∷ row 0xfdfa01 "f32x4.trunc_sat_i32x4_s" imm_none
    ∷ row 0xfdfb01 "f32x4.trunc_sat_i32x4_u" imm_none
    ∷ row 0xfdfc01 "i32x4.trunc_sat_f64x2_s_zero" imm_none
    ∷ row 0xfdfd01 "i32x4.trunc_sat_f64x2_u_zero" imm_none
    ∷ row 0xfdfe01 "f64x2.convert_low_i32x4_s" imm_none
    ∷ row 0xfdff01 "f64x2.convert_low_i32x4_u" imm_none
    ∷ []
