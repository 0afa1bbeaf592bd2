-- ===== src/Opcode/Simd.antt =====
-- The rows of src/opcode_table.c, with the numbers of wasmops.h: the opcodes behind 0xFD with one
-- more byte.
use wasm_instrument.Prelude.{List, [], ◌∷◌}
use wasm_instrument.Opcode.Entry.{
  Row, row, imm_laneidx, imm_laneidx16, imm_memarg, imm_memarg_laneidx, imm_none, imm_v128,
}

unfoldable pub simd_rows : List Row
simd_rows =
    row 0xfd00 "v128.load" imm_memarg
    ∷ row 0xfd01 "v128.load8x8_s" imm_memarg
    ∷ row 0xfd02 "v128.load8x8_u" imm_memarg
    ∷ row 0xfd03 "v128.load16x4_s" imm_memarg
    ∷ row 0xfd04 "v128.load16x4_u" imm_memarg
    ∷ row 0xfd05 "v128.load32x2_s" imm_memarg
    ∷ row 0xfd06 "v128.load32x2_u" imm_memarg
    ∷ row 0xfd07 "v128.load8_splat" imm_memarg
    ∷ row 0xfd08 "v128.load16_splat" imm_memarg
    ∷ row 0xfd09 "v128.load32_splat" imm_memarg
    ∷ row 0xfd0a "v128.load64_splat" imm_memarg
    ∷ row 0xfd0b "v128.store" imm_memarg
    ∷ row 0xfd0c "v128.const" imm_v128
    ∷ row 0xfd0d "i8x16.shuffle" imm_laneidx16
    ∷ row 0xfd0e "i8x16.swizzle" imm_none
    ∷ row 0xfd0f "i8x16.splat" imm_none
    ∷ row 0xfd10 "i16x8.splat" imm_none
    ∷ row 0xfd11 "i32x4.splat" imm_none
    ∷ row 0xfd12 "i64x2.splat" imm_none
    ∷ row 0xfd13 "f32x4.splat" imm_none
    ∷ row 0xfd14 "f64x2.splat" imm_none
    ∷ row 0xfd15 "i8x16.extract_lane_s" imm_laneidx
    ∷ row 0xfd16 "i8x16.extract_lane_u" imm_laneidx
    ∷ row 0xfd17 "i8x16.replace_lane" imm_laneidx
    ∷ row 0xfd18 "i16x8.extract_lane_s" imm_laneidx
    ∷ row 0xfd19 "i16x8.extract_lane_u" imm_laneidx
    ∷ row 0xfd1a "i16x8.replace_lane" imm_laneidx
    ∷ row 0xfd1b "i32x4.extract_lane" imm_laneidx
    ∷ row 0xfd1c "i32x4.replace_lane" imm_laneidx
    ∷ row 0xfd1d "i64x2.extract_lane" imm_laneidx
    ∷ row 0xfd1e "i64x2.replace_lane" imm_laneidx
    ∷ row 0xfd1f "f32x4.extract_lane" imm_laneidx
    ∷ row 0xfd20 "f32x4.replace_lane" imm_laneidx
    ∷ row 0xfd21 "f64x2.extract_lane" imm_laneidx
    ∷ row 0xfd22 "f64x2.replace_lane" imm_laneidx
    ∷ row 0xfd23 "i8x16.eq" imm_none
    ∷ row 0xfd24 "i8x16.ne" imm_none
    ∷ row 0xfd25 "i8x16.lt_s" imm_none
    ∷ row 0xfd26 "i8x16.lt_u" imm_none
    ∷ row 0xfd27 "i8x16.gt_s" imm_none
    ∷ row 0xfd28 "i8x16.gt_u" imm_none
    ∷ row 0xfd29 "i8x16.le_s" imm_none
    ∷ row 0xfd2a "i8x16.le_u" imm_none
    ∷ row 0xfd2b "i8x16.ge_s" imm_none
    ∷ row 0xfd2c "i8x16.ge_u" imm_none
    ∷ row 0xfd2d "i16x8.eq" imm_none
    ∷ row 0xfd2e "i16x8.ne" imm_none
    ∷ row 0xfd2f "i16x8.lt_s" imm_none
    ∷ row 0xfd30 "i16x8.lt_u" imm_none
    ∷ row 0xfd31 "i16x8.gt_s" imm_none
    ∷ row 0xfd32 "i16x8.gt_u" imm_none
    ∷ row 0xfd33 "i16x8.le_s" imm_none
    ∷ row 0xfd34 "i16x8.le_u" imm_none
    ∷ row 0xfd35 "i16x8.ge_s" imm_none
    ∷ row 0xfd36 "i16x8.ge_u" imm_none
    ∷ row 0xfd37 "i32x4.eq" imm_none
    ∷ row 0xfd38 "i32x4.ne" imm_none
    ∷ row 0xfd39 "i32x4.lt_s" imm_none
    ∷ row 0xfd3a "i32x4.lt_u" imm_none
    ∷ row 0xfd3b "i32x4.gt_s" imm_none
    ∷ row 0xfd3c "i32x4.gt_u" imm_none
    ∷ row 0xfd3d "i32x4.le_s" imm_none
    ∷ row 0xfd3e "i32x4.le_u" imm_none
    ∷ row 0xfd3f "i32x4.ge_s" imm_none
    ∷ row 0xfd40 "i32x4.ge_u" imm_none
    ∷ row 0xfd41 "f32x4.eq" imm_none
    ∷ row 0xfd42 "f32x4.ne" imm_none
    ∷ row 0xfd43 "f32x4.lt" imm_none
    ∷ row 0xfd44 "f32x4.gt" imm_none
    ∷ row 0xfd45 "f32x4.le" imm_none
    ∷ row 0xfd46 "f32x4.ge" imm_none
    ∷ row 0xfd47 "f64x2.eq" imm_none
    ∷ row 0xfd48 "f64x2.ne" imm_none
    ∷ row 0xfd49 "f64x2.lt" imm_none
    ∷ row 0xfd4a "f64x2.gt" imm_none
    ∷ row 0xfd4b "f64x2.le" imm_none
    ∷ row 0xfd4c "f64x2.ge" imm_none
    ∷ row 0xfd4d "v128.not" imm_none
    ∷ row 0xfd4e "v128.and" imm_none
    ∷ row 0xfd4f "v128.andnot" imm_none
    ∷ row 0xfd50 "v128.or" imm_none
    ∷ row 0xfd51 "v128.xor" imm_none
    ∷ row 0xfd52 "v128.bitselect" imm_none
    ∷ row 0xfd53 "v128.any_true" imm_none
    ∷ row 0xfd54 "v128.load8_lane" imm_memarg_laneidx
    ∷ row 0xfd55 "v128.load16_lane" imm_memarg_laneidx
    ∷ row 0xfd56 "v128.load32_lane" imm_memarg_laneidx
    ∷ row 0xfd57 "v128.load64_lane" imm_memarg_laneidx
    ∷ row 0xfd58 "v128.store8_lane" imm_memarg_laneidx
    ∷ row 0xfd59 "v128.store16_lane" imm_memarg_laneidx
    ∷ row 0xfd5a "v128.store32_lane" imm_memarg_laneidx
    ∷ row 0xfd5b "v128.store64_lane" imm_memarg_laneidx
    ∷ row 0xfd5c "v128.load32_zero" imm_memarg
    ∷ row 0xfd5d "v128.load64_zero" imm_memarg
    ∷ row 0xfd5e "f32x4.demote_f64x2_zero" imm_none
    ∷ row 0xfd5f "f64x2.demote_f32x4" imm_none
    ∷ row 0xfd60 "i8x16.abs" imm_none
    ∷ row 0xfd61 "i8x16.neg" imm_none
    ∷ row 0xfd62 "i8x16.popcnt" imm_none
    ∷ row 0xfd63 "i8x16.all_true" imm_none
    ∷ row 0xfd64 "i8x16.bitmask" imm_none
    ∷ row 0xfd65 "i8x16.narrow_i16x8_s" imm_none
    ∷ row 0xfd66 "i8x16.narrow_i16x8_u" imm_none
    ∷ row 0xfd67 "f32x4.ceil" imm_none
    ∷ row 0xfd68 "f32x4.floor" imm_none
    ∷ row 0xfd69 "f32x4.trunc" imm_none
    ∷ row 0xfd6a "f32x4.nearest" imm_none
    ∷ row 0xfd6b "i8x16.shl" imm_none
    ∷ row 0xfd6c "i8x16.shr_s" imm_none
    ∷ row 0xfd6d "i8x16.shr_u" imm_none
    ∷ row 0xfd6e "i8x16.add" imm_none
    ∷ row 0xfd6f "i8x16.add_sat_s" imm_none
    ∷ row 0xfd70 "i8x16.add_sat_u" imm_none
    ∷ row 0xfd71 "i8x16.sub" imm_none
    ∷ row 0xfd72 "i8x16.sub_sat_s" imm_none
    ∷ row 0xfd73 "i8x16.sub_sat_u" imm_none
    ∷ row 0xfd74 "f64x2.ceil" imm_none
    ∷ row 0xfd75 "f64x2.floor" imm_none
    ∷ row 0xfd76 "i8x16.min_s" imm_none
    ∷ row 0xfd77 "i8x16.min_u" imm_none
    ∷ row 0xfd78 "i8x16.max_s" imm_none
    ∷ row 0xfd79 "i8x16.max_u" imm_none
    ∷ row 0xfd7a "f64x2.trunc" imm_none
    ∷ row 0xfd7b "i8x16.avgr_u" imm_none
    ∷ row 0xfd7c "i16x8.extadd_pairwise_i8x16_s" imm_none
    ∷ row 0xfd7d "i16x8.extadd_pairwise_i8x16_u" imm_none
    ∷ row 0xfd7e "i16x8.extadd_pairwise_i8x16_s" imm_none
    ∷ row 0xfd7f "i16x8.extadd_pairwise_i8x16_u" imm_none
    ∷ []
