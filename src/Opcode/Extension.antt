-- ===== src/Opcode/Extension.antt =====
-- The rows of src/opcode_table.c, with the numbers of wasmops.h: the opcodes behind 0xFC and 0xFE.
use wasm_instrument.Prelude.{List, [], ◌∷◌}
use wasm_instrument.Opcode.Entry.{
  Row, row, illegal, imm_data, imm_data_memory, imm_memarg, imm_memory, imm_memorycp, imm_none,
}

unfoldable pub fc_rows : List Row
fc_rows =
    row 0xfc00 "i32.trunc_sat_f32_s" imm_none
    ∷ row 0xfc01 "i32.trunc_sat_f32_u" imm_none
    ∷ row 0xfc02 "i32.trunc_sat_f64_s" imm_none
    ∷ row 0xfc03 "i32.trunc_sat_f64_u" imm_none
    ∷ row 0xfc04 "i64.trunc_sat_f32_s" imm_none
    ∷ row 0xfc05 "i64.trunc_sat_f32_u" imm_none
    ∷ row 0xfc06 "i64.trunc_sat_f64_s" imm_none
    ∷ row 0xfc07 "i64.trunc_sat_f64_u" imm_none
    ∷ row 0xfc08 "memory.init" imm_data_memory
    ∷ row 0xfc09 "data.drop" imm_data
    ∷ row 0xfc0a "memory.copy" imm_memorycp
    ∷ row 0xfc0b "memory.fill" imm_memory
    ∷ illegal 0xfc0c "table.init" imm_none
    ∷ illegal 0xfc0d "elem.drop" imm_none
    ∷ illegal 0xfc0e "table.copy" imm_none
    ∷ illegal 0xfc0f "table.grow" imm_none
    ∷ illegal 0xfc10 "table.size" imm_none
    ∷ illegal 0xfc11 "table.fill" imm_none
    ∷ []

unfoldable pub thread_rows : List Row
thread_rows =
    row 0xfe00 "memory.atomic.notify" imm_memarg
    ∷ row 0xfe01 "memory.atomic.wait32" imm_memarg
    ∷ row 0xfe02 "memory.atomic.wait64" imm_memarg
    ∷ row 0xfe03 "atomic.fence" imm_none
    ∷ row 0xfe10 "i32.atomic.load" imm_memarg
    ∷ row 0xfe11 "i64.atomic.load" imm_memarg
    ∷ row 0xfe12 "i32.atomic.load8_u" imm_memarg
    ∷ row 0xfe13 "i32.atomic.load16_u" imm_memarg
    ∷ row 0xfe14 "i64.atomic.load8_u" imm_memarg
    ∷ row 0xfe15 "i64.atomic.load16_u" imm_memarg
    ∷ row 0xfe16 "i64.atomic.load32_u" imm_memarg
    ∷ row 0xfe17 "i32.atomic.store" imm_memarg
    ∷ row 0xfe18 "i64.atomic.store" imm_memarg
    ∷ row 0xfe19 "i32.atomic.store8" imm_memarg
    ∷ row 0xfe1a "i32.atomic.store16" imm_memarg
    ∷ row 0xfe1b "i64.atomic.store8" imm_memarg
    ∷ row 0xfe1c "i64.atomic.store16" imm_memarg
    ∷ row 0xfe1d "i64.atomic.store32" imm_memarg
    ∷ row 0xfe1e "i32.atomic.rmw.add" imm_memarg
    ∷ row 0xfe1f "i64.atomic.rmw.add" imm_memarg
    ∷ row 0xfe20 "i32.atomic.rmw8.add_u" imm_memarg
    ∷ row 0xfe21 "i32.atomic.rmw16.add_u" imm_memarg
    ∷ row 0xfe22 "i64.atomic.rmw8.add_u" imm_memarg
    ∷ row 0xfe23 "i64.atomic.rmw16.add_u" imm_memarg
    ∷ row 0xfe24 "i64.atomic.rmw32.add_u" imm_memarg
    ∷ row 0xfe25 "i32.atomic.rmw.sub" imm_memarg
    ∷ row 0xfe26 "i64.atomic.rmw.sub" imm_memarg
    ∷ row 0xfe27 "i32.atomic.rmw8.sub_u" imm_memarg
    ∷ row 0xfe28 "i32.atomic.rmw16.sub_u" imm_memarg
    ∷ row 0xfe29 "i64.atomic.rmw8.sub_u" imm_memarg
    ∷ row 0xfe2a "i64.atomic.rmw16.sub_u" imm_memarg
    ∷ row 0xfe2b "i64.atomic.rmw32.sub_u" imm_memarg
    ∷ row 0xfe2c "i32.atomic.rmw.and" imm_memarg
    ∷ row 0xfe2d "i64.atomic.rmw.and" imm_memarg
    ∷ row 0xfe2e "i32.atomic.rmw8.and_u" imm_memarg
    ∷ row 0xfe2f "i32.atomic.rmw16.and_u" imm_memarg
    ∷ row 0xfe30 "i64.atomic.rmw8.and_u" imm_memarg
    ∷ row 0xfe31 "i64.atomic.rmw16.and_u" imm_memarg
    ∷ row 0xfe32 "i64.atomic.rmw32.and_u" imm_memarg
    ∷ row 0xfe33 "i32.atomic.rmw.or" imm_memarg
    ∷ row 0xfe34 "i64.atomic.rmw.or" imm_memarg
    ∷ row 0xfe35 "i32.atomic.rmw8.or_u" imm_memarg
    ∷ row 0xfe36 "i32.atomic.rmw16.or_u" imm_memarg
    ∷ row 0xfe37 "i64.atomic.rmw8.or_u" imm_memarg
    ∷ row 0xfe38 "i64.atomic.rmw16.or_u" imm_memarg
    ∷ row 0xfe39 "i64.atomic.rmw32.or_u" imm_memarg
    ∷ row 0xfe3a "i32.atomic.rmw.xor" imm_memarg
    ∷ row 0xfe3b "i64.atomic.rmw.xor" imm_memarg
    ∷ row 0xfe3c "i32.atomic.rmw8.xor_u" imm_memarg
    ∷ row 0xfe3d "i32.atomic.rmw16.xor_u" imm_memarg
    ∷ row 0xfe3e "i64.atomic.rmw8.xor_u" imm_memarg
    ∷ row 0xfe3f "i64.atomic.rmw16.xor_u" imm_memarg
    ∷ row 0xfe40 "i64.atomic.rmw32.xor_u" imm_memarg
    ∷ row 0xfe41 "i32.atomic.rmw.xchg" imm_memarg
    ∷ row 0xfe42 "i64.atomic.rmw.xchg" imm_memarg
    ∷ row 0xfe43 "i32.atomic.rmw8.xchg_u" imm_memarg
    ∷ row 0xfe44 "i32.atomic.rmw16.xchg_u" imm_memarg
    ∷ row 0xfe45 "i64.atomic.rmw8.xchg_u" imm_memarg
    ∷ row 0xfe46 "i64.atomic.rmw16.xchg_u" imm_memarg
    ∷ row 0xfe47 "i64.atomic.rmw32.xchg_u" imm_memarg
    ∷ row 0xfe48 "i32.atomic.rmw.cmpxchg" imm_memarg
    ∷ row 0xfe49 "i64.atomic.rmw.cmpxchg" imm_memarg
    ∷ row 0xfe4a "i32.atomic.rmw8.cmpxchg_u" imm_memarg
    ∷ row 0xfe4b "i32.atomic.rmw16.cmpxchg_u" imm_memarg
    ∷ row 0xfe4c "i64.atomic.rmw8.cmpxchg_u" imm_memarg
    ∷ row 0xfe4d "i64.atomic.rmw16.cmpxchg_u" imm_memarg
    ∷ row 0xfe4e "i64.atomic.rmw32.cmpxchg_u" imm_memarg
    ∷ []
