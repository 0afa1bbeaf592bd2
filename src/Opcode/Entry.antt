-- ===== src/Opcode/Entry.antt =====
-- The types of inc/wasmdefs.h that describe an opcode.
use Prim.Native.String.{String}
use wasm_instrument.Prelude.{ℕ, Bool, true, false}

-- opcode_imm_type
pub data ImmType : Type 0 where
  imm_none imm_blockt imm_label imm_labels imm_func imm_sig_table : ImmType
  imm_local imm_global imm_table imm_memarg imm_i32 imm_f64 imm_memory : ImmType
  imm_tag imm_i64 imm_f32 imm_refnullt imm_valts imm_data_memory imm_data : ImmType
  imm_memorycp imm_data_table imm_tablecp imm_v128 imm_laneidx imm_laneidx16 : ImmType
  imm_memarg_laneidx : ImmType

-- opcode_entry_t of an opcode that the table names, with its number.
pub record Row : Type 0 where
  pub code : ℕ
  pub mnemonic : String
  pub imm_type : ImmType
  pub invalid : Bool

abbrev pub row : ℕ → String → ImmType → Row
row c m t = record { code = c; mnemonic = m; imm_type = t; invalid = false }

abbrev pub illegal : ℕ → String → ImmType → Row
illegal c m t = record { code = c; mnemonic = m; imm_type = t; invalid = true }
