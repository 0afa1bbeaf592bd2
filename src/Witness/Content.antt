-- ===== src/Witness/Content.antt =====
-- Runs of the sections of exports, elements and code on a variant of the sample module.
use wasm_instrument.Prelude.{ℕ, ◌+◌, ◌≡◌, refl, inl, List, [], ◌∷◌, ◌++◌, length, All, arith, some}
use wasm_instrument.Prelude.Result.{ok}
use wasm_instrument.Leb.{encode_u32leb, encode_i32leb, encode_unsigned, encode_signed}
use wasm_instrument.Writer.{encode_u8, concat_map}
use wasm_instrument.Buffer.Reads.{at}
use wasm_instrument.Opcode.Entry.{row, imm_func, imm_i32}
use wasm_instrument.Opcode.Legal.{
  i32_const_legal, i32_const_row, call_legal, call_row, call_bytes, i32_const_bytes,
}
use wasm_instrument.Ir.{Node, Imm, FuncDecl, ElemDecl, WasmModule}
use wasm_instrument.Ir.Access.{index_of, get_func_idx, get_list_idx}
use wasm_instrument.Inst.{encode_imm, encode_expr_to_insts}
use wasm_instrument.Inst.Encodable.{Encodable}
use wasm_instrument.Section.Decode.{decode_export_section}
use wasm_instrument.Section.Bodies.{decode_element_section, decode_code_section}
use wasm_instrument.Section.Encode.{encode_export_section, encode_element_section}
use wasm_instrument.Section.Store.{encode_code, encode_code_section}
use wasm_instrument.Section.Exports.{ExportFits, decode-encode_export_section}
use wasm_instrument.Section.Elements.{ElemFits, decode-encode_element_section}
use wasm_instrument.Section.Code.{BodyFits}
use wasm_instrument.Section.CodeSection.{unread, ReadBack, decode-encode_code_section}
use wasm_instrument.Witness.Sample.{sample, body}

-- i32.const 5 and a call of function 1, under two locals.
abbrev calling : FuncDecl
calling = record body {
  instructions =
      record { opcode = 0x41; orig_pc = 1; imm = Imm.i32 5 }
      ∷ record { opcode = 0x10; orig_pc = 3; imm = Imm.func 3 }
      ∷ [];
}

abbrev segment : ElemDecl
segment = record { flag = 0; opcode_offset = 0x41; table_offset = 7; funcs = 3 ∷ 2 ∷ [] }

abbrev filled : WasmModule
filled = record sample {
  funcs =
      record { id = 2; decl = record body { pure_locals = []; num_pure_locals = 0 } }
      ∷ record { id = 3; decl = calling }
      ∷ [];
  elems = segment ∷ [];
}

second_found : index_of filled.funcs 3 ≡ some 1
unfolding index_of
second_found = refl

first_found : index_of filled.funcs 2 ≡ some 0
unfolding index_of
first_found = refl

mem_found : index_of filled.mems 4 ≡ some 0
unfolding index_of
mem_found = refl

calling_code : encode_code filled calling ≡ ok (1 ∷ 2 ∷ 0x7f ∷ 0x41 ∷ 5 ∷ 0x10 ∷ 1 ∷ [])
unfolding encode_code encode_expr_to_insts encode_imm encode_i32leb encode_u32leb encode_u8
    concat_map get_func_idx get_list_idx index_of encode_unsigned encode_signed
calling_code = rw (i32_const_bytes, call_bytes) refl

calling-BodyFits : BodyFits filled calling
calling-BodyFits = record {
  few_locals = omega arith;
  locals_fit = ((omega arith, omega arith), tt);
  insts_fit = (
    record {
      entry = some (row 0x41 "i32.const" imm_i32);
      opcode_legal = i32_const_legal;
      not_prefix = refl;
      in_table = i32_const_row;
      imm_fits = Encodable.i32 5 (omega arith);
    },
    (
      record {
        entry = some (row 0x10 "call" imm_func);
        opcode_legal = call_legal;
        not_prefix = refl;
        in_table = call_row;
        imm_fits = Encodable.func 3 (1, second_found, omega arith);
      },
      tt,
    ),
  );
  code = 1 ∷ 2 ∷ 0x7f ∷ 0x41 ∷ 5 ∷ 0x10 ∷ 1 ∷ [];
  written = calling_code;
  short = omega arith;
}

segment-ElemFits : ElemFits filled segment
segment-ElemFits = record {
  no_flag = refl;
  const = inl refl;
  offset_fits = omega arith;
  few_funcs = omega arith;
  found = ((1, second_found, omega arith), ((0, first_found, omega arith), tt));
}

exports-ExportFits : All (ExportFits filled) filled.exports
exports-ExportFits = (
  record { short_name = omega arith; found = (1, second_found, omega arith) },
  (record { short_name = omega arith; found = (0, mem_found, omega arith) }, tt),
)

decode-encode_export_section_example :
    (bytes : List ℕ) × (encode_export_section filled ≡ ok bytes)
    × (decode_export_section
          (record filled { exports = [] })
          (at (bytes ++ 9 ∷ []) 0 (0 + length bytes + 1))
        ≡ ok (filled, at (9 ∷ []) (0 + length bytes) (0 + length bytes + 1)))
decode-encode_export_section_example =
    decode-encode_export_section filled (9 ∷ []) 0 1 (omega arith) (omega arith) exports-ExportFits

decode-encode_element_section_example :
    (bytes : List ℕ) × (encode_element_section filled ≡ ok bytes)
    × (decode_element_section
          (record filled { elems = [] })
          (at (bytes ++ 9 ∷ []) 0 (0 + length bytes + 1))
        ≡ ok (filled, at (9 ∷ []) (0 + length bytes) (0 + length bytes + 1)))
decode-encode_element_section_example =
    decode-encode_element_section filled (9 ∷ []) 0 1 (omega arith) (omega arith)
      (segment-ElemFits, tt)

decode-encode_code_section_example :
    (bytes : List ℕ) × (back : List (Node FuncDecl)) × (encode_code_section filled ≡ ok bytes)
    × (decode_code_section
          (record filled { funcs = unread 1 filled.funcs })
          (at (bytes ++ 9 ∷ []) 0 (0 + length bytes + 1))
        ≡ ok
            (record filled { funcs = back }, at (9 ∷ []) (0 + length bytes) (0 + length bytes + 1)))
    × ReadBack filled 1 filled.funcs back
decode-encode_code_section_example =
    decode-encode_code_section filled (9 ∷ []) 0 1 (omega arith) (omega arith)
      (calling-BodyFits, tt)
