-- ===== src/Witness/Code.antt =====
-- Runs of the instruction coder, and of the changes to one declaration.
use wasm_instrument.Prelude.{
  ℕ, ◌+◌, ◌^◌, ◌≤◌, ◌<◌, ◌≡◌, ◌⊎◌, refl, List, [], ◌∷◌, ◌++◌, map, length, arith, some,
}
use wasm_instrument.Prelude.Result.{ok, throw, page_limit}
use wasm_instrument.Buffer.Reads.{at}
use wasm_instrument.Opcode.Entry.{row, imm_func, imm_i32}
use wasm_instrument.Opcode.Legal.{i32_const_legal, i32_const_row, call_legal, call_row}
use wasm_instrument.Ir.{Limits, Inst, Imm, FuncDecl}
use wasm_instrument.Ir.Access.{index_of}
use wasm_instrument.Ir.Decls.{
  add_pages, Valid, add_pages-Valid, add_local, copies, local_types, Small, add_local-local_types,
}
use wasm_instrument.Inst.{decode_imm, encode_imm, decode_expr_to_insts, encode_expr_to_insts}
use wasm_instrument.Inst.Encodable.{Encodable}
use wasm_instrument.Inst.RoundTrip.{decode_imm-encode_imm}
use wasm_instrument.Inst.Sequence.{EncodableInst, code_of, decode-encode_expr_to_insts}
use wasm_instrument.Witness.Sample.{sample, body, limits}

-- i32.const 5 and a call of function 1.
abbrev push_five : Inst
push_five = record { opcode = 0x41; orig_pc = 1; imm = Imm.i32 5 }

abbrev call_last : Inst
call_last = record { opcode = 0x10; orig_pc = 3; imm = Imm.func 3 }

func_found : index_of sample.funcs 3 ≡ some 1
unfolding index_of
func_found = refl

decode_imm-encode_imm_example :
    (bytes : List ℕ) × (encode_imm sample (Imm.func 3) ≡ ok bytes)
    × (decode_imm sample imm_func (at (bytes ++ 11 ∷ []) 6 (6 + length bytes + 1))
        ≡ ok (Imm.func 3, at (11 ∷ []) (6 + length bytes) (6 + length bytes + 1)))
decode_imm-encode_imm_example =
    decode_imm-encode_imm sample imm_func (Imm.func 3) (11 ∷ []) 6 1
      (Encodable.func 3 (1, func_found, omega arith))

push_five-EncodableInst : EncodableInst sample push_five
push_five-EncodableInst = record {
  entry = some (row 0x41 "i32.const" imm_i32);
  opcode_legal = i32_const_legal;
  not_prefix = refl;
  in_table = i32_const_row;
  imm_fits = Encodable.i32 5 (omega arith);
}

call_last-EncodableInst : EncodableInst sample call_last
call_last-EncodableInst = record {
  entry = some (row 0x10 "call" imm_func);
  opcode_legal = call_legal;
  not_prefix = refl;
  in_table = call_row;
  imm_fits = Encodable.func 3 (1, func_found, omega arith);
}

decode-encode_expr_to_insts_example :
    (bytes : List ℕ) × (back : List Inst) × (encode_expr_to_insts sample
        (push_five ∷ call_last ∷ [])
      ≡ ok bytes)
    × (decode_expr_to_insts sample (at (bytes ++ 11 ∷ []) 20 (20 + length bytes))
        ≡ ok (back, at (11 ∷ []) (20 + length bytes) (20 + length bytes)))
    × (map code_of back ≡ map code_of (push_five ∷ call_last ∷ []))
decode-encode_expr_to_insts_example =
    decode-encode_expr_to_insts sample (push_five ∷ call_last ∷ []) (11 ∷ []) 20
      (push_five-EncodableInst, (call_last-EncodableInst, tt))

add_local-local_types_example :
    (g : FuncDecl) × (add_local (0x7f ∷ []) body 0x7e
      ≡ ok (1 + length (local_types body.pure_locals), g))
    × (local_types g.pure_locals ≡ local_types body.pure_locals ++ 0x7e ∷ [])
    × (g.num_pure_locals ≡ length (local_types g.pure_locals))
unfolding local_types copies Small
add_local-local_types_example =
    add_local-local_types (0x7f ∷ []) body 0x7e (record { count = 2; type = 0x7f }) [] refl
      (omega arith, tt) refl (omega arith)

add_pages-Valid_example :
    ((2 ^ 32 ≤ limits.initial + 3) × (add_pages limits 3 ≡ throw page_limit))
    ⊎ ((grown : Limits) × (add_pages limits 3 ≡ ok (limits.initial, grown))
        × (grown.initial ≡ limits.initial + 3)
        × (grown.initial < 2 ^ 32)
        × (grown.has_max ≡ limits.has_max)
        × Valid grown
        × ((grown.max ≡ limits.max) ⊎ ((grown.max ≡ grown.initial) × (limits.max < grown.initial))))
add_pages-Valid_example = add_pages-Valid limits 3
