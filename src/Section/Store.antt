-- ===== src/Section/Store.antt =====
-- The code, the data and the custom sections of src/encode.cpp, and WasmModule::encode_module,
-- which puts the sections together. Writing the bytes to a file is not modelled.
use wasm_instrument.Prelude.{
  ℕ, ◌%◌, ◌^◌, List, [], ◌∷◌, ◌++◌, none, some, ◌==◌, ltb, same, ◌&&◌, if◌then◌else◌, length,
}
use wasm_instrument.Prelude.Result.{Result, ok, throw, ◌>>=◌, bad_flag}
use wasm_instrument.Leb.{encode_u32leb}
use wasm_instrument.Writer.{
  encode_u8, encode_u32, encode_name, encode_bytes, preencode_u32leb, preencode_u8, concat_map,
}
use wasm_instrument.Ir.{
  LocalCse, SubsecBytes, DebugNameAssoc, DebugNameDecl, CustomDecl, FuncDecl, DataDecl, WasmModule,
}
use wasm_instrument.Ir.Access.{get_func_idx, get_memory_idx}
use wasm_instrument.Inst.Classes.{write_idx, both}
use wasm_instrument.Inst.{encode_expr_to_insts}
use wasm_instrument.Section.{encode_type_section}
use wasm_instrument.Section.Custom.{name_text}
use wasm_instrument.Section.Encode.{
  write_vec, write_section, write_defined, write_all, encode_const_off_expr, encode_import_section,
  encode_function_section, encode_table_section, encode_memory_section, encode_global_section,
  encode_export_section, encode_start_section, encode_element_section,
}

unfoldable pub write_cse : LocalCse → List ℕ
write_cse local_cse = encode_u32leb local_cse.count ++ encode_u8 local_cse.type

unfoldable pub encode_locals : List LocalCse → List ℕ
unfolding write_cse
encode_locals pure_locals =
    encode_u32leb (length pure_locals % 2 ^ 32) ++ concat_map write_cse pure_locals

unfoldable pub encode_code : WasmModule → FuncDecl → Result (List ℕ)
unfolding encode_locals
encode_code m func = do
  insts ← encode_expr_to_insts m func.instructions
  ok (encode_locals func.pure_locals ++ insts)

-- WR_SECLEN_PRE: the size in front.
unfoldable pub with_size : List ℕ → List ℕ
with_size secdeq = preencode_u32leb secdeq (length secdeq % 2 ^ 32)

unfoldable pub encode_body : WasmModule → FuncDecl → Result (List ℕ)
unfolding encode_code with_size
encode_body m func = do secdeq ← encode_code m func; ok (with_size secdeq)

unfoldable pub encode_code_section : WasmModule → Result (List ℕ)
unfolding write_defined encode_body
encode_code_section m = write_defined (encode_body m) m.imports.num_funcs m.funcs

-- The cases of a data segment's flag. NULL is no memory of the module.
unfoldable pub encode_place : WasmModule → DataDecl → Result (List ℕ)
unfolding encode_const_off_expr
encode_place m seg =
    if seg.flag == 0
    then encode_const_off_expr seg.opcode_offset seg.mem_offset
    else if seg.flag == 1
    then ok []
    else if seg.flag == 2
    then both (write_idx (get_memory_idx m (elim seg.mem [ none ↦ 0 | some p ↦ p ])))
        (encode_const_off_expr seg.opcode_offset seg.mem_offset)
    else throw bad_flag

unfoldable pub encode_data_seg : WasmModule → DataDecl → Result (List ℕ)
unfolding encode_place
encode_data_seg m seg = do
  place ← encode_place m seg
  ok (
      encode_u32leb seg.flag
      ++ (place ++ (encode_u32leb (length seg.bytes % 2 ^ 32) ++ encode_bytes seg.bytes)))

unfoldable pub encode_data_section : WasmModule → Result (List ℕ)
unfolding write_section encode_data_seg
encode_data_section m = write_section (λ n. encode_data_seg m n.decl) m.datas

unfoldable pub encode_datacount_section : WasmModule → Result (List ℕ)
encode_datacount_section m =
    ok (if m.has_datacount == 0 then [] else encode_u32leb (length m.datas % 2 ^ 32))

unfoldable pub write_subsection : SubsecBytes → List ℕ
write_subsection subsec =
    encode_u8 subsec.id
    ++ (encode_u32leb (length subsec.bytes % 2 ^ 32) ++ encode_bytes subsec.bytes)

-- The subsections up to the first whose id is not below 1, and the others.
unfoldable pub before_names : List SubsecBytes → List SubsecBytes × List SubsecBytes
before_names [] = ([], [])
before_names (s ∷ ss) =
    let (before, after) = before_names ss in
    if ltb s.id 1 then (s ∷ before, after) else ([], s ∷ ss)

unfoldable pub write_name_assoc : WasmModule → DebugNameAssoc → Result (List ℕ)
write_name_assoc m name_asc = do
  idx ← write_idx (get_func_idx m name_asc.func)
  ok (idx ++ encode_name name_asc.name)

unfoldable pub write_func_names : WasmModule → List DebugNameAssoc → Result (List ℕ)
unfolding write_vec write_name_assoc with_size
write_func_names m [] = ok []
write_func_names m (d ∷ ds) = do
  secdeq ← write_vec (write_name_assoc m) (d ∷ ds)
  ok (preencode_u8 (with_size secdeq) 0x01)

unfoldable pub write_names : WasmModule → DebugNameDecl → Result (List ℕ)
unfolding before_names write_subsection write_func_names
write_names m debug = do
  names ← write_func_names m debug.func_assoc
  let (before, after) = before_names debug.subsections
  ok (concat_map write_subsection before ++ (names ++ concat_map write_subsection after))

unfoldable pub encode_custom_section : WasmModule → CustomDecl → Result (List ℕ)
unfolding write_names
encode_custom_section m custom =
    if (length custom.name == 0) && (length custom.bytes == 0)
    then ok []
    else both (ok (encode_name custom.name)) (
        if same custom.name name_text
        then write_names m custom.debug
        else ok (encode_bytes custom.bytes))

-- ENCODE_CALL: the section behind its id and its size, or nothing where it is empty.
unfoldable pub framed : ℕ → List ℕ → List ℕ
unfolding with_size
framed section_id secdeq =
    if length secdeq % 2 ^ 32 == 0 then [] else preencode_u8 (with_size secdeq) section_id

abbrev pub encode_call : ℕ → Result (List ℕ) → Result (List ℕ)
encode_call section_id section = section >>= λ secdeq. ok (framed section_id secdeq)

-- The sections in the order in which they are written, the customs at the end.
unfoldable pub encode_sections : WasmModule → Result (List ℕ)
unfolding framed encode_code_section encode_data_section encode_datacount_section
    encode_custom_section encode_type_section encode_import_section encode_function_section
    encode_table_section encode_memory_section encode_global_section encode_export_section
    encode_start_section encode_element_section write_all
encode_sections m = both (encode_call 1 (ok (encode_type_section m))) (
    both (encode_call 2 (encode_import_section m)) (
      both (encode_call 3 (encode_function_section m)) (
        both (encode_call 4 (encode_table_section m)) (
          both (encode_call 5 (encode_memory_section m)) (
            both (encode_call 6 (encode_global_section m)) (
              both (encode_call 7 (encode_export_section m)) (
                both (encode_call 8 (encode_start_section m)) (
                  both (encode_call 9 (encode_element_section m)) (
                    both (encode_call 12 (encode_datacount_section m)) (
                      both (encode_call 10 (encode_code_section m)) (
                        both (encode_call 11 (encode_data_section m)) (
                          write_all (λ c. encode_call 0 (encode_custom_section m c))
                            m.customs))))))))))))

unfoldable pub encode_module : WasmModule → Result (List ℕ)
unfolding encode_sections
encode_module m = both (ok (encode_u32 m.magic ++ encode_u32 m.version)) (encode_sections m)
