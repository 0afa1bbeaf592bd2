-- ===== src/Section/Encode.antt =====
-- The sections that src/encode.cpp writes, each as its bytes, and the whole module. A member of the
-- union Descriptor is only read as the kind says.
use wasm_instrument.Prelude.{
  ℕ, zero, suc, ◌+◌, ◌-◌, ◌%◌, ◌^◌, List, [], ◌∷◌, ◌++◌, none, some, ◌==◌, if◌then◌else◌, length,
}
use wasm_instrument.Prelude.Result.{
  Result, ok, throw, undefined, ◌>>=◌, ◌>>◌, require, deref, offset_opcode, bad_flag,
  import_count_mismatch,
}
use wasm_instrument.Leb.{encode_u32leb, encode_i32leb, encode_i64leb}
use wasm_instrument.Writer.{encode_u8, encode_name, encode_bytes}
use wasm_instrument.Opcode.{encode_opcode}
use wasm_instrument.Ir.{
  Node, GlobalDecl, ElemDecl, Descriptor, kind_func, kind_table, kind_memory, kind_global,
  ImportDecl, ExportDecl, ImportSet, WasmModule,
}
use wasm_instrument.Ir.Access.{
  node_at, get_sig_idx, get_func_idx, get_table_idx, get_memory_idx, get_global_idx,
}
use wasm_instrument.Inst.Classes.{write_idx, both}
use wasm_instrument.Section.{write_memtype, write_tabletype}

-- `for (auto &x : l)` over rounds that may throw.
unfoldable pub write_all {ℓ} : {A : Type ℓ} → (A → Result (List ℕ)) → List A → Result (List ℕ)
write_all write [] = ok []
write_all write (x ∷ xs) = do bytes ← write x; others ← write_all write xs; ok (bytes ++ others)

-- A vector: its length, which is cut to 32 bits, and its elements.
unfoldable pub write_vec {ℓ} : {A : Type ℓ} → (A → Result (List ℕ)) → List A → Result (List ℕ)
unfolding write_all
write_vec write l = do elems ← write_all write l; ok (encode_u32leb (length l % 2 ^ 32) ++ elems)

-- The sections that are left out where the number of elements is 0.
unfoldable pub write_section {ℓ} : {A : Type ℓ} → (A → Result (List ℕ)) → List A → Result (List ℕ)
unfolding write_vec
write_section write l = if length l % 2 ^ 32 == 0 then ok [] else write_vec write l

-- `std::next (begin, num)` to `end`, which is undefined where `num` is past the end.
unfoldable pub std_next {ℓ} : {A : Type ℓ} → ℕ → List A → Result (List A)
std_next zero l = ok l
std_next (suc n) [] = undefined
std_next (suc n) (x ∷ l) = std_next n l

-- The sections that hold the elements behind the imports. The difference of the sizes wraps.
unfoldable pub write_defined {ℓ} :
    {A : Type ℓ} → (A → Result (List ℕ)) → ℕ → List (Node A) → Result (List ℕ)
unfolding std_next write_all
write_defined write num_imports nodes =
    let num = (length nodes + 2 ^ 64 - num_imports) % 2 ^ 32 in
    if num == 0
    then ok []
    else std_next num_imports nodes >>= λ defined.
        write_all (λ n. write n.decl) defined >>= λ elems. ok (encode_u32leb num ++ elems)

unfoldable pub write_globaltype : GlobalDecl → List ℕ
write_globaltype global = encode_u8 global.type ++ encode_u8 global.is_mutable

unfoldable pub encode_offset : ℕ → ℕ → Result (List ℕ)
encode_offset opc offset =
    if opc == 0x41
    then ok (encode_i32leb offset)
    else if opc == 0x42
    then ok (encode_i64leb offset)
    else throw offset_opcode

unfoldable pub encode_const_off_expr : ℕ → ℕ → Result (List ℕ)
unfolding encode_offset
encode_const_off_expr opc offset =
    both (encode_opcode opc) (both (encode_offset opc offset) (encode_opcode 0x0b))

unfoldable pub encode_init_expr : List ℕ → List ℕ
encode_init_expr init_expr = encode_bytes init_expr

-- `imports.get_num_imports ()`
abbrev pub get_num_imports : ImportSet → ℕ
get_num_imports i = (i.num_funcs + i.num_tables + i.num_mems + i.num_globals) % 2 ^ 32

unfoldable pub kind_of : Descriptor → ℕ
kind_of (kind_func p) = 0
kind_of (kind_table p) = 1
kind_of (kind_memory p) = 2
kind_of (kind_global p) = 3

unfoldable pub encode_import_desc : WasmModule → Descriptor → Result (List ℕ)
unfolding write_tabletype write_memtype write_globaltype
encode_import_desc m (kind_func p) =
    deref (node_at m.funcs p) >>= λ func. write_idx (get_sig_idx m func.sig)
encode_import_desc m (kind_table p) =
    deref (node_at m.tables p) >>= λ table. ok (write_tabletype table)
encode_import_desc m (kind_memory p) = deref (node_at m.mems p) >>= λ mem. ok (write_memtype mem)
encode_import_desc m (kind_global p) =
    deref (node_at m.globals p) >>= λ global. ok (write_globaltype global)

unfoldable pub encode_import : WasmModule → ImportDecl → Result (List ℕ)
unfolding encode_import_desc kind_of
encode_import m import = do
  desc ← encode_import_desc m import.desc
  ok (
      encode_name import.mod_name
      ++ (encode_name import.member_name ++ (encode_u8 (kind_of import.desc) ++ desc)))

unfoldable pub encode_import_section : WasmModule → Result (List ℕ)
unfolding write_section encode_import
encode_import_section m =
    require import_count_mismatch (length m.imports.list == get_num_imports m.imports)
    >> write_section (encode_import m) m.imports.list

unfoldable pub encode_function_section : WasmModule → Result (List ℕ)
unfolding write_defined
encode_function_section m =
    write_defined (λ func. write_idx (get_sig_idx m func.sig)) m.imports.num_funcs m.funcs

unfoldable pub encode_table_section : WasmModule → Result (List ℕ)
unfolding write_defined write_tabletype
encode_table_section m =
    write_defined (λ table. ok (write_tabletype table)) m.imports.num_tables m.tables

unfoldable pub encode_memory_section : WasmModule → Result (List ℕ)
unfolding write_defined write_memtype
encode_memory_section m = write_defined (λ mem. ok (write_memtype mem)) m.imports.num_mems m.mems

unfoldable pub encode_global_section : WasmModule → Result (List ℕ)
unfolding write_defined write_globaltype encode_init_expr
encode_global_section m =
    write_defined
      (λ global. ok (write_globaltype global ++ encode_init_expr global.init_expr_bytes))
      m.imports.num_globals m.globals

unfoldable pub get_idx : WasmModule → Descriptor → Result ℕ
get_idx m (kind_func p) = get_func_idx m p
get_idx m (kind_table p) = get_table_idx m p
get_idx m (kind_memory p) = get_memory_idx m p
get_idx m (kind_global p) = get_global_idx m p

unfoldable pub encode_export : WasmModule → ExportDecl → Result (List ℕ)
unfolding get_idx kind_of
encode_export m exp = do
  idx ← write_idx (get_idx m exp.desc)
  ok (encode_name exp.name ++ (encode_u8 (kind_of exp.desc) ++ idx))

unfoldable pub encode_export_section : WasmModule → Result (List ℕ)
unfolding write_section encode_export
encode_export_section m = write_section (encode_export m) m.exports

unfoldable pub encode_start_section : WasmModule → Result (List ℕ)
encode_start_section m = elim m.start_fn [ none ↦ ok [] | some p ↦ write_idx (get_func_idx m p) ]

unfoldable pub encode_elem : WasmModule → ElemDecl → Result (List ℕ)
unfolding encode_const_off_expr write_vec
encode_elem m elem = do
  require bad_flag (elem.flag == 0)
  offset ← encode_const_off_expr elem.opcode_offset elem.table_offset
  funcs ← write_vec (λ p. write_idx (get_func_idx m p)) elem.funcs
  ok (encode_u32leb elem.flag ++ (offset ++ funcs))

unfoldable pub encode_element_section : WasmModule → Result (List ℕ)
unfolding write_section encode_elem
encode_element_section m = write_section (encode_elem m) m.elems
