-- ===== src/Section/Decode.antt =====
-- The sections of src/parse.cpp that fill the index spaces, and the exports and the start. A
-- section of the source changes the module, so it takes the module and hands back the module after;
-- a reference to an element that was pushed is the number that the element has got.
use wasm_instrument.Prelude.{
  ℕ, zero, suc, ◌+◌, ◌-◌, ◌%◌, ◌^◌, List, [], ◌∷◌, ◌++◌, some, ◌==◌, ◌&&◌, if◌then◌else◌, length,
  take,
}
use wasm_instrument.Prelude.Result.{
  Result, ok, throw, require, bad_import_kind, bad_export_kind, malformed_imports, memory_count,
  init_expr_opcode, malformed_end,
}
use wasm_instrument.Prelude.Result
use wasm_instrument.Buffer.{
  Parser, pure, raise, lift, ◌>>=◌, ◌>>◌, read_u32leb, read_i32leb, read_i64leb, read_u8, read_u32,
  read_u64, read_name,
}
use wasm_instrument.Opcode.{read_opcode}
use wasm_instrument.Ir.{
  Ptr, FuncDecl, MemoryDecl, TableDecl, GlobalDecl, Descriptor, kind_func, kind_table, kind_memory,
  kind_global, ImportDecl, ExportDecl, WasmModule,
}
use wasm_instrument.Ir.Access.{get_sig, get_func, get_global, get_table, get_memory}
use wasm_instrument.Section.{read_memtype, read_tabletype}

-- `for (i = 0; i < n; i++)` over rounds that change the module.
unfoldable pub repeat : ℕ → (WasmModule → Parser WasmModule) → WasmModule → Parser WasmModule
repeat zero round m = pure m
repeat (suc n) round m = do after ← round m; repeat n round after

-- `is_mutable` is a field of one bit.
unfoldable pub read_globaltype : Parser GlobalDecl
read_globaltype = do
  type ← read_u8
  is_mutable ← read_u8
  pure (record { type = type; is_mutable = is_mutable % 2; init_expr_bytes = [] })

-- The constant after the opcode of an initial value, which is skipped.
unfoldable pub skip_const : ℕ → Parser ℕ
skip_const opcode =
    if opcode == 0x41
    then read_i32leb
    else if opcode == 0x42
    then read_i64leb
    else if opcode == 0x43
    then read_u32
    else if opcode == 0x44
    then read_u64
    else raise init_expr_opcode

unfoldable pub skip_init_expr : Parser (Unit {0})
unfolding skip_const
skip_init_expr = do
  opcode ← read_opcode
  skip_const opcode
  end ← read_opcode
  lift (require malformed_end (end == 0x0b))

-- The bytes between the two pointers.
unfoldable pub decode_init_expr : Parser (List ℕ)
unfolding skip_init_expr
decode_init_expr b = Result.◌>>=◌ (skip_init_expr b) λ (_, c). ok (take (c.pos - b.pos) b.rest, c)

-- `push_back` of each kind: the new element's number is the module's next.
abbrev pub push_func : WasmModule → Ptr → WasmModule
push_func m sig =
    let func : FuncDecl = record {
      sig = sig;
      pure_locals = [];
      num_pure_locals = 0;
      code_bytes = [];
      instructions = [];
    } in
    record m {
      funcs = m.funcs ++ record { id = m.next_id; decl = func } ∷ [];
      next_id = m.next_id + 1;
    }

abbrev pub push_table : WasmModule → TableDecl → WasmModule
push_table m table = record m {
  tables = m.tables ++ record { id = m.next_id; decl = table } ∷ [];
  next_id = m.next_id + 1;
}

abbrev pub push_mem : WasmModule → MemoryDecl → WasmModule
push_mem m mem = record m {
  mems = m.mems ++ record { id = m.next_id; decl = mem } ∷ [];
  next_id = m.next_id + 1;
}

abbrev pub push_global : WasmModule → GlobalDecl → WasmModule
push_global m global = record m {
  globals = m.globals ++ record { id = m.next_id; decl = global } ∷ [];
  next_id = m.next_id + 1;
}

-- `info.num_funcs++` and its like.
abbrev pub count : Descriptor → WasmModule → WasmModule
count (kind_func p) m = record m {
  imports = record m.imports { num_funcs = (m.imports.num_funcs + 1) % 2 ^ 32 };
}
count (kind_table p) m = record m {
  imports = record m.imports { num_tables = (m.imports.num_tables + 1) % 2 ^ 32 };
}
count (kind_memory p) m = record m {
  imports = record m.imports { num_mems = (m.imports.num_mems + 1) % 2 ^ 32 };
}
count (kind_global p) m = record m {
  imports = record m.imports { num_globals = (m.imports.num_globals + 1) % 2 ^ 32 };
}

-- `info.list.push_back (import)`
abbrev pub list_import : ImportDecl → WasmModule → WasmModule
list_import import m = record m {
  imports = record m.imports { list = m.imports.list ++ import ∷ [] };
}

-- The cases of an import's kind: the descriptor and the module with the new element.
unfoldable pub import_of_kind : WasmModule → ℕ → Parser (Descriptor × WasmModule)
unfolding read_tabletype read_memtype read_globaltype
import_of_kind m kind =
    if kind == 0
    then (read_u32leb >>= λ idx.
        lift (get_sig m idx) >>= λ sig. pure (kind_func m.next_id, push_func m sig))
    else if kind == 1
    then (read_tabletype >>= λ table. pure (kind_table m.next_id, push_table m table))
    else if kind == 2
    then (read_memtype >>= λ mem. pure (kind_memory m.next_id, push_mem m mem))
    else if kind == 3
    then (read_globaltype >>= λ global. pure (kind_global m.next_id, push_global m global))
    else raise bad_import_kind

unfoldable pub read_import : WasmModule → Parser WasmModule
unfolding import_of_kind
read_import m = do
  mod_name ← read_name
  member_name ← read_name
  kind ← read_u8
  (desc, after) ← import_of_kind m kind
  pure (
      list_import (record { mod_name = mod_name; member_name = member_name; desc = desc })
        (count desc after))

unfoldable pub decode_import_section : WasmModule → Parser WasmModule
unfolding repeat read_import
decode_import_section m = do num_imports ← read_u32leb; repeat num_imports read_import m

unfoldable pub read_func : WasmModule → Parser WasmModule
read_func m = do idx ← read_u32leb; sig ← lift (get_sig m idx); pure (push_func m sig)

unfoldable pub decode_function_section : WasmModule → Parser WasmModule
unfolding repeat read_func
decode_function_section m = do
  lift (require malformed_imports (m.imports.num_funcs == length m.funcs))
  num_funcs ← read_u32leb
  repeat num_funcs read_func m

unfoldable pub read_table : WasmModule → Parser WasmModule
unfolding read_tabletype
read_table m = do table ← read_tabletype; pure (push_table m table)

unfoldable pub decode_table_section : WasmModule → Parser WasmModule
unfolding repeat read_table
decode_table_section m = do
  lift (require malformed_imports (m.imports.num_tables == length m.tables))
  num_tables ← read_u32leb
  repeat num_tables read_table m

unfoldable pub decode_memory_section : WasmModule → Parser WasmModule
unfolding read_memtype
decode_memory_section m = do
  num_mems ← read_u32leb
  lift (require memory_count ((num_mems == 1) && (length m.mems == 0)))
  mem ← read_memtype
  pure (push_mem m mem)

unfoldable pub read_global : WasmModule → Parser WasmModule
unfolding read_globaltype decode_init_expr
read_global m = do
  global ← read_globaltype
  bytes ← decode_init_expr
  pure (push_global m (record global { init_expr_bytes = bytes }))

unfoldable pub decode_global_section : WasmModule → Parser WasmModule
unfolding repeat read_global
decode_global_section m = do
  lift (require malformed_imports (m.imports.num_globals == length m.globals))
  num_globs ← read_u32leb
  repeat num_globs read_global m

-- The cases of an export's kind.
unfoldable pub descriptor : WasmModule → ℕ → ℕ → Result Descriptor
descriptor m kind idx =
    if kind == 0
    then Result.◌>>=◌ (get_func m idx) (λ p. ok (kind_func p))
    else if kind == 1
    then Result.◌>>=◌ (get_table m idx) (λ p. ok (kind_table p))
    else if kind == 2
    then Result.◌>>=◌ (get_memory m idx) (λ p. ok (kind_memory p))
    else if kind == 3
    then Result.◌>>=◌ (get_global m idx) (λ p. ok (kind_global p))
    else throw bad_export_kind

abbrev pub push_export : WasmModule → ExportDecl → WasmModule
push_export m exp = record m { exports = m.exports ++ exp ∷ [] }

unfoldable pub read_export : WasmModule → Parser WasmModule
unfolding descriptor
read_export m = do
  name ← read_name
  kind ← read_u8
  idx ← read_u32leb
  desc ← lift (descriptor m kind idx)
  pure (push_export m (record { name = name; desc = desc }))

unfoldable pub decode_export_section : WasmModule → Parser WasmModule
unfolding repeat read_export
decode_export_section m = do num_exports ← read_u32leb; repeat num_exports read_export m

unfoldable pub decode_start_section : WasmModule → Parser WasmModule
decode_start_section m = do
  idx ← read_u32leb
  p ← lift (get_func m idx)
  pure (record m { start_fn = some p })
