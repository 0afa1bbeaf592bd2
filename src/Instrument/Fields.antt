-- ===== src/Instrument/Fields.antt =====
-- Theorems on the additions and imports of globals, tables and memories of src/instrument.cpp.
use wasm_instrument.Prelude.{ℕ, ◌+◌, ◌^◌, ◌<◌, List, Option, none, some, arith}
use wasm_instrument.Ir.{
  TableDecl, MemoryDecl, GlobalDecl, GlobalInfo, ImportInfo, WasmModule, Descriptor,
}
use wasm_instrument.Instrument.{
  add_export, export_if, add_global, add_table, add_memory, add_import_global, add_import_table,
  add_import_memory,
}
use wasm_instrument.Instrument.Spaces.{WellFormed, Space-front, Space-later, Space-back}

export_if-WellFormed :
    (name : Option (List ℕ)) (desc : Descriptor) (m : WasmModule)
    → WellFormed m
    → WellFormed (export_if name desc m)
unfolding export_if add_export
export_if-WellFormed none desc m w = w
export_if-WellFormed (some name) desc m w = record {
  funcs = w.funcs;
  tables = w.tables;
  mems = w.mems;
  globals = w.globals;
  names = w.names;
}

-- add_global, add_table and add_memory keep a module well-formed, whether they export or not.
pub add_field-WellFormed :
    (m : WasmModule) (global : GlobalDecl) (table : TableDecl) (mem : MemoryDecl)
    (name : Option (List ℕ))
    → WellFormed m
    → WellFormed (add_global m global name).1
      × WellFormed (add_table m table name).1
      × WellFormed (add_memory m mem name).1
unfolding add_global add_table add_memory
add_field-WellFormed m global table mem name w = (
  export_if-WellFormed name _ _ (record {
    funcs = Space-later (omega arith) w.funcs;
    tables = Space-later (omega arith) w.tables;
    mems = Space-later (omega arith) w.mems;
    globals = Space-back m.globals global w.globals;
    names = w.names;
  }),
  export_if-WellFormed name _ _ (record {
    funcs = Space-later (omega arith) w.funcs;
    tables = Space-back m.tables table w.tables;
    mems = Space-later (omega arith) w.mems;
    globals = Space-later (omega arith) w.globals;
    names = w.names;
  }),
  export_if-WellFormed name _ _ (record {
    funcs = Space-later (omega arith) w.funcs;
    tables = Space-later (omega arith) w.tables;
    mems = Space-back m.mems mem w.mems;
    globals = Space-later (omega arith) w.globals;
    names = w.names;
  }),
)

-- The imports of globals, tables and memories keep a module well-formed while the count fits.
pub add_import-WellFormed :
    (m : WasmModule) (info : ImportInfo) (global : GlobalInfo) (table : TableDecl)
    (mem : MemoryDecl)
    → WellFormed m
    → m.imports.num_globals + 1 < 2 ^ 32
    → m.imports.num_tables + 1 < 2 ^ 32
    → m.imports.num_mems + 1 < 2 ^ 32
    → WellFormed (add_import_global m info global)
      × WellFormed (add_import_table m info table)
      × WellFormed (add_import_memory m info mem)
unfolding add_import_global add_import_table add_import_memory
add_import-WellFormed m info global table mem w g t k = (
  record {
    funcs = Space-later (omega arith) w.funcs;
    tables = Space-later (omega arith) w.tables;
    mems = Space-later (omega arith) w.mems;
    globals = Space-front g w.globals;
    names = w.names;
  },
  record {
    funcs = Space-later (omega arith) w.funcs;
    tables = Space-front t w.tables;
    mems = Space-later (omega arith) w.mems;
    globals = Space-later (omega arith) w.globals;
    names = w.names;
  },
  record {
    funcs = Space-later (omega arith) w.funcs;
    tables = Space-later (omega arith) w.tables;
    mems = Space-front k w.mems;
    globals = Space-later (omega arith) w.globals;
    names = w.names;
  },
)
