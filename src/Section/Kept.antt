-- ===== src/Section/Kept.antt =====
-- Theorems on the sections of src/parse.cpp that put declarations behind the imports.
use wasm_instrument.Prelude.{ℕ, zero, suc, arith}
use wasm_instrument.Buffer.{Parser, read_u32leb, ◌>>=◌}
use wasm_instrument.Buffer.Gives.{Gives, Gives-pure, Gives-bind, Gives-after}
use wasm_instrument.Ir.{TableDecl, MemoryDecl, GlobalDecl, WasmModule}
use wasm_instrument.Instrument.Spaces.{WellFormed, Space-later, Space-back}
use wasm_instrument.Section.{read_tabletype, read_memtype}
use wasm_instrument.Section.Decode.{
  repeat, read_globaltype, decode_init_expr, push_func, push_table, push_mem, push_global,
  decode_function_section, decode_table_section, decode_memory_section, decode_global_section,
  read_func, read_table, read_global,
}

-- What holds of a module holds after rounds that keep it.
pub repeat-Gives {κ} :
    (P : WasmModule → Type κ) (round : WasmModule → Parser WasmModule)
    → ((m : WasmModule) → P m → Gives (round m) P)
    → (n : ℕ) (m : WasmModule) → P m
    → Gives (repeat n round m) P
unfolding repeat
repeat-Gives P round keeps zero m h = Gives-pure P m h
repeat-Gives P round keeps (suc n) m h =
    Gives-bind (round m) (repeat n round) P P (keeps m h)
      (λ after h'. repeat-Gives P round keeps n after h')

-- An element that is not an import is put behind all others.
push_func-WellFormed : (m : WasmModule) (sig : ℕ) → WellFormed m → WellFormed (push_func m sig)
push_func-WellFormed m sig w = record {
  funcs = Space-back m.funcs _ w.funcs;
  tables = Space-later (omega arith) w.tables;
  mems = Space-later (omega arith) w.mems;
  globals = Space-later (omega arith) w.globals;
  names = w.names;
}

push_table-WellFormed :
    (m : WasmModule) (table : TableDecl) → WellFormed m → WellFormed (push_table m table)
push_table-WellFormed m table w = record {
  funcs = Space-later (omega arith) w.funcs;
  tables = Space-back m.tables table w.tables;
  mems = Space-later (omega arith) w.mems;
  globals = Space-later (omega arith) w.globals;
  names = w.names;
}

push_mem-WellFormed :
    (m : WasmModule) (mem : MemoryDecl) → WellFormed m → WellFormed (push_mem m mem)
push_mem-WellFormed m mem w = record {
  funcs = Space-later (omega arith) w.funcs;
  tables = Space-later (omega arith) w.tables;
  mems = Space-back m.mems mem w.mems;
  globals = Space-later (omega arith) w.globals;
  names = w.names;
}

push_global-WellFormed :
    (m : WasmModule) (global : GlobalDecl) → WellFormed m → WellFormed (push_global m global)
push_global-WellFormed m global w = record {
  funcs = Space-later (omega arith) w.funcs;
  tables = Space-later (omega arith) w.tables;
  mems = Space-later (omega arith) w.mems;
  globals = Space-back m.globals global w.globals;
  names = w.names;
}

-- A section of a number of rounds.
pub rounds-Gives {κ} :
    (P : WasmModule → Type κ) (round : WasmModule → Parser WasmModule) (m : WasmModule)
    → ((k : WasmModule) → P k → Gives (round k) P)
    → P m
    → Gives (read_u32leb >>= λ num. repeat num round m) P
rounds-Gives P round m keeps h =
    Gives-after read_u32leb (λ num. repeat num round m) P
      (λ num. repeat-Gives P round keeps num m h)

pub decode_function_section-Gives :
    (m : WasmModule) → WellFormed m → Gives (decode_function_section m) WellFormed
unfolding decode_function_section read_func
decode_function_section-Gives m w = Gives-after _ _ WellFormed (λ fine.
    rounds-Gives WellFormed read_func m
      (λ k h. Gives-after read_u32leb _ WellFormed (λ idx.
        Gives-after _ _ WellFormed
          (λ sig. Gives-pure WellFormed (push_func k sig) (push_func-WellFormed k sig h))))
      w)

pub decode_table_section-Gives :
    (m : WasmModule) → WellFormed m → Gives (decode_table_section m) WellFormed
unfolding decode_table_section read_table
decode_table_section-Gives m w = Gives-after _ _ WellFormed (λ fine.
    rounds-Gives WellFormed read_table m
      (λ k h.
        Gives-after read_tabletype _ WellFormed
          (λ table. Gives-pure WellFormed (push_table k table) (push_table-WellFormed k table h)))
      w)

pub decode_memory_section-Gives :
    (m : WasmModule) → WellFormed m → Gives (decode_memory_section m) WellFormed
unfolding decode_memory_section
decode_memory_section-Gives m w = Gives-after read_u32leb _ WellFormed (λ num.
    Gives-after _ _ WellFormed (λ fine.
      Gives-after read_memtype _ WellFormed
        (λ mem. Gives-pure WellFormed (push_mem m mem) (push_mem-WellFormed m mem w))))

pub decode_global_section-Gives :
    (m : WasmModule) → WellFormed m → Gives (decode_global_section m) WellFormed
unfolding decode_global_section read_global
decode_global_section-Gives m w = Gives-after _ _ WellFormed (λ fine.
    rounds-Gives WellFormed read_global m
      (λ k h. Gives-after read_globaltype _ WellFormed (λ global.
        Gives-after decode_init_expr _ WellFormed
          (λ bytes. Gives-pure WellFormed _ (push_global-WellFormed k _ h))))
      w)
