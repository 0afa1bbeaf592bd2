-- ===== src/Instrument.antt =====
-- The instrumentation primitives of src/instrument.cpp. An operation that changes the module hands
-- back what it returns and the module after. `uint32_t` counts wrap.
pub mod Lookup
pub mod Remove
pub mod Spaces
pub mod Fields
pub mod Additions
pub mod Found
pub mod Added
pub mod Indices
pub mod Removal
use wasm_instrument.Prelude.{
  ℕ, zero, suc, ◌+◌, ◌-◌, ◌%◌, ◌^◌, Bool, true, false, ◌&&◌, List, [], ◌∷◌, ◌++◌, Option, none,
  some, ◌==◌, ltb, leb, same, if◌then◌else◌, length, get_elem?,
}
use wasm_instrument.Prelude.Result.{Result, ok, throw, undefined, ◌>>=◌, deref, null_string}
use wasm_instrument.Ir.{
  Node, Ptr, SigDecl, FuncDecl, MemoryDecl, TableDecl, GlobalDecl, GlobalInfo, CustomDecl,
  DebugNameAssoc, DebugNameDecl, Descriptor, kind_func, kind_table, kind_memory, kind_global,
  ImportInfo, ImportDecl, ExportDecl, ImportSet, WasmModule,
}
use wasm_instrument.Ir.Access.{get_func, get_func_idx, is_import}

abbrev pub push_back {ℓ} : {A : Type ℓ} → List (Node A) → Ptr → A → List (Node A)
push_back ns p a = ns ++ record { id = p; decl = a } ∷ []

abbrev pub push_front {ℓ} : {A : Type ℓ} → List (Node A) → Ptr → A → List (Node A)
push_front ns p a = record { id = p; decl = a } ∷ ns

-- SigDecl::operator==
unfoldable pub same_sig : SigDecl → SigDecl → Bool
same_sig s t = same s.params t.params && same s.results t.results

-- The loop of FIND_OR_CREATE_SIG
unfoldable pub find_sig : List (Node SigDecl) → SigDecl → Option Ptr
unfolding same_sig
find_sig [] sig = none
find_sig (n ∷ ns) sig = if same_sig n.decl sig then some n.id else find_sig ns sig

abbrev pub new_sig : WasmModule → SigDecl → Ptr × WasmModule
new_sig m sig =
    (m.next_id, record m { sigs = push_back m.sigs m.next_id sig; next_id = m.next_id + 1 })

unfoldable pub add_sig : WasmModule → SigDecl → Bool → Ptr × WasmModule
unfolding find_sig
add_sig m sig true = new_sig m sig
add_sig m sig false = elim (find_sig m.sigs sig) [ some p ↦ (p, m) | none ↦ new_sig m sig ]

-- add_export of each kind: the descriptor has the kind.
unfoldable pub add_export : WasmModule → List ℕ → Descriptor → WasmModule
add_export m export_name desc = record m {
  exports = m.exports ++ record { name = export_name; desc = desc } ∷ [];
}

-- The end of ADD_FIELD
unfoldable pub export_if : Option (List ℕ) → Descriptor → WasmModule → WasmModule
unfolding add_export
export_if none desc m = m
export_if (some export_name) desc m = add_export m export_name desc

unfoldable pub add_global : WasmModule → GlobalDecl → Option (List ℕ) → Ptr × WasmModule
unfolding export_if
add_global m global export_name = (
  m.next_id,
  export_if export_name (kind_global m.next_id)
      (record m { globals = push_back m.globals m.next_id global; next_id = m.next_id + 1 }),
)

unfoldable pub add_table : WasmModule → TableDecl → Option (List ℕ) → Ptr × WasmModule
unfolding export_if
add_table m table export_name = (
  m.next_id,
  export_if export_name (kind_table m.next_id)
      (record m { tables = push_back m.tables m.next_id table; next_id = m.next_id + 1 }),
)

unfoldable pub add_memory : WasmModule → MemoryDecl → Option (List ℕ) → Ptr × WasmModule
unfolding export_if
add_memory m mem export_name = (
  m.next_id,
  export_if export_name (kind_memory m.next_id)
      (record m { mems = push_back m.mems m.next_id mem; next_id = m.next_id + 1 }),
)

-- `*fn_names_debug`, changed by `f`.
unfoldable pub change_names :
    (List DebugNameAssoc → List DebugNameAssoc) → ℕ → List CustomDecl → Result (List CustomDecl)
change_names f i [] = undefined
change_names f zero (c ∷ cs) =
    ok (record c { debug = record c.debug { func_assoc = f c.debug.func_assoc } } ∷ cs)
change_names f (suc i) (c ∷ cs) = elim (change_names f i cs) [
  | ok l ↦ ok (c ∷ l)
  | throw e ↦ throw e
  | undefined ↦ undefined
]

-- `if (this->fn_names_debug) { ... }`
unfoldable pub with_names :
    (List DebugNameAssoc → List DebugNameAssoc) → WasmModule → Result WasmModule
unfolding change_names
with_names f m = elim m.fn_names_debug [
  | none ↦ ok m
  | some i ↦ do customs ← change_names f i m.customs; ok (record m { customs = customs })
]

-- `sig` is what `func.sig` points at, which need not be in the module. A debug name that is NULL
-- is not a string.
unfoldable pub add_func :
    WasmModule → FuncDecl → SigDecl → Option (List ℕ) → Option (List ℕ) → Result (Ptr × WasmModule)
unfolding add_sig export_if with_names
add_func m func sig export_name debug_name =
    let (sigptr, m1) = add_sig m sig false in
    let ifn = m1.next_id in
    let m2 = export_if export_name (kind_func ifn) (record m1 {
      funcs = push_back m1.funcs ifn (record func { sig = sigptr });
      next_id = ifn + 1;
    }) in
    elim debug_name [
      | some name ↦ do
        m3 ← with_names (λ l. l ++ record { func = ifn; name = name } ∷ []) m2
        ok (ifn, m3)
      | none ↦ elim m2.fn_names_debug [ none ↦ ok (ifn, m2) | some _ ↦ throw null_string ]
    ]

abbrev pub new_import : ImportInfo → Descriptor → ImportDecl
new_import info desc = record {
  mod_name = info.mod_name;
  member_name = info.member_name;
  desc = desc;
}

unfoldable pub add_import_global : WasmModule → ImportInfo → GlobalInfo → WasmModule
add_import_global m info global = record m {
  globals =
      push_front m.globals m.next_id
        (record { type = global.type; is_mutable = global.is_mutable; init_expr_bytes = [] });
  imports = record m.imports {
    list = new_import info (kind_global m.next_id) ∷ m.imports.list;
    num_globals = (m.imports.num_globals + 1) % 2 ^ 32;
  };
  next_id = m.next_id + 1;
}

unfoldable pub add_import_table : WasmModule → ImportInfo → TableDecl → WasmModule
add_import_table m info table = record m {
  tables = push_front m.tables m.next_id table;
  imports = record m.imports {
    list = new_import info (kind_table m.next_id) ∷ m.imports.list;
    num_tables = (m.imports.num_tables + 1) % 2 ^ 32;
  };
  next_id = m.next_id + 1;
}

unfoldable pub add_import_memory : WasmModule → ImportInfo → MemoryDecl → WasmModule
add_import_memory m info mem = record m {
  mems = push_front m.mems m.next_id mem;
  imports = record m.imports {
    list = new_import info (kind_memory m.next_id) ∷ m.imports.list;
    num_mems = (m.imports.num_mems + 1) % 2 ^ 32;
  };
  next_id = m.next_id + 1;
}

unfoldable pub add_import_func : WasmModule → ImportInfo → SigDecl → Result WasmModule
unfolding add_sig with_names
add_import_func m info sig =
    let (sigptr, m1) = add_sig m sig false in
    let ifn = m1.next_id in
    with_names (λ l. record { func = ifn; name = info.member_name } ∷ l)
      (record m1 {
        funcs = push_front m1.funcs ifn (record {
          sig = sigptr;
          pure_locals = [];
          num_pure_locals = 0;
          code_bytes = [];
          instructions = [];
        });
        imports = record m1.imports {
          list = new_import info (kind_func ifn) ∷ m1.imports.list;
          num_funcs = (m1.imports.num_funcs + 1) % 2 ^ 32;
        };
        next_id = ifn + 1;
      })
