-- ===== src/Instrument/Lookup.antt =====
-- The lookups of src/instrument.cpp and get_main_fn of src/methods.cpp. A pointer that may be NULL
-- is an Option.
use wasm_instrument.Prelude.{
  ℕ, ◌+◌, Bool, true, false, ◌&&◌, ◌||◌, List, [], ◌∷◌, Option, none, some, ◌==◌, leb, same,
  if◌then◌else◌, get_elem?,
}
use wasm_instrument.Prelude.Result.{Result, ok, ◌>>=◌, deref}
use wasm_instrument.Ir.{
  Ptr, DebugNameAssoc, Descriptor, kind_func, kind_table, kind_memory, kind_global, ImportDecl,
  ExportDecl, WasmModule,
}
use wasm_instrument.Ir.Access.{is_import}

-- `desc.func` where the kind is KIND_FUNC, and so on.
abbrev pub as_func : Descriptor → Option Ptr
as_func (kind_func p) = some p
as_func _ = none

abbrev pub as_table : Descriptor → Option Ptr
as_table (kind_table p) = some p
as_table _ = none

abbrev pub as_memory : Descriptor → Option Ptr
as_memory (kind_memory p) = some p
as_memory _ = none

abbrev pub as_global : Descriptor → Option Ptr
as_global (kind_global p) = some p
as_global _ = none

-- Any member of the union, whatever the kind says.
abbrev pub raw : Descriptor → Ptr
raw (kind_func p) = p
raw (kind_table p) = p
raw (kind_memory p) = p
raw (kind_global p) = p

unfoldable pub find_export_in : List ExportDecl → List ℕ → Option ExportDecl
find_export_in [] export_name = none
find_export_in (e ∷ es) export_name =
    if same e.name export_name then some e else find_export_in es export_name

unfoldable pub find_export : WasmModule → List ℕ → Option ExportDecl
unfolding find_export_in
find_export m export_name = find_export_in m.exports export_name

-- *getFnDebugNames ()
unfoldable pub debug_names : WasmModule → Result (Option (List DebugNameAssoc))
debug_names m = elim m.fn_names_debug [
  | none ↦ ok none
  | some i ↦ do c ← deref (get_elem? m.customs i); ok (some c.debug.func_assoc)
]

unfoldable pub func_of_name : List DebugNameAssoc → List ℕ → Option Ptr
func_of_name [] debug_name = none
func_of_name (d ∷ ds) debug_name =
    if same d.name debug_name then some d.func else func_of_name ds debug_name

unfoldable pub find_func_from_debug_name : WasmModule → List ℕ → Result (Option Ptr)
unfolding debug_names func_of_name
find_func_from_debug_name m debug_name = do
  names ← debug_names m
  ok (elim names [ none ↦ none | some l ↦ func_of_name l debug_name ])

unfoldable pub name_of_func : List DebugNameAssoc → Ptr → Option (List ℕ)
name_of_func [] func = none
name_of_func (d ∷ ds) func = if d.func == func then some d.name else name_of_func ds func

unfoldable pub get_debug_name_from_func : WasmModule → Ptr → Result (Bool × List ℕ)
unfolding debug_names name_of_func
get_debug_name_from_func m func = do
  names ← debug_names m
  ok (elim names [
    | none ↦ (false, [])
    | some l ↦ elim (name_of_func l func) [ none ↦ (false, []) | some name ↦ (true, name) ]
  ])

-- IMPORT_FIND
unfoldable pub find_import :
    (Descriptor → Option Ptr) → List ImportDecl → List ℕ → List ℕ → Option Ptr
find_import kind [] mod_name member_name = none
find_import kind (i ∷ is) mod_name member_name =
    let other = find_import kind is mod_name member_name in
    if same i.mod_name mod_name && same i.member_name member_name
    then elim (kind i.desc) [ some p ↦ some p | none ↦ other ]
    else other

unfoldable pub find_import_global : WasmModule → List ℕ → List ℕ → Option Ptr
unfolding find_import
find_import_global m mod_name member_name =
    find_import as_global m.imports.list mod_name member_name

unfoldable pub find_import_table : WasmModule → List ℕ → List ℕ → Option Ptr
unfolding find_import
find_import_table m mod_name member_name = find_import as_table m.imports.list mod_name member_name

unfoldable pub find_import_memory : WasmModule → List ℕ → List ℕ → Option Ptr
unfolding find_import
find_import_memory m mod_name member_name =
    find_import as_memory m.imports.list mod_name member_name

unfoldable pub find_import_func : WasmModule → List ℕ → List ℕ → Option Ptr
unfolding find_import
find_import_func m mod_name member_name = find_import as_func m.imports.list mod_name member_name

-- The loop of get_import_name_from_func, with func_ct.
unfoldable pub import_of_func : ℕ → ℕ → List ImportDecl → Ptr → Option ImportDecl
import_of_func func_ct num_funcs [] func = none
import_of_func func_ct num_funcs (i ∷ is) func =
    let further = import_of_func (func_ct + 1) num_funcs is func in
    let beside = import_of_func func_ct num_funcs is func in
    if leb num_funcs func_ct
    then none
    else elim (as_func i.desc) [ some p ↦ if p == func then some i else further | none ↦ beside ]

unfoldable pub get_import_name_from_func : WasmModule → Ptr → Result (Option ImportDecl)
unfolding import_of_func
get_import_name_from_func m func = do
  imported ← is_import m func
  ok (if imported then import_of_func 0 m.imports.num_funcs m.imports.list func else none)

abbrev pub is_func_export : Option ExportDecl → Bool
is_func_export none = false
is_func_export (some e) = elim (as_func e.desc) [ none ↦ false | some _ ↦ true ]

-- The bytes of "main" and of "_start".
abbrev pub main_name : List ℕ
main_name = 109 ∷ 97 ∷ 105 ∷ 110 ∷ []

abbrev pub start_name : List ℕ
start_name = 95 ∷ 115 ∷ 116 ∷ 97 ∷ 114 ∷ 116 ∷ []

-- What follows the test hands back the start function's export where there is one, of any kind;
-- the dereference of the other is then not reached.
unfoldable pub choose_main : Option ExportDecl → Option ExportDecl → Option Ptr
choose_main main_fn_exp start_fn_exp =
    if is_func_export main_fn_exp || is_func_export start_fn_exp
    then elim start_fn_exp [
      | some e ↦ some (raw e.desc)
      | none ↦ elim main_fn_exp [ some e ↦ some (raw e.desc) | none ↦ none ]
    ]
    else none

unfoldable pub get_main_fn : WasmModule → Option Ptr
unfolding find_export choose_main
get_main_fn m = choose_main (find_export m main_name) (find_export m start_name)
