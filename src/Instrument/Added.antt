-- ===== src/Instrument/Added.antt =====
-- Theorems on the lookups of src/instrument.cpp in a module to which a function was added.
use wasm_instrument.Prelude.{
  ℕ, ◌+◌, ◌^◌, ◌≤◌, ◌<◌, ◌≡◌, refl, ap, true, false, List, [], ◌∷◌, ◌++◌, Option, some, length, All,
  same_refl, ltb, leb, ◌==◌, ==_iff, arith,
}
use wasm_instrument.Prelude.Result.{ok}
use wasm_instrument.Ir.{
  Node, Ptr, SigDecl, FuncDecl, ImportInfo, ImportDecl, DebugNameAssoc, kind_func, WasmModule,
}
use wasm_instrument.Ir.Access.{index_of, get_func_idx, get_list_idx, is_import}
use wasm_instrument.Instrument.{new_import, add_import_func, add_func}
use wasm_instrument.Instrument.Lookup.{
  debug_names, name_of_func, get_debug_name_from_func, find_import, find_import_func,
  import_of_func, get_import_name_from_func, as_func,
}
use wasm_instrument.Instrument.Spaces.{WellFormed, of_kind}
use wasm_instrument.Instrument.Additions.{add_import_func-WellFormed, add_func-shape}

front-found :
    (m : WasmModule) (p : Ptr) (decl : FuncDecl) (funcs : List (Node FuncDecl))
    → m.funcs ≡ record { id = p; decl = decl } ∷ funcs
    → get_func_idx m p ≡ ok 0
unfolding get_func_idx get_list_idx index_of
front-found m p decl funcs e = let here : p == p ≡ true = (==_iff p p).1 refl in rw (e, here) refl

import-front :
    (info : ImportInfo) (p : Ptr) (l : List ImportDecl) (n : ℕ)
    → 0 < n
    → (find_import as_func (new_import info (kind_func p) ∷ l) info.mod_name info.member_name
        ≡ some p)
      × (import_of_func 0 n (new_import info (kind_func p) ∷ l) p
          ≡ some (new_import info (kind_func p)))
unfolding find_import import_of_func
import-front info p l n some_import =
    let here : p == p ≡ true = (==_iff p p).1 refl in
    let more : leb n 0 ≡ false = ground arith in
    (rw (same_refl info.mod_name, same_refl info.member_name) refl, rw (more, here) refl)

-- A function that is imported into a well-formed module, while the count of imported functions
-- fits 32 bits, is function 0 and an import, find_import_func finds it by the
-- import's two names, and get_import_name_from_func finds the import.
pub find_import_func-add_import_func :
    (m : WasmModule) (info : ImportInfo) (sig : SigDecl)
    → WellFormed m
    → m.imports.num_funcs + 1 < 2 ^ 32
    → (after : WasmModule) × (p : Ptr) × (add_import_func m info sig ≡ ok after)
      × (get_func_idx after p ≡ ok 0)
      × (is_import after p ≡ ok true)
      × (find_import_func after info.mod_name info.member_name ≡ some p)
      × (get_import_name_from_func after p ≡ ok (some (new_import info (kind_func p))))
unfolding find_import_func get_import_name_from_func is_import
find_import_func-add_import_func m info sig w room =
    let (after, p, decl, e, w', funcs, imports, _, _, _) =
      add_import_func-WellFormed m info sig w room in
    let first = front-found after p decl m.funcs funcs in
    let counted : 0 < after.imports.num_funcs =
      omega (
        arith,
        w'.funcs.counted,
        ap (λ (l : List ImportDecl). length (of_kind as_func l)) imports,
      ) in
    let (found, named) = import-front info p m.imports.list after.imports.num_funcs counted in
    let imported : ltb 0 after.imports.num_funcs ≡ true = ground arith in
    (
      after,
      p,
      e,
      first,
      rw (first, imported) refl,
      rw imports found,
      rw (is_import, first, imported, imports, named) refl,
    )

last-found :
    (l : List DebugNameAssoc) (p : Ptr) (name : List ℕ) (n : ℕ)
    → n ≤ p
    → All (λ d. d.func < n) l
    → name_of_func (l ++ record { func = p; name = name } ∷ []) p ≡ some name
unfolding name_of_func
last-found [] p name n h all = rw ((==_iff p p).1 refl) refl
last-found (d ∷ l) p name n h (old, all) =
    let other : d.func == p ≡ false = ground (arith, old) in
    rw (other, last-found l p name n h all) refl

-- A function added to a well-formed module with debug names is found in them under its name, where
-- the names that were there are of functions that the module has had.
pub get_debug_name_from_func-add_func :
    (m : WasmModule) (func : FuncDecl) (sig : SigDecl) (export_name : Option (List ℕ))
    (name : List ℕ) (l : List DebugNameAssoc)
    → WellFormed m
    → debug_names m ≡ ok (some l)
    → All (λ d. d.func < m.next_id) l
    → (after : WasmModule) × (p : Ptr) × (add_func m func sig export_name (some name)
        ≡ ok (p, after))
      × (get_debug_name_from_func after p ≡ ok (true, name))
unfolding get_debug_name_from_func
get_debug_name_from_func-add_func m func sig export_name name l w names old =
    let (after, p, decl, e, _, _, _, fresh, _, _, named) =
      add_func-shape m func sig export_name name w in
    (after, p, e, rw (named l names, last-found l p name m.next_id fresh old) refl)
