-- ===== src/Instrument/Remove.antt =====
-- remove_func_core and the two remove_func of src/instrument.cpp.
use wasm_instrument.Prelude.{
  ℕ, zero, suc, ◌-◌, Bool, true, false, List, [], ◌∷◌, Option, none, some, ◌==◌, ltb, leb,
  if◌then◌else◌, length,
}
use wasm_instrument.Prelude.Result.{Result, ok, ◌>>=◌, deref}
use wasm_instrument.Ir.{Ptr, DebugNameAssoc, ImportDecl, WasmModule}
use wasm_instrument.Ir.Access.{elem_ptr, get_func, get_func_idx}
use wasm_instrument.Instrument.{with_names}
use wasm_instrument.Instrument.Lookup.{as_func}

-- The list without its element at an index.
unfoldable pub erase_at {ℓ} : {A : Type ℓ} → List A → ℕ → List A
erase_at [] i = []
erase_at (x ∷ xs) zero = xs
erase_at (x ∷ xs) (suc i) = x ∷ erase_at xs i

abbrev keep_import : ImportDecl → Option (List ImportDecl) → Option (List ImportDecl)
keep_import i none = none
keep_import i (some l) = some (i ∷ l)

-- The list without the first import of the function, if there is one.
unfoldable pub erase_import : List ImportDecl → Ptr → Option (List ImportDecl)
erase_import [] func = none
erase_import (i ∷ is) func =
    let other = keep_import i (erase_import is func) in
    elim (as_func i.desc) [ some p ↦ if p == func then some is else other | none ↦ other ]

-- The list without the first name of the function.
unfoldable pub erase_name : Ptr → List DebugNameAssoc → List DebugNameAssoc
erase_name func [] = []
erase_name func (d ∷ ds) = if d.func == func then ds else d ∷ erase_name func ds

-- The function's debug name and the function go.
unfoldable pub erase_func : WasmModule → ℕ → Ptr → Result (Bool × WasmModule)
unfolding erase_at erase_name with_names
erase_func m idx func = do
  m1 ← with_names (erase_name func) m
  ok (true, record m1 { funcs = erase_at m1.funcs idx })

-- `false` and the module as it was, where the index or the import is not found. The comparison of
-- an erased iterator with the end is false.
unfoldable pub remove_func_core : WasmModule → ℕ → Ptr → Result (Bool × WasmModule)
unfolding erase_import erase_func
remove_func_core m idx func =
    if leb (length m.funcs) idx
    then ok (false, m)
    else deref (elem_ptr m.funcs idx) >>= λ itr.
        if ltb idx m.imports.num_funcs
        then elim (erase_import m.imports.list itr) [
          | none ↦ ok (false, m)
          | some l ↦
              erase_func
                (record m {
                  imports = record m.imports { list = l; num_funcs = m.imports.num_funcs - 1 };
                })
                idx func
        ]
        else erase_func m idx func

-- remove_func (uint32_t): the function is fetched before its index is tested.
unfoldable pub remove_func_at : WasmModule → ℕ → Result (Bool × WasmModule)
unfolding remove_func_core
remove_func_at m idx = do func ← get_func m idx; remove_func_core m idx func

-- remove_func (FuncDecl *)
unfoldable pub remove_func : WasmModule → Ptr → Result (Bool × WasmModule)
unfolding remove_func_core
remove_func m func = do idx ← get_func_idx m func; remove_func_core m idx func
