-- ===== src/Witness/Modules.antt =====
-- Runs of the instrumentation primitives on the sample module.
use wasm_instrument.Prelude.{
  ◌+◌, ◌-◌, ◌≤◌, ◌<◌, ◌≡◌, ◌≢◌, ◌⊎◌, refl, true, false, All, List, [], ◌∷◌, ◌++◌, none, some, arith,
  ltb, if◌then◌else◌,
}
use wasm_instrument.Prelude.Result.{ok}
use wasm_instrument.Ir.{ExportDecl, Ptr, FuncDecl, ImportInfo, kind_func, WasmModule}
use wasm_instrument.Ir.Access.{
  get_list_idx, get_list_elem, index_of, elem_ptr, get_func, get_func_idx, is_import,
}
use wasm_instrument.Instrument.{
  push_back, add_sig, new_import, add_import_func, add_import_global, add_import_table,
  add_import_memory, add_global, add_table, add_memory, add_func,
}
use wasm_instrument.Instrument.Lookup.{
  raw, is_func_export, main_name, start_name, find_export, get_main_fn, as_func, debug_names,
  find_import_func, get_import_name_from_func, get_debug_name_from_func,
}
use wasm_instrument.Instrument.Remove.{erase_at, remove_func, remove_func_at}
use wasm_instrument.Instrument.Spaces.{of_kind, WellFormed}
use wasm_instrument.Instrument.Fields.{add_field-WellFormed, add_import-WellFormed}
use wasm_instrument.Instrument.Additions.{bodiless, add_import_func-WellFormed, add_func-WellFormed}
use wasm_instrument.Instrument.Removal.{remove_func-WellFormed}
use wasm_instrument.Instrument.Indices.{
  add_import_func-get_func_idx, add_func-get_func_idx, remove_func-get_func_idx,
  remove_func_at-remove_func,
}
use wasm_instrument.Instrument.Added.{
  find_import_func-add_import_func, get_debug_name_from_func-add_func,
}
use wasm_instrument.Instrument.Found.{
  FirstSig, add_sig-FirstSig, find_export-first, get_main_fn-cases,
}
use wasm_instrument.Witness.Sample.{limits, binary_sig, body, names, sample, sample-WellFormed}

abbrev exit_info : ImportInfo
exit_info = record { mod_name = 119 ∷ []; member_name = 120 ∷ [] }

first_idx : get_func_idx sample 2 ≡ ok 0
unfolding get_func_idx get_list_idx index_of
first_idx = refl

second_idx : get_func_idx sample 3 ≡ ok 1
unfolding get_func_idx get_list_idx index_of
second_idx = refl

second_func : get_func sample 1 ≡ ok 3
unfolding get_func get_list_elem elem_ptr
second_func = refl

sample_names : debug_names sample ≡ ok (some names)
unfolding debug_names
sample_names = refl

add_field-WellFormed_example :
    WellFormed
      (add_global sample
        (record { type = 0x7f; is_mutable = 1; init_expr_bytes = 0x0b ∷ [] })
        (some (103 ∷ []))).1
    × WellFormed (add_table sample (record { reftype = 0x70; limits = limits }) (some (103 ∷ []))).1
    × WellFormed (add_memory sample (record { limits = limits }) (some (103 ∷ []))).1
add_field-WellFormed_example =
    add_field-WellFormed sample
      (record { type = 0x7f; is_mutable = 1; init_expr_bytes = 0x0b ∷ [] })
      (record { reftype = 0x70; limits = limits }) (record { limits = limits }) (some (103 ∷ []))
      sample-WellFormed

add_import-WellFormed_example :
    WellFormed (add_import_global sample exit_info (record { type = 0x7f; is_mutable = 0 }))
    × WellFormed (add_import_table sample exit_info (record { reftype = 0x70; limits = limits }))
    × WellFormed (add_import_memory sample exit_info (record { limits = limits }))
add_import-WellFormed_example =
    add_import-WellFormed sample exit_info (record { type = 0x7f; is_mutable = 0 })
      (record { reftype = 0x70; limits = limits }) (record { limits = limits }) sample-WellFormed
      (omega arith) (omega arith) (omega arith)

add_import_func-WellFormed_example :
    (after : WasmModule) × (p : Ptr) × (decl : FuncDecl) × (add_import_func sample exit_info
        binary_sig
      ≡ ok after)
    × WellFormed after
    × (after.funcs ≡ record { id = p; decl = decl } ∷ sample.funcs)
    × (after.imports.list ≡ new_import exit_info (kind_func p) ∷ sample.imports.list)
    × (sample.next_id ≤ p)
    × (decl ≡ bodiless (add_sig sample binary_sig false).0)
    × (after.sigs ≡ (add_sig sample binary_sig false).1.sigs)
add_import_func-WellFormed_example =
    add_import_func-WellFormed sample exit_info binary_sig sample-WellFormed (omega arith)

add_func-WellFormed_example :
    (after : WasmModule) × (p : Ptr) × (decl : FuncDecl) × (add_func sample body binary_sig none
        (some (98 ∷ []))
      ≡ ok (p, after))
    × WellFormed after
    × (after.funcs ≡ sample.funcs ++ record { id = p; decl = decl } ∷ [])
    × (after.imports ≡ sample.imports)
    × (sample.next_id ≤ p)
    × (decl ≡ record body { sig = (add_sig sample binary_sig false).0 })
    × (after.sigs ≡ (add_sig sample binary_sig false).1.sigs)
add_func-WellFormed_example =
    add_func-WellFormed sample body binary_sig none (98 ∷ []) sample-WellFormed

remove_func-WellFormed_example :
    (after : WasmModule) × (remove_func sample 2 ≡ ok (true, after))
    × WellFormed after
    × (after.funcs ≡ erase_at sample.funcs 0)
    × (((0 < sample.imports.num_funcs)
          × (of_kind as_func after.imports.list ≡ erase_at (of_kind as_func sample.imports.list) 0))
        ⊎ ((sample.imports.num_funcs ≤ 0) × (after.imports ≡ sample.imports)))
remove_func-WellFormed_example = remove_func-WellFormed sample 2 0 sample-WellFormed first_idx

add_import_func-get_func_idx_example :
    (after : WasmModule) × (add_import_func sample exit_info binary_sig ≡ ok after)
    × (get_func_idx after 3 ≡ ok (1 + 1))
add_import_func-get_func_idx_example =
    add_import_func-get_func_idx sample exit_info binary_sig 3 1 sample-WellFormed (omega arith)
      second_idx

add_func-get_func_idx_example :
    (after : WasmModule) × (p : Ptr) × (add_func sample body binary_sig none (some (98 ∷ []))
      ≡ ok (p, after))
    × (get_func_idx after 3 ≡ ok 1)
add_func-get_func_idx_example =
    add_func-get_func_idx sample body binary_sig none (98 ∷ []) 3 1 sample-WellFormed second_idx

remove_func-get_func_idx_example :
    (after : WasmModule) × (remove_func sample 2 ≡ ok (true, after))
    × (get_func_idx after 3 ≡ ok (if ltb 1 0 then 1 else 1 - 1))
remove_func-get_func_idx_example =
    remove_func-get_func_idx sample 2 3 0 1 sample-WellFormed first_idx second_idx
      (λ e. omega arith)

remove_func_at-remove_func_example : remove_func_at sample 1 ≡ remove_func sample 3
remove_func_at-remove_func_example =
    remove_func_at-remove_func sample 1 3 sample-WellFormed second_func

find_import_func-add_import_func_example :
    (after : WasmModule) × (p : Ptr) × (add_import_func sample exit_info binary_sig ≡ ok after)
    × (get_func_idx after p ≡ ok 0)
    × (is_import after p ≡ ok true)
    × (find_import_func after exit_info.mod_name exit_info.member_name ≡ some p)
    × (get_import_name_from_func after p ≡ ok (some (new_import exit_info (kind_func p))))
find_import_func-add_import_func_example =
    find_import_func-add_import_func sample exit_info binary_sig sample-WellFormed (omega arith)

get_debug_name_from_func-add_func_example :
    (after : WasmModule) × (p : Ptr) × (add_func sample body binary_sig none (some (98 ∷ []))
      ≡ ok (p, after))
    × (get_debug_name_from_func after p ≡ ok (true, 98 ∷ []))
get_debug_name_from_func-add_func_example =
    get_debug_name_from_func-add_func sample body binary_sig none (98 ∷ []) names sample-WellFormed
      sample_names (omega arith, tt)

add_sig-FirstSig_example :
    ((p : Ptr) × (add_sig sample binary_sig false ≡ (p, sample))
      × FirstSig sample.sigs binary_sig p)
    ⊎ (All (λ o. o.decl ≢ binary_sig) sample.sigs
        × (add_sig sample binary_sig false ≡ (
          sample.next_id,
          record sample {
            sigs = push_back sample.sigs sample.next_id binary_sig;
            next_id = sample.next_id + 1;
          },
        )))
add_sig-FirstSig_example = add_sig-FirstSig sample binary_sig

find_export-first_example :
    ((find_export sample main_name ≡ none) × All (λ e. e.name ≢ main_name) sample.exports)
    ⊎ ((before : List ExportDecl) × (e : ExportDecl) × (behind : List ExportDecl) × (find_export
            sample main_name
          ≡ some e)
        × (sample.exports ≡ before ++ e ∷ behind)
        × (e.name ≡ main_name)
        × All (λ o. o.name ≢ main_name) before)
find_export-first_example = find_export-first sample main_name

get_main_fn-cases_example :
    ((get_main_fn sample ≡ none)
      × (is_func_export (find_export sample main_name) ≡ false)
      × (is_func_export (find_export sample start_name) ≡ false))
    ⊎ (((e : ExportDecl) × (find_export sample start_name ≡ some e)
          × (get_main_fn sample ≡ some (raw e.desc))
          × ((is_func_export (some e) ≡ true)
              ⊎ (is_func_export (find_export sample main_name) ≡ true)))
        ⊎ ((e : ExportDecl) × (p : Ptr) × (find_export sample start_name ≡ none)
            × (find_export sample main_name ≡ some e)
            × (as_func e.desc ≡ some p)
            × (get_main_fn sample ≡ some p)))
get_main_fn-cases_example = get_main_fn-cases sample
