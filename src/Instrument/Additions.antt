-- ===== src/Instrument/Additions.antt =====
-- Theorems on add_func and the import of a function, of src/instrument.cpp.
use wasm_instrument.Prelude.{
  ℕ, zero, suc, ◌+◌, ◌%◌, ◌^◌, ◌≤◌, ◌<◌, ◌≡◌, inl, inr, refl, ap, List, [], ◌∷◌, ◌++◌, Option,
  Option-cases, none, some, length, get_elem?, arith, false,
}
use wasm_instrument.Prelude.Result.{ok}
use wasm_instrument.Ir.{
  Node, kind_func, Ptr, SigDecl, FuncDecl, ExportDecl, CustomDecl, DebugNameAssoc, ImportInfo,
  WasmModule, Descriptor,
}
use wasm_instrument.Instrument.{
  push_back, push_front, new_import, find_sig, add_sig, add_export, export_if, add_func,
  change_names, with_names, add_import_func,
}
use wasm_instrument.Instrument.Lookup.{debug_names}
use wasm_instrument.Instrument.Spaces.{NamesFound, WellFormed, Space-front, Space-later, Space-back}

change_names-total :
    (f : List DebugNameAssoc → List DebugNameAssoc) (i : ℕ) (cs : List CustomDecl)
    → i < length cs
    → (after : List CustomDecl) × (change_names f i cs ≡ ok after)
      × (length after ≡ length cs)
      × (c : CustomDecl) × (get_elem? cs i ≡ some c)
      × (get_elem? after i
          ≡ some (record c { debug = record c.debug { func_assoc = f c.debug.func_assoc } }))
unfolding change_names
change_names-total f i [] h = absurd (omega arith)
change_names-total f zero (c ∷ cs) h = (_, refl, refl, c, refl, refl)
change_names-total f (suc i) (c ∷ cs) h =
    let (after, e, same, d, was, is) = change_names-total f i cs (omega arith) in
    (c ∷ after, rw e refl, ap suc same, d, was, is)

-- Where the pointer to the debug names is valid, changing them changes no more than the customs.
pub with_names-total :
    (f : List DebugNameAssoc → List DebugNameAssoc) (m : WasmModule)
    → NamesFound m.fn_names_debug m.customs
    → (after : List CustomDecl) × (with_names f m ≡ ok (record m { customs = after }))
      × NamesFound m.fn_names_debug after
      × ((l : List DebugNameAssoc)
          → debug_names m ≡ ok (some l)
          → debug_names (record m { customs = after }) ≡ ok (some (f l)))
unfolding with_names debug_names
with_names-total f m (inl e) =
    (m.customs, rw e refl, inl e, λ l h. absurd (no_names l (rw (debug_names, e) at h)))
  where
    no_names : (l : List DebugNameAssoc) → ok none ≡ ok (some l) → ⊥
    no_names l h = cc
with_names-total f m (inr (i, e, h)) =
    let (after, changed, same, c, was, is) = change_names-total f i m.customs h in
    (
      after,
      rw (e, changed) refl,
      inr (i, e, omega arith),
      λ l known.
          let names : c.debug.func_assoc ≡ l =
            only l c.debug.func_assoc (rw (debug_names, e, was) at known) in
          rw (debug_names, e, is, names) refl,
    )
  where
    only : (l k : List DebugNameAssoc) → ok (some k) ≡ ok (some l) → k ≡ l
    only l k h = ground arith

-- Finding or making a signature changes no more than the signatures and the next number.
add_sig-shape :
    (m : WasmModule) (sig : SigDecl)
    → (p : Ptr) × (sigs : List (Node SigDecl)) × (next : ℕ) × (add_sig m sig false
        ≡ (p, record m { sigs = sigs; next_id = next }))
      × (m.next_id ≤ next)
unfolding add_sig
add_sig-shape m sig = elim (Option-cases (find_sig m.sigs sig)) [
  | inl e ↦
      (m.next_id, push_back m.sigs m.next_id sig, m.next_id + 1, rw (add_sig, e) refl, omega arith)
  | inr (p, e) ↦ (p, m.sigs, m.next_id, rw (add_sig, e) refl, omega arith)
]

export_if-shape :
    (name : Option (List ℕ)) (desc : Descriptor) (m : WasmModule)
    → (es : List ExportDecl) × (export_if name desc m ≡ record m { exports = es })
unfolding export_if add_export
export_if-shape none desc m = (m.exports, refl)
export_if-shape (some name) desc m = (_, refl)

-- Another list of custom sections, into which the pointer to the debug names is valid.
with_customs :
    (m : WasmModule) (cs : List CustomDecl)
    → WellFormed m
    → NamesFound m.fn_names_debug cs
    → WellFormed (record m { customs = cs })
with_customs m cs w found = record {
  funcs = w.funcs;
  tables = w.tables;
  mems = w.mems;
  globals = w.globals;
  names = found;
}

-- A function with a signature and nothing else.
abbrev pub bodiless : Ptr → FuncDecl
bodiless sig = record {
  sig = sig;
  pure_locals = [];
  num_pure_locals = 0;
  code_bytes = [];
  instructions = [];
}

-- Importing a function into a well-formed module succeeds while the count of imported functions
-- fits 32 bits, and keeps the module well-formed. The import and the function stand first in their
-- lists, under one new number, and the other functions and imports stand behind them as they were.
-- The function has the signature that add_sig gives, no locals and no code; the signatures are those
-- behind add_sig.
pub add_import_func-WellFormed :
    (m : WasmModule) (info : ImportInfo) (sig : SigDecl)
    → WellFormed m
    → m.imports.num_funcs + 1 < 2 ^ 32
    → (after : WasmModule) × (p : Ptr) × (decl : FuncDecl) × (add_import_func m info sig ≡ ok after)
      × WellFormed after
      × (after.funcs ≡ record { id = p; decl = decl } ∷ m.funcs)
      × (after.imports.list ≡ new_import info (kind_func p) ∷ m.imports.list)
      × (m.next_id ≤ p)
      × (decl ≡ bodiless (add_sig m sig false).0)
      × (after.sigs ≡ (add_sig m sig false).1.sigs)
unfolding add_import_func
add_import_func-WellFormed m info sig w room =
    let (s, sigs, next, shape, later) = add_sig-shape m sig in
    let decl : FuncDecl = bodiless s in
    let m1 : WasmModule = record m {
      sigs = sigs;
      funcs = push_front m.funcs next decl;
      imports = record m.imports {
        list = new_import info (kind_func next) ∷ m.imports.list;
        num_funcs = (m.imports.num_funcs + 1) % 2 ^ 32;
      };
      next_id = next + 1;
    } in
    let w1 : WellFormed m1 = record {
      funcs = Space-front room (Space-later later w.funcs);
      tables = Space-later (omega arith) w.tables;
      mems = Space-later (omega arith) w.mems;
      globals = Space-later (omega arith) w.globals;
      names = w.names;
    } in
    let (cs, named, found, _) =
      with_names-total (λ l. record { func = next; name = info.member_name } ∷ l) m1 w.names in
    (
      record m1 { customs = cs },
      next,
      decl,
      rw (add_import_func, shape) named,
      with_customs m1 cs w1 found,
      refl,
      refl,
      later,
      rw shape refl,
      rw shape refl,
    )

-- What add_func does, with the debug names after it.
pub add_func-shape :
    (m : WasmModule) (func : FuncDecl) (sig : SigDecl) (export_name : Option (List ℕ))
    (name : List ℕ)
    → WellFormed m
    → (after : WasmModule) × (p : Ptr) × (decl : FuncDecl) × (add_func m func sig export_name
          (some name)
        ≡ ok (p, after))
      × WellFormed after
      × (after.funcs ≡ m.funcs ++ record { id = p; decl = decl } ∷ [])
      × (after.imports ≡ m.imports)
      × (m.next_id ≤ p)
      × (decl ≡ record func { sig = (add_sig m sig false).0 })
      × (after.sigs ≡ (add_sig m sig false).1.sigs)
      × ((l : List DebugNameAssoc)
          → debug_names m ≡ ok (some l)
          → debug_names after ≡ ok (some (l ++ record { func = p; name = name } ∷ [])))
unfolding add_func debug_names
add_func-shape m func sig export_name name w =
    let (s, sigs, next, shape, later) = add_sig-shape m sig in
    let decl : FuncDecl = record func { sig = s } in
    let m1 : WasmModule = record m {
      sigs = sigs;
      funcs = push_back m.funcs next decl;
      next_id = next + 1;
    } in
    let (es, exported) = export_if-shape export_name (kind_func next) m1 in
    let m2 : WasmModule = record m1 { exports = es } in
    let w2 : WellFormed m2 = record {
      funcs = Space-back m.funcs decl (Space-later later w.funcs);
      tables = Space-later (omega arith) w.tables;
      mems = Space-later (omega arith) w.mems;
      globals = Space-later (omega arith) w.globals;
      names = w.names;
    } in
    let (cs, named, found, names) =
      with_names-total (λ l. l ++ record { func = next; name = name } ∷ []) m2 w.names in
    (
      record m2 { customs = cs },
      next,
      decl,
      rw (add_func, shape, exported, named) refl,
      with_customs m2 cs w2 found,
      refl,
      refl,
      later,
      rw shape refl,
      rw shape refl,
      names,
    )

-- Adding a function with a debug name to a well-formed module succeeds and keeps it so. The
-- function stands last, under a new number; the functions before it and the imports are as they
-- were. It is the given function with the signature that add_sig gives, and the signatures are those
-- behind add_sig.
pub add_func-WellFormed :
    (m : WasmModule) (func : FuncDecl) (sig : SigDecl) (export_name : Option (List ℕ))
    (name : List ℕ)
    → WellFormed m
    → (after : WasmModule) × (p : Ptr) × (decl : FuncDecl) × (add_func m func sig export_name
          (some name)
        ≡ ok (p, after))
      × WellFormed after
      × (after.funcs ≡ m.funcs ++ record { id = p; decl = decl } ∷ [])
      × (after.imports ≡ m.imports)
      × (m.next_id ≤ p)
      × (decl ≡ record func { sig = (add_sig m sig false).0 })
      × (after.sigs ≡ (add_sig m sig false).1.sigs)
add_func-WellFormed m func sig export_name name w =
    let (after, p, decl, e, w', funcs, imports, fresh, content, sigs, _) =
      add_func-shape m func sig export_name name w in
    (after, p, decl, e, w', funcs, imports, fresh, content, sigs)
