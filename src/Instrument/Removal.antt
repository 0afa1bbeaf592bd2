-- ===== src/Instrument/Removal.antt =====
-- Theorems on remove_func of src/instrument.cpp, and the lemmas on lists that they need.
use wasm_instrument.Prelude.{
  ℕ, zero, suc, ◌-◌, ◌≤◌, ◌<◌, ◌≡◌, ◌≢◌, ◌⊎◌, inl, inr, refl, sym, ap, ◌∙◌, true, false, Bool-cases,
  List, [], ◌∷◌, ◌++◌, Option-cases, none, some, length, get_elem?, All, ltb, leb, ◌==◌, ==_iff,
  arith,
}
use wasm_instrument.Prelude.Result.{Result, ok, throw, element_not_found}
use wasm_instrument.Ir.{
  Node, Ptr, Descriptor, kind_func, kind_table, kind_memory, kind_global, ImportDecl, WasmModule,
}
use wasm_instrument.Ir.Access.{
  ids, index_of, elem_ptr, elem_ptr-index_of, index_of-lt, get_func_idx, get_list_idx,
}
use wasm_instrument.Instrument.Lookup.{as_func, as_table, as_memory, as_global}
use wasm_instrument.Instrument.Remove.{
  erase_at, erase_import, erase_name, erase_func, remove_func_core, remove_func,
}
use wasm_instrument.Instrument.Spaces.{
  of_kind, Distinct, WellFormed, Space-erase_import, Space-erase_defined, ids-erase_at,
}
use wasm_instrument.Instrument.Additions.{with_names-total}

pub same-some : (p q : Ptr) → some p ≡ some q → p ≡ q
same-some p q h = ground arith

pub all-get {ℓ} :
    (P : Ptr → Type ℓ) (ps : List Ptr) (i p : ℕ) → All P ps → get_elem? ps i ≡ some p → P p
all-get P [] i p all h = cc
all-get P (q ∷ ps) zero p (first, others) h = rw (same-some q p h) at first
all-get P (q ∷ ps) (suc i) p (first, others) h = all-get P ps i p others h

-- What the other kinds' imports point at.
record SameOthers (l l' : List ImportDecl) : Type 0 where
  tables : of_kind as_table l' ≡ of_kind as_table l
  mems : of_kind as_memory l' ≡ of_kind as_memory l
  globals : of_kind as_global l' ≡ of_kind as_global l

-- The first import of the function is erased, and it is the one that its index counts to.
Erased : List ImportDecl → Ptr → Type 0
Erased l p =
    (i : ℕ)
    → get_elem? (of_kind as_func l) i ≡ some p
    → Distinct (of_kind as_func l)
    → (after : List ImportDecl) × (erase_import l p ≡ some after)
      × (of_kind as_func after ≡ erase_at (of_kind as_func l) i)
      × SameOthers l after

Erased-cons :
    (a b : List ℕ) (d : Descriptor) (l : List ImportDecl) (p : Ptr)
    → Erased l p
    → Erased (record { mod_name = a; member_name = b; desc = d } ∷ l) p
unfolding Erased erase_import erase_at
Erased-cons a b (kind_func q) l p later zero h (apart, d) =
    let here : q == p ≡ true = (==_iff q p).1 (same-some q p h) in
    (l, rw here refl, refl, record { tables = refl; mems = refl; globals = refl })
Erased-cons a b (kind_func q) l p later (suc i) h (apart, d) =
    let (after, e, same, o) = later i h d in
    elim (Bool-cases (q == p)) [
      | inl here ↦
          absurd (all-get (λ r. q ≢ r) (of_kind as_func l) i p apart h ((==_iff q p).0 here))
      | inr other ↦ (
        record { mod_name = a; member_name = b; desc = kind_func q } ∷ after,
        rw (other, e) refl,
        ap (◌∷◌ q) same,
        record { tables = o.tables; mems = o.mems; globals = o.globals },
      )
    ]
Erased-cons a b (kind_table q) l p later i h d =
    let (after, e, same, o) = later i h d in
    (
      record { mod_name = a; member_name = b; desc = kind_table q } ∷ after,
      rw e refl,
      same,
      record { tables = ap (◌∷◌ q) o.tables; mems = o.mems; globals = o.globals },
    )
Erased-cons a b (kind_memory q) l p later i h d =
    let (after, e, same, o) = later i h d in
    (
      record { mod_name = a; member_name = b; desc = kind_memory q } ∷ after,
      rw e refl,
      same,
      record { tables = o.tables; mems = ap (◌∷◌ q) o.mems; globals = o.globals },
    )
Erased-cons a b (kind_global q) l p later i h d =
    let (after, e, same, o) = later i h d in
    (
      record { mod_name = a; member_name = b; desc = kind_global q } ∷ after,
      rw e refl,
      same,
      record { tables = o.tables; mems = o.mems; globals = ap (◌∷◌ q) o.globals },
    )

erase_import-of_kind : (l : List ImportDecl) (p : Ptr) → Erased l p
unfolding Erased
erase_import-of_kind [] p = λ i h d. absurd (missing h)
  where
    missing : none ≡ some p → ⊥
    missing h = cc
erase_import-of_kind (x ∷ l) p =
    Erased-cons x.mod_name x.member_name x.desc l p (erase_import-of_kind l p)

pub elem_ptr-ids {ℓ} :
    {A : Type ℓ} (ns : List (Node A)) (i p : ℕ)
    → elem_ptr ns i ≡ some p
    → get_elem? (ids ns) i ≡ some p
unfolding elem_ptr
elem_ptr-ids [] i p h = cc
elem_ptr-ids (n ∷ ns) zero p h = h
elem_ptr-ids (n ∷ ns) (suc i) p h = elem_ptr-ids ns i p h

get_elem?-front :
    (is ts : List Ptr) (i : ℕ) → i < length is → get_elem? (is ++ ts) i ≡ get_elem? is i
get_elem?-front [] ts i h = absurd (omega arith)
get_elem?-front (p ∷ is) ts zero h = refl
get_elem?-front (p ∷ is) ts (suc i) h = get_elem?-front is ts i (omega arith)

All-front {ℓ} : (P : Ptr → Type ℓ) (is ts : List Ptr) → All P (is ++ ts) → All P is
All-front P [] ts all = tt
All-front P (p ∷ is) ts (first, others) = (first, All-front P is ts others)

Distinct-front : (is ts : List Ptr) → Distinct (is ++ ts) → Distinct is
Distinct-front [] ts d = tt
Distinct-front (p ∷ is) ts (apart, d) = (All-front (λ q. p ≢ q) is ts apart, Distinct-front is ts d)

-- Where a function of an imported index stands, its import is erased.
import-erased :
    (m : WasmModule) (func : Ptr) (i : ℕ)
    → WellFormed m
    → elem_ptr m.funcs i ≡ some func
    → i < m.imports.num_funcs
    → (after : List ImportDecl) × (erase_import m.imports.list func ≡ some after)
      × (of_kind as_func after ≡ erase_at (of_kind as_func m.imports.list) i)
      × SameOthers m.imports.list after
unfolding Erased
import-erased m func i w here imported =
    let is = of_kind as_func m.imports.list in
    let ts = w.funcs.defined in
    let all_ids : get_elem? (is ++ ts) i ≡ some func =
      rw w.funcs.imports_first at (elem_ptr-ids m.funcs i func here) in
    erase_import-of_kind m.imports.list func i
      (sym (get_elem?-front is ts i (omega (arith, w.funcs.counted))) ∙ all_ids)
      (Distinct-front is ts (rw w.funcs.imports_first at w.funcs.distinct))

pub get_func_idx-index_of :
    (m : WasmModule) (p i : ℕ) → get_func_idx m p ≡ ok i → index_of m.funcs p ≡ some i
unfolding get_func_idx get_list_idx
get_func_idx-index_of m p i h = elim (Option-cases (index_of m.funcs p)) [
  | inl e ↦ absurd (never (rw e at h))
  | inr (j, e) ↦ e ∙ ap some (same-ok j i (rw e at h))
]
  where
    missing : Result ℕ
    missing = throw element_not_found

    never : missing ≡ ok i → ⊥
    never h = cc

    same-ok : (j i : ℕ) → ok j ≡ ok i → j ≡ i
    same-ok j i h = ground arith

-- A function that a well-formed module has is removed: the call returns true, and the function's
-- place in the list, and an imported function's import, are closed up; the module stays well-
-- formed.
pub remove_func-WellFormed :
    (m : WasmModule) (func : Ptr) (i : ℕ)
    → WellFormed m
    → get_func_idx m func ≡ ok i
    → (after : WasmModule) × (remove_func m func ≡ ok (true, after))
      × WellFormed after
      × (after.funcs ≡ erase_at m.funcs i)
      × (((i < m.imports.num_funcs)
            × (of_kind as_func after.imports.list ≡ erase_at (of_kind as_func m.imports.list) i))
          ⊎ ((m.imports.num_funcs ≤ i) × (after.imports ≡ m.imports)))
unfolding remove_func remove_func_core erase_func
remove_func-WellFormed m func i w h =
    let e = get_func_idx-index_of m func i h in
    let here = elem_ptr-index_of m.funcs func i e in
    let inside : leb (length m.funcs) i ≡ false = ground (arith, index_of-lt m.funcs func i e) in
    elim (Bool-cases (ltb i m.imports.num_funcs)) [
      | inl imported ↦
          let (l, gone, same, others) = import-erased m func i w here (ground arith) in
          let m1 : WasmModule = record m {
            imports = record m.imports { list = l; num_funcs = m.imports.num_funcs - 1 };
          } in
          let (cs, named, found, _) = with_names-total (erase_name func) m1 w.names in
          (
            record m1 { customs = cs; funcs = erase_at m.funcs i },
            rw (remove_func, h, remove_func_core, inside, here, imported, gone, erase_func, named)
                refl,
            record {
              funcs =
                  rw (ids-erase_at m.funcs i, same) (Space-erase_import i (ground arith) w.funcs);
              tables = rw others.tables w.tables;
              mems = rw others.mems w.mems;
              globals = rw others.globals w.globals;
              names = found;
            },
            refl,
            inl (ground arith, same),
          )
      | inr defined ↦
          let (cs, named, found, _) = with_names-total (erase_name func) m w.names in
          (
            record m { customs = cs; funcs = erase_at m.funcs i },
            rw (remove_func, h, remove_func_core, inside, here, defined, erase_func, named) refl,
            record {
              funcs = rw (ids-erase_at m.funcs i) (Space-erase_defined i (ground arith) w.funcs);
              tables = w.tables;
              mems = w.mems;
              globals = w.globals;
              names = found;
            },
            refl,
            inr (ground arith, refl),
          )
    ]
