-- ===== src/Instrument/Found.antt =====
-- Theorems on add_sig and find_export of src/instrument.cpp and get_main_fn of src/methods.cpp.
use wasm_instrument.Prelude.{
  ℕ, ◌+◌, ◌≡◌, ◌≢◌, ◌⊎◌, inl, inr, refl, sym, ap, ◌∙◌, true, false, Bool-cases, &&-true, List, [],
  ◌∷◌, ◌++◌, Option, none, some, All, same, same-≡, same_refl,
}
use wasm_instrument.Ir.{
  Node, Ptr, SigDecl, kind_func, kind_table, kind_memory, kind_global, Descriptor, ExportDecl,
  WasmModule,
}
use wasm_instrument.Instrument.{push_back, same_sig, find_sig, add_sig}
use wasm_instrument.Instrument.Lookup.{
  find_export_in, find_export, as_func, raw, is_func_export, choose_main, get_main_fn, main_name,
  start_name,
}

same-other : (xs ys : List ℕ) → same xs ys ≡ false → xs ≢ ys
same-other xs ys h e = absurd (clash (sym (same_refl xs) ∙ (ap (same xs) e ∙ h)))
  where
    clash : true ≡ false → ⊥
    clash h = cc

same_sig-≡ : (s t : SigDecl) → same_sig s t ≡ true → s ≡ t
unfolding same_sig
same_sig-≡ s t h =
    let (ps, rs) = &&-true (same s.params t.params) (same s.results t.results) h in
    rw (same-≡ s.params t.params ps, same-≡ s.results t.results rs) refl

same_sig_refl : (s : SigDecl) → same_sig s s ≡ true
unfolding same_sig
same_sig_refl s = rw (same_refl s.params, same_refl s.results) refl

same_sig-other : (s t : SigDecl) → same_sig s t ≡ false → s ≢ t
same_sig-other s t h e = absurd (clash (sym (same_sig_refl s) ∙ (ap (same_sig s) e ∙ h)))
  where
    clash : true ≡ false → ⊥
    clash h = cc

-- The signature stands at the node, and no earlier node has it.
pub FirstSig : List (Node SigDecl) → SigDecl → Ptr → Type 0
FirstSig sigs sig p =
    (before : List (Node SigDecl)) × (n : Node SigDecl) × (behind : List (Node SigDecl)) × (sigs
      ≡ before ++ n ∷ behind)
    × (n.id ≡ p)
    × (n.decl ≡ sig)
    × All (λ o. o.decl ≢ sig) before

find_sig-first :
    (sigs : List (Node SigDecl)) (sig : SigDecl)
    → ((find_sig sigs sig ≡ none) × All (λ o. o.decl ≢ sig) sigs)
      ⊎ ((p : Ptr) × (find_sig sigs sig ≡ some p) × FirstSig sigs sig p)
unfolding find_sig FirstSig
find_sig-first [] sig = inl (refl, tt)
find_sig-first (n ∷ sigs) sig = elim (Bool-cases (same_sig n.decl sig)) [
  | inl here ↦ inr (n.id, rw here refl, ([], n, sigs, refl, refl, same_sig-≡ n.decl sig here, tt))
  | inr other ↦ elim (find_sig-first sigs sig) [
    | inl (e, all) ↦ inl (rw (other, e) refl, (same_sig-other n.decl sig other, all))
    | inr (p, e, (before, o, behind, split, at_p, is_sig, all)) ↦ inr (
      p,
      rw (other, e) refl,
      (
        n ∷ before,
        o,
        behind,
        ap (◌∷◌ n) split,
        at_p,
        is_sig,
        (same_sig-other n.decl sig other, all),
      ),
    )
  ]
]

-- A signature that is not forced to be a duplicate is the first equal one of the module, which is
-- then unchanged; only where there is none is it put at the end.
pub add_sig-FirstSig :
    (m : WasmModule) (sig : SigDecl)
    → ((p : Ptr) × (add_sig m sig false ≡ (p, m)) × FirstSig m.sigs sig p)
      ⊎ (All (λ o. o.decl ≢ sig) m.sigs
          × (add_sig m sig false ≡ (
            m.next_id,
            record m { sigs = push_back m.sigs m.next_id sig; next_id = m.next_id + 1 },
          )))
unfolding add_sig
add_sig-FirstSig m sig = elim (find_sig-first m.sigs sig) [
  | inl (e, all) ↦ inr (all, rw (add_sig, e) refl)
  | inr (p, e, first) ↦ inl (p, rw (add_sig, e) refl, first)
]

find_export_in-first :
    (es : List ExportDecl) (name : List ℕ)
    → ((find_export_in es name ≡ none) × All (λ e. e.name ≢ name) es)
      ⊎ ((before : List ExportDecl) × (e : ExportDecl) × (behind : List ExportDecl)
          × (find_export_in es name ≡ some e)
          × (es ≡ before ++ e ∷ behind)
          × (e.name ≡ name)
          × All (λ o. o.name ≢ name) before)
unfolding find_export_in
find_export_in-first [] name = inl (refl, tt)
find_export_in-first (e ∷ es) name = elim (Bool-cases (same e.name name)) [
  | inl here ↦ inr ([], e, es, rw here refl, refl, same-≡ e.name name here, tt)
  | inr other ↦ elim (find_export_in-first es name) [
    | inl (missing, all) ↦ inl (rw (other, missing) refl, (same-other e.name name other, all))
    | inr (before, o, behind, found, split, named, all) ↦ inr (
      e ∷ before,
      o,
      behind,
      rw (other, found) refl,
      ap (◌∷◌ e) split,
      named,
      (same-other e.name name other, all),
    )
  ]
]

-- find_export hands back the first export of that name, and NULL only where no export has it.
pub find_export-first :
    (m : WasmModule) (name : List ℕ)
    → ((find_export m name ≡ none) × All (λ e. e.name ≢ name) m.exports)
      ⊎ ((before : List ExportDecl) × (e : ExportDecl) × (behind : List ExportDecl) × (find_export m
              name
            ≡ some e)
          × (m.exports ≡ before ++ e ∷ behind)
          × (e.name ≡ name)
          × All (λ o. o.name ≢ name) before)
unfolding find_export
find_export-first m name = find_export_in-first m.exports name

func-export :
    (e : ExportDecl)
    → (is_func_export (some e) ≡ false)
      ⊎ ((p : Ptr) × (as_func e.desc ≡ some p)
          × (raw e.desc ≡ p)
          × (is_func_export (some e) ≡ true))
func-export e = go e.desc
  where
    go :
        (d : Descriptor)
        → (elim (as_func d) [ none ↦ false | some _ ↦ true ] ≡ false)
          ⊎ ((p : Ptr) × (as_func d ≡ some p)
              × (raw d ≡ p)
              × (elim (as_func d) [ none ↦ false | some _ ↦ true ] ≡ true))
    go (kind_func p) = inr (p, refl, refl, refl)
    go (kind_table p) = inl refl
    go (kind_memory p) = inl refl
    go (kind_global p) = inl refl

choose_main-cases :
    (a b : Option ExportDecl)
    → ((choose_main a b ≡ none) × (is_func_export a ≡ false) × (is_func_export b ≡ false))
      ⊎ (((e : ExportDecl) × (b ≡ some e)
            × (choose_main a b ≡ some (raw e.desc))
            × ((is_func_export (some e) ≡ true) ⊎ (is_func_export a ≡ true)))
          ⊎ ((e : ExportDecl) × (p : Ptr) × (b ≡ none)
              × (a ≡ some e)
              × (as_func e.desc ≡ some p)
              × (choose_main a b ≡ some p)))
unfolding choose_main
choose_main-cases none none = inl (refl, refl, refl)
choose_main-cases none (some e) = elim (func-export e) [
  | inl other ↦ inl (rw other refl, refl, other)
  | inr (p, points, at_p, is_func) ↦ inr (inl (e, refl, rw is_func refl, inl is_func))
]
choose_main-cases (some f) none = elim (func-export f) [
  | inl other ↦ inl (rw other refl, other, refl)
  | inr (p, points, at_p, is_func) ↦ inr (inr (f, p, refl, refl, points, rw is_func (ap some at_p)))
]
choose_main-cases (some f) (some e) = elim (func-export f) [
  | inl other ↦ elim (func-export e) [
    | inl other' ↦ inl (rw (other, other') refl, other, other')
    | inr (p, points, at_p, is_func) ↦ inr (inl (e, refl, rw (other, is_func) refl, inl is_func))
  ]
  | inr (p, points, at_p, is_func) ↦ inr (inl (e, refl, rw is_func refl, inr is_func))
]

-- get_main_fn hands back NULL where neither export is a function; else what the export "_start"
-- points at, whatever its kind, and without such an export the function of "main".
pub get_main_fn-cases :
    (m : WasmModule)
    → ((get_main_fn m ≡ none)
        × (is_func_export (find_export m main_name) ≡ false)
        × (is_func_export (find_export m start_name) ≡ false))
      ⊎ (((e : ExportDecl) × (find_export m start_name ≡ some e)
            × (get_main_fn m ≡ some (raw e.desc))
            × ((is_func_export (some e) ≡ true)
                ⊎ (is_func_export (find_export m main_name) ≡ true)))
          ⊎ ((e : ExportDecl) × (p : Ptr) × (find_export m start_name ≡ none)
              × (find_export m main_name ≡ some e)
              × (as_func e.desc ≡ some p)
              × (get_main_fn m ≡ some p)))
unfolding get_main_fn
get_main_fn-cases m = choose_main-cases (find_export m main_name) (find_export m start_name)
