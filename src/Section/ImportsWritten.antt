-- ===== src/Section/ImportsWritten.antt =====
-- Theorems on encode_import_section of src/encode.cpp.
use wasm_instrument.Prelude.{
  ℕ, suc, ◌+◌, ◌%◌, ◌^◌, ◌≡◌, refl, sym, ap, ◌∙◌, List, [], ◌∷◌, ◌++◌, Option, some, none, true,
  ◌==◌, Bool-cases, ==_iff, ◌⊎◌, false, inl, inr, length, All, arith, if◌then◌else◌,
}
use wasm_instrument.Prelude.Result.{ok}
use wasm_instrument.Leb.{encode_u32leb}
use wasm_instrument.Writer.{encode_name, encode_u8}
use wasm_instrument.Ir.{
  Node, Ptr, FuncDecl, TableDecl, MemoryDecl, GlobalDecl, Descriptor, kind_func, kind_table,
  kind_memory, kind_global, ImportDecl, WasmModule,
}
use wasm_instrument.Ir.Access.{ids, node_at, get_sig_idx}
use wasm_instrument.Inst.Encodable.{Found, U32}
use wasm_instrument.Inst.Indices.{found-idx}
use wasm_instrument.Instrument.Lookup.{as_func, as_table, as_memory, as_global}
use wasm_instrument.Instrument.Spaces.{keep, of_kind, Space, WellFormed}
use wasm_instrument.Section.{write_tabletype, write_memtype}
use wasm_instrument.Section.Encode.{
  write_all, write_vec, write_section, get_num_imports, kind_of, encode_import_desc, encode_import,
  encode_import_section, write_globaltype,
}

-- One import is of one kind.
one_kind :
    (d : Descriptor) (a b c e : List Ptr)
    → length (keep (as_func d) a)
        + length (keep (as_table d) b)
        + length (keep (as_memory d) c)
        + length (keep (as_global d) e)
      ≡ suc (length a + length b + length c + length e)
one_kind (kind_func p) a b c e = omega arith
one_kind (kind_table p) a b c e = omega arith
one_kind (kind_memory p) a b c e = omega arith
one_kind (kind_global p) a b c e = omega arith

length-of_kind :
    (is : List ImportDecl)
    → length (of_kind as_func is)
        + length (of_kind as_table is)
        + length (of_kind as_memory is)
        + length (of_kind as_global is)
      ≡ length is
length-of_kind [] = omega arith
length-of_kind (i ∷ is) =
    one_kind i.desc (of_kind as_func is) (of_kind as_table is) (of_kind as_memory is)
      (of_kind as_global is)
    ∙ ap suc (length-of_kind is)

-- The counts of a well-formed module add up to the number of its imports.
counts-length :
    (m : WasmModule)
    → WellFormed m
    → U32 (length m.imports.list)
    → get_num_imports m.imports ≡ length m.imports.list
counts-length m w few =
    let sum = length-of_kind m.imports.list in
    omega (arith, sum, w.funcs.counted, w.tables.counted, w.mems.counted, w.globals.counted)

-- The address is one of these.
abbrev Among : Ptr → List Ptr → Type 0
Among p [] = ⊥
Among p (q ∷ qs) = (p ≡ q) ⊎ Among p qs

Among-append : (p : Ptr) (ps qs : List Ptr) → Among p ps → Among p (ps ++ qs)
Among-append p [] qs h = absurd h
Among-append p (q ∷ ps) qs (inl e) = inl e
Among-append p (q ∷ ps) qs (inr h) = inr (Among-append p ps qs h)

node_at-Among {ℓ κ} :
    {A : Type ℓ} (P : A → Type κ) (ns : List (Node A)) (p : Ptr)
    → All (λ (n : Node A). P n.decl) ns
    → Among p (ids ns)
    → (a : A) × (node_at ns p ≡ some a) × P a
unfolding node_at
node_at-Among P [] p all h = absurd h
node_at-Among P (n ∷ ns) p (first, others) h = elim (Bool-cases (n.id == p)) [
  | inl same ↦ (n.decl, rw same refl, first)
  | inr other ↦ elim h [
    | inl e ↦ absurd (differ e other)
    | inr h' ↦ let (a, known, holds) = node_at-Among P ns p others h' in (a, rw other known, holds)
  ]
]
  where
    differ : p ≡ n.id → (n.id == p) ≡ false → ⊥
    differ e other = let same : (n.id == p) ≡ true = (==_iff n.id p).1 (sym e) in cc

-- The declaration that an import points at is one of the module, with a signature of the module.
abbrev Stored : WasmModule → Descriptor → Type 0
Stored m (kind_func p) = (f : FuncDecl) × (node_at m.funcs p ≡ some f) × Found m.sigs f.sig
Stored m (kind_table p) = (t : TableDecl) × (node_at m.tables p ≡ some t)
Stored m (kind_memory p) = (t : MemoryDecl) × (node_at m.mems p ≡ some t)
Stored m (kind_global p) = (t : GlobalDecl) × (node_at m.globals p ≡ some t)

-- What the writer needs of one import.
abbrev Reached : WasmModule → Descriptor → Type 0
Reached m (kind_func p) = Among p (ids m.funcs)
Reached m (kind_table p) = Among p (ids m.tables)
Reached m (kind_memory p) = Among p (ids m.mems)
Reached m (kind_global p) = Among p (ids m.globals)

All-Unit {ℓ} : {A : Type ℓ} (ns : List (Node A)) → All (λ (n : Node A). Unit {0}) ns
All-Unit [] = tt
All-Unit (n ∷ ns) = (tt, All-Unit ns)

Reached-Stored :
    (m : WasmModule) (d : Descriptor)
    → All (λ (f : Node FuncDecl). Found m.sigs f.decl.sig) m.funcs
    → Reached m d
    → Stored m d
Reached-Stored m (kind_func p) sigs h = node_at-Among (λ f. Found m.sigs f.sig) m.funcs p sigs h
Reached-Stored m (kind_table p) sigs h =
    let (t, known, _) = node_at-Among (λ _. Unit {0}) m.tables p (All-Unit m.tables) h in (t, known)
Reached-Stored m (kind_memory p) sigs h =
    let (t, known, _) = node_at-Among (λ _. Unit {0}) m.mems p (All-Unit m.mems) h in (t, known)
Reached-Stored m (kind_global p) sigs h =
    let (t, known, _) = node_at-Among (λ _. Unit {0}) m.globals p (All-Unit m.globals) h in
    (t, known)

encode_import_desc-Stored :
    (m : WasmModule) (d : Descriptor)
    → Stored m d
    → (bytes : List ℕ) × (encode_import_desc m d ≡ ok bytes)
unfolding encode_import_desc get_sig_idx
encode_import_desc-Stored m (kind_func p) (f, known, (i, h, few)) =
    (encode_u32leb i, rw (known, found-idx m.sigs f.sig i h) refl)
encode_import_desc-Stored m (kind_table p) (t, known) = (write_tabletype t, rw known refl)
encode_import_desc-Stored m (kind_memory p) (t, known) = (write_memtype t, rw known refl)
encode_import_desc-Stored m (kind_global p) (t, known) = (write_globaltype t, rw known refl)

encode_imports-Stored :
    (m : WasmModule) (is : List ImportDecl)
    → All (λ (i : ImportDecl). Stored m i.desc) is
    → (elems : List ℕ) × (write_all (encode_import m) is ≡ ok elems)
unfolding write_all encode_import
encode_imports-Stored m [] all = ([], refl)
encode_imports-Stored m (i ∷ is) (first, others) =
    let (desc, wrote) = encode_import_desc-Stored m i.desc first in
    let (rest, wrote') = encode_imports-Stored m is others in
    (
      encode_name i.mod_name
          ++ (encode_name i.member_name ++ (encode_u8 (kind_of i.desc) ++ desc))
          ++ rest,
      rw (wrote, wrote') refl,
    )

-- Those of a part of the imports, where all are in the module.
abbrev Within : List Ptr → List Ptr → Type 0
Within ps qs = (p : Ptr) → Among p ps → Among p qs

Within-tail : (o : Option Ptr) (ps qs : List Ptr) → Within (keep o ps) qs → Within ps qs
Within-tail none ps qs h = h
Within-tail (some q) ps qs h = λ p there. h p (inr there)

reached :
    (m : WasmModule) (d : Descriptor) (a b c e : List Ptr)
    → Within (keep (as_func d) a) (ids m.funcs)
    → Within (keep (as_table d) b) (ids m.tables)
    → Within (keep (as_memory d) c) (ids m.mems)
    → Within (keep (as_global d) e) (ids m.globals)
    → Reached m d
reached m (kind_func p) a b c e hf ht hm hg = hf p (inl refl)
reached m (kind_table p) a b c e hf ht hm hg = ht p (inl refl)
reached m (kind_memory p) a b c e hf ht hm hg = hm p (inl refl)
reached m (kind_global p) a b c e hf ht hm hg = hg p (inl refl)

imports-Stored :
    (m : WasmModule) (is : List ImportDecl)
    → All (λ (f : Node FuncDecl). Found m.sigs f.decl.sig) m.funcs
    → Within (of_kind as_func is) (ids m.funcs)
    → Within (of_kind as_table is) (ids m.tables)
    → Within (of_kind as_memory is) (ids m.mems)
    → Within (of_kind as_global is) (ids m.globals)
    → All (λ (i : ImportDecl). Stored m i.desc) is
imports-Stored m [] sigs hf ht hm hg = tt
imports-Stored m (i ∷ is) sigs hf ht hm hg = (
  Reached-Stored m i.desc sigs (
      reached m i.desc (of_kind as_func is) (of_kind as_table is) (of_kind as_memory is)
        (of_kind as_global is) hf ht hm hg),
  imports-Stored m is sigs (Within-tail (as_func i.desc) _ _ hf)
      (Within-tail (as_table i.desc) _ _ ht) (Within-tail (as_memory i.desc) _ _ hm)
      (Within-tail (as_global i.desc) _ _ hg),
)

Space-Within : {num n : ℕ} {is ps : List Ptr} → Space num is ps n → Within is ps
Space-Within {is = is} s p h = rw s.imports_first (Among-append p is s.defined h)

-- In a well-formed module with fewer than 2 ^ 32 imports, in which each function's signature is one
-- of the module, the import section is written without an exception and without undefined
-- behaviour: nothing where there are no imports, and else their number and the imports in order.
pub encode_import_section-WellFormed :
    (m : WasmModule)
    → WellFormed m
    → U32 (length m.imports.list)
    → All (λ (f : Node FuncDecl). Found m.sigs f.decl.sig) m.funcs
    → (elems : List ℕ) × (write_all (encode_import m) m.imports.list ≡ ok elems)
      × (encode_import_section m
          ≡ ok (
              if length m.imports.list == 0
              then []
              else encode_u32leb (length m.imports.list) ++ elems))
unfolding encode_import_section write_section write_vec
encode_import_section-WellFormed m w few sigs =
    let is = m.imports.list in
    let counted = counts-length m w few in
    let agrees : (length is == get_num_imports m.imports) ≡ true = (==_iff _ _).1 (sym counted) in
    let cut : length is % 2 ^ 32 ≡ length is = omega arith in
    let (elems, wrote) = encode_imports-Stored m is (
      imports-Stored m is sigs (Space-Within w.funcs) (Space-Within w.tables) (Space-Within w.mems)
        (Space-Within w.globals)) in
    (
      elems,
      wrote,
      elim (Bool-cases (length is == 0)) [
        | inl nothing ↦ rw (agrees, cut, nothing) refl
        | inr some_imports ↦ rw (agrees, cut, some_imports, wrote) refl
      ],
    )
