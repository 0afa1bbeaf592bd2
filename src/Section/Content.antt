-- ===== src/Section/Content.antt =====
-- Theorems on the sections of src/parse.cpp that fill no index space of the imports: exports,
-- start, elements, code, data and customs.
use wasm_instrument.Prelude.{
  ℕ, zero, suc, ◌+◌, ◌≤◌, ◌≡◌, inl, inr, refl, ap, ◌∙◌, List, [], ◌∷◌, Option, ◌==◌, Bool-cases,
  length, length-append, ltb, same, arith, ◌^◌,
}
use mathlib.Core.Path.{subst}
use wasm_instrument.Prelude.Result.{Result, ok, undefined, >>=-ok, >>-ok}
use wasm_instrument.Buffer.{Buffer, lift, read_u32leb, read_u8, read_name}
use wasm_instrument.Buffer.Gives.{
  Gives, Gives-pure, Gives-bind, Gives-after, lift-Gives, Gives-undefined,
}
use wasm_instrument.Ir.{Node, Ptr, ExportDecl, ElemDecl, DataDecl, FuncDecl, CustomDecl, WasmModule}
use wasm_instrument.Ir.Access.{ids, get_func}
use wasm_instrument.Instrument.Spaces.{NamesFound}
use wasm_instrument.Section.{read_sigs, decode_type_section, push_sig, read_sig}
use wasm_instrument.Section.Decode.{
  descriptor, read_export, decode_export_section, decode_start_section,
}
use wasm_instrument.Section.Bodies.{
  read_elem, read_element, decode_element_section, decode_body, decode_bodies, decode_code_section,
  push_datas, make_datas, datas_for, decode_datas, decode_data_section, decode_datacount_section,
}
use wasm_instrument.Section.Custom.{read_custom, push_custom, decode_custom_section, name_text}
use wasm_instrument.Section.Kept.{rounds-Gives}

-- A module after, with the same imports and places of declarations.
pub record Keeps (m k : WasmModule) : Type 0 where
  pub imports : k.imports ≡ m.imports
  pub funcs : ids k.funcs ≡ ids m.funcs
  pub tables : k.tables ≡ m.tables
  pub mems : k.mems ≡ m.mems
  pub globals : k.globals ≡ m.globals
  pub next : m.next_id ≤ k.next_id
  pub names : NamesFound m.fn_names_debug m.customs → NamesFound k.fn_names_debug k.customs

pub Keeps-refl : (m : WasmModule) → Keeps m m
Keeps-refl m = record {
  imports = refl;
  funcs = refl;
  tables = refl;
  mems = refl;
  globals = refl;
  next = omega arith;
  names = λ h. h;
}

-- The functions keep their places.
decode_bodies-ids :
    (m : WasmModule) (n : ℕ) (fs : List (Node FuncDecl))
    → Gives (decode_bodies m n fs) (λ gs. ids gs ≡ ids fs)
unfolding decode_bodies
decode_bodies-ids m (suc n) [] = Gives-undefined (λ gs. ids gs ≡ [])
decode_bodies-ids m (suc n) (f ∷ fs) =
    Gives-bind (decode_bodies m n fs) _ (λ gs. ids gs ≡ ids fs) (λ gs. ids gs ≡ f.id ∷ ids fs)
      (decode_bodies-ids m n fs)
      (λ gs e. Gives-pure (λ hs. ids hs ≡ f.id ∷ ids fs) (f ∷ gs) (ap (◌∷◌ f.id) e))
decode_bodies-ids m zero [] = Gives-pure (λ gs. ids gs ≡ []) [] refl
decode_bodies-ids m zero (f ∷ fs) =
    Gives-after (decode_body m f.decl) _ (λ gs. ids gs ≡ f.id ∷ ids fs)
      (λ decl.
        Gives-bind (decode_bodies m zero fs) _ (λ gs. ids gs ≡ ids fs)
          (λ gs. ids gs ≡ f.id ∷ ids fs) (decode_bodies-ids m zero fs)
          (λ gs e. Gives-pure (λ hs. ids hs ≡ f.id ∷ ids fs) _ (ap (◌∷◌ f.id) e)))

push_custom-NamesFound :
    (m : WasmModule) (custom : CustomDecl)
    → NamesFound m.fn_names_debug m.customs
    → NamesFound (push_custom m custom).fn_names_debug (push_custom m custom).customs
push_custom-NamesFound m custom w = elim (Bool-cases (same custom.name name_text)) [
  | inl named ↦
      rw named (inr (length m.customs, refl, omega (arith, length-append m.customs (custom ∷ []))))
  | inr other ↦ rw other (elim w [
    | inl e ↦ inl e
    | inr (i, e, h) ↦ inr (i, e, omega (arith, length-append m.customs (custom ∷ [])))
  ])
]

module _ (o : WasmModule) where
  read_sigs-Gives : (n : ℕ) (m : WasmModule) → Keeps o m → Gives (read_sigs n m) (Keeps o)
  unfolding read_sigs
  read_sigs-Gives zero m w = Gives-pure (Keeps o) m w
  read_sigs-Gives (suc n) m w =
      Gives-after read_sig (λ sig. read_sigs n (push_sig m sig)) (Keeps o)
        (λ sig. read_sigs-Gives n (push_sig m sig) (record {
          imports = w.imports;
          funcs = w.funcs;
          tables = w.tables;
          mems = w.mems;
          globals = w.globals;
          next = omega (arith, w.next);
          names = w.names;
        }))

  pub decode_type_section-Gives :
      (m : WasmModule) → Keeps o m → Gives (decode_type_section m) (Keeps o)
  unfolding decode_type_section
  decode_type_section-Gives m w =
      Gives-after read_u32leb (λ num. read_sigs num m) (Keeps o) (λ num. read_sigs-Gives num m w)

  -- A module that has other exports, elements and data, and the same else.
  others-Keeps :
      (m : WasmModule) (exports : List ExportDecl) (elems : List ElemDecl)
      (datas : List (Node DataDecl)) (start : Option Ptr)
      → Keeps o m
      → Keeps o (record m { exports = exports; elems = elems; datas = datas; start_fn = start })
  others-Keeps m exports elems datas start w = record {
    imports = w.imports;
    funcs = w.funcs;
    tables = w.tables;
    mems = w.mems;
    globals = w.globals;
    next = w.next;
    names = w.names;
  }

  pub decode_export_section-Gives :
      (m : WasmModule) → Keeps o m → Gives (decode_export_section m) (Keeps o)
  unfolding decode_export_section read_export
  decode_export_section-Gives m w =
      rounds-Gives (Keeps o) read_export m
        (λ k h. Gives-after read_name _ (Keeps o) (λ name. Gives-after read_u8 _ (Keeps o) (λ kind.
          Gives-after read_u32leb _ (Keeps o) (λ idx.
            Gives-after (lift (descriptor k kind idx)) _ (Keeps o)
              (λ desc. Gives-pure (Keeps o) _ (others-Keeps k _ k.elems k.datas k.start_fn h))))))
        w

  pub decode_start_section-Gives :
      (m : WasmModule) → Keeps o m → Gives (decode_start_section m) (Keeps o)
  unfolding decode_start_section
  decode_start_section-Gives m w = Gives-after read_u32leb _ (Keeps o) (λ idx.
      Gives-after (lift (get_func m idx)) _ (Keeps o)
        (λ p. Gives-pure (Keeps o) _ (others-Keeps m m.exports m.elems m.datas _ w)))

  pub decode_element_section-Gives :
      (m : WasmModule) → Keeps o m → Gives (decode_element_section m) (Keeps o)
  unfolding decode_element_section read_element
  decode_element_section-Gives m w =
      rounds-Gives (Keeps o) read_element m
        (λ k h.
          Gives-after (read_elem k) _ (Keeps o)
            (λ elem. Gives-pure (Keeps o) _ (others-Keeps k k.exports _ k.datas k.start_fn h)))
        w

  pub decode_code_section-Gives :
      (m : WasmModule) → Keeps o m → Gives (decode_code_section m) (Keeps o)
  unfolding decode_code_section
  decode_code_section-Gives m w = Gives-after read_u32leb _ (Keeps o) (λ num.
      Gives-bind (decode_bodies m m.imports.num_funcs m.funcs) _ (λ gs. ids gs ≡ ids m.funcs)
        (Keeps o) (decode_bodies-ids m m.imports.num_funcs m.funcs)
        (λ gs e.
          Gives-pure (Keeps o) (record m { funcs = gs })
            (record {
              imports = w.imports;
              funcs = e ∙ w.funcs;
              tables = w.tables;
              mems = w.mems;
              globals = w.globals;
              next = w.next;
              names = w.names;
            })))

  push_datas-Keeps : (n : ℕ) (m : WasmModule) → Keeps o m → Keeps o (push_datas n m)
  unfolding push_datas
  push_datas-Keeps zero m w = w
  push_datas-Keeps (suc n) m w = push_datas-Keeps n _ (record {
    imports = w.imports;
    funcs = w.funcs;
    tables = w.tables;
    mems = w.mems;
    globals = w.globals;
    next = omega (arith, w.next);
    names = w.names;
  })

  make_datas-Keeps :
      (num : ℕ) (m after : WasmModule) → Keeps o m → make_datas num m ≡ ok after → Keeps o after
  unfolding make_datas
  make_datas-Keeps num m after w e = elim (Bool-cases (ltb num (2 ^ 31))) [
    | inl few ↦
        let made : push_datas num m ≡ after = value (rw few at e) in
        subst (Keeps o) made (push_datas-Keeps num m w)
    | inr many ↦ absurd (never (rw many at e))
  ]
    where
      value : ok (push_datas num m) ≡ ok after → push_datas num m ≡ after
      value h = cc

      never : undefined ≡ ok after → ⊥
      never h = cc

  pub decode_datacount_section-Gives :
      (m : WasmModule) → Keeps o m → Gives (decode_datacount_section m) (Keeps o)
  unfolding decode_datacount_section
  decode_datacount_section-Gives m w = Gives-after read_u32leb _ (Keeps o) (λ num.
      lift-Gives _ (Keeps o) (λ after e.
        make_datas-Keeps num _ after
          (record {
            imports = w.imports;
            funcs = w.funcs;
            tables = w.tables;
            mems = w.mems;
            globals = w.globals;
            next = w.next;
            names = w.names;
          })
          e))

  datas_for-Keeps :
      (m after : WasmModule) (num : ℕ) → Keeps o m → datas_for m num ≡ ok after → Keeps o after
  unfolding datas_for
  datas_for-Keeps m after num w e = elim (Bool-cases (m.has_datacount == 0)) [
    | inl none_yet ↦ make_datas-Keeps num m after w (rw none_yet at e)
    | inr there ↦ subst (Keeps o) (value (>>-ok _ (ok m) (rw there at e))) w
  ]
    where
      value : ok m ≡ ok after → m ≡ after
      value h = cc

  pub decode_data_section-Gives :
      (m : WasmModule) → Keeps o m → Gives (decode_data_section m) (Keeps o)
  unfolding decode_data_section
  decode_data_section-Gives m w = Gives-after read_u32leb _ (Keeps o) (λ num.
      Gives-bind (lift (datas_for m num)) _ (Keeps o) (Keeps o)
        (lift-Gives _ (Keeps o) (λ after e. datas_for-Keeps m after num w e))
        (λ made h. Gives-after (decode_datas made made.datas) _ (Keeps o) (λ datas.
          Gives-pure (Keeps o) _
            (others-Keeps made made.exports made.elems datas made.start_fn h))))

  push_custom-Keeps :
      (m : WasmModule) (custom : CustomDecl) → Keeps o m → Keeps o (push_custom m custom)
  push_custom-Keeps m custom w = record {
    imports = w.imports;
    funcs = w.funcs;
    tables = w.tables;
    mems = w.mems;
    globals = w.globals;
    next = w.next;
    names = λ h. push_custom-NamesFound m custom (w.names h);
  }

  pub decode_custom_section-Gives :
      (m : WasmModule) (len : ℕ) → Keeps o m → Gives (decode_custom_section m len) (Keeps o)
  unfolding decode_custom_section
  decode_custom_section-Gives m len w b c a e =
      let ((custom, d), read, after) =
        >>=-ok (read_custom m (b.pos + len) b) (λ (custom, d). ok (push_custom m custom, d)) e in
      subst (Keeps o) (value custom d after) (push_custom-Keeps m custom w)
    where
      value :
          (custom : CustomDecl) (d : Buffer)
          → ◌≡◌ {A = Result (WasmModule × Buffer)} (ok (push_custom m custom, d)) (ok (a, c))
          → push_custom m custom ≡ a
      value custom d h = cc
