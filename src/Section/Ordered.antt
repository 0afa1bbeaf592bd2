-- ===== src/Section/Ordered.antt =====
-- Theorems on the order of the sections in WasmModule::decode_buffer of src/parse.cpp.
use wasm_instrument.Prelude.{
  ℕ, ◌≡◌, refl, ap, ◌∙◌, List, [], ◌∷◌, Bool, true, false, not, ◌&&◌, ◌==◌, leb, if◌then◌else◌,
  Bool-cases, inl, inr, arith, &&-true, ==_iff,
}
use wasm_instrument.Prelude.Result.{unknown_section}
use wasm_instrument.Buffer.{Buffer}
use wasm_instrument.Buffer.Gives.{Gives, Gives-raise}
use wasm_instrument.Ir.{ImportSet, WasmModule}
use wasm_instrument.Ir.Access.{ids}
use wasm_instrument.Instrument.Spaces.{WellFormed, Space-later}
use wasm_instrument.Section.Content.{
  Keeps, Keeps-refl, decode_type_section-Gives, decode_export_section-Gives,
  decode_start_section-Gives, decode_element_section-Gives, decode_code_section-Gives,
  decode_data_section-Gives, decode_datacount_section-Gives, decode_custom_section-Gives,
}
use wasm_instrument.Section.Kept.{
  decode_function_section-Gives, decode_table_section-Gives, decode_memory_section-Gives,
  decode_global_section-Gives,
}
use wasm_instrument.Section.Imports.{Fresh, decode_import_section-Gives}
use wasm_instrument.Section.Load.{decode_section}
use wasm_instrument.Section.Loads.{content, Framed, Loads}

-- The sections that put declarations into an index space: imports to globals.
abbrev pub fills : ℕ → Bool
fills section_id = leb 2 section_id && leb section_id 6

abbrev no_import : List ℕ → Bool
no_import [] = true
no_import (section_id ∷ ids) = not (section_id == 2) && no_import ids

-- No import section stands behind a section that puts declarations into an index space.
abbrev pub imports_first : List ℕ → Bool
imports_first [] = true
imports_first (section_id ∷ ids) = if fills section_id then no_import ids else imports_first ids

fills_not :
    (section_id n : ℕ) → (section_id == n) ≡ true → fills n ≡ true → fills section_id ≡ false → ⊥
fills_not section_id n same in_n out =
    let e : section_id ≡ n = (==_iff section_id n).0 same in
    let out' : fills n ≡ false = rw e at out in cc

kept-WellFormed : (m k : WasmModule) → Keeps m k → WellFormed m → WellFormed k
kept-WellFormed m k keeps w = record {
  funcs = rw (keeps.imports, keeps.funcs) (Space-later keeps.next w.funcs);
  tables = rw (keeps.imports, keeps.tables) (Space-later keeps.next w.tables);
  mems = rw (keeps.imports, keeps.mems) (Space-later keeps.next w.mems);
  globals = rw (keeps.imports, keeps.globals) (Space-later keeps.next w.globals);
  names = keeps.names w.names;
}

kept-Fresh : (m k : WasmModule) → Keeps m k → Fresh m → Fresh k
kept-Fresh m k keeps w = record {
  shape = kept-WellFormed m k keeps w.shape;
  no_funcs = keeps.funcs ∙ w.no_funcs;
  no_tables = keeps.tables ∙ w.no_tables;
  no_mems = keeps.mems ∙ w.no_mems;
  no_globals = keeps.globals ∙ w.no_globals;
  no_imports = ap (λ (i : ImportSet). i.list) keeps.imports ∙ w.no_imports;
}

-- The sections that fill no space.
section-Keeps :
    (m : WasmModule) (section_id len : ℕ)
    → fills section_id ≡ false
    → Gives (decode_section m section_id len) (Keeps m)
unfolding decode_section
section-Keeps m section_id len out = elim (Bool-cases (section_id == 1)) [
  | inl is_type ↦ rw is_type (decode_type_section-Gives m m (Keeps-refl m))
  | inr not_type ↦ rw not_type (elim (Bool-cases (section_id == 2)) [
    | inl is_import ↦ absurd (fills_not section_id 2 is_import refl out)
    | inr not_import ↦ rw not_import (elim (Bool-cases (section_id == 3)) [
      | inl is_function ↦ absurd (fills_not section_id 3 is_function refl out)
      | inr not_function ↦ rw not_function (elim (Bool-cases (section_id == 4)) [
        | inl is_table ↦ absurd (fills_not section_id 4 is_table refl out)
        | inr not_table ↦ rw not_table (elim (Bool-cases (section_id == 5)) [
          | inl is_memory ↦ absurd (fills_not section_id 5 is_memory refl out)
          | inr not_memory ↦ rw not_memory (elim (Bool-cases (section_id == 6)) [
            | inl is_global ↦ absurd (fills_not section_id 6 is_global refl out)
            | inr not_global ↦ rw not_global (elim (Bool-cases (section_id == 7)) [
              | inl is_export ↦ rw is_export (decode_export_section-Gives m m (Keeps-refl m))
              | inr not_export ↦ rw not_export (elim (Bool-cases (section_id == 8)) [
                | inl is_start ↦ rw is_start (decode_start_section-Gives m m (Keeps-refl m))
                | inr not_start ↦ rw not_start (elim (Bool-cases (section_id == 9)) [
                  | inl is_element ↦ rw is_element (decode_element_section-Gives m m (Keeps-refl m))
                  | inr not_element ↦ rw not_element (elim (Bool-cases (section_id == 10)) [
                    | inl is_code ↦ rw is_code (decode_code_section-Gives m m (Keeps-refl m))
                    | inr not_code ↦ rw not_code (elim (Bool-cases (section_id == 11)) [
                      | inl is_data ↦ rw is_data (decode_data_section-Gives m m (Keeps-refl m))
                      | inr not_data ↦ rw not_data (elim (Bool-cases (section_id == 12)) [
                        | inl is_datacount ↦
                            rw is_datacount (decode_datacount_section-Gives m m (Keeps-refl m))
                        | inr not_datacount ↦
                            rw not_datacount (elim (Bool-cases (section_id == 0)) [
                              | inl is_custom ↦
                                  rw is_custom (decode_custom_section-Gives m m len (Keeps-refl m))
                              | inr not_custom ↦
                                  rw not_custom (Gives-raise (Keeps m) unknown_section)
                            ])
                      ])
                    ])
                  ])
                ])
              ])
            ])
          ])
        ])
      ])
    ])
  ])
]

-- The sections that fill a space behind the imports.
defined-WellFormed :
    (m : WasmModule) (section_id len : ℕ)
    → (section_id == 2) ≡ false
    → fills section_id ≡ true
    → WellFormed m
    → Gives (decode_section m section_id len) WellFormed
unfolding decode_section
defined-WellFormed m section_id len not_import fill w = elim (Bool-cases (section_id == 3)) [
  | inl is_function ↦
      let e : section_id ≡ 3 = (==_iff section_id 3).0 is_function in
      rw e (decode_function_section-Gives m w)
  | inr not_function ↦ elim (Bool-cases (section_id == 4)) [
    | inl is_table ↦
        let e : section_id ≡ 4 = (==_iff section_id 4).0 is_table in
        rw e (decode_table_section-Gives m w)
    | inr not_table ↦ elim (Bool-cases (section_id == 5)) [
      | inl is_memory ↦
          let e : section_id ≡ 5 = (==_iff section_id 5).0 is_memory in
          rw e (decode_memory_section-Gives m w)
      | inr not_memory ↦
          let e : section_id ≡ 6 = ground arith in rw e (decode_global_section-Gives m w)
    ]
  ]
]

section-WellFormed :
    (m : WasmModule) (section_id len : ℕ)
    → (section_id == 2) ≡ false
    → WellFormed m
    → Gives (decode_section m section_id len) WellFormed
section-WellFormed m section_id len not_import w = elim (Bool-cases (fills section_id)) [
  | inl fill ↦ defined-WellFormed m section_id len not_import fill w
  | inr out ↦ λ b c a e. kept-WellFormed m a (section-Keeps m section_id len out b c a e) w
]

first_section-WellFormed :
    (m : WasmModule) (section_id len : ℕ)
    → Fresh m
    → Gives (decode_section m section_id len) WellFormed
unfolding decode_section
first_section-WellFormed m section_id len w = elim (Bool-cases (section_id == 2)) [
  | inl is_import ↦
      let e : section_id ≡ 2 = (==_iff section_id 2).0 is_import in
      rw e (decode_import_section-Gives m w)
  | inr not_import ↦ section-WellFormed m section_id len not_import w.shape
]

-- What a section's decoder gives, the framed section gives.
Framed-Gives {κ} :
    (P : WasmModule → Type κ) (m k : WasmModule) (section_id : ℕ) (b c : Buffer)
    → Framed m b section_id k c
    → ((len : ℕ) → Gives (decode_section m section_id len) P)
    → P k
Framed-Gives P m k section_id b c f gives =
    gives f.len (content f.behind_len f.len) f.content_end k f.content_read

-- The rest of a run, where no import section comes.
later-WellFormed :
    (m k : WasmModule) (b c : Buffer) (ids : List ℕ)
    → no_import ids ≡ true
    → WellFormed m
    → Loads m b ids k c
    → WellFormed k
later-WellFormed m k b c [] ordered w (Loads.done out) = w
later-WellFormed m k b c (section_id ∷ ids) ordered w
      (Loads.next {k = after} {c = d} inside read run) =
    let (not_import, others) = &&-true (not (section_id == 2)) (no_import ids) ordered in
    later-WellFormed after k d c ids others
      (Framed-Gives WellFormed m after section_id b d read
        (λ len. section-WellFormed m section_id len (ground arith) w))
      run

pub run-WellFormed :
    (m k : WasmModule) (b c : Buffer) (ids : List ℕ)
    → imports_first ids ≡ true
    → Fresh m
    → Loads m b ids k c
    → WellFormed k
run-WellFormed m k b c [] ordered w (Loads.done out) = w.shape
run-WellFormed m k b c (section_id ∷ ids) ordered w
      (Loads.next {k = after} {c = d} inside read run) =
    elim (Bool-cases (fills section_id)) [
      | inl fill ↦
          later-WellFormed after k d c ids (rw fill at ordered)
            (Framed-Gives WellFormed m after section_id b d read
              (λ len. first_section-WellFormed m section_id len w))
            run
      | inr out ↦
          run-WellFormed after k d c ids (rw out at ordered)
            (kept-Fresh m after
              (Framed-Gives (Keeps m) m after section_id b d read
                (λ len. section-Keeps m section_id len out))
              w)
            run
    ]
