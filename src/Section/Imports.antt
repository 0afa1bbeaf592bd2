-- ===== src/Section/Imports.antt =====
-- Theorems on decode_import_section of src/parse.cpp: the imports come into the spaces in order.
use wasm_instrument.Prelude.{
  ℕ, zero, suc, ◌^◌, ◌<◌, ◌≡◌, refl, [], arith, ◌==◌, Bool-cases, inl, inr,
}
use wasm_instrument.Prelude.Result.{bad_import_kind}
use wasm_instrument.Buffer.{lift, read_u32leb, read_u8, read_name}
use wasm_instrument.Buffer.Gives.{Gives, Gives-pure, Gives-raise, Gives-bind, Gives-after}
use wasm_instrument.Buffer.Moves.{read_u32leb-Gives}
use wasm_instrument.Ir.{WasmModule}
use wasm_instrument.Ir.Access.{ids, get_sig}
use wasm_instrument.Instrument.Spaces.{WellFormed}
use wasm_instrument.Section.{read_tabletype, read_memtype}
use wasm_instrument.Section.Decode.{
  repeat, read_globaltype, import_of_kind, read_import, decode_import_section,
}
use wasm_instrument.Section.Joined.{
  OnlyImports, Joined, push_func-Joined, push_table-Joined, push_mem-Joined, push_global-Joined,
}

module _ (room : ℕ) (m : WasmModule) (w : OnlyImports (suc room) m) where
  import_of_kind-Gives : (kind : ℕ) → Gives (import_of_kind m kind) (Joined room)
  unfolding import_of_kind
  import_of_kind-Gives kind = elim (Bool-cases (kind == 0)) [
    | inl is_func ↦ rw is_func (
        Gives-after read_u32leb _ (Joined room) (λ idx.
          Gives-after (lift (get_sig m idx)) _ (Joined room)
            (λ sig. Gives-pure (Joined room) _ (push_func-Joined room m w sig))))
    | inr not_func ↦ rw not_func (elim (Bool-cases (kind == 1)) [
      | inl is_table ↦ rw is_table (
          Gives-after read_tabletype _ (Joined room)
            (λ table. Gives-pure (Joined room) _ (push_table-Joined room m w table)))
      | inr not_table ↦ rw not_table (elim (Bool-cases (kind == 2)) [
        | inl is_mem ↦ rw is_mem (
            Gives-after read_memtype _ (Joined room)
              (λ mem. Gives-pure (Joined room) _ (push_mem-Joined room m w mem)))
        | inr not_mem ↦ rw not_mem (elim (Bool-cases (kind == 3)) [
          | inl is_global ↦ rw is_global (
              Gives-after read_globaltype _ (Joined room)
                (λ global. Gives-pure (Joined room) _ (push_global-Joined room m w global)))
          | inr not_global ↦ rw not_global (Gives-raise (Joined room) bad_import_kind)
        ])
      ])
    ])
  ]

  read_import-Gives : Gives (read_import m) (OnlyImports room)
  unfolding read_import
  read_import-Gives = Gives-after read_name _ (OnlyImports room) (λ mod_name.
      Gives-after read_name _ (OnlyImports room) (λ member_name.
        Gives-after read_u8 _ (OnlyImports room) (λ kind.
          Gives-bind (import_of_kind m kind) _ (Joined room) (OnlyImports room)
            (import_of_kind-Gives kind)
            (λ (desc, after) joined.
              Gives-pure (OnlyImports room) _ (joined mod_name member_name)))))

imports-Gives :
    (n : ℕ) (m : WasmModule) → OnlyImports n m → Gives (repeat n read_import m) (OnlyImports 0)
unfolding repeat
imports-Gives zero m w = Gives-pure (OnlyImports 0) m w
imports-Gives (suc n) m w =
    Gives-bind (read_import m) (repeat n read_import) (OnlyImports n) (OnlyImports 0)
      (read_import-Gives n m w) (λ after h. imports-Gives n after h)

-- A module that has nothing in its index spaces.
pub record Fresh (m : WasmModule) : Type 0 where
  pub shape : WellFormed m
  pub no_funcs : ids m.funcs ≡ []
  pub no_tables : m.tables ≡ []
  pub no_mems : m.mems ≡ []
  pub no_globals : m.globals ≡ []
  pub no_imports : m.imports.list ≡ []

pub decode_import_section-Gives :
    (m : WasmModule) → Fresh m → Gives (decode_import_section m) WellFormed
unfolding decode_import_section
decode_import_section-Gives m w =
    Gives-bind read_u32leb _ (λ num. num < 2 ^ 32) WellFormed read_u32leb-Gives
      (λ num few b c a e. (imports-Gives num m (all_imports num few) b c a e).shape)
  where
    all_imports : (num : ℕ) → num < 2 ^ 32 → OnlyImports num m
    all_imports num few = record {
      shape = w.shape;
      funcs = rw w.no_imports w.no_funcs;
      tables = rw (w.no_tables, w.no_imports) refl;
      mems = rw (w.no_mems, w.no_imports) refl;
      globals = rw (w.no_globals, w.no_imports) refl;
      fits = rw w.no_imports (omega arith);
    }
