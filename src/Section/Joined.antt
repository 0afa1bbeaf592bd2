-- ===== src/Section/Joined.antt =====
-- Theorems on the import of each kind of decode_import_section of src/parse.cpp.
use wasm_instrument.Prelude.{
  ℕ, suc, ◌+◌, ◌%◌, ◌^◌, ◌≤◌, ◌<◌, ◌≡◌, refl, ap, sym, ◌∙◌, List, [], ◌∷◌, ◌++◌, Option, some, none,
  length, length-append, append-nil, arith,
}
use wasm_instrument.Ir.{
  Ptr, Descriptor, kind_func, kind_table, kind_memory, kind_global, ImportDecl, WasmModule,
  TableDecl, MemoryDecl, GlobalDecl,
}
use wasm_instrument.Ir.Access.{ids}
use wasm_instrument.Instrument.Lookup.{as_func, as_table, as_memory, as_global}
use wasm_instrument.Instrument.Spaces.{
  keep, of_kind, Space, WellFormed, Space-later, Space-import, ids-append,
}
use wasm_instrument.Section.Decode.{
  push_func, push_table, push_mem, push_global, count, list_import,
}

-- A module whose declarations are all imports, with room for `room` more.
pub record OnlyImports (room : ℕ) (m : WasmModule) : Type 0 where
  pub shape : WellFormed m
  pub funcs : ids m.funcs ≡ of_kind as_func m.imports.list
  pub tables : ids m.tables ≡ of_kind as_table m.imports.list
  pub mems : ids m.mems ≡ of_kind as_memory m.imports.list
  pub globals : ids m.globals ≡ of_kind as_global m.imports.list
  pub fits : length m.imports.list + room < 2 ^ 32

keep-snoc : (o : Option Ptr) (ps qs rs : List Ptr) → ps ≡ qs ++ rs → keep o ps ≡ keep o qs ++ rs
keep-snoc none ps qs rs e = e
keep-snoc (some p) ps qs rs e = ap (◌∷◌ p) e

of_kind-snoc :
    (kind : Descriptor → Option Ptr) (is : List ImportDecl) (i : ImportDecl)
    → of_kind kind (is ++ i ∷ []) ≡ of_kind kind is ++ keep (kind i.desc) []
of_kind-snoc kind [] i = refl
of_kind-snoc kind (j ∷ is) i =
    keep-snoc (kind j.desc) _ (of_kind kind is) _ (of_kind-snoc kind is i)

length-keep : (o : Option Ptr) (ps : List Ptr) → length (keep o ps) ≤ suc (length ps)
length-keep none ps = omega arith
length-keep (some p) ps = omega arith

length-of_kind :
    (kind : Descriptor → Option Ptr) (is : List ImportDecl) → length (of_kind kind is) ≤ length is
length-of_kind kind [] = omega arith
length-of_kind kind (i ∷ is) =
    omega (arith, length-keep (kind i.desc) (of_kind kind is), length-of_kind kind is)

-- The import is of the kind, or of another.
of_kind-joined :
    (kind : Descriptor → Option Ptr) (is : List ImportDecl) (i : ImportDecl) (n : Ptr)
    → kind i.desc ≡ some n
    → of_kind kind (is ++ i ∷ []) ≡ of_kind kind is ++ n ∷ []
of_kind-joined kind is i n e = of_kind-snoc kind is i ∙ ap (λ o. of_kind kind is ++ keep o []) e

of_kind-apart :
    (kind : Descriptor → Option Ptr) (is : List ImportDecl) (i : ImportDecl)
    → kind i.desc ≡ none
    → of_kind kind (is ++ i ∷ []) ≡ of_kind kind is
of_kind-apart kind is i e =
    of_kind-snoc kind is i ∙ ap (λ o. of_kind kind is ++ keep o []) e ∙ append-nil (of_kind kind is)

-- The space of the import's kind.
joined-Space :
    {num n : ℕ} {ps : List Ptr} (room : ℕ) (kind : Descriptor → Option Ptr) (is : List ImportDecl)
    (i : ImportDecl)
    → kind i.desc ≡ some n
    → ps ≡ of_kind kind is
    → length is + suc room < 2 ^ 32
    → Space num (of_kind kind is) ps n
    → Space ((num + 1) % 2 ^ 32) (of_kind kind (is ++ i ∷ [])) (ps ++ n ∷ []) (n + 1)
joined-Space {num} {n} {ps} room kind is i e alone fits s =
    rw (of_kind-joined kind is i n e)
      (Space-import (omega (arith, s.counted, length-of_kind kind is)) alone s)

apart-Space :
    {num n : ℕ} {ps : List Ptr} (kind : Descriptor → Option Ptr) (is : List ImportDecl)
    (i : ImportDecl)
    → kind i.desc ≡ none
    → Space num (of_kind kind is) ps n
    → Space num (of_kind kind (is ++ i ∷ [])) ps (n + 1)
apart-Space kind is i e s = rw (of_kind-apart kind is i e) (Space-later (omega arith) s)

-- What one import of each kind does to the module.
abbrev pub Joined : ℕ → Descriptor × WasmModule → Type 0
Joined room (desc, after) =
    (mod_name member_name : List ℕ)
    → OnlyImports room (
        list_import (record { mod_name = mod_name; member_name = member_name; desc = desc })
          (count desc after))

module _ (room : ℕ) (m : WasmModule) (w : OnlyImports (suc room) m) where
  fewer : (i : ImportDecl) → length (m.imports.list ++ i ∷ []) + room < 2 ^ 32
  fewer i = omega (arith, w.fits, length-append m.imports.list (i ∷ []))

  pub push_func-Joined : (sig : Ptr) → Joined room (kind_func m.next_id, push_func m sig)
  push_func-Joined sig mod_name member_name =
      let i : ImportDecl = record {
        mod_name = mod_name;
        member_name = member_name;
        desc = kind_func m.next_id;
      } in
      record {
        shape = record {
          funcs =
              rw (ids-append m.funcs _)
                (joined-Space room as_func m.imports.list i refl w.funcs w.fits w.shape.funcs);
          tables = apart-Space as_table m.imports.list i refl w.shape.tables;
          mems = apart-Space as_memory m.imports.list i refl w.shape.mems;
          globals = apart-Space as_global m.imports.list i refl w.shape.globals;
          names = w.shape.names;
        };
        funcs =
            ids-append m.funcs _
            ∙ ap (λ (l : List Ptr). l ++ m.next_id ∷ []) w.funcs
            ∙ sym (of_kind-joined as_func m.imports.list i m.next_id refl);
        tables = w.tables ∙ sym (of_kind-apart as_table m.imports.list i refl);
        mems = w.mems ∙ sym (of_kind-apart as_memory m.imports.list i refl);
        globals = w.globals ∙ sym (of_kind-apart as_global m.imports.list i refl);
        fits = fewer i;
      }

  pub push_table-Joined :
      (table : TableDecl) → Joined room (kind_table m.next_id, push_table m table)
  push_table-Joined table mod_name member_name =
      let i : ImportDecl = record {
        mod_name = mod_name;
        member_name = member_name;
        desc = kind_table m.next_id;
      } in
      record {
        shape = record {
          funcs = apart-Space as_func m.imports.list i refl w.shape.funcs;
          tables =
              rw (ids-append m.tables _)
                (joined-Space room as_table m.imports.list i refl w.tables w.fits w.shape.tables);
          mems = apart-Space as_memory m.imports.list i refl w.shape.mems;
          globals = apart-Space as_global m.imports.list i refl w.shape.globals;
          names = w.shape.names;
        };
        funcs = w.funcs ∙ sym (of_kind-apart as_func m.imports.list i refl);
        tables =
            ids-append m.tables _
            ∙ ap (λ (l : List Ptr). l ++ m.next_id ∷ []) w.tables
            ∙ sym (of_kind-joined as_table m.imports.list i m.next_id refl);
        mems = w.mems ∙ sym (of_kind-apart as_memory m.imports.list i refl);
        globals = w.globals ∙ sym (of_kind-apart as_global m.imports.list i refl);
        fits = fewer i;
      }

  pub push_mem-Joined : (mem : MemoryDecl) → Joined room (kind_memory m.next_id, push_mem m mem)
  push_mem-Joined mem mod_name member_name =
      let i : ImportDecl = record {
        mod_name = mod_name;
        member_name = member_name;
        desc = kind_memory m.next_id;
      } in
      record {
        shape = record {
          funcs = apart-Space as_func m.imports.list i refl w.shape.funcs;
          tables = apart-Space as_table m.imports.list i refl w.shape.tables;
          mems =
              rw (ids-append m.mems _)
                (joined-Space room as_memory m.imports.list i refl w.mems w.fits w.shape.mems);
          globals = apart-Space as_global m.imports.list i refl w.shape.globals;
          names = w.shape.names;
        };
        funcs = w.funcs ∙ sym (of_kind-apart as_func m.imports.list i refl);
        tables = w.tables ∙ sym (of_kind-apart as_table m.imports.list i refl);
        mems =
            ids-append m.mems _
            ∙ ap (λ (l : List Ptr). l ++ m.next_id ∷ []) w.mems
            ∙ sym (of_kind-joined as_memory m.imports.list i m.next_id refl);
        globals = w.globals ∙ sym (of_kind-apart as_global m.imports.list i refl);
        fits = fewer i;
      }

  pub push_global-Joined :
      (global : GlobalDecl) → Joined room (kind_global m.next_id, push_global m global)
  push_global-Joined global mod_name member_name =
      let i : ImportDecl = record {
        mod_name = mod_name;
        member_name = member_name;
        desc = kind_global m.next_id;
      } in
      record {
        shape = record {
          funcs = apart-Space as_func m.imports.list i refl w.shape.funcs;
          tables = apart-Space as_table m.imports.list i refl w.shape.tables;
          mems = apart-Space as_memory m.imports.list i refl w.shape.mems;
          globals =
              rw (ids-append m.globals _) (
                joined-Space room as_global m.imports.list i refl w.globals w.fits w.shape.globals);
          names = w.shape.names;
        };
        funcs = w.funcs ∙ sym (of_kind-apart as_func m.imports.list i refl);
        tables = w.tables ∙ sym (of_kind-apart as_table m.imports.list i refl);
        mems = w.mems ∙ sym (of_kind-apart as_memory m.imports.list i refl);
        globals =
            ids-append m.globals _
            ∙ ap (λ (l : List Ptr). l ++ m.next_id ∷ []) w.globals
            ∙ sym (of_kind-joined as_global m.imports.list i m.next_id refl);
        fits = fewer i;
      }
