-- ===== src/Section/Exports.antt =====
-- Theorems on the exports of src/parse.cpp and src/encode.cpp.
use wasm_instrument.Prelude.{
  ℕ, ◌+◌, ◌<◌, ◌≡◌, refl, sym, ap, ◌∙◌, List, [], ◌∷◌, ◌++◌, length, All, arith, append_assoc,
  append-nil,
}
use wasm_instrument.Prelude.Result.{ok}
use wasm_instrument.Leb.{encode_u32leb}
use wasm_instrument.Buffer.{lift, read_u32leb, read_u8, read_name}
use wasm_instrument.Buffer.Reads.{
  Reads, at, Reads-pure, Reads-bind, Reads-then, Reads-lift, read_u8-Reads, read_name-Reads,
  read_u32leb-Reads,
}
use wasm_instrument.Writer.{encode_u8, encode_name}
use wasm_instrument.Ir.{
  Descriptor, kind_func, kind_table, kind_memory, kind_global, ExportDecl, WasmModule,
}
use wasm_instrument.Ir.Access.{
  get_func, get_table, get_memory, get_global, get_func_idx, get_table_idx, get_memory_idx,
  get_global_idx,
}
use wasm_instrument.Inst.Encodable.{Found, U32}
use wasm_instrument.Inst.Indices.{found-idx, found-elem, found-deque}
use wasm_instrument.Section.Decode.{descriptor, push_export, read_export, decode_export_section}
use wasm_instrument.Section.Encode.{kind_of, get_idx, encode_export, encode_export_section}
use wasm_instrument.Section.Written.{Item, push_all, section-Reads}

-- The declaration is one of the module.
abbrev pub DescFound : WasmModule → Descriptor → Type 0
DescFound m (kind_func p) = Found m.funcs p
DescFound m (kind_table p) = Found m.tables p
DescFound m (kind_memory p) = Found m.mems p
DescFound m (kind_global p) = Found m.globals p

-- A declaration is found again at the index that is written for it.
desc-RoundTrip :
    (m : WasmModule) (d : Descriptor)
    → DescFound m d
    → (i : ℕ) × (get_idx m d ≡ ok i) × U32 i × (descriptor m (kind_of d) i ≡ ok d)
unfolding get_idx kind_of descriptor get_func get_table get_memory get_global get_func_idx
    get_table_idx get_memory_idx get_global_idx
desc-RoundTrip m (kind_func p) (i, h, fits) =
    (i, found-idx m.funcs p i h, fits, rw (found-elem m.funcs p i h) refl)
desc-RoundTrip m (kind_table p) (i, h, fits) =
    (i, found-idx m.tables p i h, fits, rw (found-elem m.tables p i h) refl)
desc-RoundTrip m (kind_memory p) (i, h, fits) =
    (i, found-idx m.mems p i h, fits, rw (found-elem m.mems p i h) refl)
desc-RoundTrip m (kind_global p) (i, h, fits) =
    (i, ap ok (found-deque m.globals p i h), fits, rw (found-elem m.globals p i h) refl)

kind_of-lt : (d : Descriptor) → kind_of d < 256
unfolding kind_of
kind_of-lt (kind_func p) = omega arith
kind_of-lt (kind_table p) = omega arith
kind_of-lt (kind_memory p) = omega arith
kind_of-lt (kind_global p) = omega arith

-- An export of a declaration of the module, under a name that can be written.
pub record ExportFits (m : WasmModule) (e : ExportDecl) : Type 0 where
  pub short_name : U32 (length e.name)
  pub found : DescFound m e.desc

-- A module in which the indices stand for what they stand for in another.
abbrev pub SameIndices : WasmModule → WasmModule → Type 0
SameIndices m k = (kind i : ℕ) → descriptor k kind i ≡ descriptor m kind i

export-Reads :
    (m : WasmModule) (e : ExportDecl)
    → ExportFits m e
    → (bytes : List ℕ) × (encode_export m e ≡ ok bytes)
      × ((k : WasmModule)
          → SameIndices m k
          → Reads (read_export k) bytes (push_export k e) × SameIndices m (push_export k e))
unfolding encode_export read_export get_func get_table get_memory get_global
export-Reads m e fit =
    let (i, known, small, back) = desc-RoundTrip m e.desc fit.found in
    (
      encode_name e.name ++ (encode_u8 (kind_of e.desc) ++ encode_u32leb i),
      rw known refl,
      λ k same. (
        Reads-bind read_name _ (encode_name e.name) _ (read_name-Reads e.name fit.short_name) (
            Reads-bind read_u8 _ (encode_u8 (kind_of e.desc)) _
              (read_u8-Reads (kind_of e.desc) (kind_of-lt e.desc))
              (Reads-then read_u32leb _ (encode_u32leb i) (read_u32leb-Reads i small) (
                Reads-bind (lift (descriptor k (kind_of e.desc) i)) _ [] []
                  (Reads-lift _ (same (kind_of e.desc) i ∙ back)) (Reads-pure (push_export k e))))),
        same,
      ),
    )

exports-Reads :
    (m : WasmModule) (l : List ExportDecl)
    → All (ExportFits m) l
    → All (Item (SameIndices m) read_export (encode_export m) push_export) l
exports-Reads m [] all = tt
exports-Reads m (e ∷ l) (fit, fits) = (export-Reads m e fit, exports-Reads m l fits)

push_all-exports :
    (m k : WasmModule) (l : List ExportDecl)
    → push_all push_export k l ≡ record k { exports = k.exports ++ l }
push_all-exports m k [] =
    ap (λ (l : List ExportDecl). record k { exports = l }) (sym (append-nil k.exports))
push_all-exports m k (e ∷ l) =
    push_all-exports m (push_export k e) l
    ∙ ap (λ (l : List ExportDecl). record k { exports = l }) (append_assoc k.exports (e ∷ []) l)

-- The exports of a module are read into any module with the same indices.
pub export_section-Reads :
    (m : WasmModule)
    → 0 < length m.exports
    → U32 (length m.exports)
    → All (ExportFits m) m.exports
    → (bytes : List ℕ) × (encode_export_section m ≡ ok bytes)
      × (0 < length bytes)
      × ((k : WasmModule)
          → SameIndices m k
          → Reads (decode_export_section k) bytes (record k { exports = k.exports ++ m.exports }))
unfolding encode_export_section decode_export_section
export_section-Reads m some_exports few fits =
    let (bytes, wrote, some_bytes, reads) =
      section-Reads (SameIndices m) read_export (encode_export m) push_export m.exports some_exports
        few (exports-Reads m m.exports fits) in
    (bytes, wrote, some_bytes, λ k same. rw⁻¹ (push_all-exports m k m.exports) (reads k same))

-- In a module that has at least one export and fewer than 2 ^ 32, each of a declaration of the
-- module and with a name shorter than 2 ^ 32 bytes, the export section is written without an
-- exception. Read into the module without its exports, wherever it stands, it gives the module, and
-- no more is taken.
pub decode-encode_export_section :
    (m : WasmModule) (rest : List ℕ) (pos more_room : ℕ)
    → 0 < length m.exports
    → U32 (length m.exports)
    → All (ExportFits m) m.exports
    → (bytes : List ℕ) × (encode_export_section m ≡ ok bytes)
      × (decode_export_section
            (record m { exports = [] })
            (at (bytes ++ rest) pos (pos + length bytes + more_room))
          ≡ ok (m, at rest (pos + length bytes) (pos + length bytes + more_room)))
unfolding descriptor get_func get_table get_memory get_global
decode-encode_export_section m rest pos more_room some_exports few fits =
    let (bytes, wrote, _, reads) = export_section-Reads m some_exports few fits in
    (
      bytes,
      wrote,
      reads (record m { exports = [] }) (λ kind i. refl) rest pos (pos + length bytes + more_room)
          (omega arith),
    )
