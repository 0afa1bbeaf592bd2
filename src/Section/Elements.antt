-- ===== src/Section/Elements.antt =====
-- Theorems on the elements of src/parse.cpp and src/encode.cpp.
use wasm_instrument.Prelude.{
  ℕ, ◌+◌, ◌<◌, ◌≡◌, refl, sym, ap, ◌∙◌, List, [], ◌∷◌, ◌++◌, ◌==◌, true, length, All, arith,
  append_assoc, append-nil,
}
use mathlib.Core.Path.{fun_ext}
use wasm_instrument.Prelude.Result.{ok}
use wasm_instrument.Leb.{encode_u32leb}
use wasm_instrument.Buffer.{pure, read_u32leb}
use wasm_instrument.Buffer.Reads.{
  Reads, at, Reads-pure, Reads-bind, Reads-then, Reads-lift, read_u32leb-Reads,
}
use wasm_instrument.Ir.{Ptr, ElemDecl, WasmModule}
use wasm_instrument.Ir.Access.{get_func, get_func_idx}
use wasm_instrument.Inst.Classes.{write_idx}
use wasm_instrument.Inst.Encodable.{Found, U32}
use wasm_instrument.Inst.Indices.{found-idx, found-elem}
use wasm_instrument.Section.Bodies.{
  decode_const_off_expr, read_func_idx, read_func_idxs, read_elem, push_elem, read_element,
  decode_element_section,
}
use wasm_instrument.Section.Encode.{write_vec, encode_elem, encode_element_section}
use wasm_instrument.Section.Written.{Item, push_all, section-Reads, vec-Reads}
use wasm_instrument.Section.Offsets.{IsConst, off_expr-Reads}

-- A segment of functions of the module, at a constant offset.
pub record ElemFits (m : WasmModule) (e : ElemDecl) : Type 0 where
  pub no_flag : e.flag ≡ 0
  pub const : IsConst e.opcode_offset
  pub offset_fits : U32 e.table_offset
  pub few_funcs : U32 (length e.funcs)
  pub found : All (Found m.funcs) e.funcs

-- A module in which function indices stand for what they stand for in another.
abbrev pub SameFuncs : WasmModule → WasmModule → Type 0
SameFuncs m k = (i : ℕ) → get_func k i ≡ get_func m i

func_idx-Reads :
    (m : WasmModule) (p : Ptr)
    → Found m.funcs p
    → (bytes : List ℕ) × (write_idx (get_func_idx m p) ≡ ok bytes) × Reads (read_func_idx m) bytes p
unfolding read_func_idx get_func get_func_idx
func_idx-Reads m p (i, h, fits) = (
  encode_u32leb i,
  rw (found-idx m.funcs p i h) refl,
  Reads-then read_u32leb _ (encode_u32leb i) (read_u32leb-Reads i fits)
      (Reads-lift _ (found-elem m.funcs p i h)),
)

func_idxs-Reads :
    (m : WasmModule) (l : List Ptr)
    → All (Found m.funcs) l
    → All
        (λ p.
          (bytes : List ℕ) × (write_idx (get_func_idx m p) ≡ ok bytes)
          × Reads (read_func_idx m) bytes p)
        l
func_idxs-Reads m [] all = tt
func_idxs-Reads m (p ∷ l) (found, all) = (func_idx-Reads m p found, func_idxs-Reads m l all)

idxs-Reads :
    (m : WasmModule) (l : List Ptr)
    → U32 (length l)
    → All (Found m.funcs) l
    → (bytes : List ℕ) × (write_vec (λ p. write_idx (get_func_idx m p)) l ≡ ok bytes)
      × ((k : WasmModule) → SameFuncs m k → Reads (read_func_idxs k) bytes l)
unfolding read_func_idxs read_func_idx
idxs-Reads m l few found =
    let (bytes, wrote, reads) =
      vec-Reads (read_func_idx m) (λ p. write_idx (get_func_idx m p)) l few
        (func_idxs-Reads m l found) in
    (bytes, wrote, λ k same. rw (fun_ext same) reads)

element-Reads :
    (m : WasmModule) (e : ElemDecl)
    → ElemFits m e
    → Item (SameFuncs m) read_element (encode_elem m) push_elem e
unfolding encode_elem read_elem read_element get_func
element-Reads m e fit =
    let (off, off_wrote, off_reads) =
      off_expr-Reads e.opcode_offset e.table_offset fit.const fit.offset_fits in
    let (fs, fs_wrote, fs_reads) = idxs-Reads m e.funcs fit.few_funcs fit.found in
    let zero_flag : (e.flag == 0) ≡ true = ground (arith, fit.no_flag) in
    let flag_fits : U32 e.flag = omega (arith, fit.no_flag) in
    let flag_reads = read_u32leb-Reads e.flag flag_fits in
    (
      encode_u32leb e.flag ++ (off ++ fs),
      rw (zero_flag, off_wrote, fs_wrote) refl,
      λ k same. (
        Reads-then (read_elem k) (λ elem. pure (push_elem k elem))
            (encode_u32leb e.flag ++ (off ++ fs))
            (Reads-bind read_u32leb _ (encode_u32leb e.flag) (off ++ fs) flag_reads (
              rw zero_flag (
                Reads-bind {A = ℕ × ℕ} decode_const_off_expr _ off fs off_reads
                  (Reads-then (read_func_idxs k) _ fs (fs_reads k same) (Reads-pure e)))))
            (Reads-pure (push_elem k e)),
        same,
      ),
    )

elements-Reads :
    (m : WasmModule) (l : List ElemDecl)
    → All (ElemFits m) l
    → All (Item (SameFuncs m) read_element (encode_elem m) push_elem) l
elements-Reads m [] all = tt
elements-Reads m (e ∷ l) (fit, fits) = (element-Reads m e fit, elements-Reads m l fits)

push_all-elems :
    (k : WasmModule) (l : List ElemDecl)
    → push_all push_elem k l ≡ record k { elems = k.elems ++ l }
push_all-elems k [] = ap (λ (l : List ElemDecl). record k { elems = l }) (sym (append-nil k.elems))
push_all-elems k (e ∷ l) =
    push_all-elems (push_elem k e) l
    ∙ ap (λ (l : List ElemDecl). record k { elems = l }) (append_assoc k.elems (e ∷ []) l)

-- The elements of a module are read into any module with the same functions.
pub element_section-Reads :
    (m : WasmModule)
    → 0 < length m.elems
    → U32 (length m.elems)
    → All (ElemFits m) m.elems
    → (bytes : List ℕ) × (encode_element_section m ≡ ok bytes)
      × (0 < length bytes)
      × ((k : WasmModule)
          → SameFuncs m k
          → Reads (decode_element_section k) bytes (record k { elems = k.elems ++ m.elems }))
unfolding encode_element_section decode_element_section
element_section-Reads m some_elems few fits =
    let (bytes, wrote, some_bytes, reads) =
      section-Reads (SameFuncs m) read_element (encode_elem m) push_elem m.elems some_elems few
        (elements-Reads m m.elems fits) in
    (bytes, wrote, some_bytes, λ k same. rw⁻¹ (push_all-elems k m.elems) (reads k same))

-- In a module that has at least one segment of elements and fewer than 2 ^ 32, each with flag 0, an
-- i32.const or i64.const offset of 32 bits and fewer than 2 ^ 32 functions, all of the module and
-- at indices of 32 bits, the element section is written without an exception. Read into the module
-- without its elements, wherever it stands, it gives the module, and no more is taken.
pub decode-encode_element_section :
    (m : WasmModule) (rest : List ℕ) (pos more_room : ℕ)
    → 0 < length m.elems
    → U32 (length m.elems)
    → All (ElemFits m) m.elems
    → (bytes : List ℕ) × (encode_element_section m ≡ ok bytes)
      × (decode_element_section
            (record m { elems = [] })
            (at (bytes ++ rest) pos (pos + length bytes + more_room))
          ≡ ok (m, at rest (pos + length bytes) (pos + length bytes + more_room)))
unfolding get_func
decode-encode_element_section m rest pos more_room some_elems few fits =
    let (bytes, wrote, _, reads) = element_section-Reads m some_elems few fits in
    (
      bytes,
      wrote,
      reads (record m { elems = [] }) (λ i. refl) rest pos (pos + length bytes + more_room)
          (omega arith),
    )
