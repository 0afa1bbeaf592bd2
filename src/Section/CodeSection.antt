-- ===== src/Section/CodeSection.antt =====
-- Theorems on decode_code_section of src/parse.cpp and encode_code_section of src/encode.cpp.
use wasm_instrument.Prelude.{
  ℕ, zero, suc, ◌+◌, ◌-◌, ◌%◌, ◌^◌, ◌≤◌, ◌<◌, ◌≡◌, refl, ap, List, [], ◌∷◌, ◌++◌, false, ◌==◌,
  length, length-append, append_assoc, drop, All, arith,
}
use mathlib.Core.Path.{fun_ext}
use wasm_instrument.Prelude.Result.{ok}
use wasm_instrument.Leb.{encode_u32leb}
use wasm_instrument.Buffer.Reads.{at, read_u32leb-Reads}
use wasm_instrument.Ir.{Node, FuncDecl, WasmModule}
use wasm_instrument.Ir.Access.{ids}
use wasm_instrument.Inst.Encodable.{U32}
use wasm_instrument.Inst.Reread.{same_decode}
use wasm_instrument.Section.Bodies.{
  decode_body_code, decode_body_from, decode_body, decode_bodies, decode_code_section,
}
use wasm_instrument.Section.Encode.{write_all, std_next, write_defined}
use wasm_instrument.Section.Store.{encode_body, encode_code_section}
use wasm_instrument.Section.Code.{BodyFits, SameCode, ReadsTo, body-ReadsTo}

-- A function of which only the signature is known, as the function section leaves it.
abbrev pub unread_func : FuncDecl → FuncDecl
unread_func f = record {
  sig = f.sig;
  pure_locals = [];
  num_pure_locals = 0;
  code_bytes = [];
  instructions = [];
}

-- The functions behind the first `n` without their code.
abbrev pub unread : ℕ → List (Node FuncDecl) → List (Node FuncDecl)
unread n [] = []
unread (suc n) (f ∷ fs) = f ∷ unread n fs
unread zero (f ∷ fs) = record { id = f.id; decl = unread_func f.decl } ∷ unread zero fs

-- The first `n` functions are the same, and the others have the same addresses, signatures and
-- code.
pub data ReadBack (m : WasmModule) : ℕ → List (Node FuncDecl) → List (Node FuncDecl) → Type 0 where
  none_left : {n : ℕ} → ReadBack m n [] []
  same_import :
      {n : ℕ} {f : Node FuncDecl} {fs gs : List (Node FuncDecl)}
      → ReadBack m n fs gs
      → ReadBack m (suc n) (f ∷ fs) (f ∷ gs)
  same_code :
      {f : Node FuncDecl} {g : FuncDecl} {fs gs : List (Node FuncDecl)}
      → SameCode m f.decl g
      → g.sig ≡ f.decl.sig
      → ReadBack m zero fs gs
      → ReadBack m zero (f ∷ fs) (record { id = f.id; decl = g } ∷ gs)

ids-unread : (n : ℕ) (fs : List (Node FuncDecl)) → ids (unread n fs) ≡ ids fs
ids-unread n [] = refl
ids-unread (suc n) (f ∷ fs) = ap (◌∷◌ f.id) (ids-unread n fs)
ids-unread zero (f ∷ fs) = ap (◌∷◌ f.id) (ids-unread zero fs)

std_next-drop {ℓ} : {A : Type ℓ} (n : ℕ) (l : List A) → n ≤ length l → std_next n l ≡ ok (drop n l)
unfolding std_next
std_next-drop zero l h = refl
std_next-drop (suc n) [] h = absurd (omega arith)
std_next-drop (suc n) (x ∷ l) h = std_next-drop n l (omega arith)

-- All bodies, one behind the other.
bodies-ReadsTo :
    (m : WasmModule) (n : ℕ) (fs : List (Node FuncDecl))
    → n ≤ length fs
    → All (λ (f : Node FuncDecl). BodyFits m f.decl) (drop n fs)
    → (bytes : List ℕ) × (write_all (λ f. encode_body m f.decl) (drop n fs) ≡ ok bytes)
      × ReadsTo (decode_bodies m n (unread n fs)) bytes (λ gs. ReadBack m n fs gs)
unfolding write_all decode_bodies
bodies-ReadsTo m zero [] h fits = (
  [],
  refl,
  λ rest pos limit room. ([], ap (λ p. ok ([], at rest p limit)) (omega arith), ReadBack.none_left),
)
bodies-ReadsTo m (suc n) [] h fits = absurd (omega arith)
bodies-ReadsTo m (suc n) (f ∷ fs) h fits =
    let (bytes, wrote, reads) = bodies-ReadsTo m n fs (omega arith) fits in
    (
      bytes,
      wrote,
      λ rest pos limit room.
          let (gs, known, back) = reads rest pos limit room in
          (f ∷ gs, rw known refl, ReadBack.same_import back),
    )
bodies-ReadsTo m zero (f ∷ fs) h (fit, fits) =
    let (first, wrote, reads) = body-ReadsTo m f.decl (unread_func f.decl) fit in
    let (others, wrote', reads') = bodies-ReadsTo m zero fs (omega arith) fits in
    (
      first ++ others,
      rw (wrote, wrote') refl,
      λ rest pos limit room.
          let (g, known, (like, sig_same)) =
            reads (others ++ rest) pos limit (omega (arith, length-append first others)) in
          let (gs, known', back) =
            reads' rest (pos + length first) limit (omega (arith, length-append first others)) in
          let end : pos + length (first ++ others) ≡ pos + length first + length others =
            omega (arith, length-append first others) in
          (
            record { id = f.id; decl = g } ∷ gs,
            rw (append_assoc first others rest, known, known', end) refl,
            ReadBack.same_code like sig_same back,
          ),
    )

-- The bodies are read alike in the module whose functions have no code yet.
module _ (m : WasmModule) (us : List (Node FuncDecl)) (same : ids us ≡ ids m.funcs) where
  same_bodies :
      (n : ℕ) (fs : List (Node FuncDecl))
      → decode_bodies (record m { funcs = us }) n fs ≡ decode_bodies m n fs
  unfolding decode_bodies decode_body decode_body_from decode_body_code
  same_bodies (suc n) [] = refl
  same_bodies (suc n) (f ∷ fs) = fun_ext (λ b. rw (same_bodies n fs) refl)
  same_bodies zero [] = refl
  same_bodies zero (f ∷ fs) = fun_ext (λ b. rw (same_decode m us same, same_bodies zero fs) refl)

-- In a module that has functions behind its imports, fewer than 2 ^ 32 functions in all, each
-- behind the imports with locals and instructions that can be written and a body shorter than 2 ^
-- 32 bytes, the code section is written without an exception. Read into the module whose functions
-- behind the imports have no code, it gives that module with the functions' locals, code bytes,
-- opcodes and immediates, and no more is taken.
pub decode-encode_code_section :
    (m : WasmModule) (rest : List ℕ) (pos more_room : ℕ)
    → m.imports.num_funcs < length m.funcs
    → U32 (length m.funcs)
    → All (λ (f : Node FuncDecl). BodyFits m f.decl) (drop m.imports.num_funcs m.funcs)
    → (bytes : List ℕ) × (back : List (Node FuncDecl)) × (encode_code_section m ≡ ok bytes)
      × (decode_code_section
            (record m { funcs = unread m.imports.num_funcs m.funcs })
            (at (bytes ++ rest) pos (pos + length bytes + more_room))
          ≡ ok (
            record m { funcs = back },
            at rest (pos + length bytes) (pos + length bytes + more_room),
          ))
      × ReadBack m m.imports.num_funcs m.funcs back
unfolding encode_code_section write_defined decode_code_section
decode-encode_code_section m rest pos more_room some_defined few fits =
    let n = m.imports.num_funcs in
    let us = unread n m.funcs in
    let (elems, wrote, reads) = bodies-ReadsTo m n m.funcs (omega arith) fits in
    let num : (length m.funcs + 2 ^ 64 - n) % 2 ^ 32 ≡ length m.funcs - n = omega arith in
    let count = encode_u32leb (length m.funcs - n) in
    let some_left : (length m.funcs - n == 0) ≡ false = ground arith in
    let size : length (count ++ elems) ≡ length count + length elems = length-append count elems in
    let limit = pos + length (count ++ elems) + more_room in
    let count_read =
      read_u32leb-Reads (length m.funcs - n) (omega arith) (elems ++ rest) pos limit
        (omega (arith, size)) in
    let (back, known, like) = reads rest (pos + length count) limit (omega (arith, size)) in
    let end : pos + length (count ++ elems) ≡ pos + length count + length elems =
      omega (arith, size) in
    let known' : decode_bodies (record m { funcs = us }) n us
          (at (elems ++ rest) (pos + length count) limit)
        ≡ ok (back, at rest (pos + length count + length elems) limit) =
      rw (same_bodies m us (ids-unread n m.funcs) n us) known in
    (
      count ++ elems,
      back,
      rw (num, some_left, std_next-drop n m.funcs (omega arith), wrote) refl,
      rw (append_assoc count elems rest, count_read, known', end) refl,
      like,
    )
