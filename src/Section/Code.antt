-- ===== src/Section/Code.antt =====
-- Theorems on the code section of src/parse.cpp and src/encode.cpp.
use wasm_instrument.Prelude.{
  ℕ, ◌+◌, ◌-◌, ◌%◌, ◌^◌, ◌≤◌, ◌≡◌, refl, sym, ap, ◌∙◌, List, [], ◌∷◌, ◌++◌, map, false, ltb, length,
  length-append, append_assoc, All, arith,
}
use wasm_instrument.Prelude.Result.{ok}
use wasm_instrument.Leb.{encode_u32leb}
use wasm_instrument.Buffer.{Parser, pure, read_u32leb, read_u8, read_list}
use wasm_instrument.Buffer.Reads.{
  Reads, at, Reads-pure, Reads-bind, Reads-then, Reads-list, read_u32leb-Reads, read_u8-Reads,
  read_bytes-Reads,
}
use wasm_instrument.Writer.{encode_u8, concat_map, preencode_u32leb}
use wasm_instrument.Ir.{LocalCse, Inst, FuncDecl, WasmModule}
use wasm_instrument.Inst.{decode_expr_to_insts, encode_expr_to_insts}
use wasm_instrument.Inst.Encodable.{U8, U32}
use wasm_instrument.Inst.Sequence.{EncodableInst, code_of, decode-encode_expr_to_insts}
use wasm_instrument.Section.Bodies.{
  read_cse, total, decode_locals, decode_body_code, decode_body_from, decode_body,
}
use wasm_instrument.Section.Store.{write_cse, encode_locals, encode_code, with_size, encode_body}

-- A group of locals of the declared widths.
abbrev pub CseFits : LocalCse → Type 0
CseFits c = U32 c.count × U8 c.type

cse-Reads : (c : LocalCse) → CseFits c → Reads read_cse (write_cse c) c
unfolding read_cse write_cse
cse-Reads c (few, byte) =
    Reads-bind read_u32leb _ (encode_u32leb c.count) (encode_u8 c.type)
      (read_u32leb-Reads c.count few)
      (Reads-then read_u8 (λ type. pure (record { count = c.count; type = type }))
        (encode_u8 c.type) (read_u8-Reads c.type byte) (Reads-pure c))

cses-Reads : (l : List LocalCse) → All CseFits l → All (λ c. Reads read_cse (write_cse c) c) l
cses-Reads [] all = tt
cses-Reads (c ∷ l) (fit, fits) = (cse-Reads c fit, cses-Reads l fits)

locals-Reads :
    (l : List LocalCse)
    → U32 (length l)
    → All CseFits l
    → Reads {A = List LocalCse × ℕ} decode_locals (encode_locals l) (l, total l)
unfolding decode_locals encode_locals
locals-Reads l few fits =
    let same : length l % 2 ^ 32 ≡ length l = omega arith in
    rw same (
      Reads-bind read_u32leb _ (encode_u32leb (length l)) (concat_map write_cse l)
        (read_u32leb-Reads (length l) few)
        (Reads-then (read_list (length l) read_cse)
          (λ csv. pure {A = List LocalCse × ℕ} (csv, total csv)) (concat_map write_cse l)
          (Reads-list read_cse write_cse l (cses-Reads l fits))
          (Reads-pure {A = List LocalCse × ℕ} (l, total l))))

-- A function whose body can be written: its locals and instructions fit, and so does its size.
pub record BodyFits (m : WasmModule) (f : FuncDecl) : Type 0 where
  pub few_locals : U32 (length f.pure_locals)
  pub locals_fit : All CseFits f.pure_locals
  pub insts_fit : All (EncodableInst m) f.instructions
  pub code : List ℕ
  pub written : encode_code m f ≡ ok code
  pub short : U32 (length code)

-- A function that has been read from what was written for another: the locals and their number, the
-- bytes of the code, and the opcodes and immediates.
pub record SameCode (m : WasmModule) (f g : FuncDecl) : Type 0 where
  pub locals : g.pure_locals ≡ f.pure_locals
  pub number : g.num_pure_locals ≡ total f.pure_locals
  pub bytes : encode_expr_to_insts m f.instructions ≡ ok g.code_bytes
  pub code : map code_of g.instructions ≡ map code_of f.instructions

-- The bytes are taken, whatever follows, and what is read satisfies `P`.
abbrev pub ReadsTo {ℓ κ} : {A : Type ℓ} → Parser A → List ℕ → (A → Type κ) → Type (ℓ ⊔ κ)
ReadsTo {A = A} p xs P =
    (rest : List ℕ) (pos limit : ℕ)
    → pos + length xs ≤ limit
    → (a : A) × (p (at (xs ++ rest) pos limit) ≡ ok (a, at rest (pos + length xs) limit)) × P a

body_code-ReadsTo :
    (m : WasmModule) (f g : FuncDecl) (insts rest : List ℕ) (pos limit : ℕ)
    → All (EncodableInst m) f.instructions
    → encode_expr_to_insts m f.instructions ≡ ok insts
    → U32 (length insts)
    → pos + length insts ≤ limit
    → (back : List Inst) × (decode_body_code m g (pos + length insts) (at (insts ++ rest) pos limit)
        ≡ ok (
          record g { code_bytes = insts; instructions = back },
          at rest (pos + length insts) limit,
        ))
      × (map code_of back ≡ map code_of f.instructions)
unfolding decode_body_code
body_code-ReadsTo m f g insts rest pos limit fits wrote short room =
    let (bytes, back, wrote', reads, same) =
      decode-encode_expr_to_insts m f.instructions rest 0 fits in
    let inside : ltb (pos + length insts) pos ≡ false = ground arith in
    let size : pos + length insts - pos ≡ length insts = omega arith in
    let cut : length insts % 2 ^ 32 ≡ length insts = omega arith in
    let reads' = placed bytes back (only (sym wrote' ∙ wrote)) reads in
    (back, rw (inside, size, cut, read_bytes-Reads insts rest pos limit room, reads') refl, same)
  where
    only : {xs ys : List ℕ} → ok xs ≡ ok ys → xs ≡ ys
    only h = cc

    placed :
        (bytes : List ℕ) (back : List Inst)
        → bytes ≡ insts
        → decode_expr_to_insts m (at (bytes ++ rest) 0 (0 + length bytes))
          ≡ ok (back, at rest (0 + length bytes) (0 + length bytes))
        → decode_expr_to_insts m (at (insts ++ rest) 0 (length insts))
          ≡ ok (back, at rest (length insts) (length insts))
    placed bytes back e h =
        let none_before : 0 + length insts ≡ length insts = omega arith in rw (e, none_before) at h

body_from-ReadsTo :
    (m : WasmModule) (f g : FuncDecl) (insts rest : List ℕ) (pos limit size : ℕ)
    → BodyFits m f
    → encode_expr_to_insts m f.instructions ≡ ok insts
    → size ≡ length (encode_locals f.pure_locals) + length insts
    → U32 size
    → pos + size ≤ limit
    → (after : FuncDecl) × (decode_body_from m g size
          (at (encode_locals f.pure_locals ++ (insts ++ rest)) pos limit)
        ≡ ok (after, at rest (pos + size) limit))
      × SameCode m f after
      × (after.sig ≡ g.sig)
unfolding decode_body_from
body_from-ReadsTo m f g insts rest pos limit size fit wrote parts short room =
    let lb = encode_locals f.pure_locals in
    let locals = f.pure_locals in
    let g' : FuncDecl = record g { pure_locals = locals; num_pure_locals = total locals } in
    let end : pos + size ≡ pos + length lb + length insts = omega (arith, parts) in
    let locals_read =
      locals-Reads locals fit.few_locals fit.locals_fit (insts ++ rest) pos limit
        (omega (arith, parts)) in
    let (back, known, same) =
      body_code-ReadsTo m f g' insts rest (pos + length lb) limit fit.insts_fit wrote
        (omega (arith, parts)) (omega (arith, parts)) in
    (
      record g' { code_bytes = insts; instructions = back },
      rw (locals_read, end, known) refl,
      record { locals = refl; number = refl; bytes = wrote; code = same },
      refl,
    )

-- The body behind its size.
sized_body-ReadsTo :
    (m : WasmModule) (f g : FuncDecl) (insts : List ℕ) (n : ℕ)
    → BodyFits m f
    → encode_expr_to_insts m f.instructions ≡ ok insts
    → n ≡ length (encode_locals f.pure_locals) + length insts
    → U32 n
    → ReadsTo
        (decode_body m g)
        (encode_u32leb n ++ (encode_locals f.pure_locals ++ insts))
        (λ after. SameCode m f after × (after.sig ≡ g.sig))
unfolding decode_body
sized_body-ReadsTo m f g insts n fit wrote parts short rest pos limit room =
    let lb = encode_locals f.pure_locals in
    let whole : length (encode_u32leb n ++ (lb ++ insts)) ≡ length (encode_u32leb n) + n =
      omega (arith, length-append (encode_u32leb n) (lb ++ insts), length-append lb insts, parts) in
    let end : pos + length (encode_u32leb n ++ (lb ++ insts)) ≡ pos + length (encode_u32leb n) + n =
      omega (arith, whole) in
    let size_read =
      read_u32leb-Reads n short (lb ++ (insts ++ rest)) pos limit (omega (arith, whole)) in
    let (after, known, like, sig_same) =
      body_from-ReadsTo m f g insts rest (pos + length (encode_u32leb n)) limit n fit wrote parts
        short (omega (arith, whole)) in
    (
      after,
      rw
          (
            append_assoc (encode_u32leb n) (lb ++ insts) rest,
            append_assoc lb insts rest,
            size_read,
            known,
            end,
          )
          refl,
      (like, sig_same),
    )

pub body-ReadsTo :
    (m : WasmModule) (f g : FuncDecl)
    → BodyFits m f
    → (bytes : List ℕ) × (encode_body m f ≡ ok bytes)
      × ReadsTo (decode_body m g) bytes (λ after. SameCode m f after × (after.sig ≡ g.sig))
unfolding encode_body encode_code with_size preencode_u32leb
body-ReadsTo m f g fit =
    let (insts, back, wrote, _, _) =
      decode-encode_expr_to_insts m f.instructions [] 0 fit.insts_fit in
    let lb = encode_locals f.pure_locals in
    let whole : encode_code m f ≡ ok (lb ++ insts) = rw wrote refl in
    let same : length fit.code ≡ length (lb ++ insts) =
      ap length (only (sym fit.written ∙ whole)) in
    let short : U32 (length (lb ++ insts)) = omega (arith, fit.short, same) in
    let cut : length (lb ++ insts) % 2 ^ 32 ≡ length (lb ++ insts) = omega arith in
    (
      encode_u32leb (length (lb ++ insts)) ++ (lb ++ insts),
      rw (wrote, cut) refl,
      sized_body-ReadsTo m f g insts (length (lb ++ insts)) fit wrote (length-append lb insts)
          short,
    )
  where
    only : {xs ys : List ℕ} → ok xs ≡ ok ys → xs ≡ ys
    only h = cc
