-- ===== src/Inst/Sequence.antt =====
-- Theorems on decode_expr_to_insts and encode_expr_to_insts, of src/parse.cpp and src/encode.cpp.
use wasm_instrument.Prelude.{
  ℕ, zero, suc, ◌+◌, ◌-◌, ◌%◌, ◌^◌, ◌≤◌, ◌<◌, ◌≡◌, refl, sym, ap, ◌∙◌, true, false, List, [], ◌∷◌,
  ◌++◌, map, leb, ◌==◌, length, length-append, append_assoc, arith, All, Option,
}
use wasm_instrument.Prelude.Result.{ok}
use wasm_instrument.Buffer.Reads.{Reads, at}
use wasm_instrument.Opcode.Entry.{Row}
use wasm_instrument.Opcode.{is_extended, opcode_table, imm_type_of, read_opcode}
use wasm_instrument.Opcode.RoundTrip.{legal, encode-read_opcode, encode_opcode-pos}
use wasm_instrument.Ir.{WasmModule, Inst, Imm}
use wasm_instrument.Inst.{
  decode_imm, next_inst_from_buf, insts_loop, decode_expr_to_insts, encode_expr_to_insts,
}
use wasm_instrument.Inst.Encodable.{Encodable}
use wasm_instrument.Inst.RoundTrip.{imm-RoundTrips}

-- The opcode is legal, and the instruction carries what the table says that the opcode takes.
pub record EncodableInst (m : WasmModule) (i : Inst) : Type 0 where
  pub entry : Option Row
  pub opcode_legal : legal i.opcode ≡ true
  pub not_prefix : is_extended i.opcode ≡ false
  pub in_table : opcode_table i.opcode ≡ ok entry
  pub imm_fits : Encodable m (imm_type_of entry) i.imm

-- An instruction without the place where it was read.
abbrev pub code_of : Inst → ℕ × Imm
code_of i = (i.opcode, i.imm)

-- Instruction i is written as the bytes, and they are read back.
ReadsInst : WasmModule → Inst → List ℕ → Type 0
ReadsInst m i bytes =
    (rest : List ℕ) (pos limit : ℕ)
    → pos + length bytes ≤ limit
    → next_inst_from_buf m (at (bytes ++ rest) pos limit)
      ≡ ok (
        record { opcode = i.opcode; orig_pc = (pos + 1) % 2 ^ 32; imm = i.imm },
        at rest (pos + length bytes) limit,
      )

inst-Reads :
    (m : WasmModule) (i : Inst) (op_bytes imm_bytes : List ℕ) (e : Option Row)
    → opcode_table i.opcode ≡ ok e
    → Reads read_opcode op_bytes i.opcode
    → Reads (decode_imm m (imm_type_of e)) imm_bytes i.imm
    → ReadsInst m i (op_bytes ++ imm_bytes)
unfolding ReadsInst next_inst_from_buf
inst-Reads m i op_bytes imm_bytes e found op imm rest pos limit fits =
    rw
      (
        append_assoc op_bytes imm_bytes rest,
        op (imm_bytes ++ rest) pos limit (omega (arith, length-append op_bytes imm_bytes)),
        found,
        imm rest (pos + length op_bytes) limit (omega (arith, length-append op_bytes imm_bytes)),
      )
      (ap
        (λ n. ok (
          record { opcode = i.opcode; orig_pc = (pos + 1) % 2 ^ 32; imm = i.imm },
          at rest n limit,
        ))
        (omega (arith, length-append op_bytes imm_bytes)))

-- What is written for a list: one piece of at least a byte for each instruction.
Written : WasmModule → List Inst → List ℕ → Type 0
Written m [] bytes = bytes ≡ []
Written m (i ∷ l) bytes =
    (first : List ℕ) × (others : List ℕ) × (bytes ≡ first ++ others)
    × (0 < length first)
    × ReadsInst m i first
    × Written m l others

write-expr :
    (m : WasmModule) (l : List Inst)
    → All (EncodableInst m) l
    → (bytes : List ℕ) × (encode_expr_to_insts m l ≡ ok bytes) × Written m l bytes
unfolding encode_expr_to_insts Written
write-expr m [] all = ([], refl, refl)
write-expr m (i ∷ l) (fine, all) =
    let (op_bytes, op_wrote, op_reads) =
      encode-read_opcode i.opcode fine.opcode_legal fine.not_prefix in
    let (imm_bytes, imm_wrote, imm_reads) =
      imm-RoundTrips m (imm_type_of fine.entry) i.imm fine.imm_fits in
    let (others, wrote, pieces) = write-expr m l all in
    (
      op_bytes ++ (imm_bytes ++ others),
      rw (op_wrote, imm_wrote, wrote) refl,
      (
        op_bytes ++ imm_bytes,
        others,
        sym (append_assoc op_bytes imm_bytes others),
        omega
            (arith, encode_opcode-pos i.opcode op_bytes op_wrote, length-append op_bytes imm_bytes),
        inst-Reads m i op_bytes imm_bytes fine.entry fine.in_table op_reads imm_reads,
        pieces,
      ),
    )

loop-Reads :
    (m : WasmModule) (l : List Inst) (bytes rest : List ℕ) (rounds pos limit : ℕ)
    → Written m l bytes
    → pos + length bytes ≡ limit
    → length bytes < rounds
    → (back : List Inst) × (insts_loop m rounds (at (bytes ++ rest) pos limit)
        ≡ ok (back, at rest limit limit))
      × (map code_of back ≡ map code_of l)
unfolding insts_loop Written ReadsInst
loop-Reads m l bytes rest zero pos limit w e enough = absurd (omega arith)
loop-Reads m [] bytes rest (suc rounds) pos limit w e enough =
    let none_left : length bytes ≡ 0 = ap length w in
    let here : pos ≡ limit = omega arith in
    let ended : leb limit pos ≡ true = ground arith in ([], rw (ended, w, here) refl, refl)
loop-Reads m (i ∷ l) bytes rest (suc rounds) pos limit
      (first, others, whole, some_bytes, reads, pieces) e enough =
    let parts : length bytes ≡ length first + length others =
      ap length whole ∙ length-append first others in
    let inside : leb limit pos ≡ false = ground arith in
    let (back, known, same) =
      loop-Reads m l others rest rounds (pos + length first) limit pieces (omega arith)
        (omega arith) in
    (
      record { opcode = i.opcode; orig_pc = (pos + 1) % 2 ^ 32; imm = i.imm } ∷ back,
      rw
          (
            inside,
            whole,
            append_assoc first others rest,
            reads (others ++ rest) pos limit (omega arith),
            known,
          )
          refl,
      ap (◌∷◌ (code_of i)) same,
    )

-- Code whose instructions carry what their opcodes take is written without an exception, and
-- decoding just what was written, at any place, gives the same opcodes and immediates.
pub decode-encode_expr_to_insts :
    (m : WasmModule) (l : List Inst) (rest : List ℕ) (pos : ℕ)
    → All (EncodableInst m) l
    → (bytes : List ℕ) × (back : List Inst) × (encode_expr_to_insts m l ≡ ok bytes)
      × (decode_expr_to_insts m (at (bytes ++ rest) pos (pos + length bytes))
          ≡ ok (back, at rest (pos + length bytes) (pos + length bytes)))
      × (map code_of back ≡ map code_of l)
unfolding decode_expr_to_insts
decode-encode_expr_to_insts m l rest pos all =
    let (bytes, wrote, pieces) = write-expr m l all in
    let end = pos + length bytes in
    let rounds : length bytes < end - pos + 1 = omega arith in
    let (back, known, same) =
      loop-Reads m l bytes rest (end - pos + 1) pos end pieces refl rounds in
    let aligned : end == end ≡ true = ground arith in
    (bytes, back, wrote, rw (known, aligned) refl, same)
