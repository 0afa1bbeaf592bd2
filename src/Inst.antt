-- ===== src/Inst.antt =====
-- The instruction classes of src/inst_internal.cpp, InstParser::next_inst_from_buf of
-- inc/inst_internal.h, and the loops over a function's code of src/parse.cpp and src/encode.cpp.
pub mod Classes
pub mod Values
pub mod Encodable
pub mod Indices
pub mod Pieces
pub mod RoundTrip
pub mod Sequence
pub mod Reread
use wasm_instrument.Prelude.{
  ℕ, zero, suc, ◌+◌, ◌-◌, ◌*◌, ◌/◌, ◌%◌, ◌^◌, bit_and, bit_or, Bool, true, false, ◌||◌, List, [],
  ◌∷◌, ◌++◌, length, ltb, leb, ◌==◌, if◌then◌else◌,
}
use wasm_instrument.Prelude.Result.{
  Result, ok, throw, undefined, block_type_index, tag_opcode, not_a_reftype, unaligned_instructions,
  unknown_imm,
}
use wasm_instrument.Prelude.Result
use wasm_instrument.Leb.{encode_u32leb, encode_i32leb, encode_i64leb}
use wasm_instrument.Buffer.{
  Buffer, Parser, pure, raise, lift, ◌>>=◌, ◌>>◌, read_u32leb, read_i32leb, read_i64leb, read_u8,
  read_u32, read_u64, read_list,
}
use wasm_instrument.Writer.{encode_u8, encode_u32, encode_u64, concat_map}
use wasm_instrument.Opcode.Entry.{
  ImmType, imm_none, imm_blockt, imm_label, imm_labels, imm_func, imm_sig_table, imm_local,
  imm_global, imm_table, imm_memarg, imm_i32, imm_f64, imm_memory, imm_tag, imm_i64, imm_f32,
  imm_refnullt, imm_valts, imm_data_memory, imm_data, imm_memorycp, imm_data_table, imm_tablecp,
  imm_v128, imm_laneidx, imm_laneidx16, imm_memarg_laneidx,
}
use wasm_instrument.Opcode.{opcode_table, imm_type_of, read_opcode, encode_opcode}
use wasm_instrument.Ir.{WasmModule, Ptr, Inst, Imm}
use wasm_instrument.Ir.Access.{
  get_sig, get_func, get_global, get_table, get_memory, get_data, get_sig_idx, get_func_idx,
  get_global_idx, get_table_idx, get_memory_idx, get_data_idx,
}
use Values.{
  decode_i32, decode_f64, decode_memory, decode_i64, decode_f32, decode_refnullt, decode_valts,
  encode_i32, encode_f64, encode_memory, encode_i64, encode_f32, encode_refnullt, encode_valts,
}
use Classes.{
  is_reftype, read_memarg, write_memarg, write_idx, both, decode_data_memory, decode_data,
  decode_memorycp, decode_data_table, decode_tablecp, decode_v128, decode_laneidx, decode_laneidx16,
  decode_memarg_laneidx, encode_data_memory, encode_data, encode_memorycp, encode_data_table,
  encode_tablecp, encode_v128, encode_laneidx, encode_laneidx16, encode_memarg_laneidx,
}

-- The constructor (module, opcode, buf) of the class that ICS chooses for the immediate type.
pub decode_imm : WasmModule → ImmType → Parser Imm
unfolding read_memarg decode_i32 decode_f64 decode_memory decode_i64 decode_f32 decode_refnullt
    decode_valts decode_data_memory decode_data decode_memorycp decode_data_table decode_tablecp
    decode_v128 decode_laneidx decode_laneidx16 decode_memarg_laneidx
decode_imm m imm_none = pure Imm.plain
decode_imm m imm_blockt = do
  value_type ← read_i64leb
  if ltb value_type (2 ^ 63) then raise block_type_index else pure (Imm.blockt value_type)
decode_imm m imm_label = do idx ← read_u32leb; pure (Imm.label idx)
decode_imm m imm_labels = do
  num_labels ← read_u32leb
  idxs ← read_list num_labels read_u32leb
  def_idx ← read_u32leb
  pure (Imm.labels idxs def_idx)
decode_imm m imm_func = do i ← read_u32leb; p ← lift (get_func m i); pure (Imm.func p)
decode_imm m imm_sig_table = do
  i ← read_u32leb
  s ← lift (get_sig m i)
  j ← read_u32leb
  t ← lift (get_table m j)
  pure (Imm.sig_table s t)
decode_imm m imm_local = do idx ← read_u32leb; pure (Imm.local idx)
decode_imm m imm_global = do i ← read_u32leb; p ← lift (get_global m i); pure (Imm.global p)
decode_imm m imm_table = do i ← read_u32leb; p ← lift (get_table m i); pure (Imm.table p)
decode_imm m imm_memarg = do
  (align, offset, mem) ← read_memarg m
  pure (Imm.memarg align offset mem)
decode_imm m imm_i32 = decode_i32
decode_imm m imm_f64 = decode_f64
decode_imm m imm_memory = decode_memory m
decode_imm m imm_tag = raise tag_opcode
decode_imm m imm_i64 = decode_i64
decode_imm m imm_f32 = decode_f32
decode_imm m imm_refnullt = decode_refnullt
decode_imm m imm_valts = decode_valts
decode_imm m imm_data_memory = decode_data_memory m
decode_imm m imm_data = decode_data m
decode_imm m imm_memorycp = decode_memorycp m
decode_imm m imm_data_table = decode_data_table m
decode_imm m imm_tablecp = decode_tablecp m
decode_imm m imm_v128 = decode_v128
decode_imm m imm_laneidx = decode_laneidx
decode_imm m imm_laneidx16 = decode_laneidx16
decode_imm m imm_memarg_laneidx = decode_memarg_laneidx m

-- encode_imm of each class. The 16 lanes are a list of that length.
unfoldable pub encode_imm : WasmModule → Imm → Result (List ℕ)
unfolding write_memarg encode_i32 encode_f64 encode_memory encode_i64 encode_f32 encode_refnullt
    encode_valts encode_data_memory encode_data encode_memorycp encode_data_table encode_tablecp
    encode_v128 encode_laneidx encode_laneidx16 encode_memarg_laneidx
encode_imm m Imm.plain = ok []
encode_imm m (Imm.blockt t) = ok (encode_i64leb t)
encode_imm m (Imm.label idx) = ok (encode_u32leb idx)
encode_imm m (Imm.labels idxs def_idx) = ok (
    encode_u32leb (length idxs % 2 ^ 32)
    ++ (concat_map encode_u32leb idxs ++ encode_u32leb def_idx))
encode_imm m (Imm.func p) = write_idx (get_func_idx m p)
encode_imm m (Imm.sig_table s t) =
    both (write_idx (get_sig_idx m s)) (write_idx (get_table_idx m t))
encode_imm m (Imm.local idx) = ok (encode_u32leb idx)
encode_imm m (Imm.global p) = write_idx (get_global_idx m p)
encode_imm m (Imm.table p) = write_idx (get_table_idx m p)
encode_imm m (Imm.memarg align offset mem) = write_memarg m align offset mem
encode_imm m (Imm.i32 v) = encode_i32 v
encode_imm m (Imm.f64 v) = encode_f64 v
encode_imm m (Imm.memory p) = encode_memory m p
encode_imm m Imm.tag = throw tag_opcode
encode_imm m (Imm.i64 v) = encode_i64 v
encode_imm m (Imm.f32 v) = encode_f32 v
encode_imm m (Imm.refnullt t) = encode_refnullt t
encode_imm m (Imm.valts ts) = encode_valts ts
encode_imm m (Imm.data_memory d p) = encode_data_memory m d p
encode_imm m (Imm.data_seg d) = encode_data m d
encode_imm m (Imm.memorycp dst src) = encode_memorycp m dst src
encode_imm m (Imm.data_table d t) = encode_data_table m d t
encode_imm m (Imm.tablecp dst src) = encode_tablecp m dst src
encode_imm m (Imm.v128 v0 v1) = encode_v128 v0 v1
encode_imm m (Imm.laneidx idx) = encode_laneidx idx
encode_imm m (Imm.laneidx16 l) = encode_laneidx16 l
encode_imm m (Imm.memarg_laneidx align offset mem laneidx) =
    encode_memarg_laneidx m align offset mem laneidx

-- InstParser::next_inst_from_buf. The first instruction of a buffer has pc 1.
pub next_inst_from_buf : WasmModule → Parser Inst
unfolding decode_imm
next_inst_from_buf m b = Result.◌>>=◌ (read_opcode b) λ (opcode, c).
    Result.◌>>=◌ (opcode_table opcode) λ e.
      Result.◌>>=◌ (decode_imm m (imm_type_of e) c)
        λ (imm, d). ok (record { opcode = opcode; orig_pc = (b.pos + 1) % 2 ^ 32; imm = imm }, d)

-- `while (buf.ptr < buf.end)` of decode_expr_to_insts, with fuel for its rounds: each reads a byte.
insts_loop : WasmModule → ℕ → Parser (List Inst)
unfolding next_inst_from_buf
insts_loop m zero b = undefined
insts_loop m (suc rounds) b =
    let next =
      Result.◌>>=◌ (next_inst_from_buf m b)
        λ (i, c). Result.◌>>=◌ (insts_loop m rounds c) λ (l, d). ok (i ∷ l, d) in
    if leb b.limit b.pos then ok ([], b) else next

pub decode_expr_to_insts : WasmModule → Parser (List Inst)
unfolding insts_loop
decode_expr_to_insts m b =
    Result.◌>>=◌ (insts_loop m (b.limit - b.pos + 1) b)
      λ (ilist, c). if c.pos == c.limit then ok (ilist, c) else throw unaligned_instructions

-- encode_expr_to_insts with USE_INSTLIST, as it is compiled.
unfoldable pub encode_expr_to_insts : WasmModule → List Inst → Result (List ℕ)
unfolding encode_imm
encode_expr_to_insts m [] = ok []
encode_expr_to_insts m (i ∷ instlist) = Result.◌>>=◌ (encode_opcode i.opcode) λ op.
    Result.◌>>=◌ (encode_imm m i.imm)
      λ imm. Result.◌>>=◌ (encode_expr_to_insts m instlist) λ others. ok (op ++ (imm ++ others))
