-- ===== src/Inst/Classes.antt =====
-- What the classes of src/inst_internal.cpp share, and the constructors and encode_imm of its
-- extension classes: bulk memory, SIMD and the lane accesses.
use wasm_instrument.Prelude.{
  ℕ, ◌/◌, ◌^◌, bit_and, bit_or, Bool, ◌||◌, List, ◌++◌, ◌==◌, if◌then◌else◌,
}
use wasm_instrument.Prelude.Result.{
  Result, ok, throw, undefined, block_type_index, tag_opcode, not_a_reftype, unaligned_instructions,
  unknown_imm,
}
use wasm_instrument.Prelude.Result
use wasm_instrument.Leb.{encode_u32leb}
use wasm_instrument.Buffer.{Parser, pure, lift, ◌>>=◌, read_u32leb, read_u8, read_u64, read_list}
use wasm_instrument.Writer.{encode_u8, encode_u64, concat_map}
use wasm_instrument.Ir.{WasmModule, Ptr, Imm}
use wasm_instrument.Ir.Access.{
  get_table, get_memory, get_data, get_table_idx, get_memory_idx, get_data_idx,
}

-- isReftype: WASM_TYPE_EXTERNREF or WASM_TYPE_FUNCREF
abbrev pub is_reftype : ℕ → Bool
is_reftype t = t == 0x6f || t == 0x70

-- What the two memarg classes read: the alignment, the memory and the offset. Bit 6 of the first
-- number says that a memory index follows.
unfoldable pub read_memarg : WasmModule → Parser (ℕ × ℕ × Ptr)
read_memarg m = do
  align ← read_u32leb
  idx ← if bit_and (align / 2 ^ 6) 1 == 1 then read_u32leb else pure 0
  mem ← lift (get_memory m idx)
  offset ← read_u32leb
  pure (bit_and align 0x3f, offset, mem)

-- `uint32_t i = getIdx (p); WR_U32 (i)`
abbrev pub write_idx : Result ℕ → Result (List ℕ)
write_idx r = Result.◌>>=◌ r λ i. ok (encode_u32leb i)

abbrev pub both : Result (List ℕ) → Result (List ℕ) → Result (List ℕ)
both r s = Result.◌>>=◌ r λ xs. Result.◌>>=◌ s λ ys. ok (xs ++ ys)

unfoldable pub write_memarg : WasmModule → ℕ → ℕ → Ptr → Result (List ℕ)
write_memarg m align offset mem = Result.◌>>=◌ (get_memory_idx m mem) λ memidx. ok (
    (if memidx == 0
      then encode_u32leb align
      else encode_u32leb (bit_or align 0x40) ++ encode_u32leb memidx)
    ++ encode_u32leb offset)

unfoldable pub decode_data_memory : WasmModule → Parser Imm
decode_data_memory m = do
  i ← read_u32leb
  d ← lift (get_data m i)
  j ← read_u32leb
  p ← lift (get_memory m j)
  pure (Imm.data_memory d p)

unfoldable pub decode_data : WasmModule → Parser Imm
decode_data m = do i ← read_u32leb; d ← lift (get_data m i); pure (Imm.data_seg d)

unfoldable pub decode_memorycp : WasmModule → Parser Imm
decode_memorycp m = do
  i ← read_u32leb
  dst ← lift (get_memory m i)
  j ← read_u32leb
  src ← lift (get_memory m j)
  pure (Imm.memorycp dst src)

unfoldable pub decode_data_table : WasmModule → Parser Imm
decode_data_table m = do
  i ← read_u32leb
  d ← lift (get_data m i)
  j ← read_u32leb
  t ← lift (get_table m j)
  pure (Imm.data_table d t)

unfoldable pub decode_tablecp : WasmModule → Parser Imm
decode_tablecp m = do
  i ← read_u32leb
  dst ← lift (get_table m i)
  j ← read_u32leb
  src ← lift (get_table m j)
  pure (Imm.tablecp dst src)

unfoldable pub decode_v128 : Parser Imm
decode_v128 = do v0 ← read_u64; v1 ← read_u64; pure (Imm.v128 v0 v1)

unfoldable pub decode_laneidx : Parser Imm
decode_laneidx = do idx ← read_u8; pure (Imm.laneidx idx)

unfoldable pub decode_laneidx16 : Parser Imm
decode_laneidx16 = do l ← read_list 16 read_u8; pure (Imm.laneidx16 l)

unfoldable pub decode_memarg_laneidx : WasmModule → Parser Imm
unfolding read_memarg
decode_memarg_laneidx m = do
  (align, offset, mem) ← read_memarg m
  laneidx ← read_u8
  pure (Imm.memarg_laneidx align offset mem laneidx)

unfoldable pub encode_data_memory : WasmModule → Ptr → Ptr → Result (List ℕ)
encode_data_memory m d p = both (write_idx (get_data_idx m d)) (write_idx (get_memory_idx m p))

unfoldable pub encode_data : WasmModule → Ptr → Result (List ℕ)
encode_data m d = write_idx (get_data_idx m d)

unfoldable pub encode_memorycp : WasmModule → Ptr → Ptr → Result (List ℕ)
encode_memorycp m dst src =
    both (write_idx (get_memory_idx m dst)) (write_idx (get_memory_idx m src))

unfoldable pub encode_data_table : WasmModule → Ptr → Ptr → Result (List ℕ)
encode_data_table m d t = both (write_idx (get_data_idx m d)) (write_idx (get_table_idx m t))

unfoldable pub encode_tablecp : WasmModule → Ptr → Ptr → Result (List ℕ)
encode_tablecp m dst src = both (write_idx (get_table_idx m dst)) (write_idx (get_table_idx m src))

unfoldable pub encode_v128 : ℕ → ℕ → Result (List ℕ)
encode_v128 v0 v1 = ok (encode_u64 v0 ++ encode_u64 v1)

unfoldable pub encode_laneidx : ℕ → Result (List ℕ)
encode_laneidx idx = ok (encode_u8 idx)

unfoldable pub encode_laneidx16 : List ℕ → Result (List ℕ)
encode_laneidx16 l = ok (concat_map encode_u8 l)

unfoldable pub encode_memarg_laneidx : WasmModule → ℕ → ℕ → Ptr → ℕ → Result (List ℕ)
unfolding write_memarg
encode_memarg_laneidx m align offset mem laneidx =
    both (write_memarg m align offset mem) (ok (encode_u8 laneidx))
