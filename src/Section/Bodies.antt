-- ===== src/Section/Bodies.antt =====
-- The sections of src/parse.cpp that hold code and data: elements, function bodies and data.
use wasm_instrument.Prelude.{
  ℕ, zero, suc, ◌+◌, ◌-◌, ◌%◌, ◌^◌, List, [], ◌∷◌, ◌++◌, Option, none, some, ◌==◌, ltb,
  if◌then◌else◌,
}
use wasm_instrument.Prelude.Result.{
  Result, ok, throw, undefined, require, offset_opcode, malformed_end, bad_flag,
  unaligned_instructions, datacount_mismatch,
}
use wasm_instrument.Prelude.Result
use wasm_instrument.Buffer.{
  Parser, pure, raise, lift, ◌>>=◌, ◌>>◌, read_u32leb, read_i32leb, read_i64leb, read_u8,
  read_bytes, read_list,
}
use wasm_instrument.Opcode.{read_opcode}
use wasm_instrument.Ir.{Node, Ptr, LocalCse, FuncDecl, DataDecl, ElemDecl, WasmModule}
use wasm_instrument.Ir.Access.{get_func, get_memory}
use wasm_instrument.Inst.{decode_expr_to_insts}
use wasm_instrument.Section.Decode.{repeat}

-- The offset is cut to 32 bits where it is returned.
unfoldable pub offset_of : ℕ → Parser ℕ
offset_of opc =
    if opc == 0x41
    then read_i32leb
    else if opc == 0x42
    then (read_i64leb >>= λ offset. pure (offset % 2 ^ 32))
    else raise offset_opcode

-- The offset and the opcode.
unfoldable pub decode_const_off_expr : Parser (ℕ × ℕ)
unfolding offset_of
decode_const_off_expr = do
  opc ← read_opcode
  offset ← offset_of opc
  end ← read_opcode
  lift (require malformed_end (end == 0x0b))
  pure (offset, opc)

unfoldable pub read_func_idx : WasmModule → Parser Ptr
read_func_idx m = do fn_idx ← read_u32leb; lift (get_func m fn_idx)

unfoldable pub read_func_idxs : WasmModule → Parser (List Ptr)
unfolding read_func_idx
read_func_idxs m = do num_idxs ← read_u32leb; read_list num_idxs (read_func_idx m)

unfoldable pub read_elem : WasmModule → Parser ElemDecl
unfolding decode_const_off_expr read_func_idxs
read_elem m = do
  flag ← read_u32leb
  lift (require bad_flag (flag == 0))
  (offset, opcode) ← decode_const_off_expr
  funcs ← read_func_idxs m
  pure (record { flag = flag; opcode_offset = opcode; table_offset = offset; funcs = funcs })

abbrev pub push_elem : WasmModule → ElemDecl → WasmModule
push_elem m elem = record m { elems = m.elems ++ elem ∷ [] }

unfoldable pub read_element : WasmModule → Parser WasmModule
unfolding read_elem
read_element m = do elem ← read_elem m; pure (push_elem m elem)

unfoldable pub decode_element_section : WasmModule → Parser WasmModule
unfolding repeat read_element
decode_element_section m = do num_elem ← read_u32leb; repeat num_elem read_element m

unfoldable pub read_cse : Parser LocalCse
read_cse = do count ← read_u32leb; type ← read_u8; pure (record { count = count; type = type })

-- `total_ct`, which wraps.
unfoldable pub total : List LocalCse → ℕ
total [] = 0
total (c ∷ cs) = (c.count + total cs) % 2 ^ 32

-- The groups of locals and their number.
unfoldable pub decode_locals : Parser (List LocalCse × ℕ)
unfolding read_cse total
decode_locals = do
  num_localcse ← read_u32leb
  csv ← read_list num_localcse read_cse
  pure (csv, total csv)

-- The end of the body is `size` on from behind the size; `length` of the string of bytes is cut to
-- 32 bits. A body whose locals pass its end has an instruction pointer behind the end.
unfoldable pub decode_body_code : WasmModule → FuncDecl → ℕ → Parser FuncDecl
decode_body_code m func end b =
    if ltb end b.pos
    then throw unaligned_instructions
    else Result.◌>>=◌ (read_bytes ((end - b.pos) % 2 ^ 32) b) λ (code_bytes, c).
      Result.◌>>=◌ (decode_expr_to_insts m (record { rest = b.rest; pos = 0; limit = end - b.pos }))
        λ (instructions, d).
          ok (record func { code_bytes = code_bytes; instructions = instructions }, c)

unfoldable pub decode_body_from : WasmModule → FuncDecl → ℕ → Parser FuncDecl
unfolding decode_locals decode_body_code
decode_body_from m func size b = Result.◌>>=◌ (decode_locals b) λ ((locals, num), c).
    decode_body_code m (record func { pure_locals = locals; num_pure_locals = num }) (b.pos + size)
      c

unfoldable pub decode_body : WasmModule → FuncDecl → Parser FuncDecl
unfolding decode_body_from
decode_body m func = do size ← read_u32leb; decode_body_from m func size

-- `std::next` past the end is undefined. Instructions point at declarations by their numbers, which
-- the loop does not change.
unfoldable pub decode_bodies : WasmModule → ℕ → List (Node FuncDecl) → Parser (List (Node FuncDecl))
unfolding decode_body
decode_bodies m (suc n) [] = lift undefined
decode_bodies m (suc n) (f ∷ fs) = do others ← decode_bodies m n fs; pure (f ∷ others)
decode_bodies m zero [] = pure []
decode_bodies m zero (f ∷ fs) = do
  decl ← decode_body m f.decl
  others ← decode_bodies m zero fs
  pure (record { id = f.id; decl = decl } ∷ others)

-- The number of functions that is read is not used.
unfoldable pub decode_code_section : WasmModule → Parser WasmModule
unfolding decode_bodies
decode_code_section m = do
  num_fn ← read_u32leb
  funcs ← decode_bodies m m.imports.num_funcs m.funcs
  pure (record m { funcs = funcs })

abbrev pub new_data : Ptr → Node DataDecl
new_data p = record {
  id = p;
  decl = record { flag = 0; opcode_offset = 0; mem_offset = 0; mem = none; bytes = [] };
}

unfoldable pub push_datas : ℕ → WasmModule → WasmModule
push_datas zero m = m
push_datas (suc n) m =
    push_datas n (record m { datas = m.datas ++ new_data m.next_id ∷ []; next_id = m.next_id + 1 })

-- The counter of the loop is an `int`, which overflows at 2 ^ 31.
unfoldable pub make_datas : ℕ → WasmModule → Result WasmModule
unfolding push_datas
make_datas num m = if ltb num (2 ^ 31) then ok (push_datas num m) else undefined

-- The cases of a data segment's flag: its opcode, offset and memory.
unfoldable pub place_of_flag : WasmModule → ℕ → ℕ → Parser (ℕ × ℕ × Option Ptr)
unfolding decode_const_off_expr
place_of_flag m flag old_opcode =
    if flag == 0
    then (decode_const_off_expr >>= λ (offset, opcode).
        lift (get_memory m 0) >>= λ mem. pure (opcode, offset, some mem))
    else if flag == 1
    then pure (old_opcode, 0, none)
    else if flag == 2
    then (read_u32leb >>= λ mem_idx. decode_const_off_expr >>= λ (offset, opcode).
        lift (get_memory m mem_idx) >>= λ mem. pure (opcode, offset, some mem))
    else raise bad_flag

unfoldable pub decode_data_seg : WasmModule → DataDecl → Parser DataDecl
unfolding place_of_flag
decode_data_seg m seg = do
  flag ← read_u32leb
  (opcode, offset, mem) ← place_of_flag m flag seg.opcode_offset
  num_bytes ← read_u32leb
  bytes ← read_bytes num_bytes
  pure (record {
    flag = flag;
    opcode_offset = opcode;
    mem_offset = offset;
    mem = mem;
    bytes = bytes;
  })

unfoldable pub decode_datas : WasmModule → List (Node DataDecl) → Parser (List (Node DataDecl))
unfolding decode_data_seg
decode_datas m [] = pure []
decode_datas m (d ∷ ds) = do
  decl ← decode_data_seg m d.decl
  others ← decode_datas m ds
  pure (record { id = d.id; decl = decl } ∷ others)

-- The segments are there already where the data count was read.
unfoldable pub datas_for : WasmModule → ℕ → Result WasmModule
unfolding make_datas
datas_for m num_datas =
    if m.has_datacount == 0
    then make_datas num_datas m
    else Result.◌>>◌ (require datacount_mismatch (num_datas == m.num_datas_datacount)) (ok m)

unfoldable pub decode_data_section : WasmModule → Parser WasmModule
unfolding datas_for decode_datas
decode_data_section m = do
  num_datas ← read_u32leb
  made ← lift (datas_for m num_datas)
  datas ← decode_datas made made.datas
  pure (record made { datas = datas })

unfoldable pub decode_datacount_section : WasmModule → Parser WasmModule
unfolding make_datas
decode_datacount_section m = do
  num_datas ← read_u32leb
  lift (make_datas num_datas (record m { has_datacount = 1; num_datas_datacount = num_datas }))
