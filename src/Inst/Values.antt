-- ===== src/Inst/Values.antt =====
-- The constructors and encode_imm of the classes of src/inst_internal.cpp that carry a value, a
-- memory or types.
use wasm_instrument.Prelude.{ℕ, ◌%◌, ◌^◌, List, ◌++◌, length, if◌then◌else◌}
use wasm_instrument.Prelude.Result.{Result, ok, not_a_reftype}
use wasm_instrument.Leb.{encode_u32leb, encode_i32leb, encode_i64leb}
use wasm_instrument.Buffer.{
  Parser, pure, raise, lift, ◌>>=◌, read_u32leb, read_i32leb, read_i64leb, read_u8, read_u32,
  read_u64, read_list,
}
use wasm_instrument.Writer.{encode_u8, encode_u32, encode_u64, concat_map}
use wasm_instrument.Ir.{WasmModule, Ptr, Imm}
use wasm_instrument.Ir.Access.{get_memory, get_memory_idx}
use wasm_instrument.Inst.Classes.{is_reftype, write_idx}

unfoldable pub decode_i32 : Parser Imm
decode_i32 = do v ← read_i32leb; pure (Imm.i32 v)

unfoldable pub encode_i32 : ℕ → Result (List ℕ)
encode_i32 v = ok (encode_i32leb v)

unfoldable pub decode_f64 : Parser Imm
decode_f64 = do v ← read_u64; pure (Imm.f64 v)

unfoldable pub encode_f64 : ℕ → Result (List ℕ)
encode_f64 v = ok (encode_u64 v)

unfoldable pub decode_memory : WasmModule → Parser Imm
decode_memory m = do i ← read_u32leb; p ← lift (get_memory m i); pure (Imm.memory p)

unfoldable pub encode_memory : WasmModule → Ptr → Result (List ℕ)
encode_memory m p = write_idx (get_memory_idx m p)

unfoldable pub decode_i64 : Parser Imm
decode_i64 = do v ← read_i64leb; pure (Imm.i64 v)

unfoldable pub encode_i64 : ℕ → Result (List ℕ)
encode_i64 v = ok (encode_i64leb v)

unfoldable pub decode_f32 : Parser Imm
decode_f32 = do v ← read_u32; pure (Imm.f32 v)

unfoldable pub encode_f32 : ℕ → Result (List ℕ)
encode_f32 v = ok (encode_u32 v)

unfoldable pub decode_refnullt : Parser Imm
decode_refnullt = do
  t ← read_u8
  if is_reftype t then pure (Imm.refnullt t) else raise not_a_reftype

unfoldable pub encode_refnullt : ℕ → Result (List ℕ)
encode_refnullt t = ok (encode_u8 t)

unfoldable pub decode_valts : Parser Imm
decode_valts = do n ← read_u32leb; ts ← read_list n read_u8; pure (Imm.valts ts)

unfoldable pub encode_valts : List ℕ → Result (List ℕ)
encode_valts ts = ok (encode_u32leb (length ts % 2 ^ 32) ++ concat_map encode_u8 ts)
