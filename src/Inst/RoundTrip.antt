-- ===== src/Inst/RoundTrip.antt =====
-- Theorems on the constructors and encode_imm of src/inst_internal.cpp, class by class.
use wasm_instrument.Prelude.{ℕ, ◌+◌, ◌%◌, ◌^◌, ◌≡◌, refl, ap, List, [], ◌++◌, length, arith}
use wasm_instrument.Prelude.Result.{ok}
use wasm_instrument.Leb.{encode_u32leb, encode_i32leb, encode_i64leb}
use wasm_instrument.Buffer.{
  pure, ◌>>=◌, read_u32leb, read_i32leb, read_u32, read_i64leb, read_u64, read_u8, read_list,
}
use wasm_instrument.Buffer.Reads.{
  Reads, at, Reads-pure, Reads-bind, Reads-then, Reads-list, read_u32leb-Reads, read_i32leb-Reads,
  read_i64leb-Reads, read_u8-Reads, read_u32-Reads, read_u64-Reads,
}
use wasm_instrument.Writer.{encode_u8, encode_u32, encode_u64, concat_map}
use wasm_instrument.Opcode.Entry.{ImmType}
use wasm_instrument.Ir.{WasmModule, Imm}
use wasm_instrument.Ir.Access.{
  get_sig, get_func, get_global, get_table, get_memory, get_data, get_sig_idx, get_func_idx,
  get_global_idx, get_table_idx, get_memory_idx, get_data_idx,
}
use wasm_instrument.Inst.Values.{
  decode_i32, decode_f64, decode_memory, decode_i64, decode_f32, decode_refnullt, decode_valts,
  encode_i32, encode_f64, encode_memory, encode_i64, encode_f32, encode_refnullt, encode_valts,
}
use wasm_instrument.Inst.Classes.{
  read_memarg, decode_data_memory, decode_data, decode_memorycp, decode_data_table, decode_tablecp,
  decode_v128, decode_laneidx, decode_laneidx16, decode_memarg_laneidx, encode_data_memory,
  encode_data, encode_memorycp, encode_data_table, encode_tablecp, encode_v128, encode_laneidx,
  encode_laneidx16, encode_memarg_laneidx,
}
use wasm_instrument.Inst.{decode_imm, encode_imm}
use wasm_instrument.Inst.Pieces.{
  u32s-Reads, u8s-Reads, block_type-Reads, reftype-Reads, lanes-Reads,
}
use wasm_instrument.Inst.Indices.{
  found-idx, found-elem, found-deque, index-last, index-two, memarg-RoundTrips,
}
use wasm_instrument.Inst.Encodable.{Encodable}

-- The immediate is written, and the class's constructor reads it back.
abbrev pub RoundTrips : WasmModule → ImmType → Imm → Type 0
RoundTrips m t imm =
    (bytes : List ℕ) × (encode_imm m imm ≡ ok bytes) × Reads (decode_imm m t) bytes imm

-- Every immediate that its class can carry is written and read back.
pub imm-RoundTrips :
    (m : WasmModule) (t : ImmType) (imm : Imm) → Encodable m t imm → RoundTrips m t imm
unfolding decode_imm encode_imm decode_i32 decode_f64 decode_memory decode_i64 decode_f32
    decode_refnullt decode_valts encode_i32 encode_f64 encode_memory encode_i64 encode_f32
    encode_refnullt encode_valts decode_data_memory decode_data decode_memorycp decode_data_table
    decode_tablecp decode_v128 decode_laneidx decode_laneidx16 decode_memarg_laneidx
    encode_data_memory encode_data encode_memorycp encode_data_table encode_tablecp encode_v128
    encode_laneidx encode_laneidx16 encode_memarg_laneidx get_func get_func_idx get_sig get_sig_idx
    get_global get_global_idx get_table get_table_idx get_memory get_memory_idx get_data
    get_data_idx
imm-RoundTrips m t imm Encodable.plain = ([], refl, Reads-pure Imm.plain)
imm-RoundTrips m t imm (Encodable.blockt v neg wide) = (
  encode_i64leb v,
  refl,
  Reads-then read_i64leb _ (encode_i64leb v) (read_i64leb-Reads v wide) (block_type-Reads v neg),
)
imm-RoundTrips m t imm (Encodable.label i small) = (
  encode_u32leb i,
  refl,
  Reads-then read_u32leb (λ idx. pure (Imm.label idx)) (encode_u32leb i) (read_u32leb-Reads i small)
      (Reads-pure (Imm.label i)),
)
imm-RoundTrips m t imm (Encodable.func p (i, h, small)) = (
  encode_u32leb i,
  rw (found-idx m.funcs p i h),
  index-last (get_func m) Imm.func i small (found-elem m.funcs p i h),
)
imm-RoundTrips m t imm (Encodable.labels l d many small last) =
    let same : length l % 2 ^ 32 ≡ length l = omega arith in
    (
      encode_u32leb (length l) ++ (concat_map encode_u32leb l ++ encode_u32leb d),
      rw same refl,
      Reads-bind read_u32leb _ (encode_u32leb (length l)) _ (read_u32leb-Reads (length l) many) (
          Reads-bind (read_list (length l) read_u32leb) _ (concat_map encode_u32leb l)
            (encode_u32leb d) (Reads-list read_u32leb encode_u32leb l (u32s-Reads l small))
            (Reads-then read_u32leb (λ x. pure (Imm.labels l x)) (encode_u32leb d)
              (read_u32leb-Reads d last) (Reads-pure (Imm.labels l d)))),
    )
imm-RoundTrips m t imm (Encodable.sig_table s u (i, h, small) (j, h', small')) = (
  encode_u32leb i ++ encode_u32leb j,
  rw (found-idx m.sigs s i h, found-idx m.tables u j h') refl,
  index-two (get_sig m) (get_table m) Imm.sig_table i j small (found-elem m.sigs s i h) small'
      (found-elem m.tables u j h'),
)
imm-RoundTrips m t imm (Encodable.local v h) = (
  encode_u32leb v,
  refl,
  Reads-then read_u32leb (λ x. pure (Imm.local x)) (encode_u32leb v) (read_u32leb-Reads v h)
      (Reads-pure (Imm.local v)),
)
imm-RoundTrips m t imm (Encodable.global p (i, h, small)) = (
  encode_u32leb i,
  ap (λ j. ok (encode_u32leb j)) (found-deque m.globals p i h),
  index-last (get_global m) Imm.global i small (found-elem m.globals p i h),
)
imm-RoundTrips m t imm (Encodable.table p (i, h, small)) = (
  encode_u32leb i,
  rw (found-idx m.tables p i h),
  index-last (get_table m) Imm.table i small (found-elem m.tables p i h),
)
imm-RoundTrips m t imm (Encodable.memarg a o p low small found) =
    let (bytes, wrote, back) = memarg-RoundTrips m a o p low small found in
    (
      bytes,
      wrote,
      Reads-then (read_memarg m) (λ (x, y, z). pure (Imm.memarg x y z)) bytes back
          (Reads-pure (Imm.memarg a o p)),
    )
imm-RoundTrips m t imm (Encodable.i32 v h) = (
  encode_i32leb v,
  refl,
  Reads-then read_i32leb (λ x. pure (Imm.i32 x)) (encode_i32leb v) (read_i32leb-Reads v h)
      (Reads-pure (Imm.i32 v)),
)
imm-RoundTrips m t imm (Encodable.f64 v h) = (
  encode_u64 v,
  refl,
  Reads-then read_u64 (λ x. pure (Imm.f64 x)) (encode_u64 v) (read_u64-Reads v h)
      (Reads-pure (Imm.f64 v)),
)
imm-RoundTrips m t imm (Encodable.memory p (i, h, small)) = (
  encode_u32leb i,
  rw (found-idx m.mems p i h),
  index-last (get_memory m) Imm.memory i small (found-elem m.mems p i h),
)
imm-RoundTrips m t imm (Encodable.i64 v h) = (
  encode_i64leb v,
  refl,
  Reads-then read_i64leb (λ x. pure (Imm.i64 x)) (encode_i64leb v) (read_i64leb-Reads v h)
      (Reads-pure (Imm.i64 v)),
)
imm-RoundTrips m t imm (Encodable.f32 v h) = (
  encode_u32 v,
  refl,
  Reads-then read_u32 (λ x. pure (Imm.f32 x)) (encode_u32 v) (read_u32-Reads v h)
      (Reads-pure (Imm.f32 v)),
)
imm-RoundTrips m t imm (Encodable.refnullt v small known) = (
  encode_u8 v,
  refl,
  Reads-then read_u8 _ (encode_u8 v) (read_u8-Reads v small) (reftype-Reads v known),
)
imm-RoundTrips m t imm (Encodable.valts l many small) =
    let same : length l % 2 ^ 32 ≡ length l = omega arith in
    (
      encode_u32leb (length l) ++ concat_map encode_u8 l,
      rw same refl,
      Reads-bind read_u32leb _ (encode_u32leb (length l)) (concat_map encode_u8 l)
          (read_u32leb-Reads (length l) many)
          (Reads-then (read_list (length l) read_u8) (λ x. pure (Imm.valts x))
            (concat_map encode_u8 l) (Reads-list read_u8 encode_u8 l (u8s-Reads l small))
            (Reads-pure (Imm.valts l))),
    )
imm-RoundTrips m t imm (Encodable.data_memory d p (i, h, small) (j, h', small')) = (
  encode_u32leb i ++ encode_u32leb j,
  rw (found-idx m.datas d i h, found-idx m.mems p j h') refl,
  index-two (get_data m) (get_memory m) Imm.data_memory i j small (found-elem m.datas d i h) small'
      (found-elem m.mems p j h'),
)
imm-RoundTrips m t imm (Encodable.data_seg d (i, h, small)) = (
  encode_u32leb i,
  rw (found-idx m.datas d i h),
  index-last (get_data m) Imm.data_seg i small (found-elem m.datas d i h),
)
imm-RoundTrips m t imm (Encodable.memorycp p q (i, h, small) (j, h', small')) = (
  encode_u32leb i ++ encode_u32leb j,
  rw (found-idx m.mems p i h, found-idx m.mems q j h') refl,
  index-two (get_memory m) (get_memory m) Imm.memorycp i j small (found-elem m.mems p i h) small'
      (found-elem m.mems q j h'),
)
imm-RoundTrips m t imm (Encodable.data_table d u (i, h, small) (j, h', small')) = (
  encode_u32leb i ++ encode_u32leb j,
  rw (found-idx m.datas d i h, found-idx m.tables u j h') refl,
  index-two (get_data m) (get_table m) Imm.data_table i j small (found-elem m.datas d i h) small'
      (found-elem m.tables u j h'),
)
imm-RoundTrips m t imm (Encodable.tablecp p q (i, h, small) (j, h', small')) = (
  encode_u32leb i ++ encode_u32leb j,
  rw (found-idx m.tables p i h, found-idx m.tables q j h') refl,
  index-two (get_table m) (get_table m) Imm.tablecp i j small (found-elem m.tables p i h) small'
      (found-elem m.tables q j h'),
)
imm-RoundTrips m t imm (Encodable.v128 v w wide wide') = (
  encode_u64 v ++ encode_u64 w,
  refl,
  Reads-bind read_u64 (λ x. read_u64 >>= λ y. pure (Imm.v128 x y)) (encode_u64 v) (encode_u64 w)
      (read_u64-Reads v wide)
      (Reads-then read_u64 (λ y. pure (Imm.v128 v y)) (encode_u64 w) (read_u64-Reads w wide')
        (Reads-pure (Imm.v128 v w))),
)
imm-RoundTrips m t imm (Encodable.laneidx v h) = (
  encode_u8 v,
  refl,
  Reads-then read_u8 (λ x. pure (Imm.laneidx x)) (encode_u8 v) (read_u8-Reads v h)
      (Reads-pure (Imm.laneidx v)),
)
imm-RoundTrips m t imm (Encodable.laneidx16 l many small) = (
  concat_map encode_u8 l,
  refl,
  Reads-then (read_list 16 read_u8) (λ x. pure (Imm.laneidx16 x)) (concat_map encode_u8 l)
      (lanes-Reads l many small) (Reads-pure (Imm.laneidx16 l)),
)
imm-RoundTrips m t imm (Encodable.memarg_laneidx a o p v low small found lane) =
    let (bytes, wrote, back) = memarg-RoundTrips m a o p low small found in
    (
      bytes ++ encode_u8 v,
      rw wrote refl,
      Reads-bind (read_memarg m) (λ (x, y, z). read_u8 >>= λ w. pure (Imm.memarg_laneidx x y z w))
          bytes (encode_u8 v) back
          (Reads-then read_u8 (λ w. pure (Imm.memarg_laneidx a o p w)) (encode_u8 v)
            (read_u8-Reads v lane) (Reads-pure (Imm.memarg_laneidx a o p v))),
    )

-- An immediate that its class can carry in the module is written, and the class's constructor
-- takes just what was written and gives the immediate back, whatever follows.
pub decode_imm-encode_imm :
    (m : WasmModule) (t : ImmType) (imm : Imm) (rest : List ℕ) (pos more_room : ℕ)
    → Encodable m t imm
    → (bytes : List ℕ) × (encode_imm m imm ≡ ok bytes)
      × (decode_imm m t (at (bytes ++ rest) pos (pos + length bytes + more_room))
          ≡ ok (imm, at rest (pos + length bytes) (pos + length bytes + more_room)))
decode_imm-encode_imm m t imm rest pos more_room fits =
    let (bytes, wrote, reads) = imm-RoundTrips m t imm fits in
    (bytes, wrote, reads rest pos (pos + length bytes + more_room) (omega arith))
