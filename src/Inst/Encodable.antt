-- ===== src/Inst/Encodable.antt =====
-- The immediates that a class of instructions can carry in a module: numbers of the width of the
-- field, and pointers to declarations of that module.
use wasm_instrument.Prelude.{ℕ, ◌^◌, ◌<◌, ◌≤◌, ◌≡◌, true, List, length, All, some}
use wasm_instrument.Opcode.Entry.{ImmType}
use wasm_instrument.Opcode.Entry
use wasm_instrument.Ir.{WasmModule, Node, Ptr, Imm}
use wasm_instrument.Ir.Access.{index_of}
use wasm_instrument.Inst.Classes.{is_reftype}

-- The pointer's node stands at an index that fits 32 bits.
abbrev pub Found {ℓ} : {A : Type ℓ} → List (Node A) → Ptr → Type 0
Found ns p = (i : ℕ) × (index_of ns p ≡ some i) × (i < 2 ^ 32)

abbrev pub U32 : ℕ → Type 0
U32 v = v < 2 ^ 32

abbrev pub U64 : ℕ → Type 0
U64 v = v < 2 ^ 64

abbrev pub U8 : ℕ → Type 0
U8 v = v < 2 ^ 8

pub data Encodable (m : WasmModule) : ImmType → Imm → Type 0 where
  plain : Encodable m Entry.imm_none Imm.plain
  blockt : (t : ℕ) → 2 ^ 63 ≤ t → U64 t → Encodable m Entry.imm_blockt (Imm.blockt t)
  label : (i : ℕ) → U32 i → Encodable m Entry.imm_label (Imm.label i)
  labels :
      (l : List ℕ) (d : ℕ)
      → U32 (length l)
      → All U32 l
      → U32 d
      → Encodable m Entry.imm_labels (Imm.labels l d)
  func : (p : Ptr) → Found m.funcs p → Encodable m Entry.imm_func (Imm.func p)
  sig_table :
      (s t : Ptr)
      → Found m.sigs s
      → Found m.tables t
      → Encodable m Entry.imm_sig_table (Imm.sig_table s t)
  local : (i : ℕ) → U32 i → Encodable m Entry.imm_local (Imm.local i)
  global : (p : Ptr) → Found m.globals p → Encodable m Entry.imm_global (Imm.global p)
  table : (p : Ptr) → Found m.tables p → Encodable m Entry.imm_table (Imm.table p)
  memarg :
      (a o : ℕ) (p : Ptr)
      → a < 64
      → U32 o
      → Found m.mems p
      → Encodable m Entry.imm_memarg (Imm.memarg a o p)
  i32 : (v : ℕ) → U32 v → Encodable m Entry.imm_i32 (Imm.i32 v)
  f64 : (v : ℕ) → U64 v → Encodable m Entry.imm_f64 (Imm.f64 v)
  memory : (p : Ptr) → Found m.mems p → Encodable m Entry.imm_memory (Imm.memory p)
  i64 : (v : ℕ) → U64 v → Encodable m Entry.imm_i64 (Imm.i64 v)
  f32 : (v : ℕ) → U32 v → Encodable m Entry.imm_f32 (Imm.f32 v)
  refnullt : (t : ℕ) → U8 t → is_reftype t ≡ true → Encodable m Entry.imm_refnullt (Imm.refnullt t)
  valts : (l : List ℕ) → U32 (length l) → All U8 l → Encodable m Entry.imm_valts (Imm.valts l)
  data_memory :
      (d p : Ptr)
      → Found m.datas d
      → Found m.mems p
      → Encodable m Entry.imm_data_memory (Imm.data_memory d p)
  data_seg : (d : Ptr) → Found m.datas d → Encodable m Entry.imm_data (Imm.data_seg d)
  memorycp :
      (p q : Ptr)
      → Found m.mems p
      → Found m.mems q
      → Encodable m Entry.imm_memorycp (Imm.memorycp p q)
  data_table :
      (d t : Ptr)
      → Found m.datas d
      → Found m.tables t
      → Encodable m Entry.imm_data_table (Imm.data_table d t)
  tablecp :
      (p q : Ptr)
      → Found m.tables p
      → Found m.tables q
      → Encodable m Entry.imm_tablecp (Imm.tablecp p q)
  v128 : (v0 v1 : ℕ) → U64 v0 → U64 v1 → Encodable m Entry.imm_v128 (Imm.v128 v0 v1)
  laneidx : (i : ℕ) → U8 i → Encodable m Entry.imm_laneidx (Imm.laneidx i)
  laneidx16 :
      (l : List ℕ) → length l ≡ 16 → All U8 l → Encodable m Entry.imm_laneidx16 (Imm.laneidx16 l)
  memarg_laneidx :
      (a o : ℕ) (p : Ptr) (i : ℕ)
      → a < 64
      → U32 o
      → Found m.mems p
      → U8 i
      → Encodable m Entry.imm_memarg_laneidx (Imm.memarg_laneidx a o p i)
