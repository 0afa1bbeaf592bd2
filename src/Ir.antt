-- ===== src/Ir.antt =====
-- The intermediate representation of inc/ir.h, and the immediates of inc/inst_internal.h.
-- A pointer to an element of a std::list or std::deque of the module is the number of its node:
-- nodes keep their place in memory, so a node keeps its number, and no number is used twice.
-- Strings and byte arrays are lists of bytes. `wasm_type_t` values are their numbers, since the
-- parser casts any byte to the type.
pub mod Access
pub mod Decls
pub mod Names
use wasm_instrument.Prelude.{ℕ, List, [], Option, none}

-- An element of a list of the module.
pub record Node {ℓ} (A : Type ℓ) : Type ℓ where
  pub id : ℕ
  pub decl : A

abbrev pub Ptr : Type 0
Ptr = ℕ

-- wasm_limits_t
pub record Limits : Type 0 where
  pub initial : ℕ
  pub max : ℕ
  pub has_max : ℕ
  pub flag : ℕ

-- wasm_localcse_t
pub record LocalCse : Type 0 where
  pub count : ℕ
  pub type : ℕ

pub record SubsecBytes : Type 0 where
  pub id : ℕ
  pub bytes : List ℕ

pub record DebugNameAssoc : Type 0 where
  pub func : Ptr
  pub name : List ℕ

pub record DebugNameDecl : Type 0 where
  pub subsections : List SubsecBytes
  pub func_assoc : List DebugNameAssoc

pub record CustomDecl : Type 0 where
  pub name : List ℕ
  pub bytes : List ℕ
  pub debug : DebugNameDecl

pub record SigDecl : Type 0 where
  pub params : List ℕ
  pub results : List ℕ

-- What an instruction carries beside its opcode: one constructor for each class of
-- inc/inst_internal.h. Integers are bit patterns, and so are floats.
pub data Imm : Type 0 where
  plain : Imm
  blockt : ℕ → Imm
  label : ℕ → Imm
  labels : List ℕ → ℕ → Imm
  func : Ptr → Imm
  sig_table : Ptr → Ptr → Imm
  local : ℕ → Imm
  global : Ptr → Imm
  table : Ptr → Imm
  memarg : ℕ → ℕ → Ptr → Imm
  i32 : ℕ → Imm
  f64 : ℕ → Imm
  memory : Ptr → Imm
  tag : Imm
  i64 : ℕ → Imm
  f32 : ℕ → Imm
  refnullt : ℕ → Imm
  valts : List ℕ → Imm
  data_memory : Ptr → Ptr → Imm
  data_seg : Ptr → Imm
  memorycp : Ptr → Ptr → Imm
  data_table : Ptr → Ptr → Imm
  tablecp : Ptr → Ptr → Imm
  v128 : ℕ → ℕ → Imm
  laneidx : ℕ → Imm
  laneidx16 : List ℕ → Imm
  memarg_laneidx : ℕ → ℕ → Ptr → ℕ → Imm

-- InstBase with its class's fields; `imm_type` is the table's entry for the opcode.
pub record Inst : Type 0 where
  pub opcode : ℕ
  pub orig_pc : ℕ
  pub imm : Imm

pub record FuncDecl : Type 0 where
  pub sig : Ptr
  pub pure_locals : List LocalCse
  pub num_pure_locals : ℕ
  pub code_bytes : List ℕ
  pub instructions : List Inst

pub record MemoryDecl : Type 0 where
  pub limits : Limits

pub record TableDecl : Type 0 where
  pub reftype : ℕ
  pub limits : Limits

pub record GlobalInfo : Type 0 where
  pub type : ℕ
  pub is_mutable : ℕ

pub record GlobalDecl : Type 0 where
  pub type : ℕ
  pub is_mutable : ℕ
  pub init_expr_bytes : List ℕ

pub record DataDecl : Type 0 where
  pub flag : ℕ
  pub opcode_offset : ℕ
  pub mem_offset : ℕ
  pub mem : Option Ptr
  pub bytes : List ℕ

pub record ElemDecl : Type 0 where
  pub flag : ℕ
  pub opcode_offset : ℕ
  pub table_offset : ℕ
  pub funcs : List Ptr

-- The union Descriptor with the kind that says which member it holds.
pub data Descriptor : Type 0 where
  kind_func kind_table kind_memory kind_global : Ptr → Descriptor

pub record ImportInfo : Type 0 where
  pub mod_name : List ℕ
  pub member_name : List ℕ

pub record ImportDecl : Type 0 where
  pub mod_name : List ℕ
  pub member_name : List ℕ
  pub desc : Descriptor

pub record ExportDecl : Type 0 where
  pub name : List ℕ
  pub desc : Descriptor

pub record ImportSet : Type 0 where
  pub list : List ImportDecl
  pub num_funcs : ℕ
  pub num_tables : ℕ
  pub num_mems : ℕ
  pub num_globals : ℕ

-- `fn_names_debug` points into the list of one custom section, which is named by its position:
-- sections are only put at the end. `next_id` is the number of the next node.
pub record WasmModule : Type 0 where
  pub magic : ℕ
  pub version : ℕ
  pub customs : List CustomDecl
  pub sigs : List (Node SigDecl)
  pub imports : ImportSet
  pub funcs : List (Node FuncDecl)
  pub tables : List (Node TableDecl)
  pub mems : List (Node MemoryDecl)
  pub globals : List (Node GlobalDecl)
  pub exports : List ExportDecl
  pub elems : List ElemDecl
  pub datas : List (Node DataDecl)
  pub start_fn : Option Ptr
  pub has_datacount : ℕ
  pub num_datas_datacount : ℕ
  pub fn_names_debug : Option ℕ
  pub next_id : ℕ

-- `WasmModule module = {}`: every member is zero or empty.
abbrev pub empty_module : WasmModule
empty_module = record {
  magic = 0;
  version = 0;
  customs = [];
  sigs = [];
  imports = record { list = []; num_funcs = 0; num_tables = 0; num_mems = 0; num_globals = 0 };
  funcs = [];
  tables = [];
  mems = [];
  globals = [];
  exports = [];
  elems = [];
  datas = [];
  start_fn = none;
  has_datacount = 0;
  num_datas_datacount = 0;
  fn_names_debug = none;
  next_id = 1;
}
