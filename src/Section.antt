-- ===== src/Section.antt =====
-- Types and limits as the sections of a module write them: read_limits and its like of
-- src/parse.cpp, write_limits and its like of src/encode.cpp, and the type section.
pub mod Types
pub mod Decode
pub mod Bodies
pub mod Custom
pub mod Load
pub mod Encode
pub mod Store
pub mod Kept
pub mod Content
pub mod Joined
pub mod Imports
pub mod Loads
pub mod Outcome
pub mod Ordered
pub mod Header
pub mod Written
pub mod Exports
pub mod Offsets
pub mod Elements
pub mod Code
pub mod CodeSection
pub mod Framing
pub mod Chain
pub mod ImportsWritten
use wasm_instrument.Prelude.{
  ℕ, zero, suc, ◌+◌, ◌*◌, ◌/◌, ◌%◌, ◌^◌, bit_and, bit_or, Bool, not, List, [], ◌∷◌, ◌++◌, length,
  ◌==◌, if◌then◌else◌,
}
use wasm_instrument.Prelude.Result.{require, bad_signature, not_a_reftype}
use wasm_instrument.Leb.{encode_u32leb}
use wasm_instrument.Buffer.{Parser, pure, lift, ◌>>=◌, ◌>>◌, read_u32leb, read_u8, read_list}
use wasm_instrument.Writer.{encode_u8, concat_map}
use wasm_instrument.Ir.{Node, Limits, SigDecl, MemoryDecl, TableDecl, GlobalDecl, WasmModule}
use wasm_instrument.Inst.Classes.{is_reftype}

-- `flag` is a field of one bit.
pub read_limits : Parser Limits
read_limits = do
  lb ← read_u8
  min ← read_u32leb
  max ← if bit_and lb 0x01 == 0 then pure 0 else read_u32leb
  pure (record { initial = min; max = max; has_max = bit_and lb 0x01; flag = lb / 2 % 2 })

pub write_limits : Limits → List ℕ
write_limits l =
    encode_u8 (bit_or (l.flag * 2) l.has_max)
    ++ (encode_u32leb l.initial ++ (if l.has_max == 0 then [] else encode_u32leb l.max))

pub read_memtype : Parser MemoryDecl
unfolding read_limits
read_memtype = do limits ← read_limits; pure (record { limits = limits })

pub write_memtype : MemoryDecl → List ℕ
unfolding write_limits
write_memtype mem = write_limits mem.limits

pub read_tabletype : Parser TableDecl
unfolding read_limits
read_tabletype = do
  reftype ← read_u8
  lift (require not_a_reftype (is_reftype reftype))
  limits ← read_limits
  pure (record { reftype = reftype; limits = limits })

pub write_tabletype : TableDecl → List ℕ
unfolding write_limits
write_tabletype table = encode_u8 table.reftype ++ write_limits table.limits

-- The number of types, which the callers of read_type_list read, and the types.
pub read_type_list : Parser (List ℕ)
read_type_list = do num ← read_u32leb; read_list num read_u8

pub write_type_list : List ℕ → List ℕ
write_type_list tlist = encode_u32leb (length tlist % 2 ^ 32) ++ concat_map encode_u8 tlist

-- One round of decode_type_section, and of encode_type_section.
pub read_sig : Parser SigDecl
unfolding read_type_list
read_sig = do
  type ← read_u8
  lift (require bad_signature (type == 0x60))
  params ← read_type_list
  results ← read_type_list
  pure (record { params = params; results = results })

pub write_sig : SigDecl → List ℕ
unfolding write_type_list
write_sig sig = encode_u8 0x60 ++ (write_type_list sig.params ++ write_type_list sig.results)

abbrev pub push_sig : WasmModule → SigDecl → WasmModule
push_sig m sig = record m {
  sigs = m.sigs ++ record { id = m.next_id; decl = sig } ∷ [];
  next_id = m.next_id + 1;
}

pub read_sigs : ℕ → WasmModule → Parser WasmModule
unfolding read_sig
read_sigs zero m = pure m
read_sigs (suc n) m = do sig ← read_sig; read_sigs n (push_sig m sig)

pub decode_type_section : WasmModule → Parser WasmModule
unfolding read_sigs
decode_type_section m = do num_sigs ← read_u32leb; read_sigs num_sigs m

abbrev pub decls {ℓ} : {A : Type ℓ} → List (Node A) → List A
decls [] = []
decls (n ∷ ns) = n.decl ∷ decls ns

-- Nothing is written where there are no signatures.
pub encode_type_section : WasmModule → List ℕ
unfolding write_sig
encode_type_section m =
    if length m.sigs % 2 ^ 32 == 0
    then []
    else encode_u32leb (length m.sigs % 2 ^ 32) ++ concat_map write_sig (decls m.sigs)
