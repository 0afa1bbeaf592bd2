-- ===== src/Inst/Pieces.antt =====
-- Lemmas on the lists and checks that the classes of src/inst_internal.cpp read.
use wasm_instrument.Prelude.{
  ℕ, ◌^◌, ◌≤◌, ◌≡◌, true, false, List, [], ◌∷◌, ltb, if◌then◌else◌, length, arith, All,
}
use wasm_instrument.Prelude.Result.{block_type_index, not_a_reftype}
use wasm_instrument.Leb.{encode_u32leb}
use wasm_instrument.Buffer.{pure, raise, read_u32leb, read_u8, read_list}
use wasm_instrument.Buffer.Reads.{Reads, Reads-pure, Reads-list, read_u32leb-Reads, read_u8-Reads}
use wasm_instrument.Writer.{encode_u8, concat_map}
use wasm_instrument.Ir.{Imm}
use wasm_instrument.Inst.Classes.{is_reftype}
use wasm_instrument.Inst.Encodable.{U32, U8}

pub u32s-Reads : (l : List ℕ) → All U32 l → All (λ v. Reads read_u32leb (encode_u32leb v) v) l
u32s-Reads [] h = tt
u32s-Reads (v ∷ l) (h, hs) = (read_u32leb-Reads v h, u32s-Reads l hs)

pub u8s-Reads : (l : List ℕ) → All U8 l → All (λ v. Reads read_u8 (encode_u8 v) v) l
u8s-Reads [] h = tt
u8s-Reads (v ∷ l) (h, hs) = (read_u8-Reads v h, u8s-Reads l hs)

-- A block type is a negative number.
pub block_type-Reads :
    (v : ℕ)
    → 2 ^ 63 ≤ v
    → Reads
        (if ltb v (2 ^ 63) then raise block_type_index else pure (Imm.blockt v))
        []
        (Imm.blockt v)
block_type-Reads v neg =
    let negative : ltb v (2 ^ 63) ≡ false = ground arith in rw negative (Reads-pure (Imm.blockt v))

pub reftype-Reads :
    (v : ℕ)
    → is_reftype v ≡ true
    → Reads
        (if is_reftype v then pure (Imm.refnullt v) else raise not_a_reftype)
        []
        (Imm.refnullt v)
reftype-Reads v known = rw known (Reads-pure (Imm.refnullt v))

pub lanes-Reads :
    (l : List ℕ)
    → length l ≡ 16
    → All U8 l
    → Reads (read_list 16 read_u8) (concat_map encode_u8 l) l
lanes-Reads l many small = rw many at (Reads-list read_u8 encode_u8 l (u8s-Reads l small))
