-- ===== src/Opcode.antt =====
-- opcode_table of src/opcode_table.c, and the reader and the writer of an opcode that the macros
-- VALIDATE_OP, RD_OPCODE and WR_OPCODE of inc/common.h define.
pub mod Entry
mod OneByte
mod Extension
mod Simd
mod WideSimd
pub mod RoundTrip
pub mod Legal
use wasm_instrument.Prelude.{
  ℕ, zero, suc, ◌+◌, ◌-◌, ◌*◌, ◌/◌, ◌%◌, ◌^◌, Bool, true, false, not, ◌&&◌, List, [], ◌∷◌, ◌++◌,
  ltb, leb, ◌==◌, if◌then◌else◌, Option, none, some,
}
use wasm_instrument.Prelude.Result.{
  Result, ok, throw, undefined, ◌>>=◌, ◌>>◌, require, unimplemented_opcode,
}
use wasm_instrument.Leb.{more}
use wasm_instrument.Buffer.{Buffer, Parser, read_u8}
use wasm_instrument.Writer.{encode_u8}
use Entry.{ImmType, imm_none, Row}
use OneByte.{control_rows, numeric_rows}
use Extension.{fc_rows, thread_rows}
use Simd.{simd_rows}
use WideSimd.{wide_simd_rows}

pub find_row : ℕ → List Row → Option Row
find_row c [] = none
find_row c (r ∷ rs) = let other = find_row c rs in if r.code == c then some r else other

-- The rows that may hold an opcode, by the bytes in front of its last.
pub rows_of : ℕ → List Row
rows_of c =
    if ltb c 0x100
    then control_rows ++ numeric_rows
    else if leb 0xfd8000 c
    then wide_simd_rows
    else if leb 0xfe00 c
    then thread_rows
    else if leb 0xfd00 c
    then simd_rows
    else fc_rows

-- `opcode_table[c]`. The array ends at its last designator, 0xFDFF01; an element that no
-- designator names is zero, and so has no mnemonic.
pub opcode_table : ℕ → Result (Option Row)
unfolding find_row rows_of
opcode_table c = if ltb 0xfdff01 c then undefined else ok (find_row c (rows_of c))

pub is_legal : Option Row → Bool
is_legal none = false
is_legal (some r) = not r.invalid

-- VALIDATE_OP
pub validate_op : ℕ → Result (Unit {0})
unfolding opcode_table is_legal
validate_op c = do e ← opcode_table c; require unimplemented_opcode (is_legal e)

abbrev pub imm_type_of : Option Row → ImmType
imm_type_of none = imm_none
imm_type_of (some r) = r.imm_type

abbrev pub is_extended : ℕ → Bool
is_extended opclass = leb 0xfb opclass && leb opclass 0xfe

-- The loop of RD_U32_RAW_BE behind the first byte: RD_BYTE until a byte has no high bit. At the
-- end of the buffer RD_BYTE gives 0 and leaves the pointer.
pub more_bytes : List ℕ → ℕ → ℕ → ℕ → Result (ℕ × Buffer)
more_bytes [] pos limit res =
    if leb limit pos
    then ok (res * 2 ^ 8 % 2 ^ 32, record { rest = []; pos = pos; limit = limit })
    else undefined
more_bytes (x ∷ rest) pos limit res =
    let res' = (res * 2 ^ 8 % 2 ^ 32 + x) % 2 ^ 32 in
    let next = more_bytes rest (pos + 1) limit res' in
    if leb limit pos
    then ok (res * 2 ^ 8 % 2 ^ 32, record { rest = x ∷ rest; pos = pos; limit = limit })
    else if more x
    then next
    else ok (res', record { rest = rest; pos = pos + 1; limit = limit })

-- RD_U32_RAW_BE
pub read_u32_raw_be : Parser ℕ
unfolding read_u8 validate_op more_bytes more
read_u32_raw_be b = do
  (opclass, c) ← read_u8 b
  validate_op opclass
  if is_extended opclass && more opclass
      then more_bytes c.rest c.pos c.limit opclass
      else ok (opclass, c)

-- RD_OPCODE
pub read_opcode : Parser ℕ
unfolding read_u32_raw_be
read_opcode b = do (lb, c) ← read_u32_raw_be b; validate_op lb; ok (lb, c)

-- The first loop of WR_U32_RAW_BE, on `shf / 8`: a shift by 32 bits is undefined.
pub top_byte : ℕ → ℕ → ℕ → Result ℕ
top_byte zero val i = undefined
top_byte (suc n) val i =
    let next = top_byte n val (i + 1) in if val / 2 ^ (8 * (i + 1)) % 2 ^ 8 == 0 then ok i else next

-- Its second loop: the bytes below byte i, the highest first.
pub lower_bytes : ℕ → ℕ → List ℕ
lower_bytes val zero = []
lower_bytes val (suc i) = encode_u8 (val / 2 ^ (8 * i) % 2 ^ 8) ++ lower_bytes val i

-- WR_OPCODE
pub encode_opcode : ℕ → Result (List ℕ)
unfolding validate_op top_byte lower_bytes encode_u8
encode_opcode op = do
  validate_op op
  i ← top_byte 3 op 0
  let opclass = op / 2 ^ (8 * i) % 2 ^ 8
  validate_op opclass
  ok (encode_u8 opclass ++ (if is_extended opclass then lower_bytes op i else []))
