-- ===== src/Section/Framing.antt =====
-- Theorems on ENCODE_CALL of src/encode.cpp and the loop over the sections of src/parse.cpp.
use wasm_instrument.Prelude.{
  ℕ, ◌+◌, ◌%◌, ◌^◌, ◌<◌, ◌≡◌, refl, sym, ap, List, [], ◌++◌, true, false, ◌==◌, length,
  length-append, append_assoc, arith,
}
use wasm_instrument.Prelude.Result.{ok}
use wasm_instrument.Leb.{encode_u32leb}
use wasm_instrument.Buffer.Reads.{at, read_u8-Reads, read_u32leb-Reads}
use wasm_instrument.Writer.{encode_u8, preencode_u8, preencode_u32leb}
use wasm_instrument.Ir.{WasmModule}
use wasm_instrument.Inst.Encodable.{U8, U32}
use wasm_instrument.Section.Load.{decode_section, framed_section, read_section}
use wasm_instrument.Section.Store.{with_size, framed}

-- A section that is not empty goes behind its id and its size.
pub framed-bytes :
    (section_id : ℕ) (bytes : List ℕ)
    → 0 < length bytes
    → U32 (length bytes)
    → framed section_id bytes ≡ encode_u8 section_id ++ (encode_u32leb (length bytes) ++ bytes)
unfolding framed with_size preencode_u8 preencode_u32leb encode_u8
framed-bytes section_id bytes some_bytes few =
    let cut : length bytes % 2 ^ 32 ≡ length bytes = omega arith in
    let written : (length bytes == 0) ≡ false = ground arith in rw (cut, written) refl

framed_section-at :
    (m after : WasmModule) (section_id : ℕ) (bytes rest : List ℕ) (pos limit : ℕ)
    → decode_section m section_id (length bytes) (at (bytes ++ rest) 0 (length bytes))
      ≡ ok (after, at rest (length bytes) (length bytes))
    → framed_section m section_id (length bytes) (at (bytes ++ rest) pos limit)
      ≡ ok (after, at rest (pos + length bytes) limit)
unfolding framed_section
framed_section-at m after section_id bytes rest pos limit known =
    let aligned : (length bytes == length bytes) ≡ true = ground arith in rw (known, aligned) refl

-- Where the decoder of a section takes just the bytes of the section, of which there is at least
-- one and fewer than 2 ^ 32, the round of the loop over the sections takes what ENCODE_CALL writes
-- for those bytes, with the id of the section, off the front of any bytes, and gives the module
-- that the decoder gives.
pub read_section-framed :
    (m after : WasmModule) (section_id : ℕ) (bytes rest : List ℕ) (pos more_room : ℕ)
    → U8 section_id
    → 0 < length bytes
    → U32 (length bytes)
    → decode_section m section_id (length bytes) (at (bytes ++ rest) 0 (length bytes))
      ≡ ok (after, at rest (length bytes) (length bytes))
    → read_section m (
        at
          (framed section_id bytes ++ rest)
          pos
          (pos + length (framed section_id bytes) + more_room))
      ≡ ok (
        after,
        at rest
            (pos + length (framed section_id bytes))
            (pos + length (framed section_id bytes) + more_room),
      )
unfolding read_section
read_section-framed m after section_id bytes rest pos more_room byte some_bytes few known =
    let id_bytes = encode_u8 section_id in
    let size_bytes = encode_u32leb (length bytes) in
    let whole = framed-bytes section_id bytes some_bytes few in
    let size : length (id_bytes ++ (size_bytes ++ bytes))
        ≡ length id_bytes + length size_bytes + length bytes =
      omega (arith, length-append id_bytes (size_bytes ++ bytes), length-append size_bytes bytes) in
    let limit = pos + length (id_bytes ++ (size_bytes ++ bytes)) + more_room in
    let end : pos + length (id_bytes ++ (size_bytes ++ bytes))
        ≡ pos + length id_bytes + length size_bytes + length bytes =
      omega (arith, size) in
    let first =
      read_u8-Reads section_id byte (size_bytes ++ (bytes ++ rest)) pos limit
        (omega (arith, size)) in
    let second =
      read_u32leb-Reads (length bytes) few (bytes ++ rest) (pos + length id_bytes) limit
        (omega (arith, size)) in
    let third =
      framed_section-at m after section_id bytes rest (pos + length id_bytes + length size_bytes)
        limit known in
    rw
      (
        whole,
        append_assoc id_bytes (size_bytes ++ bytes) rest,
        append_assoc size_bytes bytes rest,
        first,
        second,
        third,
      )
      (ap (λ n. ok (after, at rest n limit)) (sym end))

-- A section that is empty is left out.
pub framed_nothing : (section_id : ℕ) → framed section_id [] ≡ []
unfolding framed
framed_nothing section_id = refl
