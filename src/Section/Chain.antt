-- ===== src/Section/Chain.antt =====
-- Theorems on sections that src/encode.cpp writes one behind the other, as src/parse.cpp reads
-- them.
use wasm_instrument.Prelude.{
  ℕ, ◌+◌, ◌≤◌, ◌<◌, ◌≡◌, refl, ap, List, [], ◌∷◌, ◌++◌, length, length-append, arith,
}
use wasm_instrument.Prelude.Result.{ok}
use wasm_instrument.Leb.{encode_u32leb}
use wasm_instrument.Buffer.{Buffer, read_u8}
use wasm_instrument.Buffer.Reads.{at, read_u8-Reads}
use wasm_instrument.Writer.{encode_u8}
use wasm_instrument.Ir.{WasmModule}
use wasm_instrument.Inst.Encodable.{U8, U32}
use wasm_instrument.Section.Load.{decode_section, decode_sections}
use wasm_instrument.Section.Loads.{Loads, read_section-Framed}
use wasm_instrument.Section.Outcome.{decode_sections_iff_Outcome}
use wasm_instrument.Section.Store.{framed}
use wasm_instrument.Section.Framing.{framed-bytes, framed_nothing, read_section-framed}

-- What ENCODE_CALL writes for sections, each its id and its bytes.
abbrev pub framed_all : List (ℕ × List ℕ) → List ℕ
framed_all [] = []
framed_all ((section_id, bytes) ∷ ss) = framed section_id bytes ++ framed_all ss

-- The decoders of the sections, one after another, take just the bytes of the sections and lead
-- from one module to another; a section with no bytes is left out.
pub data Chain : WasmModule → List (ℕ × List ℕ) → WasmModule → Type 0 where
  finished : {m : WasmModule} → Chain m [] m
  left_out :
      {m after : WasmModule} {section_id : ℕ} {ss : List (ℕ × List ℕ)}
      → Chain m ss after
      → Chain m ((section_id, []) ∷ ss) after
  section :
      {m k after : WasmModule} {section_id : ℕ} {bytes : List ℕ} {ss : List (ℕ × List ℕ)}
      → U8 section_id
      → 0 < length bytes
      → U32 (length bytes)
      → decode_section m section_id (length bytes) (at (bytes ++ framed_all ss) 0 (length bytes))
        ≡ ok (k, at (framed_all ss) (length bytes) (length bytes))
      → Chain k ss after
      → Chain m ((section_id, bytes) ∷ ss) after

-- The first byte of a section is its id.
framed-id :
    (section_id : ℕ) (bytes rest : List ℕ) (pos limit : ℕ)
    → U8 section_id
    → 0 < length bytes
    → U32 (length bytes)
    → pos + length (framed section_id bytes) ≤ limit
    → (pos < limit)
      × ((h : Buffer) × (read_u8 (at (framed section_id bytes ++ rest) pos limit)
            ≡ ok (section_id, h)))
unfolding encode_u8
framed-id section_id bytes rest pos limit byte some_bytes few room =
    let whole = framed-bytes section_id bytes some_bytes few in
    let others = encode_u32leb (length bytes) ++ bytes in
    let size : 1 + length others ≡ length (framed section_id bytes) =
      omega (arith, ap length whole) in
    (
      omega (arith, size),
      (
        at (others ++ rest) (pos + 1) limit,
        rw whole (read_u8-Reads section_id byte (others ++ rest) pos limit (omega (arith, size))),
      ),
    )

Chain-Loads :
    (m after : WasmModule) (ss : List (ℕ × List ℕ)) (pos limit : ℕ)
    → pos + length (framed_all ss) ≡ limit
    → Chain m ss after
    → (ids : List ℕ) × Loads m (at (framed_all ss) pos limit) ids after (at [] limit limit)
Chain-Loads m after [] pos limit end Chain.finished =
    let here : pos ≡ limit = omega arith in ([], rw here (Loads.done (omega arith)))
Chain-Loads m after ((section_id, []) ∷ ss) pos limit end (Chain.left_out chain) =
    let none = framed_nothing section_id in
    rw none (Chain-Loads m after ss pos limit (rw none at end) chain)
Chain-Loads m after ((section_id, bytes) ∷ ss) pos limit end
      (Chain.section {k = k} byte some_bytes few known chain) =
    let size = length-append (framed section_id bytes) (framed_all ss) in
    let (inside, (h, first)) =
      framed-id section_id bytes (framed_all ss) pos limit byte some_bytes few
        (omega (arith, size)) in
    let (ids, run) =
      Chain-Loads k after ss (pos + length (framed section_id bytes)) limit (omega (arith, size))
        chain in
    let same : pos + length (framed section_id bytes) + length (framed_all ss) ≡ limit =
      omega (arith, size) in
    let read =
      read_section-framed m k section_id bytes (framed_all ss) pos (length (framed_all ss)) byte
        some_bytes few known in
    (
      section_id ∷ ids,
      Loads.next inside (read_section-Framed m k _ _ h section_id first (rw same at read)) run,
    )

-- Sections that ENCODE_CALL writes one behind the other, up to the limit, each of fewer than 2 ^ 32
-- bytes that its decoder takes just as they are, from the module that the sections before it give,
-- are loaded by the loop over the sections: it ends at the limit with the last decoder's module.
-- Sections with no bytes are left out.
pub decode_sections-framed_all :
    (m after : WasmModule) (ss : List (ℕ × List ℕ)) (pos : ℕ)
    → Chain m ss after
    → decode_sections m (at (framed_all ss) pos (pos + length (framed_all ss)))
      ≡ ok (after, at [] (pos + length (framed_all ss)) (pos + length (framed_all ss)))
decode_sections-framed_all m after ss pos chain =
    (decode_sections_iff_Outcome m _ (ok (after, _))).1
      (Chain-Loads m after ss pos (pos + length (framed_all ss)) refl chain)
