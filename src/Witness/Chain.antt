-- ===== src/Witness/Chain.antt =====
-- A run over two sections that are written one behind the other, with an empty one between them.
use wasm_instrument.Prelude.{ℕ, ◌+◌, ◌≡◌, refl, List, [], ◌∷◌, ◌++◌, length, arith}
use wasm_instrument.Prelude.Result.{ok}
use wasm_instrument.Leb.{decode_u32leb, decode_loop, more, finish}
use wasm_instrument.Buffer.{read_u8, read_u32leb, read_list, read_leb}
use wasm_instrument.Buffer.Reads.{at}
use wasm_instrument.Ir.{WasmModule}
use wasm_instrument.Section.Load.{decode_section, decode_sections}
use wasm_instrument.Section.Header.{headed}
use wasm_instrument.Section.Chain.{framed_all, Chain, decode_sections-framed_all}

abbrev type_bytes : List ℕ
type_bytes = 1 ∷ 0x60 ∷ 0 ∷ 0 ∷ []

abbrev memory_bytes : List ℕ
memory_bytes = 1 ∷ 0 ∷ 1 ∷ []

abbrev typed : WasmModule
typed = record headed {
  sigs = record { id = 1; decl = record { params = []; results = [] } } ∷ [];
  next_id = 2;
}

abbrev with_memory : WasmModule
with_memory = record typed {
  mems =
      record {
        id = 2;
        decl = record { limits = record { initial = 1; max = 0; has_max = 0; flag = 0 } };
      }
      ∷ [];
  next_id = 3;
}

reads_type :
    (rest : List ℕ)
    → decode_section headed 1 4 (at (type_bytes ++ rest) 0 4) ≡ ok (typed, at rest 4 4)
unfolding decode_section decode_u32leb decode_loop more finish read_u8 read_u32leb read_list
    read_leb
reads_type rest = refl

reads_memory :
    (rest : List ℕ)
    → decode_section typed 5 3 (at (memory_bytes ++ rest) 0 3) ≡ ok (with_memory, at rest 3 3)
unfolding decode_section decode_u32leb decode_loop more finish read_u8 read_u32leb read_list
    read_leb
reads_memory rest = refl

abbrev all_sections : List (ℕ × List ℕ)
all_sections = (1, type_bytes) ∷ (3, []) ∷ (5, memory_bytes) ∷ []

chain : Chain headed all_sections with_memory
chain =
    Chain.section (omega arith) (omega arith) (omega arith)
      (reads_type (framed_all ((3, []) ∷ (5, memory_bytes) ∷ [])))
      (Chain.left_out
        (Chain.section (omega arith) (omega arith) (omega arith) (reads_memory []) Chain.finished))

decode_sections-framed_all_example :
    decode_sections headed (at (framed_all all_sections) 8 (8 + length (framed_all all_sections)))
    ≡ ok (
      with_memory,
      at [] (8 + length (framed_all all_sections)) (8 + length (framed_all all_sections)),
    )
decode_sections-framed_all_example =
    decode_sections-framed_all headed with_memory all_sections 8 chain
