-- ===== src/Writer.antt =====
-- The writers of src/common.cpp: each gives the bytes that it puts at the end of the deque (the
-- `preencode` functions put theirs at the front), so a sequence of writes is `++`.
-- The machine stores integers with the low byte first, which ENCODE_RAW relies on.
use wasm_instrument.Prelude.{ℕ, ◌/◌, ◌%◌, ◌^◌, List, [], ◌∷◌, ◌++◌, length, take}
use wasm_instrument.Leb.{encode_u32leb}

unfoldable pub encode_u8 : ℕ → List ℕ
encode_u8 val = val % 2 ^ 8 ∷ []

unfoldable pub encode_u32 : ℕ → List ℕ
encode_u32 val =
    (val % 2 ^ 8) ∷ (val / 2 ^ 8 % 2 ^ 8) ∷ (val / 2 ^ 16 % 2 ^ 8) ∷ (val / 2 ^ 24 % 2 ^ 8) ∷ []

unfoldable pub encode_u64 : ℕ → List ℕ
unfolding encode_u32
encode_u64 val = encode_u32 (val % 2 ^ 32) ++ encode_u32 (val / 2 ^ 32 % 2 ^ 32)

unfoldable pub encode_name : List ℕ → List ℕ
encode_name name = let sz = length name % 2 ^ 32 in encode_u32leb sz ++ take sz name

unfoldable pub encode_bytes : List ℕ → List ℕ
encode_bytes bytes = bytes

unfoldable pub preencode_u32leb : List ℕ → ℕ → List ℕ
preencode_u32leb deq val = encode_u32leb val ++ deq

unfoldable pub preencode_u8 : List ℕ → ℕ → List ℕ
preencode_u8 deq val = val % 2 ^ 8 ∷ deq

-- `for (auto &x : l) write (x)`
unfoldable pub concat_map {ℓ} : {A : Type ℓ} → (A → List ℕ) → List A → List ℕ
concat_map write [] = []
concat_map write (x ∷ xs) = write x ++ concat_map write xs
