-- ===== src/Section/Written.antt =====
-- Lemmas on the vectors of src/encode.cpp, and the loops of src/parse.cpp that read them.
use wasm_instrument.Prelude.{
  ℕ, ◌%◌, ◌^◌, ◌<◌, ◌≡◌, refl, List, [], ◌∷◌, ◌++◌, false, ◌==◌, length, length-append, All, arith,
}
use wasm_instrument.Prelude.Result.{Result, ok}
use wasm_instrument.Leb.{encode_u32leb}
use wasm_instrument.Leb.Bounds.{u32leb_pos}
use wasm_instrument.Buffer.{Parser, pure, ◌>>=◌, read_u32leb, read_list}
use wasm_instrument.Buffer.Reads.{Reads, Reads-pure, Reads-bind, Reads-then, read_u32leb-Reads}
use wasm_instrument.Ir.{WasmModule}
use wasm_instrument.Inst.Encodable.{U32}
use wasm_instrument.Section.Decode.{repeat}
use wasm_instrument.Section.Encode.{write_all, write_vec, write_section}

-- The elements that a section puts into the module, one after another.
abbrev pub push_all {ℓ} :
    {A : Type ℓ} → (WasmModule → A → WasmModule) → WasmModule → List A → WasmModule
push_all push m [] = m
push_all push m (a ∷ l) = push_all push (push m a) l

-- The rounds of a section that read an element each and put it into the module; `P` is what they
-- need of the module, and keep.
module _ {ℓ κ} {A : Type ℓ} (P : WasmModule → Type κ) (round : WasmModule → Parser WasmModule)
    (write : A → Result (List ℕ)) (push : WasmModule → A → WasmModule) where
  -- An element that is written, and read in any such module.
  abbrev pub Item : A → Type κ
  Item a =
      (bytes : List ℕ) × (write a ≡ ok bytes)
      × ((m : WasmModule) → P m → Reads (round m) bytes (push m a) × P (push m a))

  pub rounds-Reads :
      (l : List A)
      → All Item l
      → (bytes : List ℕ) × (write_all write l ≡ ok bytes)
        × ((m : WasmModule) → P m → Reads (repeat (length l) round m) bytes (push_all push m l))
  unfolding write_all repeat
  rounds-Reads [] all = ([], refl, λ m h. Reads-pure m)
  rounds-Reads (a ∷ l) ((first, wrote, reads), items) =
      let (others, wrote', reads') = rounds-Reads l items in
      (
        first ++ others,
        rw (wrote, wrote') refl,
        λ m h.
            Reads-bind (round m) (repeat (length l) round) first others (reads m h).0
              (reads' (push m a) (reads m h).1),
      )

  -- A section that has elements, fewer than 2 ^ 32.
  pub section-Reads :
      (l : List A)
      → 0 < length l
      → U32 (length l)
      → All Item l
      → (bytes : List ℕ) × (write_section write l ≡ ok bytes)
        × (0 < length bytes)
        × ((m : WasmModule)
            → P m
            → Reads (read_u32leb >>= λ num. repeat num round m) bytes (push_all push m l))
  unfolding write_section write_vec
  section-Reads l some_elems few items =
      let (elems, wrote, reads) = rounds-Reads l items in
      let same : length l % 2 ^ 32 ≡ length l = omega arith in
      let written : (length l == 0) ≡ false = ground arith in
      (
        encode_u32leb (length l) ++ elems,
        rw (same, written, wrote) refl,
        omega (arith, u32leb_pos (length l), length-append (encode_u32leb (length l)) elems),
        λ m h.
            Reads-bind read_u32leb (λ num. repeat num round m) (encode_u32leb (length l)) elems
              (read_u32leb-Reads (length l) few) (reads m h),
      )

list-Reads {ℓ} :
    {A : Type ℓ} (p : Parser A) (write : A → Result (List ℕ)) (l : List A)
    → All (λ a. (bytes : List ℕ) × (write a ≡ ok bytes) × Reads p bytes a) l
    → (bytes : List ℕ) × (write_all write l ≡ ok bytes) × Reads (read_list (length l) p) bytes l
unfolding write_all read_list
list-Reads p write [] all = ([], refl, Reads-pure [])
list-Reads p write (a ∷ l) ((first, wrote, reads), items) =
    let (others, wrote', reads') = list-Reads p write l items in
    (
      first ++ others,
      rw (wrote, wrote') refl,
      Reads-bind p (λ x. read_list (length l) p >>= λ r. pure (x ∷ r)) first others reads
          (Reads-then (read_list (length l) p) (λ r. pure (a ∷ r)) others reads'
            (Reads-pure (a ∷ l))),
    )

-- A vector whose elements are read into a list.
pub vec-Reads {ℓ} :
    {A : Type ℓ} (p : Parser A) (write : A → Result (List ℕ)) (l : List A)
    → U32 (length l)
    → All (λ a. (bytes : List ℕ) × (write a ≡ ok bytes) × Reads p bytes a) l
    → (bytes : List ℕ) × (write_vec write l ≡ ok bytes)
      × Reads (read_u32leb >>= λ num. read_list num p) bytes l
unfolding write_vec
vec-Reads p write l few items =
    let (elems, wrote, reads) = list-Reads p write l items in
    let same : length l % 2 ^ 32 ≡ length l = omega arith in
    (
      encode_u32leb (length l) ++ elems,
      rw (same, wrote) refl,
      Reads-bind read_u32leb (λ num. read_list num p) (encode_u32leb (length l)) elems
          (read_u32leb-Reads (length l) few) reads,
    )
