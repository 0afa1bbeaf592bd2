-- ===== src/Opcode/RoundTrip.antt =====
-- Theorems on RD_OPCODE and WR_OPCODE of inc/common.h, over the rows of the table.
use wasm_instrument.Prelude.{
  ℕ, ◌+◌, ◌*◌, ◌/◌, ◌%◌, ◌^◌, ◌≤◌, ◌<◌, ◌≡◌, refl, ap, ◌∙◌, Bool, true, false, not, ◌&&◌, ◌||◌,
  List, [], ◌∷◌, ◌++◌, leb, ◌==◌, if◌then◌else◌, Option, Option-cases, none, some, length, arith,
  Bool-cases, inl, inr, &&-true,
}
use wasm_instrument.Prelude.Result.{Result, ok, throw, undefined, >>=-ok, >>-ok}
use wasm_instrument.Leb.{more}
use wasm_instrument.Buffer.{read_u8}
use wasm_instrument.Writer.{encode_u8}
use wasm_instrument.Buffer.Reads.{Reads, at}
use wasm_instrument.Opcode.Entry.{Row}
use wasm_instrument.Opcode.OneByte.{control_rows, numeric_rows}
use wasm_instrument.Opcode.Extension.{fc_rows, thread_rows}
use wasm_instrument.Opcode.Simd.{simd_rows}
use wasm_instrument.Opcode.WideSimd.{wide_simd_rows}
use wasm_instrument.Opcode.{
  find_row, rows_of, opcode_table, is_legal, validate_op, is_extended, more_bytes, read_opcode,
  top_byte, encode_opcode,
}

-- VALIDATE_OP passes.
unfoldable pub legal : ℕ → Bool
unfolding validate_op
legal c = elim (validate_op c) [ ok _ ↦ true | throw _ ↦ false | undefined ↦ false ]

legal-validate_op : (c : ℕ) → legal c ≡ true → validate_op c ≡ ok tt
unfolding legal
legal-validate_op c h = ground arith

ended : List ℕ → ℕ → Option ℕ
ended [] res = some res
ended (_ ∷ _) res = none

-- The number that bytes behind a first byte add up to, if exactly the last has no high bit.
scan : List ℕ → ℕ → Option ℕ
unfolding ended
scan [] res = none
scan (x ∷ rest) res =
    let res' = (res * 2 ^ 8 % 2 ^ 32 + x) % 2 ^ 32 in
    let further = scan rest res' in if more x then further else ended rest res'

more_bytes-scan :
    (xs : List ℕ) (res op : ℕ) (rest : List ℕ) (pos limit : ℕ)
    → scan xs res ≡ some op
    → pos + length xs ≤ limit
    → more_bytes (xs ++ rest) pos limit res ≡ ok (op, at rest (pos + length xs) limit)
unfolding scan more_bytes
more_bytes-scan [] res op rest pos limit h fits = cc
more_bytes-scan (x ∷ []) res op rest pos limit h fits = ground arith
more_bytes-scan (x ∷ y ∷ xs) res op rest pos limit h fits =
    let res' = (res * 2 ^ 8 % 2 ^ 32 + x) % 2 ^ 32 in
    let inside : leb limit pos ≡ false = ground arith in
    elim (Bool-cases (more x)) [
      | inl on ↦
          rw (inside, on)
            (more_bytes-scan (y ∷ xs) res' op rest (pos + 1) limit (rw on at h) (omega arith)
              ∙ ap (λ n. ok (op, at rest n limit)) (omega arith))
      | inr off ↦ absurd (stop (rw off at h))
    ]
  where
    stop : none ≡ some op → ⊥
    stop e = cc

replays : ℕ → List ℕ → Bool
unfolding legal scan
replays op [] = false
replays op (b ∷ []) = (b == op) && not (is_extended b && more b)
replays op (b ∷ c ∷ tail) =
    legal b
    && ((is_extended b && more b) && elim (scan (c ∷ tail) b) [ none ↦ false | some n ↦ n == op ])

-- The opcode is written, and what is written replays it.
rewrites : ℕ → Bool
unfolding replays encode_opcode
rewrites op = elim (encode_opcode op) [
  | ok bytes ↦ replays op bytes
  | throw _ ↦ false
  | undefined ↦ false
]

checked : Row → Bool
checked r = r.invalid || is_extended r.code || rewrites r.code

every : List Row → Bool
every [] = true
every (r ∷ rs) = checked r && every rs

every-control : every (control_rows ++ numeric_rows) ≡ true
unfolding every checked rewrites control_rows numeric_rows more read_u8 find_row
every-control = refl

every-fc : every fc_rows ≡ true
unfolding every checked rewrites control_rows numeric_rows fc_rows more
every-fc = refl

every-thread : every thread_rows ≡ true
unfolding every checked rewrites control_rows numeric_rows thread_rows more
every-thread = refl

every-simd : every simd_rows ≡ true
unfolding every checked rewrites control_rows numeric_rows simd_rows more
every-simd = refl

every-wide : every wide_simd_rows ≡ true
unfolding every checked rewrites control_rows numeric_rows wide_simd_rows more
every-wide = refl

every-rows_of : (c : ℕ) → every (rows_of c) ≡ true
unfolding rows_of
every-rows_of c = ground (arith, every-control, every-fc, every-thread, every-simd, every-wide)

find_row-checked :
    (c : ℕ) (rs : List Row) (r : Row)
    → find_row c rs ≡ some r
    → every rs ≡ true
    → (checked r ≡ true) × (r.code ≡ c)
unfolding find_row every
find_row-checked c [] r h all = cc
find_row-checked c (x ∷ rs) r h all = ground (arith, find_row-checked c rs r)

legal-row :
    (c : ℕ) → legal c ≡ true → (r : Row) × (find_row c (rows_of c) ≡ some r) × (r.invalid ≡ false)
unfolding legal opcode_table is_legal
legal-row c h = elim (Option-cases (find_row c (rows_of c))) [
  | inl e ↦ ground (arith, e)
  | inr (r, e) ↦ (r, e, ground (arith, e))
]

written :
    (op : ℕ)
    → rewrites op ≡ true
    → (bytes : List ℕ) × (encode_opcode op ≡ ok bytes) × (replays op bytes ≡ true)
unfolding rewrites
written op h = go (encode_opcode op) h
  where
    go :
        (m : Result (List ℕ))
        → elim m [ ok bytes ↦ replays op bytes | throw _ ↦ false | undefined ↦ false ] ≡ true
        → (bytes : List ℕ) × (m ≡ ok bytes) × (replays op bytes ≡ true)
    go (ok bytes) h = (bytes, refl, h)
    go (throw e) h = cc
    go undefined h = cc

scan-cases :
    (xs : List ℕ) (b op : ℕ)
    → elim (scan xs b) [ none ↦ false | some n ↦ n == op ] ≡ true
    → scan xs b ≡ some op
scan-cases xs b op h = ground arith

replays-Reads :
    (op : ℕ) (bytes : List ℕ)
    → legal op ≡ true
    → replays op bytes ≡ true
    → Reads read_opcode bytes op
unfolding replays read_opcode read_u8
replays-Reads op [] fine h rest pos limit fits = cc
replays-Reads op (b ∷ []) fine h rest pos limit fits =
    ground (arith, legal-validate_op op fine, legal-validate_op b)
replays-Reads op (b ∷ c ∷ tail) fine h rest pos limit fits =
    let first = &&-true (legal b) _ h in
    let second = &&-true (is_extended b && more b) _ first.1 in
    let inside : leb limit pos ≡ false = ground arith in
    let tail_read =
      more_bytes-scan (c ∷ tail) b op rest (pos + 1) limit (scan-cases (c ∷ tail) b op second.1)
        (omega arith) in
    rw (inside, legal-validate_op b first.0, second.0, tail_read, legal-validate_op op fine)
      (ap (λ n. ok (op, at rest n limit)) (omega arith))

row-rewrites :
    (r : Row) (op : ℕ)
    → checked r ≡ true
    → r.invalid ≡ false
    → r.code ≡ op
    → is_extended op ≡ false
    → rewrites op ≡ true
unfolding checked
row-rewrites r op tested valid same single = ground arith

-- A legal opcode that is not itself the first byte of longer ones is written, and the reader
-- takes it back off any bytes that begin with what was written.
pub encode-read_opcode :
    (op : ℕ)
    → legal op ≡ true
    → is_extended op ≡ false
    → (bytes : List ℕ) × (encode_opcode op ≡ ok bytes) × Reads read_opcode bytes op
encode-read_opcode op fine single =
    let (r, found, valid) = legal-row op fine in
    let (tested, same) = find_row-checked op (rows_of op) r found (every-rows_of op) in
    let (bytes, wrote, back) = written op (row-rewrites r op tested valid same single) in
    (bytes, wrote, replays-Reads op bytes fine back)

-- At least one byte is written.
pub encode_opcode-pos : (op : ℕ) (bytes : List ℕ) → encode_opcode op ≡ ok bytes → 0 < length bytes
unfolding encode_opcode encode_u8
encode_opcode-pos op bytes h =
    let (i, top, next) = >>=-ok (top_byte 3 op 0) _ (>>-ok (validate_op op) _ h) in
    let last = >>-ok (validate_op (op / 2 ^ (8 * i) % 2 ^ 8)) _ next in ground (arith, last)

-- A legal opcode that is not itself the first byte of longer ones is written, and reading takes
-- just what was written and gives the opcode back, whatever follows it in the buffer or behind it.
pub read_opcode-encode_opcode :
    (op : ℕ) (rest : List ℕ) (pos more_room : ℕ)
    → legal op ≡ true
    → is_extended op ≡ false
    → (bytes : List ℕ) × (encode_opcode op ≡ ok bytes)
      × (read_opcode (at (bytes ++ rest) pos (pos + length bytes + more_room))
          ≡ ok (op, at rest (pos + length bytes) (pos + length bytes + more_room)))
read_opcode-encode_opcode op rest pos more_room fine single =
    let (bytes, wrote, reads) = encode-read_opcode op fine single in
    (bytes, wrote, reads rest pos (pos + length bytes + more_room) (omega arith))
