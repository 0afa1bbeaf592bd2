-- ===== src/Buffer/Reads.antt =====
-- What a reader does on bytes that stand before the limit, whatever follows them.
use wasm_instrument.Prelude.{
  ℕ, suc, ◌+◌, ◌-◌, ◌*◌, ◌/◌, ◌%◌, ◌^◌, ◌≤◌, ◌<◌, ◌≡◌, refl, ap, ◌∙◌, List, [], ◌∷◌, ◌++◌, length,
  arith, true, false, leb, ltb, bit_or, append_assoc, length-append, drop-length-append,
  take-length-append, take, All,
}
use wasm_instrument.Prelude.Bits.{fields_or}
use wasm_instrument.Prelude.Result.{Result, ok}
use wasm_instrument.Leb.{
  Leb, good, decode_u32leb, encode_u32leb, encode_i32leb, encode_i64leb, encode_u64leb,
}
use wasm_instrument.Leb.{decode_i32leb, decode_u64leb, decode_i64leb}
use wasm_instrument.Leb.Bounds.{u32leb_pos, i32leb_pos, u64leb_pos, i64leb_pos}
use wasm_instrument.Leb.Unsigned.{decode-encode_u32leb, decode-encode_u64leb}
use wasm_instrument.Leb.RoundTrip.{decode-encode_i32leb, decode-encode_i64leb}
use wasm_instrument.Buffer.{
  Buffer, Parser, pure, lift, read_list, ◌>>=◌, read_leb, read_u32leb, read_i32leb, read_u64leb,
  read_i64leb, read_u8, read_u32, read_u64, name_of, read_name, read_bytes,
}
use wasm_instrument.Writer.{encode_u8, encode_u32, encode_u64, encode_name, concat_map}

abbrev pub at : List ℕ → ℕ → ℕ → Buffer
at rest pos limit = record { rest = rest; pos = pos; limit = limit }

-- `p` takes exactly the bytes `xs` off the front and gives `a`.
abbrev pub Reads {ℓ} : {A : Type ℓ} → Parser A → List ℕ → A → Type ℓ
Reads p xs a =
    (rest : List ℕ) (pos limit : ℕ)
    → pos + length xs ≤ limit
    → p (at (xs ++ rest) pos limit) ≡ ok (a, at rest (pos + length xs) limit)

pub Reads-pure {ℓ} : {A : Type ℓ} (a : A) → Reads (pure a) [] a
Reads-pure a rest pos limit h = ap (λ n. ok (a, at rest n limit)) (omega arith)

pub Reads-bind {ℓ κ} :
    {A : Type ℓ} {B : Type κ} (p : Parser A) (f : A → Parser B) (xs ys : List ℕ) {a : A} {b : B}
    → Reads p xs a
    → Reads (f a) ys b
    → Reads (p >>= f) (xs ++ ys) b
Reads-bind p f xs ys {a} {b} hp hf rest pos limit h =
    rw (append_assoc xs ys rest, hp (ys ++ rest) pos limit (omega (arith, length-append xs ys)))
      (hf rest (pos + length xs) limit (omega (arith, length-append xs ys))
        ∙ ap (λ n. ok (b, at rest n limit)) (omega (arith, length-append xs ys)))

-- A LEB128 reader whose decoder knows the bytes.
read_leb-Reads :
    (decode : List ℕ → ℕ → Result Leb) (xs : List ℕ) (v : ℕ)
    → 0 < length xs
    → ((rest : List ℕ) (left : ℕ)
        → length xs ≤ left
        → decode (xs ++ rest) left ≡ ok (good v (length xs)))
    → Reads (read_leb decode) xs v
unfolding read_leb
read_leb-Reads decode [] v h known rest pos limit fits = absurd (omega arith)
read_leb-Reads decode (x ∷ xs) v h known rest pos limit fits =
    let inside : leb limit pos ≡ false = ground arith in
    rw (inside, known rest (limit - pos) (omega arith))
      (ap (λ r. ok (v, at r (pos + suc (length xs)) limit)) (drop-length-append xs rest))

-- What encode_u32leb writes, read_u32leb reads; and so for the three others.
pub read_u32leb-Reads : (v : ℕ) → v < 2 ^ 32 → Reads read_u32leb (encode_u32leb v) v
unfolding read_u32leb
read_u32leb-Reads v h =
    read_leb-Reads decode_u32leb (encode_u32leb v) v (u32leb_pos v)
      λ rest left. decode-encode_u32leb v rest left h

pub read_i32leb-Reads : (v : ℕ) → v < 2 ^ 32 → Reads read_i32leb (encode_i32leb v) v
unfolding read_i32leb
read_i32leb-Reads v h =
    read_leb-Reads decode_i32leb (encode_i32leb v) v (i32leb_pos v)
      λ rest left. decode-encode_i32leb v rest left h

pub read_u64leb-Reads : (v : ℕ) → v < 2 ^ 64 → Reads read_u64leb (encode_u64leb v) v
unfolding read_u64leb
read_u64leb-Reads v h =
    read_leb-Reads decode_u64leb (encode_u64leb v) v (u64leb_pos v)
      λ rest left. decode-encode_u64leb v rest left h

pub read_i64leb-Reads : (v : ℕ) → v < 2 ^ 64 → Reads read_i64leb (encode_i64leb v) v
unfolding read_i64leb
read_i64leb-Reads v h =
    read_leb-Reads decode_i64leb (encode_i64leb v) v (i64leb_pos v)
      λ rest left. decode-encode_i64leb v rest left h

pub read_u8-Reads : (v : ℕ) → v < 256 → Reads read_u8 (encode_u8 v) v
unfolding read_u8 encode_u8
read_u8-Reads v h rest pos limit fits = ground arith

-- The four bytes of a number, low byte first, add up to it.
word :
    (v : ℕ)
    → v < 2 ^ 32
    → bit_or
        (bit_or
          (bit_or (v / 2 ^ 24 % 2 ^ 8 * 2 ^ 24) (v / 2 ^ 16 % 2 ^ 8 * 2 ^ 16))
          (v / 2 ^ 8 % 2 ^ 8 * 2 ^ 8))
        (v % 2 ^ 8)
      ≡ v
word v h =
    let upper : bit_or (v / 2 ^ 24 % 2 ^ 8 * 2 ^ 24) (v / 2 ^ 16 % 2 ^ 8 * 2 ^ 16)
        ≡ v / 2 ^ 16 * 2 ^ 16 =
      omega
        (arith, fields_or 24 (v / 2 ^ 24 % 2 ^ 8) (v / 2 ^ 16 % 2 ^ 8 * 2 ^ 16) (omega arith)) in
    let middle : bit_or (v / 2 ^ 16 * 2 ^ 16) (v / 2 ^ 8 % 2 ^ 8 * 2 ^ 8) ≡ v / 2 ^ 8 * 2 ^ 8 =
      omega (arith, fields_or 16 (v / 2 ^ 16) (v / 2 ^ 8 % 2 ^ 8 * 2 ^ 8) (omega arith)) in
    let lower : bit_or (v / 2 ^ 8 * 2 ^ 8) (v % 2 ^ 8) ≡ v =
      omega (arith, fields_or 8 (v / 2 ^ 8) (v % 2 ^ 8) (omega arith)) in
    rw (upper, middle) lower

pub read_u32-Reads : (v : ℕ) → v < 2 ^ 32 → Reads read_u32 (encode_u32 v) v
unfolding read_u32 encode_u32
read_u32-Reads v h rest pos limit fits = rw (word v h) refl

pub read_u64-Reads : (v : ℕ) → v < 2 ^ 64 → Reads read_u64 (encode_u64 v) v
unfolding read_u64 encode_u64
read_u64-Reads v h rest pos limit fits =
    let inside : ltb limit (pos + 8) ≡ false = ground arith in
    let first : ltb (limit - pos) 4 ≡ false = ground arith in
    let second : ltb (limit - pos - 4) 4 ≡ false = ground arith in
    let whole : bit_or (v / 2 ^ 32 % 2 ^ 32 * 2 ^ 32) (v % 2 ^ 32) ≡ v =
      omega (arith, fields_or 32 (v / 2 ^ 32 % 2 ^ 32) (v % 2 ^ 32) (omega arith)) in
    rw
      (
        inside,
        first,
        second,
        word (v % 2 ^ 32) (omega arith),
        word (v / 2 ^ 32 % 2 ^ 32) (omega arith),
        whole,
      )
      refl

take_bytes : (xs rest : List ℕ) → leb (length xs) (length (xs ++ rest)) ≡ true
take_bytes xs rest = ground (arith, length-append xs rest)

-- Bytes that stand before the limit are read as they are.
pub read_bytes-Reads : (xs : List ℕ) → Reads (read_bytes (length xs)) xs xs
unfolding read_bytes
read_bytes-Reads xs rest pos limit fits =
    let inside : ltb limit (pos + length xs) ≡ false = ground arith in
    rw (inside, take_bytes xs rest, take-length-append xs rest, drop-length-append xs rest) refl

name_of-Reads : (xs : List ℕ) → Reads (name_of (length xs)) xs xs
unfolding name_of
name_of-Reads xs rest pos limit fits =
    let inside : ltb limit (pos + length xs) ≡ false = ground arith in
    rw (inside, take_bytes xs rest, take-length-append xs rest, drop-length-append xs rest) refl

take_all : (xs : List ℕ) → take (length xs) xs ≡ xs
take_all [] = refl
take_all (x ∷ xs) = ap (◌∷◌ x) (take_all xs)

-- A name shorter than 2 ^ 32 bytes that is written is read back.
pub read_name-Reads :
    (name : List ℕ) → length name < 2 ^ 32 → Reads read_name (encode_name name) name
unfolding read_name encode_name
read_name-Reads name h =
    let same : length name % 2 ^ 32 ≡ length name = omega arith in
    rw (same, take_all name)
      (Reads-bind read_u32leb name_of (encode_u32leb (length name)) name
        (read_u32leb-Reads (length name) h) (name_of-Reads name))

-- A name shorter than 2 ^ 32 bytes is read back, and no more than was written is taken.
pub read_name-encode_name :
    (name rest : List ℕ) (pos more_room : ℕ)
    → length name < 2 ^ 32
    → read_name (at (encode_name name ++ rest) pos (pos + length (encode_name name) + more_room))
      ≡ ok (
        name,
        at rest (pos + length (encode_name name)) (pos + length (encode_name name) + more_room),
      )
read_name-encode_name name rest pos more_room h =
    read_name-Reads name h rest pos (pos + length (encode_name name) + more_room) (omega arith)

-- A last step that takes no bytes.
pub Reads-then {ℓ κ} :
    {A : Type ℓ} {B : Type κ} (p : Parser A) (f : A → Parser B) (xs : List ℕ) {a : A} {b : B}
    → Reads p xs a
    → Reads (f a) [] b
    → Reads (p >>= f) xs b
Reads-then p f xs {a} {b} hp hf rest pos limit h = rw (hp rest pos limit h) (
    hf rest (pos + length xs) limit (omega arith) ∙ ap (λ n. ok (b, at rest n limit)) (omega arith))

pub Reads-lift {ℓ} : {A : Type ℓ} (r : Result A) {a : A} → r ≡ ok a → Reads (lift r) [] a
Reads-lift r {a} e rest pos limit h = rw e (ap (λ n. ok (a, at rest n limit)) (omega arith))

-- `for (i = 0; i < n; i++) l.push_back (p)`, over what the elements were written as.
pub Reads-list {ℓ} :
    {A : Type ℓ} (p : Parser A) (write : A → List ℕ) (l : List A)
    → All (λ a. Reads p (write a) a) l
    → Reads (read_list (length l) p) (concat_map write l) l
unfolding read_list concat_map
Reads-list p write [] all = Reads-pure []
Reads-list {A} p write (a ∷ l) (first, others) =
    Reads-bind p (λ x. read_list (length l) p >>= λ r. pure (x ∷ r)) (write a) (concat_map write l)
      first
      (Reads-then (read_list (length l) p) (λ r. pure (a ∷ r)) (concat_map write l)
        (Reads-list p write l others) (Reads-pure (a ∷ l)))
