-- ===== src/Buffer.antt =====
-- buffer_t and the readers of src/common.cpp, and the parsing monad of src/parse.cpp and
-- src/inst_internal.cpp. A reader takes the buffer and hands back its value and the buffer after.
pub mod Reads
pub mod Gives
pub mod Moves
use wasm_instrument.Prelude.{
  ℕ, zero, suc, ◌+◌, ◌-◌, ◌*◌, ◌^◌, bit_or, Bool, List, [], ◌∷◌, leb, ltb, if◌then◌else◌, length,
  take, drop,
}
use wasm_instrument.Prelude.Result.{Result, ok, throw, undefined, Error, null_string}
use wasm_instrument.Prelude.Result
use wasm_instrument.Leb.{Leb, good, bad, decode_i32leb, decode_u32leb, decode_i64leb, decode_u64leb}

-- `rest` is the memory from `ptr` on, to the end of the loaded module; `pos` is `ptr - start` and
-- `limit` is `end - start`. `ptr` may stand behind `end`, and `end` behind the memory.
pub record Buffer : Type 0 where
  pub rest : List ℕ
  pub pos : ℕ
  pub limit : ℕ

-- `ptr += n`
abbrev pub advance : ℕ → Buffer → Buffer
advance n b = record b { rest = drop n b.rest; pos = b.pos + n }

abbrev pub Parser {ℓ} : Type ℓ → Type ℓ
Parser A = Buffer → Result (A × Buffer)

abbrev pub pure {ℓ} : {A : Type ℓ} → A → Parser A
pure a b = ok (a, b)

abbrev pub raise {ℓ} : {A : Type ℓ} → Error → Parser A
raise e b = throw e

abbrev pub lift {ℓ} : {A : Type ℓ} → Result A → Parser A
lift r b = Result.◌>>=◌ r λ a. ok (a, b)

infixl 1 ◌>>=◌ ◌>>◌
abbrev pub ◌>>=◌ {ℓ κ} : {A : Type ℓ} {B : Type κ} → Parser A → (A → Parser B) → Parser B
◌>>=◌ p f b = Result.◌>>=◌ (p b) λ (a, c). f a c

abbrev pub ◌>>◌ {ℓ κ} : {A : Type ℓ} {B : Type κ} → Parser A → Parser B → Parser B
p >> q = p >>= λ _. q

-- The tail of read_u32leb and its like: `leblen <= 0` forces the pointer to the end.
after_leb : Buffer → Leb → ℕ × Buffer
after_leb b (good v zero) = (v, advance (b.limit - b.pos) b)
after_leb b (good v (suc n)) = (v, advance (suc n) b)
after_leb b (bad n) = (0, advance (b.limit - b.pos) b)

unfoldable pub read_leb : (List ℕ → ℕ → Result Leb) → Parser ℕ
unfolding after_leb
read_leb decode b =
    if leb b.limit b.pos
    then ok (0, b)
    else Result.◌>>=◌ (decode b.rest (b.limit - b.pos)) λ d. ok (after_leb b d)

unfoldable pub read_u32leb : Parser ℕ
read_u32leb = read_leb decode_u32leb

unfoldable pub read_i32leb : Parser ℕ
read_i32leb = read_leb decode_i32leb

unfoldable pub read_u64leb : Parser ℕ
read_u64leb = read_leb decode_u64leb

unfoldable pub read_i64leb : Parser ℕ
read_i64leb = read_leb decode_i64leb

first_byte : List ℕ → Result ℕ
first_byte [] = undefined
first_byte (x ∷ _) = ok x

-- Out of bounds it prints and returns 0.
unfoldable pub read_u8 : Parser ℕ
unfolding first_byte
read_u8 b =
    if leb b.limit b.pos
    then ok (0, b)
    else Result.◌>>=◌ (first_byte b.rest) λ x. ok (x, advance 1 b)

-- `remain` is `limit - ptr`; with fewer than four bytes it returns 0 and `*len` is not positive.
unfoldable pub decode_u32 : List ℕ → ℕ → Result Leb
decode_u32 (b0 ∷ b1 ∷ b2 ∷ b3 ∷ _) remain =
    if ltb remain 4
    then ok (bad remain)
    else ok (good (bit_or (bit_or (bit_or (b3 * 2 ^ 24) (b2 * 2 ^ 16)) (b1 * 2 ^ 8)) b0) 4)
decode_u32 _ remain = if ltb remain 4 then ok (bad remain) else undefined

abbrev value : Leb → ℕ
value (good v n) = v
value (bad n) = 0

-- The limit that read_u32 gives is four bytes on, wherever the buffer ends.
unfoldable pub read_u32 : Parser ℕ
unfolding decode_u32
read_u32 b = Result.◌>>=◌ (decode_u32 b.rest 4) λ d. ok (value d, advance 4 b)

unfoldable pub read_u64 : Parser ℕ
unfolding decode_u32
read_u64 b =
    if ltb b.limit (b.pos + 8)
    then ok (0, b)
    else Result.◌>>=◌ (decode_u32 b.rest (b.limit - b.pos)) λ low.
      Result.◌>>=◌ (decode_u32 (drop 4 b.rest) (b.limit - b.pos - 4))
        λ high. ok (bit_or (value high * 2 ^ 32) (value low), advance 8 b)

-- The `n` bytes at the pointer, which the memory must have.
bytes_at : ℕ → List ℕ → Result (List ℕ)
bytes_at n xs = if leb n (length xs) then ok (take n xs) else undefined

-- libstdc++ throws where a string is made of NULL. A string is the list of its bytes.
name_of : ℕ → Parser (List ℕ)
unfolding bytes_at
name_of sz b =
    if ltb b.limit (b.pos + sz)
    then throw null_string
    else Result.◌>>=◌ (bytes_at sz b.rest) λ s. ok (s, advance sz b)

unfoldable pub read_name : Parser (List ℕ)
unfolding name_of
read_name = do sz ← read_u32leb; name_of sz

-- Out of bounds it prints and returns no bytes.
unfoldable pub read_bytes : ℕ → Parser (List ℕ)
unfolding bytes_at
read_bytes n b =
    if ltb b.limit (b.pos + n)
    then ok ([], b)
    else Result.◌>>=◌ (bytes_at n b.rest) λ s. ok (s, advance n b)

-- `for (i = 0; i < n; i++) l.push_back (p)`
unfoldable pub read_list {ℓ} : {A : Type ℓ} → ℕ → Parser A → Parser (List A)
read_list zero p = pure []
read_list (suc n) p = do a ← p; l ← read_list n p; pure (a ∷ l)
