-- ===== src/Leb/Tests.antt =====
-- Runs of the LEB128 coders of src/common.cpp.
use wasm_instrument.Leb.Unsigned.{decode-encode_u32leb, decode-encode_u64leb}
use wasm_instrument.Leb.RoundTrip.{decode-encode_i32leb, decode-encode_i64leb}
use wasm_instrument.Leb.{decode_u64leb, encode_u64leb}
use wasm_instrument.Prelude.{length, ◌++◌, arith, ◌≡◌, refl, [], ◌∷◌, ◌^◌, ◌-◌}
use wasm_instrument.Prelude.Result.{ok}
use wasm_instrument.Leb.{
  good, bad, decode_i32leb, decode_u32leb, decode_i64leb, decode_loop, more, finish, last_byte,
  encode_i32leb, encode_u32leb, encode_signed, encode_unsigned, encode_i64leb,
}

enc300 : encode_u32leb 300 ≡ 0xac ∷ 2 ∷ []
unfolding encode_u32leb encode_unsigned
enc300 = refl

enc_neg : encode_i32leb (2 ^ 32 - 128) ≡ 0x80 ∷ 0x7f ∷ []
unfolding encode_i32leb encode_signed
enc_neg = refl

enc_min :
    encode_i64leb (2 ^ 63)
    ≡ 0x80 ∷ 0x80 ∷ 0x80 ∷ 0x80 ∷ 0x80 ∷ 0x80 ∷ 0x80 ∷ 0x80 ∷ 0x80 ∷ 0x7f ∷ []
unfolding encode_i64leb encode_signed
enc_min = refl

dec_neg : decode_i32leb (0x80 ∷ 0x7f ∷ 7 ∷ []) 3 ≡ ok (good (2 ^ 32 - 128) 2)
unfolding decode_i32leb decode_loop more finish
dec_neg = refl

dec_min :
    decode_i64leb (0x80 ∷ 0x80 ∷ 0x80 ∷ 0x80 ∷ 0x80 ∷ 0x80 ∷ 0x80 ∷ 0x80 ∷ 0x80 ∷ 0x7f ∷ []) 10
    ≡ ok (good (2 ^ 63) 10)
unfolding decode_i64leb decode_loop more last_byte
dec_min = refl

overlong : decode_u32leb (0x80 ∷ 0x80 ∷ 0x80 ∷ 0x80 ∷ 0x80 ∷ 1 ∷ []) 6 ≡ ok (bad 5)
unfolding decode_u32leb decode_loop more last_byte
overlong = refl

decode-encode_u32leb_example :
    decode_u32leb (encode_u32leb 300 ++ 9 ∷ []) 7 ≡ ok (good 300 (length (encode_u32leb 300)))
unfolding encode_u32leb encode_unsigned
decode-encode_u32leb_example = decode-encode_u32leb 300 (9 ∷ []) 7 (omega arith) (omega arith)

decode-encode_u64leb_example :
    decode_u64leb (encode_u64leb (2 ^ 40) ++ []) 10
    ≡ ok (good (2 ^ 40) (length (encode_u64leb (2 ^ 40))))
unfolding encode_u64leb encode_unsigned
decode-encode_u64leb_example = decode-encode_u64leb (2 ^ 40) [] 10 (omega arith) (omega arith)

decode-encode_i32leb_example :
    decode_i32leb (encode_i32leb (2 ^ 32 - 128) ++ 1 ∷ []) 5
    ≡ ok (good (2 ^ 32 - 128) (length (encode_i32leb (2 ^ 32 - 128))))
unfolding encode_i32leb encode_signed
decode-encode_i32leb_example =
    decode-encode_i32leb (2 ^ 32 - 128) (1 ∷ []) 5 (omega arith) (omega arith)

decode-encode_i64leb_example :
    decode_i64leb (encode_i64leb (2 ^ 63) ++ []) 10
    ≡ ok (good (2 ^ 63) (length (encode_i64leb (2 ^ 63))))
unfolding encode_i64leb encode_signed
decode-encode_i64leb_example = decode-encode_i64leb (2 ^ 63) [] 10 (omega arith) (omega arith)
