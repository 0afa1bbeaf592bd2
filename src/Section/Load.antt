-- ===== src/Section/Load.antt =====
-- WasmModule::decode_buffer and parse_bytecode of src/parse.cpp: the header and the loop over the
-- sections, each of which is read from a buffer of its own.
use wasm_instrument.Prelude.{ℕ, zero, suc, ◌+◌, ◌-◌, List, ◌==◌, leb, if◌then◌else◌, length}
use wasm_instrument.Prelude.Result.{
  Result, ok, throw, undefined, require, bad_magic, bad_version, section_alignment, unknown_section,
  empty_bytecode, unexpected_end,
}
use wasm_instrument.Prelude.Result
use wasm_instrument.Buffer.{
  Buffer, Parser, raise, lift, ◌>>=◌, ◌>>◌, read_u32leb, read_u8, read_u32,
}
use wasm_instrument.Ir.{WasmModule, empty_module}
use wasm_instrument.Section.{decode_type_section}
use wasm_instrument.Section.Decode.{
  decode_import_section, decode_function_section, decode_table_section, decode_memory_section,
  decode_global_section, decode_export_section, decode_start_section,
}
use wasm_instrument.Section.Bodies.{
  decode_element_section, decode_code_section, decode_data_section, decode_datacount_section,
}
use wasm_instrument.Section.Custom.{decode_custom_section}

-- `switch (section_id)`
unfoldable pub decode_section : WasmModule → ℕ → ℕ → Parser WasmModule
unfolding decode_type_section decode_import_section decode_function_section decode_table_section
    decode_memory_section decode_global_section decode_export_section decode_start_section
    decode_element_section decode_code_section decode_data_section decode_datacount_section
    decode_custom_section
decode_section m section_id len =
    if section_id == 1
    then decode_type_section m
    else if section_id == 2
    then decode_import_section m
    else if section_id == 3
    then decode_function_section m
    else if section_id == 4
    then decode_table_section m
    else if section_id == 5
    then decode_memory_section m
    else if section_id == 6
    then decode_global_section m
    else if section_id == 7
    then decode_export_section m
    else if section_id == 8
    then decode_start_section m
    else if section_id == 9
    then decode_element_section m
    else if section_id == 10
    then decode_code_section m
    else if section_id == 11
    then decode_data_section m
    else if section_id == 12
    then decode_datacount_section m
    else if section_id == 0
    then decode_custom_section m len
    else raise unknown_section

-- A section is read from `{buf.ptr, buf.ptr, buf.ptr + len}`, and the pointer goes on from its end.
unfoldable pub framed_section : WasmModule → ℕ → ℕ → Parser WasmModule
unfolding decode_section
framed_section m section_id len b =
    Result.◌>>=◌ (decode_section m section_id len (record { rest = b.rest; pos = 0; limit = len }))
      λ (after, c).
        Result.◌>>◌ (require section_alignment (c.pos == len))
          (ok (after, record b { rest = c.rest; pos = b.pos + c.pos }))

unfoldable pub read_section : WasmModule → Parser WasmModule
unfolding framed_section
read_section m = do section_id ← read_u8; len ← read_u32leb; framed_section m section_id len

-- `while (buf.ptr < buf.end)`, with fuel for its rounds: each reads a byte.
unfoldable pub sections_loop : ℕ → WasmModule → Parser WasmModule
unfolding read_section
sections_loop zero m b = undefined
sections_loop (suc rounds) m b =
    let next = Result.◌>>=◌ (read_section m b) λ (after, c). sections_loop rounds after c in
    if leb b.limit b.pos then ok (m, b) else next

unfoldable pub decode_sections : WasmModule → Parser WasmModule
unfolding sections_loop
decode_sections m b = sections_loop (b.limit - b.pos + 1) m b

abbrev pub wasm_magic : ℕ
wasm_magic = 0x6d736100

abbrev pub wasm_version : ℕ
wasm_version = 1

unfoldable pub decode_buffer : WasmModule → Parser WasmModule
unfolding decode_sections
decode_buffer m = do
  magic ← read_u32
  lift (require bad_magic (magic == wasm_magic))
  version ← read_u32
  lift (require bad_version (version == wasm_version))
  decode_sections (record m { magic = magic; version = version })

unfoldable pub parse_buffer : Buffer → Result WasmModule
unfolding decode_buffer
parse_buffer b =
    Result.◌>>=◌ (decode_buffer empty_module b)
      λ (m, c). Result.◌>>◌ (require unexpected_end (c.pos == c.limit)) (ok m)

-- The memory of the program holds no more than the bytes from `start` to `end`.
unfoldable pub parse_bytecode : List ℕ → Result WasmModule
unfolding parse_buffer
parse_bytecode bytes =
    if length bytes == 0
    then throw empty_bytecode
    else parse_buffer (record { rest = bytes; pos = 0; limit = length bytes })
