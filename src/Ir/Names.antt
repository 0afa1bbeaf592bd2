-- ===== src/Ir/Names.antt =====
-- The strings that src/ir.cpp has for types, kinds and sections, with the constants of
-- inc/wasmdefs.h.
use Prim.Native.String.{String}
use wasm_instrument.Prelude.{ℕ, ◌==◌, if◌then◌else◌}

unfoldable pub wasm_type_string : ℕ → String
wasm_type_string type =
    if type == 0x7f
    then "i32"
    else if type == 0x7e
    then "i64"
    else if type == 0x7d
    then "f32"
    else if type == 0x7c
    then "f64"
    else if type == 0x7b
    then "v128"
    else if type == 0x6f
    then "externref"
    else if type == 0x70
    then "funcref"
    else "unknown"

unfoldable pub wasm_kind_string : ℕ → String
wasm_kind_string kind =
    if kind == 0
    then "func"
    else if kind == 1
    then "table"
    else if kind == 2
    then "memory"
    else if kind == 3
    then "global"
    else "unknown"

unfoldable pub wasm_section_name : ℕ → String
wasm_section_name code =
    if code == 1
    then "type"
    else if code == 2
    then "import"
    else if code == 3
    then "function"
    else if code == 4
    then "table"
    else if code == 5
    then "memory"
    else if code == 6
    then "global"
    else if code == 7
    then "export"
    else if code == 8
    then "start"
    else if code == 9
    then "element"
    else if code == 10
    then "code"
    else if code == 11
    then "data"
    else if code == 12
    then "datacount"
    else if code == 0
    then "custom"
    else "unknown"
