-- ===== src/Section/Custom.antt =====
-- decode_custom_section of src/parse.cpp: the name section and the others.
use wasm_instrument.Prelude.{
  ℕ, zero, suc, ◌+◌, ◌-◌, ◌%◌, ◌^◌, List, [], ◌∷◌, ◌++◌, some, ◌==◌, same, if◌then◌else◌, length,
}
use wasm_instrument.Prelude.Result.{ok, undefined, require, subsection_alignment}
use wasm_instrument.Prelude.Result
use wasm_instrument.Buffer.{
  Parser, pure, lift, ◌>>=◌, read_u32leb, read_u8, read_name, read_bytes, read_list,
}
use wasm_instrument.Ir.{DebugNameAssoc, DebugNameDecl, CustomDecl, WasmModule}
use wasm_instrument.Ir.Access.{get_func}

-- `"name"`
abbrev pub name_text : List ℕ
name_text = 110 ∷ 97 ∷ 109 ∷ 101 ∷ []

unfoldable pub read_name_assoc : WasmModule → Parser DebugNameAssoc
read_name_assoc m = do
  idx ← read_u32leb
  func ← lift (get_func m idx)
  name ← read_name
  pure (record { func = func; name = name })

-- The function subsection, which has to end at `end_subsec`.
unfoldable pub read_func_names : WasmModule → ℕ → Parser (List DebugNameAssoc)
unfolding read_name_assoc
read_func_names m len b =
    Result.◌>>=◌ ((read_u32leb >>= λ num_names. read_list num_names (read_name_assoc m)) b)
      λ (names, c).
        Result.◌>>◌ (require subsection_alignment (c.pos == b.pos + len)) (ok (names, c))

-- One round of the loop over the subsections.
unfoldable pub read_subsection_of : WasmModule → DebugNameDecl → ℕ → ℕ → Parser DebugNameDecl
unfolding read_func_names
read_subsection_of m debug id len =
    if id == 1
    then (read_func_names m len >>= λ names.
        pure (record debug { func_assoc = debug.func_assoc ++ names }))
    else (read_bytes len >>= λ bytes. pure (record debug {
      subsections = debug.subsections ++ record { id = id; bytes = bytes } ∷ [];
    }))

unfoldable pub read_subsection : WasmModule → DebugNameDecl → Parser DebugNameDecl
unfolding read_subsection_of
read_subsection m debug = do id ← read_u8; len ← read_u32leb; read_subsection_of m debug id len

-- `while (buf.ptr != end_sec)`, with fuel for its rounds: each takes a byte before the limit.
unfoldable pub subsections_loop : WasmModule → ℕ → ℕ → DebugNameDecl → Parser DebugNameDecl
unfolding read_subsection
subsections_loop m end_sec zero debug b = undefined
subsections_loop m end_sec (suc rounds) debug b =
    let next =
      Result.◌>>=◌ (read_subsection m debug b)
        λ (after, c). subsections_loop m end_sec rounds after c in
    if b.pos == end_sec then ok (debug, b) else next

abbrev pub no_names : DebugNameDecl
no_names = record { subsections = []; func_assoc = [] }

unfoldable pub read_names : WasmModule → ℕ → Parser DebugNameDecl
unfolding subsections_loop
read_names m end_sec b = subsections_loop m end_sec (b.limit - b.pos + 1) no_names b

-- `num_bytes` is a difference cut to 32 bits.
unfoldable pub read_custom_as : WasmModule → ℕ → List ℕ → Parser CustomDecl
unfolding read_names
read_custom_as m end_sec name b =
    if same name name_text
    then (read_names m end_sec >>= λ debug.
          pure (record { name = name; bytes = []; debug = debug }))
        b
    else (read_bytes ((end_sec + 2 ^ 64 - b.pos) % 2 ^ 32) >>= λ bytes.
          pure (record { name = name; bytes = bytes; debug = no_names }))
        b

unfoldable pub read_custom : WasmModule → ℕ → Parser CustomDecl
unfolding read_custom_as
read_custom m end_sec = do name ← read_name; read_custom_as m end_sec name

abbrev pub push_custom : WasmModule → CustomDecl → WasmModule
push_custom m custom = record m {
  customs = m.customs ++ custom ∷ [];
  fn_names_debug = if same custom.name name_text then some (length m.customs) else m.fn_names_debug;
}

unfoldable pub decode_custom_section : WasmModule → ℕ → Parser WasmModule
unfolding read_custom
decode_custom_section m len b =
    Result.◌>>=◌ (read_custom m (b.pos + len) b) λ (custom, c). ok (push_custom m custom, c)
