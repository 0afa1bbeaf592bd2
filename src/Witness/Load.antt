-- ===== src/Witness/Load.antt =====
-- Runs of parse_bytecode on a module with a type, an imported and a defined function and a memory.
use wasm_instrument.Prelude.{
  ℕ, ◌+◌, ◌≡◌, ◌≢◌, ◌⊎◌, ◌↔◌, refl, List, [], ◌∷◌, ◌++◌, length, arith, false,
}
use wasm_instrument.Prelude.Result.{ok, throw, bad_magic, bad_version}
use wasm_instrument.Leb.{decode_u32leb, decode_loop, more, finish}
use wasm_instrument.Buffer.{
  Buffer, advance, read_u32, read_u8, read_u32leb, read_name, decode_u32, read_leb, read_list,
}
use wasm_instrument.Buffer.Reads.{at}
use wasm_instrument.Writer.{encode_u32}
use wasm_instrument.Ir.{FuncDecl, kind_func, WasmModule}
use wasm_instrument.Ir.Access.{get_sig, elem_ptr, get_list_elem}
use wasm_instrument.Instrument.Spaces.{WellFormed}
use wasm_instrument.Section.Load.{parse_bytecode, decode_sections, wasm_magic, wasm_version}
use wasm_instrument.Section.Loads.{Loads}
use wasm_instrument.Section.Outcome.{Outcome, decode_sections_iff_Outcome}
use wasm_instrument.Section.Ordered.{imports_first}
use wasm_instrument.Section.Header.{
  headed, finish_parse, parse_bytecode-encode_u32, parse_bytecode-WellFormed,
}

-- The type, import, function and memory sections.
abbrev sections : List ℕ
sections =
    1 ∷ 4 ∷ 1 ∷ 0x60 ∷ 0 ∷ 0 ∷ 2 ∷ 7 ∷ 1 ∷ 1 ∷ 101 ∷ 1 ∷ 102 ∷ 0 ∷ 0 ∷ 3 ∷ 2 ∷ 1 ∷ 0 ∷ 5 ∷ 3 ∷ 1 ∷ 0
    ∷ 1 ∷ []

abbrev bytecode : List ℕ
bytecode = 0 ∷ 97 ∷ 115 ∷ 109 ∷ 1 ∷ 0 ∷ 0 ∷ 0 ∷ sections

abbrev no_code : FuncDecl
no_code = record {
  sig = 1;
  pure_locals = [];
  num_pure_locals = 0;
  code_bytes = [];
  instructions = [];
}

abbrev loaded : WasmModule
loaded = record headed {
  sigs = record { id = 1; decl = record { params = []; results = [] } } ∷ [];
  imports = record {
    list = record { mod_name = 101 ∷ []; member_name = 102 ∷ []; desc = kind_func 2 } ∷ [];
    num_funcs = 1;
    num_tables = 0;
    num_mems = 0;
    num_globals = 0;
  };
  funcs = record { id = 2; decl = no_code } ∷ record { id = 3; decl = no_code } ∷ [];
  mems =
      record {
        id = 4;
        decl = record { limits = record { initial = 1; max = 0; has_max = 0; flag = 0 } };
      }
      ∷ [];
  next_id = 5;
}

parsed : parse_bytecode bytecode ≡ ok loaded
unfolding parse_bytecode decode_u32leb decode_loop read_u32 decode_u32 get_list_elem elem_ptr
    read_u8 read_u32leb read_name read_list get_sig read_leb more finish
parsed = refl

parse_bytecode-WellFormed_example :
    (ids : List ℕ) × (end : Buffer) × Loads headed
      (advance 4 (advance 4 (at bytecode 0 (length bytecode))))
      ids
      loaded
      end
    × (end.pos ≡ length bytecode)
    × (WellFormed loaded ⊎ (imports_first ids ≡ false))
parse_bytecode-WellFormed_example = parse_bytecode-WellFormed bytecode loaded parsed

decode_sections_iff_Outcome_example :
    (decode_sections headed (at sections 8 (length bytecode))
      ≡ ok (loaded, at [] (length bytecode) (length bytecode)))
    ↔ Outcome headed
        (at sections 8 (length bytecode))
        (ok (loaded, at [] (length bytecode) (length bytecode)))
decode_sections_iff_Outcome_example =
    decode_sections_iff_Outcome headed (at sections 8 (length bytecode))
      (ok (loaded, at [] (length bytecode) (length bytecode)))

parse_bytecode-encode_u32_example :
    ((wasm_magic ≢ wasm_magic)
      × (parse_bytecode (encode_u32 wasm_magic ++ (encode_u32 2 ++ sections)) ≡ throw bad_magic))
    ⊎ ((wasm_magic ≡ wasm_magic)
        × (2 ≢ wasm_version)
        × (parse_bytecode (encode_u32 wasm_magic ++ (encode_u32 2 ++ sections))
            ≡ throw bad_version))
    ⊎ ((wasm_magic ≡ wasm_magic)
        × (2 ≡ wasm_version)
        × (parse_bytecode (encode_u32 wasm_magic ++ (encode_u32 2 ++ sections))
            ≡ finish_parse (decode_sections headed (at sections 8 (length sections + 8)))))
parse_bytecode-encode_u32_example =
    parse_bytecode-encode_u32 wasm_magic 2 sections (omega arith) (omega arith)
