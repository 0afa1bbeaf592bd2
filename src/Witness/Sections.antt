-- ===== src/Witness/Sections.antt =====
-- Runs of the coders of types and of the type section.
use wasm_instrument.Prelude.{◌+◌, ◌≡◌, refl, [], ◌∷◌, ◌++◌, length, arith}
use wasm_instrument.Prelude.Result.{ok}
use wasm_instrument.Buffer.Reads.{at}
use wasm_instrument.Ir.{TableDecl, WasmModule, empty_module}
use wasm_instrument.Section.{
  read_tabletype, write_tabletype, decls, decode_type_section, encode_type_section,
}
use wasm_instrument.Section.Types.{
  LimitsFit, kept, SigFits, decode-encode_type_section, read_tabletype-write_tabletype,
}
use wasm_instrument.Witness.Sample.{limits, binary_sig, sample}

limits-LimitsFit : LimitsFit limits
limits-LimitsFit = record {
  initial_fits = omega arith;
  max_fits = omega arith;
  has_max_bit = omega arith;
  flag_bit = omega arith;
}

abbrev table : TableDecl
table = record { reftype = 0x70; limits = limits }

binary_sig-SigFits : SigFits binary_sig
binary_sig-SigFits = record {
  few_params = omega arith;
  few_results = omega arith;
  param_bytes = (omega arith, (omega arith, tt));
  result_bytes = (omega arith, tt);
}

read_tabletype-write_tabletype_example :
    read_tabletype (at (write_tabletype table ++ 9 ∷ []) 3 (3 + length (write_tabletype table) + 1))
    ≡ ok (
      record table { limits = kept table.limits },
      at (9 ∷ []) (3 + length (write_tabletype table)) (3 + length (write_tabletype table) + 1),
    )
read_tabletype-write_tabletype_example =
    read_tabletype-write_tabletype table (9 ∷ []) 3 1 (omega arith) refl limits-LimitsFit

decode-encode_type_section_example :
    (after : WasmModule) × (decode_type_section empty_module
        (at (encode_type_section sample ++ 9 ∷ []) 3 (3 + length (encode_type_section sample) + 1))
      ≡ ok (
        after,
        at
            (9 ∷ [])
            (3 + length (encode_type_section sample))
            (3 + length (encode_type_section sample) + 1),
      ))
    × (decls after.sigs ≡ decls empty_module.sigs ++ decls sample.sigs)
decode-encode_type_section_example =
    decode-encode_type_section sample empty_module (9 ∷ []) 3 1 (omega arith) (omega arith)
      (binary_sig-SigFits, tt)
