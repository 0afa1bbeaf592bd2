-- ===== src/Witness/Imports.antt =====
-- A run of the import section of the sample module.
use wasm_instrument.Prelude.{ℕ, ◌++◌, ◌≡◌, refl, List, [], ◌==◌, if◌then◌else◌, length, arith, some}
use wasm_instrument.Prelude.Result.{ok}
use wasm_instrument.Leb.{encode_u32leb}
use wasm_instrument.Ir.Access.{index_of}
use wasm_instrument.Section.Encode.{write_all, encode_import, encode_import_section}
use wasm_instrument.Section.ImportsWritten.{encode_import_section-WellFormed}
use wasm_instrument.Witness.Sample.{sample, sample-WellFormed}

sig_found : index_of sample.sigs 1 ≡ some 0
unfolding index_of
sig_found = refl

encode_import_section-WellFormed_example :
    (elems : List ℕ) × (write_all (encode_import sample) sample.imports.list ≡ ok elems)
    × (encode_import_section sample
        ≡ ok (
            if length sample.imports.list == 0
            then []
            else encode_u32leb (length sample.imports.list) ++ elems))
encode_import_section-WellFormed_example =
    encode_import_section-WellFormed sample sample-WellFormed (omega arith)
      ((0, sig_found, omega arith), ((0, sig_found, omega arith), tt))
