-- ===== src/Witness/Sample.antt =====
-- A module with one imported and one defined function, a memory, two exports and a name section.
use wasm_instrument.Prelude.{refl, List, [], ◌∷◌, some, inr, arith}
use wasm_instrument.Ir.{
  Limits, SigDecl, FuncDecl, DebugNameAssoc, kind_func, kind_memory, WasmModule, empty_module,
}
use wasm_instrument.Instrument.Lookup.{main_name, start_name}
use wasm_instrument.Instrument.Spaces.{WellFormed}

abbrev pub binary_sig : SigDecl
binary_sig = record { params = 0x7f ∷ 0x7f ∷ []; results = 0x7f ∷ [] }

abbrev pub body : FuncDecl
body = record {
  sig = 1;
  pure_locals = record { count = 2; type = 0x7f } ∷ [];
  num_pure_locals = 2;
  code_bytes = [];
  instructions = [];
}

abbrev pub names : List DebugNameAssoc
names = record { func = 3; name = 97 ∷ [] } ∷ []

abbrev pub sample : WasmModule
sample = record empty_module {
  customs =
      record {
        name = 110 ∷ [];
        bytes = [];
        debug = record { subsections = []; func_assoc = names };
      }
      ∷ [];
  sigs = record { id = 1; decl = binary_sig } ∷ [];
  imports = record {
    list = record { mod_name = 101 ∷ []; member_name = 102 ∷ []; desc = kind_func 2 } ∷ [];
    num_funcs = 1;
    num_tables = 0;
    num_mems = 0;
    num_globals = 0;
  };
  funcs =
      record { id = 2; decl = record body { pure_locals = []; num_pure_locals = 0 } }
      ∷ record { id = 3; decl = body }
      ∷ [];
  mems =
      record {
        id = 4;
        decl = record { limits = record { initial = 1; max = 0; has_max = 0; flag = 0 } };
      }
      ∷ [];
  exports =
      record { name = main_name; desc = kind_func 3 }
      ∷ record { name = start_name; desc = kind_memory 4 }
      ∷ [];
  fn_names_debug = some 0;
  next_id = 5;
}

abbrev pub limits : Limits
limits = record { initial = 1; max = 2; has_max = 1; flag = 0 }

pub sample-WellFormed : WellFormed sample
sample-WellFormed = record {
  funcs = record {
    counted = refl;
    defined = 3 ∷ [];
    imports_first = refl;
    distinct = (((λ e. omega arith), tt), (tt, tt));
    used = (omega arith, (omega arith, tt));
  };
  tables = record { counted = refl; defined = []; imports_first = refl; distinct = tt; used = tt };
  mems = record {
    counted = refl;
    defined = 4 ∷ [];
    imports_first = refl;
    distinct = (tt, tt);
    used = (omega arith, tt);
  };
  globals = record { counted = refl; defined = []; imports_first = refl; distinct = tt; used = tt };
  names = inr (0, refl, omega arith);
}
