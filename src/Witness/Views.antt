-- ===== src/Witness/Views.antt =====
-- Runs of the walk over scopes on variants of the sample module.
use wasm_instrument.Prelude.{ℕ, ◌≡◌, refl, List, [], ◌∷◌, length, All, true, false, some, suc}
use wasm_instrument.Prelude.Result.{ok, undefined}
use wasm_instrument.Ir.{Imm, Inst, FuncDecl, WasmModule}
use wasm_instrument.Ir.Access.{index_of, get_func_idx, get_list_idx, is_import, node_at}
use wasm_instrument.Views.{ScopeBlock, gen_scopes_from_instructions}
use wasm_instrument.Views.Ifs.{has_if, gen_scopes_from_instructions-if}
use wasm_instrument.Views.Depth.{else_depth, after_op, Nested, scopes_of}
use wasm_instrument.Views.Ended.{Ended}
use wasm_instrument.Views.Nested.{
  gen_scopes_from_instructions-Nested, gen_scopes_from_instructions-Ended,
}
use wasm_instrument.Witness.Sample.{sample, body}

abbrev plain : ℕ → Inst
plain opcode = record { opcode = opcode; orig_pc = 0; imm = Imm.i32 0 }

abbrev with_code : List Inst → FuncDecl
with_code code = record body { instructions = code }

abbrev holding : List Inst → WasmModule
holding code = record sample {
  funcs =
      record { id = 2; decl = record body { pure_locals = []; num_pure_locals = 0 } }
      ∷ record { id = 3; decl = with_code code }
      ∷ [];
}

-- A loop in a block.
abbrev looping : List Inst
looping = plain 2 ∷ plain 3 ∷ plain 1 ∷ plain 11 ∷ plain 11 ∷ plain 11 ∷ []

abbrev branching : List Inst
branching = plain 65 ∷ plain 4 ∷ plain 11 ∷ plain 11 ∷ []

defined_func : (code : List Inst) → is_import (holding code) 3 ≡ ok false
unfolding is_import get_func_idx get_list_idx index_of
defined_func code = refl

held : (code : List Inst) → node_at (holding code).funcs 3 ≡ some (with_code code)
unfolding node_at
held code = refl

looping-Nested : Nested 1 looping
unfolding after_op else_depth
looping-Nested = Nested.step refl (
    Nested.step refl
      (Nested.step refl (Nested.step refl (Nested.step refl (Nested.step refl Nested.finish)))))

branches : has_if branching ≡ true
unfolding has_if
branches = refl

gen_scopes_from_instructions-Nested_example :
    (scopes : List ScopeBlock) × (gen_scopes_from_instructions (holding looping) 3 ≡ ok scopes)
    × (length scopes ≡ suc (scopes_of looping))
gen_scopes_from_instructions-Nested_example =
    gen_scopes_from_instructions-Nested (holding looping) 3 (with_code looping)
      (defined_func looping) (held looping) looping-Nested

gen_scopes_from_instructions-Ended_example :
    (scopes : List ScopeBlock) × (gen_scopes_from_instructions (holding looping) 3 ≡ ok scopes)
    × All (Ended looping) scopes
gen_scopes_from_instructions-Ended_example =
    gen_scopes_from_instructions-Ended (holding looping) 3 (with_code looping)
      (defined_func looping) (held looping) looping-Nested

gen_scopes_from_instructions-if_example :
    gen_scopes_from_instructions (holding branching) 3 ≡ undefined
gen_scopes_from_instructions-if_example =
    gen_scopes_from_instructions-if (holding branching) 3 (with_code branching)
      (defined_func branching) (held branching) branches
