-- ===== src/Views.antt =====
-- The scopes of a function's code: src/views.cpp and src/inc/views.h. An iterator into the
-- instructions is a position, none where it was not set; a pointer to a scope is its position in
-- static_scopes, whose elements stay where they are.
use wasm_instrument.Prelude.{
  ℕ, zero, suc, ◌+◌, ◌-◌, ◌%◌, ◌^◌, Bool, true, false, List, [], ◌∷◌, ◌++◌, Option, some, none,
  ◌==◌, ◌||◌, length, get_elem?, if◌then◌else◌,
}
use wasm_instrument.Prelude.Result.{Result, ok, undefined, deref, ◌>>=◌}
use wasm_instrument.Ir.{Inst, Ptr, FuncDecl, WasmModule}
use wasm_instrument.Ir.Access.{is_import, node_at}
pub mod Ifs
pub mod Depth
pub mod Blocks
pub mod Kept
pub mod Ended
pub mod Nested

pub data ScopeType : Type 0 where
  scope_loop : ScopeType
  scope_block : ScopeType
  scope_if : ScopeType
  scope_ifwelse : ScopeType
  scope_else : ScopeType
  scope_unknown : ScopeType

-- The two depths are an int as its 32 bits.
pub record ScopeBlock : Type 0 where
  pub start : ℕ
  pub end : Option ℕ
  pub depth : ℕ
  pub loop_depth : ℕ
  pub subscopes : List ℕ
  pub outer_subscopes : List ℕ

-- ScopeBlock(start, depth) and set_loop_depth.
abbrev pub new_scope : ℕ → ℕ → ℕ → ScopeBlock
new_scope start depth loop_depth = record {
  start = start;
  end = none;
  depth = depth;
  loop_depth = loop_depth;
  subscopes = [];
  outer_subscopes = [];
}

abbrev pub op_block : ℕ
op_block = 0x02

abbrev pub op_loop : ℕ
op_loop = 0x03

abbrev pub op_if : ℕ
op_if = 0x04

abbrev pub op_else : ℕ
op_else = 0x05

abbrev pub op_end : ℕ
op_end = 0x0b

abbrev pub opcode_at : List Inst → ℕ → Result ℕ
opcode_at insts i = do inst ← deref (get_elem? insts i); ok inst.opcode

-- An if has an else part where the scope's end is not an END.
unfoldable pub if_type : List Inst → Option ℕ → Result ScopeType
if_type insts none = undefined
if_type insts (some i) = do
  closing ← opcode_at insts i
  ok (if closing == op_end then scope_if else scope_ifwelse)

unfoldable pub get_scope_type : List Inst → ScopeBlock → Result ScopeType
get_scope_type insts s = do
  opcode ← opcode_at insts s.start
  if opcode == op_loop
      then ok scope_loop
      else if opcode == op_block
      then ok scope_block
      else if opcode == op_if
      then if_type insts s.end
      else if opcode == op_else
      then ok scope_else
      else ok scope_unknown

abbrev pub is_loop : ScopeType → Bool
is_loop scope_loop = true
is_loop scope_block = false
is_loop scope_if = false
is_loop scope_ifwelse = false
is_loop scope_else = false
is_loop scope_unknown = false

-- The variables of the loop; dynamic_scopes with the innermost scope first.
pub record Walk : Type 0 where
  pub static_scopes : List ScopeBlock
  pub dynamic_scopes : List ℕ
  pub scope_depth : ℕ
  pub loop_depth : ℕ

abbrev pub plus_one : ℕ → ℕ
plus_one n = (n + 1) % 2 ^ 32

abbrev pub minus_one : ℕ → ℕ
minus_one n = (n + (2 ^ 32 - 1)) % 2 ^ 32

unfoldable pub update_at : (ScopeBlock → ScopeBlock) → ℕ → List ScopeBlock → List ScopeBlock
update_at f i [] = []
update_at f zero (s ∷ ss) = f s ∷ ss
update_at f (suc i) (s ∷ ss) = s ∷ update_at f i ss

-- `par->subscopes.push_back(scp)` for every open scope.
unfoldable pub add_subscopes : ℕ → List ℕ → List ScopeBlock → List ScopeBlock
add_subscopes scp [] blocks = blocks
add_subscopes scp (par ∷ pars) blocks =
    add_subscopes scp pars
      (update_at (λ s. record s { subscopes = s.subscopes ++ scp ∷ [] }) par blocks)

-- ADD_SCOPE; back() of an empty list is undefined.
unfoldable pub opened : ℕ → ℕ → ℕ → Walk → List ℕ → Result Walk
opened scp i loops w [] = undefined
opened scp i loops w (outer ∷ others) = ok (record {
  static_scopes =
      update_at (λ s. record s { outer_subscopes = s.outer_subscopes ++ scp ∷ [] }) outer
        (add_subscopes scp (outer ∷ others)
          (w.static_scopes ++ new_scope i w.scope_depth loops ∷ []));
  dynamic_scopes = scp ∷ outer ∷ others;
  scope_depth = plus_one w.scope_depth;
  loop_depth = loops;
})

unfoldable pub add_scope : List Inst → ℕ → Walk → Result Walk
add_scope insts i w = do
  type ← get_scope_type insts (new_scope i w.scope_depth 0)
  opened (length w.static_scopes) i (if is_loop type then plus_one w.loop_depth else w.loop_depth) w
      w.dynamic_scopes

-- REMOVE_SCOPE
unfoldable pub closed : List Inst → ℕ → Walk → List ℕ → Result Walk
closed insts i w [] = undefined
closed insts i w (innermost ∷ others) = do
  s ← deref (get_elem? w.static_scopes innermost)
  type ← get_scope_type insts (record s { end = some i })
  ok (record {
    static_scopes = update_at (λ s. record s { end = some i }) innermost w.static_scopes;
    dynamic_scopes = others;
    scope_depth = minus_one w.scope_depth;
    loop_depth = if is_loop type then minus_one w.loop_depth else w.loop_depth;
  })

abbrev pub remove_scope : List Inst → ℕ → Walk → Result Walk
remove_scope insts i w = closed insts i w w.dynamic_scopes

-- The switch on an instruction's opcode.
unfoldable pub walk_step : List Inst → ℕ → ℕ → Walk → Result Walk
walk_step insts i opcode w =
    if (opcode == op_loop) || ((opcode == op_block) || (opcode == op_if))
    then add_scope insts i w
    else if opcode == op_end
    then remove_scope insts i w
    else if opcode == op_else
    then (do closed_if ← remove_scope insts i w; add_scope insts i closed_if)
    else ok w

-- The loop over the instructions from position `i` on.
unfoldable pub walk : List Inst → ℕ → List Inst → Walk → Result Walk
walk insts i [] w = ok w
walk insts i (inst ∷ rest) w = do
  stepped ← walk_step insts i inst.opcode w
  walk insts (suc i) rest stepped

abbrev pub function_scope : Walk
function_scope = record {
  static_scopes = new_scope 0 0 0 ∷ [];
  dynamic_scopes = 0 ∷ [];
  scope_depth = 1;
  loop_depth = 0;
}

unfoldable pub gen_scopes_from_instructions : WasmModule → Ptr → Result (List ScopeBlock)
gen_scopes_from_instructions m func = do
  imported ← is_import m func
  if imported then ok [] else (do
    f ← deref (node_at m.funcs func)
    w ← walk f.instructions 0 f.instructions function_scope
    ok w.static_scopes)
