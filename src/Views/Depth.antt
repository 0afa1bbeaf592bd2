-- ===== src/Views/Depth.antt =====
-- Well-nested code without `if`, for src/views.cpp.
use wasm_instrument.Prelude.{
  ℕ, zero, suc, ◌+◌, ◌≡◌, List, [], ◌∷◌, Option, some, none, ◌==◌, ◌||◌, if◌then◌else◌,
}
use wasm_instrument.Ir.{Inst}
use wasm_instrument.Views.{op_if, op_else, op_end, op_block, op_loop}

-- How many scopes are open behind an instruction before which `n` are: an `if` and an END or ELSE
-- with no scope to close have none, nor has an ELSE that closes the function's own scope.
unfoldable pub else_depth : ℕ → Option ℕ
else_depth zero = none
else_depth (suc k) = some (suc (suc k))

unfoldable pub after_op : ℕ → ℕ → Option ℕ
after_op zero op = none
after_op (suc n) op =
    if op == op_if
    then none
    else if (op == op_loop) || (op == op_block)
    then some (suc (suc n))
    else if op == op_end
    then some n
    else if op == op_else
    then else_depth n
    else some (suc n)

-- Code that closes `n` scopes at its end, each of its own scopes before.
pub data Nested : ℕ → List Inst → Type 0 where
  finish : Nested 0 []
  step :
      {n k : ℕ} {inst : Inst} {rest : List Inst}
      → after_op n inst.opcode ≡ some k
      → Nested k rest
      → Nested n (inst ∷ rest)

-- The scopes that an instruction opens, and those of a list of them.
unfoldable pub opens : ℕ → ℕ
opens op = if (op == op_loop) || ((op == op_block) || (op == op_else)) then 1 else 0

unfoldable pub scopes_of : List Inst → ℕ
scopes_of [] = 0
scopes_of (inst ∷ rest) = opens inst.opcode + scopes_of rest
