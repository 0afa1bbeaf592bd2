-- ===== src/Views/Nested.antt =====
-- gen_scopes_from_instructions of src/views.cpp on well-nested code without `if`.
use wasm_instrument.Prelude.{
  ℕ, zero, suc, ◌+◌, ◌≡◌, ◌≢◌, refl, ap, ◌∙◌, sym, inl, inr, ◌⊎◌, false, List, [], ◌∷◌, some, none,
  ◌==◌, length, get_elem?, All, arith, drop,
}
use wasm_instrument.Prelude.Result.{Result, ok}
use wasm_instrument.Ir.{Inst, Ptr, FuncDecl, WasmModule}
use wasm_instrument.Ir.Access.{is_import, node_at}
use wasm_instrument.Views.Ifs.{drop-get_elem?}
use wasm_instrument.Views.{
  ScopeBlock, Walk, op_if, op_else, op_end, op_block, op_loop, walk_step, walk, function_scope,
  gen_scopes_from_instructions,
}
use wasm_instrument.Views.Depth.{else_depth, after_op, Nested, opens, scopes_of}
use wasm_instrument.Views.Ended.{Ended, walk-Ended}
use wasm_instrument.Views.Kept.{Kept, add_scope-Kept, closed-Kept}

-- The opcodes that the walk tells apart.
op_cases :
    (op : ℕ)
    → (op ≡ op_if)
      ⊎ (op ≡ op_loop)
      ⊎ (op ≡ op_block)
      ⊎ (op ≡ op_end)
      ⊎ (op ≡ op_else)
      ⊎ ((op == op_if) ≡ false)
        × ((op == op_loop) ≡ false)
        × ((op == op_block) ≡ false)
        × ((op == op_end) ≡ false)
        × ((op == op_else) ≡ false)
op_cases op = ground arith

some-≡ : {j k : ℕ} → some j ≡ some k → j ≡ k
some-≡ h = cc

none-≢-some : {k : ℕ} → none ≢ some k
none-≢-some h = cc

else_depth-some : (n k : ℕ) → else_depth n ≡ some k → (m : ℕ) × (n ≡ suc m) × (k ≡ suc (suc m))
unfolding else_depth
else_depth-some zero k h = cc
else_depth-some (suc m) k h = (m, refl, sym (some-≡ h))

-- The walk behind an instruction, with `k` scopes open and `new` more scopes than before.
abbrev Stepped : List Inst → Result Walk → Walk → ℕ → ℕ → Type 0
Stepped insts r w k new =
    (after : Walk) × (r ≡ ok after)
    × Kept insts after
    × (length after.dynamic_scopes ≡ k)
    × (length after.static_scopes ≡ new + length w.static_scopes)

walk_step-Kept :
    (insts : List Inst) (i : ℕ) (inst : Inst) (w : Walk) (n k : ℕ)
    → Kept insts w
    → get_elem? insts i ≡ some inst
    → length w.dynamic_scopes ≡ n
    → after_op n inst.opcode ≡ some k
    → Stepped insts (walk_step insts i inst.opcode w) w k (opens inst.opcode)
unfolding walk_step after_op opens
walk_step-Kept insts i inst w zero k kept here count next = cc
walk_step-Kept insts i inst w (suc n) k kept here count next = elim (op_cases inst.opcode) [
  | inl is_if ↦ absurd (none-≢-some (sym (ap (after_op (suc n)) is_if) ∙ next))
  | inr (inl is_loop_op) ↦
      let (after, ran, held, more, size) =
        add_scope-Kept insts i inst w n kept here (λ h. omega arith) count in
      rw is_loop_op (
        after,
        ran,
        held,
        more ∙ some-≡ (sym (ap (after_op (suc n)) is_loop_op) ∙ next),
        omega (arith, size),
      )
  | inr (inr (inl is_block)) ↦
      let (after, ran, held, more, size) =
        add_scope-Kept insts i inst w n kept here (λ h. omega arith) count in
      rw is_block (
        after,
        ran,
        held,
        more ∙ some-≡ (sym (ap (after_op (suc n)) is_block) ∙ next),
        omega (arith, size),
      )
  | inr (inr (inr (inl is_end))) ↦
      let (after, ran, held, more, size) =
        closed-Kept insts i w w.dynamic_scopes n kept.starts kept.known count in
      rw is_end (
        after,
        ran,
        held,
        more ∙ some-≡ (sym (ap (after_op (suc n)) is_end) ∙ next),
        omega (arith, size),
      )
  | inr (inr (inr (inr (inl is_else)))) ↦
      let (m, inner, reopened) = else_depth-some n k (sym (ap (after_op (suc n)) is_else) ∙ next) in
      let (middle, closes, between, left, same_size) =
        closed-Kept insts i w w.dynamic_scopes n kept.starts kept.known count in
      let (after, ran, held, more, size) =
        add_scope-Kept insts i inst middle m between here (λ h. omega arith) (left ∙ inner) in
      rw is_else (after, rw closes ran, held, more ∙ sym reopened, omega (arith, size, same_size))
  | inr (inr (inr (inr (inr (a, b, c, d, e))))) ↦
      rw (a, b, c, d, e) (w, refl, kept, count ∙ some-≡ (rw (a, b, c, d, e) at next), omega arith)
]

empty-≡ {ℓ} : {A : Type ℓ} (xs : List A) → length xs ≡ 0 → xs ≡ []
empty-≡ [] h = refl
empty-≡ (x ∷ xs) h = cc

first-Nested :
    (insts : List Inst)
    → Nested 1 insts
    → (inst : Inst) × (get_elem? insts 0 ≡ some inst) × (inst.opcode ≢ op_if)
unfolding after_op
first-Nested [] nested = elim nested [ ]
first-Nested (inst ∷ rest) (Nested.step {k = k} next nested) =
    (inst, refl, λ is_if. none-≢-some (sym (ap (after_op 1) is_if) ∙ next))

walk-Nested :
    (insts : List Inst) (i n : ℕ) (rest : List Inst) (w : Walk)
    → drop i insts ≡ rest
    → Kept insts w
    → length w.dynamic_scopes ≡ n
    → Nested n rest
    → (after : Walk) × (walk insts i rest w ≡ ok after)
      × (after.dynamic_scopes ≡ [])
      × (length after.static_scopes ≡ scopes_of rest + length w.static_scopes)
unfolding walk scopes_of
walk-Nested insts i _ _ w at_i kept count Nested.finish = (w, refl, empty-≡ _ count, omega arith)
walk-Nested insts i n (inst ∷ rest) w at_i kept count (Nested.step {k = k} next nested) =
    let (here, behind) = drop-get_elem? i insts rest inst at_i in
    let (middle, ran, held, more, size) = walk_step-Kept insts i inst w n k kept here count next in
    let (after, walked, all_closed, sizes) =
      walk-Nested insts (suc i) k rest middle behind held more nested in
    (after, rw ran walked, all_closed, omega (arith, size, sizes))

-- The walk over a function's code closes all scopes.
code-Nested :
    (insts : List Inst)
    → Nested 1 insts
    → (after : Walk) × (walk insts 0 insts function_scope ≡ ok after)
      × (after.dynamic_scopes ≡ [])
      × (length after.static_scopes ≡ scopes_of insts + 1)
code-Nested insts nested =
    let (first, here, no_if) = first-Nested insts nested in
    walk-Nested insts 0 1 insts function_scope refl
      (record { starts = ((first, here, no_if), tt); known = (omega arith, tt) }) refl nested

-- Where the code of a defined function is well nested and has no `if`, its scopes are found without
-- undefined behaviour: the function's own, and one for each block, loop and else.
pub gen_scopes_from_instructions-Nested :
    (m : WasmModule) (func : Ptr) (f : FuncDecl)
    → is_import m func ≡ ok false
    → node_at m.funcs func ≡ some f
    → Nested 1 f.instructions
    → (scopes : List ScopeBlock) × (gen_scopes_from_instructions m func ≡ ok scopes)
      × (length scopes ≡ suc (scopes_of f.instructions))
unfolding gen_scopes_from_instructions
gen_scopes_from_instructions-Nested m func f defined found nested =
    let (after, walked, all_closed, size) = code-Nested f.instructions nested in
    (after.static_scopes, rw (defined, found, walked) refl, omega (arith, size))

-- Where the code of a defined function is well nested and has no `if`, each of its scopes, the
-- function's own among them, is given an end, which stands behind its start or at it, at an END or
-- an ELSE.
pub gen_scopes_from_instructions-Ended :
    (m : WasmModule) (func : Ptr) (f : FuncDecl)
    → is_import m func ≡ ok false
    → node_at m.funcs func ≡ some f
    → Nested 1 f.instructions
    → (scopes : List ScopeBlock) × (gen_scopes_from_instructions m func ≡ ok scopes)
      × All (Ended f.instructions) scopes
unfolding gen_scopes_from_instructions
gen_scopes_from_instructions-Ended m func f defined found nested =
    let (after, walked, all_closed, _) = code-Nested f.instructions nested in
    (
      after.static_scopes,
      rw (defined, found, walked) refl,
      walk-Ended f.instructions after walked all_closed,
    )
