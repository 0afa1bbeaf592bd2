-- ===== src/Views/Ifs.antt =====
-- Theorems on gen_scopes_from_instructions of src/views.cpp.
use wasm_instrument.Prelude.{
  ℕ, suc, ◌≡◌, ◌⊎◌, refl, ap, ◌∙◌, sym, inl, inr, Bool, true, false, List, [], ◌∷◌, Option, some,
  none, ◌==◌, Bool-cases, ==_iff, ◌||◌, get_elem?, drop, if◌then◌else◌, zero,
}
use wasm_instrument.Prelude.Result.{Result, ok, undefined, deref, ◌>>=◌}
use wasm_instrument.Ir.{Inst, Ptr, FuncDecl, WasmModule}
use wasm_instrument.Ir.Access.{is_import, node_at}
use wasm_instrument.Views.{
  ScopeBlock, Walk, op_if, op_else, op_end, op_block, op_loop, opcode_at, if_type, get_scope_type,
  opened, add_scope, closed, walk_step, walk, function_scope, gen_scopes_from_instructions,
}

-- Whether one of the instructions is an `if`.
unfoldable pub has_if : List Inst → Bool
has_if [] = false
has_if (inst ∷ rest) = (inst.opcode == op_if) || has_if rest

-- No exception comes out.
abbrev NoThrow {ℓ} : {A : Type ℓ} → Result A → Type ℓ
NoThrow {A = A} r = (r ≡ undefined) ⊎ ((a : A) × (r ≡ ok a))

NoThrow->>= {ℓ κ} :
    {A : Type ℓ} {B : Type κ} (r : Result A) (f : A → Result B)
    → NoThrow r
    → ((a : A) → NoThrow (f a))
    → NoThrow (r >>= f)
NoThrow->>= r f (inl e) h = inl (rw e refl)
NoThrow->>= r f (inr (a, e)) h = rw e (h a)

NoThrow-deref {ℓ} : {A : Type ℓ} (o : Option A) → NoThrow (deref o)
NoThrow-deref none = inl refl
NoThrow-deref (some a) = inr (a, refl)

NoThrow-if {ℓ} :
    {A : Type ℓ} (b : Bool) (r s : Result A) → NoThrow r → NoThrow s → NoThrow (if b then r else s)
NoThrow-if true r s h k = h
NoThrow-if false r s h k = k

opcode_at-NoThrow : (insts : List Inst) (i : ℕ) → NoThrow (opcode_at insts i)
opcode_at-NoThrow insts i =
    NoThrow->>= (deref (get_elem? insts i)) _ (NoThrow-deref (get_elem? insts i))
      (λ a. inr (_, refl))

if_type-NoThrow : (insts : List Inst) (closing : Option ℕ) → NoThrow (if_type insts closing)
unfolding if_type
if_type-NoThrow insts none = inl refl
if_type-NoThrow insts (some i) =
    NoThrow->>= (opcode_at insts i) _ (opcode_at-NoThrow insts i) (λ a. inr (_, refl))

get_scope_type-NoThrow : (insts : List Inst) (s : ScopeBlock) → NoThrow (get_scope_type insts s)
unfolding get_scope_type
get_scope_type-NoThrow insts s =
    NoThrow->>= (opcode_at insts s.start) _ (opcode_at-NoThrow insts s.start) (λ a.
      NoThrow-if (a == op_loop) _ _ (inr (_, refl)) (
        NoThrow-if (a == op_block) _ _ (inr (_, refl)) (
          NoThrow-if (a == op_if) _ _ (if_type-NoThrow insts s.end)
            (NoThrow-if (a == op_else) _ _ (inr (_, refl)) (inr (_, refl))))))

opened-NoThrow :
    (scp i loops : ℕ) (w : Walk) (scopes : List ℕ) → NoThrow (opened scp i loops w scopes)
unfolding opened
opened-NoThrow scp i loops w [] = inl refl
opened-NoThrow scp i loops w (outer ∷ others) = inr (_, refl)

add_scope-NoThrow : (insts : List Inst) (i : ℕ) (w : Walk) → NoThrow (add_scope insts i w)
unfolding add_scope
add_scope-NoThrow insts i w =
    NoThrow->>= (get_scope_type insts _) _ (get_scope_type-NoThrow insts _)
      (λ t. opened-NoThrow _ i _ w w.dynamic_scopes)

closed-NoThrow :
    (insts : List Inst) (i : ℕ) (w : Walk) (scopes : List ℕ) → NoThrow (closed insts i w scopes)
unfolding closed
closed-NoThrow insts i w [] = inl refl
closed-NoThrow insts i w (innermost ∷ others) =
    NoThrow->>= (deref (get_elem? w.static_scopes innermost)) _ (NoThrow-deref _) (λ s.
      NoThrow->>= (get_scope_type insts _) _ (get_scope_type-NoThrow insts _) (λ t. inr (_, refl)))

walk_step-NoThrow :
    (insts : List Inst) (i opcode : ℕ) (w : Walk) → NoThrow (walk_step insts i opcode w)
unfolding walk_step
walk_step-NoThrow insts i opcode w =
    NoThrow-if ((opcode == op_loop) || ((opcode == op_block) || (opcode == op_if))) _ _
      (add_scope-NoThrow insts i w)
      (NoThrow-if (opcode == op_end) _ _ (closed-NoThrow insts i w w.dynamic_scopes) (
        NoThrow-if (opcode == op_else) _ _
          (NoThrow->>= (closed insts i w w.dynamic_scopes) _
            (closed-NoThrow insts i w w.dynamic_scopes) (λ c. add_scope-NoThrow insts i c))
          (inr (_, refl))))

-- An `if` at position `i`: its scope's end is read before it is set.
walk_step-if :
    (insts : List Inst) (i : ℕ) (inst : Inst) (w : Walk)
    → get_elem? insts i ≡ some inst
    → inst.opcode ≡ op_if
    → walk_step insts i inst.opcode w ≡ undefined
unfolding walk_step add_scope get_scope_type if_type
walk_step-if insts i inst w here is_if = rw (here, is_if) refl

pub drop-get_elem? {ℓ} :
    {A : Type ℓ} (i : ℕ) (xs rest : List A) (x : A)
    → drop i xs ≡ x ∷ rest
    → (get_elem? xs i ≡ some x) × (drop (suc i) xs ≡ rest)
drop-get_elem? zero [] rest x h = cc
drop-get_elem? (suc i) [] rest x h = cc
drop-get_elem? zero (y ∷ ys) rest x h = (cc, cc)
drop-get_elem? (suc i) (y ∷ ys) rest x h = drop-get_elem? i ys rest x h

walk-if :
    (insts : List Inst) (i : ℕ) (rest : List Inst) (w : Walk)
    → drop i insts ≡ rest
    → has_if rest ≡ true
    → walk insts i rest w ≡ undefined
unfolding walk has_if
walk-if insts i [] w at_i h = cc
walk-if insts i (inst ∷ rest) w at_i h =
    let (here, next) = drop-get_elem? i insts rest inst at_i in
    elim (Bool-cases (inst.opcode == op_if)) [
      | inl is_if ↦ rw (walk_step-if insts i inst w here ((==_iff _ _).0 is_if)) refl
      | inr other ↦
          let later : has_if rest ≡ true = sym (ap (λ b. b || has_if rest) other) ∙ h in
          elim (walk_step-NoThrow insts i inst.opcode w) [
            | inl bad ↦ rw bad refl
            | inr (stepped, e) ↦ rw e (walk-if insts (suc i) rest stepped next later)
          ]
    ]

-- Where a defined function has an `if` among its instructions, the scopes of its code are
-- undefined behaviour: ADD_SCOPE asks for the type of the scope that the `if` opens before the
-- scope has an end.
pub gen_scopes_from_instructions-if :
    (m : WasmModule) (func : Ptr) (f : FuncDecl)
    → is_import m func ≡ ok false
    → node_at m.funcs func ≡ some f
    → has_if f.instructions ≡ true
    → gen_scopes_from_instructions m func ≡ undefined
unfolding gen_scopes_from_instructions
gen_scopes_from_instructions-if m func f defined found h =
    rw (defined, found, walk-if f.instructions 0 f.instructions function_scope refl h) refl
