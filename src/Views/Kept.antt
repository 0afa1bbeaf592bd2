-- ===== src/Views/Kept.antt =====
-- What ADD_SCOPE and REMOVE_SCOPE of src/views.cpp keep in code without `if`.
use wasm_instrument.Prelude.{
  ℕ, suc, ◌<◌, ◌≡◌, ◌≢◌, refl, ap, inl, inr, Bool, true, false, List, [], ◌∷◌, ◌++◌, some, ◌==◌,
  Bool-cases, ==_iff, length, length-append, get_elem?, All, arith, if◌then◌else◌,
}
use wasm_instrument.Prelude.Result.{Result, ok}
use wasm_instrument.Ir.{Inst}
use wasm_instrument.Views.{
  ScopeType, ScopeBlock, Walk, op_if, op_else, op_block, op_loop, get_scope_type, update_at,
  add_subscopes, new_scope, opened, add_scope, closed, is_loop, plus_one, minus_one,
}
use wasm_instrument.Views.Blocks.{
  length-update_at, length-add_subscopes, All-update_at, All-add_subscopes, All-snoc, All-weaken,
  All-get_elem?,
}

-- The scope starts at an instruction that is no `if`.
abbrev pub Starts : List Inst → ScopeBlock → Type 0
Starts insts s = (inst : Inst) × (get_elem? insts s.start ≡ some inst) × (inst.opcode ≢ op_if)

pub record Kept (insts : List Inst) (w : Walk) : Type 0 where
  pub starts : All (Starts insts) w.static_scopes
  pub known : All (λ d. d < length w.static_scopes) w.dynamic_scopes

HasValue-if {ℓ} :
    {A : Type ℓ} (b : Bool) (r s : Result A)
    → ((a : A) × (r ≡ ok a))
    → ((a : A) × (s ≡ ok a))
    → (a : A) × ((if b then r else s) ≡ ok a)
HasValue-if true r s h k = h
HasValue-if false r s h k = k

get_scope_type-Starts :
    (insts : List Inst) (s : ScopeBlock)
    → Starts insts s
    → (t : ScopeType) × (get_scope_type insts s ≡ ok t)
unfolding get_scope_type
get_scope_type-Starts insts s (inst, here, no_if) =
    let other : (inst.opcode == op_if) ≡ false = elim (Bool-cases (inst.opcode == op_if)) [
      | inl is_if ↦ absurd (no_if ((==_iff _ _).0 is_if))
      | inr other ↦ other
    ] in
    rw (here, other)
      (HasValue-if (inst.opcode == op_loop) _ _ (_, refl)
        (HasValue-if (inst.opcode == op_block) _ _ (_, refl)
          (HasValue-if (inst.opcode == op_else) _ _ (_, refl) (_, refl))))

opened-Kept :
    (insts : List Inst) (i loops : ℕ) (inst : Inst) (w : Walk) (scopes : List ℕ) (n : ℕ)
    → All (Starts insts) w.static_scopes
    → All (λ d. d < length w.static_scopes) scopes
    → get_elem? insts i ≡ some inst
    → inst.opcode ≢ op_if
    → length scopes ≡ suc n
    → (after : Walk) × (opened (length w.static_scopes) i loops w scopes ≡ ok after)
      × Kept insts after
      × (length after.dynamic_scopes ≡ suc (suc n))
      × (length after.static_scopes ≡ suc (length w.static_scopes))
unfolding opened
opened-Kept insts i loops inst w [] n starts known here no_if count = cc
opened-Kept insts i loops inst w (outer ∷ others) n starts known here no_if count =
    let blocks = w.static_scopes in
    let pushed = blocks ++ new_scope i w.scope_depth loops ∷ [] in
    let marked = add_subscopes (length blocks) (outer ∷ others) pushed in
    let outers : ScopeBlock → ScopeBlock =
      λ s. record s { outer_subscopes = s.outer_subscopes ++ length blocks ∷ [] } in
    let size : length (update_at outers outer marked) ≡ suc (length blocks) = omega (
      arith,
      length-update_at outers outer marked,
      length-add_subscopes (length blocks) (outer ∷ others) pushed,
      length-append blocks (new_scope i w.scope_depth loops ∷ []),
    ) in
    (
      _,
      refl,
      record {
        starts =
            All-update_at (Starts insts) outers outer marked (λ s started. started)
              (All-add_subscopes (Starts insts) (length blocks) (outer ∷ others) pushed
                (λ s subs started. started)
                (All-snoc (Starts insts) blocks (new_scope i w.scope_depth loops) starts
                  (inst, here, no_if)));
        known = (
          omega (arith, size),
          All-weaken (λ d. d < length blocks) _ (outer ∷ others) (λ d h. omega (arith, size)) known,
        );
      },
      ap suc count,
      size,
    )

pub add_scope-Kept :
    (insts : List Inst) (i : ℕ) (inst : Inst) (w : Walk) (n : ℕ)
    → Kept insts w
    → get_elem? insts i ≡ some inst
    → inst.opcode ≢ op_if
    → length w.dynamic_scopes ≡ suc n
    → (after : Walk) × (add_scope insts i w ≡ ok after)
      × Kept insts after
      × (length after.dynamic_scopes ≡ suc (suc n))
      × (length after.static_scopes ≡ suc (length w.static_scopes))
unfolding add_scope
add_scope-Kept insts i inst w n k here no_if count =
    let (t, typed) =
      get_scope_type-Starts insts (new_scope i w.scope_depth 0) (inst, here, no_if) in
    let (after, ran, kept, opens, size) =
      opened-Kept insts i (if is_loop t then plus_one w.loop_depth else w.loop_depth) inst w
        w.dynamic_scopes n k.starts k.known here no_if count in
    (after, rw typed ran, kept, opens, size)

pub closed-Kept :
    (insts : List Inst) (i : ℕ) (w : Walk) (scopes : List ℕ) (n : ℕ)
    → All (Starts insts) w.static_scopes
    → All (λ d. d < length w.static_scopes) scopes
    → length scopes ≡ suc n
    → (after : Walk) × (closed insts i w scopes ≡ ok after)
      × Kept insts after
      × (length after.dynamic_scopes ≡ n)
      × (length after.static_scopes ≡ length w.static_scopes)
unfolding closed
closed-Kept insts i w [] n starts known count = cc
closed-Kept insts i w (innermost ∷ others) n starts (inside, known) count =
    let blocks = w.static_scopes in
    let ending : ScopeBlock → ScopeBlock = λ s. record s { end = some i } in
    let (s, found, started) = All-get_elem? (Starts insts) blocks innermost starts inside in
    let (t, typed) = get_scope_type-Starts insts (record s { end = some i }) started in
    let size = length-update_at ending innermost blocks in
    let after : Walk = record {
      static_scopes = update_at ending innermost blocks;
      dynamic_scopes = others;
      scope_depth = minus_one w.scope_depth;
      loop_depth = if is_loop t then minus_one w.loop_depth else w.loop_depth;
    } in
    (
      after,
      rw (found, typed) refl,
      record {
        starts = All-update_at (Starts insts) ending innermost blocks (λ s begun. begun) starts;
        known = All-weaken (λ d. d < length blocks) _ others (λ d h. omega (arith, size)) known;
      },
      omega (arith, count),
      size,
    )
