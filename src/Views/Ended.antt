-- ===== src/Views/Ended.antt =====
-- The ends that REMOVE_SCOPE of src/views.cpp gives the scopes.
use wasm_instrument.Prelude.{
  ℕ, zero, suc, ◌≤◌, ◌≡◌, ◌≢◌, ◌⊎◌, refl, ap, ◌∙◌, inl, inr, Bool, List, [], ◌∷◌, ◌++◌,
  Option-cases, none, some, ◌==◌, ◌||◌, Bool-cases, ==_iff, length, get_elem?, All, arith, drop,
}
use mathlib.Core.Path.{subst}
use wasm_instrument.Prelude.Result.{ok, deref, >>=-ok}
use wasm_instrument.Ir.{Inst}
use wasm_instrument.Views.{
  ScopeBlock, Walk, op_if, op_else, op_end, op_block, op_loop, get_scope_type, add_subscopes,
  new_scope, opened, add_scope, closed, walk_step, walk, function_scope,
}
use wasm_instrument.Views.Blocks.{
  All-update_at, All-add_subscopes, All-snoc, All-weaken, Among, ends, Open, ends-update_at,
  ends-add_subscopes, pushed-Open, ended-Open,
}
use wasm_instrument.Views.Ifs.{drop-get_elem?}

-- An END or an ELSE stands at the position.
abbrev pub Closes : List Inst → ℕ → Type 0
Closes insts e =
    (inst : Inst) × (get_elem? insts e ≡ some inst)
    × ((inst.opcode ≡ op_end) ⊎ (inst.opcode ≡ op_else))

-- The scope starts at position `i` at the latest, and ends, where it has an end, behind its start at
-- an END or an ELSE.
abbrev Bounded : List Inst → ℕ → ScopeBlock → Type 0
Bounded insts i s = (s.start ≤ i) × ((e : ℕ) → s.end ≡ some e → (s.start ≤ e) × Closes insts e)

record Closing (insts : List Inst) (i : ℕ) (w : Walk) : Type 0 where
  bounded : All (Bounded insts i) w.static_scopes
  open_scopes : Open (ends w.static_scopes) w.dynamic_scopes

ok-≡ : {v w : Walk} → ok v ≡ ok w → v ≡ w
ok-≡ h = cc

opened-Closing :
    (insts : List Inst) (i loops : ℕ) (w after : Walk) (scopes : List ℕ)
    → opened (length w.static_scopes) i loops w scopes ≡ ok after
    → All (Bounded insts i) w.static_scopes
    → Open (ends w.static_scopes) scopes
    → Closing insts i after
unfolding opened
opened-Closing insts i loops w after [] e bounded open_scopes = cc
opened-Closing insts i loops w after (outer ∷ others) e bounded open_scopes =
    let blocks = w.static_scopes in
    let new : ScopeBlock = new_scope i w.scope_depth loops in
    let marked = add_subscopes (length blocks) (outer ∷ others) (blocks ++ new ∷ []) in
    let outers : ScopeBlock → ScopeBlock =
      λ s. record s { outer_subscopes = s.outer_subscopes ++ length blocks ∷ [] } in
    let same_ends =
      ends-update_at outers outer marked (λ s. refl)
      ∙ ends-add_subscopes (length blocks) (outer ∷ others) (blocks ++ new ∷ []) in
    subst (Closing insts i) (ok-≡ e) (record {
      bounded =
          All-update_at (Bounded insts i) outers outer marked (λ s h. h)
            (All-add_subscopes (Bounded insts i) (length blocks) (outer ∷ others)
              (blocks ++ new ∷ []) (λ s subs h. h)
              (All-snoc (Bounded insts i) blocks new bounded (omega arith, λ e h. cc)));
      open_scopes = λ j h. elim (pushed-Open blocks new j (rw same_ends at h)) [
        | inl last ↦ inl last
        | inr before ↦ inr (open_scopes j before)
      ];
    })

ends_here :
    (insts : List Inst) (i e start : ℕ)
    → start ≤ i
    → Closes insts i
    → some i ≡ some e
    → (start ≤ e) × Closes insts e
ends_here insts i e start before here h =
    let same : i ≡ e = cc in subst (λ n. (start ≤ n) × Closes insts n) same (before, here)

closed-Closing :
    (insts : List Inst) (i : ℕ) (w after : Walk) (scopes : List ℕ)
    → Closes insts i
    → closed insts i w scopes ≡ ok after
    → All (Bounded insts i) w.static_scopes
    → Open (ends w.static_scopes) scopes
    → Closing insts i after
unfolding closed
closed-Closing insts i w after [] here e bounded open_scopes = cc
closed-Closing insts i w after (innermost ∷ others) here e bounded open_scopes =
    let (s, found, e') = >>=-ok (deref (get_elem? w.static_scopes innermost)) _ e in
    let (t, typed, e'') = >>=-ok (get_scope_type insts (record s { end = some i })) _ e' in
    subst (Closing insts i) (ok-≡ e'') (record {
      bounded =
          All-update_at (Bounded insts i) _ innermost w.static_scopes
            (λ s h. (h.0, λ e at_e. ends_here insts i e s.start h.0 here at_e)) bounded;
      open_scopes = λ j h.
          let (apart, was) = ended-Open i innermost w.static_scopes j h in
          elim (open_scopes j was) [ inl same ↦ absurd (apart same) | inr outside ↦ outside ];
    })

add_scope-Closing :
    (insts : List Inst) (i : ℕ) (w after : Walk)
    → add_scope insts i w ≡ ok after
    → Closing insts i w
    → Closing insts i after
unfolding add_scope
add_scope-Closing insts i w after e k =
    let (t, typed, e') = >>=-ok (get_scope_type insts (new_scope i w.scope_depth 0)) _ e in
    opened-Closing insts i _ w after w.dynamic_scopes e' k.bounded k.open_scopes

Closing-later : {insts : List Inst} {i : ℕ} {w : Walk} → Closing insts i w → Closing insts (suc i) w
Closing-later {insts = insts} {i = i} {w = w} k = record {
  bounded =
      All-weaken (Bounded insts i) (Bounded insts (suc i)) w.static_scopes
        (λ s h. (omega (arith, h.0), h.1)) k.bounded;
  open_scopes = k.open_scopes;
}

walk_step-Closing :
    (insts : List Inst) (i : ℕ) (inst : Inst) (w after : Walk)
    → get_elem? insts i ≡ some inst
    → walk_step insts i inst.opcode w ≡ ok after
    → Closing insts i w
    → Closing insts i after
unfolding walk_step
walk_step-Closing insts i inst w after here e k =
    let opens : Bool =
      (inst.opcode == op_loop) || ((inst.opcode == op_block) || (inst.opcode == op_if)) in
    elim (Bool-cases opens) [
      | inl starts ↦ add_scope-Closing insts i w after (rw starts at e) k
      | inr no_start ↦ elim (Bool-cases (inst.opcode == op_end)) [
        | inl at_end ↦
            closed-Closing insts i w after w.dynamic_scopes
              (inst, here, inl ((==_iff _ _).0 at_end)) (rw (no_start, at_end) at e) k.bounded
              k.open_scopes
        | inr no_end ↦ elim (Bool-cases (inst.opcode == op_else)) [
          | inl at_else ↦
              let (middle, closes, e') =
                >>=-ok (closed insts i w w.dynamic_scopes) _
                  (rw (no_start, no_end, at_else) at e) in
              add_scope-Closing insts i middle after e' (
                closed-Closing insts i w middle w.dynamic_scopes
                  (inst, here, inr ((==_iff _ _).0 at_else)) closes k.bounded k.open_scopes)
          | inr no_else ↦ subst (Closing insts i) (ok-≡ (rw (no_start, no_end, no_else) at e)) k
        ]
      ]
    ]

walk-Closing :
    (insts : List Inst) (i : ℕ) (rest : List Inst) (w after : Walk)
    → drop i insts ≡ rest
    → walk insts i rest w ≡ ok after
    → Closing insts i w
    → (n : ℕ) × Closing insts n after
unfolding walk
walk-Closing insts i [] w after at_i e k = (i, subst (Closing insts i) (ok-≡ e) k)
walk-Closing insts i (inst ∷ rest) w after at_i e k =
    let (here, behind) = drop-get_elem? i insts rest inst at_i in
    let (middle, ran, others) = >>=-ok (walk_step insts i inst.opcode w) _ e in
    walk-Closing insts (suc i) rest middle after behind others
      (Closing-later (walk_step-Closing insts i inst w middle here ran k))

-- The scope has an end, behind its start, at an END or an ELSE.
abbrev pub Ended : List Inst → ScopeBlock → Type 0
Ended insts s = (e : ℕ) × (s.end ≡ some e) × (s.start ≤ e) × Closes insts e

All-Ended :
    (insts : List Inst) (i : ℕ) (ss : List ScopeBlock)
    → All (Bounded insts i) ss
    → ((j : ℕ) → get_elem? (ends ss) j ≢ some none)
    → All (Ended insts) ss
All-Ended insts i [] bounded none_open = tt
All-Ended insts i (s ∷ ss) (here, later) none_open =
    let rest = All-Ended insts i ss later (λ j. none_open (suc j)) in
    elim (Option-cases s.end) [
      | inl no_end ↦ absurd (none_open 0 (ap some no_end))
      | inr (e, at_e) ↦ let (behind, closes) = here.1 e at_e in ((e, at_e, behind, closes), rest)
    ]

first-Open :
    (j : ℕ) → get_elem? (ends function_scope.static_scopes) j ≡ some none → Among j (0 ∷ [])
first-Open zero h = inl refl
first-Open (suc j) h = cc

-- A walk over a function's code that closes the function's scope gives each scope an end.
pub walk-Ended :
    (insts : List Inst) (after : Walk)
    → walk insts 0 insts function_scope ≡ ok after
    → after.dynamic_scopes ≡ []
    → All (Ended insts) after.static_scopes
walk-Ended insts after e all_closed =
    let (n, k) =
      walk-Closing insts 0 insts function_scope after refl e
        (record { bounded = ((omega arith, λ e h. cc), tt); open_scopes = first-Open }) in
    All-Ended insts n after.static_scopes k.bounded
      (λ j h. subst (Among j) all_closed (k.open_scopes j h))
