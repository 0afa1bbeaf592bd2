-- ===== src/Instrument/Indices.antt =====
-- Theorems on getFuncIdx of inc/ir.h around the primitives of src/instrument.cpp. Instructions
-- hold addresses, and the index is looked up when the module is written.
use wasm_instrument.Prelude.{
  ℕ, zero, suc, ◌+◌, ◌-◌, ◌^◌, ◌<◌, ◌≡◌, ◌≢◌, refl, sym, ap, ◌∙◌, true, false, Bool-cases, inl, inr,
  ◌⊎◌, List, [], ◌∷◌, ◌++◌, Option, Option-cases, none, some, All, ltb, ◌==◌, if◌then◌else◌, arith,
}
use wasm_instrument.Prelude.Result.{ok}
use wasm_instrument.Ir.{Node, Ptr, SigDecl, FuncDecl, ImportInfo, WasmModule}
use wasm_instrument.Ir.Access.{
  ids, index_of, elem_ptr, get_func, get_func_idx, get_list_idx, get_list_elem,
}
use wasm_instrument.Instrument.{add_import_func, add_func}
use wasm_instrument.Instrument.Remove.{erase_at, remove_func, remove_func_at}
use wasm_instrument.Instrument.Spaces.{Distinct, WellFormed}
use wasm_instrument.Instrument.Additions.{add_import_func-WellFormed, add_func-WellFormed}
use wasm_instrument.Instrument.Removal.{
  remove_func-WellFormed, all-get, elem_ptr-ids, same-some, get_func_idx-index_of,
}

index_of-get_func_idx :
    (m : WasmModule) (p i : ℕ) → index_of m.funcs p ≡ some i → get_func_idx m p ≡ ok i
unfolding get_func_idx get_list_idx
index_of-get_func_idx m p i h = rw h refl

module _ {ℓ} {A : Type ℓ} where
  -- Where an address is found: in front, or behind.
  index_of-cons :
      (x : Node A) (ns : List (Node A)) (q i : ℕ)
      → index_of (x ∷ ns) q ≡ some i
      → ((x.id == q ≡ true) × (i ≡ 0))
        ⊎ ((j : ℕ) × (x.id == q ≡ false) × (index_of ns q ≡ some j) × (i ≡ suc j))
  unfolding index_of
  index_of-cons x ns q i h = elim (Bool-cases (x.id == q)) [
    | inl here ↦ inl (here, sym (same-some 0 i (rw here at h)))
    | inr other ↦ elim (Option-cases (index_of ns q)) [
      | inl e ↦ absurd (never (rw (other, e) at h))
      | inr (j, e) ↦ inr (j, other, e, sym (same-some (suc j) i (rw (other, e) at h)))
    ]
  ]
    where
      never : none ≡ some i → ⊥
      never h = cc

  index_of-used :
      (ns : List (Node A)) (q i n : ℕ) → index_of ns q ≡ some i → All (λ p. p < n) (ids ns) → q < n
  unfolding index_of
  index_of-used [] q i n h all = cc
  index_of-used (x ∷ ns) q i n h (first, others) = elim (index_of-cons x ns q i h) [
    | inl (here, _) ↦ ground (arith, here)
    | inr (j, _, e, _) ↦ index_of-used ns q j n e others
  ]

  index_of-behind :
      (x : Node A) (ns : List (Node A)) (q i : ℕ)
      → x.id ≢ q
      → index_of ns q ≡ some i
      → index_of (x ∷ ns) q ≡ some (i + 1)
  unfolding index_of
  index_of-behind x ns q i apart h =
      let other : x.id == q ≡ false = ground (arith, apart) in rw (other, h) (ap some (omega arith))

  index_of-before :
      (ns ms : List (Node A)) (q i : ℕ) → index_of ns q ≡ some i → index_of (ns ++ ms) q ≡ some i
  unfolding index_of
  index_of-before [] ms q i h = cc
  index_of-before (x ∷ ns) ms q i h = elim (index_of-cons x ns q i h) [
    | inl (here, e) ↦ rw (here, e) refl
    | inr (j, other, found, e) ↦ rw (other, e, index_of-before ns ms q j found) refl
  ]

  index_of-erase_at :
      (ns : List (Node A)) (q i j : ℕ)
      → index_of ns q ≡ some j
      → j ≢ i
      → index_of (erase_at ns i) q ≡ some (if ltb j i then j else j - 1)
  unfolding index_of erase_at
  index_of-erase_at [] q i j h apart = cc
  index_of-erase_at (x ∷ ns) q zero j h apart = elim (index_of-cons x ns q j h) [
    | inl (_, e) ↦ absurd (apart e)
    | inr (k, other, found, e) ↦ found ∙ ap some (ground arith)
  ]
  index_of-erase_at (x ∷ ns) q (suc i) j h apart = elim (index_of-cons x ns q j h) [
    | inl (here, e) ↦ rw here (ap some (ground arith))
    | inr (k, other, found, e) ↦
        rw (other, index_of-erase_at ns q i k found (λ same. apart (e ∙ ap suc same)))
          (ap some (closed k i j e (λ same. apart (e ∙ ap suc same))))
  ]
    where
      closed :
          (k i j : ℕ)
          → j ≡ suc k
          → k ≢ i
          → suc (if ltb k i then k else k - 1) ≡ (if ltb j (suc i) then j else j - 1)
      closed k i j e apart = ground arith

  elem_ptr-Distinct :
      (ns : List (Node A)) (i p : ℕ)
      → Distinct (ids ns)
      → elem_ptr ns i ≡ some p
      → index_of ns p ≡ some i
  unfolding index_of elem_ptr
  elem_ptr-Distinct [] i p d h = cc
  elem_ptr-Distinct (x ∷ ns) zero p d h = ground (arith, same-some x.id p h)
  elem_ptr-Distinct (x ∷ ns) (suc i) p (apart, d) h =
      let other : x.id == p ≡ false =
        ground (arith, all-get (λ q. x.id ≢ q) (ids ns) i p apart (elem_ptr-ids ns i p h)) in
      rw (other, elem_ptr-Distinct ns i p d h) refl

-- In a well-formed module whose count of imported functions can grow, importing a function moves
-- every function that was there one index up.
pub add_import_func-get_func_idx :
    (m : WasmModule) (info : ImportInfo) (sig : SigDecl) (q : Ptr) (i : ℕ)
    → WellFormed m
    → m.imports.num_funcs + 1 < 2 ^ 32
    → get_func_idx m q ≡ ok i
    → (after : WasmModule) × (add_import_func m info sig ≡ ok after)
      × (get_func_idx after q ≡ ok (i + 1))
add_import_func-get_func_idx m info sig q i w room h =
    let (after, p, decl, e, _, funcs, _, fresh, _, _) =
      add_import_func-WellFormed m info sig w room in
    let found = get_func_idx-index_of m q i h in
    let old = index_of-used m.funcs q i m.next_id found w.funcs.used in
    (
      after,
      e,
      index_of-get_func_idx after q (i + 1) (
          rw funcs (
            index_of-behind (record { id = p; decl = decl }) m.funcs q i (λ same. omega arith)
              found)),
    )

-- A function that is added with a debug name to a well-formed module moves none.
pub add_func-get_func_idx :
    (m : WasmModule) (func : FuncDecl) (sig : SigDecl) (export_name : Option (List ℕ))
    (name : List ℕ) (q : Ptr) (i : ℕ)
    → WellFormed m
    → get_func_idx m q ≡ ok i
    → (after : WasmModule) × (p : Ptr) × (add_func m func sig export_name (some name)
        ≡ ok (p, after))
      × (get_func_idx after q ≡ ok i)
add_func-get_func_idx m func sig export_name name q i w h =
    let (after, p, decl, e, _, funcs, _, _, _, _) =
      add_func-WellFormed m func sig export_name name w in
    (
      after,
      p,
      e,
      index_of-get_func_idx after q i (
          rw funcs (
            index_of-before m.funcs (record { id = p; decl = decl } ∷ []) q i
              (get_func_idx-index_of m q i h))),
    )

-- Removing a function from a well-formed module moves each function behind it one index down and
-- no other.
pub remove_func-get_func_idx :
    (m : WasmModule) (func q : Ptr) (i j : ℕ)
    → WellFormed m
    → get_func_idx m func ≡ ok i
    → get_func_idx m q ≡ ok j
    → j ≢ i
    → (after : WasmModule) × (remove_func m func ≡ ok (true, after))
      × (get_func_idx after q ≡ ok (if ltb j i then j else j - 1))
remove_func-get_func_idx m func q i j w h h' apart =
    let (after, e, _, funcs, _) = remove_func-WellFormed m func i w h in
    (
      after,
      e,
      index_of-get_func_idx after q (if ltb j i then j else j - 1)
          (rw funcs (index_of-erase_at m.funcs q i j (get_func_idx-index_of m q j h') apart)),
    )

get_func-elem_ptr : (m : WasmModule) (i p : ℕ) → get_func m i ≡ ok p → elem_ptr m.funcs i ≡ some p
unfolding get_func get_list_elem
get_func-elem_ptr m i p h = ground arith

-- In a well-formed module, removing by an index at which a function stands is removing that
-- function.
pub remove_func_at-remove_func :
    (m : WasmModule) (i : ℕ) (p : Ptr)
    → WellFormed m
    → get_func m i ≡ ok p
    → remove_func_at m i ≡ remove_func m p
unfolding remove_func_at remove_func
remove_func_at-remove_func m i p w h =
    rw
      (
        h,
        index_of-get_func_idx m p i
            (elem_ptr-Distinct m.funcs i p w.funcs.distinct (get_func-elem_ptr m i p h)),
      )
      refl
