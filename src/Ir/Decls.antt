-- ===== src/Ir/Decls.antt =====
-- FuncDecl::add_local and MemoryDecl::add_pages of src/ir.cpp, which change one declaration.
use wasm_instrument.Prelude.{
  ℕ, zero, suc, ◌+◌, ◌-◌, ◌^◌, ◌%◌, ◌≤◌, ◌<◌, ◌≡◌, ◌⊎◌, refl, ap, ◌∙◌, List, [], ◌∷◌, ◌++◌, ◌==◌,
  ◌&&◌, not, ltb, if◌then◌else◌, Bool-cases, inl, inr, length, length-append, append_assoc,
  append-nil, ==_iff, sym, arith,
}
use wasm_instrument.Prelude.Result.{Result, ok, throw, undefined, page_limit}
use wasm_instrument.Ir.{Limits, LocalCse, FuncDecl}

-- `WARN` prints. The product memdata_end of the source is not used.
pub add_pages : Limits → ℕ → Result (ℕ × Limits)
add_pages l num_pages =
    let new_size = l.initial + num_pages in
    let grown = if not (l.has_max == 0) && ltb l.max new_size then new_size else l.max in
    if ltb (2 ^ 32 - 1) new_size
    then throw page_limit
    else ok (l.initial, record l { max = grown; initial = new_size })

-- `back` of an empty list is undefined; the count of a group is 32 bits wide.
extend_locals : ℕ → List LocalCse → Result (List LocalCse)
extend_locals type [] = undefined
extend_locals type (last ∷ []) =
    if last.type == type
    then ok (record last { count = (last.count + 1) % 2 ^ 32 } ∷ [])
    else ok (last ∷ record { count = 1; type = type } ∷ [])
extend_locals type (c ∷ d ∷ cs) = elim (extend_locals type (d ∷ cs)) [
  | ok l ↦ ok (c ∷ l)
  | throw e ↦ throw e
  | undefined ↦ undefined
]

-- `params` are those of the function's signature.
pub add_local : List ℕ → FuncDecl → ℕ → Result (ℕ × FuncDecl)
unfolding extend_locals
add_local params f new_type = elim (extend_locals new_type f.pure_locals) [
  | ok locals ↦ ok (
    (length params + f.num_pure_locals) % 2 ^ 32,
    record f { pure_locals = locals; num_pure_locals = (f.num_pure_locals + 1) % 2 ^ 32 },
  )
  | throw e ↦ throw e
  | undefined ↦ undefined
]

-- The types of a function's locals, one for each local: what the groups stand for.
unfoldable pub copies : ℕ → ℕ → List ℕ
copies zero type = []
copies (suc n) type = type ∷ copies n type

unfoldable pub local_types : List LocalCse → List ℕ
unfolding copies
local_types [] = []
local_types (c ∷ cs) = copies c.count c.type ++ local_types cs

length-copies : (n type : ℕ) → length (copies n type) ≡ n
unfolding copies
length-copies zero type = refl
length-copies (suc n) type = ap suc (length-copies n type)

copies-last : (n type : ℕ) → copies (suc n) type ≡ copies n type ++ type ∷ []
unfolding copies
copies-last zero type = refl
copies-last (suc n) type = ap (◌∷◌ type) (copies-last n type)

-- Every group is shorter than 2 ^ 32 - 1.
unfoldable pub Small : List LocalCse → Type 0
Small [] = Unit
Small (c ∷ cs) = (c.count + 1 < 2 ^ 32) × Small cs

extend-local_types :
    (type : ℕ) (c : LocalCse) (cs : List LocalCse)
    → Small (c ∷ cs)
    → (locals : List LocalCse) × (extend_locals type (c ∷ cs) ≡ ok locals)
      × (local_types locals ≡ local_types (c ∷ cs) ++ type ∷ [])
unfolding extend_locals local_types copies Small
extend-local_types type c [] (small, _) = elim (Bool-cases (c.type == type)) [
  | inl same ↦
      let fits : (c.count + 1) % 2 ^ 32 ≡ suc c.count = omega arith in
      let is_type : c.type ≡ type = (==_iff c.type type).0 same in
      (
        record c { count = (c.count + 1) % 2 ^ 32 } ∷ [],
        rw same refl,
        rw (fits, append-nil, append-nil, copies-last c.count c.type, is_type) refl,
      )
  | inr other ↦ (
    c ∷ record { count = 1; type = type } ∷ [],
    rw other refl,
    rw append-nil (ap (λ (l : List ℕ). l ++ type ∷ []) (sym (append-nil (copies c.count c.type)))),
  )
]
extend-local_types type c (d ∷ cs) (small, others) =
    let (locals, known, types) = extend-local_types type d cs others in
    (c ∷ locals, rw known refl, rw types (sym (append_assoc (copies c.count c.type) _ _)))

-- In a function that has a group of locals, with groups and numbers that fit 32 bits and the number
-- of locals that its groups stand for, a local is added. Its index is the number of parameters and
-- locals before it, and the locals' types are those before with the new type at the end, whether a
-- group is extended or added.
pub add_local-local_types :
    (params : List ℕ) (f : FuncDecl) (new_type : ℕ) (c : LocalCse) (cs : List LocalCse)
    → f.pure_locals ≡ c ∷ cs
    → Small f.pure_locals
    → f.num_pure_locals ≡ length (local_types f.pure_locals)
    → length params + f.num_pure_locals + 1 < 2 ^ 32
    → (g : FuncDecl) × (add_local params f new_type
        ≡ ok (length params + length (local_types f.pure_locals), g))
      × (local_types g.pure_locals ≡ local_types f.pure_locals ++ new_type ∷ [])
      × (g.num_pure_locals ≡ length (local_types g.pure_locals))
unfolding add_local
add_local-local_types params f new_type c cs groups small counted room =
    let (locals, known, types) = extend-local_types new_type c cs (rw groups at small) in
    let known' : extend_locals new_type f.pure_locals ≡ ok locals = rw groups known in
    let counts : length (local_types f.pure_locals ++ new_type ∷ []) ≡ f.num_pure_locals + 1 =
      omega (arith, length-append (local_types f.pure_locals) (new_type ∷ [])) in
    let types' : local_types locals ≡ local_types f.pure_locals ++ new_type ∷ [] =
      rw groups types in
    let index : (length params + f.num_pure_locals) % 2 ^ 32
        ≡ length params + length (local_types f.pure_locals) =
      omega arith in
    let number : (f.num_pure_locals + 1) % 2 ^ 32 ≡ f.num_pure_locals + 1 = omega arith in
    (
      record f { pure_locals = locals; num_pure_locals = (f.num_pure_locals + 1) % 2 ^ 32 },
      rw (add_local, known')
          (ap
            (λ n. ok (
              n,
              record f { pure_locals = locals; num_pure_locals = (f.num_pure_locals + 1) % 2 ^ 32 },
            ))
            index),
      types',
      number ∙ sym counts ∙ sym (ap length types'),
    )

-- A maximum is not below the size.
pub Valid : Limits → Type 0
Valid l = (l.has_max ≡ 0) ⊎ (l.initial ≤ l.max)

-- Adding pages returns the old size. It fails exactly where the new size takes more than 32 bits;
-- else the size grows by the number of pages, and the limits are then valid: a maximum is kept
-- where it is not below the new size and else becomes the new size.
pub add_pages-Valid :
    (l : Limits) (num_pages : ℕ)
    → ((2 ^ 32 ≤ l.initial + num_pages) × (add_pages l num_pages ≡ throw page_limit))
      ⊎ ((grown : Limits) × (add_pages l num_pages ≡ ok (l.initial, grown))
          × (grown.initial ≡ l.initial + num_pages)
          × (grown.initial < 2 ^ 32)
          × (grown.has_max ≡ l.has_max)
          × Valid grown
          × ((grown.max ≡ l.max) ⊎ ((grown.max ≡ grown.initial) × (l.max < grown.initial))))
unfolding add_pages Valid
add_pages-Valid l num_pages = elim (Bool-cases (ltb (2 ^ 32 - 1) (l.initial + num_pages))) [
  | inl over ↦ inl (ground arith, rw over refl)
  | inr fits ↦ elim (Bool-cases (not (l.has_max == 0) && ltb l.max (l.initial + num_pages))) [
    | inl past ↦ inr (
      record l { max = l.initial + num_pages; initial = l.initial + num_pages },
      rw (fits, past) refl,
      refl,
      ground arith,
      refl,
      inr (omega arith),
      inr (refl, ground arith),
    )
    | inr below ↦ inr (
      record l { initial = l.initial + num_pages },
      rw (fits, below) refl,
      refl,
      ground arith,
      refl,
      ground arith,
      inl refl,
    )
  ]
]
