-- ===== src/Instrument/Spaces.antt =====
-- The index spaces of a module: the imports of a kind come first in the kind's list, in the order
-- of the import list and as many as the module counts; the addresses are distinct and were used.
use wasm_instrument.Prelude.{
  ℕ, zero, suc, ◌+◌, ◌-◌, ◌%◌, ◌^◌, ◌≤◌, ◌<◌, ◌≡◌, ◌≢◌, ◌⊎◌, refl, ap, ◌∙◌, List, [], ◌∷◌, ◌++◌,
  Option, none, some, length, length-append, append-nil, sym, All, append_assoc, arith,
}
use wasm_instrument.Ir.{Node, Ptr, CustomDecl, Descriptor, ImportDecl, WasmModule}
use wasm_instrument.Ir.Access.{ids}
use wasm_instrument.Instrument.Lookup.{as_func, as_table, as_memory, as_global}
use wasm_instrument.Instrument.Remove.{erase_at}

abbrev pub keep : Option Ptr → List Ptr → List Ptr
keep none ps = ps
keep (some p) ps = p ∷ ps

-- The declarations that the imports of a kind point at.
abbrev pub of_kind : (Descriptor → Option Ptr) → List ImportDecl → List Ptr
of_kind kind [] = []
of_kind kind (i ∷ is) = keep (kind i.desc) (of_kind kind is)

abbrev pub Distinct : List Ptr → Type 0
Distinct [] = Unit
Distinct (p ∷ ps) = All (λ q. p ≢ q) ps × Distinct ps

pub record Space (num : ℕ) (imported ps : List Ptr) (next : ℕ) : Type 0 where
  pub counted : num ≡ length imported
  pub defined : List Ptr
  pub imports_first : ps ≡ imported ++ defined
  pub distinct : Distinct ps
  pub used : All (λ p. p < next) ps

-- The pointer to the debug names is NULL or into a custom section of the module.
abbrev pub NamesFound : Option ℕ → List CustomDecl → Type 0
NamesFound names customs = (names ≡ none) ⊎ ((i : ℕ) × (names ≡ some i) × (i < length customs))

pub record WellFormed (m : WasmModule) : Type 0 where
  pub funcs : Space m.imports.num_funcs (of_kind as_func m.imports.list) (ids m.funcs) m.next_id
  pub tables : Space m.imports.num_tables (of_kind as_table m.imports.list) (ids m.tables) m.next_id
  pub mems : Space m.imports.num_mems (of_kind as_memory m.imports.list) (ids m.mems) m.next_id
  pub names : NamesFound m.fn_names_debug m.customs
  pub globals :
      Space m.imports.num_globals (of_kind as_global m.imports.list) (ids m.globals) m.next_id

pub ids-append {ℓ} : {A : Type ℓ} (ns ms : List (Node A)) → ids (ns ++ ms) ≡ ids ns ++ ids ms
ids-append [] ms = refl
ids-append (n ∷ ns) ms = ap (◌∷◌ n.id) (ids-append ns ms)

pub used-later : (n k : ℕ) (ps : List Ptr) → n ≤ k → All (λ p. p < n) ps → All (λ p. p < k) ps
used-later n k [] h all = tt
used-later n k (p ∷ ps) h (first, others) = (omega arith, used-later n k ps h others)

pub unused : (n : ℕ) (ps : List Ptr) → All (λ p. p < n) ps → All (λ q. n ≢ q) ps
unused n [] all = tt
unused n (p ∷ ps) (first, others) = ((λ e. omega arith), unused n ps others)

All-snoc {ℓ} : (P : Ptr → Type ℓ) (ps : List Ptr) (q : Ptr) → All P ps → P q → All P (ps ++ q ∷ [])
All-snoc P [] q all h = (h, tt)
All-snoc P (p ∷ ps) q (first, others) h = (first, All-snoc P ps q others h)

Distinct-snoc :
    (n : ℕ) (ps : List Ptr) → All (λ p. p < n) ps → Distinct ps → Distinct (ps ++ n ∷ [])
Distinct-snoc n [] all d = (tt, tt)
Distinct-snoc n (p ∷ ps) (first, others) (apart, d) =
    (All-snoc (λ q. p ≢ q) ps n apart (λ e. omega arith), Distinct-snoc n ps others d)

-- A fresh declaration in front, as an import; behind all others; and in another space.
pub Space-front :
    {num : ℕ} {is ps : List Ptr} {n : ℕ}
    → num + 1 < 2 ^ 32
    → Space num is ps n
    → Space ((num + 1) % 2 ^ 32) (n ∷ is) (n ∷ ps) (n + 1)
Space-front {num} {is} {ps} {n} room s = record {
  counted = omega (arith, s.counted);
  defined = s.defined;
  imports_first = ap (◌∷◌ n) s.imports_first;
  distinct = (unused n ps s.used, s.distinct);
  used = (omega arith, used-later n (n + 1) ps (omega arith) s.used);
}

pub Space-later :
    {num : ℕ} {is ps : List Ptr} {n k : ℕ} → n ≤ k → Space num is ps n → Space num is ps k
Space-later {num} {is} {ps} {n} {k} h s = record {
  counted = s.counted;
  defined = s.defined;
  imports_first = s.imports_first;
  distinct = s.distinct;
  used = used-later n k ps h s.used;
}

pub Space-back {ℓ} :
    {A : Type ℓ} {num : ℕ} {is : List Ptr} (ns : List (Node A)) {n : ℕ} (a : A)
    → Space num is (ids ns) n
    → Space num is (ids (ns ++ record { id = n; decl = a } ∷ [])) (n + 1)
Space-back {num = num} {is = is} ns {n} a s =
    rw (ids-append ns (record { id = n; decl = a } ∷ [])) (record {
      counted = s.counted;
      defined = s.defined ++ n ∷ [];
      imports_first =
          ap (λ (l : List Ptr). l ++ n ∷ []) s.imports_first ∙ append_assoc is s.defined (n ∷ []);
      distinct = Distinct-snoc n (ids ns) s.used s.distinct;
      used =
          All-snoc (λ p. p < n + 1) (ids ns) n (used-later n (n + 1) (ids ns) (omega arith) s.used)
            (omega arith);
    })

-- A fresh import behind all others, where the space has imports only.
pub Space-import :
    {num : ℕ} {is ps : List Ptr} {n : ℕ}
    → num + 1 < 2 ^ 32
    → ps ≡ is
    → Space num is ps n
    → Space ((num + 1) % 2 ^ 32) (is ++ n ∷ []) (ps ++ n ∷ []) (n + 1)
Space-import {num} {is} {ps} {n} room alone s = record {
  counted = omega (arith, s.counted, length-append is (n ∷ []));
  defined = [];
  imports_first = ap (λ (l : List Ptr). l ++ n ∷ []) alone ∙ sym (append-nil (is ++ n ∷ []));
  distinct = Distinct-snoc n ps s.used s.distinct;
  used =
      All-snoc (λ p. p < n + 1) ps n (used-later n (n + 1) ps (omega arith) s.used) (omega arith);
}

-- Erasing an element keeps what holds of all.
pub ids-erase_at {ℓ} :
    {A : Type ℓ} (ns : List (Node A)) (i : ℕ) → ids (erase_at ns i) ≡ erase_at (ids ns) i
unfolding erase_at
ids-erase_at [] i = refl
ids-erase_at (n ∷ ns) zero = refl
ids-erase_at (n ∷ ns) (suc i) = ap (◌∷◌ n.id) (ids-erase_at ns i)

pub All-erase_at {ℓ} : (P : Ptr → Type ℓ) (ps : List Ptr) (i : ℕ) → All P ps → All P (erase_at ps i)
unfolding erase_at
All-erase_at P [] i all = tt
All-erase_at P (p ∷ ps) zero (first, others) = others
All-erase_at P (p ∷ ps) (suc i) (first, others) = (first, All-erase_at P ps i others)

Distinct-erase_at : (ps : List Ptr) (i : ℕ) → Distinct ps → Distinct (erase_at ps i)
unfolding erase_at
Distinct-erase_at [] i d = tt
Distinct-erase_at (p ∷ ps) zero (apart, d) = d
Distinct-erase_at (p ∷ ps) (suc i) (apart, d) =
    (All-erase_at (λ q. p ≢ q) ps i apart, Distinct-erase_at ps i d)

erase_at-front :
    (is ts : List Ptr) (i : ℕ) → i < length is → erase_at (is ++ ts) i ≡ erase_at is i ++ ts
unfolding erase_at
erase_at-front [] ts i h = absurd (omega arith)
erase_at-front (p ∷ is) ts zero h = refl
erase_at-front (p ∷ is) ts (suc i) h = ap (◌∷◌ p) (erase_at-front is ts i (omega arith))

erase_at-behind :
    (is ts : List Ptr) (i : ℕ)
    → length is ≤ i
    → erase_at (is ++ ts) i ≡ is ++ erase_at ts (i - length is)
unfolding erase_at
erase_at-behind [] ts i h = ap (erase_at ts) (omega arith)
erase_at-behind (p ∷ is) ts zero h = absurd (omega arith)
erase_at-behind (p ∷ is) ts (suc i) h =
    ap (◌∷◌ p) (erase_at-behind is ts i (omega arith) ∙ ap (λ n. is ++ erase_at ts n) (omega arith))

length-erase_at : (ps : List Ptr) (i : ℕ) → i < length ps → length (erase_at ps i) ≡ length ps - 1
unfolding erase_at
length-erase_at [] i h = absurd (omega arith)
length-erase_at (p ∷ ps) zero h = omega arith
length-erase_at (p ∷ ps) (suc i) h = omega (arith, length-erase_at ps i (omega arith))

-- The space after an import, or a defined declaration, is erased.
pub Space-erase_import :
    {num : ℕ} {is ps : List Ptr} {n : ℕ} (i : ℕ)
    → i < num
    → Space num is ps n
    → Space (num - 1) (erase_at is i) (erase_at ps i) n
Space-erase_import {num} {is} {ps} {n} i h s = record {
  counted = omega (arith, s.counted, length-erase_at is i (omega (arith, s.counted)));
  defined = s.defined;
  imports_first =
      ap (λ (l : List Ptr). erase_at l i) s.imports_first
      ∙ erase_at-front is s.defined i (omega (arith, s.counted));
  distinct = Distinct-erase_at ps i s.distinct;
  used = All-erase_at (λ p. p < n) ps i s.used;
}

pub Space-erase_defined :
    {num : ℕ} {is ps : List Ptr} {n : ℕ} (i : ℕ)
    → num ≤ i
    → Space num is ps n
    → Space num is (erase_at ps i) n
Space-erase_defined {num} {is} {ps} {n} i h s = record {
  counted = s.counted;
  defined = erase_at s.defined (i - length is);
  imports_first =
      ap (λ (l : List Ptr). erase_at l i) s.imports_first
      ∙ erase_at-behind is s.defined i (omega (arith, s.counted));
  distinct = Distinct-erase_at ps i s.distinct;
  used = All-erase_at (λ p. p < n) ps i s.used;
}
