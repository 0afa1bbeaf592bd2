-- ===== src/Ir/Access.antt =====
-- The accessors of inc/ir.h and the macros GET_LIST_ELEM, GET_LIST_IDX and GET_DEQUE_IDX of
-- inc/common.h.
use wasm_instrument.Prelude.{
  ℕ, zero, suc, ◌<◌, ◌≡◌, List, [], ◌∷◌, Option, none, some, Bool, ◌==◌, ltb, if◌then◌else◌, length,
  arith,
}
use mathlib.Core.Option
use wasm_instrument.Prelude.Result.{Result, ok, throw, ◌>>=◌, deref, element_not_found}
use wasm_instrument.Ir.{Node, Ptr, WasmModule}

abbrev or_not_found : Option ℕ → Result ℕ
or_not_found none = throw element_not_found
or_not_found (some i) = ok i

module _ {ℓ} {A : Type ℓ} where
  abbrev pub ids : List (Node A) → List Ptr
  ids [] = []
  ids (n ∷ ns) = n.id ∷ ids ns

  -- The index of the first node with that address.
  unfoldable pub index_of : List (Node A) → Ptr → Option ℕ
  index_of [] p = none
  index_of (n ∷ ns) p = if n.id == p then some 0 else Option.map suc (index_of ns p)

  -- The address of the i-th node.
  unfoldable pub elem_ptr : List (Node A) → ℕ → Option Ptr
  elem_ptr [] i = none
  elem_ptr (n ∷ ns) zero = some n.id
  elem_ptr (n ∷ ns) (suc i) = elem_ptr ns i

  -- `*p`
  unfoldable pub node_at : List (Node A) → Ptr → Option A
  node_at [] p = none
  node_at (n ∷ ns) p = if n.id == p then some n.decl else node_at ns p

  -- GET_LIST_ELEM and GET_DEQUE_ELEM; an index at or past the end is undefined.
  unfoldable pub get_list_elem : List (Node A) → ℕ → Result Ptr
  get_list_elem ns i = deref (elem_ptr ns i)

  unfoldable pub get_list_idx : List (Node A) → Ptr → Result ℕ
  get_list_idx ns p = or_not_found (index_of ns p)

  -- Of a deque, the distance to the end where the address is not found.
  unfoldable pub get_deque_idx : List (Node A) → Ptr → ℕ
  get_deque_idx ns p = Option.get_or (index_of ns p) (length ns)

  pub elem_ptr-index_of :
      (ns : List (Node A)) (p i : ℕ) → index_of ns p ≡ some i → elem_ptr ns i ≡ some p
  unfolding index_of elem_ptr
  elem_ptr-index_of [] p i h = cc
  elem_ptr-index_of (n ∷ ns) p zero h = ground arith
  elem_ptr-index_of (n ∷ ns) p (suc i) h = ground (arith, elem_ptr-index_of ns p i)

  pub index_of-lt : (ns : List (Node A)) (p i : ℕ) → index_of ns p ≡ some i → i < length ns
  unfolding index_of
  index_of-lt [] p i h = cc
  index_of-lt (n ∷ ns) p zero h = omega arith
  index_of-lt (n ∷ ns) p (suc i) h = ground (arith, index_of-lt ns p i)

-- The accessors of each index space.
unfoldable pub get_sig : WasmModule → ℕ → Result Ptr
get_sig m idx = get_list_elem m.sigs idx

unfoldable pub get_func : WasmModule → ℕ → Result Ptr
get_func m idx = get_list_elem m.funcs idx

unfoldable pub get_global : WasmModule → ℕ → Result Ptr
get_global m idx = get_list_elem m.globals idx

unfoldable pub get_table : WasmModule → ℕ → Result Ptr
get_table m idx = get_list_elem m.tables idx

unfoldable pub get_memory : WasmModule → ℕ → Result Ptr
get_memory m idx = get_list_elem m.mems idx

unfoldable pub get_data : WasmModule → ℕ → Result Ptr
get_data m idx = get_list_elem m.datas idx

unfoldable pub get_sig_idx : WasmModule → Ptr → Result ℕ
get_sig_idx m p = get_list_idx m.sigs p

unfoldable pub get_func_idx : WasmModule → Ptr → Result ℕ
get_func_idx m p = get_list_idx m.funcs p

unfoldable pub get_global_idx : WasmModule → Ptr → Result ℕ
get_global_idx m p = ok (get_deque_idx m.globals p)

unfoldable pub get_table_idx : WasmModule → Ptr → Result ℕ
get_table_idx m p = get_list_idx m.tables p

unfoldable pub get_memory_idx : WasmModule → Ptr → Result ℕ
get_memory_idx m p = get_list_idx m.mems p

unfoldable pub get_data_idx : WasmModule → Ptr → Result ℕ
get_data_idx m p = get_list_idx m.datas p

-- isImport(FuncDecl *)
unfoldable pub is_import : WasmModule → Ptr → Result Bool
is_import m p = do i ← get_func_idx m p; ok (ltb i m.imports.num_funcs)
