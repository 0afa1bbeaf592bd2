-- ===== src/Inst/Reread.antt =====
-- Lemmas on decode_expr_to_insts of src/parse.cpp in modules that differ in their functions only.
use wasm_instrument.Prelude.{ℕ, zero, suc, ◌+◌, ◌-◌, ◌≡◌, refl, List, [], ◌∷◌, some}
use mathlib.Core.Path.{fun_ext}
use wasm_instrument.Opcode.Entry
use wasm_instrument.Opcode.Entry.{ImmType}
use wasm_instrument.Ir.{Node, FuncDecl, WasmModule}
use wasm_instrument.Ir.Access.{
  ids, elem_ptr, get_list_elem, get_func, get_sig, get_table, get_global, get_memory, get_data,
}
use wasm_instrument.Inst.{decode_imm, next_inst_from_buf, insts_loop, decode_expr_to_insts}

elem_ptr-ids {ℓ} :
    {A : Type ℓ} (ns ms : List (Node A)) (i : ℕ) → ids ns ≡ ids ms → elem_ptr ns i ≡ elem_ptr ms i
unfolding elem_ptr
elem_ptr-ids [] [] i e = refl
elem_ptr-ids [] (n ∷ ms) i e = absurd (never e)
  where
    never : ◌≡◌ {A = List ℕ} [] (n.id ∷ ids ms) → ⊥
    never h = cc
elem_ptr-ids (n ∷ ns) [] i e = absurd (never e)
  where
    never : ◌≡◌ {A = List ℕ} (n.id ∷ ids ns) [] → ⊥
    never h = cc
elem_ptr-ids (n ∷ ns) (k ∷ ms) zero e = first e
  where
    first : (n.id ∷ ids ns) ≡ (k.id ∷ ids ms) → some n.id ≡ some k.id
    first h = cc
elem_ptr-ids (n ∷ ns) (k ∷ ms) (suc i) e = elem_ptr-ids ns ms i (others e)
  where
    others : (n.id ∷ ids ns) ≡ (k.id ∷ ids ms) → ids ns ≡ ids ms
    others h = cc

module _ (m : WasmModule) (us : List (Node FuncDecl)) (same : ids us ≡ ids m.funcs) where
  abbrev pub with_bodies : WasmModule
  with_bodies = record m { funcs = us }

  same_func : get_func with_bodies ≡ get_func m
  unfolding get_func get_list_elem
  same_func = fun_ext (λ i. rw (elem_ptr-ids us m.funcs i same) refl)

  same_imm : (t : ImmType) → decode_imm with_bodies t ≡ decode_imm m t
  unfolding decode_imm get_sig get_table get_global get_memory get_data
  same_imm Entry.imm_none = refl
  same_imm Entry.imm_blockt = refl
  same_imm Entry.imm_label = refl
  same_imm Entry.imm_labels = refl
  same_imm Entry.imm_func = rw same_func refl
  same_imm Entry.imm_sig_table = refl
  same_imm Entry.imm_local = refl
  same_imm Entry.imm_global = refl
  same_imm Entry.imm_table = refl
  same_imm Entry.imm_memarg = refl
  same_imm Entry.imm_i32 = refl
  same_imm Entry.imm_f64 = refl
  same_imm Entry.imm_memory = refl
  same_imm Entry.imm_tag = refl
  same_imm Entry.imm_i64 = refl
  same_imm Entry.imm_f32 = refl
  same_imm Entry.imm_refnullt = refl
  same_imm Entry.imm_valts = refl
  same_imm Entry.imm_data_memory = refl
  same_imm Entry.imm_data = refl
  same_imm Entry.imm_memorycp = refl
  same_imm Entry.imm_data_table = refl
  same_imm Entry.imm_tablecp = refl
  same_imm Entry.imm_v128 = refl
  same_imm Entry.imm_laneidx = refl
  same_imm Entry.imm_laneidx16 = refl
  same_imm Entry.imm_memarg_laneidx = refl

  same_loop : (rounds : ℕ) → insts_loop with_bodies rounds ≡ insts_loop m rounds
  unfolding insts_loop next_inst_from_buf
  same_loop zero = refl
  same_loop (suc rounds) = fun_ext (λ b. rw (fun_ext same_imm, same_loop rounds) refl)

  pub same_decode : decode_expr_to_insts with_bodies ≡ decode_expr_to_insts m
  unfolding decode_expr_to_insts
  same_decode = fun_ext (λ b. rw (same_loop (b.limit - b.pos + 1)) refl)
