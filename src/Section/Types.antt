-- ===== src/Section/Types.antt =====
-- Theorems on the coders of types of src/parse.cpp and src/encode.cpp.
use wasm_instrument.Prelude.{
  ℕ, zero, suc, ◌+◌, ◌*◌, ◌/◌, ◌%◌, ◌^◌, ◌<◌, ◌≡◌, refl, sym, ap, ◌∙◌, bit_and, bit_or, true, false,
  List, [], ◌∷◌, ◌++◌, append_assoc, append-nil, length, All, arith, ◌==◌, if◌then◌else◌,
  Bool-cases, inl, inr,
}
use wasm_instrument.Prelude.Result.{ok}
use wasm_instrument.Leb.{encode_u32leb}
use wasm_instrument.Buffer.{pure, read_u32leb, read_u8, read_list}
use wasm_instrument.Buffer.Reads.{
  Reads, at, Reads-pure, Reads-bind, Reads-then, Reads-list, read_u32leb-Reads, read_u8-Reads,
}
use wasm_instrument.Writer.{encode_u8, concat_map}
use wasm_instrument.Ir.{Node, Limits, SigDecl, TableDecl, WasmModule}
use wasm_instrument.Inst.Classes.{is_reftype}
use wasm_instrument.Inst.Encodable.{U8, U32}
use wasm_instrument.Inst.Pieces.{u8s-Reads}
use wasm_instrument.Section.{
  read_limits, write_limits, read_tabletype, write_tabletype, read_type_list, write_type_list,
  read_sig, write_sig, push_sig, read_sigs, decode_type_section, decls, encode_type_section,
}

-- The fields are of the widths that the source declares.
pub record LimitsFit (l : Limits) : Type 0 where
  pub initial_fits : U32 l.initial
  pub max_fits : U32 l.max
  pub has_max_bit : l.has_max < 2
  pub flag_bit : l.flag < 2

-- What the maximum is after it is written and read.
abbrev pub kept : Limits → Limits
kept l = record l { max = if l.has_max == 0 then 0 else l.max }

first_byte_bits :
    (f h : ℕ)
    → f < 2
    → h < 2
    → (bit_and (bit_or (f * 2) h) 0x01 ≡ h) × (bit_or (f * 2) h / 2 % 2 ≡ f) × U8 (bit_or (f * 2) h)
first_byte_bits zero zero a b = (refl, refl, omega arith)
first_byte_bits zero (suc zero) a b = (refl, refl, omega arith)
first_byte_bits (suc zero) zero a b = (refl, refl, omega arith)
first_byte_bits (suc zero) (suc zero) a b = (refl, refl, omega arith)
first_byte_bits (suc (suc f)) h a b = absurd (omega arith)
first_byte_bits f (suc (suc h)) a b = absurd (omega arith)

limits-Reads : (l : Limits) → LimitsFit l → Reads read_limits (write_limits l) (kept l)
unfolding read_limits write_limits
limits-Reads l fit =
    let lb = bit_or (l.flag * 2) l.has_max in
    let (max_bit, flag_bit, byte) = first_byte_bits l.flag l.has_max fit.flag_bit fit.has_max_bit in
    Reads-bind read_u8 _ (encode_u8 lb) _ (read_u8-Reads lb byte) (
      Reads-bind read_u32leb _ (encode_u32leb l.initial) _
        (read_u32leb-Reads l.initial fit.initial_fits)
        (rw (max_bit, flag_bit)
          (elim (Bool-cases (l.has_max == 0)) [
            | inl none_given ↦ rw none_given (
                Reads-pure
                  (record { initial = l.initial; max = 0; has_max = l.has_max; flag = l.flag }))
            | inr given ↦ rw given (
                Reads-then read_u32leb
                  (λ max.
                    pure (record {
                      initial = l.initial;
                      max = max;
                      has_max = l.has_max;
                      flag = l.flag;
                    }))
                  (encode_u32leb l.max) (read_u32leb-Reads l.max fit.max_fits) (Reads-pure l))
          ])))

type_list-Reads :
    (l : List ℕ) → U32 (length l) → All U8 l → Reads read_type_list (write_type_list l) l
unfolding read_type_list write_type_list
type_list-Reads l many small =
    let same : length l % 2 ^ 32 ≡ length l = omega arith in
    rw same (
      Reads-bind read_u32leb (λ num. read_list num read_u8) (encode_u32leb (length l))
        (concat_map encode_u8 l) (read_u32leb-Reads (length l) many)
        (Reads-list read_u8 encode_u8 l (u8s-Reads l small)))

-- A signature whose types are bytes.
pub record SigFits (s : SigDecl) : Type 0 where
  pub few_params : U32 (length s.params)
  pub few_results : U32 (length s.results)
  pub param_bytes : All U8 s.params
  pub result_bytes : All U8 s.results

sig-Reads : (s : SigDecl) → SigFits s → Reads read_sig (write_sig s) s
unfolding read_sig write_sig
sig-Reads s fit = Reads-bind read_u8 _ (encode_u8 0x60) _ (read_u8-Reads 0x60 (omega arith)) (
    Reads-bind read_type_list _ (write_type_list s.params) _
      (type_list-Reads s.params fit.few_params fit.param_bytes)
      (Reads-then read_type_list (λ results. pure (record { params = s.params; results = results }))
        (write_type_list s.results) (type_list-Reads s.results fit.few_results fit.result_bytes)
        (Reads-pure s)))

push_all : WasmModule → List SigDecl → WasmModule
push_all m [] = m
push_all m (s ∷ ss) = push_all (push_sig m s) ss

decls-append {ℓ} : {A : Type ℓ} (ns ms : List (Node A)) → decls (ns ++ ms) ≡ decls ns ++ decls ms
decls-append [] ms = refl
decls-append (n ∷ ns) ms = ap (◌∷◌ n.decl) (decls-append ns ms)

push_all-decls :
    (m : WasmModule) (ss : List SigDecl) → decls (push_all m ss).sigs ≡ decls m.sigs ++ ss
unfolding push_all
push_all-decls m [] = sym (append-nil (decls m.sigs))
push_all-decls m (s ∷ ss) =
    push_all-decls (push_sig m s) ss
    ∙ ap (λ (l : List SigDecl). l ++ ss)
        (decls-append m.sigs (record { id = m.next_id; decl = s } ∷ []))
    ∙ append_assoc (decls m.sigs) (s ∷ []) ss

sigs-Reads :
    (m : WasmModule) (ss : List SigDecl)
    → All SigFits ss
    → Reads (read_sigs (length ss) m) (concat_map write_sig ss) (push_all m ss)
unfolding read_sigs concat_map push_all
sigs-Reads m [] all = Reads-pure m
sigs-Reads m (s ∷ ss) (fit, all) =
    Reads-bind read_sig (λ sig. read_sigs (length ss) (push_sig m sig)) (write_sig s)
      (concat_map write_sig ss) (sig-Reads s fit) (sigs-Reads (push_sig m s) ss all)

length-decls {ℓ} : {A : Type ℓ} (ns : List (Node A)) → length (decls ns) ≡ length ns
length-decls [] = refl
length-decls (n ∷ ns) = ap suc (length-decls ns)

-- What is written for the signatures of a module, of which there is at least one and fewer than
-- 2 ^ 32, each with fewer than 2 ^ 32 types that are bytes, is read into
-- another module behind its own signatures, and no more is taken.
pub decode-encode_type_section :
    (m into : WasmModule) (rest : List ℕ) (pos more_room : ℕ)
    → 0 < length m.sigs
    → U32 (length m.sigs)
    → All SigFits (decls m.sigs)
    → (after : WasmModule) × (decode_type_section into (
          at (encode_type_section m ++ rest) pos (pos + length (encode_type_section m) + more_room))
        ≡ ok (
          after,
          at rest
              (pos + length (encode_type_section m))
              (pos + length (encode_type_section m) + more_room),
        ))
      × (decls after.sigs ≡ decls into.sigs ++ decls m.sigs)
unfolding decode_type_section encode_type_section
decode-encode_type_section m into rest pos more_room some_sigs few all =
    let same : length m.sigs % 2 ^ 32 ≡ length (decls m.sigs) =
      omega (arith, length-decls m.sigs) in
    let written : length (decls m.sigs) == 0 ≡ false = ground (arith, length-decls m.sigs) in
    let count_fits : U32 (length (decls m.sigs)) = omega (arith, length-decls m.sigs) in
    let reads =
      Reads-bind read_u32leb (λ num. read_sigs num into) (encode_u32leb (length (decls m.sigs)))
        (concat_map write_sig (decls m.sigs)) (read_u32leb-Reads (length (decls m.sigs)) count_fits)
        (sigs-Reads into (decls m.sigs) all) in
    (
      push_all into (decls m.sigs),
      rw (same, written) (reads rest pos _ (omega arith)),
      push_all-decls into (decls m.sigs),
    )

-- A table type with a reference type and limits of the declared widths that is written is read
-- back, with the maximum only where it is given.
pub read_tabletype-write_tabletype :
    (table : TableDecl) (rest : List ℕ) (pos more_room : ℕ)
    → U8 table.reftype
    → is_reftype table.reftype ≡ true
    → LimitsFit table.limits
    → read_tabletype
        (at (write_tabletype table ++ rest) pos (pos + length (write_tabletype table) + more_room))
      ≡ ok (
        record table { limits = kept table.limits },
        at rest
            (pos + length (write_tabletype table))
            (pos + length (write_tabletype table) + more_room),
      )
unfolding read_tabletype write_tabletype
read_tabletype-write_tabletype table rest pos more_room byte ref fit =
    Reads-bind read_u8 _ (encode_u8 table.reftype) (write_limits table.limits)
      (read_u8-Reads table.reftype byte)
      (rw ref (
        Reads-then read_limits
          (λ limits. pure (record { reftype = table.reftype; limits = limits }))
          (write_limits table.limits) (limits-Reads table.limits fit)
          (Reads-pure (record table { limits = kept table.limits }))))
      rest pos _ (omega arith)
