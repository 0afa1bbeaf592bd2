-- ===== src/Prelude/Result.antt =====
-- The outcome of a C++ function of this program: a value, an exception that is thrown, or
-- undefined behaviour, such as a read past the end of the memory that holds the module.
use mathlib.Core.Path.{◌≡◌, refl}
use mathlib.Core.Bool.{Bool, true, false}
use mathlib.Core.Option.{Option, none, some}

-- The exceptions, named after the place that throws them.
pub data Error : Type 0 where
  unimplemented_opcode : Error
  null_string : Error
  element_not_found : Error
  block_type_index : Error
  tag_opcode : Error
  not_a_reftype : Error
  unaligned_instructions : Error
  unknown_imm : Error
  bad_signature : Error
  bad_import_kind : Error
  bad_export_kind : Error
  malformed_imports : Error
  memory_count : Error
  bad_flag : Error
  offset_opcode : Error
  malformed_end : Error
  datacount_mismatch : Error
  subsection_alignment : Error
  section_alignment : Error
  unknown_section : Error
  bad_magic : Error
  bad_version : Error
  import_count_mismatch : Error
  page_limit : Error
  init_expr_opcode : Error
  empty_bytecode : Error
  unexpected_end : Error

pub data Result {ℓ} (A : Type ℓ) : Type ℓ where
  ok : A → Result A
  throw : Error → Result A
  undefined : Result A

-- A dereference past the end of a list is undefined.
abbrev pub deref {ℓ} : {A : Type ℓ} → Option A → Result A
deref none = undefined
deref (some a) = ok a

-- `if (!holds) throw e;`
abbrev pub require : Error → Bool → Result (Unit {0})
require e false = throw e
require e true = ok tt

-- One statement after another, with and without a value that the second takes.
infixl 5 ◌>>◌ ◌>>=◌
abbrev pub ◌>>◌ {ℓ κ} : {A : Type ℓ} {B : Type κ} → Result A → Result B → Result B
undefined >> after = undefined
throw e >> after = throw e
ok _ >> after = after

abbrev pub ◌>>=◌ {ℓ κ} : {A : Type ℓ} {B : Type κ} → Result A → (A → Result B) → Result B
undefined >>= after = undefined
throw e >>= after = throw e
ok a >>= after = after a

-- Where the whole has a value, so has the first statement.
pub >>=-ok {ℓ κ} :
    {A : Type ℓ} {B : Type κ} {b : B} (first : Result A) (after : A → Result B)
    → (first >>= after) ≡ ok b
    → (a : A) × (first ≡ ok a) × (after a ≡ ok b)
>>=-ok undefined after e = cc
>>=-ok (throw x) after e = cc
>>=-ok (ok a) after e = (a, refl, e)

pub >>-ok {ℓ κ} :
    {A : Type ℓ} {B : Type κ} {b : B} (first : Result A) (after : Result B)
    → (first >> after) ≡ ok b
    → after ≡ ok b
>>-ok undefined after e = cc
>>-ok (throw x) after e = cc
>>-ok (ok a) after e = e
