-- ===== src/Section/Header.antt =====
-- Theorems on the header in WasmModule::decode_buffer, and on parse_bytecode of src/parse.cpp.
use wasm_instrument.Prelude.{
  ℕ, ◌+◌, ◌^◌, ◌≤◌, ◌<◌, ◌≡◌, ◌≢◌, ◌⊎◌, inl, inr, refl, ap, ◌∙◌, List, [], ◌++◌, true, false, ◌==◌,
  ==_iff, Bool-cases, length, length-append, arith,
}
use mathlib.Core.Path.{subst}
use wasm_instrument.Prelude.Result.{
  Result, ok, throw, ◌>>=◌, ◌>>◌, >>=-ok, require, bad_magic, bad_version, unexpected_end,
  empty_bytecode,
}
use wasm_instrument.Buffer.{Buffer, advance, read_u32, lift}
use wasm_instrument.Buffer.Reads.{at, read_u32-Reads}
use wasm_instrument.Buffer.Moves.{read_u32-advance, require-passed}
use wasm_instrument.Writer.{encode_u32}
use wasm_instrument.Ir.{WasmModule, empty_module}
use wasm_instrument.Instrument.Spaces.{Space, WellFormed}
use wasm_instrument.Section.Imports.{Fresh}
use wasm_instrument.Section.Load.{
  decode_sections, decode_buffer, parse_buffer, parse_bytecode, wasm_magic, wasm_version,
}
use wasm_instrument.Section.Loads.{Loads, Loads-limit}
use wasm_instrument.Section.Outcome.{decode_sections_iff_Outcome}
use wasm_instrument.Section.Ordered.{imports_first, run-WellFormed}

-- The module behind the header.
abbrev pub headed : WasmModule
headed = record empty_module { magic = wasm_magic; version = wasm_version }

-- What parse_bytecode does behind the header.
abbrev pub finish_parse : Result (WasmModule × Buffer) → Result WasmModule
finish_parse r = r >>= λ (m, c). require unexpected_end (c.pos == c.limit) >> ok m

other_word : (a b : ℕ) → (a == b) ≡ false → a ≢ b
other_word a b h e = let same : (a == b) ≡ true = (==_iff a b).1 e in cc

length-encode_u32 : (v : ℕ) → length (encode_u32 v) ≡ 4
unfolding encode_u32
length-encode_u32 v = refl

word_at :
    (v pos limit : ℕ) (rest : List ℕ)
    → v < 2 ^ 32
    → pos + 4 ≤ limit
    → read_u32 (at (encode_u32 v ++ rest) pos limit) ≡ ok (v, at rest (pos + 4) limit)
word_at v pos limit rest h room =
    let four = length-encode_u32 v in
    read_u32-Reads v h rest pos limit (omega (arith, four))
    ∙ ap (λ n. ok (v, at rest n limit)) (ap (◌+◌ pos) four)

header_bytes : (a b : ℕ) (l : List ℕ) → length (encode_u32 a ++ (encode_u32 b ++ l)) ≡ length l + 8
header_bytes a b l = omega (
  arith,
  length-append (encode_u32 a) (encode_u32 b ++ l),
  length-append (encode_u32 b) l,
  length-encode_u32 a,
  length-encode_u32 b,
)

-- Of eight bytes that hold two numbers of 32 bits, with anything behind: where the first is not the
-- magic number, parsing throws, and where the second is not the version, it throws; else it goes on
-- with the sections behind the header.
pub parse_bytecode-encode_u32 :
    (magic version : ℕ) (rest : List ℕ)
    → magic < 2 ^ 32
    → version < 2 ^ 32
    → ((magic ≢ wasm_magic)
        × (parse_bytecode (encode_u32 magic ++ (encode_u32 version ++ rest)) ≡ throw bad_magic))
      ⊎ ((magic ≡ wasm_magic)
          × (version ≢ wasm_version)
          × (parse_bytecode (encode_u32 magic ++ (encode_u32 version ++ rest)) ≡ throw bad_version))
      ⊎ ((magic ≡ wasm_magic)
          × (version ≡ wasm_version)
          × (parse_bytecode (encode_u32 magic ++ (encode_u32 version ++ rest))
              ≡ finish_parse (decode_sections headed (at rest 8 (length rest + 8)))))
unfolding parse_bytecode parse_buffer decode_buffer
parse_bytecode-encode_u32 magic version rest h h' =
    let size = header_bytes magic version rest in
    let some_bytes : (length rest + 8 == 0) ≡ false = ground arith in
    let first = word_at magic 0 (length rest + 8) (encode_u32 version ++ rest) h (omega arith) in
    let second = word_at version 4 (length rest + 8) rest h' (omega arith) in
    elim (Bool-cases (magic == wasm_magic)) [
      | inr other ↦ inl (other_word _ _ other, rw (size, some_bytes, first, other) refl)
      | inl same ↦ inr (elim (Bool-cases (version == wasm_version)) [
        | inr other ↦ inl (
          (==_iff _ _).0 same,
          other_word _ _ other,
          rw (size, some_bytes, first, same, second, other) refl,
        )
        | inl same' ↦
            let m_same : magic ≡ wasm_magic = (==_iff _ _).0 same in
            let v_same : version ≡ wasm_version = (==_iff _ _).0 same' in
            inr (
              m_same,
              v_same,
              rw (size, some_bytes, first, same, second, same', m_same, v_same) refl,
            )
      ])
    ]

headed-Fresh : Fresh headed
headed-Fresh = record {
  shape = record {
    funcs = empty_space;
    tables = empty_space;
    mems = empty_space;
    names = inl refl;
    globals = empty_space;
  };
  no_funcs = refl;
  no_tables = refl;
  no_mems = refl;
  no_globals = refl;
  no_imports = refl;
}
  where
    empty_space : Space 0 [] [] 1
    empty_space = record {
      counted = refl;
      defined = [];
      imports_first = refl;
      distinct = tt;
      used = tt;
    }

-- Behind a header that is passed.
decode_buffer-headed :
    (b c : Buffer) (m : WasmModule)
    → decode_buffer empty_module b ≡ ok (m, c)
    → decode_sections headed (advance 4 (advance 4 b)) ≡ ok (m, c)
unfolding decode_buffer
decode_buffer-headed b c m e =
    let ((magic, d), first, e1) = >>=-ok (read_u32 b) _ e in
    let ((u, d'), passed, e2) = >>=-ok (lift (require bad_magic (magic == wasm_magic)) d) _ e1 in
    let ((version, f), second, e3) = >>=-ok (read_u32 d') _ e2 in
    let ((u', f'), passed', e4) =
      >>=-ok (lift (require bad_version (version == wasm_version)) f) _ e3 in
    let (is_magic, same_d) = require-passed bad_magic (magic == wasm_magic) d d' u passed in
    let (is_version, same_f) =
      require-passed bad_version (version == wasm_version) f f' u' passed' in
    let behind : advance 4 (advance 4 b) ≡ f' =
      ap (advance 4) (read_u32-advance b d magic first ∙ same_d)
      ∙ read_u32-advance d' f version second
      ∙ same_f in
    headed_from magic version behind is_magic is_version e4
  where
    headed_from :
        (magic version : ℕ) {f' : Buffer}
        → advance 4 (advance 4 b) ≡ f'
        → (magic == wasm_magic) ≡ true
        → (version == wasm_version) ≡ true
        → decode_sections (record empty_module { magic = magic; version = version }) f' ≡ ok (m, c)
        → decode_sections headed (advance 4 (advance 4 b)) ≡ ok (m, c)
    headed_from magic version {f'} behind is_magic is_version e =
        let m_same : magic ≡ wasm_magic = (==_iff magic wasm_magic).0 is_magic in
        let v_same : version ≡ wasm_version = (==_iff version wasm_version).0 is_version in
        ap (decode_sections headed) behind ∙ rw (m_same, v_same) at e

-- Wherever parse_bytecode gives a module, it has read sections from behind the header to the end,
-- and the module is well-formed, or an import section came behind a section that puts declarations
-- into an index space.
pub parse_bytecode-WellFormed :
    (bytes : List ℕ) (m : WasmModule)
    → parse_bytecode bytes ≡ ok m
    → (ids : List ℕ) × (end : Buffer) × Loads headed
        (advance 4 (advance 4 (at bytes 0 (length bytes))))
        ids
        m
        end
      × (end.pos ≡ length bytes)
      × (WellFormed m ⊎ (imports_first ids ≡ false))
unfolding parse_bytecode parse_buffer
parse_bytecode-WellFormed bytes m e = elim (Bool-cases (length bytes == 0)) [
  | inl none_given ↦ absurd (never (rw none_given at e))
  | inr given ↦
      let ((k, c), known, end) =
        >>=-ok (decode_buffer empty_module (at bytes 0 (length bytes))) _ (rw given at e) in
      let sections = decode_buffer-headed (at bytes 0 (length bytes)) c k known in
      let (ids, run) = (decode_sections_iff_Outcome headed _ (ok (k, c))).0 sections in
      from_run k c ids run end
]
  where
    never : throw empty_bytecode ≡ ok m → ⊥
    never h = cc

    stuck : ◌≡◌ {A = Result WasmModule} (throw unexpected_end) (ok m) → ⊥
    stuck h = cc

    value : (k : WasmModule) → ok k ≡ ok m → k ≡ m
    value k h = cc

    from_run :
        (k : WasmModule) (c : Buffer) (ids : List ℕ)
        → Loads headed (advance 4 (advance 4 (at bytes 0 (length bytes)))) ids k c
        → (require unexpected_end (c.pos == c.limit) >> ok k) ≡ ok m
        → (ids : List ℕ) × (end : Buffer) × Loads headed
            (advance 4 (advance 4 (at bytes 0 (length bytes))))
            ids
            m
            end
          × (end.pos ≡ length bytes)
          × (WellFormed m ⊎ (imports_first ids ≡ false))
    from_run k c ids run end = elim (Bool-cases (c.pos == c.limit)) [
      | inl at_end ↦
          let same : k ≡ m = value k (rw at_end at end) in
          let stops : c.pos ≡ length bytes =
            (==_iff c.pos c.limit).0 at_end ∙ Loads-limit headed k _ c ids run in
          let run' : Loads headed (advance 4 (advance 4 (at bytes 0 (length bytes)))) ids m c =
            subst (λ x. Loads headed (advance 4 (advance 4 (at bytes 0 (length bytes)))) ids x c)
              same run in
          (
            ids,
            c,
            run',
            stops,
            elim (Bool-cases (imports_first ids)) [
              | inl ordered ↦ inl (run-WellFormed headed m _ c ids ordered headed-Fresh run')
              | inr other ↦ inr other
            ],
          )
      | inr before ↦ absurd (stuck (rw before at end))
    ]
