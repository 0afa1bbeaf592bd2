-- ===== src/Section/Outcome.antt =====
-- What the loop over the sections of WasmModule::decode_buffer of src/parse.cpp comes to: a module,
-- an exception or undefined behaviour.
use wasm_instrument.Prelude.{
  ℕ, zero, suc, ◌+◌, ◌-◌, ◌<◌, ◌≡◌, ◌≢◌, ◌↔◌, ◌⊎◌, refl, List, [], ◌∷◌, true, false, leb, ◌==◌,
  ==_iff, Bool-cases, inl, inr, arith, leb→le,
}
use mathlib.Core.Path.{subst}
use wasm_instrument.Prelude.Result.{Result, ok, throw, undefined, Error, section_alignment, ◌>>=◌}
use wasm_instrument.Buffer.{Buffer, read_u8, read_u32leb}
use wasm_instrument.Ir.{WasmModule}
use wasm_instrument.Section.Load.{
  decode_section, framed_section, read_section, sections_loop, decode_sections,
}
use wasm_instrument.Section.Loads.{content, Framed, Loads, Framed-read_section, Framed-Moved}

-- How reading ends without a value.
pub data Failure : Type 0 where
  thrown : Error → Failure
  crash : Failure

abbrev pub failed {ℓ} : {A : Type ℓ} → Failure → Result A
failed (thrown e) = throw e
failed crash = undefined

-- A run over the sections whose ids are listed, the last of which is not read: its id, its length
-- or its content fails, or its content ends elsewhere than its length says.
pub data Halts : WasmModule → Buffer → List ℕ → Failure → Type 0 where
  no_id :
      {m : WasmModule} {b : Buffer} {f : Failure}
      → b.pos < b.limit
      → read_u8 b ≡ failed f
      → Halts m b [] f
  no_len :
      {m : WasmModule} {b h : Buffer} {section_id : ℕ} {f : Failure}
      → b.pos < b.limit
      → read_u8 b ≡ ok (section_id, h)
      → read_u32leb h ≡ failed f
      → Halts m b (section_id ∷ []) f
  no_content :
      {m : WasmModule} {b h i : Buffer} {section_id len : ℕ} {f : Failure}
      → b.pos < b.limit
      → read_u8 b ≡ ok (section_id, h)
      → read_u32leb h ≡ ok (len, i)
      → decode_section m section_id len (content i len) ≡ failed f
      → Halts m b (section_id ∷ []) f
  misaligned :
      {m k : WasmModule} {b h i d : Buffer} {section_id len : ℕ}
      → b.pos < b.limit
      → read_u8 b ≡ ok (section_id, h)
      → read_u32leb h ≡ ok (len, i)
      → decode_section m section_id len (content i len) ≡ ok (k, d)
      → d.pos ≢ len
      → Halts m b (section_id ∷ []) (thrown section_alignment)
  next :
      {m k : WasmModule} {b c : Buffer} {section_id : ℕ} {ids : List ℕ} {f : Failure}
      → b.pos < b.limit
      → Framed m b section_id k c
      → Halts k c ids f
      → Halts m b (section_id ∷ ids) f

-- What the relations say of a result.
abbrev pub Outcome : WasmModule → Buffer → Result (WasmModule × Buffer) → Type 0
Outcome m b (ok (k, c)) = (ids : List ℕ) × Loads m b ids k c
Outcome m b (throw e) = (ids : List ℕ) × Halts m b ids (thrown e)
Outcome m b undefined = (ids : List ℕ) × Halts m b ids crash

Result-cases {ℓ} :
    {A : Type ℓ} (r : Result A) → ((a : A) × (r ≡ ok a)) ⊎ ((f : Failure) × (r ≡ failed f))
Result-cases (ok a) = inl (a, refl)
Result-cases (throw e) = inr (thrown e, refl)
Result-cases undefined = inr (crash, refl)

failed->>= {ℓ κ} :
    {A : Type ℓ} {B : Type κ} (f : Failure) (g : A → Result B) → (failed f >>= g) ≡ failed f
failed->>= (thrown e) g = refl
failed->>= crash g = refl

Halts-Outcome :
    (m : WasmModule) (b : Buffer) (ids : List ℕ) (f : Failure)
    → Halts m b ids f
    → Outcome m b (failed f)
Halts-Outcome m b ids (thrown e) run = (ids, run)
Halts-Outcome m b ids crash run = (ids, run)

Framed-Outcome :
    (m k : WasmModule) (b c : Buffer) (section_id : ℕ) (r : Result (WasmModule × Buffer))
    → b.pos < b.limit
    → Framed m b section_id k c
    → Outcome k c r
    → Outcome m b r
Framed-Outcome m k b c section_id (ok (l, d)) inside read (ids, run) =
    (section_id ∷ ids, Loads.next inside read run)
Framed-Outcome m k b c section_id (throw e) inside read (ids, run) =
    (section_id ∷ ids, Halts.next inside read run)
Framed-Outcome m k b c section_id undefined inside read (ids, run) =
    (section_id ∷ ids, Halts.next inside read run)

-- A section is read, or the run halts at it.
section_cases :
    (m : WasmModule) (b : Buffer)
    → b.pos < b.limit
    → ((section_id : ℕ) × (k : WasmModule) × (c : Buffer) × Framed m b section_id k c)
      ⊎ ((ids : List ℕ) × (f : Failure) × Halts m b ids f × (read_section m b ≡ failed f))
unfolding read_section framed_section
section_cases m b inside = elim (Result-cases (read_u8 b)) [
  | inr (f, e) ↦ inr ([], f, Halts.no_id inside e, rw e (failed->>= f _))
  | inl ((section_id, h), first) ↦ elim (Result-cases (read_u32leb h)) [
    | inr (f, e) ↦
        inr (section_id ∷ [], f, Halts.no_len inside first e, rw (first, e) (failed->>= f _))
    | inl ((len, i), second) ↦
        elim (Result-cases (decode_section m section_id len (content i len))) [
          | inr (f, e) ↦ inr (
            section_id ∷ [],
            f,
            Halts.no_content inside first second e,
            rw (first, second, e) (failed->>= f _),
          )
          | inl ((k, d), known) ↦ elim (Bool-cases (d.pos == len)) [
            | inl ends ↦ inl (
              section_id,
              k,
              record i { rest = d.rest; pos = i.pos + len },
              record {
                behind_id = h;
                id_read = first;
                len = len;
                behind_len = i;
                len_read = second;
                content_end = d;
                content_read = known;
                aligned = (==_iff _ _).0 ends;
                goes_on = refl;
              },
            )
            | inr apart ↦
                let differs : d.pos ≢ len =
                  λ same. let here : (d.pos == len) ≡ true = (==_iff _ _).1 same in cc in
                inr (
                  section_id ∷ [],
                  thrown section_alignment,
                  Halts.misaligned inside first second known differs,
                  rw (first, second, known, apart) refl,
                )
          ]
        ]
  ]
]

-- With a round more than there are bytes, the loop comes to what the relations say.
loop-Outcome :
    (rounds : ℕ) (m : WasmModule) (b : Buffer)
    → b.limit - b.pos < rounds
    → Outcome m b (sections_loop rounds m b)
unfolding sections_loop
loop-Outcome zero m b enough = absurd (omega arith)
loop-Outcome (suc rounds) m b enough = elim (Bool-cases (leb b.limit b.pos)) [
  | inl out ↦ rw out ([], Loads.done (leb→le b.limit b.pos out))
  | inr before ↦
      let inside : b.pos < b.limit = ground arith in
      elim (section_cases m b inside) [
        | inl (section_id, k, c, read) ↦
            let moved = Framed-Moved m k b c section_id inside read in
            rw (before, Framed-read_section m k b c section_id read)
              (Framed-Outcome m k b c section_id _ inside read
                (loop-Outcome rounds k c (omega (arith, moved.on, moved.same_end))))
        | inr (ids, f, run, stops) ↦
            let others : WasmModule × Buffer → Result (WasmModule × Buffer) =
              λ (after, c). sections_loop rounds after c in
            rw (before, stops, failed->>= f others) (Halts-Outcome m b ids f run)
      ]
]

Loads-loop :
    (rounds : ℕ) (m k : WasmModule) (b c : Buffer) (ids : List ℕ)
    → b.limit - b.pos < rounds
    → Loads m b ids k c
    → sections_loop rounds m b ≡ ok (k, c)
unfolding sections_loop
Loads-loop zero m k b c ids enough run = absurd (omega arith)
Loads-loop (suc rounds) m k b c [] enough (Loads.done out) =
    let past : leb b.limit b.pos ≡ true = ground arith in rw past refl
Loads-loop (suc rounds) m k b c (section_id ∷ ids) enough
      (Loads.next {k = after} {c = d} inside read run) =
    let before : leb b.limit b.pos ≡ false = ground arith in
    let moved = Framed-Moved m after b d section_id inside read in
    rw (before, Framed-read_section m after b d section_id read)
      (Loads-loop rounds after k d c ids (omega (arith, moved.on, moved.same_end)) run)

-- Where the round's section is not read, the loop ends as its reading does.
halted :
    (rounds : ℕ) (m : WasmModule) (b : Buffer) (f : Failure)
    → b.pos < b.limit
    → read_section m b ≡ failed f
    → sections_loop (suc rounds) m b ≡ failed f
unfolding sections_loop
halted rounds m b f inside stops =
    let before : leb b.limit b.pos ≡ false = ground arith in
    let others : WasmModule × Buffer → Result (WasmModule × Buffer) =
      λ (after, c). sections_loop rounds after c in
    rw (before, stops) (failed->>= f others)

Halts-loop :
    (rounds : ℕ) (m : WasmModule) (b : Buffer) (ids : List ℕ) (f : Failure)
    → b.limit - b.pos < rounds
    → Halts m b ids f
    → sections_loop rounds m b ≡ failed f
unfolding sections_loop read_section framed_section
Halts-loop zero m b ids f enough run = absurd (omega arith)
Halts-loop (suc rounds) m b _ f enough (Halts.no_id inside e) =
    halted rounds m b f inside (rw e (failed->>= f _))
Halts-loop (suc rounds) m b _ f enough (Halts.no_len inside first e) =
    halted rounds m b f inside (rw (first, e) (failed->>= f _))
Halts-loop (suc rounds) m b _ f enough (Halts.no_content inside first second e) =
    halted rounds m b f inside (rw (first, second, e) (failed->>= f _))
Halts-loop (suc rounds) m b _ _ enough
      (Halts.misaligned {d = d} {len = len} inside first second known apart) =
    let differs : (d.pos == len) ≡ false = elim (Bool-cases (d.pos == len)) [
      | inl same ↦ absurd (apart ((==_iff _ _).0 same))
      | inr other ↦ other
    ] in
    halted rounds m b (thrown section_alignment) inside (rw (first, second, known, differs) refl)
Halts-loop (suc rounds) m b (section_id ∷ ids) f enough
      (Halts.next {k = after} {c = d} inside read run) =
    let before : leb b.limit b.pos ≡ false = ground arith in
    let moved = Framed-Moved m after b d section_id inside read in
    rw (before, Framed-read_section m after b d section_id read)
      (Halts-loop rounds after d ids f (omega (arith, moved.on, moved.same_end)) run)

Outcome-loop :
    (m : WasmModule) (b : Buffer) (r : Result (WasmModule × Buffer))
    → Outcome m b r
    → sections_loop (b.limit - b.pos + 1) m b ≡ r
Outcome-loop m b (ok (k, c)) (ids, run) = Loads-loop _ m k b c ids (omega arith) run
Outcome-loop m b (throw e) (ids, run) = Halts-loop _ m b ids (thrown e) (omega arith) run
Outcome-loop m b undefined (ids, run) = Halts-loop _ m b ids crash (omega arith) run

-- The loop over the sections comes to a result, be it a module with a pointer, an exception or
-- undefined behaviour, exactly where a run over sections comes to it: a run to the end of the bytes
-- in which the content of each section ends where the section's length says, a run up to a section
-- whose id, length or content fails in that way, or, for section_alignment, a run up to a section
-- whose content ends elsewhere. So the rounds that the loop is given never run out.
pub decode_sections_iff_Outcome :
    (m : WasmModule) (b : Buffer) (r : Result (WasmModule × Buffer))
    → (decode_sections m b ≡ r) ↔ Outcome m b r
unfolding decode_sections
decode_sections_iff_Outcome m b r = (
  λ e. subst (Outcome m b) e (loop-Outcome (b.limit - b.pos + 1) m b (omega arith)),
  Outcome-loop m b r,
)
