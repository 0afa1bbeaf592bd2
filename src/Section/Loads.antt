-- ===== src/Section/Loads.antt =====
-- The loading of a module, of WasmModule::decode_buffer of src/parse.cpp, as a relation: which
-- sections were read, in their order.
use wasm_instrument.Prelude.{
  ℕ, ◌+◌, ◌≤◌, ◌<◌, ◌≡◌, refl, sym, ap, Bool, ◌∙◌, List, [], ◌∷◌, true, false, arith, ==_iff, ◌==◌,
}
use wasm_instrument.Prelude.Result.{
  Result, ok, undefined, >>=-ok, Error, require, section_alignment,
}
use wasm_instrument.Prelude.Result
use wasm_instrument.Buffer.{Buffer, ◌>>=◌, read_u8, read_u32leb}
use wasm_instrument.Buffer.Moves.{Moved, read_u8-Moved, read_u32leb-Moved}
use wasm_instrument.Ir.{WasmModule}
use wasm_instrument.Section.Load.{decode_section, framed_section, read_section}

-- The buffer of a section's content.
abbrev pub content : Buffer → ℕ → Buffer
content b len = record { rest = b.rest; pos = 0; limit = len }

-- One section as decode_buffer frames it: its id, its length, and its content in a buffer of its
-- own, whose decoder ends at the length and no earlier or later.
pub record Framed (m : WasmModule) (b : Buffer) (section_id : ℕ) (k : WasmModule) (c : Buffer)
    : Type 0 where
  pub behind_id : Buffer
  pub id_read : read_u8 b ≡ ok (section_id, behind_id)
  pub len : ℕ
  pub behind_len : Buffer
  pub len_read : read_u32leb behind_id ≡ ok (len, behind_len)
  pub content_end : Buffer
  pub content_read : decode_section m section_id len (content behind_len len) ≡ ok (k, content_end)
  pub aligned : content_end.pos ≡ len
  pub goes_on : c ≡ record behind_len { rest = content_end.rest; pos = behind_len.pos + len }

-- A run over the sections whose ids are listed, from one module and pointer to another.
pub data Loads : WasmModule → Buffer → List ℕ → WasmModule → Buffer → Type 0 where
  done : {m : WasmModule} {b : Buffer} → b.limit ≤ b.pos → Loads m b [] m b
  next :
      {m k l : WasmModule} {b c d : Buffer} {section_id : ℕ} {ids : List ℕ}
      → b.pos < b.limit
      → Framed m b section_id k c
      → Loads k c ids l d
      → Loads m b (section_id ∷ ids) l d

passed :
    (e : Error) (holds : Bool) (m k : WasmModule) (b c : Buffer)
    → ◌≡◌ {A = Result (WasmModule × Buffer)} (Result.◌>>◌ (require e holds) (ok (m, b))) (ok (k, c))
    → (holds ≡ true) × (m ≡ k) × (b ≡ c)
passed e false m k b c h = cc
passed e true m k b c h = (refl, cc, cc)

pub read_section-Framed :
    (m k : WasmModule) (b c h : Buffer) (section_id : ℕ)
    → read_u8 b ≡ ok (section_id, h)
    → read_section m b ≡ ok (k, c)
    → Framed m b section_id k c
unfolding read_section framed_section
read_section-Framed m k b c h section_id first e =
    let e' : (read_u32leb >>= λ len. framed_section m section_id len) h ≡ ok (k, c) =
      rw (read_section, first) at e in
    let ((len, i), second, e'') = >>=-ok (read_u32leb h) _ e' in
    let ((after, d), known, end) = >>=-ok (decode_section m section_id len (content i len)) _ e'' in
    let (aligned, same_m, same_c) = passed section_alignment (d.pos == len) after k _ c end in
    let ends : d.pos ≡ len = (==_iff _ _).0 aligned in
    record {
      behind_id = h;
      id_read = first;
      len = len;
      behind_len = i;
      len_read = second;
      content_end = d;
      content_read = known ∙ ap (λ x. ok (x, d)) same_m;
      aligned = ends;
      goes_on = sym same_c ∙ ap (λ n. record i { rest = d.rest; pos = i.pos + n }) ends;
    }

pub Framed-read_section :
    (m k : WasmModule) (b c : Buffer) (section_id : ℕ)
    → Framed m b section_id k c
    → read_section m b ≡ ok (k, c)
unfolding read_section framed_section
Framed-read_section m k b c section_id f =
    let here : (f.content_end.pos == f.len) ≡ true = (==_iff _ _).1 f.aligned in
    rw (f.id_read, f.len_read, f.content_read, here, f.goes_on, f.aligned) refl

-- A section takes a byte at least.
pub Framed-Moved :
    (m k : WasmModule) (b c : Buffer) (section_id : ℕ)
    → b.pos < b.limit
    → Framed m b section_id k c
    → Moved 1 b c
Framed-Moved m k b c section_id inside f =
    let one = read_u8-Moved b f.behind_id section_id inside f.id_read in
    let two = read_u32leb-Moved f.behind_id f.behind_len f.len f.len_read in
    rw f.goes_on
      (record { on = omega (arith, one.on, two.on); same_end = two.same_end ∙ one.same_end })

pub Loads-limit :
    (m k : WasmModule) (b c : Buffer) (ids : List ℕ) → Loads m b ids k c → c.limit ≡ b.limit
Loads-limit m k b c [] (Loads.done out) = refl
Loads-limit m k b c (section_id ∷ ids) (Loads.next {k = after} {c = d} inside read run) =
    let moved = Framed-Moved m after b d section_id inside read in
    Loads-limit after k d c ids run ∙ moved.same_end
