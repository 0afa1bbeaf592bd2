-- ===== src/Buffer/Moves.antt =====
-- How the readers of src/common.cpp move the pointer, and what numbers they give.
use wasm_instrument.Prelude.{
  ℕ, zero, suc, ◌+◌, ◌-◌, ◌^◌, ◌≤◌, ◌<◌, ◌≡◌, refl, sym, List, leb, arith, Bool-cases, inl, inr,
  Bool, true, false,
}
use wasm_instrument.Prelude.Result.{Result, ok, throw, Error, require, >>=-ok}
use wasm_instrument.Leb.{Leb, good, bad, decode_u32leb}
use wasm_instrument.Leb.Values.{decode_u32leb-lt}
use wasm_instrument.Buffer.{
  Buffer, after_leb, read_leb, read_u32leb, first_byte, read_u8, advance, read_u32, decode_u32,
  value, lift,
}
use wasm_instrument.Buffer.Gives.{Gives}

-- The pointer goes on by `least` bytes or more, and the end stays.
pub record Moved (least : ℕ) (b c : Buffer) : Type 0 where
  pub on : b.pos + least ≤ c.pos
  pub same_end : c.limit ≡ b.limit

after_leb-Moved : (b : Buffer) (d : Leb) → Moved 0 b (after_leb b d).1
unfolding after_leb
after_leb-Moved b (good v zero) = record { on = omega arith; same_end = refl }
after_leb-Moved b (good v (suc n)) = record { on = omega arith; same_end = refl }
after_leb-Moved b (bad n) = record { on = omega arith; same_end = refl }

read_leb-Moved :
    (decode : List ℕ → ℕ → Result Leb) (b c : Buffer) (v : ℕ)
    → read_leb decode b ≡ ok (v, c)
    → Moved 0 b c
unfolding read_leb
read_leb-Moved decode b c v e = elim (Bool-cases (leb b.limit b.pos)) [
  | inl out ↦ same (rw out at e)
  | inr inside ↦
      let (d, known, after) =
        >>=-ok (decode b.rest (b.limit - b.pos)) (λ d. ok (after_leb b d)) (rw inside at e) in
      next d after
]
  where
    same : ◌≡◌ {A = Result (ℕ × Buffer)} (ok (0, b)) (ok (v, c)) → Moved 0 b c
    same h = record { on = ground arith; same_end = cc }

    next : (d : Leb) → ok (after_leb b d) ≡ ok (v, c) → Moved 0 b c
    next d h = let there : (after_leb b d).1 ≡ c = cc in rw there at (after_leb-Moved b d)

pub read_u32leb-Moved : (b c : Buffer) (v : ℕ) → read_u32leb b ≡ ok (v, c) → Moved 0 b c
unfolding read_u32leb
read_u32leb-Moved b c v e = read_leb-Moved decode_u32leb b c v e

pub read_u8-Moved : (b c : Buffer) (v : ℕ) → b.pos < b.limit → read_u8 b ≡ ok (v, c) → Moved 1 b c
unfolding read_u8
read_u8-Moved b c v inside e =
    let out : leb b.limit b.pos ≡ false = ground arith in
    let (x, known, after) = >>=-ok (first_byte b.rest) (λ x. ok (x, advance 1 b)) (rw out at e) in
    next x after
  where
    next : (x : ℕ) → ◌≡◌ {A = Result (ℕ × Buffer)} (ok (x, advance 1 b)) (ok (v, c)) → Moved 1 b c
    next x h =
        let there : advance 1 b ≡ c = cc in
        rw (sym there) (record { on = omega arith; same_end = refl })

after_leb-lt :
    (b : Buffer) (bytes : List ℕ) (left : ℕ) (d : Leb)
    → decode_u32leb bytes left ≡ ok d
    → (after_leb b d).0 < 2 ^ 32
unfolding after_leb
after_leb-lt b bytes left (good v zero) e = decode_u32leb-lt bytes left v 0 e
after_leb-lt b bytes left (good v (suc n)) e = decode_u32leb-lt bytes left v (suc n) e
after_leb-lt b bytes left (bad n) e = omega arith

pub read_u32leb-Gives : Gives read_u32leb (λ v. v < 2 ^ 32)
unfolding read_u32leb read_leb
read_u32leb-Gives b c v e = elim (Bool-cases (leb b.limit b.pos)) [
  | inl out ↦ zero_given (rw out at e)
  | inr inside ↦
      let (d, known, after) =
        >>=-ok (decode_u32leb b.rest (b.limit - b.pos)) (λ d. ok (after_leb b d))
          (rw inside at e) in
      next d known after
]
  where
    zero_given : ◌≡◌ {A = Result (ℕ × Buffer)} (ok (0, b)) (ok (v, c)) → v < 2 ^ 32
    zero_given h = ground arith

    next :
        (d : Leb)
        → decode_u32leb b.rest (b.limit - b.pos) ≡ ok d
        → ok (after_leb b d) ≡ ok (v, c)
        → v < 2 ^ 32
    next d known h =
        let there : (after_leb b d).0 ≡ v = cc in
        rw there at (after_leb-lt b b.rest (b.limit - b.pos) d known)

pub read_u32-advance : (b c : Buffer) (v : ℕ) → read_u32 b ≡ ok (v, c) → advance 4 b ≡ c
unfolding read_u32
read_u32-advance b c v e =
    let (d, known, after) = >>=-ok (decode_u32 b.rest 4) (λ d. ok (value d, advance 4 b)) e in
    next d after
  where
    next :
        (d : Leb)
        → ◌≡◌ {A = Result (ℕ × Buffer)} (ok (value d, advance 4 b)) (ok (v, c))
        → advance 4 b ≡ c
    next d h = cc

-- A statement that is passed leaves the pointer.
pub require-passed :
    (e : Error) (t : Bool) (b c : Buffer) (u : Unit {0})
    → lift (require e t) b ≡ ok (u, c)
    → (t ≡ true) × (b ≡ c)
require-passed e true b c u h = (refl, cc)
require-passed e false b c u h = absurd (never h)
  where
    never : ◌≡◌ {A = Result (Unit {0} × Buffer)} (throw e) (ok (u, c)) → ⊥
    never h = cc
