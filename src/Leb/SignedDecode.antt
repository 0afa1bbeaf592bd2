-- ===== src/Leb/SignedDecode.antt =====
-- The decoder on the groups of a signed number.
use native.Mathlib.Nat.{
  pow-le-pow_right, mod-eq_of_lt, mul-div_cancel, mod-add-div', mod-lt, mul-add-mod_self_right,
}
use wasm_instrument.Prelude.{
  ℕ, zero, suc, ◌+◌, ◌-◌, ◌*◌, ◌/◌, ◌%◌, ◌^◌, ◌≤◌, ◌<◌, bit_and, bit_or, ◌≡◌, refl, ap, sym, List,
  [], ◌∷◌, ◌++◌, arith, true, ◌==◌, length, ap₂, ◌∙◌,
}
use wasm_instrument.Prelude.Bits.{pow_add, pow_pos, or_fields}
use wasm_instrument.Prelude.Result.{ok}
use wasm_instrument.Leb.{good, finish, asr, last_byte, decode_loop}
use wasm_instrument.Leb.Steps.{decode_more, decode_stop, decode_last}

-- `x >> k` on a pattern whose sign is known.
asr_small : (w k x : ℕ) → x < 2 ^ (w - 1) → asr w k x ≡ x / 2 ^ k
asr_small w k x h = ground arith

asr_large : (w k x : ℕ) → 2 ^ (w - 1) ≤ x → asr w k x ≡ x / 2 ^ k + (2 ^ w - 2 ^ (w - k))
asr_large w k x h = ground arith

scale_le : (a b p : ℕ) → a ≤ b → a * p ≤ b * p
scale_le a b p h = grind arith

-- The powers of two around bit s of a w-bit type, with `rem` bits above the group.
powers :
    (w s : ℕ)
    → s + 7 ≤ w
    → (2 ^ w ≡ 128 * 2 ^ s * 2 ^ (w - (s + 7)))
      × (2 ^ w ≡ 2 * 2 ^ (w - 1))
      × (0 < 2 ^ (w - (s + 7)))
      × (2 ^ (w - (w - (s + 7))) ≡ 128 * 2 ^ s)
powers w s room =
    let rem = w - (s + 7) in
    let whole : s + 7 + rem ≡ w = omega arith in
    let top : 1 + (w - 1) ≡ w = omega arith in
    let back : w - rem ≡ s + 7 = omega arith in
    let group : 2 ^ (s + 7) ≡ 128 * 2 ^ s = omega (arith, pow_add s 7) in
    let split : 2 ^ w ≡ 2 ^ (s + 7) * 2 ^ rem = rw whole at (pow_add (s + 7) rem) in
    (
      omega (arith, ap (λ (t : ℕ). t * 2 ^ rem) group),
      omega (arith, rw top at (pow_add 1 (w - 1))),
      pow_pos rem,
      rw back group,
    )

group_le : (w s : ℕ) → s + 7 ≤ w → 128 * 2 ^ s ≤ 2 ^ w
group_le w s e =
    let grows : 2 ^ (s + 7) ≤ 2 ^ w = pow-le-pow_right {n = 2} (omega arith) e in
    omega (arith, pow_add s 7)

-- What `x << s` keeps in a type that has m bits from bit s on.
shift_mod : (w s m x : ℕ) → s + m ≡ w → x * 2 ^ s % 2 ^ w ≡ x % 2 ^ m * 2 ^ s
shift_mod w s m x e =
    let q = x / 2 ^ m in
    let z = x % 2 ^ m in
    let whole : 2 ^ w ≡ 2 ^ m * 2 ^ s = omega (arith, rw e at (pow_add s m)) in
    let split : x * 2 ^ s ≡ q * 2 ^ w + z * 2 ^ s =
      omega
        (arith, ap (λ (t : ℕ). t * 2 ^ s) (mod-add-div' x (2 ^ m)), ap (λ (t : ℕ). q * t) whole) in
    let under : suc z * 2 ^ s ≤ 2 ^ m * 2 ^ s =
      scale_le (suc z) (2 ^ m) (2 ^ s) (mod-lt x (pow_pos m)) in
    rw split (
      mul-add-mod_self_right q (2 ^ w) (z * 2 ^ s)
      ∙ mod-eq_of_lt {n = z * 2 ^ s} {m = 2 ^ w} (omega (arith, pow_pos s)))

module _ (w mask legal : ℕ) (signed : bit_and 0x7f mask == legal ≡ true) where
  finish_pos : (y s : ℕ) → s + 7 ≤ w → y < 64 * 2 ^ s → finish w mask legal y (s + 7) ≡ y
  unfolding finish
  finish_pos y s room h =
      let p = 2 ^ (w - (s + 7)) in
      let facts = powers w s room in
      let scaled : suc y * p ≤ 64 * 2 ^ s * p = scale_le (suc y) (64 * 2 ^ s) p h in
      let low : y * p < 2 ^ (w - 1) = omega arith in
      rw
        (
          signed,
          mod-eq_of_lt {n = y * p} {m = 2 ^ w} (omega arith),
          asr_small w (w - (s + 7)) (y * p) low,
        )
        (mul-div_cancel y facts.2)

  finish_neg :
      (y s : ℕ)
      → s + 7 ≤ w
      → 64 * 2 ^ s ≤ y
      → y < 128 * 2 ^ s
      → finish w mask legal y (s + 7) ≡ y + (2 ^ w - 128 * 2 ^ s)
  unfolding finish
  finish_neg y s room lo hi =
      let p = 2 ^ (w - (s + 7)) in
      let facts = powers w s room in
      let above : 64 * 2 ^ s * p ≤ y * p = scale_le (64 * 2 ^ s) y p lo in
      let below : suc y * p ≤ 128 * 2 ^ s * p = scale_le (suc y) (128 * 2 ^ s) p hi in
      rw
        (
          signed,
          mod-eq_of_lt {n = y * p} {m = 2 ^ w} (omega arith),
          asr_large w (w - (s + 7)) (y * p) (omega arith),
          mul-div_cancel y facts.2,
          facts.3,
        )
        refl

  -- Decoding `bytes` at bit s, with r in the bits below, yields y.
  abbrev pub Yields : List ℕ → ℕ → List ℕ → ℕ → ℕ → ℕ → Type 0
  Yields bytes y rest s r n =
      (left : ℕ)
      → length bytes ≤ left
      → decode_loop w mask legal (bytes ++ rest) left r s n ≡ ok (good y (n + length bytes))

  pub stop_pos :
      (v : ℕ) (rest : List ℕ) (s r n : ℕ)
      → s + 7 ≤ w
      → v < 64
      → r < 2 ^ s
      → Yields (v ∷ []) (r + v * 2 ^ s) rest s r n
  stop_pos v rest s r n e h small zero fits = absurd (omega arith)
  stop_pos v rest s r n e h small (suc left) fits =
      let under : suc v * 2 ^ s ≤ 64 * 2 ^ s = scale_le (suc v) 64 (2 ^ s) h in
      rw
        (
          decode_stop w mask legal rest left r s n v (omega arith) small e,
          finish_pos (r + v * 2 ^ s) s e (omega arith),
        )
        refl

  pub stop_neg :
      (c y : ℕ) (rest : List ℕ) (s r n : ℕ)
      → s + 7 ≤ w
      → c < 64
      → r < 2 ^ s
      → y + suc c * 2 ^ s ≡ 2 ^ w + r
      → Yields ((127 - c) ∷ []) y rest s r n
  stop_neg c y rest s r n e h small val zero fits = absurd (omega arith)
  stop_neg c y rest s r n e h small val (suc left) fits =
      let x = 127 - c in
      let whole : 127 - c + suc c ≡ 128 = omega arith in
      let sum : x * 2 ^ s + suc c * 2 ^ s ≡ 128 * 2 ^ s =
        omega (arith, ap (λ (t : ℕ). t * 2 ^ s) whole) in
      let least : 64 * 2 ^ s ≤ x * 2 ^ s = scale_le 64 x (2 ^ s) (omega arith) in
      let under : suc x * 2 ^ s ≤ 128 * 2 ^ s = scale_le (suc x) 128 (2 ^ s) (omega arith) in
      rw
        (
          decode_stop w mask legal rest left r s n x (omega arith) small e,
          finish_neg (r + x * 2 ^ s) s e (omega arith) (omega arith),
        )
        (ap₂ (λ a b. ok (good a b)) (omega (arith, group_le w s e)) refl)

  pub more_group :
      (bytes : List ℕ) (x y : ℕ) (rest : List ℕ) (s r n : ℕ)
      → s + 7 ≤ w
      → x < 128
      → r < 2 ^ s
      → Yields bytes y rest (s + 7) (r + x * 2 ^ s) (n + 1)
      → Yields ((x + 128) ∷ bytes) y rest s r n
  more_group bytes x y rest s r n e h small next zero fits = absurd (omega arith)
  more_group bytes x y rest s r n e h small next (suc left) fits =
      decode_more w mask legal (bytes ++ rest) left r s n x h small e
      ∙ next left (omega arith)
      ∙ ap (λ m. ok (good y m)) (omega arith)

  -- The byte at the top of the type: only its low `suc m` bits are kept.
  pub top_group :
      (x z y m : ℕ) (rest : List ℕ) (s r n : ℕ)
      → s + suc m ≡ w
      → m < 6
      → x < 128
      → r < 2 ^ s
      → x % 2 ^ suc m ≡ z
      → y ≡ r + z * 2 ^ s
      → ((u j : ℕ) → last_byte mask legal x u j ≡ good u j)
      → Yields (x ∷ []) y rest s r n
  top_group x z y m rest s r n e lt h small low val accepted zero fits = absurd (omega arith)
  top_group x z y m rest s r n e lt h small low val accepted (suc left) fits =
      decode_last w mask legal rest left r s n x h small (omega arith)
      ∙ ap ok (
          accepted (bit_or r (x * 2 ^ s % 2 ^ w)) (n + 1)
          ∙ ap (λ u. good u (n + 1))
              (rw (shift_mod w s (suc m) x e, low) (or_fields s r z small ∙ sym val)))
