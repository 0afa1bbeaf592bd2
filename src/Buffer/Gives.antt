-- ===== src/Buffer/Gives.antt =====
-- What a reader's value satisfies wherever it gives one.
use mathlib.Core.Path.{subst}
use wasm_instrument.Prelude.{◌≡◌}
use wasm_instrument.Prelude.Result.{Result, ok, throw, undefined, Error, >>=-ok}
use wasm_instrument.Buffer.{Buffer, Parser, pure, raise, lift, ◌>>=◌}

abbrev pub Gives {ℓ κ} : {A : Type ℓ} → Parser A → (A → Type κ) → Type (ℓ ⊔ κ)
Gives {A = A} p P = (b c : Buffer) (a : A) → p b ≡ ok (a, c) → P a

pub Gives-pure {ℓ κ} : {A : Type ℓ} (P : A → Type κ) (a : A) → P a → Gives (pure a) P
Gives-pure {A = A} P a h b c x e = subst P (value e) h
  where
    value : ◌≡◌ {A = Result (A × Buffer)} (ok (a, b)) (ok (x, c)) → a ≡ x
    value e = cc

pub Gives-raise {ℓ κ} : {A : Type ℓ} (P : A → Type κ) (e : Error) → Gives (raise e) P
Gives-raise {A = A} P e b c x h = absurd (never h)
  where
    never : ◌≡◌ {A = Result (A × Buffer)} (throw e) (ok (x, c)) → ⊥
    never h = cc

pub Gives-bind {ℓ κ μ ν} :
    {A : Type ℓ} {B : Type κ} (p : Parser A) (f : A → Parser B) (P : A → Type μ) (Q : B → Type ν)
    → Gives p P
    → ((a : A) → P a → Gives (f a) Q)
    → Gives (p >>= f) Q
Gives-bind p f P Q first after b d y e =
    let ((a, c), here, there) = >>=-ok (p b) (λ (a, c). f a c) e in
    after a (first b c a here) c d y there

-- Of the first nothing need be known.
pub Gives-after {ℓ κ ν} :
    {A : Type ℓ} {B : Type κ} (p : Parser A) (f : A → Parser B) (Q : B → Type ν)
    → ((a : A) → Gives (f a) Q)
    → Gives (p >>= f) Q
Gives-after p f Q after b d y e =
    let ((a, c), here, there) = >>=-ok (p b) (λ (a, c). f a c) e in after a c d y there

pub lift-Gives {ℓ κ} :
    {A : Type ℓ} (r : Result A) (P : A → Type κ) → ((a : A) → r ≡ ok a → P a) → Gives (lift r) P
lift-Gives {A = A} r P h b c x e =
    let (a, known, after) = >>=-ok r (λ a. ok (a, b)) e in subst P (value a after) (h a known)
  where
    value : (a : A) → ◌≡◌ {A = Result (A × Buffer)} (ok (a, b)) (ok (x, c)) → a ≡ x
    value a e = cc

pub Gives-undefined {ℓ κ} : {A : Type ℓ} (P : A → Type κ) → Gives (lift undefined) P
Gives-undefined {A = A} P b c x e = absurd (never e)
  where
    never : ◌≡◌ {A = Result (A × Buffer)} undefined (ok (x, c)) → ⊥
    never e = cc
