-- ===== src/Views/Blocks.antt =====
-- The list of scopes of src/views.cpp under the changes that the walk makes.
use wasm_instrument.Prelude.{
  ℕ, zero, suc, ◌<◌, ◌≡◌, ◌≢◌, ◌⊎◌, refl, ap, ◌∙◌, inl, inr, List, [], ◌∷◌, ◌++◌, map, Option, none,
  some, length, get_elem?, All, arith,
}
use wasm_instrument.Views.{ScopeBlock, update_at, add_subscopes}

pub length-update_at :
    (f : ScopeBlock → ScopeBlock) (i : ℕ) (ss : List ScopeBlock)
    → length (update_at f i ss) ≡ length ss
unfolding update_at
length-update_at f i [] = refl
length-update_at f zero (s ∷ ss) = refl
length-update_at f (suc i) (s ∷ ss) = ap suc (length-update_at f i ss)

pub length-add_subscopes :
    (scp : ℕ) (pars : List ℕ) (ss : List ScopeBlock)
    → length (add_subscopes scp pars ss) ≡ length ss
unfolding add_subscopes
length-add_subscopes scp [] ss = refl
length-add_subscopes scp (p ∷ ps) ss =
    length-add_subscopes scp ps (update_at _ p ss) ∙ length-update_at _ p ss

pub All-update_at {ℓ} :
    (P : ScopeBlock → Type ℓ) (f : ScopeBlock → ScopeBlock) (i : ℕ) (ss : List ScopeBlock)
    → ((s : ScopeBlock) → P s → P (f s))
    → All P ss
    → All P (update_at f i ss)
unfolding update_at
All-update_at P f i [] h all = tt
All-update_at P f zero (s ∷ ss) h (here, later) = (h s here, later)
All-update_at P f (suc i) (s ∷ ss) h (here, later) = (here, All-update_at P f i ss h later)

pub All-add_subscopes {ℓ} :
    (P : ScopeBlock → Type ℓ) (scp : ℕ) (pars : List ℕ) (ss : List ScopeBlock)
    → ((s : ScopeBlock) (subs : List ℕ) → P s → P (record s { subscopes = subs }))
    → All P ss
    → All P (add_subscopes scp pars ss)
unfolding add_subscopes
All-add_subscopes P scp [] ss h all = all
All-add_subscopes P scp (p ∷ ps) ss h all =
    All-add_subscopes P scp ps _ h (All-update_at P _ p ss (λ s. h s _) all)

pub All-snoc {ℓ κ} :
    {A : Type ℓ} (P : A → Type κ) (xs : List A) (x : A) → All P xs → P x → All P (xs ++ x ∷ [])
All-snoc P [] x h last = (last, tt)
All-snoc P (y ∷ ys) x (here, later) last = (here, All-snoc P ys x later last)

pub All-weaken {ℓ κ} :
    {A : Type ℓ} (P Q : A → Type κ) (xs : List A) → ((x : A) → P x → Q x) → All P xs → All Q xs
All-weaken P Q [] h all = tt
All-weaken P Q (x ∷ xs) h (here, later) = (h x here, All-weaken P Q xs h later)

pub All-get_elem? {ℓ κ} :
    {A : Type ℓ} (P : A → Type κ) (xs : List A) (i : ℕ)
    → All P xs
    → i < length xs
    → (x : A) × (get_elem? xs i ≡ some x) × P x
All-get_elem? P [] i all h = absurd (omega arith)
All-get_elem? P (x ∷ xs) zero (here, later) h = (x, refl, here)
All-get_elem? P (x ∷ xs) (suc i) (here, later) h = All-get_elem? P xs i later (omega arith)

abbrev pub Among : ℕ → List ℕ → Type 0
Among j [] = ⊥
Among j (d ∷ ds) = (j ≡ d) ⊎ Among j ds

abbrev pub ends : List ScopeBlock → List (Option ℕ)
ends ss = map (λ s. s.end) ss

-- The scopes without an end are open.
abbrev pub Open : List (Option ℕ) → List ℕ → Type 0
Open es ds = (j : ℕ) → get_elem? es j ≡ some none → Among j ds

pub ends-update_at :
    (f : ScopeBlock → ScopeBlock) (i : ℕ) (ss : List ScopeBlock)
    → ((s : ScopeBlock) → (f s).end ≡ s.end)
    → ends (update_at f i ss) ≡ ends ss
unfolding update_at
ends-update_at f i [] h = refl
ends-update_at f zero (s ∷ ss) h = ap (λ e. e ∷ ends ss) (h s)
ends-update_at f (suc i) (s ∷ ss) h = ap (◌∷◌ s.end) (ends-update_at f i ss h)

pub ends-add_subscopes :
    (scp : ℕ) (pars : List ℕ) (ss : List ScopeBlock) → ends (add_subscopes scp pars ss) ≡ ends ss
unfolding add_subscopes
ends-add_subscopes scp [] ss = refl
ends-add_subscopes scp (p ∷ ps) ss =
    ends-add_subscopes scp ps (update_at _ p ss) ∙ ends-update_at _ p ss (λ s. refl)

-- A new scope has no end, and stands last.
pub pushed-Open :
    (ss : List ScopeBlock) (s : ScopeBlock) (j : ℕ)
    → get_elem? (ends (ss ++ s ∷ [])) j ≡ some none
    → (j ≡ length ss) ⊎ (get_elem? (ends ss) j ≡ some none)
pushed-Open [] s zero h = inl refl
pushed-Open [] s (suc j) h = cc
pushed-Open (t ∷ ss) s zero h = inr h
pushed-Open (t ∷ ss) s (suc j) h = elim (pushed-Open ss s j h) [
  | inl last ↦ inl (ap suc last)
  | inr before ↦ inr before
]

-- The scope that gets an end is not among those without one.
pub ended-Open :
    (i d : ℕ) (ss : List ScopeBlock) (j : ℕ)
    → get_elem? (ends (update_at (λ s. record s { end = some i }) d ss)) j ≡ some none
    → (j ≢ d) × (get_elem? (ends ss) j ≡ some none)
unfolding update_at
ended-Open i d [] j h = cc
ended-Open i zero (s ∷ ss) zero h = cc
ended-Open i zero (s ∷ ss) (suc j) h = (λ e. omega arith, h)
ended-Open i (suc d) (s ∷ ss) zero h = (λ e. omega arith, h)
ended-Open i (suc d) (s ∷ ss) (suc j) h =
    let (apart, was) = ended-Open i d ss j h in (λ e. omega arith, was)
