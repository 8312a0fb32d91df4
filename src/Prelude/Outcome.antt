-- ===== src/Prelude/Outcome.antt =====
-- How a Go call ends: with a value, with an error value, or in a panic; and calls that change a
-- state on the way. The state that an error leaves behind is kept; a panic ends the process.
use mathlib.Core.Path.{◌≡◌, refl}
use mathlib.Core.Logic.{◌⊎◌, inl, inr}

pub data Outcome {ℓ κ} (E : Type ℓ) (A : Type κ) : Type (ℓ ⊔ κ) where
  ok : A → Outcome E A
  err : E → Outcome E A
  panic : Outcome E A

-- `abbrev`, so that `ok a >>= f` computes wherever it stands.
infixl 5 ◌>>=◌
abbrev pub ◌>>=◌ {ℓ κ μ} :
    {E : Type ℓ} {A : Type κ} {B : Type μ} → Outcome E A → (A → Outcome E B) → Outcome E B
ok a >>= f = f a
err e >>= f = err e
panic >>= f = panic

-- A call on a state: the state after it, and how it ended.
abbrev pub Op {ℓ κ μ} : Type ℓ → Type κ → Type μ → Type (ℓ ⊔ κ ⊔ μ)
Op S E A = S → S × Outcome E A

-- The rest of a call, if it comes to that.
abbrev pub after {ℓ κ μ ν} :
    {S : Type ℓ} {E : Type κ} {A : Type μ} {B : Type ν}
    → S × Outcome E A
    → (S → A → S × Outcome E B)
    → S × Outcome E B
after (s, ok a) f = f s a
after (s, err e) f = (s, err e)
after (s, panic) f = (s, panic)

-- To split on how a call ended and keep the equation.
pub Outcome-cases {ℓ κ} :
    {E : Type ℓ} {A : Type κ} (o : Outcome E A)
    → ((a : A) × (o ≡ ok a)) ⊎ (((e : E) × (o ≡ err e)) ⊎ (o ≡ panic))
Outcome-cases (ok a) = inl (a, refl)
Outcome-cases (err e) = inr (inl (e, refl))
Outcome-cases panic = inr (inr refl)

-- A call that ends well: its first part did, and the rest followed.
pub after-ok {ℓ κ μ ν} :
    {S : Type ℓ} {E : Type κ} {A : Type μ} {B : Type ν} (x : S × Outcome E A)
    (f : S → A → S × Outcome E B) (b : B)
    → (after x f).1 ≡ ok b
    → (a : A) × (x.1 ≡ ok a) × (after x f ≡ f x.0 a)
after-ok (s, ok a) f b e = (a, refl, refl)
after-ok (s, err m) f b e = absurd (cc (e))
after-ok (s, panic) f b e = absurd (cc (e))

-- The state after a call in two parts: that of the first part, or that of the second.
pub after-either {ℓ κ μ ν} :
    {S : Type ℓ} {E : Type κ} {A : Type μ} {B : Type ν} (x : S × Outcome E A)
    (f : S → A → S × Outcome E B)
    → ((after x f).0 ≡ x.0) ⊎ ((a : A) × ((after x f).0 ≡ (f x.0 a).0))
after-either (s, ok a) f = inr (a, refl)
after-either (s, err m) f = inl refl
after-either (s, panic) f = inl refl
