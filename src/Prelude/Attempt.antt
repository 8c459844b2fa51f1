-- ===== src/Prelude/Attempt.antt =====
-- A step of code that may panic, or give up with an error, or go on with a value.
use mathlib.Core.Path.{◌≡◌, refl, subst}
use mathlib.Core.Option.{Option, none, some}

pub data Attempt {ℓ κ} (E : Type ℓ) (A : Type κ) : Type (ℓ ⊔ κ) where
  panic : Attempt E A
  stop : E → Attempt E A
  go : A → Attempt E A

infixl 5 ◌>>=◌
abbrev pub ◌>>=◌ {ℓ κ μ} :
    {E : Type ℓ} {A : Type κ} {B : Type μ} → Attempt E A → (A → Attempt E B) → Attempt E B
panic >>= next = panic
stop exit >>= next = stop exit
go value >>= next = next value

-- `.expect(…)`
abbrev pub expect {ℓ κ} : {E : Type ℓ} {A : Type κ} → Option A → Attempt E A
expect none = panic
expect (some a) = go a

-- What holds of the error that a step stops with, and of the value that it goes on with.
abbrev pub Ends {ℓ κ μ} :
    {E : Type ℓ} {A : Type κ} → (E → Type μ) → (A → Type μ) → Attempt E A → Type μ
Ends S P panic = Unit
Ends S P (stop exit) = S exit
Ends S P (go value) = P value

pub Ends->>= {ℓ κ ν μ} :
    {E : Type ℓ} {A : Type κ} {B : Type ν} (S : E → Type μ) (P : A → Type μ) (Q : B → Type μ)
    (step : Attempt E A) (next : A → Attempt E B)
    → Ends S P step
    → ((value : A) → P value → Ends S Q (next value))
    → Ends S Q (step >>= next)
Ends->>= S P Q panic next h k = tt
Ends->>= S P Q (stop exit) next h k = h
Ends->>= S P Q (go value) next h k = k value h

-- What holds of the value, if there is one.
abbrev pub IfSome {κ μ} : {A : Type κ} → (A → Type μ) → Option A → Type μ
IfSome P none = Unit
IfSome P (some value) = P value

pub Ends-expect {ℓ κ μ} :
    {E : Type ℓ} {A : Type κ} (S : E → Type μ) (P : A → Type μ) (step : Option A)
    → IfSome P step
    → Ends S P (expect step)
Ends-expect S P none h = tt
Ends-expect S P (some value) h = h

pub Ends-map {ℓ κ μ} :
    {E : Type ℓ} {A : Type κ} (S : E → Type μ) (P Q : A → Type μ) (step : Attempt E A)
    → Ends S P step
    → ((value : A) → P value → Q value)
    → Ends S Q step
Ends-map S P Q panic h k = tt
Ends-map S P Q (stop exit) h k = h
Ends-map S P Q (go value) h k = k value h

-- After a value that may be missing, with the equation that tells where it comes from.
pub Ends-any {ℓ κ ν μ} :
    {E : Type ℓ} {A : Type κ} {B : Type ν} (S : E → Type μ) (Q : B → Type μ) (step : Option A)
    (next : A → Attempt E B)
    → ((value : A) → step ≡ some value → Ends S Q (next value))
    → Ends S Q (expect step >>= next)
Ends-any S Q none next k = tt
Ends-any S Q (some value) next k = k value refl

-- After a value that is known.
pub Ends-known {ℓ κ ν μ} :
    {E : Type ℓ} {A : Type κ} {B : Type ν} (S : E → Type μ) (Q : B → Type μ) (step : Option A)
    (next : A → Attempt E B) (value : A)
    → step ≡ some value
    → Ends S Q (next value)
    → Ends S Q (expect step >>= next)
Ends-known S Q none next value e h = cc
Ends-known S Q (some found) next value e h =
    let same : value ≡ found = cc in subst (λ v. Ends S Q (next v)) same h
