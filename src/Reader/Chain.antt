-- ===== src/Reader/Chain.antt =====
-- What holds at the end of a chain of steps that may fail.
use homebase.Prelude.{◌≡◌, refl, subst, Option, none, some}
use homebase.Prelude.Attempt.{IfSome}
use homebase.Reader.{◌>>=◌}

-- What follows from what holds of the first step's value.
pub IfSome->>= {κ μ} :
    {A : Type 0} {B : Type κ} (P : A → Type μ) (Q : B → Type μ) (step : Option A)
    (next : A → Option B)
    → IfSome P step
    → ((value : A) → P value → IfSome Q (next value))
    → IfSome Q (step >>= next)
IfSome->>= P Q none next h k = tt
IfSome->>= P Q (some value) next h k = k value h

-- Nothing is known of the step's value.
pub IfSome-any {κ μ} :
    {A : Type 0} {B : Type κ} (Q : B → Type μ) (step : Option A) (next : A → Option B)
    → ((value : A) → IfSome Q (next value))
    → IfSome Q (step >>= next)
IfSome-any Q none next k = tt
IfSome-any Q (some value) next k = k value

-- With the equation that tells where the value comes from.
pub IfSome-eq {κ μ} :
    {A : Type 0} {B : Type κ} (Q : B → Type μ) (step : Option A) (next : A → Option B)
    → ((value : A) → step ≡ some value → IfSome Q (next value))
    → IfSome Q (step >>= next)
IfSome-eq Q none next k = tt
IfSome-eq Q (some value) next k = k value refl

pub IfSome-known {κ μ} :
    {A : Type 0} {B : Type κ} (Q : B → Type μ) (step : Option A) (next : A → Option B) (value : A)
    → step ≡ some value
    → IfSome Q (next value)
    → IfSome Q (step >>= next)
IfSome-known Q none next value e h = cc
IfSome-known Q (some found) next value e h =
    let same : value ≡ found = cc in subst (λ v. IfSome Q (next v)) same h

pub IfSome-elim {κ μ} :
    {A : Type κ} (Q : A → Type μ) (step : Option A) (value : A)
    → IfSome Q step
    → step ≡ some value
    → Q value
IfSome-elim Q none value h e = cc
IfSome-elim Q (some found) value h e = let same : found ≡ value = cc in subst Q same h
