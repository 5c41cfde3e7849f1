-- ===== src/Base/Results.antt =====
-- Rust's `Result<A, E>`, with its `?` as a bind.
use mathlib.Core.Path.{◌≡◌, refl, ap, ◌∙◌}
use mathlib.Core.Logic.{◌⊎◌, inl, inr}
use mathlib.Core.Bool.{Bool, true, false}
use mathlib.Core.Option.{Option, none, some}

pub data Result {ℓ κ} (E : Type ℓ) (A : Type κ) : Type (ℓ ⊔ κ) where
  ok : A → Result E A
  err : E → Result E A

infixl 5 ◌>>=◌ ◌>>◌
abbrev pub ◌>>=◌ {ℓ κ ι} :
    {E : Type ℓ} {A : Type κ} {B : Type ι} → Result E A → (A → Result E B) → Result E B
ok a >>= f = f a
err e >>= f = err e

abbrev pub ◌>>◌ {ℓ κ} : {E : Type ℓ} {B : Type κ} → Result E (Unit {0}) → Result E B → Result E B
m >> k = m >>= λ _. k

-- `if !b { return Err(e) }`
abbrev pub guard {ℓ} : {E : Type ℓ} → Bool → E → Result E (Unit {0})
guard true e = ok tt
guard false e = err e

-- `Option::ok_or`
abbrev pub ok_or {ℓ κ} : {E : Type ℓ} {A : Type κ} → Option A → E → Result E A
ok_or none e = err e
ok_or (some a) e = ok a

pub ok-injective {ℓ κ} :
    {E : Type ℓ} {A : Type κ} {a b : A} → ◌≡◌ {A = Result E A} (ok a) (ok b) → a ≡ b
ok-injective {E} {A} {a} {b} h = cc h

-- `Result::map_err`
abbrev pub map_err {ℓ κ ι} :
    {E : Type ℓ} {D : Type κ} {A : Type ι} → (E → D) → Result E A → Result D A
map_err f (ok a) = ok a
map_err f (err e) = err (f e)

pub map_err-eq-ok {ℓ κ ι} :
    {E : Type ℓ} {D : Type κ} {A : Type ι} (f : E → D) (m : Result E A) {a : A}
    → map_err f m ≡ ok a
    → m ≡ ok a
map_err-eq-ok f (ok a) h = ap ok (ok-injective h)
map_err-eq-ok f (err e) h = cc

-- That a result is there.
abbrev pub Succeeds {ℓ κ} : {E : Type ℓ} {A : Type κ} → Result E A → Type (ℓ ⊔ κ)
Succeeds {A} m = (a : A) × (m ≡ ok a)

pub Succeeds-map_err {ℓ κ ι} :
    {E : Type ℓ} {D : Type κ} {A : Type ι} (f : E → D) {m : Result E A}
    → Succeeds m
    → Succeeds (map_err f m)
Succeeds-map_err f (a, h) = (a, ap (map_err f) h)

-- A chain succeeds if its first step does, and the rest after it.
pub Succeeds-bind {ℓ κ ι} :
    {E : Type ℓ} {A : Type κ} {B : Type ι} {m : Result E A} (f : A → Result E B) {a : A}
    → m ≡ ok a
    → Succeeds (f a)
    → Succeeds (m >>= f)
Succeeds-bind f h (b, k) = (b, ap (λ x. x >>= f) h ∙ k)

-- A chain that succeeds, taken apart.
module _ {ℓ κ ι} {E : Type ℓ} {A : Type κ} {B : Type ι} where
  pub bind-eq-ok :
      (m : Result E A) (f : A → Result E B) {b : B}
      → (m >>= f) ≡ ok b
      → (a : A) × (m ≡ ok a) × (f a ≡ ok b)
  bind-eq-ok (ok a) f h = (a, refl, h)
  bind-eq-ok (err e) f h = cc

pub Result-cases {ℓ κ} :
    {E : Type ℓ} {A : Type κ} (m : Result E A) → ((a : A) × (m ≡ ok a)) ⊎ ((e : E) × (m ≡ err e))
Result-cases (ok a) = inl (a, refl)
Result-cases (err e) = inr (e, refl)
