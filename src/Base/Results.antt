-- ===== src/Base/Results.antt =====
-- A computation that may raise: a value, or the exception.
use mathlib.Core.Path.{◌≡◌, refl}
use mathlib.Core.Bool.{Bool, true, false}
use mathlib.Core.Logic.{◌⊎◌, inl, inr}

pub data Outcome {ℓ} (E A : Type ℓ) : Type ℓ where
  ok : A → Outcome E A
  err : E → Outcome E A

infixl 5 ◌>>=◌ ◌>>◌
abbrev pub ◌>>=◌ {ℓ} : {E A B : Type ℓ} → Outcome E A → (A → Outcome E B) → Outcome E B
ok a >>= f = f a
err e >>= f = err e

abbrev pub ◌>>◌ {ℓ} : {E A B : Type ℓ} → Outcome E A → Outcome E B → Outcome E B
m >> k = m >>= λ _. k

-- `if test: raise e`
unfoldable pub raise_if : {E : Type 0} → Bool → E → Outcome E (Unit {0})
raise_if true e = err e
raise_if false e = ok tt

-- Inversion of a bind that returned.
pub >>=-eq-ok {ℓ} :
    {E X Y : Type ℓ} (first : Outcome E X) (next : X → Outcome E Y) {y : Y}
    → (first >>= next) ≡ ok y
    → (x : X) × (first ≡ ok x) × (next x ≡ ok y)
>>=-eq-ok (ok x) next returned = (x, refl, returned)
>>=-eq-ok (err e) next returned = cc

pub raise_if-passed :
    {E B : Type 0} (c : Bool) (e : E) (m : Outcome E B) {b : B}
    → (raise_if c e >>= λ _. m) ≡ ok b
    → (c ≡ false) × (m ≡ ok b)
unfolding raise_if
raise_if-passed true e m h = cc
raise_if-passed false e m h = (refl, h)

pub ok-injective {ℓ} : {E A : Type ℓ} {a b : A} → ◌≡◌ {A = Outcome E A} (ok a) (ok b) → a ≡ b
ok-injective h = cc

-- The same in a proof that goes on with the value as a variable.
pub >>=-elim {ℓ κ} :
    {E X Y : Type ℓ} {G : Type κ} (first : Outcome E X) (next : X → Outcome E Y) {y : Y}
    → (first >>= next) ≡ ok y
    → ((x : X) → first ≡ ok x → next x ≡ ok y → G)
    → G
>>=-elim (ok x) next returned goal = goal x refl returned
>>=-elim (err e) next returned goal = absurd (cc returned)

pub Outcome-cases {ℓ} :
    {E A : Type ℓ} (m : Outcome E A) → ((a : A) × (m ≡ ok a)) ⊎ ((e : E) × (m ≡ err e))
Outcome-cases (ok a) = inl (a, refl)
Outcome-cases (err e) = inr (e, refl)
