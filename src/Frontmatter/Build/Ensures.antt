-- ===== src/Frontmatter/Build/Ensures.antt =====
-- A step that answers with a property, or raises (app/services/frontmatter.py).
use vault_bridge.Base.{◌≡◌, ◌≢◌, refl, subst, Bool, true, false}
use vault_bridge.Frontmatter.{Diagnostic, Outcome, done, raised, out_of_fuel, ◌>>=◌}
use vault_bridge.Frontmatter.Build.{ensure}

-- The step has fuel enough, and what it answers has the property.
pub data Ensures {ℓ} {A : Type ℓ} (P : A → Type 0) : Outcome A → Type ℓ where
  holds : {a : A} → P a → Ensures P (done a)
  rejected : {d : Diagnostic} → Ensures P (raised d)

pub Ensures-bind {ℓ κ} :
    {A : Type ℓ} {B : Type κ} {P : A → Type 0} {Q : B → Type 0} {r : Outcome A} {f : A → Outcome B}
    → Ensures P r
    → ((a : A) → P a → Ensures Q (f a))
    → Ensures Q (r >>= f)
Ensures-bind (holds h) k = k _ h
Ensures-bind rejected k = rejected

pub Ensures-map {ℓ} :
    {A : Type ℓ} {P Q : A → Type 0} {r : Outcome A}
    → ((a : A) → P a → Q a)
    → Ensures P r
    → Ensures Q r
Ensures-map f (holds h) = holds (f _ h)
Ensures-map f rejected = rejected

pub Ensures-done {ℓ} :
    {A : Type ℓ} {P : A → Type 0} {r : Outcome A} {a : A} → Ensures P r → r ≡ done a → P a
Ensures-done {P} (holds h) e = subst P (cc) h
Ensures-done rejected e = cc

pub Ensures-fuel {ℓ} : {A : Type ℓ} {P : A → Type 0} {r : Outcome A} → Ensures P r → r ≢ out_of_fuel
Ensures-fuel (holds h) = cc
Ensures-fuel rejected = cc

pub ensure-holds : (b : Bool) (d : Diagnostic) → Ensures (λ _. b ≡ true) (ensure b d)
ensure-holds true d = holds refl
ensure-holds false d = rejected
