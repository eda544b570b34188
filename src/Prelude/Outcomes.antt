-- ===== src/Prelude/Outcomes.antt =====
-- What a call can end with: a value with a property, or an exception with one.
use mathlib.Core.Logic.{◌⊎◌, inl, inr}
use mathlib.Core.Bool.{Bool, true, false}
use cloudops_guard.Prelude.{if◌then◌else◌}
use mathlib.Core.Path.{◌≡◌, sym, subst}
use cloudops_guard.Prelude.Result.{Result, Exn, ok, err, ◌>>=◌}

abbrev pub Ends {ℓ κ μ} :
    {A : Type ℓ} (P : A → Type κ) (E : Exn → Type μ) (r : Result A) → Type (ℓ ⊔ κ ⊔ μ)
Ends {A = A} P E r = ((a : A) × ((r ≡ ok a) × P a)) ⊎ ((x : Exn) × ((r ≡ err x) × E x))

module _ {ℓ κ μ ν ρ} {A : Type ℓ} {B : Type κ} {P : A → Type μ} {Q : B → Type ν}
    {E : Exn → Type ρ} where
  pub chain :
      (r : Result A) (f : A → Result B)
      → Ends P E r
      → ((a : A) → P a → Ends Q E (f a))
      → Ends Q E (r >>= f)
  chain (ok a) f (inl (b, (same, p))) next = next a (subst P (sym (cc same)) p)
  chain (ok a) f (inr (x, (bad, e))) next = cc bad
  chain (err y) f (inl (b, (same, p))) next = cc same
  chain (err y) f (inr (x, (bad, e))) next = inr (x, (cc bad, e))

-- With weaker properties, and of a test.
pub widen {ℓ κ μ ν} :
    {A : Type ℓ} {P : A → Type κ} {E : Exn → Type μ} {F : Exn → Type ν} (r : Result A)
    → ((x : Exn) → E x → F x)
    → Ends P E r
    → Ends P F r
widen r weaker (inl found) = inl found
widen r weaker (inr (x, (bad, e))) = inr (x, (bad, weaker x e))

pub branches {ℓ κ μ} :
    {A : Type ℓ} {P : A → Type κ} {E : Exn → Type μ} (b : Bool) (r q : Result A)
    → Ends P E r
    → Ends P E q
    → Ends P E (if b then r else q)
branches true r q left right = left
branches false r q left right = right
