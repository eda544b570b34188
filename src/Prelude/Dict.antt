-- ===== src/Prelude/Dict.antt =====
-- Python's `dict`: `d.get(k)`, `k in d`, `d[k] = v`, `del d[k]` and `d.pop(k, None)`, `d.values()`.
-- A client has the representation for `values` alone, and the two laws for the rest.
use mathlib.Core.List.{List, [], ◌∷◌}
use mathlib.Core.Logic.{ite}
use mathlib.Core.Option.{Option, none, some}
use mathlib.Core.Path.{◌≡◌, refl}
use native.Mathlib.Omega.{arith}
use cloudops_guard.Prelude.Text.{DecEq, ◌≟◌}

pub record Dict {ℓ} (K V : Type ℓ) : Type ℓ where
  pub entries : List (K × V)

abbrev pub empty {ℓ} : {K V : Type ℓ} → Dict K V
empty = record { entries = [] }

module _ {ℓ} {K V : Type ℓ} ⦃e : DecEq K⦄ where
  unfoldable pub lookup : K → List (K × V) → Option V
  lookup k [] = none
  lookup k ((j, v) ∷ l) = ite (j ≟ k) (some v) (lookup k l)

  -- the value is replaced in place, and a new key goes to the end
  unfoldable pub insert : K → V → List (K × V) → List (K × V)
  insert k v [] = (k, v) ∷ []
  insert k v ((j, w) ∷ l) = let rest = insert k v l in ite (j ≟ k) ((j, v) ∷ l) ((j, w) ∷ rest)

  unfoldable pub without : K → List (K × V) → List (K × V)
  without k [] = []
  without k ((j, w) ∷ l) = let rest = without k l in ite (j ≟ k) rest ((j, w) ∷ rest)

  unfoldable pub get : Dict K V → K → Option V
  unfolding lookup
  get d k = lookup k d.entries

  unfoldable pub put : Dict K V → K → V → Dict K V
  unfolding insert
  put d k v = record { entries = insert k v d.entries }

  unfoldable pub remove : Dict K V → K → Dict K V
  unfolding without
  remove d k = record { entries = without k d.entries }

  pub lookup-insert :
      (k j : K) (v : V) (l : List (K × V))
      → lookup j (insert k v l) ≡ ite (k ≟ j) (some v) (lookup j l)
  unfolding lookup insert
  lookup-insert k j v [] = refl
  lookup-insert k j v ((i, w) ∷ l) = ground (arith, lookup-insert k j v l)

  pub lookup-without :
      (k j : K) (l : List (K × V)) → lookup j (without k l) ≡ ite (k ≟ j) none (lookup j l)
  unfolding lookup without
  lookup-without k j [] = ground arith
  lookup-without k j ((i, w) ∷ l) = ground (arith, lookup-without k j l)

  pub get-put :
      (d : Dict K V) (k j : K) (v : V) → get (put d k v) j ≡ ite (k ≟ j) (some v) (get d j)
  unfolding get put
  get-put d k j v = lookup-insert k j v d.entries

  pub get-remove : (d : Dict K V) (k j : K) → get (remove d k) j ≡ ite (k ≟ j) none (get d j)
  unfolding get remove
  get-remove d k j = lookup-without k j d.entries

module _ {ℓ} {K V : Type ℓ} ⦃e : DecEq K⦄ (d : Dict K V) (k : K) where
  pub get-put_self : (v : V) → get (put d k v) k ≡ some v
  get-put_self v = ground (arith, get-put d k k v)

  pub get-remove_self : get (remove d k) k ≡ none
  get-remove_self = ground (arith, get-remove d k k)

pub get-empty {ℓ} : {K V : Type ℓ} ⦃e : DecEq K⦄ (k : K) → get (empty {K = K} {V = V}) k ≡ none
unfolding get lookup
get-empty k = refl

pub ruleset dict_laws = (get-empty, get-put, get-remove)
