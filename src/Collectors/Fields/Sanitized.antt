-- ===== src/Collectors/Fields/Sanitized.antt =====
-- collectors/gitlab.py: how the reading of a required field ends.
use cloudops_guard.Prelude.{
  leb, arith, Bool-cases, List, ltb, true, Option, none, some, ◌∷◌, ◌≡◌, refl, inl, inr,
}
use cloudops_guard.Prelude.Text.{Text, text_eq}
use cloudops_guard.Prelude.Result.{Result, Exn, gitlab_client_error}
use cloudops_guard.Prelude.Outcomes.{chain, Ends}
use cloudops_guard.Prelude.Json.{one_of, lookup_member, Members, Json}
use cloudops_guard.Collectors.Fields.{
  git_depth_max, require_nonempty_str_field, as_git_depth, as_positive_int, require_enum_field,
  refuse, as_bool, as_nonempty_str,
}
use cloudops_guard.Collectors.Settings.{depth_in_range, has_length}

abbrev pub IsClientError : Exn → Type 0
IsClientError x = x ≡ gitlab_client_error

-- It returns what has the property, or raises a `GitLabClientError`.
abbrev pub Sanitized {ℓ κ} : {A : Type ℓ} → (A → Type κ) → Result A → Type (ℓ ⊔ κ)
Sanitized P r = Ends P IsClientError r

abbrev pub Anything {ℓ} : {A : Type ℓ} → A → Type 0
Anything a = Unit

pub refused {ℓ κ} : {A : Type ℓ} (P : A → Type κ) → Sanitized P (refuse {A = A})
refused P = inr (gitlab_client_error, (refl, refl))

pub bool-Sanitized : (o : Option Json) → Sanitized Anything (as_bool o)
bool-Sanitized (some (Json.boolean b)) = inl (b, (refl, tt))
bool-Sanitized _ = refused Anything

abbrev pub IsNonempty : Text → Type 0
IsNonempty t = has_length t ≡ true

pub str-Sanitized : (o : Option Json) → Sanitized IsNonempty (as_nonempty_str o)
str-Sanitized (some (Json.string (c ∷ t))) = inl (c ∷ t, (refl, refl))
str-Sanitized _ = refused IsNonempty

pub int-Sanitized : (o : Option Json) → Sanitized (λ n. ltb 0 n ≡ true) (as_positive_int o)
int-Sanitized (some (Json.whole n)) = elim (Bool-cases (ltb 0 n)) [
  | inl positive ↦ inl (n, (ground (arith, positive), positive))
  | inr zero ↦ inr (gitlab_client_error, (ground (arith, zero), refl))
]
int-Sanitized _ = refused _

pub depth-Sanitized :
    (o : Option Json) → Sanitized (λ depth. depth_in_range depth ≡ true) (as_git_depth o)
depth-Sanitized (some Json.null) = inl (none, (refl, refl))
depth-Sanitized (some (Json.whole n)) = elim (Bool-cases (leb n git_depth_max)) [
  | inl within ↦ inl (some n, (ground (arith, within), within))
  | inr above ↦ inr (gitlab_client_error, (ground (arith, above), refl))
]
depth-Sanitized _ = refused _

pub enum-Sanitized :
    (payload : Members) (field : Text) (allowed : List Text)
    → Sanitized (λ t. one_of t allowed ≡ true) (require_enum_field payload field allowed)
unfolding require_enum_field require_nonempty_str_field
enum-Sanitized payload field allowed =
    chain _ _ (str-Sanitized (lookup_member field payload)) (λ t nonempty.
      elim (Bool-cases (one_of t allowed)) [
        | inl known ↦ inl (t, (ground (arith, known), known))
        | inr unknown ↦ inr (gitlab_client_error, (ground (arith, unknown), refl))
      ])
