-- ===== src/Collectors/Fields.antt =====
-- collectors/gitlab.py: the required fields of a project response. The texts of `GitLabClientError` are
-- not modelled, so it is one value.
pub mod Sanitized
use cloudops_guard.Prelude.{
  ℕ, ltb, leb, Bool, Option, none, some, List, [], ◌∷◌, ite, if◌then◌else◌,
}
use cloudops_guard.Prelude.Text.{Text, ◌≟◌, text_eq}
use cloudops_guard.Prelude.Result.{Result, ok, err, gitlab_client_error, ◌>>=◌}
use cloudops_guard.Prelude.Json.{one_of, Json, Members, lookup_member}

abbrev pub refuse {ℓ} : {A : Type ℓ} → Result A
refuse = err gitlab_client_error

-- what a field must be, or be there at all
abbrev pub as_bool : Option Json → Result Bool
as_bool (some (Json.boolean b)) = ok b
as_bool _ = refuse

abbrev pub as_nonempty_str : Option Json → Result Text
as_nonempty_str (some (Json.string (c ∷ t))) = ok (c ∷ t)
as_nonempty_str _ = refuse

abbrev pub as_positive_int : Option Json → Result ℕ
as_positive_int (some (Json.whole n)) = if ltb 0 n then ok n else refuse
as_positive_int _ = refuse

-- `_GIT_DEPTH_MAX`; no natural number is below `_GIT_DEPTH_MIN`
abbrev pub git_depth_max : ℕ
git_depth_max = 1000

abbrev pub as_git_depth : Option Json → Result (Option ℕ)
as_git_depth (some Json.null) = ok none
as_git_depth (some (Json.whole n)) = if leb n git_depth_max then ok (some n) else refuse
as_git_depth _ = refuse

abbrev pub among : List Text → Text → Result Text
among allowed value = if one_of value allowed then ok value else refuse

unfoldable pub require_bool_field : Members → Text → Result Bool
require_bool_field payload field = as_bool (lookup_member field payload)

unfoldable pub require_nonempty_str_field : Members → Text → Result Text
require_nonempty_str_field payload field = as_nonempty_str (lookup_member field payload)

unfoldable pub require_enum_field : Members → Text → List Text → Result Text
require_enum_field payload field allowed =
    require_nonempty_str_field payload field >>= λ value. among allowed value

unfoldable pub require_positive_int_field : Members → Text → Result ℕ
require_positive_int_field payload field = as_positive_int (lookup_member field payload)

unfoldable pub require_git_depth_field : Members → Text → Result (Option ℕ)
require_git_depth_field payload field = as_git_depth (lookup_member field payload)
