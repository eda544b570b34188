-- ===== src/Collectors/Branches.antt =====
-- collectors/gitlab.py: `_normalize_protected_branch`.
pub mod Levels
use cloudops_guard.Prelude.{
  ℕ, ltb, ◌==◌, Bool, true, false, ◌||◌, Option, none, some, List, [], ◌∷◌, if◌then◌else◌,
}
use cloudops_guard.Prelude.Text.{text}
use cloudops_guard.Prelude.Result.{Result, ok, ◌>>=◌}
use cloudops_guard.Prelude.Json.{Json, Members, Items, done, item, lookup_member}
use cloudops_guard.Audit.GitlabModels.{GitLabProtectedBranchRule}
use cloudops_guard.Collectors.Fields.{refuse, as_bool, as_nonempty_str}

-- `_ALLOWED_ROLE_LEVELS`
abbrev pub is_role_level : ℕ → Bool
is_role_level n = n == 0 || n == 30 || n == 40 || n == 60

-- `entry.get(key) is not None`
abbrev pub is_given : Option Json → Bool
is_given none = false
is_given (some Json.null) = false
is_given (some v) = true

-- one of the keys of `_SCOPE_IDENTIFIER_KEYS` is given
unfoldable pub is_scoped : Members → Bool
is_scoped entry =
    is_given (lookup_member (text "user_id") entry)
    || is_given (lookup_member (text "group_id") entry)
    || is_given (lookup_member (text "deploy_key_id") entry)
    || is_given (lookup_member (text "member_role_id") entry)

abbrev pub as_role_level : Option Json → Result ℕ
as_role_level (some (Json.whole n)) = if is_role_level n then ok n else refuse
as_role_level _ = refuse

-- `access_level`, of an entry that has no scope
unfoldable pub role_level : Members → Result ℕ
role_level entry = as_role_level (lookup_member (text "access_level") entry)

-- the set, as `sorted` gives it: a level is put at its place, once
unfoldable pub add_level : ℕ → List ℕ → List ℕ
add_level n [] = n ∷ []
add_level n (m ∷ ms) =
    let rest = add_level n ms in if n == m then m ∷ ms else if ltb n m then n ∷ m ∷ ms else m ∷ rest

-- one pass of the loop
unfoldable pub entry_level : Json → List ℕ → Result (List ℕ)
entry_level (Json.object entry) levels =
    if is_scoped entry then ok levels else (role_level entry >>= λ n. ok (add_level n levels))
entry_level _ levels = refuse

unfoldable pub role_levels : Items → List ℕ → Result (List ℕ)
role_levels done levels = ok levels
role_levels (item x xs) levels = entry_level x levels >>= role_levels xs

abbrev pub as_inherited : Option Json → Result (Option Bool)
as_inherited none = ok none
as_inherited (some (Json.boolean b)) = ok (some b)
as_inherited _ = refuse

abbrev pub push_levels : Option Json → Result (List ℕ)
push_levels (some (Json.array xs)) = role_levels xs []
push_levels _ = refuse

unfoldable pub normalize_protected_branch : Json → Result GitLabProtectedBranchRule
normalize_protected_branch (Json.object payload) = do
  name ← as_nonempty_str (lookup_member (text "name") payload)
  allow_force_push ← as_bool (lookup_member (text "allow_force_push") payload)
  inherited ← as_inherited (lookup_member (text "inherited") payload)
  levels ← push_levels (lookup_member (text "push_access_levels") payload)
  ok (record {
    name = name;
    allow_force_push = allow_force_push;
    inherited = inherited;
    role_push_access_levels = levels;
  })
normalize_protected_branch _ = refuse
