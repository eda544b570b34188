-- ===== src/Collectors/Branches/Levels.antt =====
-- collectors/gitlab.py: the role levels that are kept of a protected branch.
use cloudops_guard.Prelude.{
  Bool-cases, ℕ, ltb, ◌==◌, Bool, true, false, ◌&&◌, ◌||◌, not, Option, some, List, [], ◌∷◌, ◌≡◌,
  refl, inl, inr, arith,
}
use cloudops_guard.Prelude.Text.{text}
use cloudops_guard.Prelude.Result.{ok, Result-cases}
use cloudops_guard.Prelude.Json.{Json, Members, Items, done, item, lookup_member}
use cloudops_guard.Audit.GitlabModels.{GitLabProtectedBranchRule}
use cloudops_guard.Collectors.Branches.{
  is_scoped, role_level, as_role_level, add_level, entry_level, role_levels,
  normalize_protected_branch,
}

abbrev pub has_level : ℕ → List ℕ → Bool
has_level n [] = false
has_level n (m ∷ ms) = n == m || has_level n ms

-- each greater than the one before
abbrev pub ascending : List ℕ → Bool
ascending [] = true
ascending (m ∷ []) = true
ascending (m ∷ k ∷ ms) = ltb m k && ascending (k ∷ ms)

abbrev is_level : ℕ → Option Json → Bool
is_level n (some (Json.whole m)) = n == m
is_level n _ = false

-- An entry without a scope grants this level.
abbrev entry_grants : ℕ → Json → Bool
entry_grants n (Json.object entry) =
    not (is_scoped entry) && is_level n (lookup_member (text "access_level") entry)
entry_grants n _ = false

unfoldable pub grants : ℕ → Items → Bool
grants n done = false
grants n (item x xs) = entry_grants n x || grants n xs

add_level-has_level :
    (n m : ℕ) (ls : List ℕ) → has_level n (add_level m ls) ≡ (n == m || has_level n ls)
unfolding add_level
add_level-has_level n m [] = refl
add_level-has_level n m (k ∷ ls) = ground (arith, add_level-has_level n m ls)

add_level-ascending :
    (m : ℕ) (ls : List ℕ) → ascending ls ≡ true → ascending (add_level m ls) ≡ true
unfolding add_level
add_level-ascending m [] h = refl
add_level-ascending m (k ∷ []) h = ground arith
add_level-ascending m (k ∷ j ∷ ls) h = ground (arith, h, add_level-ascending m (j ∷ ls))

as_role_level-is_level :
    (n : ℕ) (o : Option Json) (m : ℕ) → as_role_level o ≡ ok m → (n == m) ≡ is_level n o
as_role_level-is_level n (some (Json.whole k)) m h = ground (arith, h)
as_role_level-is_level n _ m h = cc h

entry_level_lem :
    (n : ℕ) (x : Json) (ls ms : List ℕ)
    → entry_level x ls ≡ ok ms
    → ascending ls ≡ true
    → (has_level n ms ≡ (entry_grants n x || has_level n ls)) × (ascending ms ≡ true)
unfolding entry_level role_level
entry_level_lem n (Json.object e) ls ms h sorted = elim (Bool-cases (is_scoped e)) [
  | inl scoped ↦ ground (arith, scoped, h, sorted)
  | inr free ↦ elim (Result-cases (as_role_level (lookup_member (text "access_level") e))) [
    | inr (x, bad) ↦ ground (arith, free, bad, h)
    | inl (m, found) ↦ ground (
      arith,
      free,
      found,
      h,
      sorted,
      add_level-has_level n m ls,
      add_level-ascending m ls sorted,
      as_role_level-is_level n (lookup_member (text "access_level") e) m found,
    )
  ]
]
entry_level_lem n _ ls ms h sorted = cc h

role_levels_lem :
    (n : ℕ) (xs : Items) (ls ms : List ℕ)
    → role_levels xs ls ≡ ok ms
    → ascending ls ≡ true
    → (has_level n ms ≡ (has_level n ls || grants n xs)) × (ascending ms ≡ true)
unfolding role_levels grants
role_levels_lem n done ls ms h sorted = ground (arith, h, sorted)
role_levels_lem n (item x xs) ls ms h sorted = elim (Result-cases (entry_level x ls)) [
  | inr (e, bad) ↦ ground (arith, bad, h)
  | inl (ks, made) ↦
      let (same, kept) = entry_level_lem n x ls ks made sorted in
      let (all, end) = role_levels_lem n xs ks ms (ground (arith, made, h)) kept in
      (ground (arith, same, all), end)
]

kept_levels :
    (payload : Members) (xs : Items) (rule : GitLabProtectedBranchRule)
    → lookup_member (text "push_access_levels") payload ≡ some (Json.array xs)
    → normalize_protected_branch (Json.object payload) ≡ ok rule
    → role_levels xs [] ≡ ok rule.role_push_access_levels
unfolding normalize_protected_branch
kept_levels payload xs rule listed h = ground (arith, listed, h)

-- If `_normalize_protected_branch` returns a rule, its levels ascend without a repetition, and a level
-- is among them exactly if an entry of `push_access_levels` without a scope grants it.
pub normalize_protected_branch-grants :
    (payload : Members) (xs : Items) (rule : GitLabProtectedBranchRule) (n : ℕ)
    → lookup_member (text "push_access_levels") payload ≡ some (Json.array xs)
    → normalize_protected_branch (Json.object payload) ≡ ok rule
    → (has_level n rule.role_push_access_levels ≡ grants n xs)
      × (ascending rule.role_push_access_levels ≡ true)
unfolding normalize_protected_branch
normalize_protected_branch-grants payload xs rule n listed h =
    let made = kept_levels payload xs rule listed h in
    role_levels_lem n xs [] rule.role_push_access_levels made refl
