-- ===== src/Audit/Gitlab.antt =====
-- checks/gitlab.py: the checks of the protected default branch.
pub mod Wildcard
pub mod Permissive
use cloudops_guard.Audit.Models.{high, medium, Severity}
use cloudops_guard.Audit.GitlabModels.{
  protected_branch_kind, GitLabFinding, GitLabProjectSnapshot, GitLabProtectedBranchRule,
}
use cloudops_guard.Prelude.{
  ℕ, Option, none, some, List, [], ◌∷◌, ◌++◌, Bool, true, false, ◌||◌, ◌==◌, if◌then◌else◌,
}
use cloudops_guard.Prelude.Text.{text, Text}
use cloudops_guard.Ingestion.Models.{DateTime}

-- `.*` before the rest of a pattern
unfoldable pub any_before : (Text → Bool) → Text → Bool
any_before rest [] = rest []
any_before rest (c ∷ t) = rest (c ∷ t) || any_before rest t

-- one character before the rest of a pattern
unfoldable pub char_before : ℕ → (Text → Bool) → Text → Bool
char_before p rest [] = false
char_before p rest (c ∷ t) = if p == c then rest t else false

-- `_protected_branch_name_matches`: the match of the whole name by the regular expression that has
-- `.*` for each `*` of the pattern and itself for every other character
unfoldable pub protected_branch_name_matches : Text → Text → Bool
protected_branch_name_matches [] [] = true
protected_branch_name_matches [] (c ∷ t) = false
protected_branch_name_matches (p ∷ pattern_rest) t =
    let rest = protected_branch_name_matches pattern_rest in
    if p == b'*' then any_before rest t else char_before p rest t

-- `_matching_protected_branch_rules`
unfoldable pub matching_rules :
    Text → List GitLabProtectedBranchRule → List GitLabProtectedBranchRule
matching_rules default_branch [] = []
matching_rules default_branch (rule ∷ rules) =
    let rest = matching_rules default_branch rules in
    if protected_branch_name_matches rule.name default_branch then rule ∷ rest else rest

unfoldable pub any_force_push : List GitLabProtectedBranchRule → Bool
any_force_push [] = false
any_force_push (rule ∷ rules) = rule.allow_force_push || any_force_push rules

-- `_DEVELOPER_ROLE_LEVEL in levels`
unfoldable pub has_developer : List ℕ → Bool
has_developer [] = false
has_developer (level ∷ levels) = level == 30 || has_developer levels

unfoldable pub any_developer : List GitLabProtectedBranchRule → Bool
any_developer [] = false
any_developer (rule ∷ rules) = has_developer rule.role_push_access_levels || any_developer rules

-- what the three findings share
abbrev finding_of :
    GitLabProjectSnapshot → DateTime → Text → Text → Severity → Text → Text → Text → GitLabFinding
finding_of snapshot audited_at check_id title severity evidence impact recommendation = record {
  check_id = check_id;
  title = title;
  severity = severity;
  project_path = snapshot.project.project_path;
  resource_kind = protected_branch_kind;
  resource_name = snapshot.project.default_branch;
  job_name = none;
  evidence = evidence;
  impact = impact;
  recommendation = recommendation;
  auto_remediable = false;
  audited_at = audited_at;
}

abbrev pub default_branch_not_protected : GitLabProjectSnapshot → DateTime → GitLabFinding
default_branch_not_protected snapshot audited_at =
    finding_of snapshot audited_at (text "GL-BR-001") (text "Default branch is not protected") high
      (text "Project path: '"
        ++ snapshot.project.project_path
        ++ text "'. Default branch: '"
        ++ snapshot.project.default_branch
        ++ text "'. No exact, wildcard, or inherited protected-branch rule matched the "
        ++ text "default branch.")
      (text "An unprotected default branch permits force-push, deletion, and "
        ++ text "unreviewed direct pushes by anyone with push access. The default branch is "
        ++ text "typically the deployment/release source of truth.")
      (text "Create a protected-branch rule whose name matches the default "
        ++ text "branch, with push and merge access restricted appropriately.")

abbrev pub force_push_allowed : GitLabProjectSnapshot → DateTime → GitLabFinding
force_push_allowed snapshot audited_at =
    finding_of snapshot audited_at (text "GL-BR-002")
      (text "Force-push is allowed on the default branch") high
      (text "Default branch: '"
        ++ snapshot.project.default_branch
        ++ text "'. Resolved effective force-push permission: allowed.")
      (text "Force-push on the default branch can rewrite or destroy commit "
        ++ text "history, obscure prior changes, and break collaborators relying on that "
        ++ text "history -- undermining any audit trail.")
      (text "Disable 'Allowed to force push' on every protected-branch "
        ++ text "rule matching the default branch.")

abbrev pub developer_direct_push : GitLabProjectSnapshot → DateTime → GitLabFinding
developer_direct_push snapshot audited_at =
    finding_of snapshot audited_at (text "GL-BR-003")
      (text "Developers can push directly to the default branch") medium
      (text "Default branch: '"
        ++ snapshot.project.default_branch
        ++ text "'. The Developer role-based "
        ++ text "direct-push permission is granted on at least one matching "
        ++ text "protected-branch rule. This reports a permission grant, not proof "
        ++ text "that a developer has actually pushed directly to the default branch. "
        ++ text "User-specific, group-specific, deploy-key-specific, and custom-role "
        ++ text "grants were not evaluated.")
      (text "Allowing direct pushes at the Developer role bypasses merge "
        ++ text "request review for a broad set of contributors, reducing change "
        ++ text "visibility.")
      (text "Restrict default-branch push access to Maintainer or "
        ++ text "'No one', and require changes via merge request.")

-- the two checks of the rules that match
unfoldable pub rules_findings :
    GitLabProjectSnapshot → DateTime → List GitLabProtectedBranchRule → List GitLabFinding
rules_findings snapshot audited_at [] = default_branch_not_protected snapshot audited_at ∷ []
rules_findings snapshot audited_at (rule ∷ rules) =
    (if any_force_push (rule ∷ rules) then force_push_allowed snapshot audited_at ∷ [] else [])
    ++ (if any_developer (rule ∷ rules) then developer_direct_push snapshot audited_at ∷ [] else [])

unfoldable pub evaluate_protected_branch_checks :
    GitLabProjectSnapshot → DateTime → List GitLabFinding
evaluate_protected_branch_checks snapshot audited_at =
    rules_findings snapshot audited_at
      (matching_rules snapshot.project.default_branch snapshot.protected_branches)
