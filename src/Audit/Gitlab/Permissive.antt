-- ===== src/Audit/Gitlab/Permissive.antt =====
-- checks/gitlab.py: the most permissive rule that matches decides.
use cloudops_guard.Prelude.{
  ◌++◌, ◌⊎◌, if◌then◌else◌, ◌∙◌, sym, ap, List, [], ◌∷◌, Bool, true, false, ◌≡◌, refl, arith,
  Bool-cases, inl, inr,
}
use mathlib.Core.List.{Memᴰ}
use mathlib.Core.List.Memᴰ.{head, tail}
use cloudops_guard.Audit.Gitlab.{
  evaluate_protected_branch_checks, default_branch_not_protected, developer_direct_push,
  force_push_allowed, has_developer, protected_branch_name_matches, matching_rules, rules_findings,
  any_developer, any_force_push,
}
use cloudops_guard.Prelude.Text.{Text}
use cloudops_guard.Audit.Gitlab.Wildcard.{wildcard_sound, wildcard_complete, Matches}
use cloudops_guard.Ingestion.Models.{DateTime}
use cloudops_guard.Audit.GitlabModels.{
  GitLabFinding, GitLabProjectSnapshot, GitLabProtectedBranchRule,
}

-- A rule of the project that matches the default branch.
abbrev pub Applies : GitLabProjectSnapshot → GitLabProtectedBranchRule → Type 0
Applies snapshot rule =
    Memᴰ rule snapshot.protected_branches × Matches rule.name snapshot.project.default_branch

module _ (branch : Text) where
  matching-Mem :
      (rule : GitLabProtectedBranchRule) (rules : List GitLabProtectedBranchRule)
      → Memᴰ rule rules
      → protected_branch_name_matches rule.name branch ≡ true
      → Memᴰ rule (matching_rules branch rules)
  unfolding matching_rules
  matching-Mem rule [] m e = elim m [ ]
  matching-Mem rule (r ∷ rules) (head same) e =
      rw (ap (λ x. protected_branch_name_matches x.name branch) (sym same) ∙ e, matching_rules)
        (head same)
  matching-Mem rule (r ∷ rules) (tail m) e =
      elim (Bool-cases (protected_branch_name_matches r.name branch)) [
        | inl kept ↦ rw (kept, matching_rules) (tail (matching-Mem rule rules m e))
        | inr dropped ↦ rw (dropped, matching_rules) (matching-Mem rule rules m e)
      ]

  Mem-kept :
      (rule r : GitLabProtectedBranchRule) (rest : List GitLabProtectedBranchRule) (kept : Bool)
      → protected_branch_name_matches r.name branch ≡ kept
      → Memᴰ rule (if kept then r ∷ rest else rest)
      → ((rule ≡ r) × (protected_branch_name_matches rule.name branch ≡ true)) ⊎ Memᴰ rule rest
  Mem-kept rule r rest true e (head same) =
      inl (same, ap (λ x. protected_branch_name_matches x.name branch) same ∙ e)
  Mem-kept rule r rest true e (tail m) = inr m
  Mem-kept rule r rest false e m = inr m

  Mem-matching :
      (rule : GitLabProtectedBranchRule) (rules : List GitLabProtectedBranchRule)
      → Memᴰ rule (matching_rules branch rules)
      → Memᴰ rule rules × (protected_branch_name_matches rule.name branch ≡ true)
  unfolding matching_rules
  Mem-matching rule [] m = elim m [ ]
  Mem-matching rule (r ∷ rules) m = elim (Mem-kept rule r (matching_rules branch rules) _ refl m) [
    | inl (same, e) ↦ (head same, e)
    | inr m' ↦ let (found, e) = Mem-matching rule rules m' in (tail found, e)
  ]

any_force_push-Mem :
    (rule : GitLabProtectedBranchRule) (rules : List GitLabProtectedBranchRule)
    → Memᴰ rule rules
    → rule.allow_force_push ≡ true
    → any_force_push rules ≡ true
unfolding any_force_push
any_force_push-Mem rule [] m e = elim m [ ]
any_force_push-Mem rule (r ∷ rules) (head same) e =
    ground (arith, ap (λ x. x.allow_force_push) same, e)
any_force_push-Mem rule (r ∷ rules) (tail m) e = ground (arith, any_force_push-Mem rule rules m e)

any_developer-Mem :
    (rule : GitLabProtectedBranchRule) (rules : List GitLabProtectedBranchRule)
    → Memᴰ rule rules
    → has_developer rule.role_push_access_levels ≡ true
    → any_developer rules ≡ true
unfolding any_developer
any_developer-Mem rule [] m e = elim m [ ]
any_developer-Mem rule (r ∷ rules) (head same) e =
    ground (arith, ap (λ x. has_developer x.role_push_access_levels) same, e)
any_developer-Mem rule (r ∷ rules) (tail m) e = ground (arith, any_developer-Mem rule rules m e)

any_force_push-none :
    (rules : List GitLabProtectedBranchRule)
    → ((rule : GitLabProtectedBranchRule) → Memᴰ rule rules → rule.allow_force_push ≡ false)
    → any_force_push rules ≡ false
unfolding any_force_push
any_force_push-none [] strict = refl
any_force_push-none (r ∷ rules) strict =
    rw (strict r (head refl)) (any_force_push-none rules (λ rule m. strict rule (tail m)))

any_developer-none :
    (rules : List GitLabProtectedBranchRule)
    → ((rule : GitLabProtectedBranchRule)
        → Memᴰ rule rules
        → has_developer rule.role_push_access_levels ≡ false)
    → any_developer rules ≡ false
unfolding any_developer
any_developer-none [] strict = refl
any_developer-none (r ∷ rules) strict =
    rw (strict r (head refl)) (any_developer-none rules (λ rule m. strict rule (tail m)))

-- what a flag adds
abbrev pub flagged : Bool → GitLabFinding → List GitLabFinding
flagged true finding = finding ∷ []
flagged false finding = []

decided :
    (rule : GitLabProtectedBranchRule) (rules : List GitLabProtectedBranchRule)
    (snapshot : GitLabProjectSnapshot) (at : DateTime) (forced pushed : Bool)
    → Memᴰ rule rules
    → any_force_push rules ≡ forced
    → any_developer rules ≡ pushed
    → rules_findings snapshot at rules
      ≡ flagged forced (force_push_allowed snapshot at)
        ++ flagged pushed (developer_direct_push snapshot at)
unfolding rules_findings
decided rule [] snapshot at forced pushed m e d = elim m [ ]
decided rule (r ∷ rules) snapshot at true true m e d = rw (e, d) refl
decided rule (r ∷ rules) snapshot at true false m e d = rw (e, d) refl
decided rule (r ∷ rules) snapshot at false true m e d = rw (e, d) refl
decided rule (r ∷ rules) snapshot at false false m e d = rw (e, d) refl

no_rules :
    (snapshot : GitLabProjectSnapshot) (at : DateTime) (rules : List GitLabProtectedBranchRule)
    → ((rule : GitLabProtectedBranchRule) → ¬ Memᴰ rule rules)
    → rules_findings snapshot at rules ≡ default_branch_not_protected snapshot at ∷ []
unfolding rules_findings
no_rules snapshot at [] free = refl
no_rules snapshot at (r ∷ rules) free = elim (free r (head refl)) [ ]

module _ (snapshot : GitLabProjectSnapshot) (at : DateTime) where
  abbrev matching : List GitLabProtectedBranchRule
  matching = matching_rules snapshot.project.default_branch snapshot.protected_branches

  Applies-matching : (rule : GitLabProtectedBranchRule) → Applies snapshot rule → Memᴰ rule matching
  Applies-matching rule (m, fits) = matching-Mem _ rule _ m (wildcard_complete _ _ fits)

  matching-Applies : (rule : GitLabProtectedBranchRule) → Memᴰ rule matching → Applies snapshot rule
  matching-Applies rule m =
      let (found, e) = Mem-matching _ rule _ m in (found, wildcard_sound _ _ e)

  -- Some rule that applies has the flag, or none has.
  abbrev pub Decides : (GitLabProtectedBranchRule → Bool) → Bool → Type 0
  Decides flag true =
      (rule : GitLabProtectedBranchRule) × (Applies snapshot rule × (flag rule ≡ true))
  Decides flag false =
      (rule : GitLabProtectedBranchRule) → Applies snapshot rule → flag rule ≡ false

  force_decided :
      (forced : Bool) → Decides (λ r. r.allow_force_push) forced → any_force_push matching ≡ forced
  force_decided true (rule, (a, e)) = any_force_push-Mem rule matching (Applies-matching rule a) e
  force_decided false strict = any_force_push-none matching (λ q m. strict q (matching-Applies q m))

  push_decided :
      (pushed : Bool)
      → Decides (λ r. has_developer r.role_push_access_levels) pushed
      → any_developer matching ≡ pushed
  push_decided true (rule, (a, e)) = any_developer-Mem rule matching (Applies-matching rule a) e
  push_decided false strict = any_developer-none matching (λ q m. strict q (matching-Applies q m))

  -- Of the rules whose name matches the default branch, the most permissive decides. Where there are
  -- such rules, the findings are exactly: that force-push is allowed, if one of them allows it, and
  -- that developers push directly, if one of them lets them. Where there is none, the one finding is that
  -- the branch is not protected.
  pub evaluate_protected_branch_checks_lem :
      ((rule : GitLabProtectedBranchRule) (forced pushed : Bool)
        → Applies snapshot rule
        → Decides (λ r. r.allow_force_push) forced
        → Decides (λ r. has_developer r.role_push_access_levels) pushed
        → evaluate_protected_branch_checks snapshot at
          ≡ flagged forced (force_push_allowed snapshot at)
            ++ flagged pushed (developer_direct_push snapshot at))
      × (((rule : GitLabProtectedBranchRule) → ¬ Applies snapshot rule)
          → evaluate_protected_branch_checks snapshot at
            ≡ default_branch_not_protected snapshot at ∷ [])
  unfolding evaluate_protected_branch_checks
  evaluate_protected_branch_checks_lem = (
    λ rule forced pushed a f d.
        decided rule matching snapshot at forced pushed (Applies-matching rule a)
          (force_decided forced f) (push_decided pushed d),
    λ free. no_rules snapshot at matching (λ rule m. free rule (matching-Applies rule m)),
  )
