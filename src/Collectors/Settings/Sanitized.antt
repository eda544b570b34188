-- ===== src/Collectors/Settings/Sanitized.antt =====
-- collectors/gitlab.py: how `_normalize_project_settings` ends.
use cloudops_guard.Prelude.{ℕ, ◌≢◌, ◌≤◌, ◌<◌, List, [], ◌∷◌, inl, ◌≡◌, inl}
use cloudops_guard.Prelude.Json.{Json}
use cloudops_guard.Audit.GitlabModels.{GitLabProjectSettings}
use cloudops_guard.Collectors.Fields.Sanitized.{Sanitized}
use cloudops_guard.Collectors.Settings.{some}
use cloudops_guard.Prelude.Text.{text_eq, Text}

-- The constraints of the model on the fields that are not literals.
abbrev pub IsConstrained : GitLabProjectSettings → Type 0
IsConstrained s =
    (0 < s.project_id)
    × ((s.project_path ≢ [])
        × ((s.default_branch ≢ [])
            × (((n : ℕ) → s.ci_default_git_depth ≡ some n → n ≤ 1000) × (0 < s.build_timeout))))

abbrev names {ℓ} : {A : Type ℓ} → List (Text × A) → List Text
names [] = []
names ((name, a) ∷ l) = name ∷ names l
