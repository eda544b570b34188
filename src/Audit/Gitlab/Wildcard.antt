-- ===== src/Audit/Gitlab/Wildcard.antt =====
-- checks/gitlab.py: what a pattern of a protected-branch rule matches.
use cloudops_guard.Prelude.{
  sym, subst, ◌==◌, ℕ, [], ◌∷◌, Bool, true, false, ◌≡◌, ◌↔◌, refl, arith, Bool-cases, inl, inr,
}
use cloudops_guard.Prelude.Text.{Text}
use cloudops_guard.Audit.Gitlab.{char_before, protected_branch_name_matches, any_before}

-- A `*` of the pattern stands for any characters, and every other character for itself.
pub data Matches : Text → Text → Type 0 where
  end : Matches [] []
  literal : (c : ℕ) (p t : Text) → (c == b'*') ≡ false → Matches p t → Matches (c ∷ p) (c ∷ t)
  none_more : (p t : Text) → Matches p t → Matches (b'*' ∷ p) t
  one_more : (c : ℕ) (p t : Text) → Matches (b'*' ∷ p) t → Matches (b'*' ∷ p) (c ∷ t)

any_before_sound :
    (p t : Text)
    → ((u : Text) → protected_branch_name_matches p u ≡ true → Matches p u)
    → any_before (protected_branch_name_matches p) t ≡ true
    → Matches (b'*' ∷ p) t
unfolding any_before
any_before_sound p [] sound e = none_more p [] (sound [] e)
any_before_sound p (c ∷ t) sound e = elim (Bool-cases (protected_branch_name_matches p (c ∷ t))) [
  | inl yes_now ↦ none_more p (c ∷ t) (sound (c ∷ t) yes_now)
  | inr not_now ↦ one_more c p t (any_before_sound p t sound (ground (arith, e, not_now)))
]

char_before_sound :
    (q : ℕ) (p t : Text)
    → (q == b'*') ≡ false
    → ((u : Text) → protected_branch_name_matches p u ≡ true → Matches p u)
    → char_before q (protected_branch_name_matches p) t ≡ true
    → Matches (q ∷ p) t
unfolding char_before
char_before_sound q p [] plain sound e = ground (arith, e)
char_before_sound q p (c ∷ t) plain sound e = elim (Bool-cases (q == c)) [
  | inl same ↦
      let q-eq : q ≡ c = ground (arith, same) in
      subst (λ x. Matches (q ∷ p) (x ∷ t)) q-eq
        (literal q p t plain (sound t (ground (arith, e, same))))
  | inr other ↦ ground (arith, e, other)
]

pub wildcard_sound : (p t : Text) → protected_branch_name_matches p t ≡ true → Matches p t
unfolding protected_branch_name_matches
wildcard_sound [] [] e = end
wildcard_sound [] (c ∷ t) e = ground (arith, e)
wildcard_sound (q ∷ p) t e = elim (Bool-cases (q == b'*')) [
  | inl star ↦
      let q-eq : q ≡ b'*' = ground (arith, star) in
      subst (λ x. Matches (x ∷ p) t) (sym q-eq)
        (any_before_sound p t (wildcard_sound p) (ground (arith, e, star)))
  | inr plain ↦ char_before_sound q p t plain (wildcard_sound p) (ground (arith, e, plain))
]

star-any :
    (p t : Text)
    → protected_branch_name_matches (b'*' ∷ p) t ≡ any_before (protected_branch_name_matches p) t
unfolding protected_branch_name_matches
star-any p t = refl

any_now : (rest : Text → Bool) (t : Text) → rest t ≡ true → any_before rest t ≡ true
unfolding any_before
any_now rest [] e = e
any_now rest (c ∷ t) e = ground (arith, e)

pub wildcard_complete : (p t : Text) → Matches p t → protected_branch_name_matches p t ≡ true
unfolding protected_branch_name_matches char_before any_before
wildcard_complete _ _ end = refl
wildcard_complete _ _ (literal c p t plain m) = ground (arith, plain, wildcard_complete p t m)
wildcard_complete _ _ (none_more p t m) =
    any_now (protected_branch_name_matches p) t (wildcard_complete p t m)
wildcard_complete _ _ (one_more c p t m) =
    ground (arith, wildcard_complete (b'*' ∷ p) t m, star-any p t)

-- The name of a rule matches a branch exactly when the branch is the name with each `*` replaced by any
-- characters, slashes and newlines included, and every other character kept.
pub protected_branch_name_matches_lem :
    (p t : Text) → (protected_branch_name_matches p t ≡ true) ↔ Matches p t
protected_branch_name_matches_lem p t = (wildcard_sound p t, wildcard_complete p t)
