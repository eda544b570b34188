-- ===== src/Prelude/Within.antt =====
-- A list that stands in another as it is.
use mathlib.Core.Path.{◌≡◌, refl, ap, sym, ◌∙◌}
use mathlib.Core.List.{List, [], ◌++◌, append_assoc}

-- `xs` stands in `ys` as it is.
abbrev pub Within {ℓ} : {A : Type ℓ} → List A → List A → Type ℓ
Within {A = A} xs ys = (before : List A) × ((after : List A) × (ys ≡ before ++ (xs ++ after)))

module _ {ℓ} {A : Type ℓ} where
  pub first : (xs ys : List A) → Within xs (xs ++ ys)
  first xs ys = ([], (ys, refl))

  pub later : (xs ys zs : List A) → Within xs ys → Within xs (zs ++ ys)
  later xs ys zs (before, (after, eq)) =
      (zs ++ before, (after, ap (λ l. zs ++ l) eq ∙ sym (append_assoc zs before (xs ++ after))))

  pub earlier : (xs ys zs : List A) → Within xs ys → Within xs (ys ++ zs)
  earlier xs ys zs (before, (after, eq)) = (
    before,
    (
      after ++ zs,
      ap (λ l. l ++ zs) eq
          ∙ append_assoc before (xs ++ after) zs
          ∙ ap (λ l. before ++ l) (append_assoc xs after zs),
    ),
  )
