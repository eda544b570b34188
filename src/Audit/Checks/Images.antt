-- ===== src/Audit/Checks/Images.antt =====
-- checks/kubernetes.py: what the check of an image tag makes of a reference with a registry.
use cloudops_guard.Prelude.Text.{text, ◌≟◌, text_eq}
use cloudops_guard.Prelude.{ap, ℕ, [], ◌∷◌, ◌++◌, ◌≡◌, arith, true, false, is_some, ite}
use cloudops_guard.Prelude.Text.{Text, has_char}
use cloudops_guard.Audit.Checks.{check_mutable_image_tag}
use cloudops_guard.Audit.Models.{ContainerInfo, ResourceKind}
use cloudops_guard.Ingestion.Models.{DateTime}
use cloudops_guard.Audit.ImageTag.{after_last, image_tag, is_pinned_by_digest, is_fixed_tag}

has_char-append : (d : ℕ) (a b : Text) → has_char d (a ++ d ∷ b) ≡ true
unfolding has_char
has_char-append d [] b = ground arith
has_char-append d (c ∷ a) b = ground (arith, has_char-append d a b)

after_last-append : (d : ℕ) (a b : Text) → has_char d b ≡ false → after_last d (a ++ d ∷ b) ≡ b
unfolding after_last
after_last-append d [] b free = ground (arith, free)
after_last-append d (c ∷ a) b free =
    ground (arith, after_last-append d a b free, has_char-append d a b)

-- For a reference `registry/name:tag` whose part after the first slash written here has no further
-- slash and no `@`, and whose tag has no colon, the check finds the tag mutable exactly when it is
-- `latest`, whatever the registry holds, a colon and a port included.
pub check_mutable_image_tag-tagged :
    (kind : ResourceKind) (resource_name namespace context : Text) (now : DateTime)
    (container : ContainerInfo) (registry name tag : Text)
    → container.image ≡ registry ++ b'/' ∷ (name ++ b':' ∷ tag)
    → has_char b'/' (name ++ b':' ∷ tag) ≡ false
    → has_char b'@' (name ++ b':' ∷ tag) ≡ false
    → has_char b':' tag ≡ false
    → is_some (check_mutable_image_tag kind resource_name namespace container context now)
      ≡ ite (tag ≟ text "latest") true false
unfolding check_mutable_image_tag image_tag is_pinned_by_digest is_fixed_tag
check_mutable_image_tag-tagged kind resource_name namespace context now container registry name tag
      is no_slash no_at no_colon =
    ground (
      arith,
      ap (after_last b'/') is,
      after_last-append b'/' registry (name ++ b':' ∷ tag) no_slash,
      after_last-append b':' name tag no_colon,
      has_char-append b':' name tag,
      no_at,
    )
