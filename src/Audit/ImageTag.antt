-- ===== src/Audit/ImageTag.antt =====
-- checks/kubernetes.py: the tag of an image reference.
use cloudops_guard.Prelude.{
  Option, none, some, ℕ, [], ◌∷◌, Bool, true, false, ◌==◌, not, ite, if◌then◌else◌,
}
use cloudops_guard.Prelude.Text.{text_eq, key_eq, ◌≟◌, has_char, text, Text}

-- `image.rsplit(d, 1)[-1]`: what follows the last `d`, or all of it
unfoldable pub after_last : ℕ → Text → Text
after_last d [] = []
after_last d (c ∷ t) =
    let rest = after_last d t in if has_char d t then rest else if c == d then t else c ∷ t

unfoldable pub image_tag : Text → Option Text
image_tag image =
    let last_segment = after_last b'/' image in
    if has_char b'@' last_segment
    then none
    else if not (has_char b':' last_segment)
    then none
    else some (after_last b':' last_segment)

unfoldable pub is_pinned_by_digest : Text → Bool
is_pinned_by_digest image = has_char b'@' (after_last b'/' image)

-- `tag is not None and tag not in _MUTABLE_TAGS`
unfoldable pub is_fixed_tag : Option Text → Bool
is_fixed_tag none = false
is_fixed_tag (some tag) = ite (tag ≟ text "latest") false true

-- `tag or "(no tag)"`
abbrev pub observed : Option Text → Text
observed none = text "(no tag)"
observed (some []) = text "(no tag)"
observed (some (c ∷ t)) = c ∷ t
