-- ===== src/Collectors/Metadata.antt =====
-- collectors/gitlab.py: `_normalize_metadata`. The decimal digits that `\d` matches and `int` reads,
-- with their values, are Unicode's and an argument.
use Prim.Native.Nat.{◌*◌}
use cloudops_guard.Prelude.{
  ℕ, ◌+◌, ltb, leb, ◌==◌, Bool, true, false, ◌&&◌, ◌||◌, not, Option, none, some, List, [], ◌∷◌,
  if◌then◌else◌, length,
}
use cloudops_guard.Prelude.Text.{Text, text, drop_prefix}
use cloudops_guard.Prelude.Result.{Result, ok, err, value_error, ◌>>=◌}
use cloudops_guard.Prelude.Json.{Json, lookup_member}
use cloudops_guard.Collectors.Fields.{refuse, as_bool, as_nonempty_str}

abbrev is_empty : List ℕ → Bool
is_empty [] = true
is_empty (d ∷ ds) = false

-- the longest run of digits, and what is after it
unfoldable pub take_digits : (ℕ → Option ℕ) → Text → List ℕ × Text
take_digits digit [] = ([], [])
take_digits digit (c ∷ t) =
    let (ds, after) = take_digits digit t in
    elim (digit c) [ none ↦ ([], c ∷ t) | some d ↦ (d ∷ ds, after) ]

-- `$`, which also stands before a newline at the end
abbrev pub at_end : Text → Bool
at_end [] = true
at_end (c ∷ []) = c == 10
at_end (c ∷ d ∷ t) = false

abbrev pub is_alphanumeric : ℕ → Bool
is_alphanumeric c = leb 48 c && leb c 57 || leb 65 c && leb c 90 || leb 97 c && leb c 122

-- `[A-Za-z0-9]*$`
unfoldable pub alphanumeric_end : Text → Bool
alphanumeric_end [] = true
alphanumeric_end (c ∷ t) = is_alphanumeric c && alphanumeric_end t || at_end (c ∷ t)

abbrev pub suffix_after_dash : Option Text → Text → Bool
suffix_after_dash none t = at_end t
suffix_after_dash (some []) t = false
suffix_after_dash (some (c ∷ u)) t = is_alphanumeric c && alphanumeric_end u

-- `(?:-[A-Za-z0-9]+)?$`
unfoldable pub suffix_end : Text → Bool
suffix_end t = suffix_after_dash (drop_prefix (text "-") t) t

-- `(?:\.\d+)?` and what is after it
unfoldable pub patch_end : (ℕ → Option ℕ) → Text → Bool
patch_end digit t = elim (drop_prefix (text ".") t) [
  | none ↦ suffix_end t
  | some u ↦ let (ds, after) = take_digits digit u in not (is_empty ds) && suffix_end after
]

abbrev pub minor_part : (ℕ → Option ℕ) → List ℕ → Option Text → Option (List ℕ × List ℕ)
minor_part digit major none = none
minor_part digit major (some t) =
    let (ds, after) = take_digits digit t in
    if not (is_empty ds) && patch_end digit after then some (major, ds) else none

-- `_GITLAB_VERSION_RE.match`, with the digits of its two groups
unfoldable pub match_version : (ℕ → Option ℕ) → Text → Option (List ℕ × List ℕ)
match_version digit version =
    let (ds, after) = take_digits digit version in
    if is_empty ds then none else minor_part digit ds (drop_prefix (text ".") after)

unfoldable pub digits_value : ℕ → List ℕ → ℕ
digits_value n [] = n
digits_value n (d ∷ ds) = digits_value (10 * n + d) ds

-- `int` of digits, which raises on more than 4300
unfoldable pub int_of : List ℕ → Result ℕ
int_of ds = if ltb 4300 (length ds) then err value_error else ok (digits_value 0 ds)

-- `(major, minor) < _MIN_SELF_MANAGED_VERSION`
abbrev pub is_too_old : ℕ → ℕ → Bool
is_too_old major minor = ltb major 18 || major == 18 && ltb minor 4

abbrev pub check_supported : Bool → List ℕ → List ℕ → Result (Unit {0})
check_supported true major minor = ok tt
check_supported false major minor =
    int_of major >>= λ m. int_of minor >>= λ n. if is_too_old m n then refuse else ok tt

abbrev pub check_version : Bool → List ℕ × List ℕ → Result (Unit {0})
check_version is_gitlab_com (major, minor) = check_supported is_gitlab_com major minor

abbrev pub matched : Option (List ℕ × List ℕ) → Result (List ℕ × List ℕ)
matched none = refuse
matched (some groups) = ok groups

unfoldable pub normalize_metadata : (ℕ → Option ℕ) → Json → Bool → Result (Text × Bool)
normalize_metadata digit (Json.object payload) is_gitlab_com = do
  version ← as_nonempty_str (lookup_member (text "version") payload)
  groups ← matched (match_version digit version)
  enterprise ← as_bool (lookup_member (text "enterprise") payload)
  supported ← check_version is_gitlab_com groups
  ok (version, enterprise)
normalize_metadata digit _ is_gitlab_com = refuse
