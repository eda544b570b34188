-- ===== src/Uploader/Hostname.antt =====
-- uploader/endpoint.py: the parsed parts of an endpoint, and the validation of its host.
use cloudops_guard.Prelude.{
  ℕ, ltb, leb, ◌==◌, Bool, true, false, ◌&&◌, ◌||◌, not, Option, none, some, List, [], ◌∷◌,
  if◌then◌else◌, length,
}
use cloudops_guard.Prelude.Text.{Text, text_eq, has_char}
use cloudops_guard.Prelude.Result.{Result, ok, err, endpoint_validation_error}
use cloudops_guard.Ingestion.Tokens.{split}

-- `SplitResult`; its last two properties raise `ValueError` when they are read
pub record SplitResult : Type 0 where
  pub scheme : Text
  pub netloc : Text
  pub path : Text
  pub query : Text
  pub fragment : Text
  pub username : Option Text
  pub password : Option Text
  pub hostname : Result (Option Text)
  pub port : Result (Option ℕ)

-- `IPv4Address` and `IPv6Address`
pub record IpAddress : Type 0 where
  pub canonical : Text
  pub is_version_6 : Bool
  pub is_loopback : Bool

-- the parsers of the standard library
pub record Parsers : Type 0 where
  pub urlsplit : Text → Result SplitResult
  pub ip_address : Text → Option IpAddress

abbrev pub invalid {ℓ} : {A : Type ℓ} → Result A
invalid = err endpoint_validation_error

abbrev is_decimal : ℕ → Bool
is_decimal c = leb 48 c && leb c 57

abbrev is_hex : ℕ → Bool
is_hex c = is_decimal c || leb 97 c && leb c 102 || leb 65 c && leb c 70

abbrev is_alnum : ℕ → Bool
is_alnum c = is_decimal c || leb 97 c && leb c 122 || leb 65 c && leb c 90

abbrev every : (ℕ → Bool) → Text → Bool
every f [] = true
every f (c ∷ t) = f c && every f t

abbrev pub is_blank : Text → Bool
is_blank [] = true
is_blank (c ∷ t) = false

abbrev last_is : (ℕ → Bool) → Text → Bool
last_is f [] = false
last_is f (c ∷ []) = f c
last_is f (c ∷ d ∷ t) = last_is f (d ∷ t)

abbrev first_is : (ℕ → Bool) → Text → Bool
first_is f [] = false
first_is f (c ∷ t) = f c

-- `_DNS_LABEL_RE.fullmatch`
unfoldable pub is_dns_label : Text → Bool
is_dns_label t =
    first_is is_alnum t
    && last_is is_alnum t
    && every (λ c. is_alnum c || c == b'-') t
    && leb (length t) 63

-- `_DIGITS_AND_DOTS_RE.fullmatch`
unfoldable pub is_digits_and_dots : Text → Bool
is_digits_and_dots t = not (is_blank t) && every (λ c. is_decimal c || c == b'.') t

-- `_LEGACY_NUMERIC_COMPONENT_RE.fullmatch`
unfoldable pub is_legacy_component : Text → Bool
is_legacy_component [] = false
is_legacy_component (c ∷ []) = is_decimal c
is_legacy_component (c ∷ x ∷ t) =
    every is_decimal (c ∷ x ∷ t)
    || (c == b'0' && (x == b'x' || x == b'X') && not (is_blank t) && every is_hex t)

abbrev all_texts : (Text → Bool) → List Text → Bool
all_texts f [] = true
all_texts f (t ∷ ts) = f t && all_texts f ts

-- `_looks_like_legacy_numeric_ipv4`
unfoldable pub looks_like_legacy_numeric_ipv4 : Text → Bool
looks_like_legacy_numeric_ipv4 hostname =
    let labels = split b'.' hostname in
    leb 1 (length labels) && leb (length labels) 4 && all_texts is_legacy_component labels

-- the loop over the labels
unfoldable pub check_labels : List Text → Result (Unit {0})
check_labels [] = ok tt
check_labels (label ∷ labels) =
    let rest = check_labels labels in
    if is_blank label
    then invalid
    else if ltb 63 (length label)
    then invalid
    else if not (is_dns_label label)
    then invalid
    else rest

-- `_validate_dns_hostname`
unfoldable pub validate_dns_hostname : Text → Result (Unit {0})
validate_dns_hostname hostname =
    if ltb 253 (length hostname)
    then invalid
    else if first_is (λ c. c == b'.') hostname || last_is (λ c. c == b'.') hostname
    then invalid
    else if is_digits_and_dots hostname
    then invalid
    else if looks_like_legacy_numeric_ipv4 hostname
    then invalid
    else check_labels (split b'.' hostname)

-- `_validate_hostname`
unfoldable pub validate_hostname : Parsers → Text → Result (Text × Bool)
validate_hostname lib hostname =
    if has_char b'%' hostname then invalid else elim (lib.ip_address hostname) [
      | some addr ↦ ok (addr.canonical, addr.is_version_6)
      | none ↦ elim (validate_dns_hostname hostname) [ err e ↦ err e | ok u ↦ ok (hostname, false) ]
    ]
