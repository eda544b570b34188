-- ===== src/Uploader/Endpoint.antt =====
-- uploader/endpoint.py: the validation of the endpoint. `urllib.parse.urlsplit` and
-- `ipaddress.ip_address` are arguments.
pub mod Sound
use cloudops_guard.Prelude.{
  ◌+◌, ℕ, leb, ◌==◌, Bool, true, false, ◌&&◌, ◌||◌, not, Option, none, some, is_some, [], ◌∷◌, ◌++◌,
  ite, if◌then◌else◌,
}
use cloudops_guard.Prelude.Text.{Text, text, ◌≟◌, text_eq, decimal}
use cloudops_guard.Prelude.Result.{◌>>=◌, Result, ok, err, value_error}
use cloudops_guard.Uploader.Hostname.{
  validate_hostname, is_blank, invalid, SplitResult, Parsers, IpAddress,
}

unfoldable pub required_path : Text
unfolding text
required_path = text "/api/v1/reports"

-- `_FORBIDDEN_RAW_CHAR_RE.search`
unfoldable pub has_forbidden : Text → Bool
has_forbidden [] = false
has_forbidden (c ∷ t) = leb c 32 || c == 127 || c == 0x5c || has_forbidden t

-- `str.lower`, as far as it makes the letters of `localhost`
abbrev lower : Text → Text
lower [] = []
lower (c ∷ t) = (if leb 65 c && leb c 90 then c + 32 else c) ∷ lower t

unfoldable pub localhost : Text
unfolding text
localhost = text "localhost"

abbrev loopback : Option IpAddress → Bool
loopback none = false
loopback (some addr) = addr.is_loopback

-- `_is_loopback_literal`
unfoldable pub is_loopback_literal : Parsers → Text → Bool
is_loopback_literal lib hostname =
    ite (lower hostname ≟ localhost) true (loopback (lib.ip_address hostname))

unfoldable pub http : Text
unfolding text
http = text "http"

unfoldable pub https : Text
unfolding text
https = text "https"

unfoldable pub scheme_mark : Text
unfolding text
scheme_mark = text "://"

abbrev pub is_text : Text → Text → Bool
is_text t u = ite (t ≟ u) true false

abbrev pub is_port : Option ℕ → Bool
is_port none = true
is_port (some port) = leb 1 port && leb port 65_535

-- the guards on the parsed parts, up to the path
unfoldable pub check_parts : SplitResult → Result (Unit {0})
check_parts parsed =
    if not (is_text parsed.scheme http || is_text parsed.scheme https)
    then invalid
    else if is_blank parsed.netloc
    then invalid
    else if is_some parsed.username || is_some parsed.password
    then invalid
    else if not (is_blank parsed.query)
    then invalid
    else if not (is_blank parsed.fragment)
    then invalid
    else if not (is_text parsed.path required_path)
    then invalid
    else ok tt

-- `except ValueError`
abbrev pub parsed_or_invalid {ℓ} : {A : Type ℓ} → Result A → Result A
parsed_or_invalid (err value_error) = invalid
parsed_or_invalid r = r

abbrev pub named_host : Option Text → Result Text
named_host none = invalid
named_host (some []) = invalid
named_host (some (c ∷ t)) = ok (c ∷ t)

unfoldable pub check_port : Option ℕ → Result (Option ℕ)
check_port port = if is_port port then ok port else invalid

-- `host[:port]`
unfoldable pub authority_of : Text → Bool → Option ℕ → Text
authority_of hostname is_ipv6 port =
    let host = if is_ipv6 then b'[' ∷ hostname ++ b']' ∷ [] else hostname in
    elim port [ none ↦ host | some n ↦ host ++ b':' ∷ decimal n ]

-- the last guard, and the rebuilt URL
unfoldable pub build_url : Parsers → Text → Text → Bool → Option ℕ → Result Text
build_url lib scheme hostname is_ipv6 port =
    if is_text scheme http && not (is_loopback_literal lib hostname)
    then invalid
    else ok (scheme ++ scheme_mark ++ authority_of hostname is_ipv6 port ++ required_path)

-- the host, the port and the URL of parts that passed
unfoldable pub endpoint_of : Parsers → SplitResult → Result Text
endpoint_of lib parsed =
    parsed_or_invalid parsed.hostname
    >>= (λ hostname. named_host hostname)
    >>= (λ raw_hostname. validate_hostname lib raw_hostname)
    >>= (λ host.
        parsed_or_invalid parsed.port
        >>= (λ port. check_port port)
        >>= (λ port. build_url lib parsed.scheme host.0 host.1 port))

unfoldable pub validate_endpoint : Parsers → Text → Result Text
validate_endpoint lib raw =
    if has_forbidden raw then invalid else elim (parsed_or_invalid (lib.urlsplit raw)) [
      | err e ↦ err e
      | ok parsed ↦ elim (check_parts parsed) [ err e ↦ err e | ok u ↦ endpoint_of lib parsed ]
    ]
