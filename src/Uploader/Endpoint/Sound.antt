-- ===== src/Uploader/Endpoint/Sound.antt =====
-- Where a validated endpoint can send a request to.
use cloudops_guard.Prelude.{
  Bool, Bool, ℕ, true, false, Option, none, some, [], ◌∷◌, ◌++◌, ◌≡◌, refl, ◌⊎◌, inl, inr, arith,
  Bool-cases, Option-cases,
}
use cloudops_guard.Prelude.Text.{decimal, text, Text, has_char, text_eq}
use cloudops_guard.Prelude.Result.{◌>>=◌, Result, ok, err, Result, ok, err, Result-cases}
use cloudops_guard.Uploader.Hostname.{
  validate_hostname, validate_dns_hostname, SplitResult, Parsers, IpAddress,
}
use cloudops_guard.Uploader.Endpoint.{
  required_path, has_forbidden, is_loopback_literal, http, https, scheme_mark, check_parts, is_port,
  check_port, authority_of, build_url, endpoint_of, validate_endpoint, parsed_or_invalid,
  named_host,
}

-- An address in its canonical form, which may be one of IPv6, or a name that passes the checks of its
-- labels.
abbrev pub HostOf : Parsers → Text → Text → Bool → Type 0
HostOf lib raw_hostname hostname is_ipv6 =
    ((addr : IpAddress) × ((lib.ip_address raw_hostname ≡ some addr)
        × ((hostname ≡ addr.canonical) × (is_ipv6 ≡ addr.is_version_6))))
    ⊎ ((validate_dns_hostname raw_hostname ≡ ok tt)
        × ((hostname ≡ raw_hostname) × (is_ipv6 ≡ false)))

-- The host as a URL writes it, with its port where it has one.
abbrev pub host_port : Text → Bool → Option ℕ → Text
host_port hostname false none = hostname
host_port hostname false (some n) = hostname ++ b':' ∷ decimal n
host_port hostname true none = b'[' ∷ hostname ++ b']' ∷ []
host_port hostname true (some n) = (b'[' ∷ hostname ++ b']' ∷ []) ++ b':' ∷ decimal n

authority_of-host_port :
    (hostname : Text) (is_ipv6 : Bool) (port : Option ℕ)
    → authority_of hostname is_ipv6 port ≡ host_port hostname is_ipv6 port
unfolding authority_of
authority_of-host_port hostname false none = refl
authority_of-host_port hostname false (some n) = refl
authority_of-host_port hostname true none = refl
authority_of-host_port hostname true (some n) = refl

-- The URL of a validated endpoint, from the parts that the parser found in the text.
pub record IsEndpoint (lib : Parsers) (raw url : Text) : Type 0 where
  pub parsed : SplitResult
  pub split_as : lib.urlsplit raw ≡ ok parsed
  pub raw_hostname : Text
  pub hostname : Text
  pub is_ipv6 : Bool
  pub port : Option ℕ
  pub clean : has_forbidden raw ≡ false
  pub no_user : parsed.username ≡ none
  pub no_password : parsed.password ≡ none
  pub no_query : parsed.query ≡ []
  pub no_fragment : parsed.fragment ≡ []
  pub path : parsed.path ≡ required_path
  pub named : parsed.hostname ≡ ok (some raw_hostname)
  pub scoped : has_char b'%' raw_hostname ≡ false
  pub host : HostOf lib raw_hostname hostname is_ipv6
  pub port_read : parsed.port ≡ ok port
  pub port_range : is_port port ≡ true
  pub secure :
      (parsed.scheme ≡ https) ⊎ ((parsed.scheme ≡ http) × (is_loopback_literal lib hostname ≡ true))
  pub rebuilt :
      url ≡ parsed.scheme ++ text "://" ++ host_port hostname is_ipv6 port ++ text "/api/v1/reports"

pub record HasCleanParts (parsed : SplitResult) : Type 0 where
  pub scheme : (parsed.scheme ≡ http) ⊎ (parsed.scheme ≡ https)
  pub no_user : parsed.username ≡ none
  pub no_password : parsed.password ≡ none
  pub no_query : parsed.query ≡ []
  pub no_fragment : parsed.fragment ≡ []
  pub path : parsed.path ≡ required_path

check_parts-clean : (parsed : SplitResult) → check_parts parsed ≡ ok tt → HasCleanParts parsed
unfolding check_parts
check_parts-clean parsed h = record {
  scheme = ground (arith, h);
  no_user = ground (arith, h);
  no_password = ground (arith, h);
  no_query = ground (arith, h);
  no_fragment = ground (arith, h);
  path = ground (arith, h);
}

host_found :
    (lib : Parsers) (raw hostname : Text) (is_ipv6 : Bool)
    → validate_hostname lib raw ≡ ok (hostname, is_ipv6)
    → (has_char b'%' raw ≡ false) × HostOf lib raw hostname is_ipv6
unfolding validate_hostname
host_found lib raw hostname is_ipv6 h = (
  ground (arith, h),
  elim (Option-cases (lib.ip_address raw)) [
    | inr (addr, found) ↦ inl (addr, (found, (ground (arith, h, found), ground (arith, h, found))))
    | inl unknown ↦ elim (Result-cases (validate_dns_hostname raw)) [
      | inl (u, good) ↦
          inr (good, (ground (arith, h, unknown, good), ground (arith, h, unknown, good)))
      | inr (e, bad) ↦ ground (arith, h, unknown, bad)
    ]
  ],
)

named-ok :
    (o : Result (Option Text)) (raw : Text)
    → (parsed_or_invalid o >>= (λ hostname. named_host hostname)) ≡ ok raw
    → o ≡ ok (some raw)
named-ok (ok none) raw h = ground (arith, h)
named-ok (ok (some [])) raw h = ground (arith, h)
named-ok (ok (some (c ∷ t))) raw h = ground (arith, h)
named-ok (err e) raw h = ground (arith, h)

port-ok :
    (o : Result (Option ℕ)) (port : Option ℕ)
    → (parsed_or_invalid o >>= (λ p. check_port p)) ≡ ok port
    → (o ≡ ok port) × (is_port port ≡ true)
unfolding check_port
port-ok (ok p) port h = ground (arith, h)
port-ok (err e) port h = ground (arith, h)

url_built :
    (lib : Parsers) (scheme hostname : Text) (is_ipv6 : Bool) (port : Option ℕ) (url : Text)
    → build_url lib scheme hostname is_ipv6 port ≡ ok url
    → (url ≡ scheme ++ text "://" ++ host_port hostname is_ipv6 port ++ text "/api/v1/reports")
      × ((scheme ≡ http) → is_loopback_literal lib hostname ≡ true)
unfolding build_url scheme_mark required_path
url_built lib scheme hostname is_ipv6 port url h =
    (ground (arith, h, authority_of-host_port hostname is_ipv6 port), λ e. ground (arith, h, e))

bound {ℓ κ} :
    {A : Type ℓ} {B : Type κ} (r : Result A) (f : A → Result B) (b : B)
    → (r >>= f) ≡ ok b
    → (a : A) × ((r ≡ ok a) × (f a ≡ ok b))
bound (ok a) f b h = (a, (refl, h))
bound (err e) f b h = ground (arith, h)

-- An endpoint that is accepted is the scheme, the host and the port that the parser found, with the path
-- of the submission of reports: its scheme is https, or http with a loopback host, its host is an
-- address, in brackets exactly if it is one of IPv6, or a name that passed the checks, without a zone,
-- its port is written exactly if there is one and is in range, and there are no credentials, query or
-- fragment.
pub validate_endpoint_sound :
    (lib : Parsers) (raw url : Text) → validate_endpoint lib raw ≡ ok url → IsEndpoint lib raw url
unfolding validate_endpoint endpoint_of
validate_endpoint_sound lib raw url h = elim (Bool-cases (has_forbidden raw)) [
  | inl dirty ↦ ground (arith, h, dirty)
  | inr clean ↦ elim (Result-cases (lib.urlsplit raw)) [
    | inr (e, bad) ↦ ground (arith, h, clean, bad)
    | inl (parsed, split_as) ↦ elim (Result-cases (check_parts parsed)) [
      | inr (e, bad) ↦ ground (arith, h, clean, split_as, bad)
      | inl (u, good) ↦
          let parts = check_parts-clean parsed good in
          let whole : endpoint_of lib parsed ≡ ok url = ground (arith, h, clean, split_as, good) in
          let (host, (found, rest)) = bound _ _ url whole in
          let (raw_hostname, (named, valid)) = bound _ _ host found in
          let (port, (read, built)) = bound _ _ url rest in
          let (scoped, host_of) = host_found lib raw_hostname host.0 host.1 valid in
          let (port_read, port_range) = port-ok parsed.port port read in
          let (rebuilt, local) = url_built lib parsed.scheme host.0 host.1 port url built in
          record {
            parsed = parsed;
            split_as = split_as;
            raw_hostname = raw_hostname;
            hostname = host.0;
            is_ipv6 = host.1;
            port = port;
            clean = clean;
            no_user = parts.no_user;
            no_password = parts.no_password;
            no_query = parts.no_query;
            no_fragment = parts.no_fragment;
            path = parts.path;
            named = named-ok parsed.hostname raw_hostname named;
            scoped = scoped;
            host = host_of;
            port_read = port_read;
            port_range = port_range;
            secure = elim parts.scheme [ inr tls ↦ inl tls | inl plain ↦ inr (plain, local plain) ];
            rebuilt = rebuilt;
          }
    ]
  ]
]
