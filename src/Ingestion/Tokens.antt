-- ===== src/Ingestion/Tokens.antt =====
-- ingestion/token_format.py: the structure of a bearer token.
use cloudops_guard.Prelude.Text.{Text}
use cloudops_guard.Prelude.Result.{ok, token_format_error, err, Result}
use cloudops_guard.Prelude.{
  suc, ◌⊎◌, ◌∙◌, ap, sym, inr, arith, not, refl, inl, ◌||◌, ◌==◌, ◌&&◌, [], Bool-cases, length,
  false, leb, if◌then◌else◌, ◌∷◌, true, Bool, List, ℕ, ◌≡◌, ◌++◌,
}

abbrev pub token_delimiter : ℕ
token_delimiter = 46

abbrev pub lookup_id_length : ℕ
lookup_id_length = 22

abbrev pub secret_length : ℕ
secret_length = 43

pub record ParsedToken : Type 0 where
  pub lookup_id : Text
  pub secret : Text

-- `[A-Za-z0-9_-]`
unfoldable pub is_url_safe : ℕ → Bool
is_url_safe c =
    (leb 65 c && leb c 90)
    || (leb 97 c && leb c 122)
    || (leb 48 c && leb c 57)
    || c == 95
    || c == 45

abbrev is_nil {ℓ} : {A : Type ℓ} → List A → Bool
is_nil [] = true
is_nil (x ∷ xs) = false

-- The rest of a match of `^[A-Za-z0-9_-]+$`: Python's `$` also stands before a newline at the end.
unfoldable pub matches_rest : Text → Bool
matches_rest [] = true
matches_rest (c ∷ t) = (is_url_safe c && matches_rest t) || (c == 10 && is_nil t)

-- `_URL_SAFE_BASE64_RE.match`
unfoldable pub matches_url_safe : Text → Bool
matches_url_safe [] = false
matches_url_safe (c ∷ t) = is_url_safe c && matches_rest t

-- a character before the first part
abbrev onto : ℕ → List Text → List Text
onto c [] = (c ∷ []) ∷ []
onto c (p ∷ ps) = (c ∷ p) ∷ ps

-- `str.split` by one character
unfoldable pub split : ℕ → Text → List Text
split d [] = [] ∷ []
split d (c ∷ t) = let rest = split d t in if c == d then [] ∷ rest else onto c rest

-- the checks of the two parts
unfoldable pub check_parts : Text → Text → Result ParsedToken
check_parts lookup_id secret =
    if is_nil lookup_id || is_nil secret
    then err token_format_error
    else if not (length lookup_id == lookup_id_length)
    then err token_format_error
    else if not (length secret == secret_length)
    then err token_format_error
    else if not (matches_url_safe lookup_id)
    then err token_format_error
    else if not (matches_url_safe secret)
    then err token_format_error
    else ok (record { lookup_id = lookup_id; secret = secret })

unfoldable pub two_parts : List Text → Result ParsedToken
two_parts (lookup_id ∷ secret ∷ []) = check_parts lookup_id secret
two_parts parts = err token_format_error

-- The argument is a text, so the check of its type has no branch.
unfoldable pub parse_token : Text → Result ParsedToken
parse_token token = two_parts (split token_delimiter token)

-- `lookup_id` and `secret` as a token is written
abbrev pub print_token : ParsedToken → Text
print_token p = p.lookup_id ++ token_delimiter ∷ p.secret

-- What a part may hold.
abbrev pub FitsPart : ℕ → Text → Type 0
FitsPart n t = (length t ≡ n) × (matches_url_safe t ≡ true)

abbrev pub join : ℕ → List Text → Text
join d [] = []
join d (p ∷ []) = p
join d (p ∷ q ∷ ps) = p ++ d ∷ join d (q ∷ ps)

pub split-ne-nil : (d : ℕ) (t : Text) → (p : Text) × ((ps : List Text) × (split d t ≡ p ∷ ps))
unfolding split
split-ne-nil d [] = ([], ([], refl))
split-ne-nil d (c ∷ t) =
    let (p, (ps, eq)) = split-ne-nil d t in
    elim (Bool-cases (c == d)) [
      | inl is_d ↦ ([], (split d t, ground (arith, is_d)))
      | inr not_d ↦ (c ∷ p, (ps, ground (arith, not_d, eq)))
    ]

join-onto : (d c : ℕ) (p : Text) (ps : List Text) → join d ((c ∷ p) ∷ ps) ≡ c ∷ join d (p ∷ ps)
join-onto d c p [] = refl
join-onto d c p (q ∷ ps) = refl

pub join-split : (d : ℕ) (t : Text) → join d (split d t) ≡ t
unfolding split
join-split d [] = refl
join-split d (c ∷ t) =
    let (p, (ps, eq)) = split-ne-nil d t in ground (arith, eq, join-split d t, join-onto d c p ps)

delimiter_rest : (t : Text) → matches_rest (token_delimiter ∷ t) ≡ false
unfolding matches_rest is_url_safe
delimiter_rest t = refl

not_delimiter : (c : ℕ) (t : Text) → matches_rest (c ∷ t) ≡ true → (c == token_delimiter) ≡ false
not_delimiter c t m = elim (Bool-cases (c == token_delimiter)) [
  | inl is_d ↦
      let same : c ≡ token_delimiter = ground (arith, is_d) in
      cc (sym m, ap (λ x. matches_rest (x ∷ t)) same, delimiter_rest t)
  | inr not_d ↦ not_d
]

more : (safe rest newline : Bool) → safe && rest || newline && false ≡ true → rest ≡ true
more true true newline e = refl
more safe false newline e = ground arith
more false true newline e = refl

rest-tail : (c : ℕ) (t : Text) → matches_rest (c ∷ t) ≡ true → matches_rest t ≡ true
unfolding matches_rest
rest-tail c [] m = refl
rest-tail c (d ∷ t) m = more (is_url_safe c) (matches_rest (d ∷ t)) (c == 10) m

no_delimiter : (t : Text) → matches_rest t ≡ true → split token_delimiter t ≡ t ∷ []
unfolding split
no_delimiter [] m = refl
no_delimiter (c ∷ t) m = rw (not_delimiter c t m, no_delimiter t (rest-tail c t m)) refl

split_append :
    (t u : Text)
    → matches_rest t ≡ true
    → split token_delimiter (t ++ token_delimiter ∷ u) ≡ t ∷ split token_delimiter u
unfolding split
split_append [] u m = refl
split_append (c ∷ t) u m = rw (not_delimiter c t m, split_append t u (rest-tail c t m)) refl

rest_of : (t : Text) → matches_url_safe t ≡ true → matches_rest t ≡ true
unfolding matches_url_safe matches_rest
rest_of [] m = ground arith
rest_of (c ∷ t) m = ground arith

check_parts_fit :
    (l s : Text)
    → FitsPart lookup_id_length l
    → FitsPart secret_length s
    → check_parts l s ≡ ok (record { lookup_id = l; secret = s })
unfolding check_parts
check_parts_fit l s (l_len, l_safe) (s_len, s_safe) = ground arith

fit_check_parts :
    (l s : Text) (p : ParsedToken)
    → check_parts l s ≡ ok p
    → ((p.lookup_id ≡ l) × (p.secret ≡ s))
      × (FitsPart lookup_id_length l × FitsPart secret_length s)
unfolding check_parts
fit_check_parts l s p e = ground (arith, e)

fit_two_parts :
    (ps : List Text) (p : ParsedToken)
    → two_parts ps ≡ ok p
    → (ps ≡ p.lookup_id ∷ p.secret ∷ [])
      × (FitsPart lookup_id_length p.lookup_id × FitsPart secret_length p.secret)
unfolding two_parts
fit_two_parts [] p e = ground arith
fit_two_parts (l ∷ []) p e = ground arith
fit_two_parts (l ∷ s ∷ []) p e = ground (arith, fit_check_parts l s p e)
fit_two_parts (l ∷ s ∷ q ∷ ps) p e = ground arith

-- every character of the alphabet of URL-safe base64
unfoldable pub all_url_safe : Text → Bool
all_url_safe [] = true
all_url_safe (c ∷ t) = is_url_safe c && all_url_safe t

-- A part of this length, all of the alphabet.
abbrev pub IsPart : ℕ → Text → Type 0
IsPart n t = (length t ≡ n) × (all_url_safe t ≡ true)

-- A part of this length, all of the alphabet but that its last character may be a newline.
abbrev pub IsPartOrLine : ℕ → Text → Type 0
IsPartOrLine n t =
    (length t ≡ n)
    × ((all_url_safe t ≡ true) ⊎ ((u : Text) × ((t ≡ u ++ 10 ∷ []) × (all_url_safe u ≡ true))))

safe_rest : (t : Text) → all_url_safe t ≡ true → matches_rest t ≡ true
unfolding all_url_safe matches_rest
safe_rest [] h = refl
safe_rest (c ∷ t) h = ground (arith, h, safe_rest t)

part-fits : (n : ℕ) (t : Text) → IsPart (suc n) t → FitsPart (suc n) t
unfolding all_url_safe matches_url_safe
part-fits n [] (len, safe) = ground (arith, len)
part-fits n (c ∷ t) (len, safe) = (len, ground (arith, safe, safe_rest t))

newline_only :
    (c : ℕ) (t : Text) → is_url_safe c ≡ false → matches_rest (c ∷ t) ≡ true → c ∷ t ≡ 10 ∷ []
unfolding matches_rest
newline_only c [] unsafe h = ground (arith, unsafe, h)
newline_only c (d ∷ t) unsafe h = ground (arith, unsafe, h)

rest_or_line :
    (t : Text)
    → matches_rest t ≡ true
    → (all_url_safe t ≡ true) ⊎ ((u : Text) × ((t ≡ u ++ 10 ∷ []) × (all_url_safe u ≡ true)))
unfolding all_url_safe matches_rest
rest_or_line [] h = inl refl
rest_or_line (c ∷ t) h = elim (Bool-cases (is_url_safe c)) [
  | inr unsafe ↦ inr ([], (newline_only c t unsafe h, refl))
  | inl safe ↦ elim (rest_or_line t (rest-tail c t h)) [
    | inl all ↦ inl (ground (arith, safe, all))
    | inr (u, (same, all)) ↦ inr (c ∷ u, (ap (λ x. c ∷ x) same, ground (arith, safe, all)))
  ]
]

fits-part : (n : ℕ) (t : Text) → FitsPart n t → IsPartOrLine n t
fits-part n t (len, fits) = (len, rest_or_line t (rest_of t fits))

-- A token that is written from two parts of the fixed lengths, all of the alphabet of URL-safe base64,
-- parses to these parts.
pub parse-print :
    (p : ParsedToken)
    → IsPart lookup_id_length p.lookup_id
    → IsPart secret_length p.secret
    → parse_token (print_token p) ≡ ok p
unfolding parse_token two_parts
parse-print p l s =
    let l_fits = part-fits _ p.lookup_id l in
    let s_fits = part-fits _ p.secret s in
    ground (
      arith,
      split_append p.lookup_id p.secret (rest_of _ l_fits.1),
      no_delimiter p.secret (rest_of _ s_fits.1),
      check_parts_fit p.lookup_id p.secret l_fits s_fits,
    )

-- A token that parses is two parts around the delimiter, of the fixed lengths and of the alphabet of
-- URL-safe base64, except that the last character of a part may be a newline.
pub print-parse :
    (t : Text) (p : ParsedToken)
    → parse_token t ≡ ok p
    → (print_token p ≡ t)
      × (IsPartOrLine lookup_id_length p.lookup_id × IsPartOrLine secret_length p.secret)
unfolding parse_token two_parts
print-parse t p e =
    let (parts_eq, (l, s)) = fit_two_parts (split token_delimiter t) p e in
    (
      sym (ap (join token_delimiter) parts_eq) ∙ join-split token_delimiter t,
      (fits-part lookup_id_length p.lookup_id l, fits-part secret_length p.secret s),
    )
