-- ===== src/Ingestion/StorageKeys.antt =====
-- ingestion/storage_keys.py: the storage key of an ingestion's report.
use Prim.Native.Nat.{suc, ℕ}
use mathlib.Core.List.{reverse}
use cloudops_guard.Prelude.{
  ◌≢◌, length-append, refl, ◌+◌, ◌≤◌, ◌≡◌, arith, Bool, false, [], ◌∷◌, ◌++◌, ltb, leb, ◌==◌, ◌&&◌,
  ◌||◌, length, if◌then◌else◌, ite, inl, inr,
}
use cloudops_guard.Prelude.Text.{has_char, Text, ◌≟◌, text_eq}
use cloudops_guard.Prelude.Result.{Result-cases, Result, ok, err, invalid_identifier, ◌>>=◌}

-- `_MAX_IDENTIFIER_LENGTH`
abbrev pub max_identifier_length : ℕ
max_identifier_length = 256

-- `".." in value`
unfoldable pub has_dots : Text → Bool
has_dots [] = false
has_dots (c ∷ []) = false
has_dots (c ∷ d ∷ t) = (c == b'.' && d == b'.') || has_dots (d ∷ t)

-- `str.isspace` of one character
unfoldable pub is_space : ℕ → Bool
is_space c =
    (leb 9 c && leb c 13)
    || (leb 28 c && leb c 32)
    || c == 0x85
    || c == 0xa0
    || c == 0x1680
    || (leb 0x2000 c && leb c 0x200a)
    || c == 0x2028
    || c == 0x2029
    || c == 0x202f
    || c == 0x205f
    || c == 0x3000

unfoldable pub strip_left : Text → Text
unfolding is_space
strip_left [] = []
strip_left (c ∷ t) = let rest = strip_left t in if is_space c then rest else c ∷ t

-- `value.strip()`
unfoldable pub strip : Text → Text
unfolding strip_left
strip t = reverse (strip_left (reverse (strip_left t)))

-- `_validate_identifier`
unfoldable pub validate_identifier : Text → Result Text
unfolding has_char has_dots
validate_identifier [] = err invalid_identifier
validate_identifier (c ∷ t) =
    let value = c ∷ t in
    if ltb max_identifier_length (length value)
    then err invalid_identifier
    else if has_char 0 value
    then err invalid_identifier
    else if has_char b'/' value || has_char 0x5c value
    then err invalid_identifier
    else if has_dots value
    then err invalid_identifier
    else ite (value ≟ b'.' ∷ []) (err invalid_identifier)
        (ite (value ≟ strip value) (ok value) (err invalid_identifier))

unfoldable pub derive_storage_key : Text → Text → Result Text
derive_storage_key tenant_id ingestion_id = do
  validated_tenant_id ← validate_identifier tenant_id
  validated_ingestion_id ← validate_identifier ingestion_id
  ok (validated_tenant_id ++ (b'/' ∷ validated_ingestion_id))

pub validate_identifier-eq_ok :
    (t u : Text)
    → validate_identifier t ≡ ok u
    → (u ≡ t)
      × (has_char b'/' t ≡ false)
      × (has_char 0x5c t ≡ false)
      × (has_dots t ≡ false)
      × (length t ≤ max_identifier_length)
      × (has_char 0 t ≡ false)
      × (t ≢ [])
unfolding validate_identifier
validate_identifier-eq_ok [] u h = ground arith
validate_identifier-eq_ok (c ∷ t) u h = ground arith

-- what stands before the first separator determines both parts
split_unique :
    (t t' i i' : Text)
    → has_char b'/' t ≡ false
    → has_char b'/' t' ≡ false
    → t ++ (b'/' ∷ i) ≡ t' ++ (b'/' ∷ i')
    → (t ≡ t') × (i ≡ i')
unfolding has_char
split_unique [] [] i i' h h' e = ground arith
split_unique [] (d ∷ t') i i' h h' e = ground arith
split_unique (c ∷ t) [] i i' h h' e = ground arith
split_unique (c ∷ t) (d ∷ t') i i' h h' e = ground (arith, split_unique t t' i i')

-- Two ingestions with a storage key share it only if they are the same ingestion of the same tenant.
pub derive_storage_key_injective :
    (t t' i i' k : Text)
    → derive_storage_key t i ≡ ok k
    → derive_storage_key t' i' ≡ ok k
    → (t ≡ t') × (i ≡ i')
unfolding derive_storage_key
derive_storage_key_injective t t' i i' k h h' = elim (Result-cases (validate_identifier t)) [
  | inr (x, bad) ↦ ground arith
  | inl (u, a) ↦ elim (Result-cases (validate_identifier t')) [
    | inr (x, bad) ↦ ground arith
    | inl (u', a') ↦ elim (Result-cases (validate_identifier i)) [
      | inr (x, bad) ↦ ground arith
      | inl (w, b) ↦ elim (Result-cases (validate_identifier i')) [
        | inr (x, bad) ↦ ground arith
        | inl (w', b') ↦ ground (
          arith,
          validate_identifier-eq_ok t u a,
          validate_identifier-eq_ok t' u' a',
          validate_identifier-eq_ok i w b,
          validate_identifier-eq_ok i' w' b',
          split_unique t t' i i',
        )
      ]
    ]
  ]
]

has_dots-append :
    (t i : Text) → has_dots t ≡ false → has_dots i ≡ false → has_dots (t ++ (b'/' ∷ i)) ≡ false
unfolding has_dots
has_dots-append [] [] h k = ground arith
has_dots-append [] (d ∷ i) h k = ground arith
has_dots-append (c ∷ []) i h k = ground (arith, has_dots-append [] i)
has_dots-append (c ∷ d ∷ t) i h k = ground (arith, has_dots-append (d ∷ t) i)

-- the number of times that a character stands in a text
abbrev pub count_char : ℕ → Text → ℕ
count_char c [] = 0
count_char c (d ∷ t) = if c == d then suc (count_char c t) else count_char c t

count_char-none : (c : ℕ) (t : Text) → has_char c t ≡ false → count_char c t ≡ 0
unfolding has_char
count_char-none c [] h = refl
count_char-none c (d ∷ t) h = ground (arith, count_char-none c t)

count_char-append : (c : ℕ) (t i : Text) → count_char c (t ++ i) ≡ count_char c t + count_char c i
count_char-append c [] i = omega arith
count_char-append c (d ∷ t) i = ground (arith, count_char-append c t i)

-- A storage key has exactly one separator, no `..` and no backslash, and is at most 513 characters
-- long: no tenant or ingestion id reaches out of its tenant's folder.
pub derive_storage_key_confined :
    (t i k : Text)
    → derive_storage_key t i ≡ ok k
    → (count_char b'/' k ≡ 1) × (count_char 0x5c k ≡ 0) × (has_dots k ≡ false) × (length k ≤ 513)
unfolding derive_storage_key
derive_storage_key_confined t i k h = elim (Result-cases (validate_identifier t)) [
  | inr (x, bad) ↦ ground arith
  | inl (u, a) ↦ elim (Result-cases (validate_identifier i)) [
    | inr (x, bad) ↦ ground arith
    | inl (w, b) ↦
        let p = validate_identifier-eq_ok t u a in
        let q = validate_identifier-eq_ok i w b in
        ground (
          arith,
          count_char-append b'/' t (b'/' ∷ i),
          count_char-none b'/' t,
          count_char-none b'/' i,
          count_char-append 0x5c t (b'/' ∷ i),
          count_char-none 0x5c t,
          count_char-none 0x5c i,
          has_dots-append t i,
          length-append t (b'/' ∷ i),
        )
  ]
]
