-- ===== src/Http/Headers.antt =====
-- ingestion_api/app.py and bounded_body.py: the checks on the raw header list, and the bounded read of a
-- body.
use Prim.Native.Nat.{◌*◌}
use cloudops_guard.Prelude.{
  ℕ, ◌+◌, ◌-◌, ltb, leb, ◌==◌, Bool, true, false, ◌&&◌, ◌||◌, not, Option, none, some, List, [],
  ◌∷◌, ◌++◌, ite, if◌then◌else◌, length,
}
use cloudops_guard.Prelude.Text.{text, ◌≟◌, text_eq}
use cloudops_guard.Prelude.Codes.{Code}
use cloudops_guard.Prelude.Result.{Result, ok, err, api_error, value_error}
use cloudops_guard.Ingestion.Blobs.{Bytes}
use cloudops_guard.Http.{HttpRequest, Server}

-- `raise ApiError(code)`
abbrev pub reject {ℓ} : {A : Type ℓ} → Code → Result A
reject code = err (api_error code none)

-- `_raw_header_values`
unfoldable pub raw_header_values : Bytes → List (Bytes × Bytes) → List Bytes
raw_header_values name [] = []
raw_header_values name ((k, v) ∷ hs) =
    let rest = raw_header_values name hs in ite (k ≟ name) (v ∷ rest) rest

abbrev exactly_one : Code → List Bytes → Result Bytes
exactly_one code (v ∷ []) = ok v
exactly_one code _ = reject code

-- `_require_exactly_one_header`
unfoldable pub require_exactly_one_header : HttpRequest → Bytes → Code → Result Bytes
require_exactly_one_header q name code = exactly_one code (raw_header_values name q.headers)

abbrev at_most_one : Code → List Bytes → Result (Option Bytes)
at_most_one code [] = ok none
at_most_one code (v ∷ []) = ok (some v)
at_most_one code _ = reject code

-- `_require_at_most_one_header`
unfoldable pub require_at_most_one_header : HttpRequest → Bytes → Code → Result (Option Bytes)
require_at_most_one_header q name code = at_most_one code (raw_header_values name q.headers)

abbrev absent : Code → List Bytes → Result (Unit {0})
absent code [] = ok tt
absent code _ = reject code

-- `_reject_any_occurrence`
unfoldable pub reject_any_occurrence : HttpRequest → Bytes → Code → Result (Unit {0})
reject_any_occurrence q name code = absent code (raw_header_values name q.headers)

unfoldable pub content_type_name : Bytes
unfolding text
content_type_name = text "content-type"

unfoldable pub content_encoding_name : Bytes
unfolding text
content_encoding_name = text "content-encoding"

unfoldable pub content_length_name : Bytes
unfolding text
content_length_name = text "content-length"

unfoldable pub application_json : Bytes
unfolding text
application_json = text "application/json"

-- `_assert_exact_json_content_type`
unfoldable pub assert_exact_json_content_type : HttpRequest → Result (Unit {0})
assert_exact_json_content_type q =
    elim (require_exactly_one_header q content_type_name Code.unsupported_content_type) [
      | err e ↦ err e
      | ok v ↦ ite (v ≟ application_json) (ok tt) (reject Code.unsupported_content_type)
    ]

-- `_assert_no_content_encoding`
unfoldable pub assert_no_content_encoding : HttpRequest → Result (Unit {0})
assert_no_content_encoding q =
    reject_any_occurrence q content_encoding_name Code.unsupported_content_encoding

-- `_assert_content_length_singleton`
unfoldable pub assert_content_length_singleton : HttpRequest → Result (Unit {0})
assert_content_length_singleton q =
    elim (require_at_most_one_header q content_length_name Code.invalid_request) [
      | err e ↦ err e
      | ok v ↦ ok tt
    ]

abbrev is_digit : ℕ → Bool
is_digit c = leb 48 c && leb c 57

abbrev is_nil : Bytes → Bool
is_nil [] = true
is_nil (c ∷ t) = false

-- The rest of a match of `^[0-9]+$`, whose `$` also stands before a newline at the end.
unfoldable pub digits_rest : Bytes → Bool
digits_rest [] = true
digits_rest (c ∷ t) = (is_digit c && digits_rest t) || (c == 10 && is_nil t)

-- `_DIGITS_ONLY_RE.match`
unfoldable pub digits_only : Bytes → Bool
digits_only [] = false
digits_only (c ∷ t) = is_digit c && digits_rest t

-- the value of the digits, without the newline that `int` strips
unfoldable pub digits_value : ℕ → Bytes → ℕ
digits_value acc [] = acc
digits_value acc (c ∷ t) =
    let more = digits_value (acc * 10 + (c - 48)) t in if is_digit c then more else acc

unfoldable pub count_digits : Bytes → ℕ
count_digits [] = 0
count_digits (c ∷ t) = let rest = count_digits t in if is_digit c then rest + 1 else rest

-- the digits that `int` reads from a text, by default
abbrev pub int_max_str_digits : ℕ
int_max_str_digits = 4300

-- `int(declared)` of what the pattern accepts
unfoldable pub int_of : Bytes → Result ℕ
int_of t =
    if ltb int_max_str_digits (count_digits t) then err value_error else ok (digits_value 0 t)

abbrev within : ℕ → Result ℕ → Result (Unit {0})
within max_bytes (err e) = err e
within max_bytes (ok n) = if ltb max_bytes n then reject Code.payload_too_large else ok tt

unfoldable pub check_declared : ℕ → List Bytes → Result (Unit {0})
check_declared max_bytes [] = ok tt
check_declared max_bytes (declared ∷ []) =
    if not (digits_only declared)
    then reject Code.invalid_request
    else within max_bytes (int_of declared)
check_declared max_bytes _ = reject Code.invalid_request

-- `validate_declared_content_length`
unfoldable pub validate_declared_content_length : HttpRequest → ℕ → Result (Unit {0})
validate_declared_content_length q max_bytes =
    check_declared max_bytes (raw_header_values content_length_name q.headers)

-- The loop over `request.stream()`, with the total and the bytes so far. An empty chunk adds nothing.
-- Beside the outcome stand the chunks that were not asked for.
unfoldable pub read_chunks : ℕ → ℕ → Bytes → List Bytes → Result Bytes × List Bytes
read_chunks max_bytes total so_far [] = (ok so_far, [])
read_chunks max_bytes total so_far (chunk ∷ chunks) =
    let more = read_chunks max_bytes (total + length chunk) (so_far ++ chunk) chunks in
    if ltb max_bytes (total + length chunk) then (reject Code.payload_too_large, chunks) else more

-- `read_bounded_body`
unfoldable pub read_bounded_body : HttpRequest → ℕ → Server → Result Bytes × Server
read_bounded_body q max_bytes s = elim (validate_declared_content_length q max_bytes) [
  | err e ↦ (err e, s)
  | ok u ↦
      let (body, chunks) = read_chunks max_bytes 0 [] s.pending in
      (body, record s { pending = chunks })
]
