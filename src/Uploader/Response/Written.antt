-- ===== src/Uploader/Response/Written.antt =====
-- The formats that the server's identifiers, fingerprints and times are written in, as the client reads
-- them.
use cloudops_guard.Prelude.{
  ℕ_discrete, ℕ, ◌+◌, ◌≤◌, true, some, [], ◌∷◌, ◌++◌, ◌≡◌, ◌≢◌, refl, ◌⊎◌, inl, inr, arith, ap, ◌∙◌,
  length, zero, suc,
}
use cloudops_guard.Prelude.Text.{Text-discrete, Text, text, text_eq, drop_prefix}
use cloudops_guard.Http.{Environment}
use cloudops_guard.Http.Responses.{format_timestamp, zulu, utc_offset}
use cloudops_guard.Ingestion.Models.{DateTime}
use cloudops_guard.Uploader.Timestamp.{
  fits, number, skip, is_calendar, is_received_at, seconds_shape, micros_shape,
}
use cloudops_guard.Uploader.Response.{is_tagged, all_hex}

-- `uuid.UUID.hex`, and `hexdigest`: this many lower-case hexadecimal digits
abbrev pub IsHex : ℕ → Text → Type 0
IsHex n t = (length t ≡ n) × (all_hex t ≡ true)

-- A moment as `datetime.isoformat` writes it, up to the offset: with microseconds or without, and with
-- fields in the ranges of `datetime`.
abbrev pub IsMoment : Text → Type 0
IsMoment t =
    ((fits (text "dddd-dd-ddTdd:dd:dd") t ≡ true)
      ⊎ (fits (text "dddd-dd-ddTdd:dd:dd.dddddd") t ≡ true))
    × (is_calendar t ≡ true)

drop-append : (tag t : Text) → drop_prefix tag (tag ++ t) ≡ some t
unfolding drop_prefix
drop-append [] t = refl
drop-append (c ∷ tag) t = ground (arith, drop-append tag t)

pub hex-is_tagged : (tag : Text) (n : ℕ) (t : Text) → IsHex n t → is_tagged tag n (tag ++ t) ≡ true
unfolding is_tagged
hex-is_tagged tag n t (len, hex) = ground (arith, drop-append tag t, len, hex)

length-append : (a b : Text) → length (a ++ b) ≡ length a + length b
length-append [] b = omega arith
length-append (c ∷ a) b = omega (arith, length-append a b)

offset_length : length utc_offset ≡ 6
unfolding utc_offset text
offset_length = refl

longer : (c : ℕ) (t : Text) → c ∷ t ++ utc_offset ≢ utc_offset
longer c t same = omega (arith, ap length same, length-append t utc_offset, offset_length)

offset_only : zulu utc_offset ≡ 90 ∷ []
unfolding zulu utc_offset text Text-discrete ℕ_discrete
offset_only = refl

zulu-offset : (t : Text) → zulu (t ++ utc_offset) ≡ t ++ 90 ∷ []
unfolding zulu
zulu-offset [] = offset_only
zulu-offset (c ∷ t) = ground (arith, longer c t, zulu-offset t)

fits-Z : (p t : Text) → fits p t ≡ true → fits (p ++ 90 ∷ []) (t ++ 90 ∷ []) ≡ true
unfolding fits
fits-Z [] [] h = refl
fits-Z [] (d ∷ t) h = ground (arith, h)
fits-Z (c ∷ p) [] h = ground (arith, h)
fits-Z (c ∷ p) (d ∷ t) h = ground (arith, h, fits-Z p t)

fits-length : (p t : Text) → fits p t ≡ true → length t ≡ length p
unfolding fits
fits-length [] [] h = refl
fits-length [] (d ∷ t) h = ground (arith, h)
fits-length (c ∷ p) [] h = ground (arith, h)
fits-length (c ∷ p) (d ∷ t) h = ground (arith, h, fits-length p t)

number-append : (n acc : ℕ) (t z : Text) → n ≤ length t → number n acc (t ++ z) ≡ number n acc t
unfolding number
number-append zero acc t z h = refl
number-append (suc n) acc [] z h = ground (arith, h)
number-append (suc n) acc (c ∷ t) z h = number-append n _ t z (omega (arith, h))

skip-append :
    (n : ℕ) (t z : Text)
    → n ≤ length t
    → (skip n (t ++ z) ≡ skip n t ++ z) × (length (skip n t) + n ≡ length t)
unfolding skip
skip-append zero t z h = (refl, omega arith)
skip-append (suc n) [] z h = ground (arith, h)
skip-append (suc n) (c ∷ t) z h =
    let (same, left) = skip-append n t z (omega (arith, h)) in (same, omega (arith, left))

read-append :
    (n m : ℕ) (t z : Text) → n + m ≤ length t → number n 0 (skip m (t ++ z)) ≡ number n 0 (skip m t)
read-append n m t z h =
    let (same, left) = skip-append m t z (omega (arith, h)) in
    ap (number n 0) same ∙ number-append n 0 (skip m t) z (omega (arith, h, left))

calendar-append : (t z : Text) → 19 ≤ length t → is_calendar (t ++ z) ≡ is_calendar t
unfolding is_calendar
calendar-append t z h =
    rw
      (
        number-append 4 0 t z (omega (arith, h)),
        read-append 2 5 t z (omega (arith, h)),
        read-append 2 8 t z (omega (arith, h)),
        read-append 2 11 t z (omega (arith, h)),
        read-append 2 14 t z (omega (arith, h)),
        read-append 2 17 t z (omega (arith, h)),
      )
      refl

moment-read : (t : Text) → IsMoment t → is_received_at (t ++ 90 ∷ []) ≡ true
unfolding is_received_at seconds_shape micros_shape text
moment-read t (inl short, dated) = ground (
  arith,
  fits-Z (text "dddd-dd-ddTdd:dd:dd") t short,
  dated,
  calendar-append t (90 ∷ []) (omega (arith, fits-length _ t short)),
)
moment-read t (inr long, dated) = ground (
  arith,
  fits-Z (text "dddd-dd-ddTdd:dd:dd.dddddd") t long,
  dated,
  calendar-append t (90 ∷ []) (omega (arith, fits-length _ t long)),
)

-- The server writes what `isoformat` gives in UTC in the form that the client reads.
pub written-read :
    (env : Environment) (at : DateTime) (t : Text)
    → env.isoformat at ≡ t ++ text "+00:00"
    → IsMoment t
    → is_received_at (format_timestamp env at) ≡ true
unfolding format_timestamp utc_offset
written-read env at t iso moment =
    ap is_received_at (ap zulu iso ∙ zulu-offset t) ∙ moment-read t moment
