-- ===== src/Uploader/Timestamp.antt =====
-- uploader/response.py, `_validate_received_at`: the two shapes of `_RECEIVED_AT_RE`, and the calendar
-- that `datetime.fromisoformat` checks afterwards. `\d` also matches digits beyond ASCII, which
-- `fromisoformat` refuses; both refusals are the same exception.
use Prim.Native.Nat.{◌%◌, ◌*◌}
use cloudops_guard.Prelude.{
  ℕ, zero, suc, ◌+◌, ◌-◌, leb, ◌==◌, Bool, true, false, ◌&&◌, ◌||◌, not, [], ◌∷◌, if◌then◌else◌,
}
use cloudops_guard.Prelude.Text.{Text, text}

-- a digit stands where the template has `d`, and the template's character elsewhere
unfoldable pub fits : Text → Text → Bool
fits [] [] = true
fits [] (d ∷ t) = false
fits (c ∷ p) [] = false
fits (c ∷ p) (d ∷ t) = (if c == b'd' then leb 48 d && leb d 57 else c == d) && fits p t

-- the number that the first digits write
unfoldable pub number : ℕ → ℕ → Text → ℕ
number zero acc t = acc
number (suc n) acc [] = acc
number (suc n) acc (c ∷ t) = number n (acc * 10 + (c - 48)) t

unfoldable pub skip : ℕ → Text → Text
skip zero t = t
skip (suc n) [] = []
skip (suc n) (c ∷ t) = skip n t

unfoldable pub is_leap : ℕ → Bool
is_leap y = y % 4 == 0 && (not (y % 100 == 0) || y % 400 == 0)

unfoldable pub days_in_month : ℕ → ℕ → ℕ
days_in_month y m =
    if m == 2
    then (if is_leap y then 29 else 28)
    else if m == 4 || m == 6 || m == 9 || m == 11
    then 30
    else 31

-- the fields of a text that fits, in the ranges of `datetime`
unfoldable pub is_calendar : Text → Bool
is_calendar t =
    let year = number 4 0 t in
    let month = number 2 0 (skip 5 t) in
    let day = number 2 0 (skip 8 t) in
    leb 1 year
    && leb 1 month
    && leb month 12
    && leb 1 day
    && leb day (days_in_month year month)
    && leb (number 2 0 (skip 11 t)) 23
    && leb (number 2 0 (skip 14 t)) 59
    && leb (number 2 0 (skip 17 t)) 59

unfoldable pub seconds_shape : Text
unfolding text
seconds_shape = text "dddd-dd-ddTdd:dd:ddZ"

unfoldable pub micros_shape : Text
unfolding text
micros_shape = text "dddd-dd-ddTdd:dd:dd.ddddddZ"

unfoldable pub is_received_at : Text → Bool
is_received_at t = (fits seconds_shape t || fits micros_shape t) && is_calendar t
