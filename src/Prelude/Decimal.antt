-- ===== src/Prelude/Decimal.antt =====
-- The fuel of `decimal`: the digits of a number read back as the number.
use Prim.Native.Nat.{◌*◌, ◌/◌, ◌%◌}
use cloudops_guard.Prelude.Text.{Text, decimal_on, decimal}
use cloudops_guard.Prelude.{ℕ, zero, suc, ◌+◌, ◌-◌, ◌<◌, ◌≡◌, refl, [], ◌∷◌, ◌++◌, arith}

abbrev value_from : ℕ → Text → ℕ
value_from acc [] = acc
value_from acc (c ∷ t) = value_from (acc * 10 + (c - 48)) t

value_from-append :
    (acc c : ℕ) (t : Text) → value_from acc (t ++ c ∷ []) ≡ value_from acc t * 10 + (c - 48)
value_from-append acc c [] = refl
value_from-append acc c (d ∷ t) = value_from-append (acc * 10 + (d - 48)) c t

decimal_on-value : (fuel n : ℕ) → n < fuel → value_from 0 (decimal_on fuel n) ≡ n
unfolding decimal_on
decimal_on-value zero n enough = ground (arith, enough)
decimal_on-value (suc fuel) n enough = ground (
  arith,
  enough,
  decimal_on-value fuel (n / 10),
  value_from-append 0 (48 + n % 10) (decimal_on fuel (n / 10)),
)

-- The digits of `decimal n` are those of `n`, so its fuel is enough.
decimal-value : (n : ℕ) → value_from 0 (decimal n) ≡ n
unfolding decimal
decimal-value n = decimal_on-value (suc n) n (omega arith)
