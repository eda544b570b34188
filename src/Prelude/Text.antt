-- ===== src/Prelude/Text.antt =====
-- Texts as lists of code points, and what the program compares them by.
use Prim.Native.Nat.{ℕ, zero, suc, ◌+◌, ◌/◌, ◌%◌, compare, Ordering}
use mathlib.Core.Bool.{Bool, true, false, ◌||◌}
use Prim.Native.Char.{code}
use Prim.Native.String.{String}
use mathlib.Core.Path.{◌≡◌}
use mathlib.Core.List.{List, [], ◌∷◌, ◌++◌}
use mathlib.Core.Option.{Option, none, some}
use native.Mathlib.Decide.{ℕ_discrete}

-- A Python `str`.
abbrev pub Text : Type 0
Text = List ℕ

-- The code points of a literal.
unfoldable pub text : String → Text
text String.[] = []
text (String.◌∷◌ c s) = code c ∷ text s

-- The equality that Python's `==` and `dict` use on a type of values.
pub record DecEq {ℓ} (A : Type ℓ) : Type ℓ where
  pub decide : Discrete A

infix 50 ◌≟◌
abbrev pub ◌≟◌ {ℓ} : {A : Type ℓ} ⦃e : DecEq A⦄ (a b : A) → Dec (a ≡ b)
◌≟◌ ⦃e⦄ a b = e.decide a b

unfoldable pub Text-discrete : Discrete Text
Text-discrete = hlevel ℕ_discrete

abbrev pub Key : Type 0
Key = Text × Text

unfoldable pub Key-discrete : Discrete Key
Key-discrete = hlevel ℕ_discrete

instance abbrev pub text_eq : DecEq Text
text_eq = record { decide = Text-discrete }

instance abbrev pub key_eq : DecEq Key
key_eq = record { decide = Key-discrete }

abbrev same_char : ℕ → ℕ → Bool
same_char a b = elim (compare a b) [ Ordering.eq ↦ true | _ ↦ false ]

-- `c in value`, for one character
unfoldable pub has_char : ℕ → Text → Bool
has_char c [] = false
has_char c (d ∷ t) = same_char c d || has_char c t

-- `str(n)` of a natural number, with fuel
unfoldable pub decimal_on : ℕ → ℕ → Text
decimal_on zero n = []
decimal_on (suc fuel) n = elim (compare n 10) [
  | Ordering.lt ↦ (48 + n) ∷ []
  | _ ↦ decimal_on fuel (n / 10) ++ (48 + n % 10) ∷ []
]

-- a number has at most as many digits as its successor says
unfoldable pub decimal : ℕ → Text
decimal n = decimal_on (suc n) n

-- `value[len(prefix):]`, if the value starts so
unfoldable pub drop_prefix : Text → Text → Option Text
drop_prefix [] t = some t
drop_prefix (c ∷ p) [] = none
drop_prefix (c ∷ p) (d ∷ t) =
    let rest = drop_prefix p t in elim (same_char c d) [ true ↦ rest | false ↦ none ]
