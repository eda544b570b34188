-- ===== src/Prelude/Utf8.antt =====
-- `bytes.decode("utf-8")`, strict: one step of the decoder per byte.
use Prim.Native.Nat.{◌*◌}
use mathlib.Core.Option.{map}
use cloudops_guard.Prelude.Text.{Text}
use Prim.Native.Nat.{ℕ, zero, suc, ◌+◌, ◌-◌, compare, Ordering}
use mathlib.Core.Bool.{Bool, true, false}
use mathlib.Core.List.{List, [], ◌∷◌}
use mathlib.Core.Option.{Option, none, some}

-- the continuation bytes that are missing, the value so far, and the bounds of the next byte
pub record Pending : Type 0 where
  pub missing : ℕ
  pub value : ℕ
  pub lowest : ℕ
  pub highest : ℕ

abbrev between : ℕ → ℕ → ℕ → Bool
between a b c = elim (compare a b) [
  | Ordering.gt ↦ false
  | _ ↦ elim (compare b c) [ Ordering.gt ↦ false | _ ↦ true ]
]

abbrev idle : Pending
idle = record { missing = 0; value = 0; lowest = 0; highest = 0 }

abbrev expect : ℕ → ℕ → ℕ → ℕ → Option (Pending × Option ℕ)
expect n v lo hi = some (record { missing = n; value = v; lowest = lo; highest = hi }, none)

-- the first byte of a character, by the table of well-formed sequences
unfoldable pub lead : ℕ → Option (Pending × Option ℕ)
lead b = elim (between 0 b 127) [
  | true ↦ some (idle, some b)
  | false ↦ elim (between 194 b 223) [
    | true ↦ expect 1 (b - 192) 128 191
    | false ↦ elim (between 224 b 239) [
      | true ↦ elim (compare b 224) [
        | Ordering.eq ↦ expect 2 0 160 191
        | _ ↦ elim (compare b 237) [
          | Ordering.eq ↦ expect 2 13 128 159
          | _ ↦ expect 2 (b - 224) 128 191
        ]
      ]
      | false ↦ elim (between 240 b 244) [
        | true ↦ elim (compare b 240) [
          | Ordering.eq ↦ expect 3 0 144 191
          | _ ↦ elim (compare b 244) [
            | Ordering.eq ↦ expect 3 4 128 143
            | _ ↦ expect 3 (b - 240) 128 191
          ]
        ]
        | false ↦ none
      ]
    ]
  ]
]

-- a continuation byte, when `more` are missing after it
unfoldable pub continuation : ℕ → Pending → ℕ → Option (Pending × Option ℕ)
continuation zero p b = elim (between p.lowest b p.highest) [
  | true ↦ some (idle, some (p.value * 64 + (b - 128)))
  | false ↦ none
]
continuation (suc more) p b = elim (between p.lowest b p.highest) [
  | true ↦ expect (suc more) (p.value * 64 + (b - 128)) 128 191
  | false ↦ none
]

unfoldable pub decode_step : Pending → ℕ → Option (Pending × Option ℕ)
decode_step p b = elim p.missing [ zero ↦ lead b | suc more ↦ continuation more p b ]

unfoldable pub decode_from : Pending → List ℕ → Option Text
decode_from p [] = elim p.missing [ zero ↦ some [] | suc more ↦ none ]
decode_from p (b ∷ bs) = elim (decode_step p b) [
  | none ↦ none
  | some (q, none) ↦ decode_from q bs
  | some (q, some c) ↦ map (λ t. c ∷ t) (decode_from q bs)
]

unfoldable pub decode_utf8 : List ℕ → Option Text
decode_utf8 bs = decode_from idle bs
