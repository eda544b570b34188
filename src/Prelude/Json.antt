-- ===== src/Prelude/Json.antt =====
-- A decoded JSON document, as `json.loads` returns it.
use Prim.Native.Nat.{ℕ}
use mathlib.Core.Bool.{true, false, Bool}
use mathlib.Core.List.{List, [], ◌∷◌}
use mathlib.Core.Logic.{ite}
use mathlib.Core.Option.{Option, none, some}
use cloudops_guard.Prelude.Text.{Text, ◌≟◌, text_eq}
use cloudops_guard.Prelude.{◌&&◌}

mutual
  pub data Json : Type 0 where
    null : Json
    boolean : Bool → Json
    -- an `int`, from 0 on and below
    whole : ℕ → Json
    negative : ℕ → Json
    -- a finite `float`, as `as_integer_ratio` gives it: whether it is negative, and its lowest terms
    float : Bool → ℕ → ℕ → Json
    string : Text → Json
    array : Items → Json
    object : Members → Json

  pub data Items : Type 0 where
    done : Items
    item : Json → Items → Items

  -- a `dict`, with its keys in order, none of them twice
  pub data Members : Type 0 where
    no_members : Members
    member : Text → Json → Members → Members

-- `decoded.get(name)`, which tells a missing key apart
unfoldable pub lookup_member : Text → Members → Option Json
lookup_member name no_members = none
lookup_member name (member k v ms) = ite (k ≟ name) (some v) (lookup_member name ms)

-- `decoded.keys()`
unfoldable pub member_names : Members → List Text
member_names no_members = []
member_names (member k v ms) = k ∷ member_names ms

-- `len` of a list
unfoldable pub count_items : Items → ℕ
count_items done = 0
count_items (item x xs) = ℕ.suc (count_items xs)

-- `in`, and `<=` of sets
abbrev pub one_of : Text → List Text → Bool
one_of t [] = false
one_of t (u ∷ us) = ite (t ≟ u) true (one_of t us)

abbrev pub subset : List Text → List Text → Bool
subset [] us = true
subset (t ∷ ts) us = one_of t us && subset ts us
