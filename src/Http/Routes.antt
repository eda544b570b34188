-- ===== src/Http/Routes.antt =====
-- ingestion_api/app.py, `_dispatch`: which paths reach a handler.
use cloudops_guard.Prelude.{
  ◌++◌, ℕ_discrete, ◌∙◌, sym, ◌↔◌, ◌==◌, subst, ℕ, All, true, false, ◌&&◌, Bool-cases, arith, ◌≡◌,
  refl, ap, inl, inr, List, [], ◌∷◌,
}
use cloudops_guard.Prelude.Text.{Text-discrete, has_char, Text, text, text_eq}
use cloudops_guard.Http.Dispatch.{
  Route, to_capabilities, to_reports, to_item, unsupported_version, no_route, route_of, is_empty,
  same, api, v1, capabilities_segment, reports_segment, under_v1,
}
use cloudops_guard.Ingestion.Tokens.{join-split, split-ne-nil, join, split}

unfoldable pub capabilities_path : Text
unfolding text
capabilities_path = text "/api/v1/capabilities"

unfoldable pub reports_path : Text
unfolding text
reports_path = text "/api/v1/reports"

is_empty-eq : (t : Text) → is_empty t ≡ true → t ≡ []
is_empty-eq [] e = refl
is_empty-eq (c ∷ t) e = ground arith

-- what the segments are, where a route has a handler
abbrev SegmentsOf : Route → List Text → Type 0
SegmentsOf to_capabilities ps = ps ≡ [] ∷ api ∷ v1 ∷ capabilities_segment ∷ []
SegmentsOf to_reports ps = ps ≡ [] ∷ api ∷ v1 ∷ reports_segment ∷ []
SegmentsOf (to_item i) ps = (ps ≡ [] ∷ api ∷ v1 ∷ reports_segment ∷ i ∷ []) × (is_empty i ≡ false)
SegmentsOf unsupported_version ps = Unit
SegmentsOf no_route ps = Unit

-- the same, of the segments after the version
abbrev RestOf : Route → List Text → Type 0
RestOf to_capabilities ps = ps ≡ capabilities_segment ∷ []
RestOf to_reports ps = ps ≡ reports_segment ∷ []
RestOf (to_item i) ps = (ps ≡ reports_segment ∷ i ∷ []) × (is_empty i ≡ false)
RestOf unsupported_version ps = Unit
RestOf no_route ps = Unit

same-eq : (t u : Text) → same t u ≡ true → t ≡ u
same-eq t u e = ground (arith, e)

same_self : (t : Text) → same t t ≡ true
same_self t = ground arith

under_v1-RestOf : (ps : List Text) → RestOf (under_v1 ps) ps
under_v1-RestOf [] = tt
under_v1-RestOf (p ∷ []) = elim (Bool-cases (same p capabilities_segment)) [
  | inl y ↦ rw y (ap (λ x. x ∷ []) (same-eq p capabilities_segment y))
  | inr n ↦ elim (Bool-cases (same p reports_segment)) [
    | inl y ↦ rw (n, y) (ap (λ x. x ∷ []) (same-eq p reports_segment y))
    | inr n' ↦ rw (n, n') tt
  ]
]
under_v1-RestOf (p ∷ q ∷ []) = elim (Bool-cases (same p reports_segment)) [
  | inr n ↦ rw n tt
  | inl y ↦ elim (Bool-cases (is_empty q)) [
    | inl nil ↦ rw (y, nil) tt
    | inr item ↦ rw (y, item) (ap (λ x. x ∷ q ∷ []) (same-eq p reports_segment y), item)
  ]
]
under_v1-RestOf (p ∷ q ∷ r ∷ ps) = tt

RestOf-SegmentsOf : (r : Route) (ps : List Text) → RestOf r ps → SegmentsOf r ([] ∷ api ∷ v1 ∷ ps)
RestOf-SegmentsOf to_capabilities ps h = ap (λ x. [] ∷ api ∷ v1 ∷ x) h
RestOf-SegmentsOf to_reports ps h = ap (λ x. [] ∷ api ∷ v1 ∷ x) h
RestOf-SegmentsOf (to_item i) ps (h, item) = (ap (λ x. [] ∷ api ∷ v1 ∷ x) h, item)
RestOf-SegmentsOf unsupported_version ps h = tt
RestOf-SegmentsOf no_route ps h = tt

route_of-SegmentsOf : (ps : List Text) → SegmentsOf (route_of ps) ps
unfolding route_of
route_of-SegmentsOf [] = tt
route_of-SegmentsOf (a ∷ []) = tt
route_of-SegmentsOf (a ∷ b ∷ []) = tt
route_of-SegmentsOf (a ∷ b ∷ c ∷ rest) = elim (Bool-cases (is_empty a && same b api)) [
  | inr n ↦ rw n tt
  | inl y ↦ elim (Bool-cases (same c v1)) [
    | inr n ↦ elim (Bool-cases (is_empty c)) [
      | inl nil ↦ rw (y, n, nil) tt
      | inr named ↦ rw (y, n, named) tt
    ]
    | inl y' ↦
        let a_eq : a ≡ [] = is_empty-eq a (ground (arith, y)) in
        let b_eq : b ≡ api = same-eq b api (ground (arith, y)) in
        let c_eq : c ≡ v1 = same-eq c v1 y' in
        rw (y, y', a_eq, b_eq, c_eq) (RestOf-SegmentsOf (under_v1 rest) rest (under_v1-RestOf rest))
  ]
]

has_char-cons :
    (d c : ℕ) (t : Text) → (c == d) ≡ false → has_char d t ≡ false → has_char d (c ∷ t) ≡ false
unfolding has_char
has_char-cons d c t e rest = ground (arith, e, rest)

split-parts : (d : ℕ) (t : Text) → All (λ p. has_char d p ≡ false) (split d t)
unfolding split has_char
split-parts d [] = (refl, tt)
split-parts d (c ∷ t) = elim (Bool-cases (c == d)) [
  | inl is_d ↦ rw is_d (refl, split-parts d t)
  | inr not_d ↦
      let (p, (ps, eq)) = split-ne-nil d t in
      let (head, tail) = subst (All (λ q. has_char d q ≡ false)) eq (split-parts d t) in
      rw (not_d, eq) (has_char-cons d c p not_d head, tail)
]

-- a text without the delimiter is its own only part
split_whole : (d : ℕ) (t : Text) → has_char d t ≡ false → split d t ≡ t ∷ []
unfolding split has_char
split_whole d [] e = refl
split_whole d (c ∷ t) e = ground (arith, e, split_whole d t)

capabilities_joined : join b'/' ([] ∷ api ∷ v1 ∷ capabilities_segment ∷ []) ≡ capabilities_path
unfolding api v1 capabilities_segment capabilities_path
capabilities_joined = refl

reports_joined : join b'/' ([] ∷ api ∷ v1 ∷ reports_segment ∷ []) ≡ reports_path
unfolding api v1 reports_segment reports_path
reports_joined = refl

item_joined :
    (i : Text) → join b'/' ([] ∷ api ∷ v1 ∷ reports_segment ∷ i ∷ []) ≡ reports_path ++ b'/' ∷ i
unfolding api v1 reports_segment reports_path
item_joined i = refl

capabilities_routed : route_of (split b'/' capabilities_path) ≡ to_capabilities
unfolding route_of split capabilities_path api v1 capabilities_segment Text-discrete ℕ_discrete
capabilities_routed = refl

reports_routed : route_of (split b'/' reports_path) ≡ to_reports
unfolding route_of split reports_path api v1 reports_segment capabilities_segment Text-discrete
    ℕ_discrete
reports_routed = refl

item_split :
    (i : Text)
    → split b'/' (reports_path ++ b'/' ∷ i) ≡ [] ∷ api ∷ v1 ∷ reports_segment ∷ split b'/' i
unfolding split reports_path api v1 reports_segment
item_split i = refl

item_routed :
    (i : Text)
    → is_empty i ≡ false
    → route_of ([] ∷ api ∷ v1 ∷ reports_segment ∷ i ∷ []) ≡ to_item i
unfolding route_of
item_routed i item = rw (same_self api, same_self v1, same_self reports_segment, item) refl

last_part : (d : ℕ) (a b c e i t : Text) → split d t ≡ a ∷ b ∷ c ∷ e ∷ i ∷ [] → has_char d i ≡ false
last_part d a b c e i t eq =
    (subst (All (λ q. has_char d q ≡ false)) eq (split-parts d t)).1.1.1.1.0

-- Exactly the path of the capabilities goes to their handler, exactly that of the reports to the
-- submission, and exactly the paths of the reports with a slash and an id, not empty and without a
-- slash, to the handler of an item, with this id. There are no aliases.
pub routes_exact :
    (path : Text)
    → ((route_of (split b'/' path) ≡ to_capabilities) ↔ (path ≡ capabilities_path))
      × (((route_of (split b'/' path) ≡ to_reports) ↔ (path ≡ reports_path))
          × ((i : Text)
              → (route_of (split b'/' path) ≡ to_item i) ↔ (
                  (path ≡ reports_path ++ b'/' ∷ i)
                  × ((is_empty i ≡ false) × (has_char b'/' i ≡ false)))))
routes_exact path = (
  (
    λ e. joins _ (segments to_capabilities e) ∙ capabilities_joined,
    λ e. ap (λ x. route_of (split b'/' x)) e ∙ capabilities_routed,
  ),
  (
    (
      λ e. joins _ (segments to_reports e) ∙ reports_joined,
      λ e. ap (λ x. route_of (split b'/' x)) e ∙ reports_routed,
    ),
    λ i. (
      λ e.
          let (eq, item) = segments (to_item i) e in
          (joins _ eq ∙ item_joined i, (item, last_part b'/' _ _ _ _ i path eq)),
      λ (h : _).
          ap (λ x. route_of (split b'/' x)) h.0
          ∙ ap route_of (
              item_split i
              ∙ ap (λ x. [] ∷ api ∷ v1 ∷ reports_segment ∷ x) (split_whole b'/' i h.1.1))
          ∙ item_routed i h.1.0,
    ),
  ),
)
  where
    joins : (ps : List Text) → split b'/' path ≡ ps → path ≡ join b'/' ps
    joins ps eq = sym (join-split b'/' path) ∙ ap (join b'/') eq

    segments : (r : Route) → route_of (split b'/' path) ≡ r → SegmentsOf r (split b'/' path)
    segments r e =
        subst (λ x. SegmentsOf x (split b'/' path)) e (route_of-SegmentsOf (split b'/' path))
