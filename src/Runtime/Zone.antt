-- ===== src/Runtime/Zone.antt =====
-- `regionFromZone` of clients/go/pkg/audit/runtime.go.
use Prim.Native.Char.{Char, code}
use Prim.Native.String.{String, [], ◌∷◌, ◌++◌}
use text.Mathlib.TextLemmas.{nil-append, cons-append}
use lumberjack.Prelude.{
  ℕ, ◌≡◌, ◌≢◌, refl, sym, ap, ◌∙◌, ◌⊎◌, inl, inr, Bool-cases, Option, none, some, ◌==◌, eq_iff,
  nat_eq, if◌then◌else◌, arith,
}

abbrev pub dash : ℕ
dash = 45

abbrev pub dash_char : Char
dash_char = "-"

abbrev extend : Char → Option String → Option String
extend c (some g) = some (c ∷ g)
extend c none = if nat_eq (code c) dash then some "" else none

-- `zone[:strings.LastIndex(zone, "-")]`, where there is a dash
unfoldable pub before_last_dash : String → Option String
before_last_dash [] = none
before_last_dash (c ∷ s) = extend c (before_last_dash s)

abbrev or_whole : String → Option String → String
or_whole zone none = zone
or_whole zone (some g) = if g == "" then zone else g

-- `regionFromZone`
unfoldable pub region_from_zone : String → String
unfolding before_last_dash
region_from_zone zone = or_whole zone (before_last_dash zone)

-- No dash is in the text.
abbrev pub IsDashless : String → Type 0
IsDashless [] = Unit
IsDashless (c ∷ s) = (code c ≢ dash) × IsDashless s

before_last_dash-none : (s : String) → IsDashless s → before_last_dash s ≡ none
unfolding before_last_dash
before_last_dash-none [] h = refl
before_last_dash-none (c ∷ s) (n, h) = rw (before_last_dash-none s h) (ground arith)

before_last_dash-some :
    (g s : String) → IsDashless s → before_last_dash (g ++ (dash_char ∷ s)) ≡ some g
unfolding before_last_dash
before_last_dash-some [] s h = rw (nil-append, before_last_dash-none s h)
before_last_dash-some (c ∷ g) s h = rw (cons-append, before_last_dash-some g s h)

-- A zone's name is a region's name, a dash and a suffix without a dash: the region, if it is not
-- empty, is what stands before the last dash. A zone without a dash, or whose one dash is its first
-- character, is its own region.
pub region_from_zone_lem :
    (region suffix : String)
    → IsDashless suffix
    → region ≢ ""
    → (region_from_zone (region ++ (dash_char ∷ suffix)) ≡ region)
      × (region_from_zone suffix ≡ suffix)
      × (region_from_zone (dash_char ∷ suffix) ≡ dash_char ∷ suffix)
unfolding region_from_zone
region_from_zone_lem region suffix h p =
    let found = before_last_dash-some "" suffix h in
    let first : before_last_dash (dash_char ∷ suffix) ≡ some "" = rw nil-append at found in
    (
      rw (before_last_dash-some region suffix h) (ground (arith, eq_iff region "")),
      rw (before_last_dash-none suffix h),
      rw first,
    )

-- A dash, and a rest without one.
abbrev pub IsSuffix : Char → String → Type 0
IsSuffix c s = (code c ≡ dash) × IsDashless s

-- The region of a zone: what stands before the last dash, if that is not empty, or else the zone, which
-- has no dash, or has its only dash at its start.
abbrev pub IsRegionOf : String → String → Type 0
IsRegionOf zone region =
    ((c : Char) × (s : String) × IsSuffix c s × (region ≢ "") × (zone ≡ region ++ (c ∷ s)))
    ⊎ ((region ≡ zone)
        × (IsDashless zone ⊎ ((c : Char) × (s : String) × IsSuffix c s × (zone ≡ c ∷ s))))

-- What the search for the last dash says of a text.
abbrev IsSplit : String → Option String → Type 0
IsSplit zone none = IsDashless zone
IsSplit zone (some g) = (c : Char) × (s : String) × IsSuffix c s × (zone ≡ g ++ (c ∷ s))

extend-IsSplit :
    (c : Char) (s : String) (o : Option String) → IsSplit s o → IsSplit (c ∷ s) (extend c o)
extend-IsSplit c s (some g) (d, u, h, same) =
    (d, u, h, ap (λ x. c ∷ x) same ∙ sym (cons-append c g (d ∷ u)))
extend-IsSplit c s none h = elim (Bool-cases (nat_eq (code c) dash)) [
  | inl b ↦ rw b (c, s, (ground arith, h), sym (nil-append (c ∷ s)))
  | inr b ↦ rw b (ground arith, h)
]

before_last_dash-IsSplit : (zone : String) → IsSplit zone (before_last_dash zone)
unfolding before_last_dash
before_last_dash-IsSplit [] = tt
before_last_dash-IsSplit (c ∷ s) =
    extend-IsSplit c s (before_last_dash s) (before_last_dash-IsSplit s)

or_whole-IsRegionOf :
    (zone : String) (o : Option String) → IsSplit zone o → IsRegionOf zone (or_whole zone o)
or_whole-IsRegionOf zone none h = inr (refl, inl h)
or_whole-IsRegionOf zone (some g) (c, s, h, same) = elim (Bool-cases (g == "")) [
  | inl b ↦
      let empty : g ≡ "" = ground (arith, eq_iff g "") in
      rw b (inr (refl, inr (c, s, h, same ∙ ap (λ x. x ++ (c ∷ s)) empty ∙ nil-append (c ∷ s))))
  | inr b ↦ rw b (inl (c, s, h, ground (arith, eq_iff g ""), same))
]

pub region_from_zone-IsRegionOf : (zone : String) → IsRegionOf zone (region_from_zone zone)
unfolding region_from_zone
region_from_zone-IsRegionOf zone =
    or_whole-IsRegionOf zone (before_last_dash zone) (before_last_dash-IsSplit zone)
