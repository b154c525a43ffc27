-- ===== src/Validation/Split.antt =====
-- Go's `strings.Split` with a separator of one character, and what its pieces are.
use Prim.Native.Char.{Char, code}
use Prim.Native.String.{String, [], ◌∷◌, ◌++◌}
use mathlib.Core.Path.{subst}
use text.Mathlib.TextLemmas.{nil-append, cons-append}
use text.Mathlib.TextEquality.{Char-path}
use lumberjack.Prelude.{
  ◌≡◌, ◌≢◌, refl, sym, List, [], ◌∷◌, nat_eq, if◌then◌else◌, arith, inl, inr, Bool-cases,
}

push_head : Char → List String → List String
push_head c [] = []
push_head c (p ∷ ps) = (c ∷ p) ∷ ps

unfoldable pub split : Char → String → List String
unfolding push_head
split sep [] = "" ∷ []
split sep (c ∷ s) =
    let rest = split sep s in if nat_eq (code c) (code sep) then "" ∷ rest else push_head c rest

abbrev pub at_sign : Char
at_sign = "@"

-- The text does not hold the character.
abbrev pub Lacks : Char → String → Type 0
Lacks sep [] = Unit
Lacks sep (c ∷ s) = (code c ≢ code sep) × Lacks sep s

test : split at_sign "a@b@" ≡ "a" ∷ "b" ∷ "" ∷ []
unfolding split
test = refl

push_head-two :
    (c : Char) (ps : List String) (a b : String)
    → push_head c ps ≡ a ∷ b ∷ []
    → (a' : String) × (ps ≡ a' ∷ b ∷ []) × (a ≡ c ∷ a')
unfolding push_head
push_head-two c [] a b h = cc
push_head-two c (p ∷ ps) a b h = (p, ground arith, ground arith)

push_head-one :
    (c : Char) (ps : List String) (b : String)
    → push_head c ps ≡ b ∷ []
    → (b' : String) × (ps ≡ b' ∷ []) × (b ≡ c ∷ b')
unfolding push_head
push_head-one c [] b h = cc
push_head-one c (p ∷ ps) b h = (p, ground arith, ground arith)

split_nonempty : (sep : Char) (s : String) → split sep s ≢ []
unfolding split push_head
split_nonempty sep [] h = cc
split_nonempty sep (c ∷ s) h = ground (arith, split_nonempty sep s)

-- A text has one piece exactly when it lacks the separator, and then the piece is the text.
split-one : (sep : Char) (s b : String) → split sep s ≡ b ∷ [] → (s ≡ b) × Lacks sep s
unfolding split
split-one sep [] b h = (ground arith, tt)
split-one sep (c ∷ s) b h = elim (Bool-cases (nat_eq (code c) (code sep))) [
  | inl same ↦ absurd (split_nonempty sep s (ground arith))
  | inr other ↦
      let (b', one, shape) = push_head-one c (split sep s) b (rw other at h) in
      let (same, lacks) = split-one sep s b' one in (ground arith, (ground arith, lacks))
]

split_of_Lacks : (sep : Char) (s : String) → Lacks sep s → split sep s ≡ s ∷ []
unfolding split push_head
split_of_Lacks sep [] h = refl
split_of_Lacks sep (c ∷ s) (n, h) = rw (split_of_Lacks sep s h) (ground arith)

pub split_append :
    (sep : Char) (a b : String)
    → Lacks sep a
    → Lacks sep b
    → split sep (a ++ (sep ∷ b)) ≡ a ∷ b ∷ []
unfolding split push_head
split_append sep [] b h k = rw (nil-append, split_of_Lacks sep b k) (ground arith)
split_append sep (c ∷ a) b (n, h) k = rw (cons-append, split_append sep a b h k) (ground arith)

-- A text has exactly the pieces `a` and `b` when it is `a`, the separator and `b`, and neither
-- piece holds the separator.
pub split-two :
    (sep : Char) (s a b : String)
    → split sep s ≡ a ∷ b ∷ []
    → (s ≡ a ++ (sep ∷ b)) × Lacks sep a × Lacks sep b
unfolding split
split-two sep [] a b h = cc
split-two sep (c ∷ s) a b h = elim (Bool-cases (nat_eq (code c) (code sep))) [
  | inl same ↦
      let (tail_eq, lacks) = split-one sep s b (ground arith) in
      let empty : "" ≡ a = ground arith in
      let this : c ≡ sep = Char-path c sep (ground arith) in
      (
        rw (← empty, nil-append) (ground arith),
        subst (Lacks sep) empty tt,
        subst (Lacks sep) tail_eq lacks,
      )
  | inr other ↦
      let (a', two, shape) = push_head-two c (split sep s) a b (rw other at h) in
      let (same, lacks_a, lacks_b) = split-two sep s a' b two in
      (
        rw (shape, cons-append, ← same),
        subst (Lacks sep) (sym shape) (ground arith, lacks_a),
        lacks_b,
      )
]
