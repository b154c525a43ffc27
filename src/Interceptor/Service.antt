-- ===== src/Interceptor/Service.antt =====
-- `serviceName` of clients/go/pkg/audit/interceptor.go: the leftmost-first match of the expression
-- `^/{1,2}(.*?)/`, in which `.` matches any character but a line feed.
use Prim.Native.Char.{Char, code}
use Prim.Native.String.{String, [], ◌∷◌, ◌++◌}
use mathlib.Core.Path.{subst}
use text.Mathlib.TextEquality.{Char-path}
use text.Mathlib.TextLemmas.{nil-append, cons-append}
use lumberjack.Prelude.{
  ℕ, ◌≡◌, ◌≢◌, ◌↔◌, ◌⊎◌, inl, inr, refl, sym, ◌∙◌, ap, Option, none, some, [], ◌∷◌, ◌==◌, eq_iff,
  nat_eq, if◌then◌else◌, arith, Option-cases, Bool-cases, false,
}
use lumberjack.Errors.{errorf, Result, ok, err}
use lumberjack.Rules.{slash}

abbrev pub line_feed : ℕ
line_feed = 10

abbrev pub slash_char : Char
slash_char = "/"

abbrev prepend : Char → Option String → Option String
prepend c none = none
prepend c (some g) = some (c ∷ g)

-- `(.*?)/`: what stands before the first slash, if no line feed comes first
unfoldable pub up_to_slash : String → Option String
up_to_slash [] = none
up_to_slash (c ∷ s) =
    let rest = up_to_slash s in
    if nat_eq (code c) slash
    then some ""
    else if nat_eq (code c) line_feed
    then none
    else prepend c rest

-- A second slash is taken as a part of the beginning if the match can then go on.
abbrev first_match : Option String → Option String → Option String
first_match (some g) other = some g
first_match none other = other

after_slash : String → Option String
after_slash [] = none
after_slash (d ∷ s) =
    if nat_eq (code d) slash
    then first_match (up_to_slash s) (up_to_slash (d ∷ s))
    else up_to_slash (d ∷ s)

-- the first group of `FindStringSubmatch`
unfoldable pub find_service : String → Option String
unfolding after_slash up_to_slash
find_service [] = none
find_service (c ∷ s) = if nat_eq (code c) slash then after_slash s else none

-- `serviceName`
unfoldable pub service_name : String → Result String
unfolding find_service
service_name method_name =
    let failure =
      errorf "failed capturing non-nil service name with regexp %q from %q" (method_name ∷ []) in
    elim (find_service method_name) [
      | none ↦ err failure
      | some g ↦ if g == "" then err failure else ok g
    ]

-- Neither a slash nor a line feed is in the text.
abbrev pub IsPlain : String → Type 0
IsPlain [] = Unit
IsPlain (c ∷ s) = (code c ≢ slash) × (code c ≢ line_feed) × IsPlain s

up_to_slash-cons :
    (c : Char) (s g : String)
    → nat_eq (code c) slash ≡ false
    → up_to_slash (c ∷ s) ≡ some g
    → (g' : String) × (up_to_slash s ≡ some g') × (g ≡ c ∷ g') × (code c ≢ line_feed)
unfolding up_to_slash
up_to_slash-cons c s g n h = elim (Option-cases (up_to_slash s)) [
  | inl stuck ↦ absurd (ground arith)
  | inr (g', found) ↦ (g', found, ground arith, ground arith)
]

up_to_slash_sound :
    (s g : String)
    → up_to_slash s ≡ some g
    → IsPlain g × ((rest : String) × (s ≡ g ++ (slash_char ∷ rest)))
unfolding up_to_slash
up_to_slash_sound [] g h = cc
up_to_slash_sound (c ∷ s) g h = elim (Bool-cases (nat_eq (code c) slash)) [
  | inl e ↦
      let here : c ≡ slash_char = Char-path c slash_char (ground arith) in
      let empty : "" ≡ g = ground arith in
      (subst IsPlain empty tt, (s, rw (← empty, nil-append, here)))
  | inr n ↦
      let (g', found, shape, l) = up_to_slash-cons c s g n h in
      let (plain, (rest, split)) = up_to_slash_sound s g' found in
      let n' : code c ≢ slash = ground arith in
      (subst IsPlain (sym shape) (n', l, plain), (rest, rw (shape, cons-append, ← split)))
]

up_to_slash_complete :
    (g rest : String) → IsPlain g → up_to_slash (g ++ (slash_char ∷ rest)) ≡ some g
unfolding up_to_slash
up_to_slash_complete [] rest h = rw nil-append
up_to_slash_complete (c ∷ g) rest (n, l, h) =
    rw (cons-append, up_to_slash_complete g rest h) (ground arith)

-- The method's name begins with one slash or two, the service's name and a slash; the service's name
-- is not empty, and holds no slash and no line feed.
pub record IsServiceOf (s method_name : String) : Type 0 where
  pub present : s ≢ ""
  pub plain : IsPlain s
  pub rest : String
  pub shape :
      (method_name ≡ slash_char ∷ (s ++ (slash_char ∷ rest)))
      ⊎ (method_name ≡ slash_char ∷ slash_char ∷ (s ++ (slash_char ∷ rest)))

service_name-ok : (m s : String) → service_name m ≡ ok s → (find_service m ≡ some s) × (s ≢ "")
unfolding service_name
service_name-ok m s h = elim (Option-cases (find_service m)) [
  | inl missing ↦ absurd (ground arith)
  | inr (g, found) ↦ (ground (arith, eq_iff g ""), ground (arith, eq_iff g ""))
]

one_slash : (m s : String) → s ≢ "" → up_to_slash m ≡ some s → IsServiceOf s (slash_char ∷ m)
one_slash m s p h =
    let (plain, (rest, split)) = up_to_slash_sound m s h in
    record { present = p; plain = plain; rest = rest; shape = inl (ap (λ x. slash_char ∷ x) split) }

after_slash_sound :
    (m s : String) → s ≢ "" → after_slash m ≡ some s → IsServiceOf s (slash_char ∷ m)
unfolding after_slash
after_slash_sound [] s p h = cc
after_slash_sound (d ∷ m) s p h = elim (Bool-cases (nat_eq (code d) slash)) [
  | inr n ↦ one_slash (d ∷ m) s p (rw n at h)
  | inl e ↦ elim (Option-cases (up_to_slash m)) [
    | inl stuck ↦ one_slash (d ∷ m) s p (ground arith)
    | inr (g, found) ↦
        let here : d ≡ slash_char = Char-path d slash_char (ground arith) in
        let same : g ≡ s = ground arith in
        let (plain, (rest, split)) = up_to_slash_sound m s (found ∙ ap some same) in
        record { present = p; plain = plain; rest = rest; shape = inr (rw (here, split)) }
  ]
]

service_name_sound : (m s : String) → service_name m ≡ ok s → IsServiceOf s m
unfolding find_service
service_name_sound [] s h = let (found, p) = service_name-ok [] s h in cc
service_name_sound (c ∷ m) s h =
    let (found, p) = service_name-ok (c ∷ m) s h in
    elim (Bool-cases (nat_eq (code c) slash)) [
      | inl e ↦
          let here : c ≡ slash_char = Char-path c slash_char (ground arith) in
          rw here (after_slash_sound m s p (rw e at found))
      | inr n ↦ absurd (ground arith)
    ]

after_slash_one :
    (s rest : String) → s ≢ "" → IsPlain s → after_slash (s ++ (slash_char ∷ rest)) ≡ some s
unfolding after_slash
after_slash_one [] rest p h = absurd (p refl)
after_slash_one (c ∷ s) rest p (n, l, h) =
    let found = up_to_slash_complete (c ∷ s) rest (n, l, h) in
    rw cons-append (let found' = rw cons-append at found in ground arith)

service_name_of : (m s : String) → find_service m ≡ some s → s ≢ "" → service_name m ≡ ok s
unfolding service_name
service_name_of m s found p = ground (arith, eq_iff s "")

after_slash_two :
    (s rest : String) → IsPlain s → after_slash (slash_char ∷ (s ++ (slash_char ∷ rest))) ≡ some s
unfolding after_slash
after_slash_two s rest h = let found = up_to_slash_complete s rest h in ground arith

service_name_complete : (m s : String) → IsServiceOf s m → service_name m ≡ ok s
unfolding find_service
service_name_complete m s v = elim v.shape [
  | inl e ↦
      service_name_of m s (ap find_service e ∙ after_slash_one s v.rest v.present v.plain) v.present
  | inr e ↦ service_name_of m s (ap find_service e ∙ after_slash_two s v.rest v.plain) v.present
]

-- `serviceName` returns a name exactly when it is the service's name in the method's name.
pub service_name_iff :
    (method_name s : String) → (service_name method_name ≡ ok s) ↔ IsServiceOf s method_name
service_name_iff m s = (service_name_sound m s, service_name_complete m s)
