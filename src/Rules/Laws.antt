-- ===== src/Rules/Laws.antt =====
-- The rule that `mostRelevantRule` of clients/go/pkg/audit/rules.go returns.
use Prim.Native.String.{String, len}
use mathlib.Core.Path.{subst}
use native.Mathlib.Nat.{le_trans}
use lumberjack.Prelude.{
  ◌↔◌, Option-cases, ℕ, ◌≤◌, ◌<◌, ◌≡◌, ◌⊎◌, inl, inr, Bool, true, false, ◌&&◌, Option, none, some,
  List, [], ◌∷◌, ◌++◌, ltb, nat_eq, arith, All, Any, Bool-cases, refl, sym, ◌∙◌, ap,
}
use lumberjack.Config.{AuditRule}
use lumberjack.Rules.{is_rule_applicable, search_rules, most_relevant_rule}

module _ (method_name : String) where
  abbrev pub IsCandidate : AuditRule → Type 0
  IsCandidate r = (is_rule_applicable r method_name ≡ true) × (0 < len r.selector)

  -- What the search found so far: nothing, at length 0, or a candidate of that length.
  abbrev IsState : ℕ → Option AuditRule → Type 0
  IsState longest none = longest ≡ 0
  IsState longest (some r) = IsCandidate r × (longest ≡ len r.selector)

  takes : ℕ → AuditRule → Bool
  takes longest x = is_rule_applicable x method_name && ltb longest (len x.selector)

  takes-IsCandidate : (longest : ℕ) (x : AuditRule) → takes longest x ≡ true → IsCandidate x
  unfolding takes
  takes-IsCandidate longest x h = ground arith

  takes-lt : (longest : ℕ) (x : AuditRule) → takes longest x ≡ true → longest < len x.selector
  unfolding takes
  takes-lt longest x h = ground arith

  skips-le :
      (longest : ℕ) (x : AuditRule)
      → takes longest x ≡ false
      → is_rule_applicable x method_name ≡ true
      → len x.selector ≤ longest
  unfolding takes
  skips-le longest x h a = ground arith

  no-IsCandidate :
      (longest : ℕ) (best : Option AuditRule) (x : AuditRule)
      → IsState longest best
      → best ≡ none
      → takes longest x ≡ false
      → ¬ IsCandidate x
  no-IsCandidate longest none x s e f (a, l) = omega (arith, skips-le longest x f a)
  no-IsCandidate longest (some b) x s e f c = cc

  -- The three ways on from a rule: the search ends with it, goes on with it, or goes on without it.
  data Way (x : AuditRule) (rs : List AuditRule) (longest : ℕ) (best : Option AuditRule)
      : Type 0 where
    exact :
        takes longest x ≡ true
        → len x.selector ≡ len method_name
        → search_rules method_name (x ∷ rs) longest best ≡ some x
        → Way x rs longest best
    better :
        takes longest x ≡ true
        → search_rules method_name (x ∷ rs) longest best
          ≡ search_rules method_name rs (len x.selector) (some x)
        → Way x rs longest best
    same :
        takes longest x ≡ false
        → search_rules method_name (x ∷ rs) longest best ≡ search_rules method_name rs longest best
        → Way x rs longest best

  way :
      (x : AuditRule) (rs : List AuditRule) (longest : ℕ) (best : Option AuditRule)
      → Way x rs longest best
  unfolding search_rules takes
  way x rs longest best =
      elim (Bool-cases (is_rule_applicable x method_name && ltb longest (len x.selector))) [
        | inl t ↦ elim (Bool-cases (nat_eq (len x.selector) (len method_name))) [
          | inl e ↦ exact t (ground arith) (rw (t, e))
          | inr n ↦ better t (rw (t, n))
        ]
        | inr f ↦ same f (rw f)
      ]

  search_rules_sound :
      (rs : List AuditRule) (longest : ℕ) (best : Option AuditRule) (r : AuditRule)
      → IsState longest best
      → search_rules method_name rs longest best ≡ some r
      → ((best ≡ some r) ⊎ Any (λ x. x ≡ r) rs) × IsCandidate r
  unfolding search_rules
  search_rules_sound [] longest none r s h = cc
  search_rules_sound [] longest (some b) r s h =
      let e : b ≡ r = ground arith in (inl h, subst IsCandidate e s.0)
  search_rules_sound (x ∷ rs) longest best r s h = elim (way x rs longest best) [
    | exact t e q ↦
        let same_rule : x ≡ r = ground arith in
        (inr (inl same_rule), subst IsCandidate same_rule (takes-IsCandidate longest x t))
    | better t q ↦
        let (found, c) =
          search_rules_sound rs (len x.selector) (some x) r (takes-IsCandidate longest x t, refl)
            (sym q ∙ h) in
        (elim found [ inl e ↦ inr (inl (ground arith)) | inr a ↦ inr (inr a) ], c)
    | same f q ↦
        let (found, c) = search_rules_sound rs longest best r s (sym q ∙ h) in
        (elim found [ inl e ↦ inl e | inr a ↦ inr (inr a) ], c)
  ]

  abbrev IsNoLonger : ℕ → AuditRule → Type 0
  IsNoLonger n x = is_rule_applicable x method_name ≡ true → len x.selector ≤ n

  IsNoLonger-All :
      (rs : List AuditRule) (n : ℕ) → All (λ x. len x.selector ≤ n) rs → All (IsNoLonger n) rs
  IsNoLonger-All [] n h = tt
  IsNoLonger-All (x ∷ rs) n (p, h) = (λ _. p, IsNoLonger-All rs n h)

  search_rules_longest :
      (rs : List AuditRule) (longest : ℕ) (best : Option AuditRule) (r : AuditRule)
      → IsState longest best
      → All (λ x. len x.selector ≤ len method_name) rs
      → search_rules method_name rs longest best ≡ some r
      → (longest ≤ len r.selector) × All (IsNoLonger (len r.selector)) rs
  unfolding search_rules
  search_rules_longest [] longest none r s h k = cc
  search_rules_longest [] longest (some b) r s h k =
      let e : b ≡ r = ground arith in
      let e' : len b.selector ≡ len r.selector = ap (λ (x : AuditRule). len x.selector) e in
      (omega arith, tt)
  search_rules_longest (x ∷ rs) longest best r s (f, h) k = elim (way x rs longest best) [
    | exact t e q ↦
        let same_rule : x ≡ r = ground arith in
        let same_len : len method_name ≡ len r.selector =
          sym e ∙ ap (λ (y : AuditRule). len y.selector) same_rule in
        let lt = takes-lt longest x t in
        (
          omega arith,
          (
            (λ _. omega arith),
            subst (λ n. All (IsNoLonger n) rs) same_len (IsNoLonger-All rs (len method_name) h),
          ),
        )
    | better t q ↦
        let (above, later) =
          search_rules_longest rs (len x.selector) (some x) r (takes-IsCandidate longest x t, refl)
            h (sym q ∙ k) in
        let lt = takes-lt longest x t in (omega arith, ((λ _. above), later))
    | same f' q ↦
        let (above, later) = search_rules_longest rs longest best r s h (sym q ∙ k) in
        (above, ((λ a. le_trans (skips-le longest x f' a) above), later))
  ]

  search_rules-none :
      (rs : List AuditRule) (longest : ℕ) (best : Option AuditRule)
      → IsState longest best
      → search_rules method_name rs longest best ≡ none
      → (best ≡ none) × All (λ x. ¬ IsCandidate x) rs
  unfolding search_rules
  search_rules-none [] longest best s h = (h, tt)
  search_rules-none (x ∷ rs) longest best s h = elim (way x rs longest best) [
    | exact t e q ↦ cc
    | better t q ↦
        let (absent, _) =
          search_rules-none rs (len x.selector) (some x) (takes-IsCandidate longest x t, refl)
            (sym q ∙ h) in
        cc
    | same f q ↦
        let (absent, later) = search_rules-none rs longest best s (sym q ∙ h) in
        (absent, (no-IsCandidate longest best x s absent f, later))
  ]

-- The rule that is returned is one of the rules, applies to the method, and has a selector.
pub most_relevant_rule-applies :
    (method_name : String) (rules : List AuditRule) (r : AuditRule)
    → most_relevant_rule method_name rules ≡ some r
    → Any (λ x. x ≡ r) rules × (is_rule_applicable r method_name ≡ true) × (0 < len r.selector)
unfolding most_relevant_rule
most_relevant_rule-applies method_name rules r h =
    let (found, c) = search_rules_sound method_name rules 0 none r refl h in
    (elim found [ inl e ↦ cc | inr x ↦ x ], c.0, c.1)

either {ℓ} :
    {A : Type ℓ} (b : Bool) (n : ℕ) (x : A) (f : A → ℕ)
    → (b ≡ true → f x ≤ n)
    → (b ≡ false) ⊎ (f x ≤ n)
either true n x f h = inr (h refl)
either false n x f h = inl refl

All-either :
    (method_name : String) (n : ℕ) (rs : List AuditRule)
    → All (IsNoLonger method_name n) rs
    → All (λ x. (is_rule_applicable x method_name ≡ false) ⊎ (len x.selector ≤ n)) rs
All-either m n [] h = tt
All-either m n (x ∷ rs) (p, h) =
    (either (is_rule_applicable x m) n x (λ y. len y.selector) p, All-either m n rs h)

-- Where no selector is longer than the method's name, the rule that is returned is one of the rules,
-- applies to the method and has a selector that is not empty, and no rule that applies has a longer
-- one.
pub most_relevant_rule-longest :
    (method_name : String) (rules : List AuditRule) (r : AuditRule)
    → All (λ x. len x.selector ≤ len method_name) rules
    → most_relevant_rule method_name rules ≡ some r
    → (Any (λ x. x ≡ r) rules × (is_rule_applicable r method_name ≡ true) × (0 < len r.selector))
      × All
          (λ x. (is_rule_applicable x method_name ≡ false) ⊎ (len x.selector ≤ len r.selector))
          rules
unfolding most_relevant_rule
most_relevant_rule-longest method_name rules r h k = (
  most_relevant_rule-applies method_name rules r k,
  All-either method_name (len r.selector) rules
      (search_rules_longest method_name rules 0 none r refl h k).1,
)

not-Any :
    {A : Type 0} {P Q : A → Type 0} (xs : List A)
    → All (λ x. ¬ P x) xs
    → Any Q xs
    → ((x : A) → Q x → P x)
    → ⊥
not-Any [] h k f = k
not-Any (x ∷ xs) (p, h) k f = elim k [ inl q ↦ p (f x q) | inr m ↦ not-Any xs h m f ]

-- No rule is returned exactly if no rule with a selector that is not empty applies to the method.
pub most_relevant_rule-none_iff :
    (method_name : String) (rules : List AuditRule)
    → (most_relevant_rule method_name rules ≡ none)
      ↔ All (λ x. ¬ ((is_rule_applicable x method_name ≡ true) × (0 < len x.selector))) rules
unfolding most_relevant_rule
most_relevant_rule-none_iff method_name rules = (
  λ h. (search_rules-none method_name rules 0 none refl h).1,
  λ h. elim (Option-cases (most_relevant_rule method_name rules)) [
    | inl nothing ↦ nothing
    | inr (r, found) ↦ absurd (
        let (there, applies, long) = most_relevant_rule-applies method_name rules r found in
        not-Any rules h there (λ x same. rw same (applies, long)))
  ],
)

-- The rules that do not apply to the method, or have a selector that is shorter than its name.
abbrev pub AreShorter : String → List AuditRule → Type 0
AreShorter m = All (λ x. (is_rule_applicable x m ≡ false) ⊎ (len x.selector < len m))

search_rules-first :
    (m : String) (before : List AuditRule) (r : AuditRule) (rules : List AuditRule) (longest : ℕ)
    (found : Option AuditRule)
    → longest < len m
    → AreShorter m before
    → is_rule_applicable r m ≡ true
    → len r.selector ≡ len m
    → search_rules m (before ++ (r ∷ rules)) longest found ≡ some r
unfolding search_rules
search_rules-first m [] r rules longest found k h a l = ground arith
search_rules-first m (x ∷ xs) r rules longest found k (inl other, h) a l =
    rw other (search_rules-first m xs r rules longest found k h a l)
search_rules-first m (x ∷ xs) r rules longest found k (inr short, h) a l =
    let kept = search_rules-first m xs r rules longest found k h a l in
    let taken = search_rules-first m xs r rules (len x.selector) (some x) short h a l in
    ground (arith, kept, taken)

-- For a method's name that is not empty, the first rule that applies and whose selector is as long as
-- the name is returned, wherever it stands and whatever the rules after it, unless a rule before it
-- applies and has a longer selector: also if it ends in a wildcard, and a later one is the name itself.
pub most_relevant_rule-first :
    (m : String) (before : List AuditRule) (r : AuditRule) (rules : List AuditRule)
    → 0 < len m
    → AreShorter m before
    → is_rule_applicable r m ≡ true
    → len r.selector ≡ len m
    → most_relevant_rule m (before ++ (r ∷ rules)) ≡ some r
unfolding most_relevant_rule
most_relevant_rule-first m before r rules k = search_rules-first m before r rules 0 none k
