-- ===== src/Runner.antt =====
-- integration/testrunner: the tests that call deployed services and look for their audit logs in
-- BigQuery. The libraries of Go's tests, BigQuery, JWT, PEM and HTTP are parameters; what the tests
-- print besides errors is left out.
pub mod Settings
pub mod Db
pub mod Rows
pub mod Queries
pub mod Http
pub mod Grpc
pub mod Endpoint
pub mod Streams
use lumberjack.Prelude.{◌≡◌, refl, String, Option, none, some, List, [], ◌∷◌, ◌++◌}
use lumberjack.Errors.{Err}

-- What a part of a test leaves: the messages of the errors that it has reported, each as an error, and its result, unless it has
-- stopped the test.
pub record Check (A : Type 0) : Type 0 where
  pub errors : List Err
  pub result : Option A

abbrev pub pass : {A : Type 0} → A → Check A
pass a = record { errors = []; result = some a }

-- `Errorf`: the test goes on
abbrev pub errorf_if : Option Err → Check (Unit {0})
errorf_if none = pass tt
errorf_if (some e) = record { errors = e ∷ []; result = some tt }

-- `Fatal` and `Fatalf`: the test stops
abbrev pub fatal : {A : Type 0} → Err → Check A
fatal e = record { errors = e ∷ []; result = none }

abbrev pub after : {B : Type 0} → List Err → Check B → Check B
after es c = record { errors = es ++ c.errors; result = c.result }

abbrev pub go_on : {A B : Type 0} → List Err → Option A → (A → Check B) → Check B
go_on es none f = record { errors = es; result = none }
go_on es (some a) f = after es (f a)

-- One part and then another, which depends on the first's result.
abbrev pub and_then : {A B : Type 0} → Check A → (A → Check B) → Check B
and_then c f = go_on c.errors c.result f

-- The part has reported no error, and has not stopped the test.
pub record Passes {A : Type 0} (c : Check A) (a : A) : Type 0 where
  pub no_errors : c.errors ≡ []
  pub ended : c.result ≡ some a

append-nil_left : {A : Type 0} (xs ys : List A) → xs ++ ys ≡ [] → (xs ≡ []) × (ys ≡ [])
append-nil_left [] ys h = (refl, h)
append-nil_left (x ∷ xs) ys h = absurd (cc)

go_on-Passes :
    {A B : Type 0} (es : List Err) (o : Option A) (f : A → Check B) {b : B}
    → Passes (go_on es o f) b
    → (es ≡ []) × ((a : A) × (o ≡ some a) × Passes (f a) b)
go_on-Passes es none f p = absurd (let h = p.ended in cc)
go_on-Passes es (some a) f p =
    let (first, second) = append-nil_left es (f a).errors p.no_errors in
    (first, (a, refl, record { no_errors = second; ended = p.ended }))

-- Both parts pass where the whole does.
pub and_then-Passes :
    {A B : Type 0} (c : Check A) (f : A → Check B) {b : B}
    → Passes (and_then c f) b
    → (a : A) × Passes c a × Passes (f a) b
and_then-Passes c f p =
    let (first, (a, there, later)) = go_on-Passes c.errors c.result f p in
    (a, record { no_errors = first; ended = there }, later)

pub errorf_if-Passes : (o : Option Err) (u : Unit {0}) → Passes (errorf_if o) u → o ≡ none
errorf_if-Passes none u p = refl
errorf_if-Passes (some e) u p = absurd (let h = p.no_errors in cc)
