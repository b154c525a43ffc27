-- ===== src/Errors.antt =====
-- clients/go/pkg/auditerrors/auditerrors.go, and the ways in which the program builds errors:
-- `errors.New`, `fmt.Errorf` with its operands, with one `%w` and with two, `errors.Join`, and
-- `status.Error` of gRPC.
use lumberjack.Prelude.{
  ◌↔◌, ℕ, String, Bool, false, ◌||◌, Option, none, some, List, nat_eq, ◌≡◌, refl, ◌⊎◌, inl, inr,
}

-- The errors that the program compares by identity: the constants of the package, and those of the
-- standard library and of the logging client that it tests for.
pub data Sentinel : Type 0 where
  invalid_request precondition_failed missing_payload : Sentinel
  justification_missing justification_invalid interceptor : Sentinel
  canceled not_exist iterator_done end_of_file : Sentinel

abbrev pub number : Sentinel → ℕ
number invalid_request = 0
number precondition_failed = 1
number missing_payload = 2
number justification_missing = 3
number justification_invalid = 4
number interceptor = 5
number canceled = 6
number not_exist = 7
number iterator_done = 8
number end_of_file = 9

-- gRPC's codes.
pub data Code : Type 0 where
  invalid_argument failed_precondition internal : Code
  other_code : ℕ → Code

-- A text with a format keeps the format and its operands apart. A status keeps the error whose text
-- is its message.
pub data Err : Type 0 where
  sentinel : Sentinel → Err
  errorf : String → List String → Err
  wrap : String → Err → Err
  both : Err → Err → Err
  joined : Err → Err → Err
  status : Code → Err → Err

-- `errors.Is`. A status holds a text alone, and wraps nothing.
unfoldable pub is_err : Sentinel → Err → Bool
is_err t (sentinel s) = nat_eq (number s) (number t)
is_err t (errorf _ _) = false
is_err t (wrap _ e) = is_err t e
is_err t (both a b) = is_err t a || is_err t b
is_err t (joined a b) = is_err t a || is_err t b
is_err t (status _ _) = false

-- `errors.Join` of two errors, either of which may be nil.
abbrev pub join : Option Err → Option Err → Option Err
join none e = e
join (some a) none = some a
join (some a) (some b) = some (joined a b)

-- `InterceptorError`
unfoldable pub interceptor_error : Err → Err
interceptor_error e = both (sentinel interceptor) e

-- How a call that may also panic ends.
pub data Exit : Type 0 where
  done : Exit
  failed : Err → Exit
  panicked : Exit

-- The results of a Go function that returns a value and an error.
pub data Result {ℓ} (A : Type ℓ) : Type ℓ where
  ok : A → Result A
  err : Err → Result A

infixl 5 ◌>>=◌
abbrev pub ◌>>=◌ {ℓ κ} : {A : Type ℓ} {B : Type κ} → Result A → (A → Result B) → Result B
ok a >>= f = f a
err e >>= f = err e

-- The error as the caller wraps it.
abbrev pub map_err {ℓ} : {A : Type ℓ} → (Err → Err) → Result A → Result A
map_err f (ok a) = ok a
map_err f (err e) = err (f e)

pub ok_inj {ℓ} : {A : Type ℓ} {a b : A} → ok a ≡ ok b → a ≡ b
ok_inj h = cc

pub >>=-eq-ok {ℓ κ} :
    {A : Type ℓ} {B : Type κ} (r : Result A) (next : A → Result B) {y : B}
    → (r >>= next) ≡ ok y
    → (x : A) × (r ≡ ok x) × (next x ≡ ok y)
>>=-eq-ok (ok x) next done_so = (x, refl, done_so)
>>=-eq-ok (err e) next done_so = cc

pub map_err-eq-ok {ℓ} :
    {A : Type ℓ} (f : Err → Err) (m : Result A) {a : A} → map_err f m ≡ ok a → m ≡ ok a
map_err-eq-ok f (ok a) h = h
map_err-eq-ok f (err e) h = cc

-- The error, if there is one, is not the given one.
abbrev pub IsFree : Sentinel → Option Err → Type 0
IsFree t none = Unit
IsFree t (some e) = is_err t e ≡ false

pub join-IsFree : (t : Sentinel) (a b : Option Err) → IsFree t a → IsFree t b → IsFree t (join a b)
unfolding is_err
join-IsFree t none b h k = k
join-IsFree t (some a) none h k = h
join-IsFree t (some a) (some b) h k = rw (h, k)

pub Result-cases {ℓ} :
    {A : Type ℓ} (m : Result A) → ((e : Err) × (m ≡ err e)) ⊎ ((a : A) × (m ≡ ok a))
Result-cases (ok a) = inr (a, refl)
Result-cases (err e) = inl (e, refl)

pub join-none_iff : (a b : Option Err) → (join a b ≡ none) ↔ ((a ≡ none) × (b ≡ none))
join-none_iff none b = (λ h. (refl, h), λ (_, h). h)
join-none_iff (some a) none = (λ h. cc, λ (h, _). h)
join-none_iff (some a) (some b) = (λ h. cc, λ (h, _). cc)

pub Exit-cases : (x : Exit) → (x ≡ done) ⊎ (((e : Err) × (x ≡ failed e)) ⊎ (x ≡ panicked))
Exit-cases done = inl refl
Exit-cases (failed e) = inr (inl (e, refl))
Exit-cases panicked = inr (inr refl)
