-- ===== src/Runner/Grpc.antt =====
-- integration/testrunner/grpc.go: the subtests of a service with a gRPC endpoint, each by itself. The
-- client of the service and `status.FromError` are parameters.
use lumberjack.Prelude.{
  ℕ, zero, suc, ◌+◌, String, Bool, Option, none, some, List, [], ◌∷◌, ◌++◌, nat_eq, if◌then◌else◌,
}
use lumberjack.Errors.{Err, errorf, wrap, Result, ok, err, is_err, end_of_file}
use lumberjack.Runner.{Check, after, fatal}
use lumberjack.Runner.Settings.{Settings}
use lumberjack.Runner.Db.{Query, make_query}
use lumberjack.Runner.Http.{query_text}

-- What a subtest leaves; no check is one that does not return.
abbrev pub Tested : Type 0 → Type 0
Tested W = W × Option (Check (Unit {0}))

-- the streams of the client, and the client of the service, by the identifier of a trace
pub record Places (W : Type 0) : Type 0 where
  pub recv : W → W × Result ℕ

pub record Numbers (W : Type 0) : Type 0 where
  pub send : ℕ → String → W → W × Option Err
  pub close_and_recv : W → W × Result ℕ

pub record Talker (W : Type 0) : Type 0 where
  pub hello : String → W → W × Option Err
  pub fail : String → W → W × Option Err
  pub fibonacci : ℕ → String → W → W × Result (Places W)
  pub addition : W → W × Result (Numbers W)
  pub fail_on_four : W → W × Result (Numbers W)

-- `makeQueryForGRPC`
unfoldable pub make_query_for_grpc : Settings → String → Query
make_query_for_grpc s trace_id =
    make_query trace_id
      (query_text "jsonPayload.resource_name" s.project_id s.big_query_dataset "\n \t")

-- The errors before a part of a test, and those of the part.
abbrev pub preceded : {W : Type 0} → List Err → Tested W → Tested W
preceded es (w, none) = (w, none)
preceded es (w, some c) = (w, some (after es c))

abbrev pub reported : String → Option Err → List Err
reported message none = []
reported message (some e) = wrap message e ∷ []

-- A call on a stream that is nil panics, which ends the test too.
abbrev pub nil_stream : {W : Type 0} → String → Err → W → Tested W
nil_stream message e w =
    (w, some (after (wrap message e ∷ []) (fatal (errorf "nil pointer dereference" []))))

module _ (from_error : Err → ℕ × Bool) where
  -- the checks of an error's status
  unfoldable pub check_status : ℕ → Err → List Err
  check_status code e =
      let s = from_error e in
      (if s.1 then [] else wrap "Could not convert err to status %v" e ∷ [])
      ++ (if nat_eq s.0 code
          then []
          else errorf "Got unexpected Err. Got code %d but expected %d" [] ∷ [])

  -- an error is wanted, with this code
  unfoldable pub check_failure : ℕ → Option Err → List Err
  unfolding check_status
  check_failure code none = errorf "Did not get err as expected. Instead got reply: %v" [] ∷ []
  check_failure code (some e) = check_status code e

abbrev pub error_of : Result ℕ → Option Err
error_of (ok n) = none
error_of (err e) = some e

-- `RESOURCE_EXHAUSTED` and `INVALID_ARGUMENT`
abbrev pub resource_exhausted : ℕ
resource_exhausted = 8

abbrev pub invalid_argument : ℕ
invalid_argument = 3

module _ {W : Type 0} where
  -- the branches of the loop on what `Recv` returns
  unfoldable pub after_place : Result ℕ → (W → W × Option (List Err)) → W → W × Option (List Err)
  unfolding is_err
  after_place (ok n) next w = next w
  after_place (err e) next w =
      if is_err end_of_file e
      then (w, some [])
      else (w, some (wrap "failed to read fibonacci stream: %v" e ∷ []))

  -- the loop over the places, for a number of turns
  unfoldable pub read_places : ℕ → Places W → W → W × Option (List Err)
  unfolding after_place
  read_places zero s w = (w, none)
  read_places (suc turns) s w = let r = s.recv w in after_place r.1 (read_places turns s) r.0

  -- the loop that sends so many numbers, from the given one on
  unfoldable pub send_numbers : Numbers W → String → ℕ → ℕ → List Err → W → W × List Err
  send_numbers s trace_id zero i es w = (w, es)
  send_numbers s trace_id (suc n) i es w =
      let r = s.send i trace_id w in
      send_numbers s trace_id n (i + 1) (es ++ reported "sending value to addition failed: %v" r.1)
        r.0

  module _ (from_error : Err → ℕ × Bool) (t : Talker W) (trace_id : String)
      (validate : ℕ → W → Tested W) where
    -- the subtest hello_req_unary_success
    unfoldable pub test_hello : W → Tested W
    test_hello w =
        let r = t.hello trace_id w in preceded (reported "could not greet: %v" r.1) (validate 1 r.0)

    -- fail_req_unary_failure
    unfoldable pub test_fail : W → Tested W
    unfolding check_failure
    test_fail w =
        let r = t.fail trace_id w in
        preceded (check_failure from_error resource_exhausted r.1) (validate 1 r.0)

    abbrev pub after_places : W × Option (List Err) → Tested W
    after_places (w, none) = (w, none)
    after_places (w, some es) = preceded es (validate 5 w)

    abbrev pub with_places : ℕ → W × Result (Places W) → Tested W
    with_places turns (w, err e) = nil_stream "fibonacci call failed: %v" e w
    with_places turns (w, ok s) = after_places (read_places turns s w)

    -- fibonacci_req_server_streaming_success
    unfoldable pub test_fibonacci : ℕ → W → Tested W
    unfolding read_places
    test_fibonacci turns w = with_places turns (t.fibonacci 5 trace_id w)

    -- the sum, whose value is not checked; without a reply the sum reads as 0
    abbrev pub after_sum : W × List Err → Numbers W → Tested W
    after_sum (w, es) s =
        let r = s.close_and_recv w in
        preceded (es ++ reported "failed getting result from addition: %v" (error_of r.1))
          (validate 5 r.0)

    abbrev pub with_sum : W × Result (Numbers W) → Tested W
    with_sum (w, err e) = nil_stream "addition call failed: %v" e w
    with_sum (w, ok s) = after_sum (send_numbers s trace_id 5 0 [] w) s

    -- addition_req_client_streaming_success
    unfoldable pub test_addition : W → Tested W
    unfolding send_numbers
    test_addition w = with_sum (t.addition w)

    abbrev pub after_four : W × List Err → Numbers W → Tested W
    after_four (w, es) s =
        let r = s.close_and_recv w in
        preceded (es ++ check_failure from_error invalid_argument (error_of r.1)) (validate 4 r.0)

    abbrev pub with_four : W × Result (Numbers W) → Tested W
    with_four (w, err e) = nil_stream "addition call failed: %v" e w
    with_four (w, ok s) = after_four (send_numbers s trace_id 5 1 [] w) s

    -- fail_on_four_req_client_stream_failure
    unfoldable pub test_fail_on_four : W → Tested W
    unfolding send_numbers check_failure
    test_fail_on_four w = with_four (t.fail_on_four w)
