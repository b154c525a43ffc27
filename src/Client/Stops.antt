-- ===== src/Client/Stops.antt =====
-- `Stop` of clients/go/pkg/audit/client.go and one pass over the processors that can be stopped.
use lumberjack.Prelude.{
  ◌≡◌, refl, Option, none, some, List, [], ◌∷◌, ◌++◌, arith, Option-cases, inl, inr,
}
use lumberjack.Errors.{Err, join}
use lumberjack.Client.{Processor, Client, stop_all, stop}

abbrev pub join_all : Option Err → List Err → Option Err
join_all found [] = found
join_all found (e ∷ es) = join_all (join found (some e)) es

join-none : (found : Option Err) → join found none ≡ found
join-none none = refl
join-none (some e) = refl

join_all-append :
    (found : Option Err) (es fs : List Err)
    → join_all found (es ++ fs) ≡ join_all (join_all found es) fs
join_all-append found [] fs = refl
join_all-append found (e ∷ es) fs = join_all-append (join found (some e)) es fs

module _ {W : Type 0} where
  -- The worlds that the calls of `Stop` lead through, and the errors that they return, in order.
  unfoldable pub stop_world : List (Processor W) → W → W
  stop_world [] w = w
  stop_world (p ∷ ps) w = elim p.stop [
    | none ↦ stop_world ps w
    | some stop ↦ stop_world ps (stop w).0
  ]

  unfoldable pub stop_errors : List (Processor W) → W → List Err
  stop_errors [] w = []
  stop_errors (p ∷ ps) w = elim p.stop [
    | none ↦ stop_errors ps w
    | some stop ↦ elim (stop w).1 [
      | none ↦ stop_errors ps (stop w).0
      | some e ↦ e ∷ stop_errors ps (stop w).0
    ]
  ]

  stop_all_lem :
      (ps : List (Processor W)) (w : W) (found : Option Err)
      → stop_all ps (w, found) ≡ (stop_world ps w, join_all found (stop_errors ps w))
  unfolding stop_all stop_world stop_errors
  stop_all_lem [] w found = refl
  stop_all_lem (p ∷ ps) w found = elim (Option-cases p.stop) [
    | inl none_there ↦ ground (arith, stop_all_lem ps w found)
    | inr (s, there) ↦ ground (arith, stop_all_lem ps (s w).0 (join found (s w).1), join-none found)
  ]

  stop_world-append :
      (ps qs : List (Processor W)) (w : W)
      → stop_world (ps ++ qs) w ≡ stop_world qs (stop_world ps w)
  unfolding stop_world
  stop_world-append [] qs w = refl
  stop_world-append (p ∷ ps) qs w = elim (Option-cases p.stop) [
    | inl absent ↦ ground (arith, stop_world-append ps qs w)
    | inr (s, there) ↦ ground (arith, stop_world-append ps qs (s w).0)
  ]

  stop_errors-append :
      (ps qs : List (Processor W)) (w : W)
      → stop_errors (ps ++ qs) w ≡ stop_errors ps w ++ stop_errors qs (stop_world ps w)
  unfolding stop_world stop_errors
  stop_errors-append [] qs w = refl
  stop_errors-append (p ∷ ps) qs w = elim (Option-cases p.stop) [
    | inl absent ↦ ground (arith, stop_errors-append ps qs w)
    | inr (s, there) ↦ ground (arith, stop_errors-append ps qs (s w).0)
  ]

  -- `Stop` stops each validator and then each backend that can be stopped, whatever the ones before
  -- it answered, and returns all their errors, joined in order.
  pub stop_lem :
      (c : Client W) (w : W)
      → stop c w ≡ (
        stop_world (c.validators ++ c.backends) w,
        join_all none (stop_errors (c.validators ++ c.backends) w),
      )
  unfolding stop
  stop_lem c w = rw (
    stop_world-append c.validators c.backends w,
    stop_errors-append c.validators c.backends w,
    join_all-append none (stop_errors c.validators w),
    stop_all_lem c.validators w none,
    stop_all_lem c.backends,
  )
