-- ===== src/Cli/Tail/Counts.antt =====
-- The lines that `list` and `stream` of pkg/cli/tail.go print, and what their summaries count.
use lumberjack.Prelude.{
  ◌≡◌, refl, ◌∙◌, ℕ, suc, ◌+◌, String, Bool, true, false, ◌&&◌, Bool-cases, inl, inr, Option, none,
  some, List, [], ◌∷◌, ◌++◌, length, All, is_some, arith,
}
use mathlib.Core.List.{append_assoc, append-nil}
use lumberjack.Errors.{Err, Result, ok, err}
use lumberjack.Validation.{validate}
use lumberjack.Cli.{Line, extra_validators}
use lumberjack.Cli.Tail.{
  TailFlags, TailInput, report_json, list_turn, stream_turn, list_loop, stream_loop, list, stream,
  query_filter, to_ℕ, LogPuller, add_failure, report_validation,
}

module _ {W E : Type 0} (i : TailInput W E) (f : TailFlags) where
  -- An entry that has no JSON, or whose JSON is to be validated and is not valid.
  abbrev pub is_rejected_as : Result String → Bool
  is_rejected_as (err e) = true
  is_rejected_as (ok js) =
      f.is_validating && is_some (validate i.json js (extra_validators f.additional_check))

  abbrev pub rejected : List E → ℕ
  rejected [] = 0
  rejected (l ∷ ls) = add_failure (is_rejected_as (i.marshal l)) (rejected ls)

  -- The lines that `list` prints for the entries, one entry after the other.
  abbrev pub reports : List E → List Line
  reports [] = []
  reports (l ∷ ls) = (list_turn i f l (i.marshal l)).0 ++ reports ls

  report_validation-is_some :
      (id : String) (o : Option Err) → (report_validation id o).1 ≡ is_some o
  report_validation-is_some id none = refl
  report_validation-is_some id (some e) = refl

  list_turn-is_rejected : (l : E) (r : Result String) → (list_turn i f l r).1 ≡ is_rejected_as r
  unfolding list_turn report_json extra_validators
  list_turn-is_rejected l (err e) = refl
  list_turn-is_rejected l (ok js) =
      let same =
        report_validation-is_some (i.insert_id l)
          (validate i.json js (extra_validators f.additional_check)) in
      elim (Bool-cases f.is_validating) [ inl y ↦ rw (y, same) | inr n ↦ rw n ]

  add_failure_add : (b : Bool) (m n : ℕ) → add_failure b m + n ≡ m + add_failure b n
  add_failure_add true m n = omega arith
  add_failure_add false m n = refl

  n_zero : (n : ℕ) → n + 0 ≡ n
  n_zero n = omega arith

  zero_add : (n : ℕ) → 0 + n ≡ n
  zero_add n = omega arith

  suc_add : (m n : ℕ) → suc m + n ≡ m + suc n
  suc_add m n = omega arith

  pub list_loop_lem :
      (ls : List E) (lines : List Line) (n : ℕ)
      → list_loop i f ls (lines, n) ≡ (lines ++ reports ls, n + rejected ls)
  unfolding list_loop
  list_loop_lem [] lines n = rw (append-nil lines, n_zero n)
  list_loop_lem (l ∷ ls) lines n =
      let r = list_turn i f l (i.marshal l) in
      let same = list_turn-is_rejected l (i.marshal l) in
      list_loop_lem ls (lines ++ r.0) (add_failure r.1 n)
      ∙ rw (append_assoc lines r.0 (reports ls), add_failure_add r.1 n (rejected ls), same)

  stream_loop_nil :
      (lines : List Line) (n m : ℕ)
      → stream_loop i f [] (lines, n, m)
        ≡ ((list_loop i f [] (lines, n)).0, (list_loop i f [] (lines, n)).1, m + 0)
  unfolding stream_loop list_loop
  stream_loop_nil lines n m = rw (n_zero m)

  list_loop_cons :
      (l : E) (ls : List E) (js : String) (lines : List Line) (n : ℕ)
      → i.marshal l ≡ ok js
      → list_loop i f (l ∷ ls) (lines, n)
        ≡ list_loop i f ls
            (lines ++ (report_json i f l js).0, add_failure (report_json i f l js).1 n)
  unfolding list_loop list_turn
  list_loop_cons l ls js lines n printed = rw printed refl

  stream_loop_cons :
      (l : E) (ls : List E) (js : String) (lines : List Line) (n m : ℕ)
      → i.marshal l ≡ ok js
      → stream_loop i f (l ∷ ls) (lines, n, m)
        ≡ stream_loop i f ls
            (lines ++ (report_json i f l js).0, add_failure (report_json i f l js).1 n, suc m)
  unfolding stream_loop stream_turn
  stream_loop_cons l ls js lines n m printed = rw printed refl

  stream_loop_lem :
      (ls : List E)
      → All (λ l. (js : String) × (i.marshal l ≡ ok js)) ls
      → (lines : List Line) (n m : ℕ)
      → stream_loop i f ls (lines, n, m)
        ≡ ((list_loop i f ls (lines, n)).0, (list_loop i f ls (lines, n)).1, m + length ls)
  stream_loop_lem [] _ lines n m = stream_loop_nil lines n m
  stream_loop_lem (l ∷ ls) ((js, printed), h) lines n m =
      let r = report_json i f l js in
      stream_loop_cons l ls js lines n m printed
      ∙ stream_loop_lem ls h (lines ++ r.0) (add_failure r.1 n) (suc m)
      ∙ rw (list_loop_cons l ls js lines n printed, suc_add m (length ls))

  -- If all entries have a JSON, and Pull returns the same entries, at least one, as a StreamPull that
  -- has returned sent, then stream prints what list prints.
  pub stream-as-list :
      (p : LogPuller W E) (w : W) (l : E) (ls : List E) (o : Option Err)
      → All (λ x. (js : String) × (i.marshal x ≡ ok js)) (l ∷ ls)
      → (p.pull (query_filter i.quoted_time_ago f) (to_ℕ f.max_num) w).1 ≡ some (ok (l ∷ ls))
      → (p.stream_pull (query_filter i.quoted_time_ago f) w).sent ≡ l ∷ ls
      → (p.stream_pull (query_filter i.quoted_time_ago f) w).ended ≡ some o
      → (stream i f p w).lines ≡ (list i f p w).lines
  unfolding stream list
  stream-as-list p w l ls o h pulled sent returned_so =
      rw (pulled, sent, returned_so, stream_loop_lem (l ∷ ls) h [] 0 0, zero_add (length (l ∷ ls)))
