-- ===== src/Runner/Rows.antt =====
-- The rows that the checks of integration/testrunner/db.go accept.
use lumberjack.Prelude.{
  ◌≡◌, ◌≢◌, ◌↔◌, refl, String, ◌==◌, Bool, true, false, not, ◌||◌, Option, none, some, List, [],
  ◌∷◌, All, is_some, eq_iff, arith, Bool-cases, inl, inr,
}
use lumberjack.Errors.{Err, Result, ok, err, map_err-eq-ok}
use lumberjack.Api.{AuditLog}
use lumberjack.Api.Values.{Value}
use lumberjack.Justification.{email_of}
use lumberjack.Runtime.Process.{metadata_key}
use lumberjack.Runner.{Check, pass, Passes, and_then, and_then-Passes}
use lumberjack.Runner.Db.{
  RowEntry, RowLib, expect, is_valid_email, printed_justification, found_justification,
  check_justification, check_fields, with_audit_log, parse_printed, diff_log_entry, check_entry,
  check_rows,
}

module _ (lib : RowLib) where
  expect-Passes : (b : Bool) (e : Err) (u : Unit {0}) → Passes (expect lib b e) u → b ≡ true
  expect-Passes true e u p = refl
  expect-Passes false e u p = absurd (let h = p.no_errors in cc)

  -- One check and the rest.
  expect_then :
      (b : Bool) (e : Err) (f : Unit {0} → Check (Unit {0})) (u : Unit {0})
      → Passes (and_then (expect lib b e) f) u
      → (b ≡ true) × ((v : Unit {0}) × Passes (f v) u)
  expect_then b e f u p =
      let (v, first, rest) = and_then-Passes (expect lib b e) f p in
      (expect-Passes b e v first, (v, rest))

  -- A row that has what an audit log must have.
  pub record IsAuditRow (row : String) : Type 0 where
    pub entry : RowEntry
    pub parsed : lib.parse_entry row ≡ ok entry
    pub log_named : entry.log_name ≢ ""
    pub timed : is_some entry.timestamp ≡ true
    pub printed : String
    pub payload_printed : lib.print_payload entry.json_payload ≡ ok printed
    pub payload : AuditLog
    pub payload_parsed : lib.parse_audit_log printed ≡ ok payload
    pub email_given : email_of payload.authentication_info ≢ ""
    pub email_parsed : lib.parse_address (email_of payload.authentication_info) ≡ none
    pub service_named : payload.service_name ≢ ""
    pub method_named : payload.method_name ≢ ""
    pub justification : Value
    pub justified : metadata_key "justification" payload.metadata ≡ some justification
    pub content : String
    pub content_printed : lib.print_value justification ≡ ok content
    pub content_given : (content ≢ "null") × (content ≢ "")

  -- The same of the audit log in a row.
  record IsJustified (p : AuditLog) : Type 0 where
    pub justification : Value
    pub justified : metadata_key "justification" p.metadata ≡ some justification
    pub content : String
    pub content_printed : lib.print_value justification ≡ ok content
    pub content_given : (content ≢ "null") × (content ≢ "")

  neither : (b : String) → not (b == "null" || b == "") ≡ true → (b ≢ "null") × (b ≢ "")
  neither b h = elim (Bool-cases (b == "null")) [
    | inl e ↦ absurd (let h' = rw e at h in cc)
    | inr n ↦ elim (Bool-cases (b == "")) [
      | inl e ↦ absurd (let h' = rw (n, e) at h in cc)
      | inr m ↦ (ground (arith, eq_iff b "null"), ground (arith, eq_iff b ""))
    ]
  ]

  not_blank : (s : String) → not (s == "") ≡ true → s ≢ ""
  not_blank s h = ground (arith, eq_iff s "")

  printed-Passes :
      (r : Result String) (u : Unit {0})
      → Passes (printed_justification lib r) u
      → (b : String) × (r ≡ ok b) × ((b ≢ "null") × (b ≢ ""))
  printed-Passes (err e) u p = absurd (let h = p.no_errors in cc)
  printed-Passes (ok b) u p = (b, refl, neither b (expect-Passes _ _ u p))

  found-Passes :
      (o : Option Value) (p : AuditLog) (u : Unit {0})
      → metadata_key "justification" p.metadata ≡ o
      → Passes (found_justification lib o) u
      → IsJustified p
  found-Passes none p u h q = absurd (let k = q.no_errors in cc)
  found-Passes (some v) p u h q =
      let (b, printed, given) = printed-Passes (lib.print_value v) u q in
      record {
        justification = v;
        justified = h;
        content = b;
        content_printed = printed;
        content_given = given;
      }

  valid_email :
      (email : String)
      → is_valid_email lib email ≡ true
      → (email ≢ "") × (lib.parse_address email ≡ none)
  unfolding is_valid_email
  valid_email email h = elim (Bool-cases (email == "")) [
    | inl e ↦ absurd (let h' = rw e at h in cc)
    | inr n ↦ (ground (arith, eq_iff email ""), no_error (lib.parse_address email) (rw n at h))
  ]
    where
      no_error : (o : Option Err) → not (is_some o) ≡ true → o ≡ none
      no_error none k = refl
      no_error (some e) k = cc

  record HasFields (l : RowEntry) (p : AuditLog) : Type 0 where
    pub log_named : l.log_name ≢ ""
    pub timed : is_some l.timestamp ≡ true
    pub email :
        (email_of p.authentication_info ≢ "")
        × (lib.parse_address (email_of p.authentication_info) ≡ none)
    pub service_named : p.service_name ≢ ""
    pub method_named : p.method_name ≢ ""
    pub reason : IsJustified p

  check_fields-HasFields :
      (l : RowEntry) (p : AuditLog) (u : Unit {0}) → Passes (check_fields lib l p) u → HasFields l p
  unfolding check_fields check_justification
  check_fields-HasFields l p u h =
      let (a, (_, h1)) = expect_then _ _ _ u h in
      let (b, (_, h2)) = expect_then _ _ _ u h1 in
      let (c, (_, h3)) = expect_then _ _ _ u h2 in
      let (d, (_, h4)) = expect_then _ _ _ u h3 in
      let (e, (_, h5)) = expect_then _ _ _ u h4 in
      record {
        log_named = not_blank l.log_name a;
        timed = b;
        email = valid_email (email_of p.authentication_info) c;
        service_named = not_blank p.service_name d;
        method_named = not_blank p.method_name e;
        reason = found-Passes (metadata_key "justification" p.metadata) p u refl h5;
      }

  with_audit_log-Passes :
      (l : RowEntry) (r : Result AuditLog) (u : Unit {0})
      → Passes (with_audit_log lib l r) u
      → (p : AuditLog) × (r ≡ ok p) × HasFields l p
  with_audit_log-Passes l (err e) u p = absurd (let h = p.no_errors in cc)
  with_audit_log-Passes l (ok q) u p = (q, refl, check_fields-HasFields l q u p)

  parse_printed-eq-ok :
      (r : Result String) {p : AuditLog}
      → parse_printed lib r ≡ ok p
      → (b : String) × (r ≡ ok b) × (lib.parse_audit_log b ≡ ok p)
  parse_printed-eq-ok (err e) h = absurd (cc)
  parse_printed-eq-ok (ok b) h = (b, refl, map_err-eq-ok _ _ h)

  check_entry-Passes :
      (r : Result RowEntry) (u : Unit {0})
      → Passes (check_entry lib r) u
      → (l : RowEntry) × (r ≡ ok l) × Passes (diff_log_entry lib l) u
  check_entry-Passes (err e) u p = absurd (let h = p.no_errors in cc)
  check_entry-Passes (ok l) u p = (l, refl, p)

  check_entry-IsAuditRow :
      (row : String) (u : Unit {0})
      → Passes (check_entry lib (lib.parse_entry row)) u
      → IsAuditRow row
  unfolding diff_log_entry
  check_entry-IsAuditRow row u h =
      let (l, parsed, h1) = check_entry-Passes (lib.parse_entry row) u h in
      let (p, read, f) = with_audit_log-Passes l _ u h1 in
      let (b, printed, payload_parsed) =
        parse_printed-eq-ok (lib.print_payload l.json_payload) read in
      record {
        entry = l;
        parsed = parsed;
        log_named = f.log_named;
        timed = f.timed;
        printed = b;
        payload_printed = printed;
        payload = p;
        payload_parsed = payload_parsed;
        email_given = f.email.0;
        email_parsed = f.email.1;
        service_named = f.service_named;
        method_named = f.method_named;
        justification = f.reason.justification;
        justified = f.reason.justified;
        content = f.reason.content;
        content_printed = f.reason.content_printed;
        content_given = f.reason.content_given;
      }

  eq_false : (s t : String) → s ≢ t → (s == t) ≡ false
  eq_false s t h = elim (Bool-cases (s == t)) [
    | inl e ↦ absurd (h (ground (arith, eq_iff s t)))
    | inr n ↦ n
  ]

  IsAuditRow-Passes :
      (row : String) → IsAuditRow row → check_entry lib (lib.parse_entry row) ≡ pass tt
  unfolding diff_log_entry check_fields is_valid_email check_justification
  IsAuditRow-Passes row a = rw (
    a.parsed,
    a.payload_printed,
    a.payload_parsed,
    eq_false a.entry.log_name "" a.log_named,
    a.timed,
    eq_false (email_of a.payload.authentication_info) "" a.email_given,
    a.email_parsed,
    eq_false a.payload.service_name "" a.service_named,
    eq_false a.payload.method_name "" a.method_named,
    a.justified,
    a.content_printed,
    eq_false a.content "null" a.content_given.0,
    eq_false a.content "" a.content_given.1,
  )

  check_rows-All :
      (rows : List String) (u : Unit {0}) → Passes (check_rows lib rows) u → All IsAuditRow rows
  unfolding check_rows
  check_rows-All [] u p = tt
  check_rows-All (r ∷ rs) u p =
      let (v, first, rest) = and_then-Passes (check_entry lib (lib.parse_entry r)) _ p in
      (check_entry-IsAuditRow r v first, check_rows-All rs u rest)

  All-Passes : (rows : List String) → All IsAuditRow rows → Passes (check_rows lib rows) tt
  unfolding check_rows
  All-Passes [] h = record { no_errors = refl; ended = refl }
  All-Passes (r ∷ rs) (a, h) =
      let rest = All-Passes rs h in
      rw (IsAuditRow-Passes r a) (record { no_errors = rest.no_errors; ended = rest.ended })

  -- The checks of the rows pass exactly if every row is a log entry with a log name and a timestamp
  -- whose payload is an audit log with an email that can be parsed, a service, a method, and a
  -- justification whose JSON is neither empty nor null.
  pub check_rows_iff : (rows : List String) → Passes (check_rows lib rows) tt ↔ All IsAuditRow rows
  check_rows_iff rows = (check_rows-All rows tt, All-Passes rows)
