-- ===== src/Validation/Entries.antt =====
-- What `Validate` of pkg/validation/validation.go accepts, with `ValidateLabels` as the extra check:
-- the checks that the command line makes of a log entry.
use mathlib.Core.Path.{subst}
use lumberjack.Prelude.{
  sym, ap, ◌∙◌, String, ◌≡◌, refl, ◌↔◌, true, Option, none, some, [], ◌∷◌, Dict, lookup, is_some,
  arith, Option-cases, inl, inr,
}
use lumberjack.Errors.{Err, join-none_iff, ok_inj, Result, ok, err}
use lumberjack.Api.{AuditLog}
use lumberjack.Api.Values.{Struct}
use lumberjack.Validation.{
  LogEntry, Protojson, validate_audit_log, validate_text, validate_payload, missing_labels,
  required_labels, validate_labels, run_validators, validate, wrapped, validate_parsed,
  validate_entry, validate_payload_fields,
}
use lumberjack.Validation.Laws.{IsComplete, validate_payload_fields_iff}

-- Both required labels are there.
pub record IsLabelled (le : LogEntry) : Type 0 where
  pub entries : Dict String
  pub there : le.labels ≡ some entries
  pub environment : is_some (lookup "environment" entries) ≡ true
  pub process_name : is_some (lookup "accessing_process_name" entries) ≡ true

-- The entry's payload is the JSON of an audit log that is complete.
pub record HasAuditLog (json : Protojson) (le : LogEntry) : Type 0 where
  pub payload : Struct
  pub there : le.json_payload ≡ some payload
  pub text : String
  pub printed : json.print_struct payload ≡ ok text
  pub audit_log : AuditLog
  pub parsed : json.parse_audit_log text ≡ ok audit_log
  pub complete : IsComplete audit_log

missing_labels_iff :
    (d : Dict String)
    → (missing_labels d required_labels none ≡ none) ↔ (
        (is_some (lookup "environment" d) ≡ true)
        × (is_some (lookup "accessing_process_name" d) ≡ true))
unfolding missing_labels
missing_labels_iff d = ground arith

validate_labels_iff : (le : LogEntry) → (validate_labels le ≡ none) ↔ IsLabelled le
unfolding validate_labels
validate_labels_iff le = elim (Option-cases le.labels) [
  | inl missing ↦ (λ h. ground arith, λ v. let t = v.there in cc)
  | inr (d, found) ↦ (
    λ h.
        let (e, p) = (missing_labels_iff d).0 (ground arith) in
        record { entries = d; there = found; environment = e; process_name = p },
    λ v.
        let same = v.there in
        let ok_there = (missing_labels_iff v.entries).1 (v.environment, v.process_name) in
        ground arith,
  )
]

wrapped-none : (message : String) (o : Option Err) → (wrapped message o ≡ none) ↔ (o ≡ none)
wrapped-none message none = (λ h. refl, λ h. refl)
wrapped-none message (some e) = (λ h. cc, λ h. cc)

validate_parsed_iff :
    (r : Result AuditLog)
    → (validate_parsed r ≡ none) ↔ ((al : AuditLog) × (r ≡ ok al) × IsComplete al)
unfolding validate_parsed validate_audit_log
validate_parsed_iff (err e) = (λ h. cc, λ (al, h, _). cc)
validate_parsed_iff (ok al) =
    let (to, from) = validate_payload_fields_iff al in
    let (open_error, close_error) =
      wrapped-none "invalid payload: %w" (validate_payload_fields al) in
    (
      λ h. (al, refl, to (open_error h)),
      λ (al', same, c). close_error (from (subst IsComplete (sym (ok_inj same)) c)),
    )

module _ (json : Protojson) where
  validate_text_iff :
      (r : Result String)
      → (validate_text json r ≡ none) ↔ (
          (text : String) × (r ≡ ok text)
          × ((al : AuditLog) × (json.parse_audit_log text ≡ ok al) × IsComplete al))
  unfolding validate_text
  validate_text_iff (err e) = (λ h. cc, λ (text, h, _). cc)
  validate_text_iff (ok text) =
      let (to, from) = validate_parsed_iff (json.parse_audit_log text) in
      (
        λ h. (text, refl, to h),
        λ (text', same, (al, parsed, c)).
            from (al, ap json.parse_audit_log (ok_inj same) ∙ parsed, c),
      )

  validate_payload_sound : (le : LogEntry) → validate_payload json le ≡ none → HasAuditLog json le
  unfolding validate_payload
  validate_payload_sound le h = elim (Option-cases le.json_payload) [
    | inl missing ↦ absurd (let h' = rw missing at h in cc)
    | inr (p, found) ↦
        let (text, printed, (al, parsed, c)) =
          (validate_text_iff (json.print_struct p)).0 (rw found at h) in
        record {
          payload = p;
          there = found;
          text = text;
          printed = printed;
          audit_log = al;
          parsed = parsed;
          complete = c;
        }
  ]

  validate_payload_complete :
      (le : LogEntry) → HasAuditLog json le → validate_payload json le ≡ none
  unfolding validate_payload
  validate_payload_complete le v = rw v.there (
      (validate_text_iff (json.print_struct v.payload)).1
        (v.text, v.printed, (v.audit_log, v.parsed, v.complete)))

  validate_entry_iff :
      (r : Result LogEntry)
      → (validate_entry json (validate_labels ∷ []) r ≡ none)
        ↔ ((le : LogEntry) × (r ≡ ok le) × HasAuditLog json le × IsLabelled le)
  unfolding validate_entry run_validators
  validate_entry_iff (err e) = (λ h. cc, λ (le, h, _, _). cc)
  validate_entry_iff (ok le) =
      let (split, both_none) = join-none_iff (validate_payload json le) (validate_labels le) in
      (
        λ h.
            let (p, l) = split h in
            (le, refl, validate_payload_sound le p, (validate_labels_iff le).0 l),
        λ (le', same, p, l).
            let back = sym (ok_inj same) in
            both_none (
              validate_payload_complete le (subst (HasAuditLog json) back p),
              (validate_labels_iff le).1 (subst IsLabelled back l),
            ),
      )

  -- `Validate` with `ValidateLabels` accepts a text exactly when it parses as a log entry whose
  -- payload is the JSON of a complete audit log, and which has both required labels.
  pub validate-IsLabelled_iff :
      (log : String)
      → (validate json log (validate_labels ∷ []) ≡ none)
        ↔ ((le : LogEntry) × (json.parse_entry log ≡ ok le) × HasAuditLog json le × IsLabelled le)
  unfolding validate
  validate-IsLabelled_iff log = validate_entry_iff (json.parse_entry log)
