-- ===== src/Justification/Laws.antt =====
-- What the mutator of clients/go/pkg/justification/processor.go does to a request.
use lumberjack.Prelude.{
  String, ◌≡◌, ◌≢◌, ◌↔◌, refl, sym, ◌∙◌, ap, false, Option, none, some, ◌==◌, eq_iff, if◌then◌else◌,
  arith, Bool-cases, inl, inr,
}
use lumberjack.Errors.{
  Err, Result, ok, err, >>=-eq-ok, map_err, map_err-eq-ok, ok_inj, wrap, both, sentinel,
  justification_invalid, done, panicked,
}
use lumberjack.Api.{AuditLog, AuditLogRequest}
use lumberjack.Api.Values.{
  struct_value, Struct, nil_map, fields, Fields, get_field, get_field-set_field,
}
use lumberjack.Runtime.Process.{metadata_key}
use lumberjack.Justification.{
  Jvs, read_token, read_reason, process_justification, writable, with_token, with_read, write_token,
  finish_with, with_reason, with_payload, principal_email,
}

writable-metadata_key :
    (k : String) (m : Option Struct) (fs : Fields)
    → writable m ≡ some fs
    → get_field k fs ≡ metadata_key k m
unfolding get_field
writable-metadata_key k none fs h = ground arith
writable-metadata_key k (some nil_map) fs h = cc
writable-metadata_key k (some (fields gs)) fs h = ground arith

with_token-metadata_key :
    (k : String) (p : AuditLog) (s : Struct) (fs : Fields)
    → writable p.metadata ≡ some fs
    → metadata_key k (with_token p s fs).metadata
      ≡ (if "justification" == k then some (struct_value s) else metadata_key k p.metadata)
with_token-metadata_key k p s fs h = rw (
  get_field-set_field "justification" k (struct_value s) fs,
  writable-metadata_key k p.metadata fs h,
)

-- The request has a payload, and the processed request is the request with a payload in which only
-- the metadata and the request's metadata may differ: the key `justification` of the metadata holds
-- the given struct, and any other key what it held.
pub record IsWritten (k : String) (s : Struct) (r r' : AuditLogRequest) : Type 0 where
  pub before : AuditLog
  pub after : AuditLog
  pub had : r.payload ≡ some before
  pub has : r' ≡ with_payload r after
  pub key :
      metadata_key k after.metadata
      ≡ (if "justification" == k then some (struct_value s) else metadata_key k before.metadata)
  pub rest :
      record after { metadata = before.metadata; request_metadata = before.request_metadata }
      ≡ before

module _ (jvs : Jvs) {W : Type 0} (k : String) (r : AuditLogRequest) (w : W) where
  finish_with-IsWritten :
      (s : Struct) (p q : AuditLog) (reason : Result (Option String))
      → r.payload ≡ some p
      → metadata_key k q.metadata
        ≡ (if "justification" == k then some (struct_value s) else metadata_key k p.metadata)
      → record q { metadata = p.metadata; request_metadata = p.request_metadata } ≡ p
      → (finish_with jvs r w q reason).exit ≡ done
      → IsWritten k s r (finish_with jvs r w q reason).request
  finish_with-IsWritten s p q (err e) had key rest h = cc
  finish_with-IsWritten s p q (ok none) had key rest h = record {
    before = p;
    after = q;
    had = had;
    has = refl;
    key = key;
    rest = rest;
  }
  finish_with-IsWritten s p q (ok (some reason)) had key rest h = record {
    before = p;
    after = with_reason reason q;
    had = had;
    has = refl;
    key = key;
    rest = rest;
  }

  write_token-IsWritten :
      (token : jvs.Token) (s : Struct) (p : AuditLog) (o : Option Fields)
      → r.payload ≡ some p
      → writable p.metadata ≡ o
      → (write_token jvs r w p token s o).exit ≡ done
      → IsWritten k s r (write_token jvs r w p token s o).request
  write_token-IsWritten token s p none had m h = cc
  write_token-IsWritten token s p (some fs) had m h =
      finish_with-IsWritten s p (with_token p s fs) (read_reason jvs token) had
        (with_token-metadata_key k p s fs m) refl h

  with_read-done :
      (m : Result (jvs.Token × Struct)) (p : Option AuditLog)
      → r.payload ≡ p
      → (with_read jvs r w m p).exit ≡ done
      → (token : jvs.Token) × (s : Struct) × (m ≡ ok (token, s))
        × IsWritten k s r (with_read jvs r w m p).request
  with_read-done (err e) p had h = cc
  with_read-done (ok (token, s)) none had h = cc
  with_read-done (ok (token, s)) (some p) had h =
      (token, s, refl, write_token-IsWritten token s p (writable p.metadata) had refl h)

  -- The token is valid for the request's principal, and the struct is what its JSON is read as.
  pub record IsContent (token : jvs.Token) (s : Struct) : Type 0 where
    pub valid : jvs.validate_jwt r.justification_token (principal_email r) ≡ ok token
    pub json : String
    pub printed : jvs.marshal_token token ≡ ok json
    pub parsed : jvs.unmarshal_struct json ≡ ok s

  read_token-IsContent :
      (token : jvs.Token) (s : Struct) → read_token jvs r ≡ ok (token, s) → IsContent token s
  unfolding read_token
  read_token-IsContent token s h =
      let invalid = λ (e : Err). both (sentinel justification_invalid) e in
      let validated = jvs.validate_jwt r.justification_token (principal_email r) in
      let (t, first, h1) = >>=-eq-ok (map_err invalid validated) _ h in
      let (b, second, h2) =
        >>=-eq-ok (map_err (wrap "failed to encode justification token: %w") (jvs.marshal_token t))
          _ h1 in
      let (c, third, h3) =
        >>=-eq-ok
          (map_err (wrap "failed to decode justification token: %w") (jvs.unmarshal_struct b)) _
          h2 in
      let same = ok_inj h3 in
      let printed = map_err-eq-ok _ (jvs.marshal_token t) second in
      let parsed = map_err-eq-ok _ (jvs.unmarshal_struct b) third in
      record {
        valid = map_err-eq-ok invalid validated first ∙ ap (λ x. ok x.0) same;
        json = b;
        printed = ap jvs.marshal_token (sym (ap (λ x. x.0) same)) ∙ printed;
        parsed = parsed ∙ ap (λ x. ok x.1) same;
      }

  -- The mutator succeeds only on a request whose token is not empty and is valid for the request's
  -- principal. It then writes the struct that the token's JSON is read as to the metadata key
  -- `justification`; every other key keeps its value, and what is neither metadata nor the request's
  -- metadata stays as it is.
  pub process_justification-done :
      (process_justification jvs r w).exit ≡ done
      → (r.justification_token ≢ "")
        × ((token : jvs.Token) × (s : Struct) × IsContent token s
            × IsWritten k s r (process_justification jvs r w).request)
  unfolding process_justification
  process_justification-done h = elim (Bool-cases (r.justification_token == "")) [
    | inl b ↦ absurd (let h' = rw b at h in cc)
    | inr b ↦
        let (token, s, read, written) =
          with_read-done (read_token jvs r) r.payload refl (rw b at h) in
        (
          ground (arith, eq_iff r.justification_token ""),
          (token, s, read_token-IsContent token s read, rw b written),
        )
  ]

module _ (jvs : Jvs) {W : Type 0} (r : AuditLogRequest) (w : W) where
  finish_with-returns :
      (q : AuditLog) (reason : Result (Option String))
      → (finish_with jvs r w q reason).exit ≢ panicked
  finish_with-returns q (err e) h = cc
  finish_with-returns q (ok none) h = cc
  finish_with-returns q (ok (some reason)) h = cc

  write_token-panicked :
      (token : jvs.Token) (s : Struct) (p : AuditLog) (m : Option Struct)
      → (write_token jvs r w p token s (writable m)).exit ≡ panicked
      → m ≡ some nil_map
  write_token-panicked token s p none h = absurd (finish_with-returns _ (read_reason jvs token) h)
  write_token-panicked token s p (some nil_map) h = refl
  write_token-panicked token s p (some (fields fs)) h =
      absurd (finish_with-returns _ (read_reason jvs token) h)

  with_read-panicked :
      (m : Result (jvs.Token × Struct)) (o : Option AuditLog)
      → (with_read jvs r w m o).exit ≡ panicked
      → (x : jvs.Token × Struct) × (p : AuditLog) × (m ≡ ok x)
        × (o ≡ some p)
        × (p.metadata ≡ some nil_map)
  with_read-panicked (err e) o h = cc
  with_read-panicked (ok (token, s)) none h = cc
  with_read-panicked (ok (token, s)) (some p) h =
      ((token, s), p, refl, refl, write_token-panicked token s p p.metadata h)

  -- The mutator panics exactly on a request that has a token and a payload whose metadata are a
  -- struct with a nil map, if the token is valid and can be converted to a struct.
  pub process_justification-panicked_iff : ((process_justification jvs r w).exit ≡ panicked) ↔ (
      (r.justification_token ≢ "")
      × ((x : jvs.Token × Struct) × (p : AuditLog) × (read_token jvs r ≡ ok x)
          × (r.payload ≡ some p)
          × (p.metadata ≡ some nil_map)))
  unfolding process_justification
  process_justification-panicked_iff = (
    (λ h. elim (Bool-cases (r.justification_token == "")) [
      | inl b ↦ absurd (let h' = rw b at h in cc)
      | inr b ↦ (
        ground (arith, eq_iff r.justification_token ""),
        with_read-panicked (read_token jvs r) r.payload (rw b at h),
      )
    ]),
    λ (n, (x, p, read, had, m)).
        let b : (r.justification_token == "") ≡ false =
          ground (arith, eq_iff r.justification_token "") in
        rw (b, read, had, m),
  )
