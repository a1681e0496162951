-- ===== src/Core/ApprovalContext/Laws.antt =====
-- What a client knows of an answer of status 402 that it accepts (approval-context.ts).
use x402_xec.Common.{
  Option-cases, refl, inl, inr, List, ◌⊎◌, eq-of-not_other, ok-injective, leb, ltb, require-ok,
  reject-ok, >>=-eq-ok, ok, some, none, false, arith, sym, subst, ap, not, Option, Text, ℕ, codes,
  reject, require, ◌==◌, text_eq, nat_eq, ◌≡◌, ◌∙◌, ◌≤◌, ◌<◌,
}
use x402_xec.Core.ApprovalContext.{
  QueryPair, metadata_fields, str, metadata_query, resource_mismatch, parse_resource_metadata,
  invoice_id_mismatch, expired, not_yet_valid, invalid_invoice, unsupported_scheme, xec_scheme,
  unsupported_version, is_version, unsupported_network, malformed_response, xec_mainnet,
  is_wrong_id, invalid_clock, context_mismatch, field?, compute_invoice_hash, parsed_invoice,
  safe_nonnegative, obj, validate_epoch_clock, Validated, resource_hash, Invoice, hash_error,
  validate_fields, object, RequiredOptions, hash_of, Fields, validate_invoice,
  validate_payment_required, create_x402_approval_context, check_expected, Runtime,
}
use x402_xec.Core.Json.{Json}
use x402_xec.Core.Resource.{Platform, ResourceRequest, compute_resource_hash}
use x402_xec.Core.ApprovalContext.Schema.{
  ApprovalContext, context_of, approval_context_schema-context_object,
}

-- The resource that the answer names: its three texts, the pairs that its query is read as, and its
-- body, each left out where the answer leaves it out.
pub record IsResource (rt : Runtime) (resource : Option Json) (r : ResourceRequest) : Type 0 where
  pub named : Fields
  pub is_object : resource ≡ some (obj named)
  pub server_origin : field? (codes "serverOrigin") named ≡ some (str r.server_origin)
  pub method : field? (codes "method") named ≡ some (str r.method)
  pub path : field? (codes "path") named ≡ some (str r.path)
  pub query :
      (field? (codes "query") named ≡ none) × (r.query ≡ none)
      ⊎ ((q : Json) × (pairs : List QueryPair) × (field? (codes "query") named ≡ some q)
          × (rt.read_query q ≡ some pairs)
          × (r.query ≡ some pairs))
  pub body : r.body ≡ field? (codes "body") named

-- The parts of the answer belong together, and to what the client asked for.
pub record IsBound (rt : Runtime) (fs : Fields) (options : RequiredOptions) (v : Validated)
    : Type 0 where
  pub invoice : parsed_invoice (field? (codes "invoice") fs) ≡ some v.invoice
  pub clock :
      (now : ℕ) × (safe_nonnegative options.now ≡ some now)
      × (v.invoice.issued_at ≤ now)
      × (now < v.invoice.expires_at)
  pub named : IsResource rt (field? (codes "resource") fs) v.resource
  pub resource : compute_resource_hash rt.platform v.resource ≡ some v.invoice.resource_hash
  pub expected :
      (r : ResourceRequest)
      → options.expected_resource ≡ some r
      → compute_resource_hash rt.platform r ≡ some v.invoice.resource_hash
  pub context :
      (hash : Text) × (compute_invoice_hash rt.platform v.invoice ≡ some hash)
      × (is_wrong_id (field? (codes "invoiceId") fs) hash ≡ false)
      × (v.approval_context ≡ context_of v.invoice hash v.invoice.resource_hash)

metadata_query_lem :
    (rt : Runtime) (o : Option Json) {query : Option (List QueryPair)}
    → metadata_query rt o ≡ some query
    → (o ≡ none) × (query ≡ none)
      ⊎ ((q : Json) × (pairs : List QueryPair) × (o ≡ some q)
          × (rt.read_query q ≡ some pairs)
          × (query ≡ some pairs))
unfolding metadata_query
metadata_query_lem rt none h = inl (refl, ground arith)
metadata_query_lem rt (some q) h = elim (Option-cases (rt.read_query q)) [
  | inl unread ↦ cc (rw (metadata_query, unread) at h)
  | inr (pairs, read) ↦ inr (q, pairs, refl, read, cc (rw (metadata_query, read) at h))
]

metadata_fields_lem :
    (rt : Runtime) (fs : Fields) (a b c : Option Json) {r : ResourceRequest}
    → metadata_fields rt a b c fs ≡ ok r
    → (a ≡ some (str r.server_origin))
      × (b ≡ some (str r.method))
      × (c ≡ some (str r.path))
      × (metadata_query rt (field? (codes "query") fs) ≡ some r.query)
      × (r.body ≡ field? (codes "body") fs)
unfolding metadata_fields
metadata_fields_lem rt fs a b c h = ground arith

parse_resource_metadata-IsResource :
    (rt : Runtime) (resource : Option Json) {r : ResourceRequest}
    → parse_resource_metadata rt resource ≡ ok r
    → IsResource rt resource r
unfolding parse_resource_metadata
parse_resource_metadata-IsResource rt (some (obj gs)) h =
    let (origin, method, path, query, body) = metadata_fields_lem rt gs _ _ _ h in
    record {
      named = gs;
      is_object = refl;
      server_origin = origin;
      method = method;
      path = path;
      query = metadata_query_lem rt (field? (codes "query") gs) query;
      body = body;
    }
parse_resource_metadata-IsResource rt resource h = ground arith

object_lem : (input : Json) {fs : Fields} → object (some input) ≡ some fs → input ≡ obj fs
object_lem (obj gs) h = cc
object_lem Json.null h = cc
object_lem (Json.bool b) h = cc
object_lem (Json.num n) h = cc
object_lem (Json.str s) h = cc
object_lem (Json.arr a) h = cc

module _ (p : Platform) where
  check_expected_lem :
      (expected : Option ResourceRequest) (hash : Text) {u : Unit {0}}
      → check_expected p expected hash ≡ ok u
      → (r : ResourceRequest) → expected ≡ some r
      → compute_resource_hash p r ≡ some hash
  unfolding check_expected
  check_expected_lem none hash h r e = cc
  check_expected_lem (some x) hash h r e =
      let (other, h1, k1) = >>=-eq-ok (require (compute_resource_hash p x) hash_error) _ h in
      let same : hash ≡ other = eq-of-not_other hash other (reject-ok _ _ k1) in
      let x_is : x ≡ r = cc in rw (← x_is) (require-ok _ _ h1 ∙ ap some (sym same))

  create_context_lem :
      (i : Invoice) (invoice_hash hash : Text) {c : ApprovalContext}
      → compute_invoice_hash p i ≡ some invoice_hash
      → create_x402_approval_context p i (resource_hash hash) ≡ ok c
      → c ≡ context_of i invoice_hash i.resource_hash
  unfolding create_x402_approval_context hash_of
  create_context_lem i invoice_hash hash hashed h =
      let (u, h1, k1) = >>=-eq-ok (reject (not (hash == i.resource_hash)) context_mismatch) _ h in
      let parsed =
        approval_context_schema-context_object i invoice_hash hash
          (require-ok _ _ (rw hashed at k1)) in
      parsed
      ∙ ap (context_of i invoice_hash) (eq-of-not_other hash i.resource_hash (reject-ok _ _ h1))

module _ (rt : Runtime) where
  validate_invoice-IsBound :
      (fs : Fields) (options : RequiredOptions) (now : ℕ) (i : Invoice) {v : Validated}
      → parsed_invoice (field? (codes "invoice") fs) ≡ some i
      → safe_nonnegative options.now ≡ some now
      → validate_invoice rt fs options now i ≡ ok v
      → IsBound rt fs options v
  unfolding validate_invoice
  validate_invoice-IsBound fs options now i parsed clock h =
      let (u1, h1, k1) =
        >>=-eq-ok (reject (not (i.network == xec_mainnet)) (unsupported_network i.network)) _ h in
      let (u2, h2, k2) =
        >>=-eq-ok (reject (not (i.scheme == xec_scheme)) (unsupported_scheme i.scheme)) _ k1 in
      let (u3, h3, k3) = >>=-eq-ok (reject (ltb now i.issued_at) not_yet_valid) _ k2 in
      let (u4, h4, k4) = >>=-eq-ok (reject (leb i.expires_at now) expired) _ k3 in
      let (hash, h5, k5) =
        >>=-eq-ok (require (compute_invoice_hash rt.platform i) hash_error) _ k4 in
      let (u6, h6, k6) =
        >>=-eq-ok (reject (is_wrong_id (field? (codes "invoiceId") fs) hash) invoice_id_mismatch) _
          k5 in
      let (resource, h7, k7) =
        >>=-eq-ok (parse_resource_metadata rt (field? (codes "resource") fs)) _ k6 in
      let (calculated, h8, k8) =
        >>=-eq-ok (require (compute_resource_hash rt.platform resource) hash_error) _ k7 in
      let (u9, h9, k9) =
        >>=-eq-ok (reject (not (calculated == i.resource_hash)) resource_mismatch) _ k8 in
      let (u10, h10, k10) =
        >>=-eq-ok (check_expected rt.platform options.expected_resource calculated) _ k9 in
      let (c, h11, k11) =
        >>=-eq-ok (create_x402_approval_context rt.platform i (resource_hash calculated)) _ k10 in
      let same : calculated ≡ i.resource_hash =
        eq-of-not_other calculated i.resource_hash (reject-ok _ _ h9) in
      subst (IsBound rt fs options) (ok-injective k11) (record {
        invoice = parsed;
        clock = (now, clock, ground (arith, reject-ok _ _ h3), ground (arith, reject-ok _ _ h4));
        named = parse_resource_metadata-IsResource rt (field? (codes "resource") fs) h7;
        resource = require-ok _ _ h8 ∙ ap some same;
        expected = λ r e.
            check_expected_lem rt.platform options.expected_resource calculated h10 r e
            ∙ ap some same;
        context = (
          hash,
          require-ok _ _ h5,
          reject-ok _ _ h6,
          create_context_lem rt.platform i hash calculated (require-ok _ _ h5) h11,
        );
      })

  -- When validatePaymentRequired accepts an answer of status 402, the answer is an object whose
  -- invoice met its schema, the clock is in the window of the invoice, the resource that is
  -- returned has the texts, the query and the body of the resource field of the answer, it and the
  -- one that was expected, if any, have the resource hash of the invoice, an invoiceId that is a
  -- string is the hash of the invoice, and the approval context is that of the invoice under its
  -- two hashes.
  pub validate_payment_required-IsBound :
      (input : Json) (options : RequiredOptions) {v : Validated}
      → validate_payment_required rt input options ≡ ok v
      → (fs : Fields) × (input ≡ obj fs) × IsBound rt fs options v
  unfolding validate_payment_required validate_fields validate_epoch_clock
  validate_payment_required-IsBound input options h =
      let (now, h1, k1) = >>=-eq-ok (require (safe_nonnegative options.now) invalid_clock) _ h in
      let (fs, h2, k2) = >>=-eq-ok (require (object (some input)) malformed_response) _ k1 in
      let (u, h3, k3) =
        >>=-eq-ok
          (reject (not (is_version (field? (codes "x402Version") fs)))
            (unsupported_version (rt.string_of (field? (codes "x402Version") fs))))
          _ k2 in
      let (i, h4, k4) =
        >>=-eq-ok
          (require (parsed_invoice (field? (codes "invoice") fs))
            (invalid_invoice (rt.first_issue (field? (codes "invoice") fs))))
          _ k3 in
      (
        fs,
        object_lem input (require-ok _ _ h2),
        validate_invoice-IsBound fs options now i (require-ok _ _ h4) (require-ok _ _ h1) k4,
      )
