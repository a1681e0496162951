-- ===== src/Payments/Preparer/Roundtrip.antt =====
-- What the preparer (packages/x402-xec-payments/src/index.ts) makes is what a server accepts.
use x402_xec.Payments.Preparer.{
  envelope, PreparerOptions, Preparation, unsigned_of, prepare, validate_invoice, fund, authorize,
  bind_resource, clock_error, invalid_invoice, unsupported_network, unsupported_scheme,
  not_yet_valid, expired, invalid_resource, amount_exceeds, hash_failed, signing_failed,
  invalid_authorization, is_other_text,
}
use x402_xec.Core.Invoice.Laws.{
  invoice_schema-invoice_json_iff, invoice_schema-invoice_json, IsIssuable,
}
use x402_xec.Common.{
  eq-of-not_other, refl, ok, some, true, false, arith, sym, subst, ap, Text, ℕ, codes, reject,
  require, ◌≡◌, ◌∙◌, ◌≤◌, >>=-eq-ok, require-ok, reject-ok, ok-injective, ltb, leb, text_beq,
  text_beq_iff, nat_beq_iff,
}
use x402_xec.Core.Json.{field?, Json, Number, safe_nonnegative}
use x402_xec.Common.Maybe.{>>=-eq-some}
use x402_xec.Core.Schemas.{
  Invoice, Authorization, UnsignedAuthorization, invoice_schema, authorization_schema,
  parse_amount_sats, object, xec_mainnet, xec_scheme,
}
use x402_xec.Core.Resource.{Platform, ResourceRequest, compute_resource_hash}
use x402_xec.Core.Invoice.{invoice_json, compute_invoice_hash}
use x402_xec.Core.Authorization.{
  SignatureVerifier, authorization_json, signing_message, check_authorization, check_terms,
  check_signature,
}
use x402_xec.Core.Authorization.Reading.{authorization_schema-authorization_json}
use x402_xec.Transactions.{BuildResult}

self_equal : (s : Text) → text_beq s s ≡ true
self_equal s = (text_beq_iff s s).1 refl

module _ (p : Platform) (options : PreparerOptions) where
  -- An invoice that is valid now, for the resource.
  record IsValid (resource : ResourceRequest) (now : ℕ) (i : Invoice) : Type 0 where
    begun : ltb now i.issued_at ≡ false
    in_time : leb i.expires_at now ≡ false
    bound : compute_resource_hash p resource ≡ some i.resource_hash

  validate_invoice-IsValid :
      (input : Json) (resource : ResourceRequest) (now : ℕ) {i : Invoice}
      → validate_invoice p input resource now ≡ ok i
      → IsValid resource now i
  unfolding validate_invoice bind_resource
  validate_invoice-IsValid input resource now h =
      let (fs, h1, k1) = >>=-eq-ok (require (object (some input)) invalid_invoice) _ h in
      let (u2, h2, k2) =
        >>=-eq-ok
          (reject (is_other_text (field? (codes "network") fs) xec_mainnet) unsupported_network) _
          k1 in
      let (u3, h3, k3) =
        >>=-eq-ok
          (reject (is_other_text (field? (codes "scheme") fs) xec_scheme) unsupported_scheme) _
          k2 in
      let (i, h4, k4) = >>=-eq-ok (require (invoice_schema input) invalid_invoice) _ k3 in
      let (u5, h5, k5) = >>=-eq-ok (reject (ltb now i.issued_at) not_yet_valid) _ k4 in
      let (u6, h6, k6) = >>=-eq-ok (reject (leb i.expires_at now) expired) _ k5 in
      let (u7, h7, k7) = >>=-eq-ok (bind_resource p resource i) _ k6 in
      let (hash, h8, k8) =
        >>=-eq-ok (require (compute_resource_hash p resource) invalid_resource) _ h7 in
      subst (IsValid resource now) (ok-injective k7) (record {
        begun = reject-ok _ _ h5;
        in_time = reject-ok _ _ h6;
        bound =
            require-ok _ _ h8 ∙ ap some (eq-of-not_other hash i.resource_hash (reject-ok _ _ k8));
      })

  -- The amount is in the limit.
  fund_lem :
      (i : Invoice) {r : BuildResult}
      → fund p options i ≡ ok r
      → (n : ℕ) × (parse_amount_sats i.amount_sats ≡ some n) × (n ≤ options.max_payment_sats)
  unfolding fund
  fund_lem i h =
      let (n, h1, k1) = >>=-eq-ok (require (parse_amount_sats i.amount_sats) invalid_invoice) _ h in
      let (u, h2, k2) = >>=-eq-ok (reject (ltb options.max_payment_sats n) amount_exceeds) _ k1 in
      (n, require-ok _ _ h1, ground (arith, reject-ok _ _ h2))

  -- The authorization is the invoice's, and signed.
  record IsSigned (i : Invoice) (funding : BuildResult) (a : Authorization) : Type 0 where
    hash : Text
    hashed : compute_invoice_hash p i ≡ some hash
    unsigned : a.unsigned ≡ unsigned_of i hash options.payer funding
    message : Text
    made : signing_message a.unsigned ≡ some message
    signed : options.sign message ≡ some a.signature
    readable : authorization_schema (authorization_json a) ≡ some a

  authorize-IsSigned :
      (i : Invoice) (funding : BuildResult) {a : Authorization}
      → authorize p options i funding ≡ ok a
      → IsSigned i funding a
  unfolding authorize
  authorize-IsSigned i funding h =
      let (hash, h1, k1) = >>=-eq-ok (require (compute_invoice_hash p i) hash_failed) _ h in
      let unsigned : UnsignedAuthorization = unsigned_of i hash options.payer funding in
      let (message, h2, k2) = >>=-eq-ok (require (signing_message unsigned) hash_failed) _ k1 in
      let (signature, h3, k3) = >>=-eq-ok (require (options.sign message) signing_failed) _ k2 in
      let written : Authorization = record { unsigned = unsigned; signature = signature } in
      let read =
        require-ok (authorization_schema (authorization_json written)) invalid_authorization k3 in
      let is = authorization_schema-authorization_json written read in
      subst (IsSigned i funding) (sym is) (record {
        hash = hash;
        hashed = require-ok _ _ h1;
        unsigned = refl;
        message = message;
        made = require-ok _ _ h2;
        signed = require-ok _ _ h3;
        readable = read ∙ ap some is;
      })

module _ (p : Platform) (verify : SignatureVerifier) (options : PreparerOptions)
    (accepts : (message signature : Text)
      → options.sign message ≡ some signature
      → verify options.payer message signature ≡ some true) where
  check_terms_passes :
      (i : Invoice) (funding : BuildResult) (a : Authorization) {n : ℕ}
      → IsSigned p options i funding a
      → parse_amount_sats i.amount_sats ≡ some n
      → IsIssuable i
      → check_terms p verify i a ≡ ok tt
  unfolding check_terms
  check_terms_passes i funding a s parsed rules =
      rw
        (
          check_terms,
          s.unsigned,
          parsed,
          (nat_beq_iff _ _).1 refl,
          self_equal i.pay_to,
          self_equal i.nonce,
          s.hashed,
          rules.version,
          rules.scheme,
          rules.network,
          self_equal s.hash,
          self_equal xec_scheme,
          self_equal xec_mainnet,
        )
        refl

  check_signature_passes :
      (i : Invoice) (funding : BuildResult) (a : Authorization)
      → IsSigned p options i funding a
      → check_signature p verify a ≡ ok tt
  unfolding check_signature
  check_signature_passes i funding a s =
      let payer : a.payer ≡ options.payer =
        ap (λ (u : UnsignedAuthorization). u.payer) s.unsigned in
      rw (check_signature, s.made, payer, accepts s.message a.signature s.signed) refl

  accepted_parts :
      (resource : ResourceRequest) (clock : Number) (now : ℕ) (r : Preparation)
      → safe_nonnegative clock ≡ some now
      → IsValid p options resource now r.invoice
      → ((n : ℕ) × (parse_amount_sats r.invoice.amount_sats ≡ some n)
          × (n ≤ options.max_payment_sats))
      → IsSigned p options r.invoice r.funding_transaction r.authorization
      → check_authorization p verify (record {
        invoice = invoice_json r.invoice;
        authorization = authorization_json r.authorization;
        request = resource;
        now = clock;
      })
        ≡ ok (record { invoice = r.invoice; authorization = r.authorization; now = now })
  unfolding check_authorization compute_invoice_hash
  accepted_parts resource clock now r read valid (n, parsed, limited) s =
      let (j, written, rest) = >>=-eq-some (invoice_schema (invoice_json r.invoice)) _ s.hashed in
      let j_is : j ≡ r.invoice = invoice_schema-invoice_json r.invoice written in
      let accepted : invoice_schema (invoice_json r.invoice) ≡ some r.invoice =
        written ∙ ap some j_is in
      let rules : IsIssuable r.invoice = (invoice_schema-invoice_json_iff r.invoice).0 accepted in
      let same : r.authorization.resource_hash ≡ r.invoice.resource_hash =
        ap (λ (u : UnsignedAuthorization). u.resource_hash) s.unsigned in
      rw
        (
          check_authorization,
          accepted,
          s.readable,
          read,
          valid.begun,
          valid.in_time,
          valid.bound,
          (text_beq_iff r.authorization.resource_hash r.invoice.resource_hash).1 same,
          self_equal r.invoice.resource_hash,
          check_terms_passes r.invoice r.funding_transaction r.authorization s parsed rules,
          check_signature_passes r.invoice r.funding_transaction r.authorization s,
        )
        refl

  -- What the server accepts, in the limit, and spending the transaction that was built.
  abbrev pub IsAccepted : ResourceRequest → Number → Preparation → Type 0
  IsAccepted resource clock r =
      (now : ℕ) × (n : ℕ) × (check_authorization p verify (record {
        invoice = invoice_json r.invoice;
        authorization = authorization_json r.authorization;
        request = resource;
        now = clock;
      })
        ≡ ok (record { invoice = r.invoice; authorization = r.authorization; now = now }))
      × (parse_amount_sats r.invoice.amount_sats ≡ some n)
      × (n ≤ options.max_payment_sats)
      × (r.authorization.transaction.txid ≡ r.funding_transaction.funding_outpoint.txid)
      × (r.authorization.transaction.vout ≡ r.funding_transaction.funding_outpoint.out_idx)

  -- With a verifier that accepts the signatures of the signature provider for its payer, what the
  -- preparer returns passes every test of verifyAuthorization before the nonce, at the clock and
  -- for the resource of its preparation, as the invoice and authorization that it made; the amount
  -- is within the limit of the preparer, and the authorization names the outpoint of the
  -- transaction that was built.
  pub prepare-check_authorization :
      (input : Json) (resource : ResourceRequest) (clock : Number) {r : Preparation}
      → prepare p options input resource clock ≡ ok r
      → IsAccepted resource clock r
  unfolding prepare
  prepare-check_authorization input resource clock h =
      let (now, h1, k1) = >>=-eq-ok (require (safe_nonnegative clock) clock_error) _ h in
      let (i, h2, k2) = >>=-eq-ok (validate_invoice p input resource now) _ k1 in
      let (funding, h3, k3) = >>=-eq-ok (fund p options i) _ k2 in
      let (a, h4, k4) = >>=-eq-ok (authorize p options i funding) _ k3 in
      let made : Preparation = record {
        invoice = i;
        authorization = a;
        payment_signature = options.encode (envelope i a);
        funding_transaction = funding;
      } in
      let paid = fund_lem p options i h3 in
      let s = authorize-IsSigned p options i funding h4 in
      subst (IsAccepted resource clock) (ok-injective k4) (
        now,
        paid.0,
        accepted_parts resource clock now made (require-ok _ _ h1)
            (validate_invoice-IsValid p options input resource now h2) paid s,
        paid.1,
        paid.2,
        ap (λ (u : UnsignedAuthorization). u.transaction.txid) s.unsigned,
        ap (λ (u : UnsignedAuthorization). u.transaction.vout) s.unsigned,
      )
