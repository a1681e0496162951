-- ===== src/Core/Authorization/Laws.antt =====
-- What an authorization that is accepted has shown (authorization.ts).
use x402_xec.Core.Authorization.{
  resource_mismatch, expired, not_yet_valid, malformed, SignatureVerifier, AuthorizationInput,
  Checked, FailureCode, check_terms, check_signature, check_authorization, signing_message,
  verify_authorization, consume_nonce,
}
use x402_xec.Common.{
  not, ◌||◌, ◌==◌, ltb, leb, reject, reject-ok, require-ok, Bool-cases, ap, ◌∙◌, ℕ, ◌≤◌, ◌<◌, ◌≡◌,
  inl, inr, refl, subst, Bool, true, false, some, Text, arith, Result, ok, err, text_eq, nat_eq,
  text_beq_iff, Option-cases, require, >>=-eq-ok, ok-injective,
}
use x402_xec.Core.Json.{safe_nonnegative}
use x402_xec.Core.Schemas.{
  Invoice, Authorization, invoice_schema, authorization_schema, parse_amount_sats,
}
use x402_xec.Core.Resource.{Platform, compute_resource_hash}
use x402_xec.Core.Invoice.{compute_invoice_hash}

-- The two documents, the request and the signature agree.
pub record IsAuthorized (p : Platform) (verify_signature : SignatureVerifier)
    (input : AuthorizationInput) (c : Checked) : Type 0 where
  pub invoice : invoice_schema input.invoice ≡ some c.invoice
  pub authorization : authorization_schema input.authorization ≡ some c.authorization
  pub clock : safe_nonnegative input.now ≡ some c.now
  pub begun : c.invoice.issued_at ≤ c.now
  pub in_time : c.now < c.invoice.expires_at
  pub resource : compute_resource_hash p input.request ≡ some c.invoice.resource_hash
  pub same_resource : c.authorization.resource_hash ≡ c.invoice.resource_hash
  pub amount :
      (n : ℕ) × (parse_amount_sats c.authorization.amount_sats ≡ some n)
      × (parse_amount_sats c.invoice.amount_sats ≡ some n)
  pub pay_to : c.authorization.pay_to ≡ c.invoice.pay_to
  pub nonce : c.authorization.nonce ≡ c.invoice.nonce
  pub invoice_hash : compute_invoice_hash p c.invoice ≡ some c.authorization.invoice_hash
  pub signed :
      (message : Text) × (signing_message c.authorization.unsigned ≡ some message)
      × (verify_signature c.authorization.payer message c.authorization.signature ≡ some true)

same_left : (a b c : Text) → (not (a == b) || not (c == b)) ≡ false → a ≡ b
same_left a b c h = ground (arith, text_beq_iff a b)

same_right : (a b c : Text) → (not (a == b) || not (c == b)) ≡ false → c ≡ b
same_right a b c h = ground (arith, text_beq_iff c b)

module _ (p : Platform) (verify_signature : SignatureVerifier) where
  check_terms_lem :
      (i : Invoice) (a : Authorization) {u : Unit {0}}
      → check_terms p verify_signature i a ≡ ok u
      → ((n : ℕ) × (parse_amount_sats a.amount_sats ≡ some n)
          × (parse_amount_sats i.amount_sats ≡ some n))
        × (a.pay_to ≡ i.pay_to)
        × (a.nonce ≡ i.nonce)
        × (compute_invoice_hash p i ≡ some a.invoice_hash)
  unfolding check_terms
  check_terms_lem i a h = elim (Option-cases (parse_amount_sats a.amount_sats)) [
    | inl bad ↦ ground arith
    | inr (n, parsed) ↦ elim (Option-cases (compute_invoice_hash p i)) [
      | inl bad ↦ ground arith
      | inr (hash, hashed) ↦ (
        (n, parsed, ground arith),
        ground (arith, text_beq_iff a.pay_to i.pay_to),
        ground (arith, text_beq_iff a.nonce i.nonce),
        ground (arith, text_beq_iff a.invoice_hash hash),
      )
    ]
  ]

  check_signature_lem :
      (a : Authorization) {u : Unit {0}}
      → check_signature p verify_signature a ≡ ok u
      → (message : Text) × (signing_message a.unsigned ≡ some message)
        × (verify_signature a.payer message a.signature ≡ some true)
  unfolding check_signature
  check_signature_lem a h = elim (Option-cases (signing_message a.unsigned)) [
    | inl bad ↦ ground arith
    | inr (message, made) ↦ (message, made, ground arith)
  ]

  -- An input that passes every test before the nonce.
  pub check_authorization-IsAuthorized :
      (input : AuthorizationInput) {c : Checked}
      → check_authorization p verify_signature input ≡ ok c
      → IsAuthorized p verify_signature input c
  unfolding check_authorization
  check_authorization-IsAuthorized input h =
      let (i, h1, k1) = >>=-eq-ok (require (invoice_schema input.invoice) malformed) _ h in
      let (a, h2, k2) =
        >>=-eq-ok (require (authorization_schema input.authorization) malformed) _ k1 in
      let (now, h3, k3) = >>=-eq-ok (require (safe_nonnegative input.now) malformed) _ k2 in
      let (u4, h4, k4) = >>=-eq-ok (reject (ltb now i.issued_at) not_yet_valid) _ k3 in
      let (u5, h5, k5) = >>=-eq-ok (reject (leb i.expires_at now) expired) _ k4 in
      let (hash, h6, k6) =
        >>=-eq-ok (require (compute_resource_hash p input.request) malformed) _ k5 in
      let (u7, h7, k7) =
        >>=-eq-ok
          (reject (not (hash == i.resource_hash) || not (a.resource_hash == i.resource_hash))
            resource_mismatch)
          _ k6 in
      let (u8, h8, k8) = >>=-eq-ok (check_terms p verify_signature i a) _ k7 in
      let (u9, h9, k9) = >>=-eq-ok (check_signature p verify_signature a) _ k8 in
      let (amount, pay_to, nonce, invoice_hash) = check_terms_lem i a h8 in
      let both = reject-ok _ _ h7 in
      subst (IsAuthorized p verify_signature input) (ok-injective k9) (record {
        invoice = require-ok _ _ h1;
        authorization = require-ok _ _ h2;
        clock = require-ok _ _ h3;
        begun = ground (arith, reject-ok _ _ h4);
        in_time = ground (arith, reject-ok _ _ h5);
        resource =
            require-ok _ _ h6 ∙ ap some (same_left (hash) i.resource_hash a.resource_hash both);
        same_resource = same_right (hash) i.resource_hash a.resource_hash both;
        amount = amount;
        pay_to = pay_to;
        nonce = nonce;
        invoice_hash = invoice_hash;
        signed = check_signature_lem a h9;
      })

  accepted :
      {S : Type 0} (consume : Text → ℕ → ℕ → S → S × Bool) (input : AuthorizationInput) (s : S)
      (r : Result FailureCode Checked) {amount : ℕ}
      → check_authorization p verify_signature input ≡ r
      → (consume_nonce p verify_signature consume r s).1 ≡ ok amount
      → (c : Checked) × IsAuthorized p verify_signature input c
        × (parse_amount_sats c.invoice.amount_sats ≡ some amount)
        × ((consume c.invoice.nonce c.invoice.expires_at c.now s).1 ≡ true)
        × ((consume_nonce p verify_signature consume r s).0
            ≡ (consume c.invoice.nonce c.invoice.expires_at c.now s).0)
  unfolding consume_nonce
  accepted consume input s (err code) e h = cc
  accepted consume input s (ok c) e h =
      elim (Bool-cases (consume c.invoice.nonce c.invoice.expires_at c.now s).1) [
        | inl fresh ↦ (
          c,
          check_authorization-IsAuthorized input e,
          require-ok _ _ (rw fresh at h),
          fresh,
          refl,
        )
        | inr used ↦ cc (rw used at h)
      ]

  -- When verifyAuthorization succeeds, the invoice and the authorization met their schemas and
  -- agree on amount, address, nonce, resource and invoice hash, the clock is in the window, the
  -- resource hash is that of the request, the verifier accepted the signature on the signing
  -- message, and the nonce store accepted the nonce of the invoice in the one call that was made;
  -- the amount returned is that of the invoice.
  pub verify_authorization-IsAuthorized :
      {S : Type 0} (consume : Text → ℕ → ℕ → S → S × Bool) (input : AuthorizationInput) (s : S)
      {amount : ℕ}
      → (verify_authorization p verify_signature consume input s).1 ≡ ok amount
      → (c : Checked) × IsAuthorized p verify_signature input c
        × (parse_amount_sats c.invoice.amount_sats ≡ some amount)
        × ((consume c.invoice.nonce c.invoice.expires_at c.now s).1 ≡ true)
        × ((verify_authorization p verify_signature consume input s).0
            ≡ (consume c.invoice.nonce c.invoice.expires_at c.now s).0)
  unfolding verify_authorization
  verify_authorization-IsAuthorized consume input s h =
      accepted consume input s (check_authorization p verify_signature input) refl h

-- What the nonce store keeps, the verification keeps.
module _ {S : Type 0} (consume : Text → ℕ → ℕ → S → S × Bool) (P : S → Type 0)
    (consume-P : (nonce : Text) (expires_at now : ℕ) (s : S)
      → P s
      → P (consume nonce expires_at now s).0) where
  consume_nonce_keeps :
      (p : Platform) (verify_signature : SignatureVerifier) (r : Result FailureCode Checked) (s : S)
      → P s
      → P (consume_nonce p verify_signature consume r s).0
  unfolding consume_nonce
  consume_nonce_keeps p verify_signature (err code) s h = h
  consume_nonce_keeps p verify_signature (ok c) s h =
      consume-P c.invoice.nonce c.invoice.expires_at c.now s h

  pub verify_authorization_keeps :
      (p : Platform) (verify_signature : SignatureVerifier) (input : AuthorizationInput) (s : S)
      → P s
      → P (verify_authorization p verify_signature consume input s).0
  unfolding verify_authorization
  verify_authorization_keeps p verify_signature input s =
      consume_nonce_keeps p verify_signature (check_authorization p verify_signature input) s
