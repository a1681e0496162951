-- ===== src/Facilitator/Service/Repeats.antt =====
-- A request that is repeated, and one that is refused (facilitator.ts, `Facilitator.verify`).
use x402_xec.Facilitator.Service.{thrown}
use x402_xec.Core.Authorization.{authorization_json}
use x402_xec.Core.Schemas.{authorization_schema}
use x402_xec.Core.Resource.{canonical_hash}
use x402_xec.Core.Invoice.{compute_invoice_hash}
use x402_xec.Facilitator.Service.{request_digest}
use x402_xec.Common.{
  ok, err, Text, ◌≡◌, refl, Bool-cases, Option-cases, Result-cases, inl, inr, false, some, text_eq,
  arith, ◌==◌, text_beq_iff,
}
use x402_xec.Core.Authorization.{SignatureVerifier}
use x402_xec.Core.Resource.{compute_resource_hash, Platform}
use x402_xec.Facilitator.Service.{
  Outcome, verify_request_schema, Json, verified, digests, verify, Verified, Ledger, Number,
  Digests, VerifyRequest, process,
}
use x402_xec.Common.Dict.{get}
use x402_xec.Core.Chronik.{TxProvider}
use x402_xec.Facilitator.Service.Replies.{is_verified, authorize_and_debit-IsAnswer}
use x402_xec.Facilitator.Service.Books.{HasBooksOf, HasBooksOf-refl}

module _ (p : Platform) (provider : TxProvider) (verify_signature : SignatureVerifier) where
  process-unchanged :
      (input : VerifyRequest) (d : Digests) (now : Number) (l : Ledger)
      → is_verified (process p provider verify_signature input d now l).1 ≡ false
      → HasBooksOf (process p provider verify_signature input d now l).0 l
  unfolding process
  process-unchanged input d now l = elim (Option-cases (get l.idempotency input.idempotency_key)) [
    | inr (previous, stored) ↦ rw (process, stored) (λ u. HasBooksOf-refl l)
    | inl fresh ↦
        rw (process, fresh)
          (authorize_and_debit-IsAnswer input d l p provider verify_signature now).unchanged
  ]

  process-remembered :
      (input : VerifyRequest) (d : Digests) (now : Number) (l : Ledger) (body : Verified)
      → (process p provider verify_signature input d now l).1 ≡ verified body
      → get (process p provider verify_signature input d now l).0.idempotency input.idempotency_key
        ≡ some (record { request_digest = d.request_digest; response = body })
  unfolding process
  process-remembered input d now l body =
      elim (Option-cases (get l.idempotency input.idempotency_key)) [
        | inr (previous, stored) ↦
            rw (process, stored)
              (λ h. elim (Bool-cases (previous.request_digest == d.request_digest)) [
                | inl same ↦ ground (arith, text_beq_iff previous.request_digest d.request_digest)
                | inr other ↦ ground arith
              ])
        | inl fresh ↦
            rw (process, fresh)
              ((authorize_and_debit-IsAnswer input d l p provider verify_signature now).remembered
                body)
      ]

  process-replay :
      (input : VerifyRequest) (d : Digests) (now : Number) (l : Ledger) (body : Verified)
      → get l.idempotency input.idempotency_key
        ≡ some (record { request_digest = d.request_digest; response = body })
      → process p provider verify_signature input d now l ≡ (l, verified body)
  unfolding process
  process-replay input d now l body stored =
      rw (process, stored) (ground (arith, text_beq_iff d.request_digest d.request_digest))

  -- When Facilitator.verify does not answer VERIFIED, a promise that is rejected included, the
  -- accounts, the entries and the stored responses of the ledger are as they were.
  pub verify_refused :
      (untrusted : Json) (now : Number) (l : Ledger)
      → is_verified (verify p provider verify_signature untrusted now l).1 ≡ false
      → HasBooksOf (verify p provider verify_signature untrusted now l).0 l
  unfolding verify
  verify_refused untrusted now l = elim (Option-cases (verify_request_schema untrusted)) [
    | inl bad ↦ rw (verify, bad) (λ u. HasBooksOf-refl l)
    | inr (input, parsed) ↦ elim (Option-cases (compute_resource_hash p input.resource)) [
      | inl bad ↦ rw (verify, parsed, bad) (λ u. HasBooksOf-refl l)
      | inr (resource_hash, hashed) ↦
          elim (Result-cases (digests p provider verify_signature input resource_hash)) [
            | inr (outcome, refused) ↦ rw (verify, parsed, hashed, refused) (λ u. HasBooksOf-refl l)
            | inl (d, digested) ↦
                rw (verify, parsed, hashed, digested) (process-unchanged input d now l)
          ]
    ]
  ]

  digests-thrown :
      (input : VerifyRequest) (resource_hash : Text) (o : Outcome)
      → digests p provider verify_signature input resource_hash ≡ err o
      → o ≡ thrown
  unfolding digests
  digests-thrown input resource_hash o h =
      let json = authorization_json input.authorization in
      elim (Option-cases (authorization_schema json)) [
        | inl bad ↦ ground arith
        | inr (parsed, e1) ↦ elim (Option-cases (canonical_hash p (authorization_json parsed))) [
          | inl bad ↦ ground arith
          | inr (digest, e2) ↦ elim (Option-cases (compute_invoice_hash p input.invoice)) [
            | inl bad ↦ ground arith
            | inr (invoice_id, e3) ↦
                elim (Option-cases
                  (request_digest p provider verify_signature digest invoice_id resource_hash)) [
                    | inl bad ↦ ground arith
                    | inr (d, e4) ↦ ground arith
                  ]
          ]
        ]
      ]

  verify-process :
      (untrusted : Json) (input : VerifyRequest) (resource_hash : Text) (d : Digests)
      → verify_request_schema untrusted ≡ some input
      → compute_resource_hash p input.resource ≡ some resource_hash
      → digests p provider verify_signature input resource_hash ≡ ok d
      → (now : Number) (l : Ledger)
      → verify p provider verify_signature untrusted now l
        ≡ process p provider verify_signature input d now l
  unfolding verify
  verify-process untrusted input resource_hash d parsed hashed digested now l =
      rw (verify, parsed, hashed, digested) refl

  -- A request that Facilitator.verify has verified and that comes again next, at any clock, gets
  -- the same body and leaves the ledger as it is.
  pub verify_replay :
      (untrusted : Json) (now later : Number) (l : Ledger) (body : Verified)
      → (verify p provider verify_signature untrusted now l).1 ≡ verified body
      → verify p provider verify_signature untrusted later
          (verify p provider verify_signature untrusted now l).0
        ≡ ((verify p provider verify_signature untrusted now l).0, verified body)
  unfolding verify
  verify_replay untrusted now later l body = elim (Option-cases (verify_request_schema untrusted)) [
    | inl bad ↦ rw (verify, bad) (λ h. cc)
    | inr (input, parsed) ↦ elim (Option-cases (compute_resource_hash p input.resource)) [
      | inl bad ↦ rw (verify, parsed, bad) (λ h. cc)
      | inr (resource_hash, hashed) ↦
          elim (Result-cases (digests p provider verify_signature input resource_hash)) [
            | inr (outcome, refused) ↦
                rw (verify, parsed, hashed, refused)
                  (λ h. ground (arith, digests-thrown input resource_hash outcome refused))
            | inl (d, digested) ↦
                let at = verify-process untrusted input resource_hash d parsed hashed digested in
                let l' = (process p provider verify_signature input d now l).0 in
                rw (at now l, at later l')
                  (λ h.
                    process-replay input d later l' body (process-remembered input d now l body h))
          ]
    ]
  ]
