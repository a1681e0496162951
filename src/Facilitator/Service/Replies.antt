-- ===== src/Facilitator/Service/Replies.antt =====
-- What the answers of the facilitator say of its ledger (facilitator.ts): a request that is not
-- verified changes no account, and one that is verified is answered alike for ever after.
use x402_xec.Facilitator.Service.{
  account_of, payer_mismatch, is_other_payer, funding_changed, is_changed, parse_amount_sats,
  terms_of, Number, outpoint_of, debit, authorize_and_debit, debited, debit_output, Platform,
  verified_body, Digests, Outcome, verified, failure, thrown, insufficient_credit, debit_account,
  funding_failure, authorization_failure,
}
use x402_xec.Facilitator.Service.Books.{verify_authorization-HasBooksOf, HasBooksOf}
use x402_xec.Facilitator.Ledger.{
  consume_staged, get_funding_account, FundingAccount, Verified, Ledger, Transaction, commit,
}
use x402_xec.Core.Chronik.{
  inspect_funding_transaction, TxOutput, TxProvider, FundingCode, transaction_not_found,
  output_not_found, output_script_mismatch, insufficient_sats, token_output, transaction_not_final,
  provider_failed,
}
use x402_xec.Core.Authorization.{
  verify_authorization, SignatureVerifier, FailureCode, not_yet_valid, expired, resource_mismatch,
  amount_mismatch, pay_to_mismatch, nonce_mismatch, invoice_mismatch, invalid_signature,
  nonce_reused,
}
use x402_xec.Common.{
  [], Result-cases, if-both, Option-cases, text_beq_iff, ℕ, ◌≡◌, refl, Bool, true, false, none,
  some, text_eq, Bool-cases, inl, inr, ltb, arith,
}
use x402_xec.Common.Dict.{get, get-set}
use x402_xec.Facilitator.Request.{VerifyRequest}

abbrev pub is_verified : Outcome → Bool
is_verified (verified body) = true
is_verified _ = false

-- What holds of every answer to the request on the ledger `l`.
pub record IsAnswer (input : VerifyRequest) (d : Digests) (l : Ledger) (r : Ledger × Outcome)
    : Type 0 where
  pub remembered :
      (body : Verified)
      → r.1 ≡ verified body
      → get r.0.idempotency input.idempotency_key
        ≡ some (record { request_digest = d.request_digest; response = body })
  pub unchanged : is_verified r.1 ≡ false → HasBooksOf r.0 l

funding_refusal : (code : FundingCode) → is_verified (funding_failure code) ≡ false
funding_refusal transaction_not_found = refl
funding_refusal output_not_found = refl
funding_refusal output_script_mismatch = refl
funding_refusal insufficient_sats = refl
funding_refusal token_output = refl
funding_refusal transaction_not_final = refl
funding_refusal provider_failed = refl

authorization_refusal : (code : FailureCode) → is_verified (authorization_failure code) ≡ false
authorization_refusal FailureCode.malformed = refl
authorization_refusal not_yet_valid = refl
authorization_refusal expired = refl
authorization_refusal resource_mismatch = refl
authorization_refusal amount_mismatch = refl
authorization_refusal pay_to_mismatch = refl
authorization_refusal nonce_mismatch = refl
authorization_refusal invoice_mismatch = refl
authorization_refusal invalid_signature = refl
authorization_refusal nonce_reused = refl
authorization_refusal FailureCode.thrown = refl

module _ (input : VerifyRequest) (d : Digests) (l : Ledger) where
  refusal-IsAnswer :
      (m : Ledger) (o : Outcome)
      → is_verified o ≡ false
      → HasBooksOf m l
      → IsAnswer input d l (m, o)
  refusal-IsAnswer m (verified body) bad same = cc
  refusal-IsAnswer m (failure code status) bad same = record {
    remembered = λ body h. cc;
    unchanged = λ u. same;
  }
  refusal-IsAnswer m thrown bad same = record { remembered = λ body h. cc; unchanged = λ u. same }

  module _ (amount : ℕ) (t : Transaction) (same : HasBooksOf t.ledger l) where
    debit_account-IsAnswer :
        (a : FundingAccount) → IsAnswer input d l (debit_account input d amount a t)
    unfolding debit_account commit
    debit_account-IsAnswer a = elim (Bool-cases (ltb a.remaining_balance_sats amount)) [
      | inl short ↦
          rw (short, debit_account)
            (refusal-IsAnswer t.ledger (failure insufficient_credit 402) refl same)
      | inr enough ↦
          rw (enough, debit_account)
            (record {
              remembered = λ body h. ground (
                arith,
                get-set t.ledger.idempotency input.idempotency_key
                    (record {
                      request_digest = d.request_digest;
                      response = verified_body input d amount (debited amount a);
                    })
                    input.idempotency_key,
                text_beq_iff input.idempotency_key input.idempotency_key,
              );
              unchanged = λ u. cc;
            })
    ]

    debit_output-IsAnswer :
        (output : TxOutput) → IsAnswer input d l (debit_output input d amount output t)
    unfolding debit_output
    debit_output-IsAnswer output =
        let existing = get_funding_account (outpoint_of input) t.ledger in
        if-both (IsAnswer input d l) (is_changed existing output.sats)
          (refusal-IsAnswer t.ledger (failure funding_changed 409) refl same)
          (if-both (IsAnswer input d l) (is_other_payer existing input.authorization.payer)
            (refusal-IsAnswer t.ledger (failure payer_mismatch 403) refl same)
            (debit_account-IsAnswer
              (account_of existing (outpoint_of input) input.authorization.payer output.sats)))

  module _ (p : Platform) (provider : TxProvider) (verify_signature : SignatureVerifier) where
    debit-IsAnswer :
        (t : Transaction)
        → HasBooksOf t.ledger l
        → IsAnswer input d l (debit p provider verify_signature input d t)
    unfolding debit
    debit-IsAnswer t same = elim (Option-cases (parse_amount_sats input.invoice.amount_sats)) [
      | inl bad ↦ rw (debit, bad) (refusal-IsAnswer t.ledger thrown refl same)
      | inr (amount, parsed) ↦
          elim (Result-cases
            (inspect_funding_transaction provider (outpoint_of input) none amount)) [
              | inr (code, refused) ↦
                  rw (debit, parsed, refused)
                    (refusal-IsAnswer t.ledger (funding_failure code) (funding_refusal code) same)
              | inl (output, found) ↦
                  rw (debit, parsed, found) (debit_output-IsAnswer amount t same output)
            ]
    ]

    pub authorize_and_debit-IsAnswer :
        (now : Number)
        → IsAnswer input d l (authorize_and_debit p provider verify_signature input d now l)
    unfolding authorize_and_debit
    authorize_and_debit-IsAnswer now =
        let terms = terms_of input now in
        let t : Transaction = record { ledger = l; staged = [] } in
        let answer = verify_authorization p verify_signature consume_staged terms t in
        let same = verify_authorization-HasBooksOf p verify_signature terms t in
        elim (Result-cases answer.1) [
          | inr (code, refused) ↦
              rw (authorize_and_debit, refused)
                (refusal-IsAnswer answer.0.ledger (authorization_failure code)
                  (authorization_refusal code) same)
          | inl (amount, accepted) ↦
              rw (authorize_and_debit, accepted) (debit-IsAnswer answer.0 same)
        ]
