-- ===== src/Facilitator/Service/Balance.antt =====
-- Credit is conserved (facilitator.ts, ledger.ts): of every funding output, what is left and what
-- was debited make up its value.
use x402_xec.Facilitator.Service.{
  terms_of, debit, authorize_and_debit, process, verify, digests, Digests, Outcome, account_of,
  outpoint_of, debited, debit_entry, debit_account, debit_output,
}
use x402_xec.Core.Authorization.{verify_authorization, SignatureVerifier}
use x402_xec.Facilitator.Ledger.{
  consume_staged, FundingAccount, LedgerEntry, Ledger, Transaction, empty_ledger, outpoint_key,
  commit,
}
use x402_xec.Common.{
  Result-cases, if-both, ℕ, ◌+◌, ◌≡◌, refl, ap, sym, subst, ◌∙◌, not, none, some, List, [], ◌∷◌,
  ◌++◌, Text, ◌==◌, text_eq, nat_eq, ltb, arith, Option-cases, Bool-cases, inl, inr, text_beq_iff,
  if◌then◌else◌,
}
use x402_xec.Common.Dict.{get, get-set}
use x402_xec.Core.Json.{Number, Json}
use x402_xec.Core.Chronik.{TxProvider, TxOutput, inspect_funding_transaction}
use x402_xec.Core.Resource.{Platform, compute_resource_hash}
use x402_xec.Facilitator.Request.{VerifyRequest, verify_request_schema}
use x402_xec.Facilitator.Service.Books.{HasBooksOf, verify_authorization-HasBooksOf}
use x402_xec.Core.Schemas.{parse_amount_sats}

abbrev entry_debit : Text → LedgerEntry → ℕ
entry_debit k e = if outpoint_key e.funding_outpoint == k then e.debited_sats else 0

-- The sum of the debits of the output under the key `k`.
unfoldable pub debits : Text → List LedgerEntry → ℕ
debits k [] = 0
debits k (e ∷ es) = entry_debit k e + debits k es

debits-append :
    (k : Text) (es : List LedgerEntry) (e : LedgerEntry)
    → debits k (es ++ e ∷ []) ≡ debits k es + entry_debit k e
unfolding debits
debits-append k [] e = omega arith
debits-append k (x ∷ es) e = omega (arith, debits-append k es e)

pub record IsBalanced (l : Ledger) : Type 0 where
  pub keyed :
      (k : Text) (a : FundingAccount)
      → get l.accounts k ≡ some a
      → outpoint_key a.funding_outpoint ≡ k
  pub balanced :
      (k : Text) (a : FundingAccount)
      → get l.accounts k ≡ some a
      → a.remaining_balance_sats + debits k l.entries ≡ a.funding_value_sats
  pub unopened : (k : Text) → get l.accounts k ≡ none → debits k l.entries ≡ 0

pub empty_ledger-IsBalanced : IsBalanced empty_ledger
unfolding get debits
empty_ledger-IsBalanced = record {
  keyed = λ k a e. cc;
  balanced = λ k a e. cc;
  unopened = λ k e. refl;
}

-- The account is balanced, by itself, with the debits of its key.
abbrev Fits : Ledger → FundingAccount → Type 0
Fits l a =
    a.remaining_balance_sats + debits (outpoint_key a.funding_outpoint) l.entries
    ≡ a.funding_value_sats

module _ (input : VerifyRequest) (d : Digests) (amount : ℕ) (a : FundingAccount) (t : Transaction)
    (b : IsBalanced t.ledger) (fits : Fits t.ledger a)
    (same_key : outpoint_key a.funding_outpoint ≡ outpoint_key (outpoint_of input)) where
  debit_account-IsBalanced : IsBalanced (debit_account input d amount a t).0
  unfolding debit_account commit
  debit_account-IsBalanced = elim (Bool-cases (ltb a.remaining_balance_sats amount)) [
    | inl short ↦ rw (short, debit_account) b
    | inr enough ↦
        let key = outpoint_key a.funding_outpoint in
        let e = debit_entry input d amount (debited amount a) in
        rw (enough, debit_account)
          (record {
            keyed = λ k x h. ground (
              arith,
              b.keyed k x,
              get-set t.ledger.accounts key (debited amount a) k,
              text_beq_iff key k,
            );
            balanced = λ k x h. ground (
              arith,
              b.balanced k x,
              get-set t.ledger.accounts key (debited amount a) k,
              text_beq_iff key k,
              debits-append k t.ledger.entries e,
              same_key,
              enough,
              text_beq_iff (outpoint_key (outpoint_of input)) k,
            );
            unopened = λ k h. ground (
              arith,
              b.unopened k,
              get-set t.ledger.accounts key (debited amount a) k,
              text_beq_iff key k,
              debits-append k t.ledger.entries e,
              same_key,
              text_beq_iff (outpoint_key (outpoint_of input)) k,
            );
          })
  ]

HasBooksOf-IsBalanced : {m l : Ledger} → HasBooksOf m l → IsBalanced l → IsBalanced m
HasBooksOf-IsBalanced {m} {l} same b = record {
  keyed = λ k a h. b.keyed k a (subst (λ v. get v k ≡ some a) same.accounts_same h);
  balanced = λ k a h. ground (
    arith,
    b.balanced k a (subst (λ v. get v k ≡ some a) same.accounts_same h),
    ap (debits k) same.entries_same,
  );
  unopened = λ k h.
      ap (debits k) same.entries_same
      ∙ b.unopened k (subst (λ v. get v k ≡ none) same.accounts_same h);
}

module _ (input : VerifyRequest) (d : Digests) (amount : ℕ) (output : TxOutput) (t : Transaction)
    (b : IsBalanced t.ledger) where
  debit_output-IsBalanced : IsBalanced (debit_output input d amount output t).0
  unfolding debit_output
  debit_output-IsBalanced =
      let key = outpoint_key (outpoint_of input) in
      elim (Option-cases (get t.ledger.accounts key)) [
        | inl fresh ↦ rw (fresh) (
            debit_account-IsBalanced input d amount
              (account_of none (outpoint_of input) input.authorization.payer output.sats) t b
              (omega (arith, b.unopened key fresh)) refl)
        | inr (a, found) ↦ rw (found) (
            if-both (λ (r : Ledger × Outcome). IsBalanced r.0)
              (not (a.funding_value_sats == output.sats)) b
              (if-both (λ (r : Ledger × Outcome). IsBalanced r.0)
                (not (a.payer == input.authorization.payer)) b
                (debit_account-IsBalanced input d amount a t b
                  (subst
                    (λ k.
                      a.remaining_balance_sats + debits k t.ledger.entries ≡ a.funding_value_sats)
                    (sym (b.keyed key a found)) (b.balanced key a found))
                  (b.keyed key a found))))
      ]

module _ (p : Platform) (provider : TxProvider) (verify_signature : SignatureVerifier) where
  debit-IsBalanced :
      (input : VerifyRequest) (d : Digests) (t : Transaction)
      → IsBalanced t.ledger
      → IsBalanced (debit p provider verify_signature input d t).0
  unfolding debit
  debit-IsBalanced input d t b = elim (Option-cases (parse_amount_sats input.invoice.amount_sats)) [
    | inl bad ↦ rw (debit, bad) b
    | inr (amount, parsed) ↦
        elim (Result-cases (inspect_funding_transaction provider (outpoint_of input) none amount)) [
          | inr (code, refused) ↦ rw (debit, parsed, refused) b
          | inl (output, found) ↦
              rw (debit, parsed, found) (debit_output-IsBalanced input d amount output t b)
        ]
  ]

  authorize_and_debit-IsBalanced :
      (input : VerifyRequest) (d : Digests) (now : Number) (l : Ledger)
      → IsBalanced l
      → IsBalanced (authorize_and_debit p provider verify_signature input d now l).0
  unfolding authorize_and_debit
  authorize_and_debit-IsBalanced input d now l b =
      let terms = terms_of input now in
      let t : Transaction = record { ledger = l; staged = [] } in
      let answer = verify_authorization p verify_signature consume_staged terms t in
      let b' =
        HasBooksOf-IsBalanced (verify_authorization-HasBooksOf p verify_signature terms t) b in
      elim (Result-cases answer.1) [
        | inr (code, refused) ↦ rw (authorize_and_debit, refused) b'
        | inl (amount, accepted) ↦
            rw (authorize_and_debit, accepted) (debit-IsBalanced input d answer.0 b')
      ]

  process-IsBalanced :
      (input : VerifyRequest) (d : Digests) (now : Number) (l : Ledger)
      → IsBalanced l
      → IsBalanced (process p provider verify_signature input d now l).0
  unfolding process
  process-IsBalanced input d now l b =
      elim (Option-cases (get l.idempotency input.idempotency_key)) [
        | inr (previous, stored) ↦ rw (process, stored) b
        | inl fresh ↦ rw (process, fresh) (authorize_and_debit-IsBalanced input d now l b)
      ]

  -- Facilitator.verify, whatever it is given, the provider, the verifier and the clock included,
  -- keeps the ledger balanced: of every account the balance left and the debits of the entries of
  -- its outpoint make up the value of the output, and an outpoint without an account has no debits.
  pub verify-IsBalanced :
      (untrusted : Json) (now : Number) (l : Ledger)
      → IsBalanced l
      → IsBalanced (verify p provider verify_signature untrusted now l).0
  unfolding verify
  verify-IsBalanced untrusted now l b = elim (Option-cases (verify_request_schema untrusted)) [
    | inl bad ↦ rw (verify, bad) b
    | inr (input, parsed) ↦ elim (Option-cases (compute_resource_hash p input.resource)) [
      | inl bad ↦ rw (verify, parsed, bad) b
      | inr (resource_hash, hashed) ↦
          elim (Result-cases (digests p provider verify_signature input resource_hash)) [
            | inr (outcome, refused) ↦ rw (verify, parsed, hashed, refused) b
            | inl (d, digested) ↦
                rw (verify, parsed, hashed, digested) (process-IsBalanced input d now l b)
          ]
    ]
  ]
