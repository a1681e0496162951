-- ===== src/Facilitator/Service/Books.antt =====
-- What an authorization leaves of the ledger (facilitator.ts, ledger.ts).
use x402_xec.Common.{text_eq, inl, inr, ◌||◌, ◌∙◌, Bool-cases, ℕ, Text, refl, ◌≡◌}
use x402_xec.Common.Dict.{has}
use x402_xec.Facilitator.Ledger.{Ledger, Transaction, consume_staged}
use x402_xec.Core.Resource.{Platform}
use x402_xec.Core.NonceStore.{forget_expired}
use x402_xec.Core.Authorization.{SignatureVerifier, AuthorizationInput, verify_authorization}
use x402_xec.Core.Authorization.Laws.{verify_authorization_keeps}

-- The accounts, the entries and the stored responses: all but the nonces.
pub record HasBooksOf (m l : Ledger) : Type 0 where
  pub accounts_same : m.accounts ≡ l.accounts
  pub entries_same : m.entries ≡ l.entries
  pub idempotency_same : m.idempotency ≡ l.idempotency

pub HasBooksOf-refl : (l : Ledger) → HasBooksOf l l
HasBooksOf-refl l = record { accounts_same = refl; entries_same = refl; idempotency_same = refl }

HasBooksOf-trans : {n m l : Ledger} → HasBooksOf n m → HasBooksOf m l → HasBooksOf n l
HasBooksOf-trans a b = record {
  accounts_same = a.accounts_same ∙ b.accounts_same;
  entries_same = a.entries_same ∙ b.entries_same;
  idempotency_same = a.idempotency_same ∙ b.idempotency_same;
}

consume_staged-HasBooksOf :
    (nonce : Text) (expires_at now : ℕ) (t : Transaction)
    → HasBooksOf (consume_staged nonce expires_at now t).0.ledger t.ledger
unfolding consume_staged
consume_staged-HasBooksOf nonce expires_at now t =
    let live = forget_expired now t.ledger.nonces in
    elim (Bool-cases (has live nonce || has t.staged nonce)) [
      | inl seen ↦
          rw (seen) (record { accounts_same = refl; entries_same = refl; idempotency_same = refl })
      | inr fresh ↦
          rw (fresh) (record { accounts_same = refl; entries_same = refl; idempotency_same = refl })
    ]

pub verify_authorization-HasBooksOf :
    (p : Platform) (verify_signature : SignatureVerifier) (input : AuthorizationInput)
    (t : Transaction)
    → HasBooksOf (verify_authorization p verify_signature consume_staged input t).0.ledger t.ledger
verify_authorization-HasBooksOf p verify_signature input t =
    verify_authorization_keeps consume_staged (λ u. HasBooksOf u.ledger t.ledger)
      (λ nonce expires_at now u h.
        HasBooksOf-trans (consume_staged-HasBooksOf nonce expires_at now u) h)
      p verify_signature input t (HasBooksOf-refl t.ledger)
