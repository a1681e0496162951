-- ===== src/AgentBridge/Bridge/Once.antt =====
-- An invoice that the bridge (bridge.ts) authorized is not authorized again.
use x402_xec.AgentBridge.Bridge.{cache_error, reserve_and_attempt, admit, authorize_payment}
use x402_xec.Common.{refl, inl, inr, ok, err, true, false, subst, ℕ, ◌≡◌, ◌⊎◌, ◌<◌, Result-cases}
use x402_xec.AgentBridge.Bridge.Ports.{
  AuthorizationResult, Tonalli, Bridge, Run, AuthorizationRequest,
}
use x402_xec.AgentBridge.Bridge.Safety.{reserve_and_attempt-IsApproved}
use x402_xec.AgentBridge.Bridge.Wallet.{reserved_in}
use x402_xec.AgentBridge.ReplayCache.{Cache, ErrorCode, commit}
use x402_xec.AgentBridge.ReplayCache.History.{Calls, authorized_once, is_granted}
use x402_xec.Core.ApprovalContext.{Runtime, Validated}

module _ (rt : Runtime) (tonalli : Tonalli) (bridge : Bridge) (run : Run)
    (request : AuthorizationRequest) where
  approved_commits :
      (now : ℕ) (v : Validated) (c : Cache) {r : AuthorizationResult}
      → admit rt tonalli bridge run request ≡ ok (now, v)
      → (authorize_payment rt tonalli bridge run request c).1 ≡ ok r
      → r.is_approved ≡ true
      → (x : Cache) × ((authorize_payment rt tonalli bridge run request c).0
          ≡ commit v.approval_context.invoice_hash v.approval_context.nonce
              v.approval_context.expires_at x)
  unfolding authorize_payment
  approved_commits now v c admitted h approved =
      let (is, granted, cache) =
        reserve_and_attempt-IsApproved rt tonalli bridge run request v now c
          (rw (authorize_payment, admitted) at h) approved in
      (
        run.during_wallet (run.during_policy (reserved_in v now c).0),
        rw (authorize_payment, admitted) cache,
      )

  refused_by_cache :
      (now : ℕ) (v : Validated) (c : Cache)
      → admit rt tonalli bridge run request ≡ ok (now, v)
      → is_granted (reserved_in v now c).1 ≡ false
      → (e : ErrorCode) × ((authorize_payment rt tonalli bridge run request c).1
          ≡ err (cache_error e))
  unfolding authorize_payment reserve_and_attempt
  refused_by_cache now v c admitted refused = elim (Result-cases (reserved_in v now c).1) [
    | inl (u, granted) ↦ cc (rw granted at refused)
    | inr (e, denied) ↦ (e, rw (authorize_payment, admitted, reserve_and_attempt, denied) refl)
  ]

module _ (rt : Runtime) (tonalli : Tonalli) (bridge : Bridge) (run later : Run)
    (request again : AuthorizationRequest) (c t : Cache) (now soon : ℕ) (v w : Validated) where
  -- Once authorizePayment has approved a payment, another call for an invoice with its hash or its
  -- nonce, at a clock before the expiry, fails with an error of the replay cache, whatever
  -- reservations, prunings, rollbacks and commitments of what is in flight come between at clocks
  -- before that expiry.
  pub authorize_payment_once :
      {r : AuthorizationResult}
      → admit rt tonalli bridge run request ≡ ok (now, v)
      → (authorize_payment rt tonalli bridge run request c).1 ≡ ok r
      → r.is_approved ≡ true
      → Calls v.approval_context.expires_at (authorize_payment rt tonalli bridge run request c).0 t
      → admit rt tonalli bridge later again ≡ ok (soon, w)
      → soon < v.approval_context.expires_at
      → (w.approval_context.invoice_hash ≡ v.approval_context.invoice_hash)
        ⊎ (w.approval_context.nonce ≡ v.approval_context.nonce)
      → (e : ErrorCode) × ((authorize_payment rt tonalli bridge later again t).1
          ≡ err (cache_error e))
  authorize_payment_once admitted h approved calls admitted' in_time same =
      let (x, cache) = approved_commits rt tonalli bridge run request now v c admitted h approved in
      let from = subst (λ (u : Cache). Calls v.approval_context.expires_at u t) cache calls in
      refused_by_cache rt tonalli bridge later again soon w t admitted' (
        authorized_once v.approval_context.invoice_hash v.approval_context.nonce
          v.approval_context.expires_at x t from w.approval_context.invoice_hash
          w.approval_context.nonce w.approval_context.expires_at soon in_time same)
