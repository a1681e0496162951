-- ===== src/AgentBridge/Bridge/Release.antt =====
-- Whatever becomes of a call of authorizePayment (bridge.ts), its reservation does not stay.
use x402_xec.Common.{
  inl, inr, ok, err, false, arith, not, Result, Text, ℕ, codes, ◌==◌, text_eq, nat_eq, ◌≡◌,
}
use x402_xec.Common.{Result-cases, Bool-cases, text_beq_iff}
use x402_xec.Common.Dict.{get-remove}
use x402_xec.AgentBridge.Bridge.{
  bind_intent, check_decision, build_request, check_approval, conclude, ask_wallet, ask_policy,
  attempt, caught, reserve_and_attempt, admit, authorize_payment, approved_status,
  needs_human_approval, is_missing, release,
}
use x402_xec.AgentBridge.Bridge.Ports.{
  AuthorizationResult, BridgeError, Tonalli, Bridge, Run, AuthorizationRequest, AgentIntent,
  PolicyDecision, WalletRequest, HumanApproval,
}
use x402_xec.AgentBridge.ReplayCache.{Cache, reserve, rollback, commit, is_in_flight}
use x402_xec.Core.ApprovalContext.{Runtime, Validated}

rollback-is_in_flight : (h n : Text) (c : Cache) → is_in_flight h n (rollback h n c) ≡ false
unfolding rollback
rollback-is_in_flight h n c = ground (
  arith,
  get-remove c.in_flight_invoices h h,
  get-remove c.in_flight_nonces n n,
  text_beq_iff h h,
  text_beq_iff n n,
)

commit-is_in_flight :
    (h n : Text) (expires_at : ℕ) (c : Cache) → is_in_flight h n (commit h n expires_at c) ≡ false
unfolding commit
commit-is_in_flight h n expires_at c = rollback-is_in_flight h n c

module _ (rt : Runtime) (tonalli : Tonalli) (bridge : Bridge) (run : Run)
    (request : AuthorizationRequest) (v : Validated) where
  abbrev IsFree : Cache → Type 0
  IsFree c = is_in_flight v.approval_context.invoice_hash v.approval_context.nonce c ≡ false

  -- A result leaves the cache free; an error is still to be caught.
  Settled : Cache × Result BridgeError AuthorizationResult → Type 0
  Settled (c, ok r) = IsFree c
  Settled (c, err e) = Unit

  release-IsFree : (c : Cache) → IsFree (release rt tonalli bridge run request v c)
  unfolding release
  release-IsFree c =
      rollback-is_in_flight v.approval_context.invoice_hash v.approval_context.nonce c

  conclude-Settled :
      (intent : AgentIntent) (decision : PolicyDecision) (asked : WalletRequest) (a : HumanApproval)
      (c : Cache)
      → Settled (conclude rt tonalli bridge run request v intent decision asked a c)
  unfolding conclude Settled
  conclude-Settled intent decision asked a c =
      let ctx = v.approval_context in
      elim (Bool-cases (a.status == approved_status)) [
        | inl is ↦ elim (Bool-cases (is_missing a.approver)) [
          | inl missing ↦ rw (conclude, is, missing) tt
          | inr named ↦
              rw (conclude, is, named)
                (commit-is_in_flight ctx.invoice_hash ctx.nonce ctx.expires_at c)
        ]
        | inr other ↦ elim (Bool-cases (a.status == codes "rejected")) [
          | inl rejected ↦ rw (conclude, other, rejected) (release-IsFree c)
          | inr kept ↦ elim (Bool-cases (a.status == codes "expired")) [
            | inl late ↦ rw (conclude, other, kept, late) tt
            | inr unknown ↦ rw (conclude, other, kept, unknown) tt
          ]
        ]
      ]

  ask_wallet-Settled :
      (intent : AgentIntent) (decision : PolicyDecision) (c : Cache)
      → Settled (ask_wallet rt tonalli bridge run request v intent decision c)
  unfolding ask_wallet Settled
  ask_wallet-Settled intent decision c =
      elim (Result-cases
        (build_request rt tonalli bridge run request v.approval_context intent decision)) [
          | inr (e, bad) ↦ rw (ask_wallet, bad) tt
          | inl (asked, built) ↦
              elim (Result-cases
                (check_approval rt tonalli bridge run request asked intent decision)) [
                  | inr (e, bad) ↦ rw (ask_wallet, built, bad) tt
                  | inl (a, checked) ↦
                      rw (ask_wallet, built, checked)
                        (conclude-Settled intent decision asked a (run.during_wallet c))
                ]
        ]

  ask_policy-Settled :
      (intent : AgentIntent) (c : Cache)
      → Settled (ask_policy rt tonalli bridge run request v intent c)
  unfolding ask_policy Settled
  ask_policy-Settled intent c =
      elim (Result-cases (check_decision rt tonalli bridge run request intent)) [
        | inr (e, bad) ↦ rw (ask_policy, bad) tt
        | inl (decision, decided) ↦ elim (Bool-cases (decision.decision == codes "rejected")) [
          | inl rejected ↦ rw (ask_policy, decided, rejected) (release-IsFree (run.during_policy c))
          | inr going ↦ elim (Bool-cases (not (decision.decision == needs_human_approval))) [
            | inl unsupported ↦ rw (ask_policy, decided, going, unsupported) tt
            | inr person ↦
                rw (ask_policy, decided, going, person)
                  (ask_wallet-Settled intent decision (run.during_policy c))
          ]
        ]
      ]

  attempt-Settled : (now : ℕ) (c : Cache) → Settled (attempt rt tonalli bridge run request v now c)
  unfolding attempt Settled
  attempt-Settled now c =
      elim (Result-cases (bind_intent rt tonalli bridge run request v.approval_context now)) [
        | inr (e, bad) ↦ rw (attempt, bad) tt
        | inl (intent, bound) ↦ rw (attempt, bound) (ask_policy-Settled intent c)
      ]

  caught-IsFree :
      (o : Cache × Result BridgeError AuthorizationResult)
      → Settled o
      → IsFree (caught rt tonalli bridge run request v o).0
  unfolding caught Settled
  caught-IsFree (c, ok r) settled = settled
  caught-IsFree (c, err e) settled = release-IsFree c

  -- Once authorizePayment has reserved an invoice and its nonce, neither is in flight when the call
  -- ends, whether it approves, rejects or throws at any step, and whatever other calls did to the
  -- cache at its awaits.
  pub authorize_payment_releases :
      (now : ℕ) (c : Cache) {u : Unit {0}}
      → admit rt tonalli bridge run request ≡ ok (now, v)
      → (reserve v.approval_context.invoice_hash v.approval_context.nonce
          v.approval_context.expires_at now c).1
        ≡ ok u
      → is_in_flight v.approval_context.invoice_hash v.approval_context.nonce
          (authorize_payment rt tonalli bridge run request c).0
        ≡ false
  unfolding authorize_payment reserve_and_attempt
  authorize_payment_releases now c admitted granted =
      let ctx = v.approval_context in
      let reserved = (reserve ctx.invoice_hash ctx.nonce ctx.expires_at now c).0 in
      rw (authorize_payment, admitted, reserve_and_attempt, granted)
        (caught-IsFree (attempt rt tonalli bridge run request v now reserved)
          (attempt-Settled now reserved))
