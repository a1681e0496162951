-- ===== src/AgentBridge/Bridge.antt =====
-- bridge.ts: a payment is authorized by the policy and a person, and never made here.
pub mod Approval
pub mod Ports
pub mod Release
pub mod Intake
pub mod Once
pub mod Safety
pub mod Wallet
use x402_xec.AgentBridge.Bridge.Intake.{ingest, validate_clock_value}
use x402_xec.Common.{
  ◌>>=◌, ◌>>◌, includes, ok, err, some, none, true, false, not, Bool, Option, Result, Text, ℕ,
  codes, reject, require, ◌∷◌, [], ◌++◌, ◌==◌, text_eq, nat_eq, if◌then◌else◌, ◌||◌, ◌+◌, ltb, leb,
  min,
}
use x402_xec.AgentBridge.Bridge.Ports.{
  BridgeError, AgentIntent, PolicyDecision, WalletRequest, HumanApproval, Tonalli, PolicyEvaluator,
  WalletTransport, AuthorizationRequest, BridgeConfig, Bridge, Run, AuthorizationResult,
  malformed_payment_required, unsupported_version, unsupported_scheme, unsupported_network,
  resource_mismatch, invoice_hash_mismatch, invoice_not_yet_valid, invoice_expired,
  invoice_expired_during_authorization, invalid_clock, insufficient_funds_limit, kill_switch_active,
  invariant_binding_mismatch, policy_decision_invalid, wallet_transport_error,
  malformed_human_approval, human_approval_expired, cache_error, not_an_integer,
}
use x402_xec.AgentBridge.ReplayCache.{Cache, reserve, rollback, commit}
use x402_xec.Core.Json.{Json, Number, nonneg, negative, inexact, not_finite, safe_nonnegative}
use x402_xec.Core.ApprovalContext.{
  Runtime, RequiredError, message, Validated, validate_payment_required,
}
use x402_xec.Core.ApprovalContext.Schema.{ApprovalContext}
use x402_xec.Common.Decimal.{of_decimal}

abbrev or_else : {A : Type 0} → Option A → A → A
or_else none a = a
or_else (some x) a = x

-- `Math.min(context.expiresAt, createdAt + ttl)`
abbrev pub intent_expiry : Option ℕ → ℕ → ApprovalContext → ℕ
intent_expiry ttl now ctx = min ctx.expires_at (now + or_else ttl 300)

abbrev pub drafted_intent : Run → AuthorizationRequest → ApprovalContext → ℕ → AgentIntent
drafted_intent run request ctx now = record {
  intent_id = codes "intent:" ++ run.intent_uuid;
  nonce = run.intent_nonce;
  agent_id = request.agent_config.agent_id;
  agent_role = request.agent_config.agent_role;
  network = ctx.network;
  from_address = request.agent_config.from_address;
  to_address = ctx.pay_to;
  amount_sats = ctx.amount_sats;
  reason =
      or_else request.agent_config.reason
        (codes "x402 payment authorization for invoice " ++ ctx.invoice_hash);
  memo = request.agent_config.memo;
  created_at = now;
  expires_at = intent_expiry request.agent_config.intent_ttl_seconds now ctx;
}

-- `!approver`
abbrev pub is_missing : Option Text → Bool
is_missing none = true
is_missing (some []) = true
is_missing (some (c ∷ s)) = false

abbrev pub needs_human_approval : Text
needs_human_approval = codes "needs_human_approval"

abbrev pub approved_status : Text
approved_status = codes "approved"

module _ (rt : Runtime) (tonalli : Tonalli) (bridge : Bridge) (run : Run)
    (request : AuthorizationRequest) where
  -- Steps 1 to 4: nothing is reserved yet.
  unfoldable pub admit : Result BridgeError (ℕ × Validated)
  admit = do
    now ← validate_clock_value run.now
    reject bridge.kill_switch kill_switch_active
    reject (bridge.daily_limit_sats == 0) insufficient_funds_limit
    v ← ingest rt request now
    ok (now, v)

  -- Step 6: the intent, bound to the context.
  unfoldable pub bind_intent : ApprovalContext → ℕ → Result BridgeError AgentIntent
  bind_intent ctx now = do
    reject (leb (intent_expiry request.agent_config.intent_ttl_seconds now ctx) now) invoice_expired
    intent ←
        require (tonalli.parse_agent_intent (drafted_intent run request ctx now))
          malformed_payment_required
    reject (not (ctx.amount_sats == intent.amount_sats)) invariant_binding_mismatch
    reject (not (ctx.pay_to == intent.to_address)) invariant_binding_mismatch
    reject (not (ctx.network == intent.network)) invariant_binding_mismatch
    reject (ltb bridge.daily_limit_sats (of_decimal intent.amount_sats)) insufficient_funds_limit
    ok intent

  -- Step 7: the answer of the policy.
  unfoldable pub check_decision : AgentIntent → Result BridgeError PolicyDecision
  check_decision intent = do
    raw ← require (bridge.policy_evaluator intent) policy_decision_invalid
    decision ← require (tonalli.parse_policy_decision raw) policy_decision_invalid
    reject (not (decision.intent_id == intent.intent_id)) policy_decision_invalid
    ok decision

  -- Step 8: the request to the wallet.
  unfoldable pub build_request :
      ApprovalContext → AgentIntent → PolicyDecision → Result BridgeError WalletRequest
  build_request ctx intent decision = do
    now ← validate_clock_value run.requested_at
    reject (leb ctx.expires_at now || leb intent.expires_at now || leb decision.expires_at now)
        invoice_expired_during_authorization
    require
        (tonalli.parse_wallet_request (record {
          request_id = codes "wallet-request:" ++ run.request_uuid;
          intent = intent;
          policy_decision = decision;
          x402 = ctx;
          requested_at = now;
          expires_at = min (min intent.expires_at decision.expires_at) ctx.expires_at;
        }))
        invariant_binding_mismatch

  -- Steps 9 and 10: the answer of the wallet.
  unfoldable pub check_approval :
      WalletRequest → AgentIntent → PolicyDecision → Result BridgeError HumanApproval
  check_approval asked intent decision = do
    raw ← require (bridge.wallet_transport asked) wallet_transport_error
    approval ← require (tonalli.parse_human_approval raw) malformed_human_approval
    reject (not (approval.contract_version == codes "1.0")) malformed_human_approval
    reject (not (approval.request_id == asked.request_id)) invariant_binding_mismatch
    reject (not (approval.intent_id == intent.intent_id)) invariant_binding_mismatch
    reject (not (approval.decision_id == decision.decision_id)) invariant_binding_mismatch
    reject
        (leb intent.expires_at approval.recorded_at || leb decision.expires_at approval.recorded_at)
        human_approval_expired
    ok approval

  module _ (v : Validated) where
    unfoldable pub release : Cache → Cache
    release c = rollback v.approval_context.invoice_hash v.approval_context.nonce c

    abbrev pub answer :
        Bool
        → Option HumanApproval
        → Option WalletRequest
        → AgentIntent
        → PolicyDecision
        → AuthorizationResult
    answer is_approved approval asked intent decision = record {
      is_approved = is_approved;
      human_approval = approval;
      wallet_request = asked;
      agent_intent = intent;
      policy_decision = decision;
      approval_context = v.approval_context;
      invoice = v.invoice;
      resource = v.resource;
    }

    -- Step 11: what the person's status does to the reservation.
    unfoldable pub conclude :
        AgentIntent
        → PolicyDecision
        → WalletRequest
        → HumanApproval
        → Cache
        → Cache × Result BridgeError AuthorizationResult
    conclude intent decision asked approval c =
        let ctx = v.approval_context in
        if approval.status == approved_status
        then if is_missing approval.approver then (c, err malformed_human_approval) else (
          commit ctx.invoice_hash ctx.nonce ctx.expires_at c,
          ok (answer true (some approval) (some asked) intent decision),
        )
        else if approval.status == codes "rejected"
        then (release c, ok (answer false (some approval) (some asked) intent decision))
        else if approval.status == codes "expired"
        then (release c, err human_approval_expired)
        else (c, err malformed_human_approval)

    unfoldable pub ask_wallet :
        AgentIntent → PolicyDecision → Cache → Cache × Result BridgeError AuthorizationResult
    ask_wallet intent decision c = elim (build_request v.approval_context intent decision) [
      | err e ↦ (c, err e)
      | ok asked ↦ elim (check_approval asked intent decision) [
        | err e ↦ (run.during_wallet c, err e)
        | ok approval ↦ conclude intent decision asked approval (run.during_wallet c)
      ]
    ]

    unfoldable pub ask_policy : AgentIntent → Cache → Cache × Result BridgeError AuthorizationResult
    ask_policy intent c = elim (check_decision intent) [
      | err e ↦ (run.during_policy c, err e)
      | ok decision ↦
          if decision.decision == codes "rejected"
          then (release (run.during_policy c), ok (answer false none none intent decision))
          else if not (decision.decision == needs_human_approval)
          then (run.during_policy c, err policy_decision_invalid)
          else ask_wallet intent decision (run.during_policy c)
    ]

    -- The body of `try`.
    unfoldable pub attempt : ℕ → Cache → Cache × Result BridgeError AuthorizationResult
    attempt now c = elim (bind_intent v.approval_context now) [
      | err e ↦ (c, err e)
      | ok intent ↦ ask_policy intent c
    ]

    -- `catch`
    unfoldable pub caught :
        Cache × Result BridgeError AuthorizationResult
        → Cache × Result BridgeError AuthorizationResult
    caught (c, ok r) = (c, ok r)
    caught (c, err e) = (release c, err e)

    -- Step 5, and what it guards.
    unfoldable pub reserve_and_attempt : ℕ → Cache → Cache × Result BridgeError AuthorizationResult
    reserve_and_attempt now c =
        let ctx = v.approval_context in
        let (reserved, granted) = reserve ctx.invoice_hash ctx.nonce ctx.expires_at now c in
        elim granted [
          | err e ↦ (reserved, err (cache_error e))
          | ok u ↦ caught (attempt now reserved)
        ]

  -- `authorizePayment`
  unfoldable pub authorize_payment : Cache → Cache × Result BridgeError AuthorizationResult
  authorize_payment c = elim admit [
    | err e ↦ (c, err e)
    | ok (now, v) ↦ reserve_and_attempt v now c
  ]
