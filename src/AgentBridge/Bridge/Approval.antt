-- ===== src/AgentBridge/Bridge/Approval.antt =====
-- What an authorization that the bridge approves rests on (bridge.ts).
use x402_xec.Common.{
  eq-of-not_other, refl, ok, some, arith, sym, subst, ap, not, ℕ, codes, reject, require, ◌==◌,
  text_eq, nat_eq, ◌≡◌, ◌∙◌, ◌||◌, ◌≤◌, ◌<◌, >>=-eq-ok, require-ok, reject-ok, ok-injective, leb,
  ltb,
}
use x402_xec.AgentBridge.Bridge.{
  human_approval_expired, invoice_expired_during_authorization, malformed_human_approval,
  wallet_transport_error, invalid_clock, insufficient_funds_limit, policy_decision_invalid, Json,
  HumanApproval, invariant_binding_mismatch, safe_nonnegative, invoice_expired, of_decimal,
  PolicyDecision, AgentIntent, ApprovalContext, WalletRequest, AuthorizationRequest, Run, Bridge,
  Tonalli, Runtime, bind_intent, check_decision, build_request, check_approval, drafted_intent,
  intent_expiry,
}
use x402_xec.AgentBridge.Bridge.Intake.{validate_clock_value}
use x402_xec.AgentBridge.Bridge.Ports.{malformed_payment_required}

module _ (rt : Runtime) (tonalli : Tonalli) (bridge : Bridge) (run : Run)
    (request : AuthorizationRequest) where
  -- The intent says what the context says, within the limit.
  pub record IsIntent (ctx : ApprovalContext) (intent : AgentIntent) : Type 0 where
    pub amount : intent.amount_sats ≡ ctx.amount_sats
    pub to_address : intent.to_address ≡ ctx.pay_to
    pub network : intent.network ≡ ctx.network
    pub limited : of_decimal ctx.amount_sats ≤ bridge.daily_limit_sats

  -- The wallet was asked about them before anything expired.
  pub record IsAsked (ctx : ApprovalContext) (intent : AgentIntent) (decision : PolicyDecision)
      (asked : WalletRequest) : Type 0 where
    pub clock :
        (now : ℕ) × (safe_nonnegative run.requested_at ≡ some now)
        × (now < ctx.expires_at)
        × (now < intent.expires_at)
        × (now < decision.expires_at)
    pub parsed :
        (draft : WalletRequest) × (tonalli.parse_wallet_request draft ≡ some asked)
        × (draft.intent ≡ intent)
        × (draft.policy_decision ≡ decision)
        × (draft.x402 ≡ ctx)

  -- The wallet answered so, about that request, intent and decision, in time.
  pub record IsAnswer (intent : AgentIntent) (decision : PolicyDecision) (asked : WalletRequest)
      (a : HumanApproval) : Type 0 where
    pub raw :
        (raw : Json) × (bridge.wallet_transport asked ≡ some raw)
        × (tonalli.parse_human_approval raw ≡ some a)
    pub request_id : a.request_id ≡ asked.request_id
    pub intent_id : a.intent_id ≡ intent.intent_id
    pub decision_id : a.decision_id ≡ decision.decision_id
    pub in_time : (a.recorded_at < intent.expires_at) × (a.recorded_at < decision.expires_at)

  pub bind_intent-IsIntent :
      (ctx : ApprovalContext) (now : ℕ) {intent : AgentIntent}
      → bind_intent rt tonalli bridge run request ctx now ≡ ok intent
      → IsIntent ctx intent
  unfolding bind_intent
  bind_intent-IsIntent ctx now h =
      let (u1, h1, k1) =
        >>=-eq-ok
          (reject (leb (intent_expiry request.agent_config.intent_ttl_seconds now ctx) now)
            invoice_expired)
          _ h in
      let (i, h2, k2) =
        >>=-eq-ok
          (require (tonalli.parse_agent_intent (drafted_intent run request ctx now))
            malformed_payment_required)
          _ k1 in
      let (u3, h3, k3) =
        >>=-eq-ok (reject (not (ctx.amount_sats == i.amount_sats)) invariant_binding_mismatch) _
          k2 in
      let (u4, h4, k4) =
        >>=-eq-ok (reject (not (ctx.pay_to == i.to_address)) invariant_binding_mismatch) _ k3 in
      let (u5, h5, k5) =
        >>=-eq-ok (reject (not (ctx.network == i.network)) invariant_binding_mismatch) _ k4 in
      let (u6, h6, k6) =
        >>=-eq-ok
          (reject (ltb bridge.daily_limit_sats (of_decimal i.amount_sats)) insufficient_funds_limit)
          _ k5 in
      let amount : ctx.amount_sats ≡ i.amount_sats =
        eq-of-not_other ctx.amount_sats i.amount_sats (reject-ok _ _ h3) in
      subst (IsIntent ctx) (ok-injective k6) (record {
        amount = sym amount;
        to_address = sym (eq-of-not_other ctx.pay_to i.to_address (reject-ok _ _ h4));
        network = sym (eq-of-not_other ctx.network i.network (reject-ok _ _ h5));
        limited = ground (arith, ap of_decimal amount, reject-ok _ _ h6);
      })

  pub check_decision_lem :
      (intent : AgentIntent) {decision : PolicyDecision}
      → check_decision rt tonalli bridge run request intent ≡ ok decision
      → (raw : Json) × (bridge.policy_evaluator intent ≡ some raw)
        × (tonalli.parse_policy_decision raw ≡ some decision)
        × (decision.intent_id ≡ intent.intent_id)
  unfolding check_decision
  check_decision_lem intent h =
      let (raw, h1, k1) =
        >>=-eq-ok (require (bridge.policy_evaluator intent) policy_decision_invalid) _ h in
      let (d, h2, k2) =
        >>=-eq-ok (require (tonalli.parse_policy_decision raw) policy_decision_invalid) _ k1 in
      let (u, h3, k3) =
        >>=-eq-ok (reject (not (d.intent_id == intent.intent_id)) policy_decision_invalid) _ k2 in
      (
        raw,
        require-ok _ _ h1,
        require-ok _ _ h2 ∙ ap some (ok-injective k3),
        ap (λ (x : PolicyDecision). x.intent_id) (sym (ok-injective k3))
            ∙ eq-of-not_other d.intent_id intent.intent_id (reject-ok _ _ h3),
      )

  pub build_request-IsAsked :
      (ctx : ApprovalContext) (intent : AgentIntent) (decision : PolicyDecision)
      {asked : WalletRequest}
      → build_request rt tonalli bridge run request ctx intent decision ≡ ok asked
      → IsAsked ctx intent decision asked
  unfolding build_request validate_clock_value
  build_request-IsAsked ctx intent decision h =
      let (now, h1, k1) =
        >>=-eq-ok (require (safe_nonnegative run.requested_at) invalid_clock) _ h in
      let (u, h2, k2) =
        >>=-eq-ok
          (reject
            (leb ctx.expires_at now || leb intent.expires_at now || leb decision.expires_at now)
            invoice_expired_during_authorization)
          _ k1 in
      let early = reject-ok _ _ h2 in
      record {
        clock = (
          now,
          require-ok _ _ h1,
          ground (arith, early),
          ground (arith, early),
          ground (arith, early),
        );
        parsed = (_, require-ok _ _ k2, refl, refl, refl);
      }

  pub check_approval-IsAnswer :
      (asked : WalletRequest) (intent : AgentIntent) (decision : PolicyDecision) {a : HumanApproval}
      → check_approval rt tonalli bridge run request asked intent decision ≡ ok a
      → IsAnswer intent decision asked a
  unfolding check_approval
  check_approval-IsAnswer asked intent decision h =
      let (raw, h1, k1) =
        >>=-eq-ok (require (bridge.wallet_transport asked) wallet_transport_error) _ h in
      let (x, h2, k2) =
        >>=-eq-ok (require (tonalli.parse_human_approval raw) malformed_human_approval) _ k1 in
      let (u3, h3, k3) =
        >>=-eq-ok (reject (not (x.contract_version == codes "1.0")) malformed_human_approval) _
          k2 in
      let (u4, h4, k4) =
        >>=-eq-ok (reject (not (x.request_id == asked.request_id)) invariant_binding_mismatch) _
          k3 in
      let (u5, h5, k5) =
        >>=-eq-ok (reject (not (x.intent_id == intent.intent_id)) invariant_binding_mismatch) _
          k4 in
      let (u6, h6, k6) =
        >>=-eq-ok (reject (not (x.decision_id == decision.decision_id)) invariant_binding_mismatch)
          _ k5 in
      let (u7, h7, k7) =
        >>=-eq-ok
          (reject (leb intent.expires_at x.recorded_at || leb decision.expires_at x.recorded_at)
            human_approval_expired)
          _ k6 in
      let late = reject-ok _ _ h7 in
      subst (IsAnswer intent decision asked) (ok-injective k7) (record {
        raw = (raw, require-ok _ _ h1, require-ok _ _ h2);
        request_id = eq-of-not_other x.request_id asked.request_id (reject-ok _ _ h4);
        intent_id = eq-of-not_other x.intent_id intent.intent_id (reject-ok _ _ h5);
        decision_id = eq-of-not_other x.decision_id decision.decision_id (reject-ok _ _ h6);
        in_time = (ground (arith, late), ground (arith, late));
      })
