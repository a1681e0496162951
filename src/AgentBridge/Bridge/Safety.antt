-- ===== src/AgentBridge/Bridge/Safety.antt =====
-- An authorization is approved only by a person, for what the server asked, and once (bridge.ts).
use x402_xec.Common.{
  eq-of-not_other, err_not_ok, ap, subst, refl, err, false, sym, Result, ℕ, reject, require, ◌∙◌,
  inl, inr, ok, some, true, arith, not, codes, ◌==◌, text_eq, nat_eq, ◌≡◌, >>=-eq-ok, require-ok,
  reject-ok, ok-injective, Result-cases, Bool-cases,
}
use x402_xec.AgentBridge.Bridge.Approval.{
  IsIntent, IsAsked, IsAnswer, bind_intent-IsIntent, check_decision_lem,
}
use x402_xec.Core.Json.{obj, Fields, nonneg}
use x402_xec.Core.ApprovalContext.{RequiredOptions, Runtime, Validated, validate_payment_required}
use x402_xec.AgentBridge.Bridge.{
  insufficient_funds_limit, HumanApproval, kill_switch_active, WalletRequest, PolicyDecision,
  invalid_clock, BridgeError, safe_nonnegative, AgentIntent, Json, AuthorizationRequest, Run,
  Bridge, Tonalli, bind_intent, check_decision, ask_wallet, ask_policy, attempt, caught,
  reserve_and_attempt, admit, authorize_payment, approved_status, needs_human_approval,
}
use x402_xec.AgentBridge.Bridge.Intake.{validate_clock_value, ingest}
use x402_xec.AgentBridge.ReplayCache.{Cache}
use x402_xec.AgentBridge.Bridge.Ports.{AuthorizationResult}
use x402_xec.Core.ApprovalContext.Laws.{IsBound, validate_payment_required-IsBound}
use x402_xec.AgentBridge.Bridge.Wallet.{committed_in, reserved_in, ask_wallet-IsApproved}

module _ (rt : Runtime) (tonalli : Tonalli) (bridge : Bridge) (run : Run)
    (request : AuthorizationRequest) where
  -- What stands behind a result that is approved.
  pub record IsApproved (v : Validated) (r : AuthorizationResult) : Type 0 where
    pub context : r.approval_context ≡ v.approval_context
    pub intent : IsIntent rt tonalli bridge run request v.approval_context r.agent_intent
    pub policy :
        (raw : Json) × (bridge.policy_evaluator r.agent_intent ≡ some raw)
        × (tonalli.parse_policy_decision raw ≡ some r.policy_decision)
        × (r.policy_decision.intent_id ≡ r.agent_intent.intent_id)
    pub by_a_person : r.policy_decision.decision ≡ needs_human_approval
    pub approval :
        (asked : WalletRequest) × (a : HumanApproval) × (r.wallet_request ≡ some asked)
        × (r.human_approval ≡ some a)
        × IsAsked rt tonalli bridge run request v.approval_context r.agent_intent r.policy_decision
            asked
        × IsAnswer rt tonalli bridge run request r.agent_intent r.policy_decision asked a
        × (a.status ≡ approved_status)

  module _ (v : Validated) where
    abbrev pub PolicyApproved : Cache → AuthorizationResult → Cache → Type 0
    PolicyApproved c r after =
        IsApproved v r × (after ≡ committed_in v (run.during_wallet (run.during_policy c)))

    module _ (intent : AgentIntent) (c : Cache)
        (bound : IsIntent rt tonalli bridge run request v.approval_context intent) where
      ask_policy_undecided :
          (e : BridgeError)
          → check_decision rt tonalli bridge run request intent ≡ err e
          → (ask_policy rt tonalli bridge run request v intent c).1 ≡ err e
      unfolding ask_policy
      ask_policy_undecided e bad = rw (ask_policy, bad) refl

      -- An answer that is approved came from the wallet.
      ask_policy_asks :
          (decision : PolicyDecision) {r : AuthorizationResult}
          → check_decision rt tonalli bridge run request intent ≡ ok decision
          → (ask_policy rt tonalli bridge run request v intent c).1 ≡ ok r
          → r.is_approved ≡ true
          → (decision.decision ≡ needs_human_approval)
            × (ask_policy rt tonalli bridge run request v intent c
                ≡ ask_wallet rt tonalli bridge run request v intent decision (run.during_policy c))
      unfolding ask_policy
      ask_policy_asks decision decided h approved =
          elim (Bool-cases (decision.decision == codes "rejected")) [
            | inl rejected ↦ ground (arith, rw (ask_policy, decided, rejected) at h, approved)
            | inr going ↦ elim (Bool-cases (not (decision.decision == needs_human_approval))) [
              | inl unsupported ↦ cc (rw (ask_policy, decided, going, unsupported) at h)
              | inr person ↦ (
                eq-of-not_other decision.decision needs_human_approval person,
                rw (ask_policy, decided, going, person) refl,
              )
            ]
          ]

      decided-IsApproved :
          (decision : PolicyDecision) {r : AuthorizationResult}
          → check_decision rt tonalli bridge run request intent ≡ ok decision
          → (ask_policy rt tonalli bridge run request v intent c).1 ≡ ok r
          → r.is_approved ≡ true
          → PolicyApproved c r (ask_policy rt tonalli bridge run request v intent c).0
      decided-IsApproved decision {r} decided h approved =
          let (person, e) = ask_policy_asks decision decided h approved in
          let (asked, a, r_is, sent, answered, is, cache) =
            ask_wallet-IsApproved rt tonalli bridge run request v intent decision
              (run.during_policy c) {r = r}
              (ap (λ (o : Cache × Result BridgeError AuthorizationResult). o.1) (sym e) ∙ h)
              approved in
          (
            subst (IsApproved v) (sym r_is) (record {
              context = refl;
              intent = bound;
              policy = check_decision_lem rt tonalli bridge run request intent decided;
              by_a_person = person;
              approval = (asked, a, refl, refl, sent, answered, is);
            }),
            ap (λ (o : Cache × Result BridgeError AuthorizationResult). o.0) e ∙ cache,
          )

      ask_policy-IsApproved :
          {r : AuthorizationResult}
          → (ask_policy rt tonalli bridge run request v intent c).1 ≡ ok r
          → r.is_approved ≡ true
          → PolicyApproved c r (ask_policy rt tonalli bridge run request v intent c).0
      ask_policy-IsApproved h approved =
          elim (Result-cases (check_decision rt tonalli bridge run request intent)) [
            | inr (e, bad) ↦ elim (err_not_ok (ask_policy_undecided e bad) h) [ ]
            | inl (decision, decided) ↦ decided-IsApproved decision decided h approved
          ]

    attempt-IsApproved :
        (now : ℕ) (c : Cache) {r : AuthorizationResult}
        → (attempt rt tonalli bridge run request v now c).1 ≡ ok r
        → r.is_approved ≡ true
        → PolicyApproved c r (attempt rt tonalli bridge run request v now c).0
    unfolding attempt
    attempt-IsApproved now c h approved =
        elim (Result-cases (bind_intent rt tonalli bridge run request v.approval_context now)) [
          | inr (e, bad) ↦ elim (err_not_ok {e = e} (rw (attempt, bad) refl) h) [ ]
          | inl (intent, bound) ↦
              let (is, cache) =
                ask_policy-IsApproved intent c
                  (bind_intent-IsIntent rt tonalli bridge run request v.approval_context now bound)
                  (rw (attempt, bound) at h) approved in
              (is, rw (attempt, bound) cache)
        ]

    -- What is caught is no result.
    caught_lem :
        (o : Cache × Result BridgeError AuthorizationResult) {r : AuthorizationResult}
        → (caught rt tonalli bridge run request v o).1 ≡ ok r
        → (o.1 ≡ ok r) × ((caught rt tonalli bridge run request v o).0 ≡ o.0)
    unfolding caught
    caught_lem (c, ok x) h = (h, refl)
    caught_lem (c, err e) h = cc

    pub reserve_and_attempt-IsApproved :
        (now : ℕ) (c : Cache) {r : AuthorizationResult}
        → (reserve_and_attempt rt tonalli bridge run request v now c).1 ≡ ok r
        → r.is_approved ≡ true
        → IsApproved v r
          × ((reserved_in v now c).1 ≡ ok tt)
          × ((reserve_and_attempt rt tonalli bridge run request v now c).0
              ≡ committed_in v (run.during_wallet (run.during_policy (reserved_in v now c).0)))
    unfolding reserve_and_attempt
    reserve_and_attempt-IsApproved now c h approved = elim (Result-cases (reserved_in v now c).1) [
      | inr (e, bad) ↦
          elim (err_not_ok {e = BridgeError.cache_error e} (rw (reserve_and_attempt, bad) refl)
            h) [ ]
      | inl (u, granted) ↦
          let (tried, kept) =
            caught_lem (attempt rt tonalli bridge run request v now (reserved_in v now c).0)
              (rw (reserve_and_attempt, granted) at h) in
          let (is, cache) = attempt-IsApproved now (reserved_in v now c).0 tried approved in
          (is, granted, rw (reserve_and_attempt, granted) (kept ∙ cache))
    ]

  abbrev pub required_options : ℕ → RequiredOptions
  required_options now = record { now = nonneg now; expected_resource = request.expected_resource }

  ingest_lem :
      (now : ℕ) {v : Validated}
      → ingest rt request now ≡ ok v
      → validate_payment_required rt request.payment_required (required_options now) ≡ ok v
  unfolding ingest
  ingest_lem now h =
      elim (Result-cases
        (validate_payment_required rt request.payment_required (required_options now))) [
          | inl (v, valid) ↦ valid ∙ ap ok (ok-injective (rw (ingest, valid) at h))
          | inr (e, bad) ↦ cc (rw (ingest, bad) at h)
        ]

  -- The bridge is on, and the answer of status 402 is one that belongs together.
  pub record IsAdmitted (x : ℕ × Validated) : Type 0 where
    pub accepted :
        validate_payment_required rt request.payment_required (required_options x.0) ≡ ok x.1
    pub live : bridge.kill_switch ≡ false
    pub clock : safe_nonnegative run.now ≡ some x.0
    pub bound :
        (fs : Fields) × (request.payment_required ≡ obj fs)
        × IsBound rt fs (required_options x.0) x.1

  admit-IsAdmitted : {x : ℕ × Validated} → admit rt tonalli bridge run request ≡ ok x → IsAdmitted x
  unfolding admit validate_clock_value
  admit-IsAdmitted h =
      let (now, h1, k1) = >>=-eq-ok (require (safe_nonnegative run.now) invalid_clock) _ h in
      let (u2, h2, k2) = >>=-eq-ok (reject bridge.kill_switch kill_switch_active) _ k1 in
      let (u3, h3, k3) =
        >>=-eq-ok (reject (bridge.daily_limit_sats == 0) insufficient_funds_limit) _ k2 in
      let (v, h4, k4) = >>=-eq-ok (ingest rt request now) _ k3 in
      subst IsAdmitted (ok-injective k4) (record {
        accepted = ingest_lem now h4;
        live = reject-ok _ _ h2;
        clock = require-ok _ _ h1;
        bound =
            validate_payment_required-IsBound rt request.payment_required (required_options now)
              (ingest_lem now h4);
      })

  -- When authorizePayment answers that a payment is approved, the kill switch is off, the clock and
  -- the answer of status 402 passed validatePaymentRequired so that invoice, resource, window and
  -- context belong together, the intent has the amount, address and network of the context within
  -- the limit, the policy decided on that intent that a person is needed, the wallet was asked
  -- about the three before any of them expired, its answer approves that request, intent and
  -- decision in time, and the invoice with its nonce was reserved and is committed in the replay
  -- cache; other calls may have changed the cache at both awaits.
  pub authorize_payment-IsApproved :
      (c : Cache) {r : AuthorizationResult}
      → (authorize_payment rt tonalli bridge run request c).1 ≡ ok r
      → r.is_approved ≡ true
      → (now : ℕ) × (v : Validated) × IsAdmitted (now, v)
        × IsApproved v r
        × ((reserved_in v now c).1 ≡ ok tt)
        × ((authorize_payment rt tonalli bridge run request c).0
            ≡ committed_in v (run.during_wallet (run.during_policy (reserved_in v now c).0)))
  unfolding authorize_payment
  authorize_payment-IsApproved c h approved =
      elim (Result-cases (admit rt tonalli bridge run request)) [
        | inr (e, bad) ↦ elim (err_not_ok {e = e} (rw (authorize_payment, bad) refl) h) [ ]
        | inl ((now, v), admitted) ↦
            let (is, granted, cache) =
              reserve_and_attempt-IsApproved v now c (rw (authorize_payment, admitted) at h)
                approved in
            (now, v, admit-IsAdmitted admitted, is, granted, rw (authorize_payment, admitted) cache)
      ]
