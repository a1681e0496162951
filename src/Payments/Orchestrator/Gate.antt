-- ===== src/Payments/Orchestrator/Gate.antt =====
-- What has to be so before live-payment-orchestrator.ts broadcasts.
use x402_xec.Payments.Orchestrator.{
  broadcast_prepared, decide, preparation_failed, initial_plan, clock_error, decision,
  ApprovalDecision, nonneg, is_exactly_true, approval_plan, policy_of, safe_nonnegative, as_policy,
  Thrown, evaluate, prepare_payment, execute, or_true, Number, Config, ApprovalAnswer, PaymentPlan,
  Prepared, Call, approve_payment, broadcast_tx, approval_fails, no_decision,
}
use x402_xec.Common.{
  ok-injective, subst, err, some, true, require, [], false, Result, Option, ◌∷◌, ℕ, Text, List,
  refl, ◌≡◌, text_eq, Bool-cases, Result-cases, inl, inr, ◌⊎◌, ok, >>=-eq-ok, require-ok,
}
use x402_xec.Payments.Policy.Laws.{IsAllowed, evaluate_payment_policy-IsAllowed}
use x402_xec.Payments.Policy.{SatoshiLimit}
use x402_xec.Core.Schemas.{Invoice}

-- The texts that are broadcast by the calls.
unfoldable pub broadcasts : List Call → List Text
broadcasts [] = []
broadcasts (approve_payment plan ∷ calls) = broadcasts calls
broadcasts (broadcast_tx raw ∷ calls) = raw ∷ broadcasts calls

module _ (prepare : Invoice → SatoshiLimit → ℕ → Option Prepared)
    (approve : PaymentPlan → ApprovalAnswer) (broadcast : Text → Option Text) (c : Config)
    (invoice : Invoice) (clock : Number) where
  -- The payment that is broadcast: it is the prepared one, its plan with the fee is within the
  -- policy, and the approval provider approved that plan.
  pub record IsSanctioned (raw : Text) : Type 0 where
    pub prepared : Prepared
    pub now : ℕ
    pub live : or_true c.dry_run ≡ false
    pub same_transaction : raw ≡ prepared.raw_tx
    pub at_clock : safe_nonnegative clock ≡ some now
    pub from_preparer : prepare invoice (policy_of c invoice).max_payment_sats now ≡ some prepared
    pub allowed :
        IsAllowed
          (policy_of c invoice)
          (approval_plan (policy_of c invoice) invoice prepared)
          (record {
            dry_run = false;
            allow_broadcast = is_exactly_true c.allow_broadcast;
            now = nonneg now;
          })
    pub approved :
        (d : ApprovalDecision) × (approve (approval_plan (policy_of c invoice) invoice prepared)
          ≡ decision d)
        × (d.approved ≡ true)

  as_policy-ok : (r : Result Thrown (Unit {0})) {u : Unit {0}} → as_policy r ≡ ok u → r ≡ ok u
  as_policy-ok (ok a) h = refl
  as_policy-ok (err e) h = cc

  -- What a preparation that succeeds has shown.
  pub record IsPrepared (p : Prepared) : Type 0 where
    pub time : ℕ
    pub read : safe_nonnegative clock ≡ some time
    pub made : prepare invoice (policy_of c invoice).max_payment_sats time ≡ some p
    pub within :
        IsAllowed (policy_of c invoice) (approval_plan (policy_of c invoice) invoice p) (record {
          dry_run = or_true c.dry_run;
          allow_broadcast = is_exactly_true c.allow_broadcast;
          now = nonneg time;
        })

  prepared_lem :
      (p : Prepared)
      → prepare_payment prepare approve broadcast c invoice clock ≡ ok p
      → IsPrepared p
  unfolding prepare_payment evaluate
  prepared_lem p h =
      let policy = policy_of c invoice in
      let (now, e1, k1) = >>=-eq-ok (require (safe_nonnegative clock) clock_error) _ h in
      let (u, e2, k2) =
        >>=-eq-ok (evaluate prepare approve broadcast c invoice (initial_plan policy invoice) now) _
          k1 in
      let (x, e3, k3) =
        >>=-eq-ok (require (prepare invoice policy.max_payment_sats now) preparation_failed) _ k2 in
      let (v, e4, k4) =
        >>=-eq-ok
          (evaluate prepare approve broadcast c invoice (approval_plan policy invoice x) now) _
          k3 in
      subst IsPrepared (ok-injective k4) (record {
        time = now;
        read = require-ok _ _ e1;
        made = require-ok _ _ e3;
        within =
            evaluate_payment_policy-IsAllowed policy (approval_plan policy invoice x) _
              (as_policy-ok _ e4);
      })

  -- Only an approval leads to a broadcast.
  decide_lem :
      (p : Prepared) (answer : ApprovalAnswer)
      → (broadcasts (decide prepare approve broadcast c p answer).0 ≡ [])
        ⊎ ((d : ApprovalDecision) × (answer ≡ decision d)
            × (d.approved ≡ true)
            × (broadcasts (decide prepare approve broadcast c p answer).0 ≡ p.raw_tx ∷ []))
  unfolding decide broadcast_prepared broadcasts
  decide_lem p approval_fails = inl refl
  decide_lem p no_decision = inl refl
  decide_lem p (decision d) = elim (Bool-cases d.approved) [
    | inl approves ↦ inr (d, refl, approves, rw approves refl)
    | inr refuses ↦ inl (rw refuses refl)
  ]

  -- LivePaymentOrchestrator.execute broadcasts nothing, or one transaction: that of a payment which
  -- the preparer made outside the dry run, whose plan with the fee is within the policy at the
  -- clock, and which the approval provider approved under that plan.
  pub execute-IsSanctioned :
      (broadcasts (execute prepare approve broadcast c invoice clock).0 ≡ [])
      ⊎ ((raw : Text) × (broadcasts (execute prepare approve broadcast c invoice clock).0
            ≡ raw ∷ [])
          × IsSanctioned raw)
  unfolding execute broadcasts
  execute-IsSanctioned =
      elim (Result-cases (prepare_payment prepare approve broadcast c invoice clock)) [
        | inr (failure, failed) ↦ inl (rw (execute, failed) refl)
        | inl (p, prepared) ↦ elim (Bool-cases (or_true c.dry_run)) [
          | inl dry ↦ inl (rw (execute, prepared, dry) refl)
          | inr live ↦
              let plan = approval_plan (policy_of c invoice) invoice p in
              let is = prepared_lem p prepared in
              elim (decide_lem p (approve plan)) [
                | inl silent ↦ inl (rw (execute, prepared, live) silent)
                | inr (d, answered, approves, sent) ↦ inr (
                  p.raw_tx,
                  rw (execute, prepared, live) sent,
                  record {
                    prepared = p;
                    now = is.time;
                    live = live;
                    same_transaction = refl;
                    at_clock = is.read;
                    from_preparer = is.made;
                    allowed =
                        subst
                          (λ dry. IsAllowed (policy_of c invoice) plan (record {
                            dry_run = dry;
                            allow_broadcast = is_exactly_true c.allow_broadcast;
                            now = nonneg is.time;
                          }))
                          live is.within;
                    approved = (d, answered, approves);
                  },
                )
              ]
        ]
      ]
