-- ===== src/Payments/Orchestrator.antt =====
-- live-payment-orchestrator.ts: a payment is planned, prepared, approved and broadcast. The
-- preparer, the approval provider and the broadcaster are parameters; what `execute` does to the
-- outside is the list of the calls that it makes of the last two.
pub mod Gate
use x402_xec.Common.{
  ℕ, Bool, true, false, not, Option, none, some, List, [], ◌∷◌, Text, Result, ok, err, ◌>>=◌, ◌>>◌,
  reject, require, if◌then◌else◌,
}
use x402_xec.Core.Json.{Number, nonneg, safe_nonnegative}
use x402_xec.Core.Schemas.{Invoice}
use x402_xec.Core.Chronik.{FundingOutpoint}
use x402_xec.Payments.Policy.{
  SatoshiLimit, PaymentPolicy, PaymentPlan, Thrown, evaluate_payment_policy,
}

-- A broadcaster that is given is the disabled one, or another.
pub data BroadcastProvider : Type 0 where
  disabled_provider live_provider : BroadcastProvider

pub record Config : Type 0 where
  pub broadcast_provider : Option BroadcastProvider
  pub payment_policy : Option PaymentPolicy
  pub dry_run : Option Bool
  pub allow_broadcast : Option Bool
  pub max_payment_sats : Option SatoshiLimit

pub data ConfigError : Type 0 where
  needs_allow_broadcast needs_broadcast_provider needs_payment_policy : ConfigError

abbrev pub or_true : Option Bool → Bool
or_true none = true
or_true (some b) = b

abbrev pub is_exactly_true : Option Bool → Bool
is_exactly_true (some true) = true
is_exactly_true _ = false

abbrev pub is_live : Option BroadcastProvider → Bool
is_live (some live_provider) = true
is_live _ = false

abbrev pub is_missing : Option PaymentPolicy → Bool
is_missing none = true
is_missing (some p) = false

-- The constructor: what it refuses of a configuration that is to pay.
unfoldable pub check_config : Config → Result ConfigError (Unit {0})
check_config c = if or_true c.dry_run then ok tt else (do
  reject (not (is_exactly_true c.allow_broadcast)) needs_allow_broadcast
  reject (not (is_live c.broadcast_provider)) needs_broadcast_provider
  reject (is_missing c.payment_policy) needs_payment_policy)

-- What the preparer returns, as far as it is read.
pub record Prepared : Type 0 where
  pub raw_tx : Text
  pub funding_outpoint : FundingOutpoint
  pub funding_txid : Text
  pub fee_sats : Text
  pub invoice : Invoice

pub record ApprovalDecision : Type 0 where
  pub approved : Bool
  pub reason : Option Text

-- What a provider answers: a decision, another value, or a rejected promise.
pub data ApprovalAnswer : Type 0 where
  decision : ApprovalDecision → ApprovalAnswer
  no_decision approval_fails : ApprovalAnswer

-- The calls of the outside.
pub data Call : Type 0 where
  approve_payment : PaymentPlan → Call
  broadcast_tx : Text → Call

pub data Failure : Type 0 where
  clock_error preparation_failed approval_failed not_a_decision broadcast_failed : Failure
  policy_failed : Thrown → Failure
  not_approved : Option Text → Failure

pub data LivePaymentResult : Type 0 where
  dry_run_result : Prepared → Bool → LivePaymentResult
  broadcasted_result : Prepared → ApprovalDecision → Text → LivePaymentResult

abbrev or_amount : Option SatoshiLimit → Invoice → SatoshiLimit
or_amount none invoice = SatoshiLimit.string invoice.amount_sats
or_amount (some limit) invoice = limit

abbrev pub dry_run_policy : Invoice → Option SatoshiLimit → PaymentPolicy
dry_run_policy invoice max_payment_sats = record {
  max_payment_sats = or_amount max_payment_sats invoice;
  allowed_networks = invoice.network ∷ [];
  allowed_schemes = invoice.scheme ∷ [];
  allowed_pay_to_addresses = none;
  require_finality = none;
  require_manual_approval = true;
  expires_at_skew_seconds = none;
  max_fee_sats = none;
}

abbrev pub policy_of : Config → Invoice → PaymentPolicy
policy_of c invoice = elim c.payment_policy [
  | some policy ↦ policy
  | none ↦ dry_run_policy invoice c.max_payment_sats
]

abbrev pub initial_plan : PaymentPolicy → Invoice → PaymentPlan
initial_plan policy invoice = record {
  network = invoice.network;
  scheme = invoice.scheme;
  amount_sats = invoice.amount_sats;
  pay_to = invoice.pay_to;
  expires_at = nonneg invoice.expires_at;
  fee_sats = none;
  transaction_txid = none;
  requires_manual_approval = policy.require_manual_approval;
  finality = none;
}

abbrev pub approval_plan : PaymentPolicy → Invoice → Prepared → PaymentPlan
approval_plan policy invoice prepared = record (initial_plan policy invoice) {
  fee_sats = some prepared.fee_sats;
  transaction_txid = some prepared.funding_txid;
}

abbrev pub as_policy : {A : Type 0} → Result Thrown A → Result Failure A
as_policy (ok a) = ok a
as_policy (err e) = err (policy_failed e)

-- `preparer.prepare(request)` for the limit and the clock, the answer of the approval provider,
-- and that of the broadcaster; `none` is a rejected promise.
module _ (prepare : Invoice → SatoshiLimit → ℕ → Option Prepared)
    (approve : PaymentPlan → ApprovalAnswer) (broadcast : Text → Option Text) (c : Config) where
  unfoldable pub evaluate : Invoice → PaymentPlan → ℕ → Result Failure (Unit {0})
  evaluate invoice plan now = as_policy (
      evaluate_payment_policy (policy_of c invoice) plan (record {
        dry_run = or_true c.dry_run;
        allow_broadcast = is_exactly_true c.allow_broadcast;
        now = nonneg now;
      }))

  -- Up to the second evaluation of the policy: the payment as it is to be approved.
  unfoldable pub prepare_payment : Invoice → Number → Result Failure Prepared
  prepare_payment invoice clock = do
    now ← require (safe_nonnegative clock) clock_error
    let policy = policy_of c invoice
    evaluate invoice (initial_plan policy invoice) now
    prepared ← require (prepare invoice policy.max_payment_sats now) preparation_failed
    evaluate invoice (approval_plan policy invoice prepared) now
    ok prepared

  unfoldable pub broadcast_prepared :
      Prepared → ApprovalDecision → List Call × Result Failure LivePaymentResult
  broadcast_prepared prepared d = (
    broadcast_tx prepared.raw_tx ∷ [],
    elim (broadcast prepared.raw_tx) [
      | none ↦ err broadcast_failed
      | some result ↦ ok (broadcasted_result prepared d result)
    ],
  )

  unfoldable pub decide : Prepared → ApprovalAnswer → List Call × Result Failure LivePaymentResult
  decide prepared approval_fails = ([], err approval_failed)
  decide prepared no_decision = ([], err not_a_decision)
  decide prepared (decision d) =
      if d.approved then broadcast_prepared prepared d else ([], err (not_approved d.reason))

  -- `execute`, with the calls in their order.
  unfoldable pub execute : Invoice → Number → List Call × Result Failure LivePaymentResult
  execute invoice clock = elim (prepare_payment invoice clock) [
    | err failure ↦ ([], err failure)
    | ok prepared ↦
        let policy = policy_of c invoice in
        if or_true c.dry_run
        then ([], ok (dry_run_result prepared policy.require_manual_approval))
        else let plan = approval_plan policy invoice prepared in
          let (calls, result) = decide prepared (approve plan) in
          (approve_payment plan ∷ calls, result)
  ]
