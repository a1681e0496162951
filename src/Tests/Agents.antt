-- ===== src/Tests/Agents.antt =====
-- Runs of the replay cache, the payment policy and the orchestrator.
use x402_xec.Payments.Orchestrator.{
  broadcast_prepared, decide, evaluate, prepare_payment, decision, live_provider, approval_plan,
  ApprovalAnswer, Config, execute, Prepared,
}
use x402_xec.Payments.Policy.{
  check_expiry, read_skew, check_fee, is_listed, read_canonical_sats, read_limit, SatoshiLimit,
  evaluate_payment_policy, PaymentPolicy, PaymentPlan, PaymentPolicyContext,
}
use x402_xec.Core.Json.{safe_nonnegative, nonneg}
use x402_xec.Common.Decimal.{of_decimal, is_positive_decimal}
use x402_xec.Common.{
  ◌↔◌, text_beq, ℕ, [], ◌∷◌, Option, Text, refl, ◌≡◌, text_eq, arith, true, false, none, some, ok,
  err, inl, inr, ◌⊎◌, codes,
}
use x402_xec.Common.Dict.{retain, get}
use x402_xec.AgentBridge.ReplayCache.{
  prune, check_reservation, Cache, empty_cache, reserve, commit, concurrent_conflict,
}
use x402_xec.Payments.Orchestrator.Gate.{execute-IsSanctioned, IsSanctioned, broadcasts}
use x402_xec.Tests.Fixtures.{invoice_q, address_q, txid_1}
use x402_xec.Payments.Policy.Laws.{evaluate_payment_policy-IsAllowed_iff, IsAllowed}
use x402_xec.Core.Schemas.{Invoice}
use x402_xec.AgentBridge.ReplayCache.History.{Calls, authorized_once, is_granted}
use x402_xec.AgentBridge.ReplayCache.Exclusion.{Others, reserved_once}

abbrev h : Text
h = codes "h"

abbrev n : Text
n = codes "n"

abbrev reserved : Cache
reserved = (reserve h n 160 100 empty_cache).0

abbrev authorized : Cache
authorized = commit h n 160 reserved

abbrev tried : Cache
tried = (reserve (codes "i") (codes "m") 150 120 authorized).0

authorized_once_example : is_granted (reserve h (codes "o") 300 150 tried).1 ≡ false
authorized_once_example =
    authorized_once h n 160 reserved tried
      (Calls.reserves (codes "i") (codes "m") 150 120 (omega arith) Calls.no_call) h (codes "o") 300
      150 (omega arith) (inl refl)

reserved_granted : is_granted (reserve h n 160 100 empty_cache).1 ≡ true
unfolding reserve check_reservation get prune retain
reserved_granted = refl

reserved_once_example : (reserve (codes "i") n 300 500 reserved).1 ≡ err concurrent_conflict
reserved_once_example =
    reserved_once h n 160 100 empty_cache reserved reserved_granted Others.no_other (codes "i") n
      300 500 (inr refl)

abbrev policy : PaymentPolicy
policy = record {
  max_payment_sats = SatoshiLimit.string (codes "5000");
  allowed_networks = codes "xec:mainnet" ∷ [];
  allowed_schemes = codes "exact" ∷ [];
  allowed_pay_to_addresses = some (address_q ∷ []);
  require_finality = none;
  require_manual_approval = true;
  expires_at_skew_seconds = some (nonneg 10);
  max_fee_sats = some (SatoshiLimit.bigint 300);
}

abbrev live : Config
live = record {
  broadcast_provider = some live_provider;
  payment_policy = some policy;
  dry_run = some false;
  allow_broadcast = some true;
  max_payment_sats = none;
}

abbrev funded : Prepared
funded = record {
  raw_tx = codes "00";
  funding_outpoint = record { txid = txid_1; out_idx = 0 };
  funding_txid = txid_1;
  fee_sats = codes "250";
  invoice = invoice_q;
}

abbrev preparing : Invoice → SatoshiLimit → ℕ → Option Prepared
preparing i limit now = some funded

abbrev approving : PaymentPlan → ApprovalAnswer
approving plan = decision (record { approved = true; reason = none })

abbrev sending : Text → Option Text
sending raw = some txid_1

abbrev context : PaymentPolicyContext
context = record { dry_run = false; allow_broadcast = true; now = nonneg 120 }

passes : evaluate_payment_policy policy (approval_plan policy invoice_q funded) context ≡ ok tt
unfolding evaluate_payment_policy read_limit read_canonical_sats text_beq is_positive_decimal
    of_decimal is_listed check_fee read_skew safe_nonnegative check_expiry
passes = refl

evaluate_payment_policy-IsAllowed_iff_example :
    (evaluate_payment_policy policy (approval_plan policy invoice_q funded) context ≡ ok tt)
    ↔ IsAllowed policy (approval_plan policy invoice_q funded) context
evaluate_payment_policy-IsAllowed_iff_example =
    evaluate_payment_policy-IsAllowed_iff policy (approval_plan policy invoice_q funded) context

execute-IsSanctioned_example :
    (broadcasts (execute preparing approving sending live invoice_q (nonneg 120)).0 ≡ [])
    ⊎ ((raw : Text) × (broadcasts
            (execute preparing approving sending live invoice_q (nonneg 120)).0
          ≡ raw ∷ [])
        × IsSanctioned preparing approving sending live invoice_q (nonneg 120) raw)
execute-IsSanctioned_example =
    execute-IsSanctioned preparing approving sending live invoice_q (nonneg 120)

-- The run does broadcast.
sent_once :
    broadcasts (execute preparing approving sending live invoice_q (nonneg 120)).0 ≡ codes "00" ∷ []
unfolding execute broadcasts prepare_payment safe_nonnegative evaluate evaluate_payment_policy
    read_limit read_canonical_sats text_beq is_positive_decimal of_decimal is_listed check_fee
    read_skew check_expiry decide broadcast_prepared
sent_once = refl
