-- ===== src/AgentBridge/Bridge/Intake.antt =====
-- bridge.ts: the constructor, the clock, and the answer of status 402 that is let in.
use x402_xec.Common.{
  ◌>>=◌, includes, ok, err, some, none, true, Bool, Option, Result, Text, ℕ, codes, require,
  text_eq, nat_eq, if◌then◌else◌, ◌||◌,
}
use x402_xec.AgentBridge.Bridge.Ports.{
  BridgeError, AuthorizationRequest, BridgeConfig, Bridge, malformed_payment_required,
  unsupported_version, unsupported_scheme, unsupported_network, resource_mismatch,
  invoice_hash_mismatch, invoice_not_yet_valid, invoice_expired, invalid_clock,
  policy_decision_invalid, wallet_transport_error, not_an_integer,
}
use x402_xec.Core.Json.{Number, nonneg, negative, inexact, not_finite, safe_nonnegative}
use x402_xec.Core.ApprovalContext.{Runtime, message, Validated, validate_payment_required}

-- `validateClockValue`
unfoldable pub validate_clock_value : Number → Result BridgeError ℕ
validate_clock_value now = require (safe_nonnegative now) invalid_clock

-- `BigInt(config.dailyLimitSats ?? 0)`. A negative limit is 0 here: both block all spending.
unfoldable pub daily_limit : Option Number → Result BridgeError ℕ
daily_limit none = ok 0
daily_limit (some (nonneg n)) = ok n
daily_limit (some (negative n)) = ok 0
daily_limit (some (inexact s)) = err not_an_integer
daily_limit (some not_finite) = err not_an_integer

abbrev is_on : Option Bool → Bool
is_on none = true
is_on (some b) = b

-- The constructor.
unfoldable pub create_bridge : BridgeConfig → Result BridgeError Bridge
create_bridge config = do
  limit ← daily_limit config.daily_limit_sats
  policy_evaluator ← require config.policy_evaluator policy_decision_invalid
  wallet_transport ← require config.wallet_transport wallet_transport_error
  ok (record {
    kill_switch = is_on config.kill_switch;
    daily_limit_sats = limit;
    policy_evaluator = policy_evaluator;
    wallet_transport = wallet_transport;
  })

-- The code for the message of an error of validatePaymentRequired.
unfoldable pub code_for : Text → BridgeError
code_for m =
    if includes m (codes "Invalid x402 payment required")
      || includes m (codes "Invalid x402 resource metadata")
    then malformed_payment_required
    else if includes m (codes "Unsupported x402 version")
    then unsupported_version
    else if includes m (codes "Unsupported x402 network")
    then unsupported_network
    else if includes m (codes "Unsupported x402 invoice scheme")
    then unsupported_scheme
    else if includes m (codes "Resource hash mismatch")
        || includes m (codes "Resource does not match expected resource")
    then resource_mismatch
    else if includes m (codes "Invoice hash mismatch")
    then invoice_hash_mismatch
    else if includes m (codes "x402 invoice is not yet valid")
    then invoice_not_yet_valid
    else if includes m (codes "x402 invoice has expired")
    then invoice_expired
    else malformed_payment_required

unfoldable pub ingest : Runtime → AuthorizationRequest → ℕ → Result BridgeError Validated
ingest rt request now =
    elim (validate_payment_required rt request.payment_required
      (record { now = nonneg now; expected_resource = request.expected_resource })) [
        | ok v ↦ ok v
        | err e ↦ err (code_for (message e))
      ]
