-- ===== src/Tests/Bridges.antt =====
-- Runs of the approval context and of the authorization bridge.
use x402_xec.Common.{
  [], refl, inl, ok, err, some, none, true, false, arith, ℕ, codes, ◌≡◌, text_beq, starts_with,
  includes,
}
use x402_xec.Common.Decimal.{is_positive_decimal, of_decimal, value_onto}
use x402_xec.Common.Dict.{get, retain}
use x402_xec.Core.Json.{
  Json, null, num, str, obj, end, field, nonneg, Fields, only_keys, field?, safe_nonnegative,
}
use x402_xec.Core.Schemas.{invoice_schema, is_address}
use x402_xec.Core.Canonical.{canonicalize}
use x402_xec.Core.Resource.{
  validate_path, normalize_method, canonical_query, canonical_hash, compute_resource_hash,
}
use x402_xec.Core.Invoice.{invoice_json, compute_invoice_hash}
use x402_xec.Core.ApprovalContext.{
  Runtime, RequiredOptions, Validated, validate_payment_required, validate_fields, validate_invoice,
  validate_epoch_clock, metadata_fields, metadata_query, parse_resource_metadata, check_expected,
  create_x402_approval_context, hash_of,
}
use x402_xec.Core.ApprovalContext.Schema.{approval_context_schema, context_of}
use x402_xec.Core.ApprovalContext.Laws.{IsBound, validate_payment_required-IsBound}
use x402_xec.AgentBridge.ReplayCache.{
  Cache, empty_cache, ErrorCode, is_in_flight, reserve, check_reservation, prune,
}
use x402_xec.AgentBridge.ReplayCache.History.{Calls}
use x402_xec.AgentBridge.Bridge.Ports.{
  Tonalli, Bridge, Run, AuthorizationRequest, AuthorizationResult, AgentIntent, PolicyDecision,
  WalletRequest, HumanApproval, BridgeError,
}
use x402_xec.AgentBridge.Bridge.{
  authorize_payment, admit, needs_human_approval, approved_status, drafted_intent, answer,
  bind_intent, check_decision, build_request, check_approval, conclude, ask_wallet, ask_policy,
  attempt, caught, reserve_and_attempt,
}
use x402_xec.AgentBridge.Bridge.Intake.{ingest, validate_clock_value}
use x402_xec.AgentBridge.Bridge.Safety.{IsAdmitted, IsApproved, authorize_payment-IsApproved}
use x402_xec.AgentBridge.Bridge.Wallet.{committed_in, reserved_in}
use x402_xec.AgentBridge.Bridge.Release.{authorize_payment_releases}
use x402_xec.AgentBridge.Bridge.Once.{authorize_payment_once}
use x402_xec.Tests.Fixtures.{invoice_q, root_request, repeat, flat_platform, hash_a, address_q}

abbrev runtime : Runtime
runtime = record {
  platform = flat_platform;
  read_query = λ q. none;
  string_of = λ v. [];
  first_issue = λ v. [];
}

abbrev root : Json
root = obj (
    field (codes "serverOrigin") (str (codes "https://shop"))
      (field (codes "method") (str (codes "get")) (field (codes "path") (str (codes "/")) end)))

abbrev answer_402 : Json
answer_402 = obj (
    field (codes "x402Version") (num (nonneg 1)) (
      field (codes "invoiceId") (str hash_a)
        (field (codes "invoice") (invoice_json invoice_q) (field (codes "resource") root end))))

abbrev options : RequiredOptions
options = record { now = nonneg 120; expected_resource = none }

abbrev valid : Validated
valid = record {
  invoice = invoice_q;
  resource = root_request;
  approval_context = context_of invoice_q hash_a hash_a;
}

validates : validate_payment_required runtime answer_402 options ≡ ok valid
unfolding validate_payment_required validate_fields validate_invoice validate_epoch_clock
    metadata_fields metadata_query parse_resource_metadata check_expected
    create_x402_approval_context hash_of approval_context_schema invoice_json invoice_schema
    only_keys field? text_beq safe_nonnegative is_positive_decimal is_address compute_invoice_hash
    canonical_hash canonicalize compute_resource_hash normalize_method validate_path canonical_query
    starts_with includes
validates = refl

validate_payment_required-IsBound_example :
    (fs : Fields) × (answer_402 ≡ obj fs) × IsBound runtime fs options valid
validate_payment_required-IsBound_example =
    validate_payment_required-IsBound runtime answer_402 options validates

abbrev request : AuthorizationRequest
request = record {
  payment_required = answer_402;
  expected_resource = none;
  agent_config = record {
    agent_id = codes "agent";
    agent_role = codes "buyer";
    from_address = address_q;
    reason = none;
    memo = none;
    intent_ttl_seconds = none;
  };
}

-- The wallet's first answer is prompt; other calls leave the cache alone.
abbrev run : Run
run = record {
  now = nonneg 120;
  requested_at = nonneg 125;
  intent_uuid = codes "i";
  intent_nonce = codes "x";
  request_uuid = codes "r";
  during_policy = λ c. c;
  during_wallet = λ c. c;
}

abbrev decision : PolicyDecision
decision = record {
  decision_id = codes "d";
  intent_id = codes "intent:i";
  decision = needs_human_approval;
  expires_at = 150;
}

abbrev approval : HumanApproval
approval = record {
  contract_version = codes "1.0";
  request_id = codes "wallet-request:r";
  intent_id = codes "intent:i";
  decision_id = codes "d";
  status = approved_status;
  approver = some (codes "ana");
  recorded_at = 130;
}

abbrev tonalli : Tonalli
tonalli = record {
  parse_agent_intent = λ intent. some intent;
  parse_policy_decision = λ raw. some decision;
  parse_wallet_request = λ asked. some asked;
  parse_human_approval = λ raw. some approval;
}

abbrev bridge : Bridge
bridge = record {
  kill_switch = false;
  daily_limit_sats = 5000;
  policy_evaluator = λ intent. some null;
  wallet_transport = λ asked. some null;
}

abbrev intent : AgentIntent
intent = drafted_intent run request valid.approval_context 120

abbrev asked : WalletRequest
asked = record {
  request_id = codes "wallet-request:r";
  intent = intent;
  policy_decision = decision;
  x402 = valid.approval_context;
  requested_at = 125;
  expires_at = 150;
}

abbrev approved : AuthorizationResult
approved =
    answer runtime tonalli bridge run request valid true (some approval) (some asked) intent
      decision

admitted : admit runtime tonalli bridge run request ≡ ok (120, valid)
unfolding admit ingest validate_clock_value validate_payment_required validate_fields
    validate_invoice validate_epoch_clock metadata_fields metadata_query parse_resource_metadata
    check_expected create_x402_approval_context hash_of approval_context_schema invoice_json
    invoice_schema only_keys field? text_beq safe_nonnegative is_positive_decimal is_address
    compute_invoice_hash canonical_hash canonicalize compute_resource_hash normalize_method
    validate_path canonical_query starts_with includes
admitted = refl

granted : (reserve hash_a (repeat 22 b'n') 160 120 empty_cache).1 ≡ ok tt
unfolding reserve check_reservation get prune retain
granted = refl

approves : (authorize_payment runtime tonalli bridge run request empty_cache).1 ≡ ok approved
unfolding authorize_payment reserve_and_attempt attempt caught ask_policy ask_wallet conclude
    bind_intent check_decision build_request check_approval validate_clock_value safe_nonnegative
    text_beq of_decimal value_onto
approves = rw (authorize_payment, admitted, reserve_and_attempt, granted) refl

abbrev after : Cache
after = (authorize_payment runtime tonalli bridge run request empty_cache).0

authorize_payment-IsApproved_example :
    (now : ℕ) × (v : Validated) × IsAdmitted runtime tonalli bridge run request (now, v)
    × IsApproved runtime tonalli bridge run request v approved
    × ((reserved_in v now empty_cache).1 ≡ ok tt)
    × (after ≡ committed_in v (reserved_in v now empty_cache).0)
authorize_payment-IsApproved_example =
    authorize_payment-IsApproved runtime tonalli bridge run request empty_cache approves refl

authorize_payment_releases_example : is_in_flight hash_a (repeat 22 b'n') after ≡ false
authorize_payment_releases_example =
    authorize_payment_releases runtime tonalli bridge run request valid 120 empty_cache admitted
      granted

authorize_payment_once_example :
    (e : ErrorCode) × ((authorize_payment runtime tonalli bridge run request after).1
      ≡ err (BridgeError.cache_error e))
authorize_payment_once_example =
    authorize_payment_once runtime tonalli bridge run run request request empty_cache after 120 120
      valid valid admitted approves refl Calls.no_call admitted (omega arith) (inl refl)
