-- ===== src/AgentBridge/Bridge/Ports.antt =====
-- The documents and ports of the bridge (types.ts, errors.ts). The schemas of tonalli-core, the
-- policy evaluator and the wallet transport are not part of the program: they are functions here.
use x402_xec.Common.{Bool, Option, Text, ℕ}
use x402_xec.Core.Json.{Json, Number}
use x402_xec.Core.Schemas.{Invoice}
use x402_xec.Core.Resource.{ResourceRequest}
use x402_xec.Core.ApprovalContext.Schema.{ApprovalContext}
use x402_xec.AgentBridge.ReplayCache.{Cache, ErrorCode}

-- The codes of `X402AgentBridgeError` that the bridge throws.
pub data BridgeError : Type 0 where
  malformed_payment_required unsupported_version unsupported_scheme : BridgeError
  unsupported_network resource_mismatch invoice_hash_mismatch : BridgeError
  invoice_not_yet_valid invoice_expired invoice_expired_during_authorization : BridgeError
  invalid_clock insufficient_funds_limit kill_switch_active : BridgeError
  invariant_binding_mismatch policy_decision_invalid wallet_transport_error : BridgeError
  malformed_human_approval human_approval_expired : BridgeError
  cache_error : ErrorCode → BridgeError
  -- the RangeError of `BigInt`
  not_an_integer : BridgeError

pub record AgentIntent : Type 0 where
  pub intent_id : Text
  pub nonce : Text
  pub agent_id : Text
  pub agent_role : Text
  pub network : Text
  pub from_address : Text
  pub to_address : Text
  pub amount_sats : Text
  pub reason : Text
  pub memo : Option Text
  pub created_at : ℕ
  pub expires_at : ℕ

pub record PolicyDecision : Type 0 where
  pub decision_id : Text
  pub intent_id : Text
  pub decision : Text
  pub expires_at : ℕ

pub record WalletRequest : Type 0 where
  pub request_id : Text
  pub intent : AgentIntent
  pub policy_decision : PolicyDecision
  pub x402 : ApprovalContext
  pub requested_at : ℕ
  pub expires_at : ℕ

pub record HumanApproval : Type 0 where
  pub contract_version : Text
  pub request_id : Text
  pub intent_id : Text
  pub decision_id : Text
  pub status : Text
  pub approver : Option Text
  pub recorded_at : ℕ

-- The schemas of tonalli-core: what they make of a document, or `none` where they throw.
pub record Tonalli : Type 0 where
  pub parse_agent_intent : AgentIntent → Option AgentIntent
  pub parse_policy_decision : Json → Option PolicyDecision
  pub parse_wallet_request : WalletRequest → Option WalletRequest
  pub parse_human_approval : Json → Option HumanApproval

-- A port answers with any value, or rejects.
abbrev pub PolicyEvaluator : Type 0
PolicyEvaluator = AgentIntent → Option Json

abbrev pub WalletTransport : Type 0
WalletTransport = WalletRequest → Option Json

pub record AgentConfiguration : Type 0 where
  pub agent_id : Text
  pub agent_role : Text
  pub from_address : Text
  pub reason : Option Text
  pub memo : Option Text
  pub intent_ttl_seconds : Option ℕ

pub record AuthorizationRequest : Type 0 where
  pub payment_required : Json
  pub expected_resource : Option ResourceRequest
  pub agent_config : AgentConfiguration

pub record BridgeConfig : Type 0 where
  pub kill_switch : Option Bool
  pub daily_limit_sats : Option Number
  pub policy_evaluator : Option PolicyEvaluator
  pub wallet_transport : Option WalletTransport

pub record Bridge : Type 0 where
  pub kill_switch : Bool
  pub daily_limit_sats : ℕ
  pub policy_evaluator : PolicyEvaluator
  pub wallet_transport : WalletTransport

-- What one call draws from outside: the clock's two readings, random texts, and what other calls
-- do to the shared cache while this one waits for the policy and for the wallet.
pub record Run : Type 0 where
  pub now : Number
  pub requested_at : Number
  pub intent_uuid : Text
  pub intent_nonce : Text
  pub request_uuid : Text
  pub during_policy : Cache → Cache
  pub during_wallet : Cache → Cache

pub record AuthorizationResult : Type 0 where
  pub is_approved : Bool
  pub human_approval : Option HumanApproval
  pub wallet_request : Option WalletRequest
  pub agent_intent : AgentIntent
  pub policy_decision : PolicyDecision
  pub approval_context : ApprovalContext
  pub invoice : Invoice
  pub resource : ResourceRequest
