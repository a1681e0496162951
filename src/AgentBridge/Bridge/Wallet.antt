-- ===== src/AgentBridge/Bridge/Wallet.antt =====
-- What the wallet's part of authorizePayment (bridge.ts) has shown when it approves.
use x402_xec.Common.{
  err_not_ok, ap, refl, err, sym, Result, ℕ, ◌∙◌, inl, inr, ok, some, true, arith, codes, ◌==◌,
  text_eq, nat_eq, ◌≡◌, ok-injective, Result-cases, Bool-cases, text_beq_iff,
}
use x402_xec.AgentBridge.Bridge.Approval.{
  IsAsked, IsAnswer, build_request-IsAsked, check_approval-IsAnswer,
}
use x402_xec.Core.ApprovalContext.{Runtime, Validated}
use x402_xec.AgentBridge.Bridge.{
  is_missing, HumanApproval, WalletRequest, PolicyDecision, BridgeError, AgentIntent,
  AuthorizationRequest, Run, Bridge, Tonalli, build_request, check_approval, conclude, ask_wallet,
  approved_status, answer,
}
use x402_xec.AgentBridge.ReplayCache.{ErrorCode, Cache, reserve, commit}
use x402_xec.AgentBridge.Bridge.Ports.{AuthorizationResult}

-- The cache in which the invoice and the nonce are committed.
abbrev pub committed_in : Validated → Cache → Cache
committed_in v c =
    commit v.approval_context.invoice_hash v.approval_context.nonce v.approval_context.expires_at c

-- The reservation of the invoice and the nonce.
abbrev pub reserved_in : Validated → ℕ → Cache → Cache × Result ErrorCode (Unit {0})
reserved_in v now c =
    reserve v.approval_context.invoice_hash v.approval_context.nonce v.approval_context.expires_at
      now c

module _ (rt : Runtime) (tonalli : Tonalli) (bridge : Bridge) (run : Run)
    (request : AuthorizationRequest) where
  module _ (v : Validated) where
    conclude_lem :
        (intent : AgentIntent) (decision : PolicyDecision) (asked : WalletRequest)
        (a : HumanApproval) (c : Cache) {r : AuthorizationResult}
        → (conclude rt tonalli bridge run request v intent decision asked a c).1 ≡ ok r
        → r.is_approved ≡ true
        → (a.status ≡ approved_status)
          × (r ≡ answer rt tonalli bridge run request v true (some a) (some asked) intent decision)
          × ((conclude rt tonalli bridge run request v intent decision asked a c).0
              ≡ committed_in v c)
    unfolding conclude
    conclude_lem intent decision asked a c h approved =
        elim (Bool-cases (a.status == approved_status)) [
          | inl is ↦ elim (Bool-cases (is_missing a.approver)) [
            | inl missing ↦ cc (rw (conclude, is, missing) at h)
            | inr named ↦ (
              (text_beq_iff a.status approved_status).0 is,
              sym (ok-injective (rw (conclude, is, named) at h)),
              rw (conclude, is, named) refl,
            )
          ]
          | inr other ↦ elim (Bool-cases (a.status == codes "rejected")) [
            | inl rejected ↦ ground (arith, rw (conclude, other, rejected) at h, approved)
            | inr kept ↦ elim (Bool-cases (a.status == codes "expired")) [
              | inl late ↦ cc (rw (conclude, other, kept, late) at h)
              | inr unknown ↦ cc (rw (conclude, other, kept, unknown) at h)
            ]
          ]
        ]

    -- What an approved result of the wallet rests on.
    abbrev pub WalletApproved :
        AgentIntent → PolicyDecision → Cache → AuthorizationResult → Cache → Type 0
    WalletApproved intent decision c r after =
        (asked : WalletRequest) × (a : HumanApproval) × (r
          ≡ answer rt tonalli bridge run request v true (some a) (some asked) intent decision)
        × IsAsked rt tonalli bridge run request v.approval_context intent decision asked
        × IsAnswer rt tonalli bridge run request intent decision asked a
        × (a.status ≡ approved_status)
        × (after ≡ committed_in v (run.during_wallet c))

    module _ (intent : AgentIntent) (decision : PolicyDecision) (c : Cache) where
      ask_wallet_concludes :
          (asked : WalletRequest) (a : HumanApproval)
          → build_request rt tonalli bridge run request v.approval_context intent decision
            ≡ ok asked
          → check_approval rt tonalli bridge run request asked intent decision ≡ ok a
          → ask_wallet rt tonalli bridge run request v intent decision c
            ≡ conclude rt tonalli bridge run request v intent decision asked a (run.during_wallet c)
      unfolding ask_wallet
      ask_wallet_concludes asked a built checked = rw (ask_wallet, built, checked) refl

      concluded :
          (asked : WalletRequest) (a : HumanApproval) {r : AuthorizationResult}
          → build_request rt tonalli bridge run request v.approval_context intent decision
            ≡ ok asked
          → check_approval rt tonalli bridge run request asked intent decision ≡ ok a
          → (ask_wallet rt tonalli bridge run request v intent decision c).1 ≡ ok r
          → r.is_approved ≡ true
          → WalletApproved intent decision c r
              (ask_wallet rt tonalli bridge run request v intent decision c).0
      concluded asked a {r} built checked h approved =
          let e = ask_wallet_concludes asked a built checked in
          let found =
            conclude_lem intent decision asked a (run.during_wallet c) {r = r}
              (ap (λ (o : Cache × Result BridgeError AuthorizationResult). o.1) (sym e) ∙ h)
              approved in
          (
            asked,
            a,
            found.1,
            build_request-IsAsked rt tonalli bridge run request v.approval_context intent decision
                built,
            check_approval-IsAnswer rt tonalli bridge run request asked intent decision checked,
            found.0,
            ap (λ (o : Cache × Result BridgeError AuthorizationResult). o.0) e ∙ found.2,
          )

      ask_wallet_unbuilt :
          (e : BridgeError)
          → build_request rt tonalli bridge run request v.approval_context intent decision ≡ err e
          → (ask_wallet rt tonalli bridge run request v intent decision c).1 ≡ err e
      unfolding ask_wallet
      ask_wallet_unbuilt e bad = rw (ask_wallet, bad) refl

      ask_wallet_unanswered :
          (asked : WalletRequest) (e : BridgeError)
          → build_request rt tonalli bridge run request v.approval_context intent decision
            ≡ ok asked
          → check_approval rt tonalli bridge run request asked intent decision ≡ err e
          → (ask_wallet rt tonalli bridge run request v intent decision c).1 ≡ err e
      unfolding ask_wallet
      ask_wallet_unanswered asked e built bad = rw (ask_wallet, built, bad) refl

      answered-IsApproved :
          (asked : WalletRequest) (o : Result BridgeError HumanApproval) {r : AuthorizationResult}
          → build_request rt tonalli bridge run request v.approval_context intent decision
            ≡ ok asked
          → check_approval rt tonalli bridge run request asked intent decision ≡ o
          → (ask_wallet rt tonalli bridge run request v intent decision c).1 ≡ ok r
          → r.is_approved ≡ true
          → WalletApproved intent decision c r
              (ask_wallet rt tonalli bridge run request v intent decision c).0
      answered-IsApproved asked (err e) built bad h approved =
          elim (err_not_ok (ask_wallet_unanswered asked e built bad) h) [ ]
      answered-IsApproved asked (ok a) built checked h approved =
          concluded asked a built checked h approved

      pub ask_wallet-IsApproved :
          {r : AuthorizationResult}
          → (ask_wallet rt tonalli bridge run request v intent decision c).1 ≡ ok r
          → r.is_approved ≡ true
          → WalletApproved intent decision c r
              (ask_wallet rt tonalli bridge run request v intent decision c).0
      ask_wallet-IsApproved h approved =
          elim (Result-cases
            (build_request rt tonalli bridge run request v.approval_context intent decision)) [
              | inr (e, bad) ↦ elim (err_not_ok (ask_wallet_unbuilt e bad) h) [ ]
              | inl (asked, built) ↦
                  answered-IsApproved asked
                    (check_approval rt tonalli bridge run request asked intent decision) built refl
                    h approved
            ]
