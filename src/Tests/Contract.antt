-- ===== src/Tests/Contract.antt =====
-- Runs of the in-memory store behind the contract that both stores keep.
use x402_xec.Common.{
  to_lower_case, refl, some, none, true, sym, ap, Option, Text, ◌≡◌, ◌∙◌, text_beq, text_beq_iff,
}
use x402_xec.Common.Dict.{get, set}
use x402_xec.Core.InvoiceStore.{Store, empty_store, issue, commit_paid, same_txid, settled_record}
use x402_xec.Core.InvoiceStore.Histories.{
  Reach, Reach-IsConsistent, start, next, issues, settles, paid_once,
}
use x402_xec.Core.InvoiceStore.Contract.{memory_store, memory-commit_paid_refines, view}
use x402_xec.Core.SettlementContract.{Commits}
use x402_xec.Core.SettlementContract.Clients.{
  Settlements, PaidOnce, contract-PaidOnce, contract_settled,
}
use x402_xec.Tests.Fixtures.{flat_platform, invoice_a, invoice_b, hash_a, hash_b, txid_1}

abbrev both_issued : Store
both_issued = (issue invoice_b (issue invoice_a empty_store).0).0

abbrev a_settled : Store
a_settled = (commit_paid hash_a txid_1 120 both_issued).0

abbrev tried_again : Store
tried_again = (commit_paid hash_b txid_1 130 a_settled).0

issued_reached : Reach flat_platform both_issued
issued_reached = next (next start (issues invoice_a refl)) (issues invoice_b refl)

settled_reached : Reach flat_platform a_settled
settled_reached = next issued_reached (settles hash_a txid_1 120)

memory-commit_paid_refines_example :
    Commits
      (view both_issued)
      hash_a
      (to_lower_case txid_1)
      120
      (view (commit_paid hash_a txid_1 120 both_issued).0)
      (some (commit_paid hash_a txid_1 120 both_issued).1)
memory-commit_paid_refines_example =
    memory-commit_paid_refines hash_a txid_1 120 both_issued (Reach-IsConsistent issued_reached)

by_txid : (o : Option Text) (t : Text) → same_txid o t ≡ true → o ≡ some t
by_txid none t h = cc
by_txid (some a) t h = ap some ((text_beq_iff a t).0 h)

settled_once : PaidOnce (view a_settled)
settled_once h k txid x y at_h at_k paid_x paid_y by_x by_y =
    paid_once settled_reached x y at_h at_k paid_x paid_y
      (by_txid x.settled_txid txid by_x ∙ sym (by_txid y.settled_txid txid by_y))

tried_again-PaidOnce : PaidOnce (view tried_again)
tried_again-PaidOnce =
    contract-PaidOnce memory_store (Reach-IsConsistent settled_reached)
      (Settlements.commits hash_b txid_1 130 Settlements.no_settlement) settled_once

a_found : view a_settled hash_a ≡ some (settled_record txid_1 120 invoice_a)
unfolding commit_paid issue get set to_lower_case text_beq
a_found = refl

settled_kept : view tried_again hash_a ≡ some (settled_record txid_1 120 invoice_a)
settled_kept =
    contract_settled memory_store (Reach-IsConsistent settled_reached)
      (Settlements.commits hash_b txid_1 130 Settlements.no_settlement) hash_a
      (settled_record txid_1 120 invoice_a) a_found refl
