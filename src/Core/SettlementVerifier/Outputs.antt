-- ===== src/Core/SettlementVerifier/Outputs.antt =====
-- The loop over a transaction's outputs (settlement-verifier.ts) finds the first that pays.
use x402_xec.Common.{
  ℕ, suc, ◌+◌, ◌≡◌, inl, inr, refl, Bool, true, false, not, Option, none, some, List, [], ◌∷◌, ◌&&◌,
  ◌||◌, Text, to_lower_case, ◌==◌, text_eq, nat_eq, arith, err, ok, if◌then◌else◌, Bool-cases,
  Option-cases, is_some, get_elem?,
}
use x402_xec.Core.Chronik.{TxOutput, has_token}
use x402_xec.Core.SettlementVerifier.{
  Matching, unmatched, match_outputs, select_output, Step, failure, pay_to_mismatch,
  token_output_disallowed, amount_mismatch,
}

module _ (script : Text) (amount : ℕ) where
  abbrev pub has_script : TxOutput → Bool
  has_script o = to_lower_case o.output_script == script

  -- The output pays the script exactly the amount, in XEC alone.
  abbrev pub pays : TxOutput → Bool
  pays o = has_script o && not (has_token o.token) && o.sats == amount

  -- The index of the first output that pays, counted from `i`.
  pub first_paying : ℕ → List TxOutput → Option ℕ
  first_paying i [] = none
  first_paying i (o ∷ os) = let rest = first_paying (i + 1) os in if pays o then some i else rest

  pub any_script : List TxOutput → Bool
  any_script [] = false
  any_script (o ∷ os) = has_script o || any_script os

  pub any_token : List TxOutput → Bool
  any_token [] = false
  any_token (o ∷ os) = (has_script o && has_token o.token) || any_token os

  -- What the outputs are worth, said without a loop's variables.
  pub verdict : List TxOutput → Step ℕ
  verdict os = elim (first_paying 0 os) [
    | some idx ↦ ok idx
    | none ↦
        if not (any_script os)
        then err (failure 402 pay_to_mismatch)
        else if any_token os
        then err (failure 402 token_output_disallowed)
        else err (failure 402 amount_mismatch)
  ]

  matched-eq-first_paying :
      (i : ℕ) (os : List TxOutput) (m : Matching)
      → m.matched_output_index ≡ none
      → (match_outputs script amount i os m).matched_output_index ≡ first_paying i os
  unfolding match_outputs first_paying
  matched-eq-first_paying i [] m e = e
  matched-eq-first_paying i (o ∷ os) m e = ground (
    arith,
    matched-eq-first_paying (i + 1) os m e,
    matched-eq-first_paying (i + 1) os
        (record m { has_script_match = true; has_token_output = true }) e,
    matched-eq-first_paying (i + 1) os
        (record m { has_script_match = true; wrong_amount_seen = some o.sats }) e,
  )

  matched-script :
      (i : ℕ) (os : List TxOutput) (m : Matching)
      → (match_outputs script amount i os m).has_script_match
        ≡ (m.has_script_match || any_script os)
  unfolding match_outputs any_script
  matched-script i [] m = ground arith
  matched-script i (o ∷ os) m = ground (
    arith,
    matched-script (i + 1) os m,
    matched-script (i + 1) os (record m { has_script_match = true; has_token_output = true }),
    matched-script (i + 1) os
        (record m { has_script_match = true; wrong_amount_seen = some o.sats }),
  )

  matched-token :
      (i : ℕ) (os : List TxOutput) (m : Matching)
      → first_paying i os ≡ none
      → (match_outputs script amount i os m).has_token_output ≡ (m.has_token_output || any_token os)
  unfolding match_outputs any_token first_paying
  matched-token i [] m e = ground arith
  matched-token i (o ∷ os) m e = ground (
    arith,
    matched-token (i + 1) os m,
    matched-token (i + 1) os (record m { has_script_match = true; has_token_output = true }),
    matched-token (i + 1) os
        (record m { has_script_match = true; wrong_amount_seen = some o.sats }),
  )

  -- With no output that pays and none that holds tokens, a script that matches left an amount.
  matched-amount :
      (i : ℕ) (os : List TxOutput) (m : Matching)
      → first_paying i os ≡ none
      → any_token os ≡ false
      → is_some (match_outputs script amount i os m).wrong_amount_seen
        ≡ (is_some m.wrong_amount_seen || any_script os)
  unfolding match_outputs any_token any_script first_paying
  matched-amount i [] m e q = ground arith
  matched-amount i (o ∷ os) m e q = ground (
    arith,
    matched-amount (i + 1) os m,
    matched-amount (i + 1) os
        (record m { has_script_match = true; wrong_amount_seen = some o.sats }),
  )

  paying-script :
      (i : ℕ) (os : List TxOutput) → is_some (first_paying i os) ≡ true → any_script os ≡ true
  unfolding first_paying any_script
  paying-script i [] e = cc
  paying-script i (o ∷ os) e = ground (arith, paying-script (i + 1) os)

  -- The loop over the outputs with its four variables, and the tests behind it, give for every list
  -- of outputs, script and amount the index of the first output that pays; where none pays the code
  -- is PAY_TO_MISMATCH if no output has the script, else TOKEN_OUTPUT_DISALLOWED if one with the
  -- script carries a token, else AMOUNT_MISMATCH.
  pub select_output-eq-verdict :
      (os : List TxOutput) → select_output (match_outputs script amount 0 os unmatched) ≡ verdict os
  unfolding select_output verdict
  select_output-eq-verdict os = ground (
    arith,
    matched-eq-first_paying 0 os unmatched refl,
    matched-script 0 os unmatched,
    matched-token 0 os unmatched,
    matched-amount 0 os unmatched,
    paying-script 0 os,
  )

  -- What is found at an index pays.
  first_paying-pays :
      (i j : ℕ) (os : List TxOutput)
      → first_paying i os ≡ some j
      → (k : ℕ) × (o : TxOutput) × (j ≡ i + k) × (get_elem? os k ≡ some o) × (pays o ≡ true)
  unfolding first_paying
  first_paying-pays i j [] e = cc
  first_paying-pays i j (o ∷ os) e = elim (Bool-cases (pays o)) [
    | inl found ↦ (0, o, ground arith, refl, found)
    | inr other ↦
        let (k, x, at, there, good) =
          first_paying-pays (i + 1) j os (rw (other, first_paying) at e) in
        (suc k, x, omega arith, there, good)
  ]

  -- An index that is selected is that of an output that pays.
  pub select_output-pays :
      (os : List TxOutput) {idx : ℕ}
      → select_output (match_outputs script amount 0 os unmatched) ≡ ok idx
      → (o : TxOutput) × (get_elem? os idx ≡ some o) × (pays o ≡ true)
  unfolding verdict
  select_output-pays os {idx} h = elim (Option-cases (first_paying 0 os)) [
    | inl missing ↦ ground (arith, select_output-eq-verdict os)
    | inr (j, found) ↦
        let (k, o, at, there, good) = first_paying-pays 0 j os found in
        let same : idx ≡ k = ground (arith, select_output-eq-verdict os) in (o, rw same there, good)
  ]
