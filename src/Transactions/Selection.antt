-- ===== src/Transactions/Selection.antt =====
-- The inputs that buildFundingTx (packages/x402-xec-transactions/src/index.ts) selects.
use x402_xec.Common.{Result}
use x402_xec.Transactions.{
  thrown, ValidatedUtxo, Signing, signed, throws, Tx, BuildError, insufficient_funds,
  is_insufficient_input_error, select_inputs,
}
use x402_xec.Common.{
  zero, suc, ◌≢◌, err_not_ok, ok-injective, suc, refl, inl, inr, ok, err, true, arith, sym, subst,
  ap, List, Text, ℕ, ◌∷◌, [], ◌++◌, ◌≡◌, ◌⊎◌, ◌∙◌, ◌<◌, take, length, Bool-cases,
}
use mathlib.Core.List.{append_assoc}

-- The builder takes the inputs, or finds them too few.
abbrev pub IsEnough : (List ValidatedUtxo → Signing) → List ValidatedUtxo → Type 0
IsEnough build inputs = (tx : Tx) × (build inputs ≡ signed tx)

abbrev pub IsTooFew : (List ValidatedUtxo → Signing) → List ValidatedUtxo → Type 0
IsTooFew build inputs =
    (m : Text) × (build inputs ≡ throws m) × (is_insufficient_input_error m ≡ true)

thrown_is_other :
    (m : Text)
    → ◌≢◌ {A = Result BuildError (List ValidatedUtxo)} (err (thrown m)) (err insufficient_funds)
thrown_is_other m e = cc

pub Signing-cases : (s : Signing) → ((tx : Tx) × (s ≡ signed tx)) ⊎ ((m : Text) × (s ≡ throws m))
Signing-cases (signed tx) = inl (tx, refl)
Signing-cases (throws m) = inr (m, refl)

module _ (build : List ValidatedUtxo → Signing) where
  -- One more input.
  shift :
      (chosen : List ValidatedUtxo) (u : ValidatedUtxo) (rest : List ValidatedUtxo) (n : ℕ)
      → (chosen ++ u ∷ []) ++ take n rest ≡ chosen ++ take (suc n) (u ∷ rest)
  shift chosen u rest n = append_assoc chosen (u ∷ []) (take n rest)

  before-IsTooFew :
      (chosen : List ValidatedUtxo) (u : ValidatedUtxo) (rest : List ValidatedUtxo) (n : ℕ)
      (m : Text)
      → build (chosen ++ u ∷ []) ≡ throws m
      → is_insufficient_input_error m ≡ true
      → ((k : ℕ) → k < n → IsTooFew build ((chosen ++ u ∷ []) ++ take (suc k) rest))
      → (k : ℕ) → k < suc n
      → IsTooFew build (chosen ++ take (suc k) (u ∷ rest))
  before-IsTooFew chosen u rest n m threw few before zero lt = (m, threw, few)
  before-IsTooFew chosen u rest n m threw few before (suc k) lt =
      subst (IsTooFew build) (shift chosen u rest (suc k)) (before k (omega arith))

  -- What is selected behind `chosen` is the shortest that is enough.
  pub select_inputs-shortest :
      (chosen rest : List ValidatedUtxo) {s : List ValidatedUtxo}
      → select_inputs build chosen rest ≡ ok s
      → (n : ℕ) × (s ≡ chosen ++ take (suc n) rest)
        × IsEnough build s
        × ((k : ℕ) → k < n → IsTooFew build (chosen ++ take (suc k) rest))
  unfolding select_inputs
  select_inputs-shortest chosen [] h = cc
  select_inputs-shortest chosen (u ∷ rest) h = elim (Signing-cases (build (chosen ++ u ∷ []))) [
    | inl (tx, built) ↦
        let s_is = ok-injective (rw (select_inputs, built) at h) in
        (0, sym s_is, (tx, ap build (sym s_is) ∙ built), λ k lt. elim lt [ ])
    | inr (m, threw) ↦ elim (Bool-cases (is_insufficient_input_error m)) [
      | inr other ↦ elim (err_not_ok {e = thrown m} (rw (select_inputs, threw, other) refl) h) [ ]
      | inl few ↦
          let (n, s_is, is_enough, shorter) =
            select_inputs-shortest (chosen ++ u ∷ []) rest (rw (select_inputs, threw, few) at h) in
          (
            suc n,
            s_is ∙ shift chosen u rest (suc n),
            is_enough,
            before-IsTooFew chosen u rest n m threw few shorter,
          )
    ]
  ]

  -- The selection fails for insufficient funds only where the builder refused as too few every one
  -- of the first UTXOs behind those chosen, up to all of them.
  pub select_inputs-insufficient :
      (chosen rest : List ValidatedUtxo)
      → select_inputs build chosen rest ≡ err insufficient_funds
      → (k : ℕ) → k < length rest
      → IsTooFew build (chosen ++ take (suc k) rest)
  unfolding select_inputs
  select_inputs-insufficient chosen [] h k lt = elim lt [ ]
  select_inputs-insufficient chosen (u ∷ rest) h k lt =
      elim (Signing-cases (build (chosen ++ u ∷ []))) [
        | inl (tx, built) ↦
            elim (err_not_ok {a = chosen ++ u ∷ []} h (rw (select_inputs, built) refl)) [ ]
        | inr (m, threw) ↦ elim (Bool-cases (is_insufficient_input_error m)) [
          | inr other ↦ elim (thrown_is_other m (rw (select_inputs, threw, other) at h)) [ ]
          | inl few ↦
              before-IsTooFew chosen u rest (length rest) m threw few
                (select_inputs-insufficient (chosen ++ u ∷ []) rest
                  (rw (select_inputs, threw, few) at h))
                k (lt)
        ]
      ]

  -- Where some of the first UTXOs behind those chosen are enough and each shorter choice is refused
  -- as too few, the selection succeeds with just these.
  pub select_inputs_finds :
      (chosen rest : List ValidatedUtxo) (n : ℕ)
      → n < length rest
      → IsEnough build (chosen ++ take (suc n) rest)
      → ((k : ℕ) → k < n → IsTooFew build (chosen ++ take (suc k) rest))
      → select_inputs build chosen rest ≡ ok (chosen ++ take (suc n) rest)
  unfolding select_inputs
  select_inputs_finds chosen [] n lt is_enough few = elim lt [ ]
  select_inputs_finds chosen (u ∷ rest) zero lt (tx, built) few = rw (select_inputs, built) refl
  select_inputs_finds chosen (u ∷ rest) (suc n) lt is_enough few =
      let (m, threw, insufficient) = few 0 (omega arith) in
      rw (select_inputs, threw, insufficient, ← shift chosen u rest (suc n))
        (select_inputs_finds (chosen ++ u ∷ []) rest n (omega arith)
          (subst (IsEnough build) (sym (shift chosen u rest (suc n))) is_enough)
          (λ k le.
            subst (IsTooFew build) (sym (shift chosen u rest (suc k))) (few (suc k) (omega arith))))
