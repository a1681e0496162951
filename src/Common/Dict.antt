-- ===== src/Common/Dict.antt =====
-- JavaScript's `Map`: entries in the order in which their keys were first set.
use mathlib.Core.Path.{◌≡◌, refl, ap}
use mathlib.Core.Bool.{Bool, true}
use mathlib.Core.Option.{Option, none, some}
use mathlib.Core.List.{List, [], ◌∷◌}
use native.Mathlib.Omega.{arith}
use x402_xec.Common.Tests.{if◌then◌else◌, Eq, ◌==◌, is_some}

abbrev pub Dict {ℓ κ} : Type ℓ → Type κ → Type (ℓ ⊔ κ)
Dict K V = List (K × V)

module _ {ℓ κ} {K : Type ℓ} {V : Type κ} ⦃e : Eq K⦄ where
  -- `m.get(k)`
  unfoldable pub get : Dict K V → K → Option V
  get [] k = none
  get ((j, v) ∷ m) k = if j == k then some v else get m k

  -- `m.has(k)`
  abbrev pub has : Dict K V → K → Bool
  has m k = is_some (get m k)

  -- `m.set(k, v)` keeps the place of a key that is there
  unfoldable pub set : Dict K V → K → V → Dict K V
  set [] k v = (k, v) ∷ []
  set ((j, w) ∷ m) k v = if j == k then (k, v) ∷ m else (j, w) ∷ set m k v

  -- `m.delete(k)`
  unfoldable pub remove : Dict K V → K → Dict K V
  remove [] k = []
  remove ((j, w) ∷ m) k = let rest = remove m k in if j == k then rest else (j, w) ∷ rest

  pub get-set :
      (m : Dict K V) (k : K) (v : V) (j : K)
      → get (set m k v) j ≡ (if k == j then some v else get m j)
  unfolding get set
  get-set [] k v j = refl
  get-set ((i, w) ∷ m) k v j =
      ground (arith, get-set m k v j, e.beq_iff i k, e.beq_iff i j, e.beq_iff k j)

  pub get-remove :
      (m : Dict K V) (k j : K) → get (remove m k) j ≡ (if k == j then none else get m j)
  unfolding get remove
  get-remove [] k j = ground arith
  get-remove ((i, w) ∷ m) k j =
      ground (arith, get-remove m k j, e.beq_iff i k, e.beq_iff i j, e.beq_iff k j)

  -- Keys that test as equal have one value.
  pub get_beq : (m : Dict K V) (j k : K) → (j == k) ≡ true → get m j ≡ get m k
  get_beq m j k same = ap (get m) ((e.beq_iff j k).0 same)

  -- `for (const [k, v] of m) if (drop v) m.delete(k)`, with `keep` for what stays.
  unfoldable pub retain : (V → Bool) → Dict K V → Dict K V
  retain keep [] = []
  retain keep ((j, v) ∷ m) = let rest = retain keep m in if keep v then (j, v) ∷ rest else rest

  pub get-retain-some :
      (keep : V → Bool) (m : Dict K V) (k : K) (v : V)
      → get m k ≡ some v
      → keep v ≡ true
      → get (retain keep m) k ≡ some v
  unfolding get retain
  get-retain-some keep [] k v h kept = cc
  get-retain-some keep ((j, w) ∷ m) k v h kept = ground (arith, get-retain-some keep m k v)

  pub get-retain-none :
      (keep : V → Bool) (m : Dict K V) (k : K) → get m k ≡ none → get (retain keep m) k ≡ none
  unfolding get retain
  get-retain-none keep [] k h = refl
  get-retain-none keep ((j, w) ∷ m) k h = ground (arith, get-retain-none keep m k)

  -- What is left passes the test.
  pub get-retain-keep :
      (keep : V → Bool) (m : Dict K V) (k : K) (v : V)
      → get (retain keep m) k ≡ some v
      → keep v ≡ true
  unfolding get retain
  get-retain-keep keep [] k v h = cc
  get-retain-keep keep ((j, w) ∷ m) k v h = ground (arith, get-retain-keep keep m k v)
