-- ===== src/Base/Maps.antt =====
-- Go maps as association lists. A write replaces the entry of its key, `delete` removes it, and a
-- loop that deletes the entries which fail a test is `keep`.
use Prim.Native.Nat.{ℕ, ◌+◌, ◌≤◌}
use mathlib.Core.Path.{◌≡◌, refl}
use mathlib.Core.Bool.{Bool}
use mathlib.Core.Option.{Option, none, some}
use mathlib.Core.List.{List, [], ◌∷◌}
use native.Mathlib.Omega.{arith}
use foundryvtt_rest_api_rela.Base.Tests.{if◌then◌else◌}
use foundryvtt_rest_api_rela.Base.Classes.{Comparable, ◌==◌}
use foundryvtt_rest_api_rela.Base.Lists.{length}

abbrev pub Dict {ℓ κ} : Type ℓ → Type κ → Type (ℓ ⊔ κ)
Dict K V = List (K × V)

module _ {ℓ κ} {K : Type ℓ} {V : Type κ} ⦃e : Comparable K⦄ where
  unfoldable pub lookup : K → Dict K V → Option V
  lookup k [] = none
  lookup k ((j, v) ∷ m) = if j == k then some v else lookup k m

  unfoldable pub insert : K → V → Dict K V → Dict K V
  insert key value [] = (key, value) ∷ []
  insert key value ((old, w) ∷ rest) =
      if old == key then (key, value) ∷ rest else (old, w) ∷ insert key value rest

  unfoldable pub delete : K → Dict K V → Dict K V
  delete k [] = []
  delete k ((j, w) ∷ m) = let rest = delete k m in if j == k then rest else (j, w) ∷ rest

  unfoldable pub keep : (K → V → Bool) → Dict K V → Dict K V
  keep p [] = []
  keep p ((j, w) ∷ m) = let rest = keep p m in if p j w then (j, w) ∷ rest else rest

  -- No key stands twice.
  abbrev pub Distinct : Dict K V → Type κ
  Distinct [] = Unit
  Distinct ((j, v) ∷ m) = (lookup j m ≡ none) × Distinct m

  pub lookup-insert :
      (key q : K) (value : V) (m : Dict K V)
      → lookup q (insert key value m) ≡ (if key == q then some value else lookup q m)
  unfolding lookup insert
  lookup-insert key q value [] = refl
  lookup-insert key q value ((old, w) ∷ m) =
      let later = lookup-insert key q value m in
      ground (arith, e.equals_iff old q, e.equals_iff old key, e.equals_iff key q, later)

  pub lookup-delete :
      (k j : K) (m : Dict K V) → lookup j (delete k m) ≡ (if k == j then none else lookup j m)
  unfolding lookup delete
  lookup-delete k j [] = ground arith
  lookup-delete k j ((i, w) ∷ m) =
      ground (arith, e.equals_iff k j, e.equals_iff i k, e.equals_iff i j, lookup-delete k j m)

  pub delete-insert :
      (k : K) (v : V) (m : Dict K V) → lookup k m ≡ none → delete k (insert k v m) ≡ m
  unfolding lookup insert delete
  delete-insert k v [] h = ground (arith, e.equals_iff k k)
  delete-insert k v ((j, w) ∷ m) h = ground (arith, h, e.equals_iff k k, delete-insert k v m)

  abbrev pub kept : (K → V → Bool) → K → Option V → Option V
  kept p k none = none
  kept p k (some v) = if p k v then some v else none

  pub lookup-keep :
      (p : K → V → Bool) (k : K) (m : Dict K V)
      → Distinct m
      → lookup k (keep p m) ≡ kept p k (lookup k m)
  unfolding lookup keep
  lookup-keep p k [] d = refl
  lookup-keep p k ((i, w) ∷ m) d = ground (arith, e.equals_iff i k, lookup-keep p k m d.1, d.0)

  pub Distinct-insert : (k : K) (v : V) (m : Dict K V) → Distinct m → Distinct (insert k v m)
  unfolding lookup insert
  Distinct-insert k v [] d = (refl, tt)
  Distinct-insert k v ((i, w) ∷ m) d =
      ground (
        arith,
        e.equals_iff i k,
        e.equals_iff k i,
        lookup-insert k i v m,
        Distinct-insert k v m d.1,
      )

  pub Distinct-delete : (k : K) (m : Dict K V) → Distinct m → Distinct (delete k m)
  unfolding delete
  Distinct-delete k [] d = tt
  Distinct-delete k ((i, w) ∷ m) d = ground (arith, lookup-delete k i m, Distinct-delete k m d.1)

  pub Distinct-keep : (p : K → V → Bool) (m : Dict K V) → Distinct m → Distinct (keep p m)
  unfolding keep
  Distinct-keep p [] d = tt
  Distinct-keep p ((i, w) ∷ m) d = ground (arith, lookup-keep p i m d.1, Distinct-keep p m d.1)

  pub delete_absent : (k : K) (m : Dict K V) → lookup k m ≡ none → delete k m ≡ m
  unfolding lookup delete
  delete_absent k [] h = refl
  delete_absent k ((i, w) ∷ m) h = ground (arith, delete_absent k m)

  pub length-insert_new :
      (k : K) (v : V) (m : Dict K V) → lookup k m ≡ none → length (insert k v m) ≡ length m + 1
  unfolding lookup insert
  length-insert_new k v [] h = omega arith
  length-insert_new k v ((i, w) ∷ m) h = ground (arith, length-insert_new k v m)

  pub length-insert_old :
      (k : K) (v w : V) (m : Dict K V) → lookup k m ≡ some w → length (insert k v m) ≡ length m
  unfolding lookup insert
  length-insert_old k v w [] h = cc
  length-insert_old k v w ((i, u) ∷ m) h = ground (arith, length-insert_old k v w m)

  pub length-delete :
      (k : K) (v : V) (m : Dict K V)
      → Distinct m
      → lookup k m ≡ some v
      → length (delete k m) + 1 ≡ length m
  unfolding lookup delete
  length-delete k v [] d h = cc
  length-delete k v ((i, u) ∷ m) d h =
      ground (arith, e.equals_iff i k, d.0, delete_absent k m, length-delete k v m d.1)

  pub length-keep-le : (p : K → V → Bool) (m : Dict K V) → length (keep p m) ≤ length m
  unfolding keep
  length-keep-le p [] = omega arith
  length-keep-le p ((i, w) ∷ m) = ground (arith, length-keep-le p m)

-- A missing key of a map of counts reads as 0.
abbrev pub count_of : Option ℕ → ℕ
count_of none = 0
count_of (some n) = n

-- `m[k]++`
abbrev pub raise {ℓ} : {K : Type ℓ} ⦃e : Comparable K⦄ → K → Dict K ℕ → Dict K ℕ
raise k m = insert k (count_of (lookup k m) + 1) m
