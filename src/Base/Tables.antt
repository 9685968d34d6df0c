-- ===== src/Base/Tables.antt =====
-- Database tables as maps from the primary key to the row: `WHERE` by a test, with the rows in the
-- order of their insertion.
use Prim.Native.Nat.{ℕ, ◌+◌, ◌≤◌}
use mathlib.Core.Logic.{inl, inr}
use mathlib.Core.Path.{◌≡◌, refl}
use mathlib.Core.Bool.{Bool, true, false}
use mathlib.Core.Option.{Option, none, some}
use mathlib.Core.List.{[], ◌∷◌}
use native.Mathlib.Omega.{arith}
use foundryvtt_rest_api_rela.Base.Tests.{if◌then◌else◌, eqb_iff, Bool-cases}
use foundryvtt_rest_api_rela.Base.Classes.{nat_eq}
use foundryvtt_rest_api_rela.Base.Maps.{Dict, Distinct, lookup, insert}

-- 1 for a row that counts.
abbrev pub one_if : Bool → ℕ
one_if true = 1
one_if false = 0

module _ {ℓ} {V : Type ℓ} where
  -- The first row that passes the test, with its id.
  unfoldable pub find_row : (V → Bool) → Dict ℕ V → Option (ℕ × V)
  find_row p [] = none
  find_row p ((i, v) ∷ m) = if p v then some (i, v) else find_row p m

  unfoldable pub count_rows : (V → Bool) → Dict ℕ V → ℕ
  count_rows p [] = 0
  count_rows p ((i, v) ∷ m) = one_if (p v) + count_rows p m

  unfoldable pub map_rows : (V → V) → Dict ℕ V → Dict ℕ V
  map_rows f [] = []
  map_rows f ((i, v) ∷ m) = (i, f v) ∷ map_rows f m

  pub find_row-holds :
      (p : V → Bool) (m : Dict ℕ V) (i : ℕ) (v : V) → find_row p m ≡ some (i, v) → p v ≡ true
  unfolding find_row
  find_row-holds p [] i v h = cc
  find_row-holds p ((j, w) ∷ m) i v h = ground (arith, h, find_row-holds p m i v)

  pub find_row-lookup :
      (p : V → Bool) (m : Dict ℕ V) (i : ℕ) (v : V)
      → Distinct m
      → find_row p m ≡ some (i, v)
      → lookup i m ≡ some v
  unfolding find_row lookup
  find_row-lookup p [] i v d h = cc
  find_row-lookup p ((j, w) ∷ m) i v d h =
      ground (arith, h, d.0, eqb_iff j i, find_row-lookup p m i v d.1)

  pub count_rows-insert_new :
      (p : V → Bool) (k : ℕ) (v : V) (m : Dict ℕ V)
      → lookup k m ≡ none
      → count_rows p (insert k v m) ≡ count_rows p m + one_if (p v)
  unfolding count_rows lookup insert
  count_rows-insert_new p k v [] h = omega arith
  count_rows-insert_new p k v ((i, w) ∷ m) h = ground (arith, count_rows-insert_new p k v m)

  pub count_rows-insert_old :
      (p : V → Bool) (k : ℕ) (v w : V) (m : Dict ℕ V)
      → lookup k m ≡ some w
      → count_rows p (insert k v m) + one_if (p w) ≡ count_rows p m + one_if (p v)
  unfolding count_rows lookup insert
  count_rows-insert_old p k v w [] h = cc
  count_rows-insert_old p k v w ((i, u) ∷ m) h = ground (arith, count_rows-insert_old p k v w m)

  pub lookup-map_rows :
      (f : V → V) (k : ℕ) (v : V) (m : Dict ℕ V)
      → lookup k m ≡ some v
      → lookup k (map_rows f m) ≡ some (f v)
  unfolding map_rows lookup
  lookup-map_rows f k v [] h = cc
  lookup-map_rows f k v ((i, w) ∷ m) h = ground (arith, lookup-map_rows f k v m)

  pub lookup-map_rows-none :
      (f : V → V) (k : ℕ) (m : Dict ℕ V) → lookup k m ≡ none → lookup k (map_rows f m) ≡ none
  unfolding map_rows lookup
  lookup-map_rows-none f k [] h = refl
  lookup-map_rows-none f k ((i, w) ∷ m) h = ground (arith, lookup-map_rows-none f k m)

  pub Distinct-map_rows : (f : V → V) (m : Dict ℕ V) → Distinct m → Distinct (map_rows f m)
  unfolding map_rows
  Distinct-map_rows f [] d = tt
  Distinct-map_rows f ((i, w) ∷ m) d = (lookup-map_rows-none f i m d.0, Distinct-map_rows f m d.1)

  pub count_rows-map_rows-le :
      (p : V → Bool) (f : V → V) (m : Dict ℕ V)
      → ((v : V) → one_if (p (f v)) ≤ one_if (p v))
      → count_rows p (map_rows f m) ≤ count_rows p m
  unfolding count_rows map_rows
  count_rows-map_rows-le p f [] h = omega arith
  count_rows-map_rows-le p f ((i, w) ∷ m) h = ground (arith, h w, count_rows-map_rows-le p f m h)

  pub find_row-insert_new :
      (p : V → Bool) (k : ℕ) (v : V) (m : Dict ℕ V)
      → lookup k m ≡ none
      → find_row p m ≡ none
      → find_row p (insert k v m) ≡ (if p v then some (k, v) else none)
  unfolding find_row lookup insert
  find_row-insert_new p k v [] h g = refl
  find_row-insert_new p k v ((i, w) ∷ m) h g = ground (arith, h, g, find_row-insert_new p k v m)

  -- No row passes a test that is stronger than one that none passes.
  pub find_row-stronger :
      (p q : V → Bool) (m : Dict ℕ V)
      → ((v : V) → q v ≡ true → p v ≡ true)
      → find_row p m ≡ none
      → find_row q m ≡ none
  unfolding find_row
  find_row-stronger p q [] imp h = refl
  find_row-stronger p q ((i, w) ∷ m) imp h = ground (arith, h, imp w, find_row-stronger p q m imp)

  -- A row that passes is found, it or one before it.
  pub find_row-some :
      (p : V → Bool) (k : ℕ) (v : V) (m : Dict ℕ V)
      → lookup k m ≡ some v
      → p v ≡ true
      → (i : ℕ) × (w : V) × (find_row p m ≡ some (i, w))
  unfolding find_row lookup
  find_row-some p k v [] h g = absurd (ground (arith, h))
  find_row-some p k v ((i, w) ∷ m) h g = elim (Bool-cases (p w)) [
    | inl first ↦ (i, w, rw (first) refl)
    | inr later ↦
        let (j, u, found) = find_row-some p k v m (ground (arith, h, g, later)) g in
        (j, u, rw (later) found)
  ]
