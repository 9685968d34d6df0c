-- ===== src/Base/Lists.antt =====
-- Lists measured by native numbers, and membership as a Boolean test.
use Prim.Native.Nat.{ℕ, zero, suc, ◌+◌, ◌-◌, ◌≤◌}
use mathlib.Core.Path.{◌≡◌, refl}
use mathlib.Core.Bool.{true, Bool, false, not, ◌&&◌, ◌||◌}
use mathlib.Core.List.{List, [], ◌∷◌, ◌++◌}
use native.Mathlib.Omega.{arith}
use foundryvtt_rest_api_rela.Base.Tests.{if◌then◌else◌}
use foundryvtt_rest_api_rela.Base.Classes.{Comparable, ◌==◌}

module _ {ℓ} {A : Type ℓ} where
  abbrev pub length : List A → ℕ
  length [] = 0
  length (x ∷ xs) = suc (length xs)

  abbrev pub drop : ℕ → List A → List A
  drop zero xs = xs
  drop (suc n) [] = []
  drop (suc n) (x ∷ xs) = drop n xs

  abbrev pub take : ℕ → List A → List A
  take zero xs = []
  take (suc n) [] = []
  take (suc n) (x ∷ xs) = x ∷ take n xs

  abbrev pub select : (A → Bool) → List A → List A
  select p [] = []
  select p (x ∷ xs) = let rest = select p xs in if p x then x ∷ rest else rest

  abbrev pub any : (A → Bool) → List A → Bool
  any p [] = false
  any p (x ∷ xs) = p x || any p xs

  abbrev pub All {κ} : (A → Type κ) → List A → Type κ
  All P [] = Unit
  All P (x ∷ xs) = P x × All P xs

  pub length-append : (xs ys : List A) → length (xs ++ ys) ≡ length xs + length ys
  length-append [] ys = omega arith
  length-append (x ∷ xs) ys = omega (arith, length-append xs ys)

  pub length-drop : (n : ℕ) (xs : List A) → length (drop n xs) ≡ length xs - n
  length-drop zero xs = omega arith
  length-drop (suc n) [] = omega arith
  length-drop (suc n) (x ∷ xs) = omega (arith, length-drop n xs)

  pub length-select-le : (p : A → Bool) (xs : List A) → length (select p xs) ≤ length xs
  length-select-le p [] = omega arith
  length-select-le p (x ∷ xs) = ground (arith, length-select-le p xs)

-- slices.Contains, and reads and writes of a `map[K]bool` that stores only `true`.
module _ {ℓ} {A : Type ℓ} ⦃e : Comparable A⦄ where
  unfoldable pub contains : A → List A → Bool
  contains a [] = false
  contains a (x ∷ xs) = (x == a) || contains a xs

  unfoldable pub add_member : A → List A → List A
  unfolding contains
  add_member a xs = if contains a xs then xs else a ∷ xs

  unfoldable pub remove_member : A → List A → List A
  remove_member a [] = []
  remove_member a (x ∷ xs) = let rest = remove_member a xs in if x == a then rest else x ∷ rest

  pub contains-add_member :
      (a b : A) (xs : List A) → contains b (add_member a xs) ≡ ((a == b) || contains b xs)
  unfolding add_member contains
  contains-add_member a b [] = refl
  contains-add_member a b (x ∷ xs) =
      ground
        (arith, e.equals_iff x a, e.equals_iff x b, e.equals_iff a b, contains-add_member a b xs)

  pub contains-remove_member :
      (a b : A) (xs : List A) → contains b (remove_member a xs) ≡ (not (a == b) && contains b xs)
  unfolding remove_member contains
  contains-remove_member a b [] = ground arith
  contains-remove_member a b (x ∷ xs) =
      ground
        (arith, e.equals_iff x a, e.equals_iff x b, e.equals_iff a b, contains-remove_member a b xs)

  pub contains-select :
      (p : A → Bool) (a : A) (xs : List A) → contains a (select p xs) ≡ (p a && contains a xs)
  unfolding contains
  contains-select p a [] = ground arith
  contains-select p a (x ∷ xs) = ground (arith, e.equals_iff x a, contains-select p a xs)

  -- What holds of every member holds of the list.
  pub All-contains {κ} :
      (P : A → Type κ) (xs : List A) → ((a : A) → contains a xs ≡ true → P a) → All P xs
  unfolding contains
  All-contains P [] h = tt
  All-contains P (x ∷ xs) h =
      (h x (ground (arith, e.equals_iff x x)), All-contains P xs (λ a m. h a (ground (arith, m))))
