-- ===== src/Model/CatalogueLaws.antt =====
-- model/scopes.go: the catalogue of scopes is closed, and validation finds what is not in it.
use foundryvtt_rest_api_rela.Base.{
  All, Bool, Bool-cases, Dict, List, String, [], arith, beq_self, contains, false, inl, inr, lookup,
  nat_eq, refl, some, str_iff, string_eq, subst, sym, true, ◌&&◌, ◌==◌, ◌∷◌, ◌≡◌, ◌≢◌, ◌⊎◌,
}
use foundryvtt_rest_api_rela.Model.Catalogue.{
  all_scopes, action_to_scope_required, scope_for_action, is_valid_scope, validate_scopes,
}

-- A test of every value of a map.
every_value {ℓ κ} : {K : Type ℓ} {V : Type κ} → (V → Bool) → Dict K V → Bool
every_value p [] = true
every_value p ((k, v) ∷ m) = p v && every_value p m

every_value-lookup :
    (p : String → Bool) (k v : String) (m : Dict String String)
    → every_value p m ≡ true
    → lookup k m ≡ some v
    → p v ≡ true
unfolding every_value lookup
every_value-lookup p k v [] h e = cc
every_value-lookup p k v ((j, w) ∷ m) h e = elim (Bool-cases (j == k)) [
  | inl same ↦ ground (arith, same, e, h)
  | inr other ↦ every_value-lookup p k v m (ground (arith, h)) (ground (arith, other, e))
]

catalogue_closed : every_value is_valid_scope action_to_scope_required ≡ true
unfolding every_value is_valid_scope action_to_scope_required all_scopes contains
catalogue_closed = refl

-- Every action that the cross-world tunnel knows takes a scope that can be granted.
pub scope_for_action-IsValid :
    (action scope : String) → scope_for_action action ≡ some scope → is_valid_scope scope ≡ true
unfolding scope_for_action
scope_for_action-IsValid action scope h =
    every_value-lookup is_valid_scope action scope action_to_scope_required catalogue_closed h

valid_first :
    (s : String) (ss : List String)
    → is_valid_scope s ≡ true
    → validate_scopes (s ∷ ss) ≡ validate_scopes ss
unfolding validate_scopes
valid_first s ss h = ground (arith, h)

bad_first :
    (s : String) (ss : List String) → is_valid_scope s ≡ false → validate_scopes (s ∷ ss) ≡ s
unfolding validate_scopes
bad_first s ss h = ground (arith, h)

no_scopes : validate_scopes [] ≡ ""
unfolding validate_scopes
no_scopes = refl

-- Either all scopes are valid and the answer is empty, or the answer is a member that is not valid.
abbrev pub Verdict : List String → String → Type 0
Verdict ss answer =
    ((answer ≡ "") × All (λ s. is_valid_scope s ≡ true) ss)
    ⊎ ((contains answer ss ≡ true) × (is_valid_scope answer ≡ false) × (answer ≢ ""))

later :
    (s answer : String) (ss : List String)
    → is_valid_scope s ≡ true
    → Verdict ss answer
    → Verdict (s ∷ ss) answer
unfolding contains
later s answer ss valid (inl (e, all)) = inl (e, (valid, all))
later s answer ss valid (inr (found, bad, named)) = inr (ground (arith, found), bad, named)

here :
    (s : String) (ss : List String)
    → is_valid_scope s ≡ false
    → (s == "") ≡ false
    → Verdict (s ∷ ss) s
unfolding contains
here s ss bad h = inr (ground (arith, beq_self s), bad, ground (arith, h, str_iff s ""))

-- Validating a list without empty strings answers the empty string exactly if every scope of the
-- list is in the catalogue, and answers a member of the list that is not in it otherwise.
pub validate_scopes_lem :
    (ss : List String) → All (λ s. (s == "") ≡ false) ss → Verdict ss (validate_scopes ss)
validate_scopes_lem [] h = inl (no_scopes, tt)
validate_scopes_lem (s ∷ ss) (h, hs) = elim (Bool-cases (is_valid_scope s)) [
  | inl valid ↦
      subst (Verdict (s ∷ ss)) (sym (valid_first s ss valid))
        (later s _ ss valid (validate_scopes_lem ss hs))
  | inr bad ↦ subst (Verdict (s ∷ ss)) (sym (bad_first s ss bad)) (here s ss bad h)
]
