-- ===== src/Approval/Pairs/Wildcard.antt =====
-- handler/pair_request.go: the wildcard that a module asks for.
use foundryvtt_rest_api_rela.Base.{
  All, Bool, Bool-cases, List, String, [], arith, beq_self, contains, contains-select, false, inl,
  inr, nat_eq, not, refl, select, str_iff, string_eq, ℕ, ◌==◌, ◌∷◌, ◌≡◌,
}
use foundryvtt_rest_api_rela.Approval.Worlds.{PairRequest}
use foundryvtt_rest_api_rela.Model.Csv.{append, trim_right, join}
use foundryvtt_rest_api_rela.Model.Scopes.{scopes_string}
use foundryvtt_rest_api_rela.Model.CsvLaws.{IsClean, parse_scopes-scopes_string}
use foundryvtt_rest_api_rela.Approval.Pairs.{
  NewPair, without_wildcard, new_request, shown_targets, csv_or_null,
}

not-wildcard : (x : String) → (append x ",*" == "*") ≡ false
not-wildcard x = elim (Bool-cases (append x ",*" == "*")) [
  | inl same ↦ absurd (longer x ((str_iff (append x ",*") "*").0 same))
  | inr other ↦ other
]
  where
    longer : (y : String) → append y ",*" ≡ "*" → ⊥
    longer String.[] h = cc
    longer (String.◌∷◌ c String.[]) h = cc
    longer (String.◌∷◌ c (String.◌∷◌ d y)) h = cc

star-IsClean : IsClean "*"
unfolding trim_right
star-IsClean = record { no_comma = ground arith; left = refl; right = refl }

-- A module that asks for the one target `x,*`, for any client id x that is not empty and has neither
-- commas nor spaces around it, is not stripped of the wildcard: the approval page shows x and the
-- wildcard as what it asks for.
pub wildcard_survives :
    (x code : String) (b : NewPair) (now : ℕ)
    → IsClean x
    → b.requested_target_clients ≡ append x ",*" ∷ []
    → shown_targets (new_request b code now) ≡ x ∷ "*" ∷ []
unfolding shown_targets new_request without_wildcard scopes_string join
wildcard_survives x code b now clean h =
    rw (h, not-wildcard x) (parse_scopes-scopes_string (x ∷ "*" ∷ []) (clean, (star-IsClean, tt)))

All-select {ℓ} :
    (P : String → Type ℓ) (p : String → Bool) (xs : List String) → All P xs → All P (select p xs)
All-select P p [] h = tt
All-select P p (x ∷ xs) (h, hs) = elim (Bool-cases (p x)) [
  | inl kept_one ↦ rw (kept_one) (h, All-select P p xs hs)
  | inr dropped ↦ rw (dropped) (All-select P p xs hs)
]

shown_again :
    (xs : List String)
    → All IsClean xs
    → (r : PairRequest) → r.requested_target_clients ≡ csv_or_null xs
    → shown_targets r ≡ xs
unfolding shown_targets
shown_again [] h r e = rw (e, shown_targets) refl
shown_again (x ∷ xs) h r e = rw (e, shown_targets) (parse_scopes-scopes_string (x ∷ xs) h)

-- Where the targets that a module asks for are not empty and have neither commas nor spaces around
-- them, the approval page shows them without the wildcard.
pub clean_targets :
    (code : String) (b : NewPair) (now : ℕ)
    → All IsClean b.requested_target_clients
    → contains "*" (shown_targets (new_request b code now)) ≡ false
unfolding new_request without_wildcard
clean_targets code b now clean =
    let plain = λ (t : String). not (t == "*") in
    let asked = b.requested_target_clients in
    rw
      (shown_again (select plain asked) (All-select IsClean plain asked clean)
        (new_request b code now) refl)
      (ground (arith, contains-select plain "*" asked, beq_self {A = String} "*"))
