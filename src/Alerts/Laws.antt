-- ===== src/Alerts/Laws.antt =====
-- alerts/alerts.go: how often a key fires, and what the buffer of recent events holds.
use foundryvtt_rest_api_rela.Base.{
  Bool-cases, Dict, List, Option, String, [], arith, beq_self, false, if◌then◌else◌, inl, inr,
  lookup, lookup-insert, nat_eq, some, str_iff, string_eq, subst, true, ℕ, ◌&&◌, ◌==◌, ◌∷◌, ◌≡◌,
  ◌⊎◌,
}
use foundryvtt_rest_api_rela.Alerts.{TrackerEntry, entry_or_new, is_past, counted, must_fire, track}

-- One call of Track.
pub record Call : Type 0 where
  pub key : String
  pub threshold : ℕ
  pub window : ℕ
  pub now : ℕ

-- The instants at which calls with the key `k` answer true, with one cooldown for all calls.
unfoldable pub fired : String → ℕ → List Call → Dict String TrackerEntry → List ℕ
fired k cooldown [] m = []
fired k cooldown (c ∷ cs) m =
    let step = track c.key c.threshold c.window cooldown c.now m in
    let rest = fired k cooldown cs step.1 in if (c.key == k) && step.0 then c.now ∷ rest else rest

-- Each instant lies more than the cooldown after the one before, the first after `last`.
abbrev pub IsSpaced : ℕ → Option ℕ → List ℕ → Type 0
IsSpaced cooldown last [] = Unit
IsSpaced cooldown last (t ∷ ts) = (is_past t cooldown last ≡ true) × IsSpaced cooldown (some t) ts

counted_lem : (window now : ℕ) (e : TrackerEntry) → (counted window now e).last_fired ≡ e.last_fired
unfolding counted
counted_lem window now e = ground arith

abbrev after : ℕ → Call → Dict String TrackerEntry → Dict String TrackerEntry
after cooldown c m = (track c.key c.threshold c.window cooldown c.now m).1

-- The time of the last firing after a call.
abbrev fired_at : String → ℕ → Call → Dict String TrackerEntry → Option ℕ
fired_at k cooldown c m =
    (entry_or_new (lookup k (track c.key c.threshold c.window cooldown c.now m).1)).last_fired

same_lem :
    (cooldown : ℕ) (c : Call) (m : Dict String TrackerEntry)
    → fired_at c.key cooldown c m ≡ (
        if (track c.key c.threshold c.window cooldown c.now m).0
        then some c.now
        else (entry_or_new (lookup c.key m)).last_fired)
unfolding track
same_lem cooldown c m =
    let e = counted c.window c.now (entry_or_new (lookup c.key m)) in
    let e' =
      if must_fire c.threshold cooldown c.now e then record e { last_fired = some c.now } else e in
    ground (
      arith,
      lookup-insert c.key c.key e' m,
      beq_self c.key,
      counted_lem c.window c.now (entry_or_new (lookup c.key m)),
    )

other_lem :
    (k : String) (cooldown : ℕ) (c : Call) (m : Dict String TrackerEntry)
    → (c.key == k) ≡ false
    → fired_at k cooldown c m ≡ (entry_or_new (lookup k m)).last_fired
unfolding track
other_lem k cooldown c m other =
    let e = counted c.window c.now (entry_or_new (lookup c.key m)) in
    let e' =
      if must_fire c.threshold cooldown c.now e then record e { last_fired = some c.now } else e in
    ground (arith, lookup-insert c.key k e' m, other)

past_lem :
    (cooldown : ℕ) (c : Call) (m : Dict String TrackerEntry)
    → (track c.key c.threshold c.window cooldown c.now m).0 ≡ true
    → is_past c.now cooldown (entry_or_new (lookup c.key m)).last_fired ≡ true
unfolding track must_fire
past_lem cooldown c m fires =
    ground (arith, counted_lem c.window c.now (entry_or_new (lookup c.key m)), fires)

-- What a call does to the time of the last firing of a key.
abbrev Answer : String → ℕ → Call → Dict String TrackerEntry → Type 0
Answer k cooldown c m =
    let fires = (track c.key c.threshold c.window cooldown c.now m).0 in
    let last = (entry_or_new (lookup k m)).last_fired in
    ((((c.key == k) && fires) ≡ true)
      × (is_past c.now cooldown last ≡ true)
      × (fired_at k cooldown c m ≡ some c.now))
    ⊎ ((((c.key == k) && fires) ≡ false) × (fired_at k cooldown c m ≡ last))

own_answer : (cooldown : ℕ) (c : Call) (m : Dict String TrackerEntry) → Answer c.key cooldown c m
own_answer cooldown c m = elim (Bool-cases (track c.key c.threshold c.window cooldown c.now m).0) [
  | inl fires ↦ inl (
    ground (arith, fires, beq_self c.key),
    past_lem cooldown c m fires,
    ground (arith, same_lem cooldown c m, fires),
  )
  | inr quiet ↦ inr (ground (arith, quiet), ground (arith, same_lem cooldown c m, quiet))
]

answer_to :
    (k : String) (cooldown : ℕ) (c : Call) (m : Dict String TrackerEntry) → Answer k cooldown c m
answer_to k cooldown c m = elim (Bool-cases (c.key == k)) [
  | inl same ↦
      subst (λ j. Answer j cooldown c m) ((str_iff c.key k).0 same) (own_answer cooldown c m)
  | inr other ↦ inr (ground (arith, other), other_lem k cooldown c m other)
]

-- Whatever calls of Track are made, with any keys, thresholds and windows but one cooldown: those
-- with the key `k` that answer true lie more than the cooldown apart, and the first of them more
-- than the cooldown after the last time the key fired before.
pub fired-IsSpaced :
    (k : String) (cooldown : ℕ) (cs : List Call) (m : Dict String TrackerEntry)
    → IsSpaced cooldown (entry_or_new (lookup k m)).last_fired (fired k cooldown cs m)
unfolding fired
fired-IsSpaced k cooldown [] m = tt
fired-IsSpaced k cooldown (c ∷ cs) m =
    let ts = fired k cooldown cs (after cooldown c m) in
    let later : IsSpaced cooldown (fired_at k cooldown c m) ts =
      fired-IsSpaced k cooldown cs (after cooldown c m) in
    elim (answer_to k cooldown c m) [
      | inl (h, past, new) ↦ rw (h) (past, subst (λ l. IsSpaced cooldown l ts) new later)
      | inr (h, old) ↦ rw (h) (subst (λ l. IsSpaced cooldown l ts) old later)
    ]
