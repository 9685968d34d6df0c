-- ===== src/Alerts/Recent.antt =====
-- alerts/alerts.go: Fire keeps the last events, as many as the buffer holds.
use foundryvtt_rest_api_rela.Base.{
  Bool-cases, List, Option, String, [], ap, arith, drop, inl, inr, length, length-append,
  length-drop, ltb, refl, suc, zero, ℕ, ◌++◌, ◌+◌, ◌-◌, ◌∷◌, ◌≡◌, ◌≤◌,
}
use mathlib.Core.List.{append_assoc, append-nil}
use foundryvtt_rest_api_rela.Alerts.{
  Event, RecentEvents, remember, stamped, fire, AlertConfig, no_events,
}

module _ {ℓ} {A : Type ℓ} where
  drop-append : (n : ℕ) (xs ys : List A) → n ≤ length xs → drop n xs ++ ys ≡ drop n (xs ++ ys)
  drop-append zero xs ys h = refl
  drop-append (suc n) [] ys h = absurd (omega (arith, h))
  drop-append (suc n) (x ∷ xs) ys h = drop-append n xs ys (omega (arith, h))

  drop-drop : (a b n : ℕ) (xs : List A) → n ≡ b + a → drop a (drop b xs) ≡ drop n xs
  drop-drop a zero n xs h = ap (λ m. drop m xs) (omega (arith, h))
  drop-drop a (suc b) zero xs h = absurd (omega (arith, h))
  drop-drop zero (suc b) (suc n) [] h = refl
  drop-drop (suc a) (suc b) (suc n) [] h = refl
  drop-drop a (suc b) (suc n) (x ∷ xs) h = drop-drop a b n xs (omega (arith, h))

module _ (config : Option AlertConfig) (subs : String → Option (List String)) where
  -- Fire at each of the instants, with its event.
  unfoldable pub fire_all : List (ℕ × Event) → RecentEvents → RecentEvents
  fire_all [] r = r
  fire_all ((now, event) ∷ fs) r = fire_all fs (fire now config subs event r).1

abbrev pub stamped_all : List (ℕ × Event) → List Event
stamped_all [] = []
stamped_all ((now, event) ∷ fs) = stamped now event ∷ stamped_all fs

-- The last `max` of the events.
last_events : ℕ → List Event → List Event
last_events max es = drop (length es - max) es

remember_lem :
    (event : Event) (r : RecentEvents)
    → remember event r ≡ record r { events = last_events r.max (r.events ++ event ∷ []) }
unfolding remember last_events
remember_lem event r = elim (Bool-cases (ltb r.max (length (r.events ++ event ∷ [])))) [
  | inl over ↦ ground (arith, over)
  | inr room ↦
      let none_over : length (r.events ++ event ∷ []) - r.max ≡ 0 = ground (arith, room) in
      rw (room, none_over) refl
]

last_events_all : (max : ℕ) (es : List Event) → length es ≤ max → last_events max es ≡ es
unfolding last_events
last_events_all max es h =
    let none_over : length es - max ≡ 0 = omega (arith, h) in rw (none_over) refl

last_events_twice :
    (max : ℕ) (xs ys : List Event)
    → last_events max (last_events max xs ++ ys) ≡ last_events max (xs ++ ys)
unfolding last_events
last_events_twice max xs ys =
    let over = length xs - max in
    rw (drop-append over xs ys (omega arith)) (
      drop-drop (length (drop over (xs ++ ys)) - max) over (length (xs ++ ys) - max) (xs ++ ys)
        (omega (arith, length-drop over (xs ++ ys), length-append xs ys)))

length-stamped_all : (fs : List (ℕ × Event)) → length (stamped_all fs) ≡ length fs
length-stamped_all [] = refl
length-stamped_all ((now, event) ∷ fs) = ap (λ n. suc n) (length-stamped_all fs)

abbrev kept_after : Event → RecentEvents → RecentEvents
kept_after event r = record r { events = last_events r.max (r.events ++ event ∷ []) }

kept_after-le : (event : Event) (r : RecentEvents) → length (kept_after event r).events ≤ r.max
unfolding last_events
kept_after-le event r =
    let es = r.events ++ event ∷ [] in omega (arith, length-drop (length es - r.max) es)

fire_lem :
    (config : Option AlertConfig) (subs : String → Option (List String)) (now : ℕ) (event : Event)
    (r : RecentEvents)
    → (fire now config subs event r).1 ≡ kept_after (stamped now event) r
unfolding fire
fire_lem config subs now event r = remember_lem (stamped now event) r

module _ (config : Option AlertConfig) (subs : String → Option (List String)) where
  fire_all_lem :
      (fs : List (ℕ × Event)) (r : RecentEvents)
      → length r.events ≤ r.max
      → fire_all config subs fs r
        ≡ record r { events = last_events r.max (r.events ++ stamped_all fs) }
  unfolding fire_all
  fire_all_lem [] r h = rw (append-nil r.events, last_events_all r.max r.events h) refl
  fire_all_lem ((now, event) ∷ fs) r h =
      let e = stamped now event in
      rw
        (
          fire_lem config subs now event r,
          fire_all_lem fs (kept_after e r) (kept_after-le e r),
          last_events_twice r.max (r.events ++ e ∷ []) (stamped_all fs),
          append_assoc r.events (e ∷ []) (stamped_all fs),
        )
        refl

  -- After any alerts have been fired, RecentEvents holds the last 200 of them, oldest first, each
  -- with its own time or the time of the call; what is configured and subscribed does not matter.
  pub recent_events-fire_all :
      (fs : List (ℕ × Event))
      → fire_all config subs fs no_events
        ≡ record no_events { events = drop (length fs - 200) (stamped_all fs) }
  unfolding last_events
  recent_events-fire_all fs =
      rw (fire_all_lem fs no_events (omega arith), length-stamped_all fs) refl
