-- ===== src/Alerts.antt =====
-- alerts/alerts.go: the spike tracker, the buffer of recent events and the choice of destinations.
-- A call of Track holds the lock of its entry and one of Fire the lock of the buffer, so each is
-- one step at the clock `now`. The stored configuration and subscriptions are read from the
-- database: `none` where the read fails or there is no database.
use foundryvtt_rest_api_rela.Base.{
  Bool, Dict, List, Object, Option, String, [], drop, if◌then◌else◌, insert, leb, length, lookup,
  ltb, nat_eq, none, some, string_eq, true, ℕ, ◌&&◌, ◌++◌, ◌+◌, ◌-◌, ◌==◌, ◌∷◌,
}
pub mod Laws
pub mod Recent
pub mod Tests

pub record Event : Type 0 where
  pub kind : String
  pub severity : String
  pub message : String
  pub details : Object
  pub timestamp : Option ℕ

pub record RecentEvents : Type 0 where
  pub events : List Event
  pub max : ℕ

abbrev pub no_events : RecentEvents
no_events = record { events = []; max = 200 }

-- The zero times of Go, which lie before every instant read, are `none`.
pub record TrackerEntry : Type 0 where
  pub count : ℕ
  pub window_end : Option ℕ
  pub last_fired : Option ℕ

-- `now.After(t.Add(d))`
abbrev pub is_past : ℕ → ℕ → Option ℕ → Bool
is_past now d none = true
is_past now d (some t) = ltb (t + d) now

abbrev pub entry_or_new : Option TrackerEntry → TrackerEntry
entry_or_new none = record { count = 0; window_end = none; last_fired = none }
entry_or_new (some e) = e

-- The entry after the window is renewed, where it is over, and the call is counted.
unfoldable pub counted : ℕ → ℕ → TrackerEntry → TrackerEntry
counted window now e =
    if is_past now 0 e.window_end
    then record e { count = 1; window_end = some (now + window) }
    else record e { count = e.count + 1 }

unfoldable pub must_fire : ℕ → ℕ → ℕ → TrackerEntry → Bool
must_fire threshold cooldown now e = leb threshold e.count && is_past now cooldown e.last_fired

unfoldable pub track :
    String → ℕ → ℕ → ℕ → ℕ → Dict String TrackerEntry → Bool × Dict String TrackerEntry
track key threshold window cooldown now m =
    let e = counted window now (entry_or_new (lookup key m)) in
    let fires = must_fire threshold cooldown now e in
    (fires, insert key (if fires then record e { last_fired = some now } else e) m)

unfoldable pub stamped : ℕ → Event → Event
stamped now event = elim event.timestamp [
  | none ↦ record event { timestamp = some now }
  | some t ↦ event
]

unfoldable pub remember : Event → RecentEvents → RecentEvents
remember event r =
    let events' = r.events ++ event ∷ [] in
    if ltb r.max (length events')
    then record r { events = drop (length events' - r.max) events' }
    else record r { events = events' }

pub record AlertConfig : Type 0 where
  pub discord_webhook_url : String
  pub email_destination : String

-- One message for `dispatch`.
pub record Dispatch : Type 0 where
  pub destination : String
  pub channel : String
  pub event : Event

unfoldable pub destination_of : AlertConfig → String → String
destination_of cfg channel =
    if channel == "discord"
    then cfg.discord_webhook_url
    else if channel == "email"
    then cfg.email_destination
    else ""

unfoldable pub dispatches : AlertConfig → Event → List String → List Dispatch
unfolding destination_of
dispatches cfg event [] = []
dispatches cfg event (channel ∷ subs) =
    let rest = dispatches cfg event subs in
    let dest = destination_of cfg channel in
    if dest == ""
    then rest
    else record { destination = dest; channel = channel; event = event } ∷ rest

-- `subs` gives the channels subscribed to an alert type.
unfoldable pub receivers :
    Option AlertConfig → (String → Option (List String)) → Event → List Dispatch
receivers none subs event = []
receivers (some cfg) subs event = elim (subs event.kind) [
  | none ↦ []
  | some channels ↦ dispatches cfg event channels
]

unfoldable pub fire :
    ℕ
    → Option AlertConfig
    → (String → Option (List String))
    → Event
    → RecentEvents
    → List Dispatch × RecentEvents
fire now config subs event r =
    let event' = stamped now event in (receivers config subs event', remember event' r)
