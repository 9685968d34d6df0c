-- ===== src/Alerts/Tests.antt =====
-- alerts/alerts.go at concrete inputs.
use foundryvtt_rest_api_rela.Base.{
  Dict, List, Option, String, [], insert, lookup, map, nat_eq, none, refl, some, string_eq, ℕ, ◌∷◌,
  ◌≡◌,
}
use foundryvtt_rest_api_rela.Alerts.{
  Event, AlertConfig, TrackerEntry, no_events, entry_or_new, fire, track, counted, must_fire,
  stamped, destination_of, dispatches, receivers,
}
use foundryvtt_rest_api_rela.Alerts.Laws.{Call, IsSpaced, fired, fired-IsSpaced}

abbrev failures : List Call
failures =
    record { key = "auth:1"; threshold = 2; window = 60; now = 100 }
    ∷ record { key = "auth:1"; threshold = 2; window = 60; now = 110 }
    ∷ record { key = "auth:2"; threshold = 2; window = 60; now = 115 }
    ∷ record { key = "auth:1"; threshold = 2; window = 60; now = 120 }
    ∷ record { key = "auth:1"; threshold = 2; window = 60; now = 150 }
    ∷ []

abbrev nothing_tracked : Dict String TrackerEntry
nothing_tracked = []

-- The second call reaches the threshold, the third falls into the cooldown, the fourth fires again.
fired_twice : fired "auth:1" 30 failures nothing_tracked ≡ 110 ∷ 150 ∷ []
unfolding fired track counted must_fire lookup insert
fired_twice = refl

fired-IsSpaced_example :
    IsSpaced 30
      (entry_or_new (lookup "auth:1" nothing_tracked)).last_fired
      (fired "auth:1" 30 failures nothing_tracked)
fired-IsSpaced_example = fired-IsSpaced "auth:1" 30 failures nothing_tracked

abbrev admin_login : Event
admin_login = record {
  kind = "admin_login";
  severity = "info";
  message = "signed in";
  details = [];
  timestamp = none;
}

abbrev webhook_only : AlertConfig
webhook_only = record {
  discord_webhook_url = "https://discord.example/hook";
  email_destination = "";
}

abbrev both_channels : String → Option (List String)
both_channels kind = some ("discord" ∷ "email" ∷ [])

-- A channel without a destination is passed over.
sent_to_webhook :
    map (λ d. d.channel) (fire 50 (some webhook_only) both_channels admin_login no_events).0
    ≡ "discord" ∷ []
unfolding fire stamped receivers dispatches destination_of
sent_to_webhook = refl

abbrev two_logins : List (ℕ × Event)
two_logins = (50, admin_login) ∷ (60, admin_login) ∷ []
