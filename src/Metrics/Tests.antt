-- ===== src/Metrics/Tests.antt =====
-- rolling.go at concrete inputs.
use foundryvtt_rest_api_rela.Base.{List, [], arith, ◌*◌, ◌/◌, ◌∷◌, ◌≡◌}
use foundryvtt_rest_api_rela.Metrics.RingLaws.{number, in_window}
use foundryvtt_rest_api_rela.Metrics.Window.{Ascending, last_unit}
use foundryvtt_rest_api_rela.Metrics.Rolling.{
  minute, hour, day, new_rolling, overview, Hit, record_all,
}
use foundryvtt_rest_api_rela.Metrics.RollingLaws.{in_units, instants, overview-record_all}

-- Three requests: at once, after ten minutes, and after two hours.
abbrev hits : List Hit
hits =
    record { user_id = 7; endpoint = "/search"; status = 200; now = 5 * minute }
    ∷ record { user_id = 7; endpoint = "/search"; status = 500; now = 15 * minute }
    ∷ record { user_id = 0; endpoint = "/get"; status = 200; now = 2 * hour }
    ∷ []

hits-Ascending : Ascending minute (instants hits)
hits-Ascending = ground arith

overview-record_all_example :
    let o = overview (record_all hits (new_rolling minute)) in
    let ts = instants hits in
    let last = last_unit minute ts in
    (o.requests_per_minute ≡ number (in_window 60 (last / minute)) (in_units minute ts))
    × (o.requests_per_hour ≡ number (in_window 24 (last / hour)) (in_units hour ts))
    × (o.requests_per_day ≡ number (in_window 30 (last / day)) (in_units day ts))
overview-record_all_example = overview-record_all minute hits hits-Ascending
