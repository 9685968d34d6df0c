-- ===== src/Metrics/RollingLaws.antt =====
-- rolling.go: what the overview reports.
use native.Mathlib.Nat.{le-div_iff_mul-le, div-mul-le_self}
use foundryvtt_rest_api_rela.Base.{List, [], arith, refl, subst, ℕ, ◌/◌, ◌<◌, ◌∷◌, ◌≡◌, ◌≤◌}
use foundryvtt_rest_api_rela.Metrics.Ring.{new_ring, sum}
use foundryvtt_rest_api_rela.Metrics.RingLaws.{number, in_window}
use foundryvtt_rest_api_rela.Metrics.Window.{
  count_requests, Ascending, last_unit, sum-count_requests,
}
use foundryvtt_rest_api_rela.Metrics.Rolling.{
  Rolling, minute, hour, day, new_rolling, record_request, overview, record_all, Hit,
}

-- The units of instants.
abbrev pub in_units : ℕ → List ℕ → List ℕ
in_units unit [] = []
in_units unit (t ∷ ts) = t / unit ∷ in_units unit ts

div_mono : (unit a b : ℕ) → 0 < unit → a ≤ b → a / unit ≤ b / unit
div_mono unit a b h k = (le-div_iff_mul-le h).1 (omega (arith, k, div-mul-le_self a unit))

in_units-Ascending :
    (unit start : ℕ) (ts : List ℕ)
    → 0 < unit
    → Ascending start ts
    → Ascending (start / unit) (in_units unit ts)
in_units-Ascending unit start [] h up = tt
in_units-Ascending unit start (t ∷ ts) h (k, up) =
    (div_mono unit start t h k, in_units-Ascending unit t ts h up)

last_unit-in_units :
    (unit start : ℕ) (ts : List ℕ)
    → last_unit (start / unit) (in_units unit ts) ≡ last_unit start ts / unit
last_unit-in_units unit start [] = refl
last_unit-in_units unit start (t ∷ ts) = last_unit-in_units unit t ts

abbrev pub instants : List Hit → List ℕ
instants [] = []
instants (h ∷ hs) = h.now ∷ instants hs

record_all_lem :
    (hs : List Hit) (r : Rolling)
    → ((record_all hs r).minutes ≡ count_requests 60 (in_units minute (instants hs)) r.minutes)
      × ((record_all hs r).hours ≡ count_requests 24 (in_units hour (instants hs)) r.hours)
      × ((record_all hs r).days ≡ count_requests 30 (in_units day (instants hs)) r.days)
unfolding record_all record_request count_requests
record_all_lem [] r = (refl, refl, refl)
record_all_lem (h ∷ hs) r = record_all_lem hs (record_request h.user_id h.endpoint h.status h.now r)

-- A ring of `size` buckets of `unit`, after requests at the given instants.
windowed :
    (size unit start : ℕ) (ts : List ℕ)
    → 0 < size
    → 0 < unit
    → Ascending start ts
    → sum size (count_requests size (in_units unit ts) (new_ring (start / unit))).buckets
      ≡ number (in_window size (last_unit start ts / unit)) (in_units unit ts)
windowed size unit start ts h k up =
    subst
      (λ last.
        sum size (count_requests size (in_units unit ts) (new_ring (start / unit))).buckets
        ≡ number (in_window size last) (in_units unit ts))
      (last_unit-in_units unit start ts)
      (sum-count_requests size (start / unit) (in_units unit ts) h
        (in_units-Ascending unit start ts k up))

-- While the clock does not go back, the overview gives the number of requests in the last 60
-- minutes, 24 hours and 30 days before the latest request, each unit counted whole: its requests per
-- minute are those of an hour, its requests per hour those of a day, its requests per day those of
-- 30 days.
pub overview-record_all :
    (start : ℕ) (hs : List Hit)
    → Ascending start (instants hs)
    → let o = overview (record_all hs (new_rolling start)) in
      let ts = instants hs in
      let last = last_unit start ts in
      (o.requests_per_minute ≡ number (in_window 60 (last / minute)) (in_units minute ts))
      × (o.requests_per_hour ≡ number (in_window 24 (last / hour)) (in_units hour ts))
      × (o.requests_per_day ≡ number (in_window 30 (last / day)) (in_units day ts))
unfolding overview new_rolling
overview-record_all start hs up =
    let (m, h, d) = record_all_lem hs (new_rolling start) in
    (
      rw m (windowed 60 minute start (instants hs) (omega arith) (omega arith) up),
      rw h (windowed 24 hour start (instants hs) (omega arith) (omega arith) up),
      rw d (windowed 30 day start (instants hs) (omega arith) (omega arith) up),
    )
