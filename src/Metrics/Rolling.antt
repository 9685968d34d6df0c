-- ===== src/Metrics/Rolling.antt =====
-- rolling.go: the tracker with its three rings. The lock makes each method one step; `now` is the
-- clock in nanoseconds from the zero time, so that truncating it is division. The sorted reports
-- ByEndpoint and TopConsumers are not modelled.
use foundryvtt_rest_api_rela.Base.{
  Bool, Dict, List, String, [], any, codes, eqb, false, if◌then◌else◌, leb, ltb, nat_eq, not, raise,
  string_eq, true, ℕ, ◌&&◌, ◌*◌, ◌+◌, ◌/◌, ◌==◌, ◌∷◌,
}
use foundryvtt_rest_api_rela.Metrics.Ring.{Ring, new_ring, count_request, sum}

pub record Rolling : Type 0 where
  pub minutes : Ring
  pub hours : Ring
  pub days : Ring
  pub by_user : Dict ℕ ℕ
  pub by_endpoint : Dict String ℕ
  pub errors_total : ℕ

abbrev pub minute : ℕ
minute = 60 * 1000000000

abbrev pub hour : ℕ
hour = 60 * minute

abbrev pub day : ℕ
day = 24 * hour

unfoldable pub new_rolling : ℕ → Rolling
new_rolling now = record {
  minutes = new_ring (now / minute);
  hours = new_ring (now / hour);
  days = new_ring (now / day);
  by_user = [];
  by_endpoint = [];
  errors_total = 0;
}

abbrev starts_with : List ℕ → List ℕ → Bool
starts_with [] s = true
starts_with (c ∷ p) [] = false
starts_with (c ∷ p) (d ∷ s) = eqb c d && starts_with p s

abbrev excluded : List String
excluded =
    "/api" ∷ "/auth" ∷ "/admin" ∷ "/ws" ∷ "/relay" ∷ "/_" ∷ "/docs" ∷ "/privacy" ∷ "/static" ∷ []

unfoldable pub is_foundry_api_path : String → Bool
is_foundry_api_path path =
    not (any (λ prefix. starts_with (codes prefix) (codes path)) excluded)
    && not (path == "")
    && not (path == "unknown")

-- A user id of 0 is no user; the parameter is never below 0.
unfoldable pub record_request : ℕ → String → ℕ → ℕ → Rolling → Rolling
record_request user_id endpoint status now r = record {
  minutes = count_request 60 (now / minute) r.minutes;
  hours = count_request 24 (now / hour) r.hours;
  days = count_request 30 (now / day) r.days;
  by_user = if ltb 0 user_id then raise user_id r.by_user else r.by_user;
  by_endpoint =
      if is_foundry_api_path endpoint then raise endpoint r.by_endpoint else r.by_endpoint;
  errors_total = if leb 500 status then r.errors_total + 1 else r.errors_total;
}

pub record Overview : Type 0 where
  pub requests_per_minute : ℕ
  pub requests_per_hour : ℕ
  pub requests_per_day : ℕ
  pub errors_total : ℕ

unfoldable pub overview : Rolling → Overview
overview r = record {
  requests_per_minute = sum 60 r.minutes.buckets;
  requests_per_hour = sum 24 r.hours.buckets;
  requests_per_day = sum 30 r.days.buckets;
  errors_total = r.errors_total;
}

unfoldable pub export_counts : Rolling → Dict String ℕ × Dict ℕ ℕ × ℕ
export_counts r = (r.by_endpoint, r.by_user, r.errors_total)

unfoldable pub import_counts : Dict String ℕ → Dict ℕ ℕ → ℕ → Rolling → Rolling
import_counts by_endpoint by_user errors_total r = record r {
  by_endpoint = by_endpoint;
  by_user = by_user;
  errors_total = errors_total;
}

-- A request as the middleware reports it, with the clock at that time.
pub record Hit : Type 0 where
  pub user_id : ℕ
  pub endpoint : String
  pub status : ℕ
  pub now : ℕ

unfoldable pub record_all : List Hit → Rolling → Rolling
record_all [] r = r
record_all (h ∷ hs) r = record_all hs (record_request h.user_id h.endpoint h.status h.now r)
