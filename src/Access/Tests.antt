-- ===== src/Access/Tests.antt =====
-- middleware/auth.go at concrete inputs.
use foundryvtt_rest_api_rela.Base.{
  List, [], arith, eqb, false, if◌then◌else◌, lookup, nat_eq, none, refl, some, string_eq, true, ℕ,
  ◌+◌, ◌<◌, ◌==◌, ◌↔◌, ◌∷◌, ◌≡◌, ◌≢◌, ◌≤◌,
}
use foundryvtt_rest_api_rela.Ws.Client.{Connection, new_client}
use foundryvtt_rest_api_rela.Ws.Manager.Defs.{Manager, new_manager}
use foundryvtt_rest_api_rela.Access.Cache.{
  User, ApiKey, AuthCache, get_cached_auth, invalidate_cached_auth,
}
use foundryvtt_rest_api_rela.Access.Context.{
  absent, found, Db, HttpRequest, next, or_empty, key_context,
}
use foundryvtt_rest_api_rela.Access.Auth.{
  has_bearer_header, refuse_client, is_expired, over_limit, limit_exceeded, flags_refused,
  auth_by_store, authenticate,
}
use foundryvtt_rest_api_rela.Access.AuthLaws.{MayCall, auth_by_store_exact}
use foundryvtt_rest_api_rela.Access.Caching.{IsCoherent, InTime, cache_transparent}
use foundryvtt_rest_api_rela.Access.Coherence.{Call, requests, prunes, run, run-IsCoherent}
use foundryvtt_rest_api_rela.Access.Revocation.{revoked_key_refused}
use foundryvtt_rest_api_rela.Access.Lockout.{AdminLockoutTracker, new_admin_lockout_tracker}
use foundryvtt_rest_api_rela.Access.MonthlyLimit.{limit_bypassed}

connection : Connection
connection = record {
  remote_addr = "";
  id = "";
  token = "";
  token_name = "";
  world_id = "";
  world_title = "";
  foundry_version = "";
  system_id = "";
  system_title = "";
  system_version = "";
  custom_name = "";
  public_url = "";
}

manager : Manager
manager = new_manager false "relay-1" (λ _. new_client connection 0)

owner : User
owner = record {
  id = 7;
  api_key_hash = some "account_key_hash";
  email_verified = true;
  api_key_rotation_required = false;
  disabled = false;
  subscription_status = none;
  requests_this_month = 0;
}

key : ApiKey
key = record {
  id = 3;
  key = "0123456789";
  user_id = 7;
  enabled = true;
  expires_at = none;
  scopes = "search";
  scoped_client_id = none;
  scoped_client_ids = none;
  monthly_limit = none;
  requests_this_month = 12;
}

spent : ApiKey
spent = record key { monthly_limit = some 10 }

-- A database of one key and its owner.
db_of : ApiKey → User → Db
db_of k u = record {
  find_session = λ _. absent;
  find_user = λ id. if eqb id 7 then found u else absent;
  find_by_key = λ s. if s == "0123456789" then found k else absent;
  find_known = λ _ _. absent;
}

request : HttpRequest
request = record { authorization = ""; x_api_key = "0123456789"; client_id = "" }

empty : AuthCache
empty = record { entries = []; ttl = 60 }

no_bearer : has_bearer_header request ≡ false
unfolding request has_bearer_header
no_bearer = refl

given : (request.x_api_key == "") ≡ false
unfolding request
given = refl

nothing_cached : get_cached_auth request.x_api_key 100 empty ≡ none
unfolding request empty get_cached_auth lookup
nothing_cached = refl

key_found : (k : ApiKey) (u : User) → (db_of k u).find_by_key request.x_api_key ≡ found k
unfolding db_of request
key_found k u = refl

owner_found : (k : ApiKey) (u : User) → (db_of k u).find_user 7 ≡ found u
unfolding db_of
owner_found k u = refl

any_client :
    (k : ApiKey) (u : User)
    → refuse_client (db_of k u) false manager 7 "account_key_hash" request.client_id ≡ none
unfolding request refuse_client
any_client k u = refl

spent_owner : (db_of spent owner).find_user spent.user_id ≡ found owner
unfolding spent key
spent_owner = owner_found spent owner

spent_on : spent.enabled ≡ true
unfolding spent key
spent_on = refl

spent_current : is_expired 100 spent ≡ false
unfolding spent key
spent_current = refl

spent_over : over_limit spent ≡ true
unfolding spent key
spent_over = refl

in_order : flags_refused owner ≡ none
unfolding owner
in_order = refl

spent_client :
    refuse_client
      (db_of spent owner)
      false
      manager
      owner.id
      (or_empty owner.api_key_hash)
      request.client_id
    ≡ none
unfolding owner
spent_client = any_client spent owner

soon : 130 ≤ 100 + empty.ttl
unfolding empty
soon = omega arith

limit_bypassed_example :
    let (answer, c') = authenticate (db_of spent owner) false manager request 100 empty in
    (answer ≡ limit_exceeded)
    × ((authenticate (db_of spent owner) false manager request 130 c').0
        ≡ next (key_context owner spent))
limit_bypassed_example =
    limit_bypassed (db_of spent owner) false manager request 100 130 spent owner empty no_bearer
      given nothing_cached (key_found spent owner) spent_on spent_current spent_owner in_order
      spent_client spent_over soon

empty-IsCoherent : (db : Db) → IsCoherent db empty
unfolding empty lookup
empty-IsCoherent db = record { distinct = tt; backed = λ k e h. absurd (ground (arith, h)) }

calls : List Call
calls = requests false manager request 100 ∷ prunes 120 ∷ requests false manager request 130 ∷ []

calls-IsCoherent : IsCoherent (db_of key owner) (run (db_of key owner) calls empty)
calls-IsCoherent = run-IsCoherent (db_of key owner) calls empty (empty-IsCoherent (db_of key owner))

run-IsCoherent_example : IsCoherent (db_of key owner) (run (db_of key owner) calls empty)
run-IsCoherent_example =
    run-IsCoherent (db_of key owner) calls empty (empty-IsCoherent (db_of key owner))

key-InTime : InTime (db_of key owner) request.x_api_key 130
unfolding db_of request key
key-InTime k h = ground (arith, h)

cache_transparent_example :
    (authenticate (db_of key owner) false manager request 130 (run (db_of key owner) calls empty)).0
    ≡ (authenticate (db_of key owner) false manager request 130 empty).0
cache_transparent_example =
    cache_transparent (db_of key owner) false manager request 130
      (run (db_of key owner) calls empty) empty calls-IsCoherent
      (empty-IsCoherent (db_of key owner)) key-InTime

auth_by_store_exact_example :
    ((auth_by_store (db_of key owner) false manager request 100 empty).0
      ≡ next (key_context owner key))
    ↔ ((k : ApiKey) × (u : User) × MayCall (db_of key owner) false manager request 100 k u
        × (key_context owner key ≡ key_context u k))
auth_by_store_exact_example =
    auth_by_store_exact (db_of key owner) false manager request 100 empty (key_context owner key)

revoked : ApiKey
revoked = record key { enabled = false }

all_revoked :
    (k : ApiKey) → (db_of revoked owner).find_by_key request.x_api_key ≡ found k → k.enabled ≡ false
unfolding db_of request revoked key
all_revoked k h = ground (arith, h)

revoked_key_refused_example :
    (authenticate
      (db_of revoked owner)
      false
      manager
      request
      130
      (invalidate_cached_auth request.x_api_key (run (db_of key owner) calls empty))).0
    ≢ next (key_context owner key)
revoked_key_refused_example =
    revoked_key_refused (db_of revoked owner) false manager request 130
      (run (db_of key owner) calls empty) (key_context owner key) no_bearer all_revoked

key_owner : (u : User) → (db_of key u).find_user key.user_id ≡ found u
unfolding key
key_owner u = owner_found key u

nobody_failed : AdminLockoutTracker
nobody_failed = new_admin_lockout_tracker 3 1800

threshold_set : 0 < nobody_failed.threshold
unfolding nobody_failed new_admin_lockout_tracker
threshold_set = omega arith

no_failures : lookup "gm@example.org" nobody_failed.state ≡ none
unfolding nobody_failed new_admin_lockout_tracker lookup
no_failures = refl

abbrev more_failures : List ℕ
more_failures = 200 ∷ 300 ∷ []
