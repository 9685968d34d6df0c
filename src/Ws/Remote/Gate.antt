-- ===== src/Ws/Remote/Gate.antt =====
-- remote_request.go, handleRemoteRequest up to the permission checks. A message to the source and a
-- log entry go with each refusal: both are the refusal's constructor here. A failed database read
-- acts as a missing row.
use foundryvtt_rest_api_rela.Base.{
  Bool, Option, String, eqb, false, if◌then◌else◌, lookup, ltb, nat_eq, none, not, some, string_eq,
  ℕ, ◌==◌, ◌||◌,
}
use foundryvtt_rest_api_rela.Base.Json.{Value, Members, Object}
use foundryvtt_rest_api_rela.Model.Scopes.{KnownClient, can_target, has_remote_scope}
use foundryvtt_rest_api_rela.Model.Catalogue.{scope_for_action}
use foundryvtt_rest_api_rela.Ws.Manager.Routing.{text_or_empty}
use foundryvtt_rest_api_rela.Ws.Remote.Rate.{RateBuckets, check_remote_request_rate}

pub record Request : Type 0 where
  pub request_id : String
  pub target_client_id : String
  pub action : String
  pub payload : Members
  pub auto_start : Bool

abbrev object_or_empty : Option Value → Members
object_or_empty (some (Value.obj o)) = o
object_or_empty _ = Members.empty

abbrev true_or_false : Option Value → Bool
true_or_false (some (Value.bool b)) = b
true_or_false _ = false

-- A field of another type reads as the empty value of its own.
unfoldable pub read_request : Object → Request
read_request msg = record {
  request_id = text_or_empty (lookup "requestId" msg);
  target_client_id = text_or_empty (lookup "targetClientId" msg);
  action = text_or_empty (lookup "action" msg);
  payload = object_or_empty (lookup "payload" msg);
  auto_start = true_or_false (lookup "autoStartIfOffline" msg);
}

pub record ConnectionToken : Type 0 where
  pub user_id : ℕ
  pub name : String

-- The rows that the handler reads, by token id, and by user and client id.
pub record Store : Type 0 where
  pub token : ℕ → Option ConnectionToken
  pub known : ℕ → String → Option KnownClient

pub data Refusal : Type 0 where
  missing_fields no_connection_token token_not_found world_not_registered self_target : Refusal
  target_not_allowed unknown_action scope_not_granted : String → Refusal
  rate_limited : ℕ → Refusal
  token_revoked target_not_owned : Refusal

-- A refusal carries the user and the token's name as far as the log knows them: 0 and empty before.
pub data Verdict : Type 0 where
  refused : Refusal → ℕ → String → Verdict
  admitted : ConnectionToken → KnownClient → Verdict

-- The last checks, on what the database holds by then.
unfoldable pub gate_target : Request → ℕ → ConnectionToken → Store → Verdict
gate_target r token_id t fresh = elim (fresh.token token_id) [
  | none ↦ refused token_revoked t.user_id t.name
  | some t' ↦ elim (fresh.known t'.user_id r.target_client_id) [
    | none ↦ refused target_not_owned t.user_id t.name
    | some k ↦ admitted t k
  ]
]

unfoldable pub gate_rate :
    Request → ℕ → ConnectionToken → KnownClient → Store → ℕ → RateBuckets → Verdict × RateBuckets
unfolding gate_target
gate_rate r token_id t kc fresh now buckets =
    let limit = kc.remote_requests_per_hour in
    let (allowed, buckets') = check_remote_request_rate kc.id limit now buckets in
    if not (ltb 0 limit)
    then (gate_target r token_id t fresh, buckets)
    else if allowed
    then (gate_target r token_id t fresh, buckets')
    else (refused (rate_limited limit) t.user_id t.name, buckets')

-- The permissions of the source world.
unfoldable pub gate_world :
    Request
    → String
    → ℕ
    → ConnectionToken
    → KnownClient
    → Store
    → ℕ
    → RateBuckets
    → Verdict × RateBuckets
unfolding gate_rate
gate_world r source token_id t kc fresh now buckets =
    let no : Refusal → Verdict × RateBuckets = λ why. (refused why t.user_id t.name, buckets) in
    if r.target_client_id == source
    then no self_target
    else if not (can_target kc r.target_client_id)
    then no (target_not_allowed r.target_client_id)
    else elim (scope_for_action r.action) [
      | none ↦ no (unknown_action r.action)
      | some scope ↦
          if not (has_remote_scope kc scope)
          then no (scope_not_granted scope)
          else gate_rate r token_id t kc fresh now buckets
    ]

-- `source` and `token_id` are those of the client that asks. The store is read at first, and again
-- after the rate check.
unfoldable pub gate : Request → String → ℕ → Store → Store → ℕ → RateBuckets → Verdict × RateBuckets
unfolding gate_world
gate r source token_id first fresh now buckets =
    if r.request_id == "" || r.target_client_id == "" || r.action == ""
    then (refused missing_fields 0 "", buckets)
    else if eqb token_id 0
    then (refused no_connection_token 0 "", buckets)
    else elim (first.token token_id) [
      | none ↦ (refused token_not_found 0 "", buckets)
      | some t ↦ elim (first.known t.user_id source) [
        | none ↦ (refused world_not_registered t.user_id t.name, buckets)
        | some kc ↦ gate_world r source token_id t kc fresh now buckets
      ]
    ]
