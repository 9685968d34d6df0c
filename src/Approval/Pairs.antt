-- ===== src/Approval/Pairs.antt =====
-- handler/pair_request.go: a world asks to be paired, a signed-in user approves it with cross-world
-- settings, and the module polls for the pairing code. Requests for one code are taken to arrive one
-- after another.
pub mod Wildcard
use foundryvtt_rest_api_rela.Base.{
  Bool, List, Option, String, [], contains, false, find_row, if◌then◌else◌, insert, is_some, ltb,
  map_rows, nat_eq, none, not, select, some, string_eq, suc, true, ℕ, ◌&&◌, ◌&◌, ◌+◌, ◌==◌, ◌||◌,
  ◌∷◌,
}
use foundryvtt_rest_api_rela.Model.Scopes.{scopes_string, parse_scopes}
use foundryvtt_rest_api_rela.Model.Catalogue.{validate_scopes}
use foundryvtt_rest_api_rela.Approval.Status.{
  Status, pending, approved, denied, exchanged, expired, is_pending, approves,
}
use foundryvtt_rest_api_rela.Approval.Worlds.{
  World, PairingCode, PairRequest, PairTables, pointer_of, find_world, is_client, is_world,
  set_cross_world_settings, create_code, filled, minutes,
}

-- Which calls of the stores fail.
pub record Faults : Type 0 where
  pub finds : Bool
  pub finds_world : Bool
  pub creates : Bool
  pub creates_code : Bool
  pub sets : Bool
  pub approves : Bool
  pub marks : Bool

pub data Reply : Type 0 where
  error : ℕ → String → Reply
  created : String → Bool → ℕ → Reply
  status_is : ℕ → Status → Reply
  upgraded : Bool → Reply
  pairing_code : String → Reply
  retrieved : Reply
  success : Bool → Reply
  message : String → Reply

unfoldable pub find_request : Faults → String → PairTables → Option (ℕ × PairRequest)
find_request f code t = if f.finds then none else find_row (λ r. r.code == code) t.requests

unfoldable pub set_status : Faults → ℕ → PairRequest → Status → PairTables → PairTables
set_status f id r s t =
    if f.marks then t else record t { requests = insert id (record r { status = s }) t.requests }

pub record NewPair : Type 0 where
  pub client_id : String
  pub world_id : String
  pub world_title : String
  pub requested_remote_scopes : List String
  pub requested_target_clients : List String
  pub upgrade_only : Bool

-- The wildcard is stripped from what a module asks for.
unfoldable pub without_wildcard : List String → List String
without_wildcard targets = select (λ t. not (t == "*")) targets

abbrev pub csv_or_null : List String → Option String
csv_or_null [] = none
csv_or_null (s ∷ ss) = some (scopes_string (s ∷ ss))

unfoldable pub new_request : NewPair → String → ℕ → PairRequest
new_request b code now = record {
  code = code;
  client_id = b.client_id;
  world_id = b.world_id;
  world_title = b.world_title;
  requested_remote_scopes = csv_or_null b.requested_remote_scopes;
  requested_target_clients = csv_or_null (without_wildcard b.requested_target_clients);
  upgrade_only = b.upgrade_only;
  status = pending;
  pairing_code = none;
  user_id = none;
  expires_at = now + minutes 10;
}

-- What the approval page shows as the targets that the world asks for.
unfoldable pub shown_targets : PairRequest → List String
shown_targets r = elim r.requested_target_clients [ none ↦ [] | some csv ↦ parse_scopes csv ]

unfoldable pub create_request : Faults → PairRequest → PairTables → Option PairTables
create_request f r t =
    if f.creates
    then none
    else if is_some (find_row (λ q. q.code == r.code) t.requests)
    then none
    else some (record t {
      requests = insert t.next_request r t.requests;
      next_request = suc t.next_request;
    })

-- POST /auth/pair-request. `body` is `none` where it does not decode.
unfoldable pub request_pair :
    Faults → Option NewPair → Option String → ℕ → PairTables → Reply × PairTables
request_pair f none code now t = (error 400 "Invalid request body", t)
request_pair f (some b) code now t =
    if b.world_id == ""
    then (error 400 "worldId is required", t)
    else if not (validate_scopes b.requested_remote_scopes == "")
    then (error 400 ("Invalid scope: " & validate_scopes b.requested_remote_scopes), t)
    else elim code [
      | none ↦ (error 500 "Failed to generate code", t)
      | some c ↦ elim (create_request f (new_request b c now) t) [
        | none ↦ (error 500 "Failed to create pair request", t)
        | some t' ↦ (created c b.upgrade_only (now + minutes 10), t')
      ]
    ]

abbrev pub reply_of_approved : Bool → Option String → Reply
reply_of_approved true code = upgraded true
reply_of_approved false none = upgraded false
reply_of_approved false (some code) = pairing_code code

abbrev pub reply_to_poll : Faults → ℕ → PairRequest → Status → PairTables → Reply × PairTables
reply_to_poll f id r pending t = (status_is 200 pending, t)
reply_to_poll f id r approved t =
    (reply_of_approved r.upgrade_only r.pairing_code, set_status f id r exchanged t)
reply_to_poll f id r exchanged t = (retrieved, t)
reply_to_poll f id r denied t = (status_is 200 denied, t)
reply_to_poll f id r expired t = (status_is 410 expired, t)

-- GET /auth/pair-request/{code}/status
unfoldable pub pair_status : Faults → String → ℕ → PairTables → Reply × PairTables
pair_status f code now t = elim (find_request f code t) [
  | none ↦ (error 404 "Pair request not found", t)
  | some (id, r) ↦
      if ltb r.expires_at now && is_pending r.status
      then (status_is 410 expired, t)
      else reply_to_poll f id r r.status t
]

pub record Approval : Type 0 where
  pub remote_scopes : List String
  pub allowed_target_clients : List String
  pub remote_requests_per_hour : ℕ

-- The world's row: by its client id if the request has one, else by its world id.
unfoldable pub find_existing : Faults → ℕ → PairRequest → PairTables → Option (ℕ × World)
find_existing f user_id r t =
    let by_client =
      pointer_of (find_world f.finds_world (is_client user_id r.client_id) t.worlds) in
    let by_world = pointer_of (find_world f.finds_world (is_world user_id r.world_id) t.worlds) in
    if not (r.client_id == "") && is_some by_client then by_client else by_world

-- The ids under which the world itself is known.
unfoldable pub self_ids : PairRequest → Option (ℕ × World) → List String
self_ids r none = if r.client_id == "" then [] else r.client_id ∷ []
self_ids r (some (id, w)) =
    if r.client_id == "" then w.client.client_id ∷ [] else r.client_id ∷ w.client.client_id ∷ []

unfoldable pub granted_targets : PairRequest → Option (ℕ × World) → Approval → List String
granted_targets r existing b =
    select (λ t. not (contains t (self_ids r existing))) b.allowed_target_clients

unfoldable pub set_approved : Bool → ℕ → String → ℕ → PairRequest → PairTables → PairTables
set_approved fails id code user_id r t = if fails then t else record t {
  requests =
      insert id (record r { status = approved; pairing_code = some code; user_id = some user_id })
        t.requests;
}

-- The approval of an upgrade: the world is paired already, and its settings are replaced.
unfoldable pub approve_upgrade :
    Faults → ℕ → ℕ → PairRequest → Option (ℕ × World) → Approval → PairTables → Reply × PairTables
approve_upgrade f user_id id r none b t =
    (error 400 "World is not yet paired — cannot upgrade. Pair first.", t)
approve_upgrade f user_id id r (some (wid, w)) b t =
    if f.sets then (error 500 "Failed to apply settings", t) else (
      success true,
      set_approved f.approves id "" user_id r (record t {
        worlds =
            set_cross_world_settings wid
              (filled (scopes_string (granted_targets r (some (wid, w)) b)))
              (filled (scopes_string b.remote_scopes)) b.remote_requests_per_hour t.worlds;
      }),
    )

unfoldable pub code_for : ℕ → String → PairRequest → Option (ℕ × World) → Approval → ℕ → PairingCode
code_for user_id code r existing b now = record {
  user_id = user_id;
  code = code;
  client_id = none;
  allowed_target_clients = filled (scopes_string (granted_targets r existing b));
  remote_scopes = filled (scopes_string b.remote_scopes);
  remote_requests_per_hour = b.remote_requests_per_hour;
  expires_at = now + minutes 5;
  used = false;
}

-- A world that is known gets the settings at once; an error is not looked at.
unfoldable pub settle_known : Faults → Option (ℕ × World) → PairingCode → PairTables → PairTables
settle_known f none c t = t
settle_known f (some (wid, w)) c t =
    if not f.sets && (is_some c.remote_scopes || is_some c.allowed_target_clients)
    then record t {
      worlds =
          set_cross_world_settings wid c.allowed_target_clients c.remote_scopes
            c.remote_requests_per_hour t.worlds;
    }
    else t

-- The approval of a pairing: a pairing code is made for the module to exchange.
unfoldable pub approve_pairing :
    Faults
    → ℕ
    → ℕ
    → PairRequest
    → Option (ℕ × World)
    → Approval
    → Option String
    → ℕ
    → PairTables
    → Reply × PairTables
approve_pairing f user_id id r existing b none now t =
    (error 500 "Failed to generate pairing code", t)
approve_pairing f user_id id r existing b (some code) now t =
    let c = code_for user_id code r existing b now in
    elim (create_code f.creates_code c t) [
      | none ↦ (error 500 "Failed to create pairing code", t)
      | some t' ↦
          let t'' = settle_known f existing c t' in
          if f.approves
          then (error 500 "Failed to approve pair request", t'')
          else (success false, set_approved false id code user_id r t'')
    ]

-- POST /auth/pair-request/{code}/approve by the signed-in user; `fresh` is the generated code.
unfoldable pub approve_pair :
    Faults → ℕ → String → Approval → Option String → ℕ → PairTables → Reply × PairTables
approve_pair f user_id code b fresh now t = elim (find_request f code t) [
  | none ↦ (error 404 "Pair request not found", t)
  | some (id, r) ↦
      if not (is_pending r.status)
      then (error 400 "Pair request is not pending", t)
      else if ltb r.expires_at now
      then (error 410 "Pair request has expired", t)
      else if r.upgrade_only
      then approve_upgrade f user_id id r (find_existing f user_id r t) b t
      else approve_pairing f user_id id r (find_existing f user_id r t) b fresh now t
]

-- POST /auth/pair-request/{code}/deny
unfoldable pub deny_pair : Faults → String → PairTables → Reply × PairTables
deny_pair f code t = elim (find_request f code t) [
  | none ↦ (error 404 "Pair request not found", t)
  | some (id, r) ↦
      if not (is_pending r.status)
      then (error 400 "Pair request is not pending", t)
      else (message "Pair request denied", set_status f id r denied t)
]

abbrev pub expire_if_due : ℕ → PairRequest → PairRequest
expire_if_due now r =
    if is_pending r.status && ltb r.expires_at now then record r { status = expired } else r

unfoldable pub cleanup_expired : ℕ → PairTables → PairTables
cleanup_expired now t = record t { requests = map_rows (expire_if_due now) t.requests }
