-- ===== src/Approval/Pairing.antt =====
-- handler/connection_tokens.go: dashboard codes, and POST /auth/pair, which turns a pairing code into
-- a connection token. The handler is two steps, `claim` and `complete`, so that two requests can
-- interleave.
pub mod Codes
pub mod Offers
pub mod Choice
use foundryvtt_rest_api_rela.Base.{
  Bool, Option, String, codes, false, find_row, if◌then◌else◌, insert, is_some, lookup, ltb, nat_eq,
  none, not, some, string_eq, suc, true, ℕ, ◌&&◌, ◌+◌, ◌==◌, ◌||◌,
}
use foundryvtt_rest_api_rela.Model.Csv.{trim_space}
use foundryvtt_rest_api_rela.Approval.Worlds.{
  World, PairingCode, PairTables, Sought, broken, missing, row, pointer_of, find_world, is_client,
  is_world, has_fingerprint, is_world_at, set_cross_world_settings, upsert, create_code, filled,
  minutes,
}

-- Which calls of the stores fail; the writes whose errors are not looked at just do nothing then.
pub record Faults : Type 0 where
  pub finds : Bool
  pub finds_world : Bool
  pub marks : Bool
  pub creates_code : Bool
  pub creates_token : Bool
  pub upserts : Bool
  pub sets : Bool

pub record Body : Type 0 where
  pub code : String
  pub world_id : String
  pub world_title : String
  pub server_fingerprint : String
  pub existing_client_id : String
  pub server_origin : String

pub data Reply : Type 0 where
  error : ℕ → String → Reply
  created : String → ℕ → Reply
  paired : String → String → Reply

-- POST /auth/connection-tokens: the signed-in user makes a code, for a world of theirs if one is
-- named.
unfoldable pub bound_client : Faults → ℕ → String → PairTables → Option (Option String)
bound_client f user_id client_id t =
    if client_id == ""
    then some none
    else elim (find_world f.finds_world (is_client user_id client_id) t.worlds) [
      | row id w ↦ some (some client_id)
      | _ ↦ none
    ]

unfoldable pub unbound_error : Faults → Reply
unbound_error f =
    if f.finds_world
    then error 500 "Failed to validate clientId"
    else error 404 "clientId not found in your known clients"

unfoldable pub dashboard_code : ℕ → Option String → String → ℕ → PairingCode
dashboard_code user_id client_id code now = record {
  user_id = user_id;
  code = code;
  client_id = client_id;
  allowed_target_clients = none;
  remote_scopes = none;
  remote_requests_per_hour = 0;
  expires_at = now + minutes 10;
  used = false;
}

unfoldable pub make_code : Faults → ℕ → String → Option String → ℕ → PairTables → Reply × PairTables
make_code f user_id client_id fresh now t = elim (bound_client f user_id client_id t) [
  | none ↦ (unbound_error f, t)
  | some bound ↦ elim fresh [
    | none ↦ (error 500 "Failed to generate pairing code", t)
    | some code ↦ elim (create_code f.creates_code (dashboard_code user_id bound code now) t) [
      | none ↦ (error 500 "Failed to create pairing code", t)
      | some t' ↦ (created code (now + minutes 10), t')
    ]
  ]
]

-- WHERE code = $1 AND expires_at > now
unfoldable pub find_code : Faults → String → ℕ → PairTables → Option (ℕ × PairingCode)
find_code f code now t =
    if f.finds then none else find_row (λ c. c.code == code && ltb now c.expires_at) t.codes

-- A code that is bound to a client adds a browser to a paired world.
abbrev pub is_add_browser : PairingCode → Bool
is_add_browser c = elim c.client_id [ none ↦ false | some id ↦ not (id == "") ]

pub data Claim : Type 0 where
  refused : Reply → Claim
  claimed : ℕ → PairingCode → Claim

-- The checks before the code is marked. `now` is read twice, by the query and by the handler.
unfoldable pub claim : Faults → Body → ℕ → ℕ → PairTables → Claim
claim f b now later t =
    if b.code == ""
    then refused (error 400 "Code is required")
    else elim (find_code f b.code now t) [
      | none ↦ refused (error 404 "Invalid pairing code")
      | some (id, c) ↦
          if c.used
          then refused (error 410 "Pairing code has already been used")
          else if ltb c.expires_at later
          then refused (error 410 "Pairing code has expired")
          else if not (is_add_browser c) && b.world_id == ""
          then refused (error 400 "worldId is required")
          else claimed id c
    ]

-- UPDATE PairingCodes SET used = TRUE WHERE id = $1
unfoldable pub mark_used : ℕ → PairTables → PairTables
mark_used id t = elim (lookup id t.codes) [
  | none ↦ t
  | some c ↦ record t { codes = insert id (record c { used = true }) t.codes }
]

-- Whether the world may keep its id when it pairs again from the origin.
unfoldable pub origin_consistent : World → String → Bool
origin_consistent w origin = if origin == "" then true else elim w.public_url [
  | none ↦ true
  | some url ↦ if trim_space url == "" then true else trim_space url == origin
]

-- The client id of a row that is found, is not nil and has a fitting origin; else empty.
unfoldable pub reused : Sought → String → String
reused found origin = elim (pointer_of found) [
  | none ↦ ""
  | some (id, w) ↦ if origin_consistent w origin then w.client.client_id else ""
]

unfoldable pub by_existing : Faults → ℕ → Body → PairTables → String
by_existing f user_id b t =
    if b.existing_client_id == ""
    then ""
    else reused (find_world f.finds_world (is_client user_id b.existing_client_id) t.worlds)
        b.server_origin

unfoldable pub by_fingerprint : Faults → ℕ → Body → PairTables → String
by_fingerprint f user_id b t =
    if b.server_fingerprint == ""
    then ""
    else reused (find_world f.finds_world (has_fingerprint user_id b.server_fingerprint) t.worlds)
        b.server_origin

-- The row at the same origin is taken as it is; without one, a row of any origin must fit.
abbrev pub at_origin : Sought → Sought → String → String
at_origin (row id w) blind origin = w.client.client_id
at_origin broken blind origin = ""
at_origin missing blind origin = reused blind origin

unfoldable pub by_world : Faults → ℕ → Body → PairTables → String
by_world f user_id b t =
    if b.world_id == ""
    then ""
    else let blind = find_world f.finds_world (is_world user_id b.world_id) t.worlds in
      if b.server_origin == ""
      then reused blind b.server_origin
      else at_origin
          (find_world f.finds_world (is_world_at user_id b.world_id b.server_origin) t.worlds) blind
          b.server_origin

abbrev pub or_else : String → String → String
or_else a b = if a == "" then b else a

abbrev pub text_of : Option String → String
text_of none = ""
text_of (some s) = s

-- `fresh` is the random id.
unfoldable pub choose_client_id : Faults → PairingCode → Body → String → PairTables → String
choose_client_id f c b fresh t =
    let first = if is_add_browser c then text_of c.client_id else by_existing f c.user_id b t in
    or_else (or_else (or_else first (by_fingerprint f c.user_id b t)) (by_world f c.user_id b t))
      fresh

unfoldable pub world_of : PairingCode → Body → String → ℕ → World
world_of c b client_id id = record {
  client = record {
    id = id;
    user_id = c.user_id;
    client_id = client_id;
    auto_start_on_remote_request = false;
    allowed_target_clients = none;
    remote_scopes = none;
    remote_requests_per_hour = 0;
  };
  world_id = if is_add_browser c then none else some b.world_id;
  world_title = if is_add_browser c then none else filled b.world_title;
  server_fingerprint = filled b.server_fingerprint;
  public_url = filled b.server_origin;
}

-- The cross-world settings that the code carries go to the world.
unfoldable pub apply_settings : Faults → PairingCode → String → PairTables → PairTables
apply_settings f c client_id t =
    if f.sets || not (is_some c.allowed_target_clients || is_some c.remote_scopes)
    then t
    else elim (find_world f.finds_world (is_client c.user_id client_id) t.worlds) [
      | row id w ↦ record t {
        worlds =
            set_cross_world_settings id c.allowed_target_clients c.remote_scopes
              c.remote_requests_per_hour t.worlds;
      }
      | _ ↦ t
    ]

unfoldable pub add_token : ℕ → String → String → PairTables → PairTables
add_token user_id token_hash client_id t = record t {
  tokens =
      insert t.next_token
        (record { user_id = user_id; token_hash = token_hash; client_id = client_id }) t.tokens;
  next_token = suc t.next_token;
}

-- The world's row and its settings, once the token is made.
unfoldable pub record_world : Faults → PairingCode → Body → String → PairTables → PairTables
record_world f c b client_id t =
    apply_settings f c client_id
      (if f.upserts then t else upsert (world_of c b client_id t.next_world) t)

-- Marks the code and makes the token. `token` is the raw token and its hash, `none` where no random
-- bytes come.
unfoldable pub complete :
    Faults
    → ℕ
    → PairingCode
    → Body
    → Option (String × String)
    → String
    → PairTables
    → Reply × PairTables
complete f id c b token fresh t =
    if f.marks
    then (
      error 409 "Pairing code could not be claimed. It may have been used by another request.",
      t,
    )
    else let t1 = mark_used id t in
      elim token [
        | none ↦ (error 500 "Failed to generate token", t1)
        | some (raw, hash) ↦
            let client_id = choose_client_id f c b fresh t1 in
            if f.creates_token then (error 500 "Failed to create connection token", t1) else (
              paired raw client_id,
              record_world f c b client_id (add_token c.user_id hash client_id t1),
            )
      ]

abbrev pub completed :
    Faults → Claim → Body → Option (String × String) → String → PairTables → Reply × PairTables
completed f (refused reply) b token fresh t = (reply, t)
completed f (claimed id c) b token fresh t = complete f id c b token fresh t

-- POST /auth/pair, when no other request comes between.
unfoldable pub pair :
    Faults → Body → Option (String × String) → String → ℕ → ℕ → PairTables → Reply × PairTables
pair f b token fresh now later t = completed f (claim f b now later t) b token fresh t
