-- ===== src/Access/Auth.antt =====
-- middleware/auth.go and middleware/scopes.go: sessions, API keys and scopes. The client manager is
-- never nil, as server.go wires it.
use foundryvtt_rest_api_rela.Base.{
  Bool, List, Option, String, [], codes, contains, drop, eqb, false, if◌then◌else◌, leb, length,
  lookup, ltb, nat_eq, none, not, some, string_eq, true, ℕ, ◌&&◌, ◌&◌, ◌==◌, ◌∷◌,
}
use foundryvtt_rest_api_rela.Model.Scopes.{KnownClient}
use foundryvtt_rest_api_rela.Ws.Manager.Defs.{Manager}
use foundryvtt_rest_api_rela.Ws.Client.{info}
use foundryvtt_rest_api_rela.Access.Cache.{
  User, ApiKey, AuthCacheEntry, AuthCache, get_cached_auth, set_cached_auth,
}
use foundryvtt_rest_api_rela.Access.Context.{
  Query, failed, absent, found, Session, Db, HttpRequest, RequestContext, Answer, error, next,
  or_empty, key_context, session_context,
}

abbrev starts_with : List ℕ → List ℕ → Bool
starts_with [] s = true
starts_with (c ∷ p) [] = false
starts_with (c ∷ p) (d ∷ s) = eqb c d && starts_with p s

-- Longer than "Bearer ", and starting with it.
unfoldable pub has_bearer_header : HttpRequest → Bool
has_bearer_header r =
    ltb 7 (length (codes r.authorization)) && starts_with (codes "Bearer ") (codes r.authorization)

abbrev user_of : Query User → Option User
user_of (found u) = some u
user_of _ = none

abbrev session_user : Db → Query Session → Option User
session_user db (found s) = user_of (db.find_user s.user_id)
session_user db _ = none

-- A session whose user is gone is deleted, and the time of use is set: neither changes the answer.
unfoldable pub try_bearer_auth : Db → HttpRequest → Option User
unfolding has_bearer_header
try_bearer_auth db r =
    if has_bearer_header r
    then session_user db (db.find_session (drop 7 (codes r.authorization)))
    else none

abbrev pub bad_session : Answer
bad_session = error 401 "Invalid or expired session. Please log in again."

abbrev pub unverified : Answer
unverified = error 403 "Please verify your email address before using the API."

abbrev pub account_disabled : Answer
account_disabled = error 403 "Account disabled"

abbrev pub rotation_session : Answer
rotation_session = error 403 (
    "Your relay key must be rotated for security. "
    & "Please log in to the dashboard and regenerate your relay key.")

abbrev pub rotation_key : Answer
rotation_key = error 403 (
    "Account requires relay key rotation. "
    & "Please log in to the dashboard and regenerate your relay key.")

-- What follows a session's user in both middlewares.
unfoldable pub session_answer : Option User → Answer
session_answer none = bad_session
session_answer (some u) =
    if u.disabled
    then account_disabled
    else if not u.email_verified
    then unverified
    else if u.api_key_rotation_required
    then rotation_session
    else next (session_context u)

unfoldable pub session_only : Db → HttpRequest → Answer
unfolding try_bearer_auth session_answer
session_only db r = session_answer (try_bearer_auth db r)

abbrev starts_itself : Query KnownClient → Bool
starts_itself (found k) = k.auto_start_on_remote_request
starts_itself _ = false

unfoldable pub is_auto_startable_client : Db → ℕ → String → Bool
is_auto_startable_client db user_id client_id =
    not (eqb user_id 0) && not (client_id == "") && starts_itself (db.find_known user_id client_id)

abbrev pub invalid_client : Answer
invalid_client = error 404 "Invalid client ID"

abbrev pub wrong_account : Answer
wrong_account = error 401 "Invalid API key for this client ID"

-- The client that the request names, if it names one: `none` lets the request through. `auto_start`
-- says whether a headless starter is installed, and `identifier` is the account's.
unfoldable pub refuse_client : Db → Bool → Manager → ℕ → String → String → Option Answer
unfolding is_auto_startable_client
refuse_client db auto_start m user_id identifier client_id =
    if client_id == "" then none else elim (lookup client_id m.clients) [
      | none ↦
          if auto_start && is_auto_startable_client db user_id client_id
          then none
          else some invalid_client
      | some ref ↦ if (m.heap ref).api_key == identifier then none else some wrong_account
    ]

abbrev pub is_expired : ℕ → ApiKey → Bool
is_expired now k = elim k.expires_at [ none ↦ false | some t ↦ ltb t now ]

abbrev pub over_limit : ApiKey → Bool
over_limit k = elim k.monthly_limit [ none ↦ false | some n ↦ leb n k.requests_this_month ]

abbrev pub limit_exceeded : Answer
limit_exceeded = error 429 "Scoped key monthly request limit exceeded"

abbrev pub flags_refused : User → Option Answer
flags_refused u =
    if not u.email_verified
    then some unverified
    else if u.api_key_rotation_required
    then some rotation_key
    else if u.disabled
    then some account_disabled
    else none

-- The checks behind the owner of the key, and what is cached when they pass.
unfoldable pub admit_owner :
    Db → Bool → Manager → HttpRequest → ℕ → ApiKey → User → AuthCache → Answer × AuthCache
unfolding refuse_client key_context set_cached_auth
admit_owner db auto_start m r now k u c = elim (flags_refused u) [
  | some answer ↦ (answer, c)
  | none ↦ elim (refuse_client db auto_start m u.id (or_empty u.api_key_hash) r.client_id) [
    | some answer ↦ (answer, c)
    | none ↦ (
      if over_limit k then limit_exceeded else next (key_context u k),
      set_cached_auth r.x_api_key u k now c,
    )
  ]
]

-- The path that asks the database.
unfoldable pub auth_by_store :
    Db → Bool → Manager → HttpRequest → ℕ → AuthCache → Answer × AuthCache
unfolding admit_owner
auth_by_store db auto_start m r now c = elim (db.find_by_key r.x_api_key) [
  | failed ↦ (error 500 "Authentication error", c)
  | absent ↦ (error 401 "Invalid API key", c)
  | found k ↦
      if not k.enabled
      then (error 401 "API key is disabled", c)
      else if is_expired now k
      then (error 401 "API key has expired", c)
      else elim (db.find_user k.user_id) [
        | failed ↦ (error 401 "Invalid API key", c)
        | absent ↦ (error 401 "Invalid API key", c)
        | found u ↦ admit_owner db auto_start m r now k u c
      ]
]

abbrev id_or_zero : Option User → ℕ
id_or_zero none = 0
id_or_zero (some u) = u.id

abbrev hash_or_empty : Option User → String
hash_or_empty none = ""
hash_or_empty (some u) = or_empty u.api_key_hash

abbrev cached_flags : Option User → Option Answer
cached_flags none = none
cached_flags (some u) =
    if not u.email_verified
    then some unverified
    else if u.disabled
    then some account_disabled
    else if u.api_key_rotation_required
    then some rotation_session
    else none

abbrev cached_context : Option User → Option ApiKey → Option Answer
cached_context (some u) (some k) = some (next (key_context u k))
cached_context _ _ = none

-- The answer from a cached entry; `none` falls through to the database.
unfoldable pub auth_by_entry : Db → Bool → Manager → HttpRequest → AuthCacheEntry → Option Answer
unfolding refuse_client key_context
auth_by_entry db auto_start m r e =
    elim (refuse_client db auto_start m (id_or_zero e.user) (hash_or_empty e.user) r.client_id) [
      | some answer ↦ some answer
      | none ↦ elim (cached_flags e.user) [
        | some answer ↦ some answer
        | none ↦ cached_context e.user e.scoped_key
      ]
    ]

abbrev pub entry_answer : Db → Bool → Manager → HttpRequest → Option AuthCacheEntry → Option Answer
entry_answer db auto_start m r none = none
entry_answer db auto_start m r (some e) = auth_by_entry db auto_start m r e

unfoldable pub auth_by_key : Db → Bool → Manager → HttpRequest → ℕ → AuthCache → Answer × AuthCache
unfolding auth_by_entry auth_by_store
auth_by_key db auto_start m r now c =
    if r.x_api_key == ""
    then (error 401 "API key is required", c)
    else elim (entry_answer db auto_start m r (get_cached_auth r.x_api_key now c)) [
      | some answer ↦ (answer, c)
      | none ↦ auth_by_store db auto_start m r now c
    ]

unfoldable pub authenticate : Db → Bool → Manager → HttpRequest → ℕ → AuthCache → Answer × AuthCache
unfolding auth_by_key session_answer
authenticate db auto_start m r now c =
    if has_bearer_header r
    then (session_answer (try_bearer_auth db r), c)
    else auth_by_key db auto_start m r now c

-- RequireScope, on the context that the authentication put in place, if any.
unfoldable pub require_scope : String → Option RequestContext → Option Answer
require_scope scope none = some (error 401 "Authentication required")
require_scope scope (some ctx) = elim ctx.scoped_key [
  | none ↦ none
  | some info ↦
      if contains scope info.scopes
      then none
      else some (error 403 ("API key lacks required scope: " & scope))
]
