-- ===== src/Approval/Keys.antt =====
-- handler/key_request.go: an application asks for an API key, a signed-in user approves it with some
-- of the scopes, and the application fetches the key. A handler reads the row and then acts on what it
-- read, without a lock or a transaction: `step` is a handler that runs alone, and Race joins the two
-- halves of handlers that overlap.
pub mod Effects
pub mod Inv
pub mod Delivery
pub mod Lifecycle
pub mod Grants
pub mod Race
use foundryvtt_rest_api_rela.Base.{
  Bool, Dict, List, Option, String, [], false, find_row, if◌then◌else◌, insert, is_some, lookup,
  ltb, map_rows, nat_eq, none, not, some, string_eq, suc, true, ℕ, ◌&&◌, ◌&◌, ◌*◌, ◌+◌, ◌==◌, ◌||◌,
  ◌∷◌,
}
use foundryvtt_rest_api_rela.Access.Cache.{ApiKey}
use foundryvtt_rest_api_rela.Model.Scopes.{parse_scopes, scopes_string, has_scope}
use foundryvtt_rest_api_rela.Model.Catalogue.{validate_scopes}
use foundryvtt_rest_api_rela.Approval.Status.{
  Status, pending, approved, denied, exchanged, expired, is_pending, is_approved,
}
use foundryvtt_rest_api_rela.Approval.Urls.{Net, validate_web_url}
use foundryvtt_rest_api_rela.Approval.KeyStores.{
  KeyRequest, KeyTables, Faults, no_faults, find_by_code, has_text, find_by_exchange_code, zero_key,
  id_of, find_key, update_row, create_row, expire_if_due, cleanup_expired, no_tables,
}

pub data Reply : Type 0 where
  error : ℕ → String → Reply
  created : String → ℕ → Reply
  status_is : ℕ → Status → Reply
  retrieved : Reply
  api_key : ApiKey → Reply
  granted : ℕ → List String → Option String → Reply
  message : String → Reply

-- The body of a new request.
pub record NewRequest : Type 0 where
  pub app_name : String
  pub app_description : String
  pub app_url : String
  pub scopes : List String
  pub client_ids : List String
  pub callback_url : String
  pub suggested_monthly_limit : Option ℕ
  pub suggested_expiry : String

abbrev pub filled : String → Option String
filled s = if s == "" then none else some s

abbrev pub url_error : Net → String → String → Option String
url_error net what url =
    if url == ""
    then none
    else elim (validate_web_url net url) [ none ↦ none | some e ↦ some (what & e) ]

abbrev pub is_empty {ℓ} : {A : Type ℓ} → List A → Bool
is_empty [] = true
is_empty (a ∷ rest) = false

abbrev pub ten_minutes : ℕ
ten_minutes = 600 * 1000000000

unfoldable pub new_row : NewRequest → String → ℕ → KeyRequest
new_row b code now = record {
  code = code;
  app_name = b.app_name;
  app_description = b.app_description;
  app_url = filled b.app_url;
  requested_scopes = scopes_string b.scopes;
  requested_client_ids = if is_empty b.client_ids then "" else scopes_string b.client_ids;
  callback_url = filled b.callback_url;
  suggested_monthly_limit = b.suggested_monthly_limit;
  suggested_expiry = filled b.suggested_expiry;
  status = pending;
  approved_key_id = none;
  approved_by_id = none;
  exchange_code = none;
  expires_at = now + ten_minutes;
}

-- POST /auth/key-request. `body` is `none` where it does not decode, `code` where none is generated.
unfoldable pub request_key :
    Net → Faults → Option NewRequest → Option String → ℕ → KeyTables → Reply × KeyTables
request_key net f none code now t = (error 400 "Invalid request body", t)
request_key net f (some b) code now t =
    if b.app_name == "" || is_empty b.scopes
    then (error 400 "appName and scopes are required", t)
    else if not (validate_scopes b.scopes == "")
    then (error 400 ("Invalid scope: " & validate_scopes b.scopes), t)
    else elim code [
      | none ↦ (error 500 "Failed to generate code", t)
      | some c ↦ elim (url_error net "Invalid appUrl: " b.app_url) [
        | some e ↦ (error 400 e, t)
        | none ↦ elim (url_error net "Invalid callbackUrl: " b.callback_url) [
          | some e ↦ (error 400 e, t)
          | none ↦ elim (create_row f (new_row b c now) t) [
            | none ↦ (error 500 "Failed to create key request", t)
            | some t' ↦ (created c (now + ten_minutes), t')
          ]
        ]
      ]
    ]

-- Hands out the key of an approved row, and marks the row.
unfoldable pub hand_out : Faults → ℕ → KeyRequest → ApiKey → KeyTables → Reply × KeyTables
hand_out f id r k t = (api_key k, update_row f id (record r { status = exchanged }) t)

abbrev pub reply_to_poll : Faults → ℕ → ℕ → KeyRequest → Status → KeyTables → Reply × KeyTables
reply_to_poll f now id r approved t = elim (find_key f r.approved_key_id t) [
  | none ↦ (status_is 200 approved, t)
  | some k ↦ hand_out f id r k t
]
reply_to_poll f now id r exchanged t = (retrieved, t)
reply_to_poll f now id r s t = (status_is 200 s, t)

-- The handlers read the row and act on it in two steps; between them another request may come.
abbrev pub answer_poll : Faults → ℕ → Option (ℕ × KeyRequest) → KeyTables → Reply × KeyTables
answer_poll f now none t = (error 404 "Key request not found", t)
answer_poll f now (some (id, r)) t =
    if ltb r.expires_at now && is_pending r.status
    then (status_is 410 expired, t)
    else reply_to_poll f now id r r.status t

-- GET /auth/key-request/{code}/status
unfoldable pub key_status : Faults → String → ℕ → KeyTables → Reply × KeyTables
key_status f code now t = answer_poll f now (find_by_code f code t) t

abbrev pub answer_trade : Faults → Option (ℕ × KeyRequest) → KeyTables → Reply × KeyTables
answer_trade f none t = (error 404 "Invalid exchange code", t)
answer_trade f (some (id, r)) t =
    if not (is_approved r.status)
    then (error 410 "Exchange code has already been used or request was denied", t)
    else elim (find_key f r.approved_key_id t) [
      | none ↦ (error 500 "Failed to retrieve API key", t)
      | some k ↦ hand_out f id r k t
    ]

-- POST /auth/key-request/exchange; the body's code is empty where it does not decode.
unfoldable pub exchange_key : Faults → String → KeyTables → Reply × KeyTables
exchange_key f code t =
    if code == ""
    then (error 400 "Code is required", t)
    else answer_trade f (find_by_exchange_code f code t) t

-- The body of an approval, with the values that do not decode left empty.
pub record Approval : Type 0 where
  pub scopes : List String
  pub client_ids : List String
  pub monthly_limit : Option ℕ
  pub expires_at : Option ℕ

unfoldable pub chosen_scopes : Approval → KeyRequest → List String
chosen_scopes b r = if is_empty b.scopes then parse_scopes r.requested_scopes else b.scopes

-- The first chosen scope that was not requested.
unfoldable pub first_ungranted : List String → List String → Option String
first_ungranted requested [] = none
first_ungranted requested (s ∷ ss) =
    if has_scope requested s then first_ungranted requested ss else some s

unfoldable pub granted_key : ℕ → String → List String → Approval → ℕ → ApiKey
granted_key user_id key_str scopes b id = record {
  id = id;
  key = key_str;
  user_id = user_id;
  enabled = true;
  expires_at = b.expires_at;
  scopes = scopes_string scopes;
  scoped_client_id = none;
  scoped_client_ids = if is_empty b.client_ids then none else some (scopes_string b.client_ids);
  monthly_limit = b.monthly_limit;
  requests_this_month = 0;
}

-- The web flow, which has a callback, gets a code to exchange.
abbrev pub exchange_code_for : Option String → String → Option String
exchange_code_for none fresh = none
exchange_code_for (some url) fresh = if url == "" then none else some fresh

abbrev pub kept_code : Option String → Option String → Option String
kept_code (some c) old = some c
kept_code none old = old

unfoldable pub approved_row : ℕ → ℕ → String → KeyRequest → KeyRequest
approved_row key_id user_id fresh r = record r {
  status = approved;
  approved_key_id = some key_id;
  approved_by_id = some user_id;
  exchange_code = kept_code (exchange_code_for r.callback_url fresh) r.exchange_code;
}

-- The created key stays where the row cannot be updated.
unfoldable pub grant :
    Faults
    → ℕ
    → String
    → String
    → ℕ
    → KeyRequest
    → List String
    → Approval
    → KeyTables
    → Reply × KeyTables
grant f user_id key_str fresh id r scopes b t =
    if f.creates_key
    then (error 500 "Failed to create API key", t)
    else let key = granted_key user_id key_str scopes b t.next_key in
      let t' = record t { keys = insert t.next_key key t.keys; next_key = suc t.next_key } in
      if f.updates then (error 500 "Failed to record approval", t') else (
        granted t.next_key (parse_scopes key.scopes) (exchange_code_for r.callback_url fresh),
        record t' { requests = insert id (approved_row t.next_key user_id fresh r) t.requests },
      )

-- `key_str` is `none` where no key is generated, `fresh` the generated exchange code.
abbrev pub answer_approval :
    Faults
    → ℕ
    → Approval
    → Option String
    → String
    → ℕ
    → Option (ℕ × KeyRequest)
    → KeyTables
    → Reply × KeyTables
answer_approval f user_id b key_str fresh now none t = (error 404 "Key request not found", t)
answer_approval f user_id b key_str fresh now (some (id, r)) t =
    if not (is_pending r.status)
    then (error 400 "Key request is not pending", t)
    else if ltb r.expires_at now
    then (error 410 "Key request has expired", t)
    else elim (first_ungranted (parse_scopes r.requested_scopes) (chosen_scopes b r)) [
      | some s ↦ (error 400 ("Cannot grant scope not in original request: " & s), t)
      | none ↦ elim key_str [
        | none ↦ (error 500 "Failed to generate API key", t)
        | some key ↦ grant f user_id key fresh id r (chosen_scopes b r) b t
      ]
    ]

-- POST /auth/key-request/{code}/approve by the signed-in user.
unfoldable pub approve_key :
    Faults → ℕ → String → Approval → Option String → String → ℕ → KeyTables → Reply × KeyTables
approve_key f user_id code b key_str fresh now t =
    answer_approval f user_id b key_str fresh now (find_by_code f code t) t

abbrev pub answer_denial : Faults → Option (ℕ × KeyRequest) → KeyTables → Reply × KeyTables
answer_denial f none t = (error 404 "Key request not found", t)
answer_denial f (some (id, r)) t =
    if not (is_pending r.status)
    then (error 400 "Key request is not pending", t)
    else if f.updates
    then (error 500 "Failed to record denial", t)
    else (message "Key request denied", update_row f id (record r { status = denied }) t)

-- POST /auth/key-request/{code}/deny
unfoldable pub deny_key : Faults → String → KeyTables → Reply × KeyTables
deny_key f code t = answer_denial f (find_by_code f code t) t

-- The calls of the routes and of the cleanup job, with what each of them is given.
pub data Call : Type 0 where
  asks : Net → Option NewRequest → Option String → ℕ → Call
  polls : String → ℕ → Call
  trades : String → Call
  approving : ℕ → String → Approval → Option String → String → ℕ → Call
  denying : String → Call
  cleaning : ℕ → Call

unfoldable pub step : Faults → Call → KeyTables → Reply × KeyTables
step f (asks net b code now) t = request_key net f b code now t
step f (polls code now) t = key_status f code now t
step f (trades code) t = exchange_key f code t
step f (approving user code b key fresh now) t = approve_key f user code b key fresh now t
step f (denying code) t = deny_key f code t
step f (cleaning now) t = (message "", cleanup_expired now t)
