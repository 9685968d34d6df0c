-- ===== src/Access/Context.antt =====
-- middleware/auth.go: what the middleware reads, and the context that it hands on. The store's
-- functions are parameters: they stand for SQL queries.
use foundryvtt_rest_api_rela.Base.{
  Bool, List, Option, String, [], codes, false, if◌then◌else◌, is_some, nat_eq, none, not, some,
  string_eq, take, true, ℕ, ◌==◌, ◌∷◌,
}
use foundryvtt_rest_api_rela.Model.Scopes.{parse_scopes, KnownClient}
use foundryvtt_rest_api_rela.Model.Csv.{split}
use foundryvtt_rest_api_rela.Access.Cache.{User, ApiKey}

-- The result of a query for one row.
pub data Query {ℓ} (A : Type ℓ) : Type ℓ where
  failed absent : Query A
  found : A → Query A

pub record Session : Type 0 where
  pub id : ℕ
  pub user_id : ℕ

-- `find_session` takes the bytes of the raw token, which it hashes; `find_by_key` hashes the key.
pub record Db : Type 0 where
  pub find_session : List ℕ → Query Session
  pub find_user : ℕ → Query User
  pub find_by_key : String → Query ApiKey
  pub find_known : ℕ → String → Query KnownClient

-- A missing header or query parameter reads as the empty string.
pub record HttpRequest : Type 0 where
  pub authorization : String
  pub x_api_key : String
  pub client_id : String

pub record ScopedKeyInfo : Type 0 where
  pub id : ℕ
  pub key_prefix : List ℕ
  pub scoped_client_id : String
  pub scoped_client_ids : List String
  pub scopes : List String
  pub monthly_limit : ℕ
  pub monthly_limit_set : Bool
  pub requests_this_month : ℕ

pub record RequestContext : Type 0 where
  pub user : User
  pub master_api_key : String
  pub scoped_key : Option ScopedKeyInfo
  pub subscription_status : String
  pub is_session_auth : Bool

pub data Answer : Type 0 where
  error : ℕ → String → Answer
  next : RequestContext → Answer

abbrev pub or_empty : Option String → String
or_empty none = ""
or_empty (some s) = s

abbrev pub get_subscription_status : User → String
get_subscription_status u = elim u.subscription_status [ none ↦ "free" | some s ↦ s ]

-- The first 8 bytes of the key, or all of a shorter one.
unfoldable pub key_prefix : String → List ℕ
key_prefix key = take 8 (codes key)

abbrev is_set : Option String → Bool
is_set none = false
is_set (some s) = not (s == "")

unfoldable pub get_scoped_client_ids : ApiKey → List String
get_scoped_client_ids k =
    if is_set k.scoped_client_ids
    then split (or_empty k.scoped_client_ids)
    else if is_set k.scoped_client_id
    then or_empty k.scoped_client_id ∷ []
    else []

abbrev pub number_or_zero : Option ℕ → ℕ
number_or_zero none = 0
number_or_zero (some n) = n

-- The scoped user ids are not modelled: the middleware passes them on unread.
unfoldable pub scoped_key_info : ApiKey → ScopedKeyInfo
unfolding get_scoped_client_ids key_prefix
scoped_key_info k = record {
  id = k.id;
  key_prefix = key_prefix k.key;
  scoped_client_id = or_empty k.scoped_client_id;
  scoped_client_ids = get_scoped_client_ids k;
  scopes = parse_scopes k.scopes;
  monthly_limit = number_or_zero k.monthly_limit;
  monthly_limit_set = is_some k.monthly_limit;
  requests_this_month = k.requests_this_month;
}

unfoldable pub key_context : User → ApiKey → RequestContext
unfolding scoped_key_info
key_context u k = record {
  user = u;
  master_api_key = or_empty u.api_key_hash;
  scoped_key = some (scoped_key_info k);
  subscription_status = get_subscription_status u;
  is_session_auth = false;
}

abbrev pub session_context : User → RequestContext
session_context u = record {
  user = u;
  master_api_key = or_empty u.api_key_hash;
  scoped_key = none;
  subscription_status = get_subscription_status u;
  is_session_auth = true;
}
