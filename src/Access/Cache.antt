-- ===== src/Access/Cache.antt =====
-- middleware/auth.go: the cache of authenticated API keys, by the plain key. The lock makes each
-- function one step; the ticker of the cleanup loop is not modelled.
use foundryvtt_rest_api_rela.Base.{
  Bool, Dict, Option, String, delete, eqb, false, if◌then◌else◌, insert, keep, lookup, ltb, nat_eq,
  none, not, some, string_eq, ℕ, ◌+◌,
}

-- The columns of a user that the middleware reads; `none` is NULL.
pub record User : Type 0 where
  pub id : ℕ
  pub api_key_hash : Option String
  pub email_verified : Bool
  pub api_key_rotation_required : Bool
  pub disabled : Bool
  pub subscription_status : Option String
  pub requests_this_month : ℕ

-- The columns of a scoped key; a request limit is taken to be a natural number.
pub record ApiKey : Type 0 where
  pub id : ℕ
  pub key : String
  pub user_id : ℕ
  pub enabled : Bool
  pub expires_at : Option ℕ
  pub scopes : String
  pub scoped_client_id : Option String
  pub scoped_client_ids : Option String
  pub monthly_limit : Option ℕ
  pub requests_this_month : ℕ

pub record AuthCacheEntry : Type 0 where
  pub user : Option User
  pub scoped_key : Option ApiKey
  pub expires_at : ℕ

pub record AuthCache : Type 0 where
  pub entries : Dict String AuthCacheEntry
  pub ttl : ℕ

unfoldable pub set_auth_cache_ttl : ℕ → AuthCache → AuthCache
set_auth_cache_ttl d c = record c { ttl = d }

-- `time.Now().After(entry.expiresAt)`
abbrev pub is_over : ℕ → AuthCacheEntry → Bool
is_over now e = ltb e.expires_at now

abbrev live : ℕ → Option AuthCacheEntry → Option AuthCacheEntry
live now none = none
live now (some e) = if is_over now e then none else some e

unfoldable pub get_cached_auth : String → ℕ → AuthCache → Option AuthCacheEntry
get_cached_auth api_key now c = live now (lookup api_key c.entries)

unfoldable pub set_cached_auth : String → User → ApiKey → ℕ → AuthCache → AuthCache
set_cached_auth api_key user scoped_key now c = record c {
  entries =
      insert api_key
        (record { user = some user; scoped_key = some scoped_key; expires_at = now + c.ttl })
        c.entries;
}

unfoldable pub invalidate_cached_auth : String → AuthCache → AuthCache
invalidate_cached_auth api_key c = record c { entries = delete api_key c.entries }

abbrev pub is_of_user : ℕ → Option User → Bool
is_of_user user_id none = false
is_of_user user_id (some u) = eqb u.id user_id

unfoldable pub invalidate_cached_auth_for_user : ℕ → AuthCache → AuthCache
invalidate_cached_auth_for_user user_id c = record c {
  entries = keep (λ k e. not (is_of_user user_id e.user)) c.entries;
}

unfoldable pub prune_cache : ℕ → AuthCache → AuthCache
prune_cache now c = record c { entries = keep (λ k e. not (is_over now e)) c.entries }
