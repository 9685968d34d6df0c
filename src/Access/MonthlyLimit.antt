-- ===== src/Access/MonthlyLimit.antt =====
-- middleware/auth.go: the monthly limit of a scoped key is checked on the database's path alone.
use foundryvtt_rest_api_rela.Base.{
  Bool, String, arith, beq_self, false, lookup-insert, nat_eq, none, refl, some, string_eq, true, ℕ,
  ◌+◌, ◌==◌, ◌∙◌, ◌≡◌, ◌≤◌,
}
use foundryvtt_rest_api_rela.Ws.Manager.Defs.{Manager}
use foundryvtt_rest_api_rela.Access.Cache.{
  User, ApiKey, AuthCacheEntry, AuthCache, get_cached_auth, set_cached_auth,
}
use foundryvtt_rest_api_rela.Access.Context.{
  found, Db, HttpRequest, Answer, next, or_empty, key_context,
}
use foundryvtt_rest_api_rela.Access.Auth.{
  has_bearer_header, refuse_client, is_expired, over_limit, limit_exceeded, flags_refused,
  admit_owner, auth_by_store, auth_by_entry, auth_by_key, authenticate,
}
use foundryvtt_rest_api_rela.Access.Revocation.{by_store}

refused_owner :
    (db : Db) (auto_start : Bool) (m : Manager) (r : HttpRequest) (now : ℕ) (k : ApiKey) (u : User)
    (c : AuthCache)
    → flags_refused u ≡ none
    → refuse_client db auto_start m u.id (or_empty u.api_key_hash) r.client_id ≡ none
    → over_limit k ≡ true
    → admit_owner db auto_start m r now k u c
      ≡ (limit_exceeded, set_cached_auth r.x_api_key u k now c)
unfolding admit_owner
refused_owner db auto_start m r now k u c in_order allowed over =
    ground (arith, in_order, allowed, over)

refused_by_store :
    (db : Db) (auto_start : Bool) (m : Manager) (r : HttpRequest) (now : ℕ) (k : ApiKey) (u : User)
    (c : AuthCache)
    → db.find_by_key r.x_api_key ≡ found k
    → k.enabled ≡ true
    → is_expired now k ≡ false
    → db.find_user k.user_id ≡ found u
    → flags_refused u ≡ none
    → refuse_client db auto_start m u.id (or_empty u.api_key_hash) r.client_id ≡ none
    → over_limit k ≡ true
    → auth_by_store db auto_start m r now c
      ≡ (limit_exceeded, set_cached_auth r.x_api_key u k now c)
unfolding auth_by_store
refused_by_store db auto_start m r now k u c known on current owner in_order allowed over = ground (
  arith,
  known,
  on,
  current,
  owner,
  refused_owner db auto_start m r now k u c in_order allowed over,
)

abbrev entry_of : User → ApiKey → ℕ → AuthCacheEntry
entry_of u k expiry = record { user = some u; scoped_key = some k; expires_at = expiry }

just_cached :
    (api_key : String) (now later : ℕ) (k : ApiKey) (u : User) (c : AuthCache)
    → later ≤ now + c.ttl
    → get_cached_auth api_key later (set_cached_auth api_key u k now c)
      ≡ some (entry_of u k (now + c.ttl))
unfolding get_cached_auth set_cached_auth
just_cached api_key now later k u c h = ground (
  arith,
  h,
  beq_self api_key,
  lookup-insert api_key api_key (entry_of u k (now + c.ttl)) c.entries,
)

entry_passes :
    (db : Db) (auto_start : Bool) (m : Manager) (r : HttpRequest) (k : ApiKey) (u : User)
    (expiry : ℕ)
    → flags_refused u ≡ none
    → refuse_client db auto_start m u.id (or_empty u.api_key_hash) r.client_id ≡ none
    → auth_by_entry db auto_start m r (entry_of u k expiry) ≡ some (next (key_context u k))
unfolding auth_by_entry
entry_passes db auto_start m r k u expiry in_order allowed = ground (arith, in_order, allowed)

by_entry :
    (db : Db) (auto_start : Bool) (m : Manager) (r : HttpRequest) (now : ℕ) (c : AuthCache)
    (e : AuthCacheEntry) (answer : Answer)
    → has_bearer_header r ≡ false
    → (r.x_api_key == "") ≡ false
    → get_cached_auth r.x_api_key now c ≡ some e
    → auth_by_entry db auto_start m r e ≡ some answer
    → (authenticate db auto_start m r now c).0 ≡ answer
unfolding authenticate auth_by_key
by_entry db auto_start m r now c e answer none_sent given cached answered =
    ground (arith, none_sent, given, cached, answered)

-- A key over its monthly limit is refused with 429 when it is not cached, and cached all the same:
-- the same request, repeated while the entry lives, gets through.
pub limit_bypassed :
    (db : Db) (auto_start : Bool) (m : Manager) (r : HttpRequest) (now later : ℕ) (k : ApiKey)
    (u : User) (c : AuthCache)
    → has_bearer_header r ≡ false
    → (r.x_api_key == "") ≡ false
    → get_cached_auth r.x_api_key now c ≡ none
    → db.find_by_key r.x_api_key ≡ found k
    → k.enabled ≡ true
    → is_expired now k ≡ false
    → db.find_user k.user_id ≡ found u
    → flags_refused u ≡ none
    → refuse_client db auto_start m u.id (or_empty u.api_key_hash) r.client_id ≡ none
    → over_limit k ≡ true
    → later ≤ now + c.ttl
    → let (answer, c') = authenticate db auto_start m r now c in
      (answer ≡ limit_exceeded)
      × ((authenticate db auto_start m r later c').0 ≡ next (key_context u k))
limit_bypassed db auto_start m r now later k u c none_sent given missing known on current owner
      in_order allowed over soon =
    rw first (
      refl,
      by_entry db auto_start m r later _ _ _ none_sent given
          (just_cached r.x_api_key now later k u c soon)
          (entry_passes db auto_start m r k u (now + c.ttl) in_order allowed),
    )
  where
    first :
        authenticate db auto_start m r now c
        ≡ (limit_exceeded, set_cached_auth r.x_api_key u k now c)
    first =
        by_store db auto_start m r now c none_sent given missing
        ∙ refused_by_store db auto_start m r now k u c known on current owner in_order allowed over
