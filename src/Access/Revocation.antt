-- ===== src/Access/Revocation.antt =====
-- middleware/auth.go: invalidating and pruning cached keys.
use foundryvtt_rest_api_rela.Base.{
  Bool, Bool-cases, Distinct, Option-cases, String, arith, beq_self, false, inl, inr, lookup,
  lookup-delete, lookup-keep, nat_eq, none, not, some, string_eq, true, ℕ, ◌==◌, ◌≡◌, ◌≢◌, ◌≤◌,
}
use foundryvtt_rest_api_rela.Ws.Manager.Defs.{Manager}
use foundryvtt_rest_api_rela.Access.Cache.{
  User, ApiKey, AuthCacheEntry, AuthCache, is_over, get_cached_auth, invalidate_cached_auth,
  is_of_user, invalidate_cached_auth_for_user, prune_cache,
}
use foundryvtt_rest_api_rela.Access.Context.{
  found, Db, HttpRequest, RequestContext, error, next, key_context,
}
use foundryvtt_rest_api_rela.Access.Auth.{
  has_bearer_header, auth_by_store, auth_by_key, authenticate,
}
use foundryvtt_rest_api_rela.Access.AuthLaws.{MayCall, auth_by_store_sound}
use foundryvtt_rest_api_rela.Access.Caching.{IsCoherent}

-- A request by key that finds no live entry is answered by the database.
pub by_store :
    (db : Db) (auto_start : Bool) (m : Manager) (r : HttpRequest) (now : ℕ) (c : AuthCache)
    → has_bearer_header r ≡ false
    → (r.x_api_key == "") ≡ false
    → get_cached_auth r.x_api_key now c ≡ none
    → authenticate db auto_start m r now c ≡ auth_by_store db auto_start m r now c
unfolding authenticate auth_by_key
by_store db auto_start m r now c none_sent given missing = ground (arith, none_sent, given, missing)

by_no_key :
    (db : Db) (auto_start : Bool) (m : Manager) (r : HttpRequest) (now : ℕ) (c : AuthCache)
    → has_bearer_header r ≡ false
    → (r.x_api_key == "") ≡ true
    → authenticate db auto_start m r now c ≡ (error 401 "API key is required", c)
unfolding authenticate auth_by_key
by_no_key db auto_start m r now c none_sent empty = ground (arith, none_sent, empty)

-- Where nothing live is cached for a request without a session, it gets through only as far as the
-- database lets it.
uncached_sound :
    (db : Db) (auto_start : Bool) (m : Manager) (r : HttpRequest) (now : ℕ) (c : AuthCache)
    (ctx : RequestContext)
    → has_bearer_header r ≡ false
    → get_cached_auth r.x_api_key now c ≡ none
    → (authenticate db auto_start m r now c).0 ≡ next ctx
    → (k : ApiKey) × (u : User) × MayCall db auto_start m r now k u × (ctx ≡ key_context u k)
uncached_sound db auto_start m r now c ctx none_sent missing h =
    elim (Bool-cases (r.x_api_key == "")) [
      | inl empty ↦ absurd (ground (arith, by_no_key db auto_start m r now c none_sent empty, h))
      | inr given ↦
          auth_by_store_sound db auto_start m r now c ctx
            (ground (arith, by_store db auto_start m r now c none_sent given missing, h))
    ]

invalidated :
    (api_key : String) (now : ℕ) (c : AuthCache)
    → get_cached_auth api_key now (invalidate_cached_auth api_key c) ≡ none
unfolding get_cached_auth invalidate_cached_auth
invalidated api_key now c =
    ground (arith, lookup-delete api_key api_key c.entries, beq_self api_key)

-- Once a key is deleted or disabled in the database and its cache entry invalidated, no request
-- without a session gets through by it, whatever else the cache holds.
pub revoked_key_refused :
    (db : Db) (auto_start : Bool) (m : Manager) (r : HttpRequest) (now : ℕ) (c : AuthCache)
    (ctx : RequestContext)
    → has_bearer_header r ≡ false
    → ((k : ApiKey) → db.find_by_key r.x_api_key ≡ found k → k.enabled ≡ false)
    → (authenticate db auto_start m r now (invalidate_cached_auth r.x_api_key c)).0 ≢ next ctx
revoked_key_refused db auto_start m r now c ctx none_sent revoked h =
    let (k, u, v, same) =
      uncached_sound db auto_start m r now _ ctx none_sent (invalidated r.x_api_key now c) h in
    absurd (ground (arith, v.key_enabled, revoked k v.key_known))

user_entries_gone :
    (user_id : ℕ) (api_key : String) (now : ℕ) (e : AuthCacheEntry) (u : User) (c : AuthCache)
    → Distinct c.entries
    → lookup api_key c.entries ≡ some e
    → e.user ≡ some u
    → u.id ≡ user_id
    → get_cached_auth api_key now (invalidate_cached_auth_for_user user_id c) ≡ none
unfolding get_cached_auth invalidate_cached_auth_for_user
user_entries_gone user_id api_key now e u c d h held own =
    ground (
      arith,
      lookup-keep (λ k e. not (is_of_user user_id e.user)) api_key c.entries d,
      h,
      held,
      own,
    )

none_left :
    (user_id : ℕ) (api_key : String) (now : ℕ) (c : AuthCache)
    → Distinct c.entries
    → lookup api_key c.entries ≡ none
    → get_cached_auth api_key now (invalidate_cached_auth_for_user user_id c) ≡ none
unfolding get_cached_auth invalidate_cached_auth_for_user
none_left user_id api_key now c d h =
    ground (arith, lookup-keep (λ k e. not (is_of_user user_id e.user)) api_key c.entries d, h)

-- Once the account of a key's owner is disabled in the database and the owner's cache entries
-- invalidated, no request without a session gets through by the key; `old` is the database that the
-- cache agreed with, where the key had the same owner.
pub disabled_user_refused :
    (old db : Db) (auto_start : Bool) (m : Manager) (r : HttpRequest) (now : ℕ) (c : AuthCache)
    (ctx : RequestContext) (k : ApiKey) (u : User)
    → IsCoherent old c
    → has_bearer_header r ≡ false
    → old.find_by_key r.x_api_key ≡ found k
    → old.find_user k.user_id ≡ found u
    → db.find_by_key r.x_api_key ≡ found k
    → db.find_user k.user_id ≡ found (record u { disabled = true })
    → (authenticate db auto_start m r now (invalidate_cached_auth_for_user u.id c)).0 ≢ next ctx
disabled_user_refused old db auto_start m r now c ctx k u v none_sent known owner known' disabled
      h =
    let (k', u', w, same) = uncached_sound db auto_start m r now _ ctx none_sent gone h in
    absurd (ground (arith, w.in_order, w.key_known, w.owner, known', disabled))
  where
    gone : get_cached_auth r.x_api_key now (invalidate_cached_auth_for_user u.id c) ≡ none
    gone = elim (Option-cases (lookup r.x_api_key c.entries)) [
      | inl missing ↦ none_left u.id r.x_api_key now c v.distinct missing
      | inr (e, there) ↦
          let b = v.backed r.x_api_key e there in
          user_entries_gone u.id r.x_api_key now e b.user c v.distinct there b.user_cached
            (ground (arith, b.key_known, b.owner, known, owner))
    ]

-- Pruning at some time changes no answer of the cache then or later.
pub get_cached_auth-prune_cache :
    (api_key : String) (now later : ℕ) (c : AuthCache)
    → Distinct c.entries
    → now ≤ later
    → get_cached_auth api_key later (prune_cache now c) ≡ get_cached_auth api_key later c
unfolding get_cached_auth prune_cache
get_cached_auth-prune_cache api_key now later c d h =
    elim (Option-cases (lookup api_key c.entries)) [
      | inl missing ↦
          ground (arith, lookup-keep (λ k e. not (is_over now e)) api_key c.entries d, missing)
      | inr (e, there) ↦
          ground (arith, lookup-keep (λ k e. not (is_over now e)) api_key c.entries d, there, h)
    ]
