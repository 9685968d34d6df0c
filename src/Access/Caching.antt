-- ===== src/Access/Caching.antt =====
-- middleware/auth.go: what the cache of API keys changes, and what it does not.
use foundryvtt_rest_api_rela.Base.{
  Bool, Bool-cases, Distinct, Option-cases, String, arith, false, inl, inr, lookup, nat_eq, some,
  string_eq, true, ℕ, ◌==◌, ◌≡◌,
}
use foundryvtt_rest_api_rela.Access.AuthLaws.{Query-cases}
use foundryvtt_rest_api_rela.Ws.Manager.Defs.{Manager}
use foundryvtt_rest_api_rela.Access.Cache.{User, ApiKey, AuthCacheEntry, AuthCache, get_cached_auth}
use foundryvtt_rest_api_rela.Access.Context.{found, Db, HttpRequest, or_empty, error}
use foundryvtt_rest_api_rela.Access.Auth.{
  refuse_client, is_expired, over_limit, admit_owner, auth_by_store, auth_by_entry,
  has_bearer_header, auth_by_key, authenticate,
}

-- An entry holds an enabled key of the database and its owner, who is in order.
pub record IsBacked (db : Db) (api_key : String) (e : AuthCacheEntry) : Type 0 where
  pub key : ApiKey
  pub user : User
  pub key_known : db.find_by_key api_key ≡ found key
  pub key_enabled : key.enabled ≡ true
  pub owner : db.find_user key.user_id ≡ found user
  pub in_order :
      (user.email_verified ≡ true)
      × (user.disabled ≡ false)
      × (user.api_key_rotation_required ≡ false)
  pub user_cached : e.user ≡ some user
  pub key_cached : e.scoped_key ≡ some key

pub record IsCoherent (db : Db) (c : AuthCache) : Type 0 where
  pub distinct : Distinct c.entries
  pub backed :
      (api_key : String) (e : AuthCacheEntry)
      → lookup api_key c.entries ≡ some e
      → IsBacked db api_key e

-- Without its limit, what an owner's request is answered.
entry_agrees :
    (db : Db) (auto_start : Bool) (m : Manager) (r : HttpRequest) (now : ℕ) (c : AuthCache)
    (e : AuthCacheEntry) (v : IsBacked db r.x_api_key e)
    → is_expired now v.key ≡ false
    → over_limit v.key ≡ false
    → auth_by_entry db auto_start m r e ≡ some (auth_by_store db auto_start m r now c).0
unfolding auth_by_entry auth_by_store admit_owner
entry_agrees db auto_start m r now c e v current within =
    rw (v.user_cached, v.key_cached)
      (elim (Option-cases
        (refuse_client db auto_start m v.user.id (or_empty v.user.api_key_hash) r.client_id)) [
          | inl allowed ↦
              ground
                (arith, v.key_known, v.key_enabled, v.owner, v.in_order, allowed, current, within)
          | inr (answer, refused) ↦
              ground
                (arith, v.key_known, v.key_enabled, v.owner, v.in_order, refused, current, within)
        ])

owner_answer :
    (db : Db) (auto_start : Bool) (m : Manager) (r : HttpRequest) (now : ℕ) (k : ApiKey) (u : User)
    (c c' : AuthCache)
    → (admit_owner db auto_start m r now k u c).0 ≡ (admit_owner db auto_start m r now k u c').0
unfolding admit_owner
owner_answer db auto_start m r now k u c c' =
    elim (Option-cases (refuse_client db auto_start m u.id (or_empty u.api_key_hash) r.client_id)) [
      | inl allowed ↦ ground (arith, allowed)
      | inr (answer, refused) ↦ ground (arith, refused)
    ]

-- The database's answer does not depend on the cache.
store_answer :
    (db : Db) (auto_start : Bool) (m : Manager) (r : HttpRequest) (now : ℕ) (c c' : AuthCache)
    → (auth_by_store db auto_start m r now c).0 ≡ (auth_by_store db auto_start m r now c').0
unfolding auth_by_store
store_answer db auto_start m r now c c' = elim (Query-cases (db.find_by_key r.x_api_key)) [
  | inl broken ↦ ground (arith, broken)
  | inr (inl missing) ↦ ground (arith, missing)
  | inr (inr (k, known)) ↦ elim (Query-cases (db.find_user k.user_id)) [
    | inl broken ↦ ground (arith, known, broken)
    | inr (inl missing) ↦ ground (arith, known, missing)
    | inr (inr (u, owner)) ↦
        ground (arith, known, owner, owner_answer db auto_start m r now k u c c')
  ]
]

cached_live :
    (api_key : String) (now : ℕ) (c : AuthCache) (e : AuthCacheEntry)
    → get_cached_auth api_key now c ≡ some e
    → lookup api_key c.entries ≡ some e
unfolding get_cached_auth
cached_live api_key now c e h = ground (arith, h)

-- The key is not expired and not over its limit, if it is in the database.
abbrev pub InTime : Db → String → ℕ → Type 0
InTime db api_key now =
    (k : ApiKey)
    → db.find_by_key api_key ≡ found k
    → (is_expired now k ≡ false) × (over_limit k ≡ false)

key_answer :
    (db : Db) (auto_start : Bool) (m : Manager) (r : HttpRequest) (now : ℕ) (c c' : AuthCache)
    → IsCoherent db c
    → InTime db r.x_api_key now
    → (r.x_api_key == "") ≡ false
    → (auth_by_key db auto_start m r now c).0 ≡ (auth_by_store db auto_start m r now c').0
unfolding auth_by_key
key_answer db auto_start m r now c c' v in_time given =
    elim (Option-cases (get_cached_auth r.x_api_key now c)) [
      | inl missing ↦ ground (arith, given, missing, store_answer db auto_start m r now c c')
      | inr (e, cached) ↦
          let backed = v.backed r.x_api_key e (cached_live r.x_api_key now c e cached) in
          let (current, within) = in_time backed.key backed.key_known in
          let same = entry_agrees db auto_start m r now c' e backed current within in
          ground (arith, given, cached, same)
    ]

no_key_answer :
    (db : Db) (auto_start : Bool) (m : Manager) (r : HttpRequest) (now : ℕ) (c : AuthCache)
    → (r.x_api_key == "") ≡ true
    → auth_by_key db auto_start m r now c ≡ (error 401 "API key is required", c)
unfolding auth_by_key
no_key_answer db auto_start m r now c given = ground (arith, given)

-- While the cache agrees with the database, a request is answered as if nothing were cached, if its
-- key, where it has one, is neither expired nor over its monthly limit.
pub cache_transparent :
    (db : Db) (auto_start : Bool) (m : Manager) (r : HttpRequest) (now : ℕ) (c c' : AuthCache)
    → IsCoherent db c
    → IsCoherent db c'
    → InTime db r.x_api_key now
    → (authenticate db auto_start m r now c).0 ≡ (authenticate db auto_start m r now c').0
unfolding authenticate
cache_transparent db auto_start m r now c c' v v' in_time =
    elim (Bool-cases (has_bearer_header r)) [
      | inl bearer ↦ ground (arith, bearer)
      | inr none_sent ↦ elim (Bool-cases (r.x_api_key == "")) [
        | inl empty ↦ ground (
          arith,
          none_sent,
          no_key_answer db auto_start m r now c empty,
          no_key_answer db auto_start m r now c' empty,
        )
        | inr given ↦ ground (
          arith,
          none_sent,
          key_answer db auto_start m r now c c' v in_time given,
          key_answer db auto_start m r now c' c' v' in_time given,
        )
      ]
    ]
