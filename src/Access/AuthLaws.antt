-- ===== src/Access/AuthLaws.antt =====
-- middleware/auth.go: who gets through by a key, a session or neither.
use foundryvtt_rest_api_rela.Base.{
  Bool, Option-cases, arith, false, inl, inr, none, refl, true, ℕ, ◌↔◌, ◌≡◌, ◌⊎◌,
}
use foundryvtt_rest_api_rela.Ws.Manager.Defs.{Manager}
use foundryvtt_rest_api_rela.Access.Cache.{User, ApiKey, AuthCache, set_cached_auth}
use foundryvtt_rest_api_rela.Access.Context.{
  found, Db, HttpRequest, RequestContext, next, or_empty, key_context, Query, failed, absent,
}
use foundryvtt_rest_api_rela.Access.Auth.{
  refuse_client, is_expired, over_limit, admit_owner, has_bearer_header, try_bearer_auth,
  session_answer, session_only, auth_by_store, authenticate, bad_session,
}

-- What stands behind a request that the database lets through.
pub record MayCall (db : Db) (auto_start : Bool) (m : Manager) (r : HttpRequest) (now : ℕ)
    (k : ApiKey) (u : User) : Type 0 where
  pub key_known : db.find_by_key r.x_api_key ≡ found k
  pub key_enabled : k.enabled ≡ true
  pub key_current : is_expired now k ≡ false
  pub owner : db.find_user k.user_id ≡ found u
  pub in_order :
      (u.email_verified ≡ true) × (u.disabled ≡ false) × (u.api_key_rotation_required ≡ false)
  pub client_allowed :
      refuse_client db auto_start m u.id (or_empty u.api_key_hash) r.client_id ≡ none
  pub within_limit : over_limit k ≡ false

owner_sound :
    (db : Db) (auto_start : Bool) (m : Manager) (r : HttpRequest) (now : ℕ) (k : ApiKey) (u : User)
    (c : AuthCache) (ctx : RequestContext)
    → (admit_owner db auto_start m r now k u c).0 ≡ next ctx
    → ((u.email_verified ≡ true) × (u.disabled ≡ false) × (u.api_key_rotation_required ≡ false))
      × (refuse_client db auto_start m u.id (or_empty u.api_key_hash) r.client_id ≡ none)
      × (over_limit k ≡ false)
      × (ctx ≡ key_context u k)
unfolding admit_owner
owner_sound db auto_start m r now k u c ctx h =
    elim (Option-cases (refuse_client db auto_start m u.id (or_empty u.api_key_hash) r.client_id)) [
      | inr (answer, refused) ↦ absurd (ground (arith, refused, h))
      | inl allowed ↦ (
        ground (arith, allowed, h),
        allowed,
        ground (arith, allowed, h),
        ground (arith, allowed, h),
      )
    ]

pub Query-cases {ℓ} :
    {A : Type ℓ} (q : Query A) → (q ≡ failed) ⊎ (q ≡ absent) ⊎ ((a : A) × (q ≡ found a))
Query-cases failed = inl refl
Query-cases absent = inr (inl refl)
Query-cases (found a) = inr (inr (a, refl))

pub auth_by_store_sound :
    (db : Db) (auto_start : Bool) (m : Manager) (r : HttpRequest) (now : ℕ) (c : AuthCache)
    (ctx : RequestContext)
    → (auth_by_store db auto_start m r now c).0 ≡ next ctx
    → (k : ApiKey) × (u : User) × MayCall db auto_start m r now k u × (ctx ≡ key_context u k)
unfolding auth_by_store
auth_by_store_sound db auto_start m r now c ctx h =
    elim (Query-cases (db.find_by_key r.x_api_key)) [
      | inl broken ↦ absurd (ground (arith, broken, h))
      | inr (inl missing) ↦ absurd (ground (arith, missing, h))
      | inr (inr (k, known)) ↦ elim (Query-cases (db.find_user k.user_id)) [
        | inl broken ↦ absurd (ground (arith, known, broken, h))
        | inr (inl missing) ↦ absurd (ground (arith, known, missing, h))
        | inr (inr (u, owner)) ↦
            let (order, client, limit, context) =
              owner_sound db auto_start m r now k u c ctx (ground (arith, known, owner, h)) in
            (
              k,
              u,
              record {
                key_known = known;
                key_enabled = ground (arith, known, owner, h);
                key_current = ground (arith, known, owner, h);
                owner = owner;
                in_order = order;
                client_allowed = client;
                within_limit = limit;
              },
              context,
            )
      ]
    ]

owner_complete :
    (db : Db) (auto_start : Bool) (m : Manager) (r : HttpRequest) (now : ℕ) (k : ApiKey) (u : User)
    (c : AuthCache)
    → MayCall db auto_start m r now k u
    → admit_owner db auto_start m r now k u c
      ≡ (next (key_context u k), set_cached_auth r.x_api_key u k now c)
unfolding admit_owner
owner_complete db auto_start m r now k u c v =
    ground (arith, v.client_allowed, v.in_order, v.within_limit)

pub auth_by_store_complete :
    (db : Db) (auto_start : Bool) (m : Manager) (r : HttpRequest) (now : ℕ) (k : ApiKey) (u : User)
    (c : AuthCache)
    → MayCall db auto_start m r now k u
    → auth_by_store db auto_start m r now c
      ≡ (next (key_context u k), set_cached_auth r.x_api_key u k now c)
unfolding auth_by_store
auth_by_store_complete db auto_start m r now k u c v =
    let passes = owner_complete db auto_start m r now k u c v in
    ground (arith, v.key_known, v.key_enabled, v.key_current, v.owner, passes)

-- By an API key that is not in the cache, a request gets through exactly if the key is in the
-- database, enabled, not expired and within its monthly limit, its owner is verified, not disabled
-- and need not rotate the relay key, and the client that the request names, if any, belongs to the
-- owner's account or may be started for it; the context is the one of this key and this owner.
pub auth_by_store_exact :
    (db : Db) (auto_start : Bool) (m : Manager) (r : HttpRequest) (now : ℕ) (c : AuthCache)
    (ctx : RequestContext)
    → ((auth_by_store db auto_start m r now c).0 ≡ next ctx)
      ↔ ((k : ApiKey) × (u : User) × MayCall db auto_start m r now k u × (ctx ≡ key_context u k))
auth_by_store_exact db auto_start m r now c ctx = (
  auth_by_store_sound db auto_start m r now c ctx,
  λ (k, u, v, same).
      let passes = auth_by_store_complete db auto_start m r now k u c v in
      ground (arith, passes, same),
)

-- A request with a Bearer header is answered as the dashboard's own middleware answers it, whatever
-- API key it carries, and the cache is left alone; without the header that middleware answers 401.
pub authenticate-session_only :
    (db : Db) (auto_start : Bool) (m : Manager) (r : HttpRequest) (now : ℕ) (c : AuthCache)
    → (has_bearer_header r ≡ true → authenticate db auto_start m r now c ≡ (session_only db r, c))
      × (has_bearer_header r ≡ false → session_only db r ≡ bad_session)
unfolding authenticate session_only try_bearer_auth session_answer
authenticate-session_only db auto_start m r now c =
    (λ bearer. ground (arith, bearer), λ none_sent. ground (arith, none_sent))
