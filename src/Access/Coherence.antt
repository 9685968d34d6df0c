-- ===== src/Access/Coherence.antt =====
-- middleware/auth.go: the cache keeps agreeing with a database that does not change.
use foundryvtt_rest_api_rela.Base.{
  Bool, Bool-cases, Distinct-delete, Distinct-insert, Distinct-keep, List, Option-cases, String, [],
  arith, false, inl, inr, keep, lookup-delete, lookup-insert, lookup-keep, nat_eq, not, refl, some,
  str_iff, string_eq, subst, sym, true, ℕ, ◌&&◌, ◌+◌, ◌==◌, ◌||◌, ◌∷◌, ◌≡◌, ◌⊎◌,
}
use foundryvtt_rest_api_rela.Ws.Manager.Defs.{Manager}
use foundryvtt_rest_api_rela.Access.Cache.{
  User, ApiKey, AuthCacheEntry, AuthCache, set_cached_auth, invalidate_cached_auth,
  set_auth_cache_ttl, is_over, get_cached_auth, is_of_user, invalidate_cached_auth_for_user,
  prune_cache,
}
use foundryvtt_rest_api_rela.Access.Context.{found, Db, HttpRequest, or_empty}
use foundryvtt_rest_api_rela.Access.Auth.{
  refuse_client, flags_refused, admit_owner, auth_by_store, has_bearer_header, is_expired,
  entry_answer, auth_by_key, authenticate,
}
use foundryvtt_rest_api_rela.Access.AuthLaws.{Query-cases}
use foundryvtt_rest_api_rela.Access.Caching.{IsBacked, IsCoherent}

abbrev InOrder : User → Type 0
InOrder u = (u.email_verified ≡ true) × (u.disabled ≡ false) × (u.api_key_rotation_required ≡ false)

set-IsCoherent :
    (db : Db) (api_key : String) (k : ApiKey) (u : User) (now : ℕ) (c : AuthCache)
    → IsCoherent db c
    → db.find_by_key api_key ≡ found k
    → k.enabled ≡ true
    → db.find_user k.user_id ≡ found u
    → InOrder u
    → IsCoherent db (set_cached_auth api_key u k now c)
unfolding set_cached_auth
set-IsCoherent db api_key k u now c v known on owner order = record {
  distinct = Distinct-insert api_key entry c.entries v.distinct;
  backed = λ other e h. elim (Bool-cases (api_key == other)) [
    | inl same ↦
        let new : entry ≡ e =
          ground (arith, lookup-insert api_key other entry c.entries, same, h) in
        subst (IsBacked db other) new
          (subst (λ key. IsBacked db key entry) ((str_iff api_key other).0 same) backed_entry)
    | inr different ↦
        v.backed other e (ground (arith, lookup-insert api_key other entry c.entries, different, h))
  ];
}
  where
    entry : AuthCacheEntry
    entry = record { user = some u; scoped_key = some k; expires_at = now + c.ttl }

    backed_entry : IsBacked db api_key entry
    backed_entry = record {
      key = k;
      user = u;
      key_known = known;
      key_enabled = on;
      owner = owner;
      in_order = order;
      user_cached = refl;
      key_cached = refl;
    }

-- Entries that are taken away leave the others backed.
keep-IsCoherent :
    (db : Db) (p : String → AuthCacheEntry → Bool) (c : AuthCache)
    → IsCoherent db c
    → IsCoherent db (record c { entries = keep p c.entries })
keep-IsCoherent db p c v = record {
  distinct = Distinct-keep p c.entries v.distinct;
  backed = λ k e h. v.backed k e (ground (arith, lookup-keep p k c.entries v.distinct, h));
}

invalidate-IsCoherent :
    (db : Db) (api_key : String) (c : AuthCache)
    → IsCoherent db c
    → IsCoherent db (invalidate_cached_auth api_key c)
unfolding invalidate_cached_auth
invalidate-IsCoherent db api_key c v = record {
  distinct = Distinct-delete api_key c.entries v.distinct;
  backed = λ k e h. v.backed k e (ground (arith, lookup-delete api_key k c.entries, h));
}

-- What a request by key leaves in the cache: nothing new, or an entry of an owner in order.
owner_cache :
    (db : Db) (auto_start : Bool) (m : Manager) (r : HttpRequest) (now : ℕ) (k : ApiKey) (u : User)
    (c : AuthCache)
    → ((admit_owner db auto_start m r now k u c).1 ≡ c)
      ⊎ (InOrder u
          × ((admit_owner db auto_start m r now k u c).1 ≡ set_cached_auth r.x_api_key u k now c))
unfolding admit_owner
owner_cache db auto_start m r now k u c = elim (Option-cases (flags_refused u)) [
  | inr (answer, refused) ↦ inl (ground (arith, refused))
  | inl in_order ↦
      elim (Option-cases
        (refuse_client db auto_start m u.id (or_empty u.api_key_hash) r.client_id)) [
          | inr (answer, refused) ↦ inl (ground (arith, in_order, refused))
          | inl allowed ↦ inr (ground (arith, in_order), ground (arith, in_order, allowed))
        ]
]

store_cache :
    (db : Db) (auto_start : Bool) (m : Manager) (r : HttpRequest) (now : ℕ) (c : AuthCache)
    → ((auth_by_store db auto_start m r now c).1 ≡ c)
      ⊎ ((k : ApiKey) × (u : User) × (db.find_by_key r.x_api_key ≡ found k)
          × (k.enabled ≡ true)
          × (db.find_user k.user_id ≡ found u)
          × InOrder u
          × ((auth_by_store db auto_start m r now c).1 ≡ set_cached_auth r.x_api_key u k now c))
unfolding auth_by_store
store_cache db auto_start m r now c = elim (Query-cases (db.find_by_key r.x_api_key)) [
  | inl broken ↦ inl (ground (arith, broken))
  | inr (inl missing) ↦ inl (ground (arith, missing))
  | inr (inr (k, known)) ↦ elim (Bool-cases (k.enabled && not (is_expired now k))) [
    | inr off ↦ inl (ground (arith, known, off))
    | inl on ↦ elim (Query-cases (db.find_user k.user_id)) [
      | inl broken ↦ inl (ground (arith, known, broken))
      | inr (inl missing) ↦ inl (ground (arith, known, missing))
      | inr (inr (u, owner)) ↦ elim (owner_cache db auto_start m r now k u c) [
        | inl same ↦ inl (ground (arith, known, on, owner, same))
        | inr (order, set) ↦
            inr
              (k, u, known, ground (arith, on), owner, order, ground (arith, known, on, owner, set))
      ]
    ]
  ]
]

store-IsCoherent :
    (db : Db) (auto_start : Bool) (m : Manager) (r : HttpRequest) (now : ℕ) (c : AuthCache)
    → IsCoherent db c
    → IsCoherent db (auth_by_store db auto_start m r now c).1
store-IsCoherent db auto_start m r now c v = elim (store_cache db auto_start m r now c) [
  | inl same ↦ subst (IsCoherent db) (sym same) v
  | inr (k, u, known, on, owner, order, set) ↦
      subst (IsCoherent db) (sym set)
        (set-IsCoherent db r.x_api_key k u now c v known on owner order)
]

-- The cache after a request: that of the database's path, or the same.
request_cache :
    (db : Db) (auto_start : Bool) (m : Manager) (r : HttpRequest) (now : ℕ) (c : AuthCache)
    → ((authenticate db auto_start m r now c).1 ≡ c)
      ⊎ ((authenticate db auto_start m r now c).1 ≡ (auth_by_store db auto_start m r now c).1)
unfolding authenticate auth_by_key
request_cache db auto_start m r now c =
    elim (Option-cases (entry_answer db auto_start m r (get_cached_auth r.x_api_key now c))) [
      | inl missing ↦ elim (Bool-cases (has_bearer_header r || r.x_api_key == "")) [
        | inl other_way ↦ inl (ground (arith, missing, other_way))
        | inr by_key ↦ inr (ground (arith, missing, by_key))
      ]
      | inr (answer, cached) ↦ inl (ground (arith, cached))
    ]

request-IsCoherent :
    (db : Db) (auto_start : Bool) (m : Manager) (r : HttpRequest) (now : ℕ) (c : AuthCache)
    → IsCoherent db c
    → IsCoherent db (authenticate db auto_start m r now c).1
request-IsCoherent db auto_start m r now c v = elim (request_cache db auto_start m r now c) [
  | inl same ↦ subst (IsCoherent db) (sym same) v
  | inr stored ↦ subst (IsCoherent db) (sym stored) (store-IsCoherent db auto_start m r now c v)
]

-- What happens to the cache.
pub data Call : Type 0 where
  requests : Bool → Manager → HttpRequest → ℕ → Call
  invalidates : String → Call
  invalidates_user prunes sets_ttl : ℕ → Call

abbrev pub step : Db → Call → AuthCache → AuthCache
step db (requests auto_start m r now) c = (authenticate db auto_start m r now c).1
step db (invalidates api_key) c = invalidate_cached_auth api_key c
step db (invalidates_user user_id) c = invalidate_cached_auth_for_user user_id c
step db (prunes now) c = prune_cache now c
step db (sets_ttl d) c = set_auth_cache_ttl d c

abbrev pub run : Db → List Call → AuthCache → AuthCache
run db [] c = c
run db (k ∷ ks) c = run db ks (step db k c)

-- Whatever requests come, whichever clients are connected, and however entries are invalidated and
-- pruned, each entry of the cache goes on holding an enabled key of the database and its owner, who
-- is verified, not disabled, and need not rotate the relay key, while the database stays as it is.
pub run-IsCoherent :
    (db : Db) (ks : List Call) (c : AuthCache) → IsCoherent db c → IsCoherent db (run db ks c)
unfolding invalidate_cached_auth_for_user prune_cache set_auth_cache_ttl
run-IsCoherent db [] c v = v
run-IsCoherent db (requests auto_start m r now ∷ ks) c v =
    run-IsCoherent db ks _ (request-IsCoherent db auto_start m r now c v)
run-IsCoherent db (invalidates api_key ∷ ks) c v =
    run-IsCoherent db ks _ (invalidate-IsCoherent db api_key c v)
run-IsCoherent db (invalidates_user user_id ∷ ks) c v =
    run-IsCoherent db ks _ (keep-IsCoherent db (λ k e. not (is_of_user user_id e.user)) c v)
run-IsCoherent db (prunes now ∷ ks) c v =
    run-IsCoherent db ks _ (keep-IsCoherent db (λ k e. not (is_over now e)) c v)
run-IsCoherent db (sets_ttl d ∷ ks) c v =
    run-IsCoherent db ks _ (record { distinct = v.distinct; backed = v.backed })
