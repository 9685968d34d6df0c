-- ===== src/Ws/Remote/GateLaws.antt =====
-- remote_request.go: only a permitted request passes, and a permitted one does.
use foundryvtt_rest_api_rela.Base.{
  Option-cases, String, arith, false, inl, inr, nat_eq, refl, some, string_eq, true, ℕ, ◌==◌, ◌||◌,
  ◌≡◌, ◌≢◌, ◌⊎◌,
}
use foundryvtt_rest_api_rela.Ws.Remote.Rate.{RateBuckets, check_remote_request_rate}
use foundryvtt_rest_api_rela.Model.Scopes.{KnownClient, can_target, has_remote_scope}
use foundryvtt_rest_api_rela.Model.Catalogue.{scope_for_action}
use foundryvtt_rest_api_rela.Ws.Remote.Gate.{
  Request, ConnectionToken, Store, admitted, gate_target, gate_rate, gate_world, gate,
}

-- What the source world may do.
pub record MayAsk (r : Request) (source : String) (kc : KnownClient) : Type 0 where
  pub other_world : (r.target_client_id == source) ≡ false
  pub target_listed : can_target kc r.target_client_id ≡ true
  pub scope_granted :
      (scope : String) × (scope_for_action r.action ≡ some scope)
      × (has_remote_scope kc scope ≡ true)

target_sound :
    (r : Request) (token_id : ℕ) (t t₀ : ConnectionToken) (fresh : Store) (k : KnownClient)
    → gate_target r token_id t fresh ≡ admitted t₀ k
    → (t₀ ≡ t)
      × ((t' : ConnectionToken) × (fresh.token token_id ≡ some t')
          × (fresh.known t'.user_id r.target_client_id ≡ some k))
unfolding gate_target
target_sound r token_id t t₀ fresh k h = elim (Option-cases (fresh.token token_id)) [
  | inl missing ↦ absurd (ground (arith, missing, h))
  | inr (t', found) ↦ elim (Option-cases (fresh.known t'.user_id r.target_client_id)) [
    | inl missing ↦ absurd (ground (arith, found, missing, h))
    | inr (k', known) ↦
        (ground (arith, found, known, h), (t', found, ground (arith, found, known, h)))
  ]
]

rate_sound :
    (r : Request) (token_id now : ℕ) (t t₀ : ConnectionToken) (kc : KnownClient) (fresh : Store)
    (k : KnownClient) (buckets after : RateBuckets)
    → gate_rate r token_id t kc fresh now buckets ≡ (admitted t₀ k, after)
    → gate_target r token_id t fresh ≡ admitted t₀ k
unfolding gate_rate
rate_sound r token_id now t t₀ kc fresh k buckets after h = ground (arith, h)

world_sound :
    (r : Request) (source : String) (token_id now : ℕ) (t t₀ : ConnectionToken) (kc : KnownClient)
    (fresh : Store) (k : KnownClient) (buckets after : RateBuckets)
    → gate_world r source token_id t kc fresh now buckets ≡ (admitted t₀ k, after)
    → MayAsk r source kc × (gate_target r token_id t fresh ≡ admitted t₀ k)
unfolding gate_world
world_sound r source token_id now t t₀ kc fresh k buckets after h =
    elim (Option-cases (scope_for_action r.action)) [
      | inl unknown ↦ absurd (ground (arith, unknown, h))
      | inr (scope, known) ↦ (
        record {
          other_world = ground (arith, known, h);
          target_listed = ground (arith, known, h);
          scope_granted = (scope, known, ground (arith, known, h));
        },
        rate_sound r token_id now t t₀ kc fresh k buckets after (ground (arith, known, h)),
      )
    ]

-- What stands behind an admitted request: the source is a client with a connection token, its world
-- may ask, and the target belongs to the account of the token.
pub record IsAdmitted (r : Request) (source : String) (token_id : ℕ) (first fresh : Store)
    (t : ConnectionToken) (k : KnownClient) : Type 0 where
  pub authenticated : token_id ≢ 0
  pub source_token : first.token token_id ≡ some t
  pub source_world :
      (kc : KnownClient) × (first.known t.user_id source ≡ some kc) × MayAsk r source kc
  pub target_owned :
      (t' : ConnectionToken) × (fresh.token token_id ≡ some t')
      × (fresh.known t'.user_id r.target_client_id ≡ some k)

-- A request that passes the checks comes from a client with a connection token, which is still in
-- the database after the rate check; its world lists the target and holds the scope of the action,
-- which is a known one; and the target is another world, of the account of the token.
pub gate_sound :
    (r : Request) (source : String) (token_id now : ℕ) (first fresh : Store) (t : ConnectionToken)
    (k : KnownClient) (buckets after : RateBuckets)
    → gate r source token_id first fresh now buckets ≡ (admitted t k, after)
    → IsAdmitted r source token_id first fresh t k
unfolding gate
gate_sound r source token_id now first fresh t k buckets after h =
    elim (Option-cases (first.token token_id)) [
      | inl missing ↦ absurd (ground (arith, missing, h))
      | inr (t', found) ↦ elim (Option-cases (first.known t'.user_id source)) [
        | inl missing ↦ absurd (ground (arith, found, missing, h))
        | inr (kc, known) ↦
            let (may, target) =
              world_sound r source token_id now t' t kc fresh k buckets after
                (ground (arith, found, known, h)) in
            let (same, owned) = target_sound r token_id t' t fresh k target in
            record {
              authenticated = ground (arith, found, known, h);
              source_token = rw same found;
              source_world = (kc, rw same known, may);
              target_owned = owned;
            }
      ]
    ]

target_complete :
    (r : Request) (token_id : ℕ) (t t' : ConnectionToken) (fresh : Store) (k : KnownClient)
    → fresh.token token_id ≡ some t'
    → fresh.known t'.user_id r.target_client_id ≡ some k
    → gate_target r token_id t fresh ≡ admitted t k
unfolding gate_target
target_complete r token_id t t' fresh k found known = rw (found, gate_target) (rw known refl)

-- The rate limit lets the request through: there is none, or it is not used up.
abbrev pub RateAllows : KnownClient → ℕ → RateBuckets → Type 0
RateAllows kc now buckets =
    (kc.remote_requests_per_hour ≡ 0)
    ⊎ ((check_remote_request_rate kc.id kc.remote_requests_per_hour now buckets).0 ≡ true)

world_complete :
    (r : Request) (source : String) (token_id now : ℕ) (t : ConnectionToken) (kc : KnownClient)
    (fresh : Store) (k : KnownClient) (buckets : RateBuckets)
    → MayAsk r source kc
    → RateAllows kc now buckets
    → gate_target r token_id t fresh ≡ admitted t k
    → (gate_world r source token_id t kc fresh now buckets).0 ≡ admitted t k
unfolding gate_world gate_rate
world_complete r source token_id now t kc fresh k buckets may rate target =
    let (scope, known, granted) = may.scope_granted in
    ground (arith, may.other_world, may.target_listed, known, granted, rate, target)

-- A request with all its fields, behind which stands what an admitted request takes, passes the
-- checks unless the hourly limit of its world is used up.
pub gate_complete :
    (r : Request) (source : String) (token_id now : ℕ) (first fresh : Store) (t : ConnectionToken)
    (k : KnownClient) (buckets : RateBuckets) (v : IsAdmitted r source token_id first fresh t k)
    → (r.request_id == "" || r.target_client_id == "" || r.action == "") ≡ false
    → RateAllows v.source_world.0 now buckets
    → (gate r source token_id first fresh now buckets).0 ≡ admitted t k
unfolding gate
gate_complete r source token_id now first fresh t k buckets v whole rate =
    let (kc, known, may) = v.source_world in
    let (t', found, owned) = v.target_owned in
    let passes =
      world_complete r source token_id now t kc fresh k buckets may rate
        (target_complete r token_id t t' fresh k found owned) in
    ground (arith, whole, v.authenticated, v.source_token, known, passes)
