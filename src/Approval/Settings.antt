-- ===== src/Approval/Settings.antt =====
-- handler/pair_request.go and handler/connection_tokens.go together: from the approval of a pair
-- request to the paired world.
use foundryvtt_rest_api_rela.Base.{
  Dict, Distinct, Distinct-insert, Option, Option-cases, String, arith, beq_self, eqb_iff, false,
  find_row, find_row-holds, find_row-lookup, find_row-some, inl, inr, insert, is_some, lookup,
  lookup-insert, nat_eq, refl, some, str_iff, string_eq, subst, sym, true, ℕ, ◌||◌, ◌≡◌,
}
use foundryvtt_rest_api_rela.Approval.Worlds.{
  World, PairingCode, PairTables, find_world, is_client, set_cross_world_settings, upsert,
  with_settings, merged,
}
use foundryvtt_rest_api_rela.Approval.Pairing
use foundryvtt_rest_api_rela.Approval.Pairing.{
  Body, paired, apply_settings, mark_used, choose_client_id, add_token, record_world, complete,
  world_of,
}

abbrev pub all_up : Pairing.Faults
all_up = record {
  finds = false;
  finds_world = false;
  marks = false;
  creates_code = false;
  creates_token = false;
  upserts = false;
  sets = false;
}

-- A row of the user's world with the settings.
pub record HasSettings (user_id : ℕ) (client_id : String) (targets scopes : Option String)
    (per_hour : ℕ) (t : PairTables) : Type 0 where
  pub id : ℕ
  pub world : World
  pub stored : lookup id t.worlds ≡ some world
  pub owned : world.client.user_id ≡ user_id
  pub named : world.client.client_id ≡ client_id
  pub allowed : world.client.allowed_target_clients ≡ targets
  pub scoped : world.client.remote_scopes ≡ scopes
  pub limited : world.client.remote_requests_per_hour ≡ per_hour

-- An upsert leaves a row of the world.
upserted :
    (w : World) (t : PairTables)
    → (id : ℕ) × (v : World) × (lookup id (upsert w t).worlds ≡ some v)
      × (is_client w.client.user_id w.client.client_id v ≡ true)
unfolding upsert
upserted w t =
    let own = is_client w.client.user_id w.client.client_id in
    elim (Option-cases (find_row own t.worlds)) [
      | inl nothing ↦
          rw (nothing, upsert)
            (
              t.next_world,
              w,
              ground (
                arith,
                lookup-insert t.next_world t.next_world w t.worlds,
                eqb_iff t.next_world t.next_world,
              ),
              ground
                  (arith, eqb_iff w.client.user_id w.client.user_id, beq_self w.client.client_id),
            )
      | inr ((id, old), found) ↦
          rw (found, upsert)
            (
              id,
              merged w old,
              ground (arith, lookup-insert id id (merged w old) t.worlds, eqb_iff id id),
              find_row-holds own t.worlds id old found,
            )
    ]

set_at :
    (j : ℕ) (w : World) (targets scopes : Option String) (n : ℕ) (m : Dict ℕ World)
    → lookup j m ≡ some w
    → set_cross_world_settings j targets scopes n m ≡ insert j (with_settings targets scopes n w) m
unfolding set_cross_world_settings
set_at j w targets scopes n m h = rw (h, set_cross_world_settings) refl

mark_used-worlds : (id : ℕ) (t : PairTables) → (mark_used id t).worlds ≡ t.worlds
unfolding mark_used
mark_used-worlds id t = ground arith

owner_of :
    (user_id : ℕ) (client_id : String) (w : World)
    → is_client user_id client_id w ≡ true
    → w.client.user_id ≡ user_id
owner_of user_id client_id w h = ground (arith, h)

name_of :
    (user_id : ℕ) (client_id : String) (w : World)
    → is_client user_id client_id w ≡ true
    → w.client.client_id ≡ client_id
name_of user_id client_id w h = (str_iff w.client.client_id client_id).0 (ground (arith, h))

applied :
    (c : PairingCode) (client_id : String) (t : PairTables) (i : ℕ) (v : World)
    → Distinct t.worlds
    → lookup i t.worlds ≡ some v
    → is_client c.user_id client_id v ≡ true
    → (is_some c.allowed_target_clients || is_some c.remote_scopes) ≡ true
    → HasSettings c.user_id client_id c.allowed_target_clients c.remote_scopes
        c.remote_requests_per_hour
        (apply_settings all_up c client_id t)
unfolding apply_settings find_world
applied c client_id t i v d there own has =
    let p = is_client c.user_id client_id in
    let (j, w, found) = find_row-some p i v t.worlds there own in
    let stands = find_row-lookup p t.worlds j w d found in
    let new = with_settings c.allowed_target_clients c.remote_scopes c.remote_requests_per_hour w in
    let put =
      set_at j w c.allowed_target_clients c.remote_scopes c.remote_requests_per_hour t.worlds
        stands in
    rw (has, found, put)
      (record {
        id = j;
        world = new;
        stored = ground (arith, lookup-insert j j new t.worlds, eqb_iff j j);
        owned = owner_of c.user_id client_id w (find_row-holds p t.worlds j w found);
        named = name_of c.user_id client_id w (find_row-holds p t.worlds j w found);
        allowed = refl;
        scoped = refl;
        limited = refl;
      })

Distinct-upsert : (w : World) (t : PairTables) → Distinct t.worlds → Distinct (upsert w t).worlds
unfolding upsert
Distinct-upsert w t d =
    elim (Option-cases (find_row (is_client w.client.user_id w.client.client_id) t.worlds)) [
      | inl nothing ↦ rw (nothing, upsert) (Distinct-insert t.next_world w t.worlds d)
      | inr ((id, old), found) ↦ rw (found, upsert) (Distinct-insert id (merged w old) t.worlds d)
    ]

-- A completion in which nothing fails, with a code that carries target worlds or remote scopes and
-- rows of distinct ids, answers with a client id and leaves a row of the user's world under that id
-- with exactly the settings of the code.
pub completed_settings :
    (id : ℕ) (c : PairingCode) (b : Body) (raw hash fresh : String) (t : PairTables)
    → Distinct t.worlds
    → (is_some c.allowed_target_clients || is_some c.remote_scopes) ≡ true
    → let (reply, t') = Pairing.complete all_up id c b (some (raw, hash)) fresh t in
      (x : String) × (reply ≡ paired raw x)
      × HasSettings c.user_id x c.allowed_target_clients c.remote_scopes c.remote_requests_per_hour
          t'
unfolding Pairing.complete Pairing.record_world world_of add_token
completed_settings id c b raw hash fresh t d has = (x, refl, settled)
  where
    x : String
    x = Pairing.choose_client_id all_up c b fresh (Pairing.mark_used id t)

    t2 : PairTables
    t2 = Pairing.add_token c.user_id hash x (Pairing.mark_used id t)

    t3 : PairTables
    t3 = upsert (world_of c b x t2.next_world) t2

    d3 : Distinct t3.worlds
    d3 =
        Distinct-upsert (world_of c b x t2.next_world) t2
          (subst (λ m. Distinct m) (sym (mark_used-worlds id t)) d)

    settled :
        HasSettings c.user_id x c.allowed_target_clients c.remote_scopes c.remote_requests_per_hour
          (record_world all_up c b x t2)
    settled =
        let (i, v, there, own) = upserted (world_of c b x t2.next_world) t2 in
        applied c x t3 i v d3 there own has
