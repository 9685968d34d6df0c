-- ===== src/Route/Ownership.antt =====
-- handler/helpers/route.go: whose world a request goes to.
use foundryvtt_rest_api_rela.Base.{
  List, Option, String, [], arith, contains, contains-select, false, lookup, nat_eq, none, refl,
  some, string_eq, subst, sym, true, ℕ, ◌==◌, ◌∙◌, ◌∷◌, ◌≡◌,
}
use foundryvtt_rest_api_rela.Access.Context.{ScopedKeyInfo}
use foundryvtt_rest_api_rela.Ws.Manager.Defs.{Manager}
use foundryvtt_rest_api_rela.Ws.Manager.Queries.{get_connected_clients}
use foundryvtt_rest_api_rela.Ws.Manager.Registry.{Inv}
use foundryvtt_rest_api_rela.Ws.Manager.Isolation.{get_connected_clients_exact}
use foundryvtt_rest_api_rela.Route.Params.{Params, get_string}
use foundryvtt_rest_api_rela.Route.Target.{
  Caller, AutoStart, can_access_client, enforce_scope, allowed_clients, client, resolve_client,
  inject_user, goes_to, get_target, find_target, found, with_client,
}
use foundryvtt_rest_api_rela.Route.TargetLaws.{
  StartsAsAsked, resolve_client_lem, Way, way, get_string-with_client,
}

listed_among :
    (key : Option ScopedKeyInfo) (id : String) (ids : List String)
    → contains id (allowed_clients key ids) ≡ true
    → contains id ids ≡ true
unfolding allowed_clients
listed_among none id ids h = h
listed_among (some k) id ids h = ground (arith, h, contains-select (can_access_client k) id ids)

-- As long as groups and clients agree, and a start gives the client that it is asked for or none: a
-- request that is left without a client id, the key's own client included, goes, if anywhere, to a
-- connected client of the caller's account, and the choice leaves the manager as it was.
pub account_target :
    (start : AutoStart) (c : Caller) (p q : Params) (m : Manager) (id : String) (ref : ℕ)
    (p' : Params) (m' : Manager)
    → Inv m
    → StartsAsAsked start
    → enforce_scope c.context.scoped_key p ≡ some q
    → get_string "clientId" q ≡ ""
    → find_target start (some c) p m ≡ goes_to id ref p' m'
    → (m' ≡ m) × ((m.heap ref).api_key ≡ c.context.master_api_key) × ((m.heap ref).connected ≡ true)
unfolding get_target
account_target start c p q m id ref p' m' v asked scope blank h =
    let (r, found_r, key, on) = owner in
    let this : r ≡ ref = ground (arith, moved, found_r) in
    (
      ground (arith, moved, found_r),
      subst (λ x. (m.heap x).api_key ≡ c.context.master_api_key) this key,
      subst (λ x. (m.heap x).connected ≡ true) this on,
    )
  where
    w : Way start c p m id ref m'
    w = way start c p m id ref p' m' asked h

    same : w.enforced_p ≡ q
    same = ground (arith, w.kept_scope, scope)

    chosen :
        (contains id (
            allowed_clients c.context.scoped_key (get_connected_clients c.context.master_api_key m))
          ≡ true)
        × (w.between ≡ m)
    chosen =
        resolve_client_lem start c w.enforced_p m id w.between asked
          (subst (λ r. get_string "clientId" r ≡ "") (sym same) blank) w.resolved

    owner :
        (r : ℕ) × (lookup id m.clients ≡ some r)
        × ((m.heap r).api_key ≡ c.context.master_api_key)
        × ((m.heap r).connected ≡ true)
    owner = (get_connected_clients_exact c.context.master_api_key id m v).0 (
        listed_among c.context.scoped_key id (get_connected_clients c.context.master_api_key m)
          chosen.0)

    moved : (get_target start (some c) id w.injected m) ≡ goes_to id ref w.p' m'
    moved =
        subst (λ n. get_target start (some c) id w.injected n ≡ goes_to id ref w.p' m') chosen.1
          w.target

-- A key whose list has one client sends a request that names no client there, whichever account the
-- client belongs to: the list is not compared with the account.
pub sole_client_unchecked :
    (start : AutoStart) (c : Caller) (k : ScopedKeyInfo) (id : String) (p : Params) (m : Manager)
    (ref : ℕ)
    → c.context.scoped_key ≡ some k
    → k.scoped_client_ids ≡ id ∷ []
    → (id == "") ≡ false
    → get_string "clientId" p ≡ ""
    → lookup id m.clients ≡ some ref
    → find_target start (some c) p m ≡ goes_to id ref (inject_user (some c) id (with_client id p)) m
sole_client_unchecked start c k id p m ref key list named blank there =
    to_found ∙ to_target ∙ unfold get_target in rw (there, get_target) refl
  where
    q : Params
    q = with_client id p

    selected : enforce_scope c.context.scoped_key p ≡ some (with_client id p)
    selected = unfold enforce_scope in rw (key, list, blank) refl

    with_id : (get_string "clientId" (with_client id p) == "") ≡ false
    with_id = subst (λ s. (s == "") ≡ false) (sym (get_string-with_client id p)) named

    resolved : resolve_client start (some c) (with_client id p) m ≡ client id m
    resolved = unfold resolve_client in rw (get_string-with_client id p, named) refl

    to_found :
        find_target start (some c) p m ≡ found start (some c) q (resolve_client start (some c) q m)
    to_found = unfold find_target in rw (selected, find_target) refl

    to_target :
        found start (some c) q (resolve_client start (some c) q m)
        ≡ get_target start (some c) id (inject_user (some c) id q) m
    to_target = rw (resolved) (rw (with_id) refl)
