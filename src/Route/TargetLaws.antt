-- ===== src/Route/TargetLaws.antt =====
-- handler/helpers/route.go: a request goes where its key may go.
use foundryvtt_rest_api_rela.Base.{
  Bool, Bool-cases, List, Option, Option-cases, String, [], arith, beq_self, contains,
  contains-select, false, if◌then◌else◌, inl, inr, lookup, lookup-insert, nat_eq, none, refl,
  select, some, str_iff, string_eq, subst, sym, true, ℕ, ◌==◌, ◌∙◌, ◌∷◌, ◌≡◌, ◌⊎◌,
}
use foundryvtt_rest_api_rela.Ws.Manager.Queries.{get_connected_clients}
use foundryvtt_rest_api_rela.Base.Json.{Value}
use foundryvtt_rest_api_rela.Access.Context.{RequestContext, ScopedKeyInfo}
use foundryvtt_rest_api_rela.Ws.Manager.Defs.{Manager}
use foundryvtt_rest_api_rela.Route.Params.{Params, get_string}
use foundryvtt_rest_api_rela.Route.Target.{
  Answer, choose, started, restarted, registered, enforce_clients, Caller, AutoStart,
  can_access_client, enforce_scope, start_missing, goes_to, get_target, with_client,
  allowed_clients, client, start_any, choose_for, resolve_client, Resolution, ends, inject_user,
  find_target,
}

-- A start gives the id that it is asked for, or none.
abbrev pub StartsAsAsked : AutoStart → Type 0
StartsAsAsked none = Unit
StartsAsAsked (some start) =
    (ctx : RequestContext) (id : String) (m : Manager)
    → ((start ctx id m).0 ≡ "") ⊎ ((start ctx id m).0 ≡ id)

pub get_string-with_client :
    (id : String) (p : Params) → get_string "clientId" (with_client id p) ≡ id
unfolding get_string
get_string-with_client id p =
    ground (
      arith,
      lookup-insert "clientId" "clientId" (Value.str id) p,
      beq_self {A = String} "clientId",
    )

registered_lem :
    (id : String) (p : Params) (m : Manager) (id' : String) (ref : ℕ) (p' : Params) (m' : Manager)
    → registered (id, p, m) ≡ goes_to id' ref p' m'
    → (id' ≡ id) × (lookup id m'.clients ≡ some ref)
registered_lem id p m id' ref p' m' h = elim (Option-cases (lookup id m.clients)) [
  | inl gone ↦ absurd (ground (arith, h, gone))
  | inr (r, there) ↦ (ground (arith, h, there), ground (arith, h, there))
]

restarted_lem :
    (id : String) (p : Params) (j : String) (n : Manager) (id' : String) (ref : ℕ) (p' : Params)
    (m' : Manager)
    → (j ≡ "") ⊎ (j ≡ id)
    → restarted id p (j, n) ≡ goes_to id' ref p' m'
    → (id' ≡ id) × (lookup id m'.clients ≡ some ref)
restarted_lem id p j n id' ref p' m' (inl e) h = absurd (ground (arith, h, str_iff j "", e))
restarted_lem id p j n id' ref p' m' (inr e) h = elim (Bool-cases (j == "")) [
  | inl none_started ↦ absurd (ground (arith, h, none_started))
  | inr started_one ↦
      let (named, there) =
        registered_lem j (with_client j p) n id' ref p' m' (ground (arith, h, started_one)) in
      (named ∙ e, subst (λ x. lookup x m'.clients ≡ some ref) e there)
]

start_missing_lem :
    (start : AutoStart) (caller : Option Caller) (id : String) (p : Params) (m : Manager)
    (id' : String) (ref : ℕ) (p' : Params) (m' : Manager)
    → StartsAsAsked start
    → start_missing start caller id p m ≡ goes_to id' ref p' m'
    → (id' ≡ id) × (lookup id m'.clients ≡ some ref)
unfolding start_missing
start_missing_lem none caller id p m id' ref p' m' asked h = absurd (ground (arith, h))
start_missing_lem (some start) none id p m id' ref p' m' asked h = absurd (ground (arith, h))
start_missing_lem (some start) (some c) id p m id' ref p' m' asked h =
    elim (Option-cases c.context.scoped_key) [
      | inl no_key ↦ absurd (ground (arith, h, no_key))
      | inr (k, key) ↦
          restarted_lem id p (start c.context id m).0 (start c.context id m).1 id' ref p' m'
            (asked c.context id m) (ground (arith, h, key))
    ]

-- The client that a request goes to is the one that was chosen, and it is registered.
get_target_lem :
    (start : AutoStart) (caller : Option Caller) (id : String) (p : Params) (m : Manager)
    (id' : String) (ref : ℕ) (p' : Params) (m' : Manager)
    → StartsAsAsked start
    → get_target start caller id p m ≡ goes_to id' ref p' m'
    → (id' ≡ id) × (lookup id m'.clients ≡ some ref)
unfolding get_target
get_target_lem start caller id p m id' ref p' m' asked h =
    elim (Option-cases (lookup id m.clients)) [
      | inr (r, there) ↦ (ground (arith, h, there), ground (arith, h, there))
      | inl nowhere ↦
          start_missing_lem start caller id p m id' ref p' m' asked (ground (arith, h, nowhere))
    ]

member_selected :
    (p : String → Bool) (id : String) (ids : List String)
    → contains id (select p ids) ≡ true
    → p id ≡ true
member_selected p id ids h = ground (arith, h, contains-select p id ids)

can_access_member :
    (k : ScopedKeyInfo) (id x : String) (ids : List String)
    → k.scoped_client_ids ≡ id ∷ ids
    → can_access_client k x ≡ contains x (id ∷ ids)
unfolding can_access_client
can_access_member k id x ids list = rw (list, can_access_client) refl

enforced_requested :
    (k : ScopedKeyInfo) (id : String) (ids : List String) (p p' : Params)
    → (get_string "clientId" p == "") ≡ false
    → enforce_clients k (id ∷ ids) p ≡ some p'
    → can_access_client k (get_string "clientId" p') ≡ true
enforced_requested k id ids p p' asked h =
    elim (Bool-cases (can_access_client k (get_string "clientId" p))) [
      | inl within ↦ ground (arith, h, asked, within)
      | inr outside ↦ absurd (ground (arith, h, asked, outside))
    ]

enforced_blank :
    (k : ScopedKeyInfo) (id : String) (ids : List String) (p p' : Params)
    → k.scoped_client_ids ≡ id ∷ ids
    → (get_string "clientId" p == "") ≡ true
    → enforce_clients k (id ∷ ids) p ≡ some p'
    → (get_string "clientId" p' ≡ "") ⊎ (can_access_client k (get_string "clientId" p') ≡ true)
enforced_blank k id [] p p' list blank h =
    let e : with_client id p ≡ p' = ground (arith, h, blank) in
    inr (
      subst (λ q. can_access_client k (get_string "clientId" q) ≡ true) e
        (rw (get_string-with_client id p, can_access_member k id id [] list)
          (unfold contains in ground (arith, beq_self id))))
enforced_blank k id (x ∷ xs) p p' list blank h =
    let e : p ≡ p' = ground (arith, h, blank) in
    inl (
      subst (λ q. get_string "clientId" q ≡ "") e
        ((str_iff (get_string "clientId" p) "").0 (ground (arith, blank))))

-- What the enforcement leaves a key with a list of clients: a request for one of them, or for none.
enforced :
    (k : ScopedKeyInfo) (id : String) (ids : List String) (p p' : Params)
    → k.scoped_client_ids ≡ id ∷ ids
    → enforce_scope (some k) p ≡ some p'
    → (get_string "clientId" p' ≡ "") ⊎ (can_access_client k (get_string "clientId" p') ≡ true)
unfolding enforce_scope
enforced k id ids p p' list h =
    let h' : enforce_clients k (id ∷ ids) p ≡ some p' =
      subst (λ xs. enforce_clients k xs p ≡ some p') list h in
    elim (Bool-cases (get_string "clientId" p == "")) [
      | inl blank ↦ enforced_blank k id ids p p' list blank h'
      | inr asked ↦ inr (enforced_requested k id ids p p' asked h')
    ]

-- Only a client of the list is chosen, as a start for no client starts none.
chosen_member :
    (start : AutoStart) (ctx : RequestContext) (ids : List String) (m : Manager) (id : String)
    (m' : Manager)
    → StartsAsAsked start
    → choose start ctx ids m ≡ client id m'
    → (contains id ids ≡ true) × (m' ≡ m)
unfolding contains start_any
chosen_member none ctx [] m id m' asked h = absurd (ground (arith, h))
chosen_member (some start) ctx [] m id m' asked h =
    absurd (nothing_started (start ctx "" m) (elim (asked ctx "" m) [ inl e ↦ e | inr e ↦ e ]) h)
  where
    nothing_started : (s : String × Manager) → s.0 ≡ "" → started s ≡ client id m' → ⊥
    nothing_started (x, n) e =
        subst (λ y. started (y, n) ≡ client id m' → ⊥) (sym e) (λ g. ground (arith, g))
chosen_member start ctx (x ∷ []) m id m' asked h =
    let e : x ≡ id = ground (arith, h) in (ground (arith, e, beq_self id), ground (arith, h))
chosen_member start ctx (x ∷ y ∷ ids) m id m' asked h = absurd (ground (arith, h))

-- A client that is chosen for a request that names none is connected, of the account, and one that
-- the key may reach.
pub resolve_client_lem :
    (start : AutoStart) (c : Caller) (p : Params) (m : Manager) (id : String) (m' : Manager)
    → StartsAsAsked start
    → get_string "clientId" p ≡ ""
    → resolve_client start (some c) p m ≡ client id m'
    → (contains id
          (allowed_clients c.context.scoped_key (get_connected_clients c.context.master_api_key m))
        ≡ true)
      × (m' ≡ m)
unfolding resolve_client
resolve_client_lem start c p m id m' asked blank h =
    let key = c.context.master_api_key in
    let no_id : (get_string "clientId" p == "") ≡ true = rw (blank) refl in
    let h' : choose_for start (some c) m ≡ client id m' = ground (arith, h, no_id) in
    elim (Bool-cases (key == "")) [
      | inl no_key ↦ absurd (ground (arith, h', no_key))
      | inr with_key ↦
          chosen_member start c.context
            (allowed_clients c.context.scoped_key (get_connected_clients key m)) m id m' asked
            (ground (arith, h', with_key))
    ]

Resolution-cases :
    (r : Resolution)
    → ((a : Answer) × (m : Manager) × (r ≡ ends a m))
      ⊎ ((id : String) × (m : Manager) × (r ≡ client id m))
Resolution-cases (ends a m) = inl (a, m, refl)
Resolution-cases (client id m) = inr (id, m, refl)

-- The way of a request that goes somewhere.
pub record Way (start : AutoStart) (c : Caller) (p : Params) (m : Manager) (id : String) (ref : ℕ)
    (m' : Manager) : Type 0 where
  pub enforced_p : Params
  pub kept_scope : enforce_scope c.context.scoped_key p ≡ some enforced_p
  pub between : Manager
  pub resolved : resolve_client start (some c) enforced_p m ≡ client id between
  pub injected : Params
  pub p' : Params
  pub target : get_target start (some c) id injected between ≡ goes_to id ref p' m'
  pub there : lookup id m'.clients ≡ some ref

pub way :
    (start : AutoStart) (c : Caller) (p : Params) (m : Manager) (id : String) (ref : ℕ)
    (p' : Params) (m' : Manager)
    → StartsAsAsked start
    → find_target start (some c) p m ≡ goes_to id ref p' m'
    → Way start c p m id ref m'
unfolding find_target
way start c p m id ref p' m' asked h = elim (Option-cases (enforce_scope c.context.scoped_key p)) [
  | inl barred ↦ absurd (ground (arith, h, barred))
  | inr (q, kept_q) ↦ elim (Resolution-cases (resolve_client start (some c) q m)) [
    | inl (a, n, over) ↦ absurd (ground (arith, h, kept_q, over))
    | inr (j, n, chosen) ↦
        let r =
          inject_user (some c) j (if get_string "clientId" q == "" then with_client j q else q) in
        let goes : get_target start (some c) j r n ≡ goes_to id ref p' m' =
          ground (arith, h, kept_q, chosen) in
        let (same, there) = get_target_lem start (some c) j r n id ref p' m' asked goes in
        record {
          enforced_p = q;
          kept_scope = kept_q;
          between = n;
          resolved = rw (same) chosen;
          injected = r;
          p' = p';
          target =
              subst (λ x. get_target start (some c) x r n ≡ goes_to id ref p' m') (sym same) goes;
          there = rw (same) there;
        }
  ]
]

requested :
    (start : AutoStart) (c : Caller) (q : Params) (m : Manager) (id : String) (n : Manager)
    → (get_string "clientId" q == "") ≡ false
    → resolve_client start (some c) q m ≡ client id n
    → get_string "clientId" q ≡ id
unfolding resolve_client
requested start c q m id n named h = ground (arith, h, named)

named_blank : (s : String) → (s == "") ≡ false → s ≡ "" → ⊥
named_blank s named e =
    let blank : (s == "") ≡ true = subst (λ x. (x == "") ≡ true) (sym e) refl in
    ground (arith, named, blank)

-- A request with a key that is bound to a list of clients goes, if anywhere, to the client that is
-- registered under an id of that list as the choice leaves the manager, provided that a start gives
-- the client that it is asked for, or none. Whether that client is still connected is not looked at.
pub scoped_target :
    (start : AutoStart) (c : Caller) (k : ScopedKeyInfo) (first : String) (rest : List String)
    (p : Params) (m : Manager) (id : String) (ref : ℕ) (p' : Params) (m' : Manager)
    → StartsAsAsked start
    → c.context.scoped_key ≡ some k
    → k.scoped_client_ids ≡ first ∷ rest
    → find_target start (some c) p m ≡ goes_to id ref p' m'
    → (contains id (first ∷ rest) ≡ true) × (lookup id m'.clients ≡ some ref)
unfolding allowed_clients
scoped_target start c k first rest p m id ref p' m' asked key list h =
    (sym (can_access_member k first id rest list) ∙ reach, w.there)
  where
    w : Way start c p m id ref m'
    w = way start c p m id ref p' m' asked h

    q : Params
    q = w.enforced_p

    within : (get_string "clientId" q ≡ "") ⊎ (can_access_client k (get_string "clientId" q) ≡ true)
    within =
        enforced k first rest p q list (subst (λ s. enforce_scope s p ≡ some q) key w.kept_scope)

    reach : can_access_client k id ≡ true
    reach = elim (Bool-cases (get_string "clientId" q == "")) [
      | inl blank ↦
          let (listed, same) =
            resolve_client_lem start c q m id w.between asked
              ((str_iff (get_string "clientId" q) "").0 blank) w.resolved in
          member_selected (can_access_client k) id
            (get_connected_clients c.context.master_api_key m)
            (subst
              (λ s.
                contains id (allowed_clients s (get_connected_clients c.context.master_api_key m))
                ≡ true)
              key listed)
      | inr named ↦ elim within [
        | inl e ↦ absurd (named_blank (get_string "clientId" q) named e)
        | inr e ↦
            subst (λ x. can_access_client k x ≡ true)
              (requested start c q m id w.between named w.resolved) e
      ]
    ]
