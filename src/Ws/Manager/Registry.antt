-- ===== src/Ws/Manager/Registry.antt =====
-- manager.go: the map of clients, the groups of the API keys and the gauge agree.
use foundryvtt_rest_api_rela.Base.{
  Bool, Bool-cases, Distinct, Distinct-delete, List, Option-cases, String, [], arith, contains, eqb,
  false, inl, inr, length, length-delete, lookup, lookup-delete, nat_eq, none, refl, some, str_iff,
  string_eq, true, ℕ, ◌<◌, ◌∷◌, ◌≡◌,
}
use foundryvtt_rest_api_rela.Ws.Manager.Groups.{in_group, in_group-leave, members}
use foundryvtt_rest_api_rela.Ws.Client.{Client}
use foundryvtt_rest_api_rela.Ws.Manager.Defs.{
  Manager, unregister, Event, log_events, remove_registered, remove_client, remove_client_if_match,
  remove_all, cleanup_inactive_clients, new_manager,
}

-- Ids stand once; each is registered with an allocated client of that id, in the group of that
-- client's API key; each member of a group is a registered client of that key; the gauge counts.
pub record Inv (m : Manager) : Type 0 where
  pub distinct : Distinct m.clients
  pub allocated : (id : String) (r : ℕ) → lookup id m.clients ≡ some r → r < m.next
  pub named : (id : String) (r : ℕ) → lookup id m.clients ≡ some r → (m.heap r).id ≡ id
  pub member :
      (id : String) (r : ℕ)
      → lookup id m.clients ≡ some r
      → in_group (m.heap r).api_key id m.token_groups ≡ true
  pub registered :
      (token id : String)
      → in_group token id m.token_groups ≡ true
      → (r : ℕ) × (lookup id m.clients ≡ some r) × ((m.heap r).api_key ≡ token)
  pub counted : m.active ≡ length m.clients

no_client :
    (redis : Bool) (name : String) (heap : ℕ → Client) (id : String)
    → lookup id (new_manager redis name heap).clients ≡ none
unfolding new_manager lookup
no_client redis name heap id = refl

no_member :
    (redis : Bool) (name : String) (heap : ℕ → Client) (token id : String)
    → in_group token id (new_manager redis name heap).token_groups ≡ false
unfolding new_manager lookup members contains
no_member redis name heap token id = refl

pub new_manager-Inv :
    (redis : Bool) (name : String) (heap : ℕ → Client) → Inv (new_manager redis name heap)
unfolding new_manager
new_manager-Inv redis name heap = record {
  distinct = tt;
  allocated = λ id r e. ground (arith, no_client redis name heap id, e);
  named = λ id r e. ground (arith, no_client redis name heap id, e);
  member = λ id r e. ground (arith, no_client redis name heap id, e);
  registered = λ t id e. absurd (ground (arith, no_member redis name heap t id, e));
  counted = ground arith;
}

pub unregister-Inv :
    (id : String) (r : ℕ) (m : Manager)
    → Inv m
    → lookup id m.clients ≡ some r
    → Inv (unregister id (m.heap r).api_key m)
unfolding unregister
unregister-Inv id r m v h = record {
  distinct = Distinct-delete id m.clients v.distinct;
  allocated = λ j q e. ground (arith, lookup-delete id j m.clients, v.allocated j q, e);
  named = λ j q e. ground (arith, lookup-delete id j m.clients, v.named j q, e);
  member = λ j q e. ground (
    arith,
    str_iff id j,
    lookup-delete id j m.clients,
    v.member j q,
    in_group-leave (m.heap r).api_key id (m.heap q).api_key j m.token_groups,
    e,
  );
  registered = λ t j e.
      let (q, found, key) =
        v.registered t j (ground (arith, in_group-leave token id t j m.token_groups, e)) in
      (
        q,
        ground (
          arith,
          str_iff id j,
          str_iff token t,
          in_group-leave token id t j m.token_groups,
          lookup-delete id j m.clients,
          found,
          key,
          e,
          h,
        ),
        key,
      );
  counted = omega (arith, v.counted, length-delete id r m.clients v.distinct h);
}
  where
    token : String
    token = (m.heap r).api_key

-- Clients may change behind their pointers, but for the id and the API key.
pub reheap-Inv :
    (heap : ℕ → Client) (m : Manager)
    → ((q : ℕ) → ((heap q).id ≡ (m.heap q).id) × ((heap q).api_key ≡ (m.heap q).api_key))
    → Inv m
    → Inv (record m { heap = heap })
reheap-Inv heap m same v = record {
  distinct = v.distinct;
  allocated = v.allocated;
  named = λ j q e. ground (arith, same q, v.named j q e);
  member = λ j q e. rw ((same q).1) (v.member j q e);
  registered =
      λ t j e. let (q, found, key) = v.registered t j e in (q, found, ground (arith, same q, key));
  counted = v.counted;
}

pub log_events-Inv : (es : List Event) (m : Manager) → Inv m → Inv (log_events es m)
log_events-Inv es m v = record {
  distinct = v.distinct;
  allocated = v.allocated;
  named = v.named;
  member = v.member;
  registered = v.registered;
  counted = v.counted;
}

remove_registered-Inv :
    (id : String) (remaining : String → String → ℕ) (r : ℕ) (m : Manager)
    → Inv m
    → lookup id m.clients ≡ some r
    → Inv (remove_registered id remaining r m)
unfolding remove_registered
remove_registered-Inv id remaining r m v h = log_events-Inv _ _ (unregister-Inv id r m v h)

pub remove_client-Inv :
    (id : String) (remaining : String → String → ℕ) (m : Manager)
    → Inv m
    → Inv (remove_client id remaining m)
unfolding remove_client
remove_client-Inv id remaining m v = elim (Option-cases (lookup id m.clients)) [
  | inl missing ↦ rw (missing, remove_client) v
  | inr (r, found) ↦ rw (found, remove_client) (remove_registered-Inv id remaining r m v found)
]

pub remove_client_if_match-Inv :
    (id : String) (expected : ℕ) (remaining : String → String → ℕ) (m : Manager)
    → Inv m
    → Inv (remove_client_if_match id expected remaining m)
unfolding remove_client_if_match
remove_client_if_match-Inv id expected remaining m v = elim (Option-cases (lookup id m.clients)) [
  | inl missing ↦ rw (missing, remove_client_if_match) v
  | inr (r, found) ↦
      rw (found, remove_client_if_match)
        (elim (Bool-cases (eqb r expected)) [
          | inl same ↦ rw same (remove_registered-Inv id remaining r m v found)
          | inr other ↦ rw other v
        ])
]

remove_all-Inv :
    (remaining : String → String → ℕ) (ids : List String) (m : Manager)
    → Inv m
    → Inv (remove_all remaining ids m)
unfolding remove_all
remove_all-Inv remaining [] m v = v
remove_all-Inv remaining (id ∷ ids) m v =
    remove_all-Inv remaining ids _ (remove_client-Inv id remaining m v)

pub cleanup_inactive_clients-Inv :
    (remaining : String → String → ℕ) (m : Manager)
    → Inv m
    → Inv (cleanup_inactive_clients remaining m)
unfolding cleanup_inactive_clients
cleanup_inactive_clients-Inv remaining m v = remove_all-Inv remaining _ m v

-- What takes clients away.
pub data Leaving : Type 0 where
  removes : String → Leaving
  if_match : String → ℕ → Leaving
  cleans : Leaving

abbrev pub leave_step : (String → String → ℕ) → Leaving → Manager → Manager
leave_step remaining (removes id) m = remove_client id remaining m
leave_step remaining (if_match id expected) m = remove_client_if_match id expected remaining m
leave_step remaining cleans m = cleanup_inactive_clients remaining m

abbrev pub leaving : List Leaving → (String → String → ℕ) → Manager → Manager
leaving [] remaining m = m
leaving (l ∷ ls) remaining m = leaving ls remaining (leave_step remaining l m)

-- However clients are removed, one by one, by the cleanup of a connection or as inactive, and
-- whatever Redis answers, the map of clients, the groups of the API keys and the gauge keep agreeing.
pub leaving-Inv :
    (ls : List Leaving) (remaining : String → String → ℕ) (m : Manager)
    → Inv m
    → Inv (leaving ls remaining m)
leaving-Inv [] remaining m v = v
leaving-Inv (removes id ∷ ls) remaining m v =
    leaving-Inv ls remaining _ (remove_client-Inv id remaining m v)
leaving-Inv (if_match id expected ∷ ls) remaining m v =
    leaving-Inv ls remaining _ (remove_client_if_match-Inv id expected remaining m v)
leaving-Inv (cleans ∷ ls) remaining m v =
    leaving-Inv ls remaining _ (cleanup_inactive_clients-Inv remaining m v)
