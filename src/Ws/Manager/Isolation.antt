-- ===== src/Ws/Manager/Isolation.antt =====
-- manager.go: a broadcast stays within the sender's API key, and the lists of connected clients are
-- exact, as long as groups and clients agree.
use foundryvtt_rest_api_rela.Base.{
  All, Bool-cases, List, Object, Option-cases, String, [], arith, beq_self, contains,
  contains-select, inl, inr, lookup, nat_eq, not, refl, select, some, str_iff, string_eq, true, ℕ,
  ◌&&◌, ◌==◌, ◌↔◌, ◌∙◌, ◌∷◌, ◌≡◌, ◌≢◌, ◌⊎◌,
}
use foundryvtt_rest_api_rela.Ws.Manager.Defs.{Manager}
use foundryvtt_rest_api_rela.Ws.Client.{Client}
use foundryvtt_rest_api_rela.Ws.Manager.Groups.{members, in_group}
use foundryvtt_rest_api_rela.Ws.Manager.Registry.{Inv}
use foundryvtt_rest_api_rela.Ws.Manager.Queries.{
  alive_refs, broadcast_targets, is_alive, get_connected_clients, send_each, broadcast_to_group,
}

alive_refs-All :
    (P : ℕ → Type 0) (m : Manager) (ids : List String)
    → ((id : String) (r : ℕ)
        → contains id ids ≡ true
        → lookup id m.clients ≡ some r
        → (m.heap r).connected ≡ true
        → P r)
    → All P (alive_refs m ids)
unfolding alive_refs contains
alive_refs-All P m [] h = tt
alive_refs-All P m (id ∷ ids) h =
    let rest = alive_refs-All P m ids (λ j r c. h j r (ground (arith, c))) in
    elim (Option-cases (lookup id m.clients)) [
      | inl missing ↦ rw (missing, alive_refs) rest
      | inr (r, found) ↦
          rw (found, alive_refs)
            (elim (Bool-cases (m.heap r).connected) [
              | inl on ↦ rw on (h id r (ground (arith, beq_self id)) found on, rest)
              | inr off ↦ rw off rest
            ])
    ]

-- Every target of a broadcast is another client than the sender, is connected, and is registered
-- under the sender's API key.
pub broadcast_targets-own :
    (sender : String) (r : ℕ) (m : Manager)
    → Inv m
    → lookup sender m.clients ≡ some r
    → All
        (λ t. ((m.heap t).api_key ≡ (m.heap r).api_key) × ((m.heap t).connected ≡ true) × (t ≢ r))
        (broadcast_targets sender m)
unfolding broadcast_targets
broadcast_targets-own sender r m v h =
    rw (h, broadcast_targets)
      (alive_refs-All _ m _ (λ id q c e on.
        let others = contains-select (λ j. not (j == sender)) id group in
        let (q', found, key) = v.registered (m.heap r).api_key id (ground (arith, others, c)) in
        (
          ground (arith, key, found, e),
          on,
          λ same.
              ground
                (arith, others, c, str_iff id sender, v.named id q e, v.named sender r h, same),
        )))
  where
    group : List String
    group = members (m.heap r).api_key m.token_groups

send_each_other :
    (msg : Object) (rs : List ℕ) (heap : ℕ → Client) (q : ℕ)
    → All (λ t. t ≢ q) rs
    → send_each msg rs heap q ≡ heap q
unfolding send_each
send_each_other msg [] heap q h = refl
send_each_other msg (r ∷ rs) heap q (h, hs) = send_each_other msg rs _ q hs ∙ ground arith

All-map {ℓ κ μ} :
    {A : Type ℓ} {P : A → Type κ} {Q : A → Type μ} (xs : List A)
    → ((a : A) → P a → Q a)
    → All P xs
    → All Q xs
All-map [] f h = tt
All-map (x ∷ xs) f (h, hs) = (f x h, All-map xs f hs)

-- As long as groups and clients agree, a broadcast of one client's message to its group leaves every
-- client of another API key exactly as it was, and the sender too.
pub broadcast_isolated :
    (sender : String) (msg : Object) (r q : ℕ) (m : Manager)
    → Inv m
    → lookup sender m.clients ≡ some r
    → ((m.heap q).api_key ≢ (m.heap r).api_key) ⊎ (q ≡ r)
    → (broadcast_to_group sender msg m).heap q ≡ m.heap q
unfolding broadcast_to_group
broadcast_isolated sender msg r q m v h apart =
    send_each_other msg (broadcast_targets sender m) m.heap q (
      All-map (broadcast_targets sender m) (λ t own same. ground (arith, own, same))
        (broadcast_targets-own sender r m v h))

-- A client id is listed under an API key exactly if a connected client of that key is registered
-- under the id.
pub get_connected_clients_exact :
    (api_key id : String) (m : Manager)
    → Inv m
    → (contains id (get_connected_clients api_key m) ≡ true) ↔ (
        (r : ℕ) × (lookup id m.clients ≡ some r)
        × ((m.heap r).api_key ≡ api_key)
        × ((m.heap r).connected ≡ true))
unfolding get_connected_clients
get_connected_clients_exact api_key id m v = (
  λ c.
      let (r, found, key) = v.registered api_key id (ground (arith, listed, c)) in
      (r, found, key, ground (arith, listed, c, found)),
  λ (r, found, key, on). ground (arith, listed, found, on, v.member id r found, key),
)
  where
    listed :
        contains id (select (is_alive m) (members api_key m.token_groups))
        ≡ (is_alive m id && in_group api_key id m.token_groups)
    listed = contains-select (is_alive m) id (members api_key m.token_groups)
