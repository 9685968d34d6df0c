-- ===== src/Ws/Manager/Revocation.antt =====
-- manager.go: a revocation reaches every client that it names and no other, here and by broadcast.
use foundryvtt_rest_api_rela.Base.{
  All, Bool, Bool-cases, Dict, List, Option-cases, String, [], any, arith, beq_self, contains, eqb,
  eqb_iff, if◌then◌else◌, subst, false, inl, inr, lookup, nat_eq, refl, some, str_iff, string_eq,
  true, update, ℕ, ◌++◌, ◌==◌, ◌∙◌, ◌∷◌, ◌≡◌, ◌≢◌,
}
use foundryvtt_rest_api_rela.Ws.Manager.Groups.{members}
use foundryvtt_rest_api_rela.Ws.Client.{Client, close, disconnect}
use foundryvtt_rest_api_rela.Ws.Client.Laws.{Inv as IsSound}
use foundryvtt_rest_api_rela.Ws.Manager.Registry.{Inv}
use foundryvtt_rest_api_rela.Ws.Manager.Defs.{Manager, DisconnectCmd, redis_publish}
use foundryvtt_rest_api_rela.Ws.Manager.Disconnects.{
  force_close, close_each, close_clients, refs_of_token, disconnect_local_by_token, or_default,
  refs_of_ids, disconnect_local_by_api_key, broadcast_disconnect_by_connection_token,
  handle_disconnect_command,
}

-- Every client is in a state from which closing `done` does not panic.
abbrev pub AllSound : (ℕ → Client) → Type 0
AllSound heap = (q : ℕ) → IsSound (heap q)

force_close_lem :
    (code : ℕ) (reason : String) (c : Client)
    → IsSound c
    → ((force_close code reason c).connected ≡ false) × IsSound (force_close code reason c)
unfolding force_close disconnect
force_close_lem code reason c s = ground arith

close_each_other :
    (code : ℕ) (reason : String) (rs : List ℕ) (heap : ℕ → Client) (q : ℕ)
    → All (λ r. r ≢ q) rs
    → close_each code reason rs heap q ≡ heap q
unfolding close_each
close_each_other code reason [] heap q h = refl
close_each_other code reason (r ∷ rs) heap q (h, hs) =
    close_each_other code reason rs _ q hs ∙ ground arith

close_each_stays :
    (code : ℕ) (reason : String) (rs : List ℕ) (heap : ℕ → Client) (q : ℕ)
    → AllSound heap
    → (heap q).connected ≡ false
    → (close_each code reason rs heap q).connected ≡ false
unfolding close_each
close_each_stays code reason [] heap q s h = h
close_each_stays code reason (r ∷ rs) heap q s h =
    close_each_stays code reason rs (update heap r (force_close code reason (heap r))) q
      (λ p. ground (arith, s p, force_close_lem code reason (heap r) (s r)))
      (ground (arith, force_close_lem code reason (heap r) (s r)))

-- A connected client after a forced disconnect: its `done` channel and its socket are closed, after a
-- close frame where the socket was open.
abbrev pub shut : ℕ → String → Client → Client
shut code reason c = record c {
  connected = false;
  done = true;
  socket_closed = true;
  written = if c.socket_closed then c.written else c.written ++ close code reason ∷ [];
}

-- A client that was disconnected before stays so.
abbrev pub Closed : ℕ → String → Client → Client → Type 0
Closed code reason old new =
    (new.connected ≡ false) × (old.connected ≡ true → new ≡ shut code reason old)

force_close-shut :
    (code : ℕ) (reason : String) (c : Client)
    → IsSound c
    → c.connected ≡ true
    → force_close code reason c ≡ shut code reason c
unfolding force_close disconnect
force_close-shut code reason c s on = elim (Bool-cases c.socket_closed) [
  | inl closed ↦ rw (closed, on, s.open_while_connected on) refl
  | inr open_yet ↦ rw (open_yet, on, s.open_while_connected on) refl
]

-- Once shut, a client is not touched again.
close_each-shut :
    (code : ℕ) (reason : String) (rs : List ℕ) (heap : ℕ → Client) (q : ℕ) (c : Client)
    → heap q ≡ shut code reason c
    → close_each code reason rs heap q ≡ shut code reason c
unfolding close_each force_close disconnect
close_each-shut code reason [] heap q c h = h
close_each-shut code reason (r ∷ rs) heap q c h =
    close_each-shut code reason rs (update heap r (force_close code reason (heap r))) q c
      (elim (Bool-cases (eqb r q)) [
        | inr other ↦ ground (arith, h, other)
        | inl this ↦ ground (arith, h, this, eqb_iff r q)
      ])

close_each_reaches :
    (code : ℕ) (reason : String) (rs : List ℕ) (heap : ℕ → Client) (q : ℕ)
    → AllSound heap
    → any (λ r. eqb r q) rs ≡ true
    → Closed code reason (heap q) (close_each code reason rs heap q)
unfolding close_each
close_each_reaches code reason [] heap q s h = cc
close_each_reaches code reason (r ∷ rs) heap q s h = elim (Bool-cases (eqb r q)) [
  | inl here ↦ (
    close_each_stays code reason rs heap' q sound
        (ground (arith, force_close_lem code reason (heap r) (s r))),
    λ on.
        close_each-shut code reason rs heap' q (heap q)
          (ground (arith, here, eqb_iff r q, force_close-shut code reason (heap q) (s q) on)),
  )
  | inr later ↦
      let same : heap' q ≡ heap q = ground (arith, later) in
      subst (λ old. Closed code reason old (close_each code reason rs heap' q)) same
        (close_each_reaches code reason rs heap' q sound (ground arith))
]
  where
    heap' : ℕ → Client
    heap' = update heap r (force_close code reason (heap r))

    sound : AllSound heap'
    sound p = ground (arith, s p, force_close_lem code reason (heap r) (s r))

refs_of_token-any :
    (token_id : ℕ) (heap : ℕ → Client) (id : String) (r : ℕ) (m : Dict String ℕ)
    → lookup id m ≡ some r
    → (heap r).connection_token_id ≡ token_id
    → any (λ q. eqb q r) (refs_of_token token_id heap m) ≡ true
unfolding refs_of_token lookup
refs_of_token-any token_id heap id r [] h e = cc
refs_of_token-any token_id heap id r ((j, q) ∷ m) h e =
    ground (arith, refs_of_token-any token_id heap id r m)

refs_of_token-All :
    (token_id : ℕ) (heap : ℕ → Client) (q : ℕ) (m : Dict String ℕ)
    → (heap q).connection_token_id ≢ token_id
    → All (λ r. r ≢ q) (refs_of_token token_id heap m)
unfolding refs_of_token
refs_of_token-All token_id heap q [] h = tt
refs_of_token-All token_id heap q ((j, r) ∷ m) h =
    ground (arith, refs_of_token-All token_id heap q m h)

-- A client that a forced disconnect names, or does not name, before and after it.
abbrev pub ClosedIf : Bool → ℕ → String → Client → Client → Type 0
ClosedIf true code reason old new = Closed code reason old new
ClosedIf false code reason old new = new ≡ old

-- Revoking a connection token other than 0, with sound clients (none has its `done` channel closed
-- while it counts as connected, or more in its send channel than fits), leaves every registered client
-- that authenticated with the token disconnected. One that was connected has its `done` channel and
-- its socket closed then, and where the socket was open, a close frame with the reason and the code
-- (4002 in place of 0) was written to it. Each registered client with another token, or none, is left
-- exactly as it was.
pub token_revocation_exact :
    (token_id code : ℕ) (reason id : String) (r : ℕ) (m : Manager)
    → AllSound m.heap
    → token_id ≢ 0
    → lookup id m.clients ≡ some r
    → ClosedIf
        (eqb (m.heap r).connection_token_id token_id)
        (or_default code)
        reason
        (m.heap r)
        ((disconnect_local_by_token token_id code reason m).1.heap r)
unfolding disconnect_local_by_token close_clients
token_revocation_exact token_id code reason id r m s nonzero h =
    let live : eqb token_id 0 ≡ false = ground (arith, nonzero) in
    rw live (elim (Bool-cases (eqb (m.heap r).connection_token_id token_id)) [
      | inl own ↦ rw own (
          close_each_reaches (or_default code) reason _ m.heap r s
            (refs_of_token-any token_id m.heap id r m.clients h (ground arith)))
      | inr other ↦ rw other (
          close_each_other (or_default code) reason _ m.heap r
            (refs_of_token-All token_id m.heap r m.clients (ground arith)))
    ])

refs_of_ids-any :
    (clients : Dict String ℕ) (id : String) (r : ℕ) (ids : List String)
    → lookup id clients ≡ some r
    → contains id ids ≡ true
    → any (λ q. eqb q r) (refs_of_ids clients ids) ≡ true
unfolding refs_of_ids contains
refs_of_ids-any clients id r [] h c = cc
refs_of_ids-any clients id r (j ∷ ids) h c =
    ground (arith, str_iff j id, h, refs_of_ids-any clients id r ids)

refs_of_ids-All :
    (P : ℕ → Type 0) (clients : Dict String ℕ) (ids : List String)
    → ((id : String) (r : ℕ) → contains id ids ≡ true → lookup id clients ≡ some r → P r)
    → All P (refs_of_ids clients ids)
unfolding refs_of_ids contains
refs_of_ids-All P clients [] h = tt
refs_of_ids-All P clients (id ∷ ids) h =
    let rest = refs_of_ids-All P clients ids (λ j r c. h j r (ground (arith, c))) in
    elim (Option-cases (lookup id clients)) [
      | inl missing ↦ rw (missing, refs_of_ids) rest
      | inr (r, found) ↦ rw (found, refs_of_ids) (h id r (ground (arith, beq_self id)) found, rest)
    ]

-- Revoking an API key disconnects every client registered under it, and leaves each client of
-- another key exactly as it was, as long as groups and clients agree.
pub api_key_revocation_exact :
    (api_key reason id : String) (code r : ℕ) (m : Manager)
    → Inv m
    → AllSound m.heap
    → (api_key == "") ≡ false
    → lookup id m.clients ≡ some r
    → ClosedIf
        ((m.heap r).api_key == api_key)
        (or_default code)
        reason
        (m.heap r)
        ((disconnect_local_by_api_key api_key code reason m).1.heap r)
unfolding disconnect_local_by_api_key close_clients
api_key_revocation_exact api_key reason id code r m v s nonempty h =
    rw nonempty (elim (Bool-cases ((m.heap r).api_key == api_key)) [
      | inl own ↦ rw own (
          close_each_reaches (or_default code) reason _ m.heap r s (
            refs_of_ids-any m.clients id r (members api_key m.token_groups) h
              (ground (arith, v.member id r h, str_iff (m.heap r).api_key api_key))))
      | inr other ↦ rw other (
          close_each_other (or_default code) reason _ m.heap r (
            refs_of_ids-All _ m.clients (members api_key m.token_groups) (λ j q c e same.
              let (q', found, key) = v.registered api_key j c in
              ground (arith, found, key, e, same, str_iff (m.heap r).api_key api_key))))
    ])

-- A token revocation broadcast with Redis is published once; every other instance acts on it as if
-- the token had been revoked there with the same code and reason, and the instance that published
-- it ignores it.
pub token_broadcast_reaches_peers :
    (token_id : ℕ) (reason : String) (m peer : Manager)
    → m.redis_connected ≡ true
    → (reason == "") ≡ false
    → (m.instance_id == peer.instance_id) ≡ false
    → let m' = (broadcast_disconnect_by_connection_token token_id reason m).1 in
      (cmd : DisconnectCmd) × (m'.events ≡ m.events ++ redis_publish cmd ∷ [])
      × (handle_disconnect_command (some cmd) m' ≡ m')
      × (handle_disconnect_command (some cmd) peer
          ≡ (disconnect_local_by_token token_id 4002 reason peer).1)
unfolding broadcast_disconnect_by_connection_token handle_disconnect_command
    disconnect_local_by_token close_clients
token_broadcast_reaches_peers token_id reason m peer redis named other = (
  record {
    kind = "token";
    client_id = "";
    connection_token_id = token_id;
    api_key = "";
    reason = reason;
    close_code = 4002;
    origin = m.instance_id;
  },
  ground arith,
  ground (arith, beq_self m.instance_id),
  ground arith,
)
