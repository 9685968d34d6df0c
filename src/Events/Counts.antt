-- ===== src/Events/Counts.antt =====
-- handler/helpers/sse.go: the counts that the Foundry module is told.
use foundryvtt_rest_api_rela.Base.{
  Bool-cases, Dict, List, Option-cases, String, [], arith, beq_self, false, if◌then◌else◌, inl, inr,
  insert, leb, length, lookup, lookup-insert, nat_eq, refl, str_iff, string_eq, subst, sym, ℕ, ◌&&◌,
  ◌++◌, ◌==◌, ◌∙◌, ◌∷◌, ◌≡◌,
}
use foundryvtt_rest_api_rela.Events.Totals.{
  total_same, emitted_total, put-total, store_list-same, store_list-other, count_on-append,
  count_on-without_ws,
}
use foundryvtt_rest_api_rela.Events.Streams.{
  Channel, Conn, WsEvent, CountChange, SseManager, max_sse_connections_per_client, name_of,
  channel_of, list_of, get_sse, get_ws_events, sse_count, count_on, total_for_channel, put,
  emit_count_changed, emit_total, add_sse, without, store_list, remove_sse, without_ws,
  new_sse_manager, add_ws_event, remove_ws_event, register_sse_cancel, unregister_sse_cancel,
  close_for_client_id, Call, adds, removes, adds_ws, removes_ws, registers, closes, unregisters,
  step, run,
}

-- The last count that was emitted for the client and the channel, after `n`.
unfoldable pub latest : String → String → List CountChange → ℕ → ℕ
latest id name [] n = n
latest id name (e ∷ es) n =
    latest id name es (if e.client_id == id && e.channel == name then e.count else n)

latest-append :
    (id name : String) (es : List CountChange) (e : CountChange) (n : ℕ)
    → latest id name (es ++ e ∷ []) n
      ≡ (if e.client_id == id && e.channel == name then e.count else latest id name es n)
unfolding latest
latest-append id name [] e n = refl
latest-append id name (d ∷ es) e n =
    latest-append id name es e (if d.client_id == id && d.channel == name then d.count else n)

-- What was told last is what is there.
abbrev pub IsReported : SseManager → Type 0
IsReported m = (id name : String) → latest id name m.emitted 0 ≡ total_for_channel id name m

-- A change that touches no other client or channel, followed by its count, keeps this.
emit_total-IsReported :
    (id name : String) (m m' : SseManager)
    → IsReported m
    → m'.emitted ≡ m.emitted
    → ((i n : String)
        → ((id == i) && (name == n)) ≡ false
        → total_for_channel i n m' ≡ total_for_channel i n m)
    → IsReported (emit_total id name m')
unfolding emit_count_changed
emit_total-IsReported id name m m' h told rest i n =
    rw (latest-append i n m'.emitted change 0, emitted_total i n m' (m'.emitted ++ change ∷ []))
      (elim (Bool-cases ((id == i) && (name == n))) [
        | inl here ↦ rw (here) (
            subst (λ x. total_for_channel id name m' ≡ total_for_channel x n m')
              ((str_iff id i).0 (ground (arith, here)))
              (subst (λ y. total_for_channel id name m' ≡ total_for_channel id y m')
                ((str_iff name n).0 (ground (arith, here))) refl))
        | inr other ↦ rw (other) (
            subst (λ es. latest i n es 0 ≡ total_for_channel i n m') (sym told)
              (h i n ∙ sym (rest i n other)))
      ])
  where
    change : CountChange
    change = record { client_id = id; channel = name; count = total_for_channel id name m' }

add_sse-IsReported :
    (c : Channel) (conn : Conn) (m : SseManager) → IsReported m → IsReported (add_sse c conn m).1
unfolding add_sse
add_sse-IsReported c conn m h =
    let id = conn.client_id in
    let conns = get_sse c id m in
    elim (Bool-cases (leb max_sse_connections_per_client (length conns))) [
      | inl full ↦ rw (full) h
      | inr room ↦ rw (room) (
          emit_total-IsReported id (name_of c) m
            (put c (insert id (conns ++ conn ∷ []) (m.sse c)) m) h refl
            (λ i n other.
              put-total c id (insert id (conns ++ conn ∷ []) (m.sse c)) m i n
                (λ j apart.
                  ground (arith, lookup-insert id j (conns ++ conn ∷ []) (m.sse c), apart))
                other))
    ]

remove_sse-IsReported :
    (c : Channel) (conn : Conn) (m : SseManager) → IsReported m → IsReported (remove_sse c conn m)
unfolding remove_sse
remove_sse-IsReported c conn m h =
    let id = conn.client_id in
    let left = without conn.ref (get_sse c id m) in
    emit_total-IsReported id (name_of c) m (put c (store_list id left (m.sse c)) m) h refl
      (λ i n other.
        put-total c id (store_list id left (m.sse c)) m i n
          (λ j apart. rw (store_list-other id j left (m.sse c) apart) refl) other)

-- A write of the list of one client, in which the counts of the other channels are the same.
ws-IsReported :
    (ref : ℕ) (rs : List ℕ) (events : Dict String (List ℕ)) (m : SseManager)
    → let w = m.ws_heap ref in
      IsReported m
      → ((i : String) → (w.client_id == i) ≡ false → list_of (lookup i events) ≡ get_ws_events i m)
      → ((n : String)
          → (w.channel == n) ≡ false
          → count_on m.ws_heap n (list_of (lookup w.client_id events))
            ≡ count_on m.ws_heap n (get_ws_events w.client_id m))
      → IsReported (emit_total w.client_id w.channel (record m { ws_events = events }))
ws-IsReported ref rs events m h others counts =
    let w = m.ws_heap ref in
    emit_total-IsReported w.client_id w.channel m (record m { ws_events = events }) h refl
      (λ i n other.
        total_same i n m (record m { ws_events = events }) (λ c e. unfold get_sse in refl)
          (elim (Bool-cases (w.client_id == i)) [
            | inr apart ↦ unfold get_ws_events in rw (others i apart) refl
            | inl same ↦
                subst
                  (λ x.
                    count_on m.ws_heap n (get_ws_events x (record m { ws_events = events }))
                    ≡ count_on m.ws_heap n (get_ws_events x m))
                  ((str_iff w.client_id i).0 same)
                  (unfold get_ws_events in counts n (ground (arith, same, other)))
          ]))

add_ws_event-IsReported :
    (ref : ℕ) (m : SseManager) → IsReported m → IsReported (add_ws_event ref m).1
unfolding add_ws_event
add_ws_event-IsReported ref m h =
    let w = m.ws_heap ref in
    let ws = get_ws_events w.client_id m in
    let events = insert w.client_id (ws ++ ref ∷ []) m.ws_events in
    elim (Bool-cases (leb max_sse_connections_per_client (length ws))) [
      | inl full ↦ rw (full) h
      | inr room ↦ rw (room) (
          ws-IsReported ref [] events m h
            (λ i apart.
              unfold get_ws_events in
              ground (arith, lookup-insert w.client_id i (ws ++ ref ∷ []) m.ws_events, apart))
            (λ n other.
              subst (λ rs. count_on m.ws_heap n rs ≡ count_on m.ws_heap n ws)
                (sym (inserted w.client_id ws ref m.ws_events))
                (count_on-append m.ws_heap n ws ref other)))
    ]
  where
    inserted :
        (id : String) (ws : List ℕ) (ref : ℕ) (events : Dict String (List ℕ))
        → list_of (lookup id (insert id (ws ++ ref ∷ []) events)) ≡ ws ++ ref ∷ []
    inserted id ws ref events =
        ground (arith, lookup-insert id id (ws ++ ref ∷ []) events, beq_self id)

remove_ws_event-IsReported :
    (ref : ℕ) (m : SseManager) → IsReported m → IsReported (remove_ws_event ref m)
unfolding remove_ws_event
remove_ws_event-IsReported ref m h =
    let w = m.ws_heap ref in
    let left = without_ws ref (get_ws_events w.client_id m) in
    ws-IsReported ref [] (store_list w.client_id left m.ws_events) m h
      (λ i apart.
        unfold get_ws_events in rw (store_list-other w.client_id i left m.ws_events apart) refl)
      (λ n other.
        subst (λ rs. count_on m.ws_heap n rs ≡ count_on m.ws_heap n (get_ws_events w.client_id m))
          (sym (store_list-same w.client_id left m.ws_events))
          (count_on-without_ws m.ws_heap n (get_ws_events w.client_id m) ref other))

-- A step that touches neither the lists nor what was told.
untouched-IsReported :
    (m m' : SseManager)
    → m'.sse ≡ m.sse
    → m'.ws_heap ≡ m.ws_heap
    → m'.ws_events ≡ m.ws_events
    → m'.emitted ≡ m.emitted
    → IsReported m
    → IsReported m'
untouched-IsReported m m' a b c d h i n =
    subst (λ es. latest i n es 0 ≡ latest i n m.emitted 0) (sym d) refl
    ∙ h i n
    ∙ sym (
        total_same i n m m'
          (λ ch e.
            unfold get_sse in subst (λ f. list_of (lookup i (f ch)) ≡ get_sse ch i m) (sym a) refl)
          (unfold get_ws_events in rw (b, c) refl))

pub unregister_keeps :
    (id : String) (k : ℕ) (m : SseManager)
    → let m' = unregister_sse_cancel id k m in
      (m'.sse ≡ m.sse)
      × (m'.ws_heap ≡ m.ws_heap)
      × (m'.ws_events ≡ m.ws_events)
      × (m'.emitted ≡ m.emitted)
unfolding unregister_sse_cancel
unregister_keeps id k m = elim (Option-cases (lookup id m.cancels)) [
  | inl nothing ↦ rw (nothing, unregister_sse_cancel) (refl, refl, refl, refl)
  | inr (ids, there) ↦ rw (there, unregister_sse_cancel) (refl, refl, refl, refl)
]

step-IsReported : (call : Call) (m : SseManager) → IsReported m → IsReported (step call m)
unfolding step
step-IsReported (adds c conn) m h = add_sse-IsReported c conn m h
step-IsReported (removes c conn) m h = remove_sse-IsReported c conn m h
step-IsReported (adds_ws ref) m h = add_ws_event-IsReported ref m h
step-IsReported (removes_ws ref) m h = remove_ws_event-IsReported ref m h
step-IsReported (registers id) m h =
    unfold register_sse_cancel in untouched-IsReported m _ refl refl refl refl h
step-IsReported (closes id) m h =
    unfold close_for_client_id in untouched-IsReported m _ refl refl refl refl h
step-IsReported (unregisters id k) m h =
    let (a, b, c, d) = unregister_keeps id k m in untouched-IsReported m _ a b c d h

run-IsReported : (calls : List Call) (m : SseManager) → IsReported m → IsReported (run calls m)
unfolding run
run-IsReported [] m h = h
run-IsReported (c ∷ calls) m h = run-IsReported calls (step c m) (step-IsReported c m h)

-- After any sequence of calls on a new manager, the count that was told last for a client and a
-- channel, 0 if none was told, is the number of its subscribers, SSE and WebSocket ones together.
pub run-new_sse_manager-IsReported :
    (calls : List Call) (heap : ℕ → WsEvent) → IsReported (run calls (new_sse_manager heap))
unfolding new_sse_manager latest total_for_channel sse_count get_sse get_ws_events lookup count_on
run-new_sse_manager-IsReported calls heap = run-IsReported calls (new_sse_manager heap) (λ i n.
    elim (Option-cases (channel_of n)) [
      | inl nothing ↦ ground (arith, nothing)
      | inr (c, here) ↦ ground (arith, here)
    ])
