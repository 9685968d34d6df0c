-- ===== src/Events/Limit.antt =====
-- handler/helpers/sse.go: the limit on the subscribers of a world, and what adding and removing one
-- does to the others.
use foundryvtt_rest_api_rela.Base.{
  Bool-cases, Dict, List, String, [], arith, beq_self, false, inl, inr, insert, leb, length,
  length-append, lookup, lookup-insert, nat_eq, refl, str_iff, string_eq, subst, sym, ℕ, ◌++◌, ◌==◌,
  ◌∷◌, ◌≡◌, ◌≤◌,
}
use foundryvtt_rest_api_rela.Events.Streams.{
  Channel, Conn, WsEvent, SseManager, new_sse_manager, max_sse_connections_per_client, list_of,
  get_sse, get_ws_events, eq_channel, put, emit_count_changed, add_sse, without, store_list,
  remove_sse, add_ws_event, without_ws, remove_ws_event, register_sse_cancel, close_for_client_id,
  Call, adds, removes, adds_ws, removes_ws, registers, closes, unregisters, step, run,
}
use foundryvtt_rest_api_rela.Events.Totals.{store_list-same, store_list-other}
use foundryvtt_rest_api_rela.Events.Counts.{unregister_keeps}

-- No world has more than ten subscribers on a channel by SSE, nor by WebSocket in all.
pub record IsLimited (m : SseManager) : Type 0 where
  pub by_sse : (c : Channel) (id : String) → length (get_sse c id m) ≤ 10
  pub by_ws : (id : String) → length (get_ws_events id m) ≤ 10

length-without : (ref : ℕ) (cs : List Conn) → length (without ref cs) ≤ length cs
unfolding without
length-without ref [] = omega arith
length-without ref (c ∷ cs) = ground (arith, length-without ref cs)

length-without_ws : (ref : ℕ) (rs : List ℕ) → length (without_ws ref rs) ≤ length rs
unfolding without_ws
length-without_ws ref [] = omega arith
length-without_ws ref (r ∷ rs) = ground (arith, length-without_ws ref rs)

-- A list of at most ten for one client, the others as they were.
short_list {ℓ} :
    {A : Type ℓ} (id i : String) (xs : List A) (m m' : Dict String (List A))
    → length xs ≤ 10
    → list_of (lookup id m') ≡ xs
    → ((j : String) → (id == j) ≡ false → list_of (lookup j m') ≡ list_of (lookup j m))
    → ((j : String) → length (list_of (lookup j m)) ≤ 10)
    → length (list_of (lookup i m')) ≤ 10
short_list id i xs m m' few this rest h = elim (Bool-cases (id == i)) [
  | inl same ↦
      subst (λ j. length (list_of (lookup j m')) ≤ 10) ((str_iff id i).0 same)
        (subst (λ ys. length ys ≤ 10) (sym this) few)
  | inr apart ↦ subst (λ ys. length ys ≤ 10) (sym (rest i apart)) (h i)
]

put-by_sse :
    (c : Channel) (id : String) (xs : List Conn) (conns : Dict String (List Conn)) (m : SseManager)
    → length xs ≤ 10
    → list_of (lookup id conns) ≡ xs
    → ((j : String) → (id == j) ≡ false → list_of (lookup j conns) ≡ list_of (lookup j (m.sse c)))
    → IsLimited m
    → (d : Channel) (i : String) → length (get_sse d i (put c conns m)) ≤ 10
unfolding get_sse
put-by_sse c id xs conns m few this rest h d i = elim (Bool-cases (eq_channel c d)) [
  | inl same ↦ rw (same) (short_list id i xs (m.sse c) conns few this rest (h.by_sse c))
  | inr apart ↦ rw (apart) (h.by_sse d i)
]

insert-list {ℓ} :
    {A : Type ℓ} (id : String) (xs : List A) (m : Dict String (List A))
    → list_of (lookup id (insert id xs m)) ≡ xs
insert-list id xs m = ground (arith, lookup-insert id id xs m, beq_self id)

insert-others {ℓ} :
    {A : Type ℓ} (id : String) (xs : List A) (m : Dict String (List A)) (j : String)
    → (id == j) ≡ false
    → list_of (lookup j (insert id xs m)) ≡ list_of (lookup j m)
insert-others id xs m j apart = ground (arith, lookup-insert id j xs m, apart)

add_sse-IsLimited :
    (c : Channel) (conn : Conn) (m : SseManager) → IsLimited m → IsLimited (add_sse c conn m).1
unfolding add_sse emit_count_changed
add_sse-IsLimited c conn m h =
    let id = conn.client_id in
    let xs = get_sse c id m in
    elim (Bool-cases (leb max_sse_connections_per_client (length xs))) [
      | inl full ↦ rw (full, add_sse) h
      | inr room ↦
          rw (room, add_sse)
            (record {
              by_sse =
                  unfold get_sse in
                  put-by_sse c id (xs ++ conn ∷ []) (insert id (xs ++ conn ∷ []) (m.sse c)) m
                    (ground (arith, length-append xs (conn ∷ []), room))
                    (insert-list id (xs ++ conn ∷ []) (m.sse c))
                    (insert-others id (xs ++ conn ∷ []) (m.sse c)) h;
              by_ws = unfold get_ws_events in h.by_ws;
            })
    ]

remove_sse-IsLimited :
    (c : Channel) (conn : Conn) (m : SseManager) → IsLimited m → IsLimited (remove_sse c conn m)
unfolding remove_sse emit_count_changed
remove_sse-IsLimited c conn m h =
    let id = conn.client_id in
    let xs = without conn.ref (get_sse c id m) in
    record {
      by_sse =
          unfold get_sse in
          put-by_sse c id xs (store_list id xs (m.sse c)) m
            (omega (arith, length-without conn.ref (get_sse c id m), h.by_sse c id))
            (store_list-same id xs (m.sse c))
            (λ j apart. rw (store_list-other id j xs (m.sse c) apart) refl) h;
      by_ws = unfold get_ws_events in h.by_ws;
    }

add_ws_event-IsLimited : (ref : ℕ) (m : SseManager) → IsLimited m → IsLimited (add_ws_event ref m).1
unfolding add_ws_event emit_count_changed
add_ws_event-IsLimited ref m h =
    let id = (m.ws_heap ref).client_id in
    let xs = get_ws_events id m in
    elim (Bool-cases (leb max_sse_connections_per_client (length xs))) [
      | inl full ↦ rw (full, add_ws_event) h
      | inr room ↦
          rw (room, add_ws_event)
            (record {
              by_sse = unfold get_sse in h.by_sse;
              by_ws = λ i.
                  unfold get_ws_events in
                  short_list id i (xs ++ ref ∷ []) m.ws_events
                    (insert id (xs ++ ref ∷ []) m.ws_events)
                    (ground (arith, length-append xs (ref ∷ []), room))
                    (insert-list id (xs ++ ref ∷ []) m.ws_events)
                    (insert-others id (xs ++ ref ∷ []) m.ws_events) h.by_ws;
            })
    ]

remove_ws_event-IsLimited :
    (ref : ℕ) (m : SseManager) → IsLimited m → IsLimited (remove_ws_event ref m)
unfolding remove_ws_event emit_count_changed
remove_ws_event-IsLimited ref m h =
    let id = (m.ws_heap ref).client_id in
    let xs = without_ws ref (get_ws_events id m) in
    record {
      by_sse = unfold get_sse in h.by_sse;
      by_ws = λ i.
          unfold get_ws_events in
          short_list id i xs m.ws_events (store_list id xs m.ws_events)
            (omega (arith, length-without_ws ref (get_ws_events id m), h.by_ws id))
            (store_list-same id xs m.ws_events)
            (λ j apart. rw (store_list-other id j xs m.ws_events apart) refl) h.by_ws;
    }

untouched-IsLimited :
    (m m' : SseManager) → m'.sse ≡ m.sse → m'.ws_events ≡ m.ws_events → IsLimited m → IsLimited m'
unfolding get_sse get_ws_events
untouched-IsLimited m m' a b h = record {
  by_sse = λ c id. subst (λ f. length (list_of (lookup id (f c))) ≤ 10) (sym a) (h.by_sse c id);
  by_ws = λ id. subst (λ f. length (list_of (lookup id f)) ≤ 10) (sym b) (h.by_ws id);
}

step-IsLimited : (call : Call) (m : SseManager) → IsLimited m → IsLimited (step call m)
unfolding step
step-IsLimited (adds c conn) m h = add_sse-IsLimited c conn m h
step-IsLimited (removes c conn) m h = remove_sse-IsLimited c conn m h
step-IsLimited (adds_ws ref) m h = add_ws_event-IsLimited ref m h
step-IsLimited (removes_ws ref) m h = remove_ws_event-IsLimited ref m h
step-IsLimited (registers id) m h =
    unfold register_sse_cancel in untouched-IsLimited m _ refl refl h
step-IsLimited (closes id) m h = unfold close_for_client_id in untouched-IsLimited m _ refl refl h
step-IsLimited (unregisters id k) m h =
    let (a, b, c, d) = unregister_keeps id k m in untouched-IsLimited m _ a c h

run-IsLimited : (calls : List Call) (m : SseManager) → IsLimited m → IsLimited (run calls m)
unfolding run
run-IsLimited [] m h = h
run-IsLimited (c ∷ calls) m h = run-IsLimited calls (step c m) (step-IsLimited c m h)

-- After any sequence of calls on a new manager, no world has more than ten SSE subscribers on a
-- channel, nor more than ten WebSocket subscribers.
pub run-new_sse_manager-IsLimited :
    (calls : List Call) (heap : ℕ → WsEvent) → IsLimited (run calls (new_sse_manager heap))
unfolding new_sse_manager get_sse get_ws_events lookup
run-new_sse_manager-IsLimited calls heap =
    run-IsLimited calls (new_sse_manager heap)
      (record { by_sse = λ c id. omega arith; by_ws = λ id. omega arith })
