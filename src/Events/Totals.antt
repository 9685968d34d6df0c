-- ===== src/Events/Totals.antt =====
-- handler/helpers/sse.go: what changes the number of subscribers of a channel.
use foundryvtt_rest_api_rela.Base.{
  Bool-cases, Dict, List, Option-cases, String, [], arith, beq_self, eqb, eqb_iff, false, inl, inr,
  lookup, lookup-delete, lookup-insert, nat_eq, refl, some, str_iff, string_eq, subst, sym, true, ℕ,
  ◌&&◌, ◌++◌, ◌==◌, ◌∙◌, ◌∷◌, ◌≡◌,
}
use foundryvtt_rest_api_rela.Events.Streams.{
  Channel, chat, roll, hooks, combat, actor, scene, Conn, WsEvent, CountChange, SseManager, name_of,
  channel_of, list_of, get_sse, get_ws_events, sse_count, count_on, total_for_channel, eq_channel,
  put, store_list, without_ws,
}

pub channel_of-name_of : (c : Channel) → channel_of (name_of c) ≡ some c
unfolding channel_of
channel_of-name_of chat = refl
channel_of-name_of roll = refl
channel_of-name_of hooks = refl
channel_of-name_of combat = refl
channel_of-name_of actor = refl
channel_of-name_of scene = refl

pub name_of-channel_of : (name : String) (c : Channel) → channel_of name ≡ some c → name_of c ≡ name
unfolding channel_of
name_of-channel_of name chat h = sym ((str_iff name "chat-events").0 (ground (arith, h)))
name_of-channel_of name roll h = sym ((str_iff name "roll-events").0 (ground (arith, h)))
name_of-channel_of name hooks h = sym ((str_iff name "hooks").0 (ground (arith, h)))
name_of-channel_of name combat h = sym ((str_iff name "combat-events").0 (ground (arith, h)))
name_of-channel_of name actor h = sym ((str_iff name "actor-events").0 (ground (arith, h)))
name_of-channel_of name scene h = sym ((str_iff name "scene-events").0 (ground (arith, h)))

pub same_channel : (c d : Channel) → eq_channel c d ≡ true → c ≡ d
same_channel c d h =
    let e : name_of c ≡ name_of d = (str_iff (name_of c) (name_of d)).0 h in
    let f : some c ≡ some d =
      sym (channel_of-name_of c)
      ∙ subst (λ n. channel_of (name_of c) ≡ channel_of n) e refl
      ∙ channel_of-name_of d in
    cc

pub total_same :
    (i n : String) (m m' : SseManager)
    → ((c : Channel) → channel_of n ≡ some c → get_sse c i m' ≡ get_sse c i m)
    → count_on m'.ws_heap n (get_ws_events i m') ≡ count_on m.ws_heap n (get_ws_events i m)
    → total_for_channel i n m' ≡ total_for_channel i n m
unfolding total_for_channel sse_count
total_same i n m m' h g = elim (Option-cases (channel_of n)) [
  | inl nowhere ↦ ground (arith, nowhere, g)
  | inr (c, here) ↦ ground (arith, here, g, h c here)
]

pub emitted_total :
    (i n : String) (m : SseManager) (es : List CountChange)
    → total_for_channel i n (record m { emitted = es }) ≡ total_for_channel i n m
emitted_total i n m es =
    total_same i n m (record m { emitted = es }) (λ c e. unfold get_sse in refl)
      (unfold get_ws_events in refl)

-- The lists of other clients stay.
pub put-total :
    (c : Channel) (id : String) (conns : Dict String (List Conn)) (m : SseManager) (i n : String)
    → ((j : String) → (id == j) ≡ false → list_of (lookup j conns) ≡ list_of (lookup j (m.sse c)))
    → ((id == i) && (name_of c == n)) ≡ false
    → total_for_channel i n (put c conns m) ≡ total_for_channel i n m
put-total c id conns m i n rest other =
    total_same i n m (put c conns m) kept_lists (unfold get_ws_events in refl)
  where
    kept_lists : (d : Channel) → channel_of n ≡ some d → get_sse d i (put c conns m) ≡ get_sse d i m
    kept_lists d here =
        unfold get_sse in
        elim (Bool-cases (eq_channel c d)) [
          | inr apart ↦ rw (apart) refl
          | inl same ↦ rw (same) (
              rest i (ground (arith, other, same, name_of-channel_of n d here))
              ∙ subst (λ x. list_of (lookup i (m.sse c)) ≡ list_of (lookup i (m.sse x)))
                  (same_channel c d same) refl)
        ]

pub store_list-same {ℓ} :
    {A : Type ℓ} (id : String) (xs : List A) (m : Dict String (List A))
    → list_of (lookup id (store_list id xs m)) ≡ xs
store_list-same id [] m = ground (arith, lookup-delete id id m, beq_self id)
store_list-same id (x ∷ xs) m = ground (arith, lookup-insert id id (x ∷ xs) m, beq_self id)

pub store_list-other {ℓ} :
    {A : Type ℓ} (id j : String) (xs : List A) (m : Dict String (List A))
    → (id == j) ≡ false
    → lookup j (store_list id xs m) ≡ lookup j m
store_list-other id j [] m other = ground (arith, lookup-delete id j m, other)
store_list-other id j (x ∷ xs) m other = ground (arith, lookup-insert id j (x ∷ xs) m, other)

pub count_on-append :
    (heap : ℕ → WsEvent) (n : String) (rs : List ℕ) (r : ℕ)
    → ((heap r).channel == n) ≡ false
    → count_on heap n (rs ++ r ∷ []) ≡ count_on heap n rs
unfolding count_on
count_on-append heap n [] r other = ground (arith, other)
count_on-append heap n (q ∷ rs) r other = ground (arith, count_on-append heap n rs r other)

pub count_on-without_ws :
    (heap : ℕ → WsEvent) (n : String) (rs : List ℕ) (r : ℕ)
    → ((heap r).channel == n) ≡ false
    → count_on heap n (without_ws r rs) ≡ count_on heap n rs
unfolding count_on without_ws
count_on-without_ws heap n [] r other = refl
count_on-without_ws heap n (q ∷ rs) r other = elim (Bool-cases (eqb q r)) [
  | inl same ↦
      let e : q ≡ r = (eqb_iff q r).0 same in
      let f : ((heap q).channel == n) ≡ false =
        subst (λ x. ((heap x).channel == n) ≡ false) (sym e) other in
      rw (same) (ground (arith, f))
  | inr apart ↦ rw (apart) (ground (arith, count_on-without_ws heap n rs r other))
]
