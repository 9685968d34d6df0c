-- ===== src/Events/Silence.antt =====
-- server/server.go and handler/helpers/sse.go together: events without subscribers.
use foundryvtt_rest_api_rela.Base.{
  List, String, [], arith, length, refl, some, subst, sym, ℕ, ◌+◌, ◌∙◌, ◌∷◌, ◌≡◌,
}
use foundryvtt_rest_api_rela.Base.Json.{Object}
use foundryvtt_rest_api_rela.Events.Streams.{
  Channel, Conn, WsEvent, SseManager, new_sse_manager, name_of, get_sse, get_ws_events, sse_count,
  count_on, total_for_channel, Call, run,
}
use foundryvtt_rest_api_rela.Events.Totals.{channel_of-name_of}
use foundryvtt_rest_api_rela.Events.Counts.{latest, run-new_sse_manager-IsReported}
use foundryvtt_rest_api_rela.Events.Fanout.{Filters, to_sse, to_ws, fanout}

none_by_ws :
    (to_int : String → String) (filters : ℕ → Filters) (c : Channel) (o : Object) (m : SseManager)
    (rs : List ℕ)
    → count_on m.ws_heap (name_of c) rs ≡ 0
    → to_ws to_int filters c o m rs ≡ []
unfolding to_ws count_on
none_by_ws to_int filters c o m [] h = refl
none_by_ws to_int filters c o m (r ∷ rs) h = ground (arith, h, none_by_ws to_int filters c o m rs)

none_by_sse :
    (to_int : String → String) (filters : ℕ → Filters) (c : Channel) (o : Object) (ks : List Conn)
    → length ks ≡ 0
    → to_sse to_int filters c o ks ≡ []
unfolding to_sse
none_by_sse to_int filters c o [] h = refl
none_by_sse to_int filters c o (k ∷ ks) h = absurd (ground (arith, h))

silent :
    (to_int : String → String) (filters : ℕ → Filters) (c : Channel) (id : String) (o : Object)
    (m : SseManager)
    → total_for_channel id (name_of c) m ≡ 0
    → fanout to_int filters c id o m ≡ []
unfolding fanout total_for_channel sse_count
silent to_int filters c id o m h =
    let at : sse_count (some c) id m + count_on m.ws_heap (name_of c) (get_ws_events id m) ≡ 0 =
      subst (λ x. sse_count x id m + count_on m.ws_heap (name_of c) (get_ws_events id m) ≡ 0)
        (channel_of-name_of c) h in
    rw
      (
        none_by_sse to_int filters c o (get_sse c id m) (omega (arith, at)),
        none_by_ws to_int filters c o m (get_ws_events id m) (omega (arith, at)),
      )
      refl

-- After any sequence of calls on a new manager, if the count that the manager gave last to its
-- callback for a channel is 0, or it gave none, an event on that channel reaches no subscriber,
-- whatever the filters. Whether the notice of the count reaches the module is not part of this.
pub zero_emitted-silent :
    (to_int : String → String) (filters : ℕ → Filters) (calls : List Call) (heap : ℕ → WsEvent)
    (c : Channel) (id : String) (o : Object)
    → latest id (name_of c) (run calls (new_sse_manager heap)).emitted 0 ≡ 0
    → fanout to_int filters c id o (run calls (new_sse_manager heap)) ≡ []
zero_emitted-silent to_int filters calls heap c id o h =
    silent to_int filters c id o (run calls (new_sse_manager heap))
      (sym (run-new_sse_manager-IsReported calls heap id (name_of c)) ∙ h)
