-- ===== src/Route/Crossing.antt =====
-- handler/helpers/route.go and ws/message_handlers.go together: two requests in one millisecond.
use text.Mathlib.TextLemmas.{nil-append, cons-append}
use foundryvtt_rest_api_rela.Base.{
  Bool, Bool-cases, inl, inr, str_iff, List, Option, String, [], arith, eqb, false, if◌then◌else◌,
  nat_eq, none, refl, string_eq, true, ℕ, ◌==◌, ◌∙◌, ◌∷◌, ◌≡◌, ◌&◌, subst,
}
use foundryvtt_rest_api_rela.Base.Json.{Object}
use foundryvtt_rest_api_rela.Access.Context.{ScopedKeyInfo}
use foundryvtt_rest_api_rela.Ws.Pending.{
  PendingRequests, open_request, resolve_raw, load, make_chan, store,
}
use foundryvtt_rest_api_rela.Ws.Pending.Inv.{Inv}
use foundryvtt_rest_api_rela.Ws.Pending.Laws.{resolve_raw_delivers}
use foundryvtt_rest_api_rela.Ws.Manager.Defs.{Manager}
use foundryvtt_rest_api_rela.Route.Params.{Params, Input}
use foundryvtt_rest_api_rela.Route.Forward.{
  ApiRouteConfig, message_of, waits, forward, request_id_of,
}
use foundryvtt_rest_api_rela.Route.Results.{on_result}
use foundryvtt_rest_api_rela.Route.Exchange.{
  CanTake, awaited, with_message, forward-waits, opened, opened-Inv, answer, Answers, on_result_lem,
  answered,
}

-- The answer to the request that was stored last leaves the channel of the one before empty.
passed_over :
    (ca cb : ApiRouteConfig) (request_id a b : String) (now now' : ℕ) (o : Object) (raw : List ℕ)
    (pend : PendingRequests)
    → Inv pend
    → Answers request_id o
    → (request_id == "") ≡ false
    → let pend1 = open_request request_id ca.kind a now 0 pend in
      let q = on_result o raw (open_request request_id cb.kind b now' 0 pend1) in
      (q.channels pend.next_channel).buffer ≡ []
passed_over ca cb request_id a b now now' o raw pend v answers some_id =
    rw (on_result_lem request_id o raw pend2 answers some_id) (delivered.1 ∙ untouched)
  where
    pend1 : PendingRequests
    pend1 = open_request request_id ca.kind a now 0 pend

    pend2 : PendingRequests
    pend2 = open_request request_id cb.kind b now' 0 pend1

    delivered :
        let q = resolve_raw request_id 200 raw pend2 in
        (load request_id q ≡ (if request_id == request_id then none else load request_id pend2))
        × ((q.channels pend.next_channel).buffer ≡ (
            if eqb pend1.next_channel pend.next_channel
            then answer raw ∷ []
            else (pend2.channels pend.next_channel).buffer))
    delivered =
        resolve_raw_delivers request_id request_id 200 pend.next_channel raw pend2
          (awaited cb pend1.next_channel b now')
          (opened-Inv cb request_id now' b pend1 (opened-Inv ca request_id now a pend v))
          (opened cb request_id now' b pend1)

    untouched :
        (if eqb pend1.next_channel pend.next_channel
          then answer raw ∷ []
          else (pend2.channels pend.next_channel).buffer)
        ≡ []
    untouched = unfold open_request make_chan store in ground arith

abbrev has_text : String → Bool
has_text String.[] = false
has_text (String.◌∷◌ c s) = true

has_text-named : (x : String) → has_text x ≡ true → (x == "") ≡ false
has_text-named x h = elim (Bool-cases (x == "")) [
  | inr named ↦ named
  | inl blank ↦
      let none_there : has_text "" ≡ true =
        subst (λ y. has_text y ≡ true) ((str_iff x "").0 blank) h in
      absurd (ground (arith, none_there))
]

id-has_text : (kind millis : String) → has_text (kind & "_" & millis) ≡ true
id-has_text String.[] millis = rw (nil-append, cons-append) refl
id-has_text (String.◌∷◌ c s) millis = rw (cons-append) refl

-- Two requests of one type whose clocks show the same millisecond have one id: the type, an underscore and the millisecond. Where both messages are
-- queued, whichever callers send them and whichever clients and accounts they ask, an answer under
-- that id without an error stands in the second caller's channel, the first caller's stays empty,
-- and nothing is pending under the id then.
pub same_millisecond_crosses :
    (ca cb : ApiRouteConfig) (ra rb : Input) (ka kb : Option ScopedKeyInfo) (millis : String)
    (now now' : ℕ) (a b : String) (ref ref' : ℕ) (pa pb : Params) (m : Manager)
    (pend : PendingRequests) (o : Object) (raw : List ℕ)
    → ca.kind ≡ cb.kind
    → Inv pend
    → let id_a = request_id_of ca millis in
      let id_b = request_id_of cb millis in
      let m1 = with_message ref (message_of ca ra ka id_a pa) m in
      let m2 = with_message ref' (message_of cb rb kb id_b pb) m1 in
      let pend1 = open_request id_a ca.kind a now 0 pend in
      let pend2 = open_request id_b cb.kind b now' 0 pend1 in
      let q = on_result o raw pend2 in
      CanTake ref m
      → CanTake ref' m1
      → Answers (ca.kind & "_" & millis) o
      → (id_a ≡ id_b)
        × (forward ca ra ka id_a now a ref pa m pend ≡ waits m1 pend1)
        × (forward cb rb kb id_b now' b ref' pb m1 pend1 ≡ waits m2 pend2)
        × ((q.channels pend1.next_channel).buffer ≡ answer raw ∷ [])
        × ((q.channels pend.next_channel).buffer ≡ [])
        × (load id_a q ≡ none)
same_millisecond_crosses ca cb ra rb ka kb millis now now' a b ref ref' pa pb m pend o raw same v
      can can' answers =
    let m1 = with_message ref (message_of ca ra ka id_a pa) m in
    (
      one_id,
      forward-waits ca ra ka id_a now a ref pa m pend can,
      forward-waits cb rb kb id_b now' b ref' pb m1 (open_request id_a ca.kind a now 0 pend) can',
      both.0,
      both.1,
      both.2,
    )
  where
    id_a : String
    id_a = request_id_of ca millis

    id_b : String
    id_b = request_id_of cb millis

    one_id : id_a ≡ id_b
    one_id = rw (same) refl

    named : (id_a == "") ≡ false
    named = has_text-named id_a (id-has_text ca.kind millis)

    Crossed : String → Type 0
    Crossed x =
        let pend1 = open_request id_a ca.kind a now 0 pend in
        let q = on_result o raw (open_request x cb.kind b now' 0 pend1) in
        ((q.channels pend1.next_channel).buffer ≡ answer raw ∷ [])
        × ((q.channels pend.next_channel).buffer ≡ [])
        × (load id_a q ≡ none)

    crossed : Crossed id_a
    crossed =
        let pend1 = open_request id_a ca.kind a now 0 pend in
        let (alone, gone) =
          answered cb id_a b now' o raw pend1 (opened-Inv ca id_a now a pend v) answers named in
        (alone, passed_over ca cb id_a a b now now' o raw pend v answers named, gone)

    both : Crossed id_b
    both = subst Crossed one_id crossed
