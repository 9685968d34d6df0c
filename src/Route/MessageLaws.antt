-- ===== src/Route/MessageLaws.antt =====
-- handler/helpers/route.go: what the message to the world says.
use foundryvtt_rest_api_rela.Base.{
  Bool, Distinct, Option, String, arith, beq_self, false, if◌then◌else◌, insert, keep, lookup,
  lookup-insert, lookup-keep, nat_eq, none, not, refl, some, string_eq, subst, sym, ◌&&◌, ◌==◌,
  ◌||◌, ◌∙◌, ◌≡◌,
}
use foundryvtt_rest_api_rela.Base.Json.{Value, Members, Object}
use foundryvtt_rest_api_rela.Access.Context.{ScopedKeyInfo}
use foundryvtt_rest_api_rela.Route.Params.{Params, Input}
use foundryvtt_rest_api_rela.Route.Forward.{
  ApiRouteConfig, payload_of, payload_by, texts, with_scopes, with_data, message_of,
}

over :
    (k j : String) (v : Value) (o : Object)
    → (k == j) ≡ false
    → lookup j (insert k v o) ≡ lookup j o
over k j v o other = ground (arith, lookup-insert k j v o, other)

at : (k : String) (v : Value) (o : Object) → lookup k (insert k v o) ≡ some v
at k v o = ground (arith, lookup-insert k k v o, beq_self k)

lookup-with_data :
    (j : String) (o : Object) → ("data" == j) ≡ false → lookup j (with_data o) ≡ lookup j o
lookup-with_data j o other = ground (arith, over "data" j (Value.obj Members.empty) o other)

lookup-with_scopes :
    (j : String) (key : Option ScopedKeyInfo) (o : Object)
    → ("_scopes" == j) ≡ false
    → lookup j (with_scopes key o) ≡ lookup j o
lookup-with_scopes j none o other = refl
lookup-with_scopes j (some k) o other = over "_scopes" j (Value.arr (texts k.scopes)) o other

-- Whatever the parameters and the payload say, the message has the type of the route and the relay's
-- request id, and with a scoped key its scopes are the scopes of that key.
pub message_unforgeable :
    (cfg : ApiRouteConfig) (r : Input) (key : Option ScopedKeyInfo) (request_id : String)
    (p : Params)
    → let msg = message_of cfg r key request_id p in
      (lookup "type" msg ≡ some (Value.str cfg.kind))
      × (lookup "requestId" msg ≡ some (Value.str request_id))
      × ((k : ScopedKeyInfo)
          → key ≡ some k
          → lookup "_scopes" msg ≡ some (Value.arr (texts k.scopes)))
unfolding message_of
message_unforgeable cfg r key request_id p = (
  lookup-with_data "type" (with_scopes key o) refl
      ∙ lookup-with_scopes "type" key o refl
      ∙ over "requestId" "type" (Value.str request_id) typed refl
      ∙ at "type" (Value.str cfg.kind) (payload_of cfg r p),
  lookup-with_data "requestId" (with_scopes key o) refl
      ∙ lookup-with_scopes "requestId" key o refl
      ∙ at "requestId" (Value.str request_id) typed,
  λ k e. lookup-with_data "_scopes" (with_scopes key o) refl ∙ scopes k e,
)
  where
    typed : Object
    typed = insert "type" (Value.str cfg.kind) (payload_of cfg r p)

    o : Object
    o = insert "requestId" (Value.str request_id) typed

    scopes :
        (k : ScopedKeyInfo)
        → key ≡ some k
        → lookup "_scopes" (with_scopes key o) ≡ some (Value.arr (texts k.scopes))
    scopes k e = rw (e) (at "_scopes" (Value.arr (texts k.scopes)) o)

-- The names that the relay writes, or takes out.
abbrev pub is_reserved : String → Bool
is_reserved x = x == "type" || x == "requestId" || x == "_scopes" || x == "data" || x == "clientId"

plain_payload :
    (cfg : ApiRouteConfig) (r : Input) (p : Params)
    → cfg.build_payload ≡ none
    → payload_of cfg r p ≡ keep (λ k v. not (k == "clientId") && not (k == "type")) p
unfolding payload_of
plain_payload cfg r p plain =
    subst (λ build. payload_by build r p ≡ payload_by none r p) (sym plain) refl

unscoped :
    (cfg : ApiRouteConfig) (r : Input) (x request_id : String) (p : Params)
    → Distinct p
    → cfg.build_payload ≡ none
    → ("type" == x) ≡ false
    → ("requestId" == x) ≡ false
    → lookup x (
        insert "requestId"
          (Value.str request_id)
          (insert "type" (Value.str cfg.kind) (payload_of cfg r p)))
      ≡ (if x == "clientId" then none else lookup x p)
unscoped cfg r x request_id p d plain a b =
    over "requestId" x (Value.str request_id) _ b
    ∙ over "type" x (Value.str cfg.kind) _ a
    ∙ rw (plain_payload cfg r p plain) (
        ground (
          arith,
          lookup-keep (λ k v. not (k == "clientId") && not (k == "type")) x p d,
          a,
          string_eq.equals_iff "type" x,
          string_eq.equals_iff x "type",
        ))

-- A route without a payload of its own passes every parameter on as it is but the client id, which
-- it leaves out, and the names that the relay writes; without a scoped key it names no scopes, if no
-- parameter does.
pub message_passes :
    (cfg : ApiRouteConfig) (r : Input) (key : Option ScopedKeyInfo) (request_id : String)
    (p : Params)
    → Distinct p
    → cfg.build_payload ≡ none
    → let msg = message_of cfg r key request_id p in
      ((x : String) → is_reserved x ≡ false → lookup x msg ≡ lookup x p)
      × (lookup "clientId" msg ≡ none)
      × (key ≡ none → lookup "_scopes" p ≡ none → lookup "_scopes" msg ≡ none)
unfolding message_of
message_passes cfg r key request_id p d plain = (
  λ x free.
      lookup-with_data x (with_scopes key o) (other "data" x (ground (arith, free)))
      ∙ lookup-with_scopes x key o (other "_scopes" x (ground (arith, free)))
      ∙ unscoped cfg r x request_id p d plain (other "type" x (ground (arith, free)))
          (other "requestId" x (ground (arith, free)))
      ∙ ground (arith, free),
  lookup-with_data "clientId" (with_scopes key o) refl
      ∙ lookup-with_scopes "clientId" key o refl
      ∙ unscoped cfg r "clientId" request_id p d plain refl refl,
  λ no_key absent.
      lookup-with_data "_scopes" (with_scopes key o) refl
      ∙ subst (λ k. lookup "_scopes" (with_scopes k o) ≡ none) (sym no_key)
          (unscoped cfg r "_scopes" request_id p d plain refl refl ∙ absent),
)
  where
    o : Object
    o =
        insert "requestId" (Value.str request_id)
          (insert "type" (Value.str cfg.kind) (payload_of cfg r p))

    other : (a x : String) → (x == a) ≡ false → (a == x) ≡ false
    other a x h = ground (arith, h, string_eq.equals_iff a x, string_eq.equals_iff x a)
