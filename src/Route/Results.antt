-- ===== src/Route/Results.antt =====
-- ws/message_handlers.go: the handlers that take in what a Foundry client answers. They get the
-- client that the message came from and do not look at it.
use foundryvtt_rest_api_rela.Base.{
  Bool, List, Option, String, [], eqb, if◌then◌else◌, is_some, lookup, nat_eq, none, not, some,
  string_eq, ℕ, ◌&◌, ◌==◌, ◌||◌, ◌∷◌,
}
use Prim.Native.Char.{code}
use foundryvtt_rest_api_rela.Base.Json.{Value, Members, Object}
use foundryvtt_rest_api_rela.Ws.Pending.{
  WsResponse, PendingRequests, load, remove, resolve, resolve_raw, try_send,
}
use foundryvtt_rest_api_rela.Route.Params.{get_string}

-- The handler of "<type>-result", for all types but the three below.
unfoldable pub on_result : Object → List ℕ → PendingRequests → PendingRequests
on_result data_of raw p =
    if get_string "requestId" data_of == ""
    then p
    else resolve_raw (get_string "requestId" data_of)
        (if is_some (lookup "error" data_of) then 400 else 200) raw p

-- `req, _ := pending.Load(id)`, `pending.Delete(id)` and the send without blocking.
unfoldable pub send_response : String → WsResponse → PendingRequests → PendingRequests
send_response id w p = elim (load id p) [
  | none ↦ p
  | some req ↦
      let p' = remove id p in record p' { channels = try_send req.response_ch w p'.channels }
]

-- What follows the first comma of a data URL, or all of a text without one.
abbrev pub past_comma : String → Option String
past_comma String.[] = none
past_comma (String.◌∷◌ c s) = if eqb (code c) 44 then some s else past_comma s

abbrev pub base64_of : String → String
base64_of s = elim (past_comma s) [ none ↦ s | some rest ↦ rest ]

abbrev pub or_default : String → String → String
or_default s d = if s == "" then d else s

abbrev pub value_or_null : Option Value → Value
value_or_null none = Value.null
value_or_null (some v) = v

-- The bytes of a file or an image, or `none` where the data goes on as JSON. `decode` is base64.
unfoldable pub decoded : (String → Option (List ℕ)) → String → Option (List ℕ)
decoded decode text = if text == "" then none else decode (base64_of text)

abbrev pub file_response : Object → List ℕ → WsResponse
file_response data_of bytes = record {
  status_code = 200;
  body = some (
      (
        "_contentType",
        Value.str (or_default (get_string "mimeType" data_of) "application/octet-stream"),
      )
      ∷ (
        "_contentDisposition",
        Value.str (
            "attachment; filename=\""
            & or_default (get_string "fileName" data_of) (get_string "filename" data_of)
            & "\""),
      )
      ∷ []);
  raw_data = some bytes;
}

abbrev pub image_response : Object → List ℕ → WsResponse
image_response data_of bytes = record {
  status_code = 200;
  body = some (
      ("_contentType", Value.str (or_default (get_string "mimeType" data_of) "image/png"))
      ∷ ("width", value_or_null (lookup "width" data_of))
      ∷ ("height", value_or_null (lookup "height" data_of))
      ∷ []);
  raw_data = some bytes;
}

abbrev pub members_text : String → Members → String
members_text k Members.empty = ""
members_text k (Members.member j (Value.str s) rest) = if j == k then s else members_text k rest
members_text k (Members.member j v rest) = if j == k then "" else members_text k rest

abbrev pub nested_text : String → Option Value → String
nested_text k (some (Value.obj o)) = members_text k o
nested_text k _ = ""

-- The image, of the message itself or of its field "data".
unfoldable pub image_text : Object → String
image_text data_of =
    or_default (get_string "imageData" data_of) (nested_text "imageData" (lookup "data" data_of))

abbrev pub error_object : String → String → Object
error_object id e = ("requestId", Value.str id) ∷ ("error", Value.str e) ∷ []

-- What the three handlers share: an error is passed on, a request that wants JSON gets the data, and
-- another one the bytes, if there are any.
unfoldable pub on_binary :
    Option (List ℕ) → (List ℕ → WsResponse) → Bool → Object → PendingRequests → PendingRequests
on_binary bytes build wants_json data_of p =
    let id = get_string "requestId" data_of in
    if id == "" || not (is_some (load id p))
    then p
    else if not (get_string "error" data_of == "")
    then resolve id 400 (some (error_object id (get_string "error" data_of))) p
    else if wants_json
    then resolve id 200 (some data_of) p
    else elim bytes [
      | none ↦ resolve id 200 (some data_of) p
      | some b ↦ send_response id (build b) p
    ]

-- download-file-result; `wants_json` where the request has a callback or asks for base64. The length
-- of the file, which becomes a header, is left out.
unfoldable pub on_download :
    (String → Option (List ℕ)) → Bool → Object → PendingRequests → PendingRequests
on_download decode wants_json data_of p =
    on_binary (decoded decode (get_string "fileData" data_of)) (file_response data_of) wants_json
      data_of p

-- sheet-screenshot-result and scene-screenshot-result; `wants_json` where the request has a callback.
unfoldable pub on_screenshot :
    (String → Option (List ℕ)) → Bool → Object → PendingRequests → PendingRequests
on_screenshot decode wants_json data_of p =
    on_binary (decoded decode (image_text data_of)) (image_response data_of) wants_json data_of p
